-- ===== src/Packet/Buffer.antt =====
-- `ChanPacketBuffer` of core/common/chanpacket.h and chanpacket.cpp: a ring of MAX_PACKETS packets
-- between one writer and one reader. The array of packets is a function of the index, which every
-- access but the one of `copyFrom` takes modulo MAX_PACKETS. The counters are 32-bit words. Time is
-- an argument. The mutex makes each step below atomic.
pub mod Inv
pub mod Queue
pub mod Find
pub mod Positions
pub mod Wait
pub mod Copy
mod Tests
use peercast_yt.Prelude.{
  ℕ, zero, suc, ◌+◌, ◌-◌, ◌%◌, Bool, true, false, not, Option, none, some, List, [], ◌∷◌, ◌++◌, ltb,
  leb, ◌==◌, if◌then◌else◌, bit_and,
}
use peercast_yt.Prelude.Words.{add32, sub32}
use peercast_yt.Prelude.Loops.{for_u32}
use mathlib.Core.Option
use peercast_yt.Packet.{Packet, assign}

abbrev pub max_packets : ℕ
max_packets = 64

abbrev pub num_safepackets : ℕ
num_safepackets = 56

pub record Buffer : Type 0 where
  pub packets : ℕ → Packet
  pub last_pos : ℕ
  pub first_pos : ℕ
  pub safe_pos : ℕ
  pub read_pos : ℕ
  pub write_pos : ℕ
  pub accept : ℕ
  pub last_write_time : ℕ

-- `init()`: the packets stay as they are.
unfoldable pub init : Buffer → Buffer
init b = record {
  packets = b.packets;
  last_pos = 0;
  first_pos = 0;
  safe_pos = 0;
  read_pos = 0;
  write_pos = 0;
  accept = 0;
  last_write_time = 0;
}

-- `packets[i % MAX_PACKETS]`
abbrev pub slot : Buffer → ℕ → Packet
slot b i = b.packets (i % max_packets)

-- `packets[k] = p`, the assignment being that of `ChanPacket`.
abbrev pub store : (ℕ → Packet) → ℕ → Packet → ℕ → Packet
store ps k p j = if j == k then assign (ps k) p else ps j

unfoldable pub num_pending : Buffer → ℕ
num_pending b = sub32 b.write_pos b.read_pos

unfoldable pub will_skip : Buffer → Bool
will_skip b = leb max_packets (sub32 b.write_pos b.read_pos)

-- The body of `writePacket` under the lock.
unfoldable pub put : ℕ → Buffer → Packet → Bool → Buffer
put now b pack update =
    let w = add32 b.write_pos 1 in
    record b {
      packets = store b.packets (b.write_pos % max_packets) pack;
      last_pos = b.write_pos;
      write_pos = w;
      first_pos = if leb max_packets w then w - max_packets else 0;
      safe_pos = if leb num_safepackets w then w - num_safepackets else 0;
      read_pos = if update then w else b.read_pos;
      last_write_time = now;
    }

-- `writePacket(pack, updateReadPos)`. The caller's packet gets its sequence number.
unfoldable pub write_packet : ℕ → Buffer → Packet → Bool → Buffer × Packet × Bool
unfolding put will_skip
write_packet now b pack update =
    if pack.len == 0
    then (b, pack, false)
    else (if will_skip b
        then (b, pack, false)
        else (let stamped = record pack { sync = b.write_pos } in
            (put now b stamped update, stamped, true)))

pub data ReadResult : Type 0 where
  got behind timed_out waiting : ReadResult

-- One turn of the wait of `readPacket`: the lock is free, other threads act, and the clock is read.
pub record Tick : Type 0 where
  pub now : ℕ
  pub others : Buffer → Buffer

abbrev pub take_packet : Buffer → Packet → ReadResult × Buffer × Packet
take_packet b out =
    (got, record b { read_pos = add32 b.read_pos 1 }, assign out (slot b b.read_pos))

-- The `while` loop of `readPacket`, over the turns that come; `waiting` if they end before it does.
unfoldable pub read_loop : ℕ → List Tick → Buffer → Packet → ReadResult × Buffer × Packet
read_loop start [] b out =
    if leb b.write_pos b.read_pos then (waiting, b, out) else take_packet b out
read_loop start (t ∷ ts) b out =
    let rest = read_loop start ts (t.others b) out in
    if leb b.write_pos b.read_pos
    then (if ltb 30 (sub32 t.now start) then (timed_out, t.others b, out) else rest)
    else take_packet b out

-- `readPacket(pack)`, called at time `start`.
unfoldable pub read_packet : ℕ → List Tick → Buffer → Packet → ReadResult × Buffer × Packet
unfolding read_loop
read_packet start ticks b out =
    if ltb b.read_pos b.first_pos then (behind, b, out) else read_loop start ticks b out

unfoldable pub get_stream_pos : Buffer → ℕ → ℕ
get_stream_pos b i = (slot b i).pos

unfoldable pub get_stream_pos_end : Buffer → ℕ → ℕ
get_stream_pos_end b i = add32 (slot b i).pos (slot b i).len

unfoldable pub get_latest_pos : Buffer → ℕ
unfolding get_stream_pos
get_latest_pos b = if b.write_pos == 0 then 0 else get_stream_pos b b.last_pos

unfoldable pub get_oldest_pos : Buffer → ℕ
unfolding get_stream_pos
get_oldest_pos b = if b.write_pos == 0 then 0 else get_stream_pos b b.first_pos

unfoldable pub find_oldest_pos : Buffer → ℕ → ℕ
unfolding get_stream_pos
find_oldest_pos b spos =
    let lo = get_stream_pos b b.safe_pos in
    let hi = get_stream_pos b b.last_pos in
    if ltb spos lo then lo else (if ltb hi spos then hi else spos)

-- The loop body of `findPacket`: the candidate so far.
abbrev pub better : Buffer → ℕ → ℕ → Option Packet → Option Packet
better b spos i none = if leb spos (slot b i).pos then some (slot b i) else none
better b spos i (some c) =
    if leb spos (slot b i).pos
    then (if ltb (slot b i).pos c.pos then some (slot b i) else some c)
    else some c

-- The rounds that any of the loops over the buffer gets: one more than there are packets.
abbrev pub loop_fuel : ℕ
loop_fuel = 65

abbrev pub answer : Packet → Option Packet → Bool × Packet
answer out none = (false, out)
answer out (some c) = (true, assign out c)

-- `findPacket(spos, pack)`; `none` means that the loop has not ended.
unfoldable pub find_packet : Buffer → ℕ → Packet → Option (Bool × Packet)
find_packet b spos out =
    if b.write_pos == 0
    then some (false, out)
    else Option.map (answer out) (for_u32 loop_fuel (better b spos) b.first_pos b.last_pos none)

-- `for (int64_t i = lastPos; i >= firstPos; i--)`, with `n` rounds left.
unfoldable pub scan_down : Buffer → ℕ → ℕ
scan_down b zero = 0
scan_down b (suc n) =
    if (slot b (b.first_pos + n)).cont then scan_down b n else (slot b (b.first_pos + n)).pos

unfoldable pub get_latest_non_continuation_pos : Buffer → ℕ
unfolding scan_down
get_latest_non_continuation_pos b =
    if b.write_pos == 0 then 0 else scan_down b (b.last_pos + 1 - b.first_pos)

-- `for (int64_t i = firstPos; i <= lastPos; i++)`, with `n` rounds left.
unfoldable pub scan_up : Buffer → ℕ → ℕ → ℕ
scan_up b i zero = 0
scan_up b i (suc n) = if (slot b i).cont then scan_up b (i + 1) n else (slot b i).pos

unfoldable pub get_oldest_non_continuation_pos : Buffer → ℕ
unfolding scan_up
get_oldest_non_continuation_pos b =
    if b.write_pos == 0 then 0 else scan_up b b.first_pos (b.last_pos + 1 - b.first_pos)

pub record Stat : Type 0 where
  pub packet_lengths : List ℕ
  pub continuations : ℕ
  pub non_continuations : ℕ

abbrev pub no_stat : Stat
no_stat = record { packet_lengths = []; continuations = 0; non_continuations = 0 }

abbrev pub count_packet : Buffer → ℕ → Stat → Stat
count_packet b i s = record {
  packet_lengths = s.packet_lengths ++ (slot b i).len ∷ [];
  continuations = if (slot b i).cont then s.continuations + 1 else s.continuations;
  non_continuations = if (slot b i).cont then s.non_continuations else s.non_continuations + 1;
}

unfoldable pub get_statistics : Buffer → Option Stat
get_statistics b =
    if b.write_pos == 0
    then some no_stat
    else for_u32 loop_fuel (count_packet b) b.first_pos b.last_pos no_stat

-- The loop body of `copyFrom`. Its index is not taken modulo MAX_PACKETS: `none` is a write past
-- the array.
abbrev pub copy_one : Buffer → ℕ → ℕ → Option Buffer → Option Buffer
copy_one src req i none = none
copy_one src req i (some b) =
    if bit_and (slot src i).kind b.accept == 0
    then some b
    else (if ltb (slot src i).pos req
        then some b
        else (if leb max_packets b.write_pos
            then none
            else some (record b {
              last_pos = b.write_pos;
              packets = store b.packets b.write_pos (slot src i);
              write_pos = add32 b.write_pos 1;
            })))

-- `copyFrom(buf, reqPos)`: the outer `none` means that the loop has not ended, the inner one a
-- write past the array. The result is `lastPos - firstPos`.
unfoldable pub copy_from : Buffer → Buffer → ℕ → Option (Option (Buffer × ℕ))
copy_from b src req =
    let start = record b { first_pos = 0; last_pos = 0; safe_pos = 0; read_pos = 0 } in
    Option.map (Option.map (λ (c : Buffer). (c, sub32 c.last_pos c.first_pos)))
      (for_u32 loop_fuel (copy_one src req) src.first_pos src.last_pos (some start))
