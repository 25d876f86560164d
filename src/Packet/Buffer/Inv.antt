-- ===== src/Packet/Buffer/Inv.antt =====
-- The representation invariant of `ChanPacketBuffer`, for fewer than 2 ^ 32 packets.
use peercast_yt.Prelude.{
  ℕ, ◌+◌, ◌-◌, ◌%◌, ◌≤◌, ◌<◌, ◌≡◌, refl, Bool, arith, leb, ◌==◌, if-elim, dec_lt, ◌≢◌, List, [],
  ◌∷◌, take, drop, length-append, length-take,
}
use peercast_yt.Prelude.Words.{u32_mod}
use peercast_yt.Packet.{Packet, assign, IsWhole}
use peercast_yt.Packet.Buffer.{
  Buffer, max_packets, num_safepackets, slot, init, put, will_skip, write_packet, read_packet,
  read_loop, got, behind, waiting, Tick,
}

pub record Inv (b : Buffer) : Type 0 where
  pub no_wrap : b.write_pos < u32_mod
  pub last_eq : b.last_pos ≡ b.write_pos - 1
  pub first_eq : b.first_pos ≡ b.write_pos - max_packets
  pub safe_eq : b.safe_pos ≡ b.write_pos - num_safepackets
  pub read_le : b.read_pos ≤ b.write_pos
  pub pending_le : b.write_pos - b.read_pos ≤ max_packets

-- Every packet that the buffer still holds stands in its slot, whole and not empty.
pub record Holds (b : Buffer) (i : ℕ) : Type 0 where
  pub stamped : (slot b i).sync ≡ i
  pub filled : 0 < (slot b i).len
  pub whole : IsWhole (slot b i)

abbrev pub Stored : Buffer → Type 0
Stored b = (i : ℕ) → b.first_pos ≤ i → i < b.write_pos → Holds b i

pub init-Inv : (b : Buffer) → Inv (init b)
unfolding init
init-Inv b = omega arith

pub init-Stored : (b : Buffer) → Stored (init b)
unfolding init
init-Stored b i h k = absurd (omega arith)

-- A buffer under the invariant skips exactly when MAX_PACKETS packets are unread.
pub will_skip_lem : {b : Buffer} → Inv b → will_skip b ≡ leb max_packets (b.write_pos - b.read_pos)
unfolding will_skip
will_skip_lem v = ground arith

pub put-Inv :
    {b : Buffer} (now : ℕ) (p : Packet) (u : Bool)
    → Inv b
    → b.write_pos + 1 < u32_mod
    → b.write_pos - b.read_pos < max_packets
    → Inv (put now b p u)
unfolding put
put-Inv now p u v h k = ground arith

-- `writePacket`, while the count of packets stays below 2 ^ 32, keeps the representation invariant:
-- `lastPos`, `firstPos` and `safePos` follow `writePos` at their distances, and the reader is at
-- most MAX_PACKETS packets behind it.
pub write_packet-Inv :
    {b : Buffer} (now : ℕ) (p : Packet) (u : Bool)
    → Inv b
    → b.write_pos + 1 < u32_mod
    → Inv (write_packet now b p u).0
unfolding write_packet
write_packet-Inv {b} now p u v h =
    ground (arith, will_skip_lem v, put-Inv now (record p { sync = b.write_pos }) u v h)

pub assign-IsWhole : (p q : Packet) → IsWhole q → IsWhole (assign p q)
unfolding assign
assign-IsWhole p q h =
    omega
      (arith, length-append (take q.len q.bytes) (drop q.len p.bytes), length-take q.len q.bytes)

-- The slot just written, and the others.
pub put-slot_new :
    (b : Buffer) (now : ℕ) (p : Packet) (u : Bool)
    → slot (put now b p u) b.write_pos ≡ assign (slot b b.write_pos) p
unfolding put
put-slot_new b now p u = ground arith

pub put-slot_old :
    (b : Buffer) (now : ℕ) (p : Packet) (u : Bool) (i : ℕ)
    → i < b.write_pos
    → b.write_pos < i + max_packets
    → slot (put now b p u) i ≡ slot b i
unfolding put
put-slot_old b now p u i h k = ground (arith, apart)
  where
    apart : i % max_packets ≢ b.write_pos % max_packets
    apart = omega arith

assign-Holds :
    (p q : Packet) (i : ℕ)
    → q.sync ≡ i
    → 0 < q.len
    → IsWhole q
    → ((assign p q).sync ≡ i) × (0 < (assign p q).len) × IsWhole (assign p q)
assign-Holds p q i e f w = (unfold assign in e, unfold assign in f, assign-IsWhole p q w)

-- Writing a whole, non-empty packet keeps what the buffer holds, up to the one it overwrites.
pub put-Stored :
    {b : Buffer} (now : ℕ) (p : Packet) (u : Bool)
    → Inv b
    → b.write_pos + 1 < u32_mod
    → p.sync ≡ b.write_pos
    → 0 < p.len
    → IsWhole p
    → Stored b
    → Stored (put now b p u)
put-Stored {b} now p u v h e f w s i lo hi = elim (dec_lt i b.write_pos) [
  | yes old ↦
      let kept = put-slot_old b now p u i old (omega (arith, first)) in
      let it = s i (omega (arith, first)) old in
      record { stamped = rw kept it.stamped; filled = rw kept it.filled; whole = rw kept it.whole }
  | no new ↦
      let here : i ≡ b.write_pos = omega (arith, last) in
      let slot_eq = put-slot_new b now p u in
      let it = assign-Holds (slot b b.write_pos) p b.write_pos e f w in
      record {
        stamped = rw (here, slot_eq) it.0;
        filled = rw (here, slot_eq) it.1;
        whole = rw (here, slot_eq) it.2;
      }
]
  where
    first :
        ((put now b p u).first_pos ≡ b.write_pos + 1 - max_packets)
        × (b.first_pos ≡ b.write_pos - max_packets)
    first = (unfold put in ground arith, v.first_eq)

    last : (put now b p u).write_pos ≡ b.write_pos + 1
    last = unfold put in omega arith

-- After `writePacket` of a packet whose data holds its payload, while the count of packets stays
-- below 2 ^ 32, every packet that the buffer still holds, the new one too, stands in its slot, whole
-- and not empty, and with its index as its sequence number, if this was so before.
pub write_packet-Stored :
    {b : Buffer} (now : ℕ) (p : Packet) (u : Bool)
    → Inv b
    → b.write_pos + 1 < u32_mod
    → IsWhole p
    → Stored b
    → Stored (write_packet now b p u).0
unfolding write_packet
write_packet-Stored {b} now p u v h w s =
    if-elim (λ (r : Buffer × Packet × Bool). Stored r.0) (p.len == 0) _ _ (λ _. s)
      λ nonempty.
        if-elim (λ (r : Buffer × Packet × Bool). Stored r.0) (will_skip b) _ _ (λ _. s)
          λ _. put-Stored now (record p { sync = b.write_pos }) u v h refl (ground arith) w s

-- With a packet pending, `readPacket` takes the one at `read_pos` and moves on by one.
pub read_packet_pending :
    {b : Buffer} (start : ℕ) (ticks : List Tick) (out : Packet)
    → Inv b
    → b.read_pos < b.write_pos
    → read_packet start ticks b out
      ≡ (got, record b { read_pos = b.read_pos + 1 }, assign out (slot b b.read_pos))
unfolding read_packet read_loop
read_packet_pending start [] out v h = ground arith
read_packet_pending start (t ∷ ts) out v h = ground arith

-- With none pending and no turn to come it waits.
pub read_packet_empty :
    {b : Buffer} (start : ℕ) (out : Packet)
    → Inv b
    → b.write_pos ≤ b.read_pos
    → read_packet start [] b out ≡ (waiting, b, out)
unfolding read_packet read_loop
read_packet_empty start out v h = ground arith

pub read-Inv :
    {b : Buffer} → Inv b → b.read_pos < b.write_pos → Inv (record b { read_pos = b.read_pos + 1 })
read-Inv v h = omega arith

-- Under the invariant a reader is never too far behind: whoever writes past it is refused first.
pub read_loop-ne-behind :
    (start : ℕ) (ticks : List Tick) (b : Buffer) (out : Packet)
    → (read_loop start ticks b out).0 ≢ behind
unfolding read_loop
read_loop-ne-behind start [] b out = ground arith
read_loop-ne-behind start (t ∷ ts) b out =
    ground (arith, read_loop-ne-behind start ts (t.others b) out)

-- Under the invariant `readPacket` does not throw "Read too far behind", whatever the other threads
-- do while it waits.
pub read_packet-ne-behind :
    {b : Buffer} (start : ℕ) (ticks : List Tick) (out : Packet)
    → Inv b
    → (read_packet start ticks b out).0 ≢ behind
unfolding read_packet
read_packet-ne-behind {b} start ticks out v = ground (arith, read_loop-ne-behind start ticks b out)
