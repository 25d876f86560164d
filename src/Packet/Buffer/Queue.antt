-- ===== src/Packet/Buffer/Queue.antt =====
-- `ChanPacketBuffer` against its contract: a queue of at most MAX_PACKETS packets, which refuses an
-- empty packet and one that does not fit, and hands the others over in order.
use peercast_yt.Prelude.{
  ℕ, zero, suc, ◌+◌, ◌-◌, ◌≤◌, ◌<◌, ◌≡◌, refl, ap, ap₂, Bool, true, false, arith, leb, ◌==◌,
  if◌then◌else◌, dec_lt, length, List, [], ◌∷◌, ◌++◌, All,
}
use native.Mathlib.Nat.{add-zero}
use peercast_yt.Prelude.Words.{u32_mod}
use peercast_yt.Packet.{Packet, Content, view, IsWhole, view-assign}
use peercast_yt.Packet.Buffer.{
  Buffer, ReadResult, max_packets, slot, put, write_packet, read_packet, got, behind, timed_out,
  waiting,
}
use peercast_yt.Packet.Buffer.Inv.{
  Inv, Stored, will_skip_lem, put-slot_new, put-slot_old, write_packet-Inv, write_packet-Stored,
  read_packet_pending, read_packet_empty, read-Inv,
}

-- The `n` packets from index `i` on.
abbrev pub window : Buffer → ℕ → ℕ → List Content
window b i zero = []
window b i (suc n) = view (slot b i) ∷ window b (i + 1) n

-- What the reader has still to get.
abbrev pub pending : Buffer → List Content
pending b = window b b.read_pos (b.write_pos - b.read_pos)

pub length-window : (b : Buffer) (i n : ℕ) → length (window b i n) ≡ n
length-window b i zero = refl
length-window b i (suc n) = ap suc (length-window b (i + 1) n)

-- The abstract queue: the packets that wait, and how many were ever written.
pub record Queue : Type 0 where
  pub items : List Content
  pub count : ℕ

abbrev pub stamp : Packet → ℕ → Packet
stamp p n = record p { sync = n }

pub data Op : Type 0 where
  write : Packet → Op
  read : Op

pub data Reply : Type 0 where
  wrote : Bool → Reply
  read_one : Content → Reply
  must_wait : Reply
  failed : Reply

unfoldable pub queue_step : Queue → Op → Queue × Reply
queue_step q (write p) =
    if p.len == 0
    then (q, wrote false)
    else (if leb max_packets (length q.items) then (q, wrote false) else (
      record { items = q.items ++ view (stamp p q.count) ∷ []; count = q.count + 1 },
      wrote true,
    ))
queue_step q read = elim q.items [
  | [] ↦ (q, must_wait)
  | x ∷ xs ↦ (record q { items = xs }, read_one x)
]

abbrev pub read_reply : ReadResult × Buffer × Packet → Buffer × Reply
read_reply (got, b, p) = (b, read_one (view p))
read_reply (behind, b, p) = (b, failed)
read_reply (timed_out, b, p) = (b, failed)
read_reply (waiting, b, p) = (b, must_wait)

-- The same call on the buffer; a read does not wait, and goes into a packet that holds `out`.
unfoldable pub buffer_step : ℕ → Packet → Buffer → Op → Buffer × Reply
buffer_step now out b (write p) =
    let (b', p', done) = write_packet now b p false in (b', wrote done)
buffer_step now out b read = read_reply (read_packet now [] b out)

abbrev pub model : Buffer → Queue
model b = record { items = pending b; count = b.write_pos }

abbrev pub IsWholeOp : Op → Type 0
IsWholeOp (write p) = IsWhole p
IsWholeOp read = Unit {0}

-- A window that a write does not reach.
window-put :
    (b : Buffer) (now : ℕ) (p : Packet) (n i : ℕ)
    → i + n ≡ b.write_pos
    → b.write_pos < i + max_packets
    → window (put now b p false) i n ≡ window b i n
window-put b now p zero i e h = refl
window-put b now p (suc n) i e h =
    ap₂ (λ q r. view q ∷ r) (put-slot_old b now p false i (omega arith) h)
      (window-put b now p n (i + 1) (omega arith) (omega arith))

-- A window that ends just before a slot, and one longer.
window-suc :
    (b : Buffer) (n i : ℕ) → window b i (suc n) ≡ window b i n ++ view (slot b (i + n)) ∷ []
window-suc b zero i = rw add-zero
window-suc b (suc n) i = ap (λ r. view (slot b i) ∷ r) (rw (window-suc b n (i + 1)) (rw shift))
  where
    shift : i + 1 + n ≡ i + suc n
    shift = omega arith

pending-put :
    {b : Buffer} (now : ℕ) (p : Packet)
    → Inv b
    → b.write_pos + 1 < u32_mod
    → IsWhole p
    → b.write_pos - b.read_pos < max_packets
    → pending (put now b p false) ≡ pending b ++ view p ∷ []
pending-put {b} now p v h w k =
    rw
      (
        counters.0,
        counters.1,
        gap,
        window-suc (put now b p false) (b.write_pos - b.read_pos) b.read_pos,
      )
      (ap₂ (λ r (c : Content). r ++ c ∷ [])
        (window-put b now p (b.write_pos - b.read_pos) b.read_pos (omega (arith, v.read_le))
          (omega arith))
        (rw (reach, put-slot_new b now p false) (view-assign (slot b b.write_pos) p w)))
  where
    counters :
        ((put now b p false).read_pos ≡ b.read_pos)
        × ((put now b p false).write_pos ≡ b.write_pos + 1)
    counters = (unfold put in refl, unfold put in omega arith)

    gap : b.write_pos + 1 - b.read_pos ≡ suc (b.write_pos - b.read_pos)
    gap = omega (arith, v.read_le)

    reach : b.read_pos + (b.write_pos - b.read_pos) ≡ b.write_pos
    reach = omega (arith, v.read_le)

write_refines :
    {b : Buffer} (now : ℕ) (out p : Packet)
    → Inv b
    → b.write_pos + 1 < u32_mod
    → IsWhole p
    → let (b', r) = buffer_step now out b (write p) in
      (model b', r) ≡ queue_step (model b) (write p)
unfolding buffer_step write_packet queue_step
write_refines {b} now out p v h w = ground (
  arith,
  will_skip_lem v,
  length-window b b.read_pos (b.write_pos - b.read_pos),
  pending-put now (stamp p b.write_pos) v h w,
  put-count,
)
  where
    put-count : (put now b (stamp p b.write_pos) false).write_pos ≡ b.write_pos + 1
    put-count = unfold put in omega arith

read_refines :
    {b : Buffer} (now : ℕ) (out : Packet)
    → Inv b
    → Stored b
    → let (b', r) = buffer_step now out b read in (model b', r) ≡ queue_step (model b) read
unfolding buffer_step queue_step
read_refines {b} now out v s = elim (dec_lt b.read_pos b.write_pos) [
  | yes h ↦
      let gap : b.write_pos - b.read_pos ≡ suc (b.write_pos - (b.read_pos + 1)) = omega arith in
      let held = s b.read_pos (omega (arith, v.first_eq, v.pending_le)) h in
      rw (read_packet_pending now [] out v h, gap)
        (ap (λ c. (model (record b { read_pos = b.read_pos + 1 }), read_one c))
          (view-assign out (slot b b.read_pos) held.whole))
  | no h ↦
      let gap : b.write_pos - b.read_pos ≡ 0 = omega arith in
      rw (read_packet_empty now out v (omega arith), gap)
]

-- What the calls keep.
record Kept (b b' : Buffer) : Type 0 where
  inv : Inv b'
  stored : Stored b'
  grows : b'.write_pos ≤ b.write_pos + 1

write-grows :
    (b : Buffer) (now : ℕ) (p : Packet) (u : Bool)
    → b.write_pos + 1 < u32_mod
    → (write_packet now b p u).0.write_pos ≤ b.write_pos + 1
unfolding write_packet put
write-grows b now p u h = ground arith

step-Kept :
    {b : Buffer} (now : ℕ) (out : Packet) (op : Op)
    → Inv b
    → Stored b
    → b.write_pos + 1 < u32_mod
    → IsWholeOp op
    → Kept b (buffer_step now out b op).0
unfolding buffer_step
step-Kept {b} now out (write p) v s h w = record {
  inv = write_packet-Inv now p false v h;
  stored = write_packet-Stored now p false v h w s;
  grows = write-grows b now p false h;
}
step-Kept {b} now out read v s h w = elim (dec_lt b.read_pos b.write_pos) [
  | yes some_left ↦ rw (read_packet_pending now [] out v some_left) (record {
    inv = read-Inv v some_left;
    stored = λ i lo hi.
        let it = s i lo hi in record { stamped = it.stamped; filled = it.filled; whole = it.whole };
    grows = omega arith;
  })
  | no none_left ↦
      rw (read_packet_empty now out v (omega arith))
        (record { inv = v; stored = s; grows = omega arith })
]

-- The replies to a sequence of calls, and those of the abstract queue.
unfoldable pub buffer_run : ℕ → Packet → Buffer → List Op → List Reply
buffer_run now out b [] = []
buffer_run now out b (op ∷ ops) =
    let (b', r) = buffer_step now out b op in r ∷ buffer_run now out b' ops

unfoldable pub queue_run : Queue → List Op → List Reply
queue_run q [] = []
queue_run q (op ∷ ops) = let (q', r) = queue_step q op in r ∷ queue_run q' ops

step_refines :
    {b : Buffer} (now : ℕ) (out : Packet) (op : Op)
    → Inv b
    → Stored b
    → b.write_pos + 1 < u32_mod
    → IsWholeOp op
    → let (b', r) = buffer_step now out b op in (model b', r) ≡ queue_step (model b) op
step_refines now out (write p) v s h w = write_refines now out p v h w
step_refines now out read v s h w = read_refines now out v s

-- Under the invariant, and as long as the count of packets stays below 2 ^ 32, the calls
-- `writePacket` (without `updateReadPos`, on packets whose data holds their payload) and `readPacket`
-- (called when it need not wait, or answering that it would) reply exactly as a queue of at most 64
-- packets does: a write is refused when the packet is empty or 64 are unread, and the reads return
-- the written packets in order, unchanged but for their sequence numbers, which count the packets written.
pub run_refines :
    (now : ℕ) (out : Packet) (ops : List Op) {b : Buffer}
    → Inv b
    → Stored b
    → All IsWholeOp ops
    → b.write_pos + length ops < u32_mod
    → buffer_run now out b ops ≡ queue_run (model b) ops
unfolding buffer_run queue_run
run_refines now out [] v s w h = refl
run_refines now out (op ∷ ops) {b} v s w h =
    let kept = step-Kept now out op v s (omega arith) w.0 in
    rw (
      run_refines now out ops kept.inv kept.stored w.1 (omega (arith, kept.grows)),
      ← step_refines now out op v s (omega arith) w.0,
    )
