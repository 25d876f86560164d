-- ===== src/Pcp/Output.antt =====
-- `PCPStream::flush` of core/common/pcp.cpp: the packets that wait in `outData` are written to the socket.
-- The loop runs on fuel; the window of the buffer has at most 64 packets.
mod Tests
use peercast_yt.Prelude.{
  ℕ, zero, suc, ◌+◌, ◌-◌, ◌≤◌, ◌<◌, ◌≡◌, refl, sym, ap, ◌∙◌, false, true, List, [], ◌∷◌, ◌++◌, ◌==◌,
  if◌then◌else◌, arith, append-nil, append_assoc, subst,
}
use peercast_yt.Packet.{Packet, Content, view, payload, IsWhole, write_raw, assign, view-assign}
use peercast_yt.Packet.Buffer.{
  Buffer, slot, ReadResult, got, behind, timed_out, waiting, num_pending, read_packet, max_packets,
}
use peercast_yt.Packet.Buffer.Inv.{Inv, Stored, read_packet_pending, read-Inv}
use peercast_yt.Packet.Buffer.Queue.{pending, window}

-- The buffer and what was written, an exception of `readPacket`, or the end of the fuel.
pub data Flushed : Type 0 where
  done : Buffer → List ℕ → Flushed
  failed : Flushed
  out_of_fuel : Flushed

abbrev pub go_on :
    (Buffer → Packet → List ℕ → Flushed) → List ℕ → ReadResult × Buffer × Packet → Flushed
go_on again out (got, b, p) = again b p (write_raw p out)
go_on again out (behind, b, p) = failed
go_on again out (timed_out, b, p) = failed
go_on again out (waiting, b, p) = failed

-- The loop, over the local packet, at time `now`; a call that finds a packet does not wait.
unfoldable pub flush_loop : ℕ → ℕ → Buffer → Packet → List ℕ → Flushed
unfolding num_pending read_packet write_raw
flush_loop zero now b p out = out_of_fuel
flush_loop (suc f) now b p out =
    let rest = go_on (flush_loop f now) out (read_packet now [] b p) in
    if num_pending b == 0 then done b out else rest

unfoldable pub flush : ℕ → Buffer → Packet → List ℕ → Flushed
unfolding flush_loop
flush now b p out = flush_loop 65 now b p out

-- The bytes of some packets.
abbrev pub bodies : List Content → List ℕ
bodies [] = []
bodies (c ∷ cs) = c.body ++ bodies cs

-- All that waited is written, in order, and the buffer has nothing left for its reader.
pub record Drained (b : Buffer) (out : List ℕ) (r : Flushed) : Type 0 where
  pub after : Buffer
  pub result : r ≡ done after (out ++ bodies (pending b))
  pub empty : pending after ≡ []
  pub kept : after.write_pos ≡ b.write_pos
  pub inv : Inv after

num_pending_lem : {b : Buffer} → Inv b → num_pending b ≡ b.write_pos - b.read_pos
unfolding num_pending
num_pending_lem {b} v = ground (arith, v.read_le, v.no_wrap)

window-read : (b : Buffer) (k i n : ℕ) → window (record b { read_pos = k }) i n ≡ window b i n
window-read b k i zero = refl
window-read b k i (suc n) = ap (λ r. view (slot b i) ∷ r) (window-read b k (i + 1) n)

flush_none :
    (f now : ℕ) {b : Buffer} (p : Packet) (out : List ℕ)
    → Inv b
    → b.write_pos - b.read_pos ≡ 0
    → Drained b out (flush_loop (suc f) now b p out)
unfolding flush_loop
flush_none f now {b} p out v e = record {
  after = b;
  result = rw (num_pending_lem v, e) (ap (done b) (sym (append-nil out)));
  empty = rw e refl;
  kept = refl;
  inv = v;
}

flush_some :
    (f now : ℕ) {b : Buffer} (p : Packet) (out : List ℕ)
    → Inv b
    → Stored b
    → b.read_pos < b.write_pos
    → flush_loop (suc f) now b p out
      ≡ flush_loop f now
          (record b { read_pos = b.read_pos + 1 })
          (assign p (slot b b.read_pos))
          (out ++ payload (slot b b.read_pos))
unfolding flush_loop write_raw
flush_some f now {b} p out v s h =
    rw (read_packet_pending now [] p v h, positive)
      (ap
        (λ (c : Content).
          flush_loop f now (record b { read_pos = b.read_pos + 1 }) (assign p (slot b b.read_pos))
            (out ++ c.body))
        (view-assign p (slot b b.read_pos) whole))
  where
    whole : IsWhole (slot b b.read_pos)
    whole = (s b.read_pos (omega (arith, v.first_eq, v.pending_le)) h).whole

    positive : (num_pending b == 0) ≡ false
    positive = ground (arith, num_pending_lem v, h)

read-Stored : (b : Buffer) → Stored b → Stored (record b { read_pos = b.read_pos + 1 })
read-Stored b s i lo hi =
    let it = s i lo hi in record { stamped = it.stamped; filled = it.filled; whole = it.whole }

-- One packet more.
Drained-read :
    {b : Buffer} (out : List ℕ) {r : Flushed}
    → b.read_pos < b.write_pos
    → Drained (record b { read_pos = b.read_pos + 1 }) (out ++ payload (slot b b.read_pos)) r
    → Drained b out r
Drained-read {b} out {r} h d = record {
  after = d.after;
  result = d.result ∙ ap (done d.after) joined;
  empty = d.empty;
  kept = d.kept;
  inv = d.inv;
}
  where
    gap : b.write_pos - b.read_pos ≡ suc (b.write_pos - (b.read_pos + 1))
    gap = omega (arith, h)

    joined :
        (out ++ payload (slot b b.read_pos))
          ++ bodies (pending (record b { read_pos = b.read_pos + 1 }))
        ≡ out ++ bodies (pending b)
    joined =
        append_assoc out (payload (slot b b.read_pos)) _
        ∙ rw (gap, window-read b (b.read_pos + 1) (b.read_pos + 1) (b.write_pos - (b.read_pos + 1)))
            refl

flush_loop_lem :
    (n f now : ℕ) {b : Buffer} (p : Packet) (out : List ℕ)
    → Inv b
    → Stored b
    → b.write_pos - b.read_pos ≡ n
    → Drained b out (flush_loop (suc (n + f)) now b p out)
flush_loop_lem zero f now p out v s e = flush_none (0 + f) now p out v e
flush_loop_lem (suc n) f now {b} p out v s e =
    subst (λ k. Drained b out (flush_loop (suc k) now b p out)) fuel
      (subst (Drained b out) (sym (flush_some (suc (n + f)) now p out v s h)) (
        Drained-read out h
          (flush_loop_lem n f now _ _ (read-Inv v h) (read-Stored _ s) (omega (arith, e, h)))))
  where
    h : b.read_pos < b.write_pos
    h = omega (arith, e)

    fuel : suc (n + f) ≡ suc n + f
    fuel = omega arith

-- `flush`, on a buffer that satisfies its invariants, ends without an exception: it writes the payloads of
-- all packets that waited, in the order in which they were put, each once and nothing else, and leaves a
-- buffer that satisfies the invariant, in which none waits and whose count of packets is the same.
pub flush_lem :
    (now : ℕ) {b : Buffer} (p : Packet) (out : List ℕ)
    → Inv b
    → Stored b
    → Drained b out (flush now b p out)
unfolding flush
flush_lem now {b} p out v s =
    subst (λ f. Drained b out (flush_loop f now b p out)) fuel
      (flush_loop_lem (b.write_pos - b.read_pos) (64 - (b.write_pos - b.read_pos)) now p out v s
        refl)
  where
    fuel : suc (b.write_pos - b.read_pos + (64 - (b.write_pos - b.read_pos))) ≡ 65
    fuel = omega (arith, v.pending_le)
