-- ===== src/Packet/Buffer/Copy.antt =====
-- `copyFrom`, which writes at an index that it does not take modulo MAX_PACKETS.
use peercast_yt.Prelude.{
  ℕ, ◌+◌, ◌-◌, ◌≤◌, ◌<◌, ◌≡◌, refl, ◌≢◌, Option, none, some, arith, ltb, leb, ◌==◌, if-elim,
  bit_and,
}
use peercast_yt.Prelude.Loops.{rounds, rounds_inv}
use peercast_yt.Packet.Buffer.{Buffer, max_packets, slot, copy_one, copy_from}
use peercast_yt.Packet.Buffer.Inv.{Inv}
use peercast_yt.Packet.Buffer.Find.{scan_ends}

-- The packet at `i` is one that `copyFrom` copies into a buffer that accepts the kinds `mask`.
abbrev pub IsWanted : Buffer → ℕ → ℕ → ℕ → Type 0
IsWanted src mask req i = (bit_and (slot src i).kind mask ≢ 0) × (req ≤ (slot src i).pos)

-- Before a wanted packet the full target is as it was; after one the write was past the array.
abbrev Overran : Buffer → ℕ → ℕ → ℕ → Option Buffer → Type 0
Overran src mask i k none = Unit {0}
Overran src mask i k (some b) = (k ≤ i) × (b.accept ≡ mask) × (max_packets ≤ b.write_pos)

copy_one-Overran :
    (src : Buffer) (req mask i k : ℕ) (o : Option Buffer)
    → IsWanted src mask req i
    → Overran src mask i k o
    → Overran src mask i (k + 1) (copy_one src req k o)
copy_one-Overran src req mask i k none w h = tt
copy_one-Overran src req mask i k (some b) w h =
    if-elim (Overran src mask i (k + 1)) (bit_and (slot src k).kind b.accept == 0) (some b) _
      (λ other_kind. skip (λ e. w.0 (ground arith)))
      λ kind.
        if-elim (Overran src mask i (k + 1)) (ltb (slot src k).pos req) (some b) _
          (λ too_old. skip (λ e. absurd (ground arith)))
          λ pos.
            if-elim (Overran src mask i (k + 1)) (leb max_packets b.write_pos) none _ (λ _. tt)
              λ room. absurd (ground arith)
  where
    skip : k ≢ i → Overran src mask i (k + 1) (some b)
    skip ne = omega arith

overrun_result :
    (src : Buffer) (mask i k : ℕ) (o : Option Buffer) → i < k → Overran src mask i k o → o ≡ none
overrun_result src mask i k none h p = refl
overrun_result src mask i k (some b) h p = absurd (omega arith)

-- `copyFrom` does not start the target's `writePos` over: into a buffer that has seen MAX_PACKETS
-- packets or more, the copy of any packet of the source that it accepts, and that starts at `reqPos`
-- or later, is a write past the array.
pub copy_from_overruns :
    {src : Buffer} (b : Buffer) (req i : ℕ)
    → Inv src
    → max_packets ≤ b.write_pos
    → src.first_pos ≤ i
    → i < src.write_pos
    → IsWanted src b.accept req i
    → copy_from b src req ≡ some none
unfolding copy_from
copy_from_overruns {src} b req i v full lo hi w = rw (
  scan_ends (copy_one src req) (some start) v (omega arith),
  overrun_result src b.accept i src.write_pos _ hi done,
)
  where
    start : Buffer
    start = record b { first_pos = 0; last_pos = 0; safe_pos = 0; read_pos = 0 }

    done :
        Overran src b.accept i src.write_pos
          (rounds (src.write_pos - src.first_pos) (copy_one src req) src.first_pos (some start))
    done =
        rounds_inv (λ k o. Overran src b.accept i k o) (copy_one src req) src.write_pos
          (λ k o _ p. copy_one-Overran src req b.accept i k o w p) (src.write_pos - src.first_pos)
          src.first_pos (some start) (omega (arith, v.first_eq)) (omega arith)
