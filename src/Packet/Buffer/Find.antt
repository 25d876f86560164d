-- ===== src/Packet/Buffer/Find.antt =====
-- `findPacket` and the questions about stream positions.
use peercast_yt.Prelude.{
  ℕ, ◌+◌, ◌-◌, ◌≤◌, ◌<◌, ◌≡◌, refl, Bool, true, false, arith, leb, ltb, if-elim, leb→le, dec_lt,
  ◌⊎◌, Option, none, some,
}
use peercast_yt.Prelude.Loops.{for_u32, rounds, rounds_inv, for_u32-rounds}
use peercast_yt.Packet.{Packet, view, view-assign}
use peercast_yt.Packet.Buffer.{Buffer, slot, better, answer, loop_fuel, find_packet}
use peercast_yt.Packet.Buffer.Inv.{Inv, Stored}

-- What the candidate is after the indices below `k`: none if no packet so far starts at `spos` or
-- later, and else one of these with the least position.
abbrev pub IsBest : Buffer → ℕ → ℕ → Option Packet → Type 0
IsBest b spos k none = (j : ℕ) → b.first_pos ≤ j → j < k → (slot b j).pos < spos
IsBest b spos k (some c) =
    (i : ℕ) × (b.first_pos ≤ i)
    × (i < k)
    × (c ≡ slot b i)
    × (spos ≤ c.pos)
    × ((j : ℕ) → b.first_pos ≤ j → j < k → spos ≤ (slot b j).pos → c.pos ≤ (slot b j).pos)

below_suc : (j k : ℕ) → j < k + 1 → (j < k) ⊎ (j ≡ k)
below_suc j k h = omega arith

better-IsBest :
    (b : Buffer) (spos k : ℕ) (o : Option Packet)
    → b.first_pos ≤ k
    → IsBest b spos k o
    → IsBest b spos (k + 1) (better b spos k o)
better-IsBest b spos k none f h =
    if-elim (IsBest b spos (k + 1)) (leb spos (slot b k).pos) (some (slot b k)) none
      (λ hit. (
        k,
        f,
        omega arith,
        refl,
        leb→le _ _ hit,
        λ j lo hi le. ground (arith, h j lo, below_suc j k hi),
      ))
      (λ miss j lo hi. ground (arith, h j lo, below_suc j k hi))
better-IsBest b spos k (some c) f (i, lo_i, hi_i, e, le_c, least) =
    if-elim (IsBest b spos (k + 1)) (leb spos (slot b k).pos) _ (some c)
      (λ hit.
        if-elim (IsBest b spos (k + 1)) (ltb (slot b k).pos c.pos) (some (slot b k)) (some c)
          (λ less. (
            k,
            f,
            omega arith,
            refl,
            leb→le _ _ hit,
            λ j lo hi le. ground (arith, least j lo, below_suc j k hi),
          ))
          (λ more. (
            i,
            lo_i,
            omega arith,
            e,
            le_c,
            λ j lo hi le. ground (arith, least j lo, below_suc j k hi),
          )))
      (λ miss.
        (i, lo_i, omega arith, e, le_c, λ j lo hi le. ground (arith, least j lo, below_suc j k hi)))

scan-IsBest :
    {b : Buffer} (spos : ℕ)
    → Inv b
    → 0 < b.write_pos
    → IsBest b spos b.write_pos
        (rounds (b.write_pos - b.first_pos) (better b spos) b.first_pos none)
scan-IsBest {b} spos v h =
    (rounds_inv (λ k o. (b.first_pos ≤ k) × IsBest b spos k o) (better b spos) b.write_pos
      (λ i s _ p. (omega (arith, p.0), better-IsBest b spos i s p.0 p.1))
      (b.write_pos - b.first_pos) b.first_pos none (omega (arith, v.first_eq))
      (omega arith, λ j lo hi. absurd (omega arith))).1

-- The loop of `findPacket` ends within its fuel.
pub scan_ends :
    {S : Type 0} {b : Buffer} (body : ℕ → S → S) (s : S)
    → Inv b
    → 0 < b.write_pos
    → for_u32 loop_fuel body b.first_pos b.last_pos s
      ≡ some (rounds (b.write_pos - b.first_pos) body b.first_pos s)
scan_ends {b = b} body s v h =
    for_u32-rounds (b.write_pos - b.first_pos) loop_fuel body b.first_pos b.last_pos s
      (omega (arith, v.last_eq, v.no_wrap)) (omega (arith, v.first_eq))
      (omega (arith, v.first_eq, v.last_eq))

-- What `findPacket` promises of its answer.
abbrev pub Finds : Buffer → ℕ → Packet → Bool × Packet → Type 0
Finds b spos out (false, p) =
    (p ≡ out) × ((j : ℕ) → b.first_pos ≤ j → j < b.write_pos → (slot b j).pos < spos)
Finds b spos out (true, p) =
    (i : ℕ) × (b.first_pos ≤ i)
    × (i < b.write_pos)
    × (view p ≡ view (slot b i))
    × (spos ≤ (slot b i).pos)
    × ((j : ℕ)
        → b.first_pos ≤ j
        → j < b.write_pos
        → spos ≤ (slot b j).pos
        → (slot b i).pos ≤ (slot b j).pos)

answer-Finds :
    {b : Buffer} (spos : ℕ) (out : Packet) (o : Option Packet)
    → Stored b
    → IsBest b spos b.write_pos o
    → Finds b spos out (answer out o)
answer-Finds spos out none s h = (refl, h)
answer-Finds {b} spos out (some c) s (i, lo, hi, e, le, least) = (
  i,
  lo,
  hi,
  rw e (view-assign out (slot b i) (s i lo hi).whole),
  ground arith,
  λ j l r q. ground (arith, least j l r q),
)

-- `findPacket(spos, pack)` on a buffer under the invariant ends; it answers false and leaves `pack`
-- alone when every packet in the buffer starts before `spos`; else it answers true and `pack` shows
-- the content of a packet of the buffer that starts at `spos` or later, and no such packet
-- starts earlier.
pub find_packet_lem :
    {b : Buffer} (spos : ℕ) (out : Packet)
    → Inv b
    → Stored b
    → (r : Bool × Packet) × (find_packet b spos out ≡ some r) × Finds b spos out r
unfolding find_packet
find_packet_lem {b} spos out v s = elim (dec_lt 0 b.write_pos) [
  | yes h ↦
      let o : Option Packet = rounds (b.write_pos - b.first_pos) (better b spos) b.first_pos none in
      (
        answer out o,
        ground (arith, scan_ends (better b spos) none v h),
        answer-Finds spos out o s (scan-IsBest spos v h),
      )
  | no h ↦ ((false, out), ground arith, (refl, λ j lo hi. absurd (omega arith)))
]
