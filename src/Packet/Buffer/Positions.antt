-- ===== src/Packet/Buffer/Positions.antt =====
-- The newest and the oldest packet that is no continuation, and the statistics of the buffer.
use peercast_yt.Prelude.{
  ℕ, zero, suc, ◌+◌, ◌-◌, ◌≤◌, ◌<◌, ◌≡◌, refl, true, false, arith, ◌==◌, dec_lt, ◌⊎◌, inl, inr,
  some, ◌∷◌, [], length, subst, Bool-cases, length-append,
}
use peercast_yt.Prelude.Loops.{rounds, rounds_inv}
use peercast_yt.Packet.Buffer.{
  Buffer, Stat, slot, no_stat, count_packet, scan_down, scan_up, get_statistics,
  get_latest_non_continuation_pos, get_oldest_non_continuation_pos,
}
use peercast_yt.Packet.Buffer.Inv.{Inv}
use peercast_yt.Packet.Buffer.Find.{scan_ends}

abbrev pub IsCont : Buffer → ℕ → Type 0
IsCont b i = (slot b i).cont ≡ true

-- `r` is the position of the newest packet of `[lo, hi)` that is no continuation, or 0 if all are.
abbrev pub IsLatestStart : Buffer → ℕ → ℕ → ℕ → Type 0
IsLatestStart b lo hi r =
    ((r ≡ 0) × ((j : ℕ) → lo ≤ j → j < hi → IsCont b j))
    ⊎ ((i : ℕ) × (lo ≤ i)
        × (i < hi)
        × ((slot b i).cont ≡ false)
        × (r ≡ (slot b i).pos)
        × ((j : ℕ) → i < j → j < hi → IsCont b j))

-- `r` is the position of the oldest packet of `[lo, hi)` that is no continuation, or 0 if all are.
abbrev pub IsOldestStart : Buffer → ℕ → ℕ → ℕ → Type 0
IsOldestStart b lo hi r =
    ((r ≡ 0) × ((j : ℕ) → lo ≤ j → j < hi → IsCont b j))
    ⊎ ((i : ℕ) × (lo ≤ i)
        × (i < hi)
        × ((slot b i).cont ≡ false)
        × (r ≡ (slot b i).pos)
        × ((j : ℕ) → lo ≤ j → j < i → IsCont b j))

le_split : (j k : ℕ) → j < suc k → (j < k) ⊎ (j ≡ k)
le_split j k h = omega arith

lt_split : (i j : ℕ) → i ≤ j → (i < j) ⊎ (j ≡ i)
lt_split i j h = omega arith

scan_down-IsLatestStart :
    (b : Buffer) (n : ℕ) → IsLatestStart b b.first_pos (b.first_pos + n) (scan_down b n)
unfolding scan_down
scan_down-IsLatestStart b zero = inl (refl, λ j lo hi. absurd (omega arith))
scan_down-IsLatestStart b (suc n) = elim (Bool-cases (slot b (b.first_pos + n)).cont) [
  | inr start ↦ rw start (
      inr (b.first_pos + n, omega arith, omega arith, start, refl, λ j lo hi. absurd (omega arith)))
  | inl cont ↦ rw cont (elim (scan_down-IsLatestStart b n) [
    | inl (e, all) ↦
        inl (e, λ j lo hi. ground (arith, all j lo, le_split j (b.first_pos + n) (omega arith)))
    | inr (i, lo, hi, s, e, all) ↦ inr (
      i,
      lo,
      omega arith,
      s,
      e,
      λ j l h. ground (arith, all j l, le_split j (b.first_pos + n) (omega arith)),
    )
  ])
]

scan_up-IsOldestStart : (b : Buffer) (i n : ℕ) → IsOldestStart b i (i + n) (scan_up b i n)
unfolding scan_up
scan_up-IsOldestStart b i zero = inl (refl, λ j lo hi. absurd (omega arith))
scan_up-IsOldestStart b i (suc n) = elim (Bool-cases (slot b i).cont) [
  | inr start ↦
      rw start (inr (i, omega arith, omega arith, start, refl, λ j lo hi. absurd (omega arith)))
  | inl cont ↦ rw cont (elim (scan_up-IsOldestStart b (i + 1) n) [
    | inl (e, all) ↦ inl (
      e,
      λ j lo hi. elim (lt_split i j lo) [
        | inl l ↦ all j (omega arith) (omega arith)
        | inr same ↦ rw same cont
      ],
    )
    | inr (k, lo, hi, s, e, all) ↦
        inr (k, omega arith, omega arith, s, e, λ j l h. ground (arith, all j, lt_split i j l))
  ])
]

-- `getLatestNonContinuationPos()` is the position of the newest packet in the buffer that is no
-- continuation, or 0 where every packet is one.
pub get_latest_non_continuation_pos_lem :
    {b : Buffer}
    → Inv b
    → IsLatestStart b b.first_pos b.write_pos (get_latest_non_continuation_pos b)
unfolding get_latest_non_continuation_pos
get_latest_non_continuation_pos_lem {b} v = elim (dec_lt 0 b.write_pos) [
  | yes h ↦
      let top : b.first_pos + (b.last_pos + 1 - b.first_pos) ≡ b.write_pos =
        omega (arith, v.last_eq, v.first_eq) in
      rw (nonzero h) (
        subst (λ hi. IsLatestStart b b.first_pos hi (scan_down b (b.last_pos + 1 - b.first_pos)))
          top (scan_down-IsLatestStart b (b.last_pos + 1 - b.first_pos)))
  | no h ↦
      let none_written : b.write_pos ≡ 0 = omega arith in
      rw none_written (inl (refl, λ j lo hi. absurd (omega arith)))
]
  where
    nonzero : 0 < b.write_pos → (b.write_pos == 0) ≡ false
    nonzero h = ground arith

-- `getOldestNonContinuationPos()` is the position of the oldest packet in the buffer that is no
-- continuation, or 0 where every packet is one.
pub get_oldest_non_continuation_pos_lem :
    {b : Buffer}
    → Inv b
    → IsOldestStart b b.first_pos b.write_pos (get_oldest_non_continuation_pos b)
unfolding get_oldest_non_continuation_pos
get_oldest_non_continuation_pos_lem {b} v = elim (dec_lt 0 b.write_pos) [
  | yes h ↦
      let top : b.first_pos + (b.last_pos + 1 - b.first_pos) ≡ b.write_pos =
        omega (arith, v.last_eq, v.first_eq) in
      rw (nonzero h) (
        subst
          (λ hi.
            IsOldestStart b b.first_pos hi (scan_up b b.first_pos (b.last_pos + 1 - b.first_pos)))
          top (scan_up-IsOldestStart b b.first_pos (b.last_pos + 1 - b.first_pos)))
  | no h ↦
      let none_written : b.write_pos ≡ 0 = omega arith in
      rw none_written (inl (refl, λ j lo hi. absurd (omega arith)))
]
  where
    nonzero : 0 < b.write_pos → (b.write_pos == 0) ≡ false
    nonzero h = ground arith

-- The statistics of the packets from `lo` to `hi`.
abbrev pub Counts : Buffer → ℕ → ℕ → Stat → Type 0
Counts b lo hi s =
    (lo ≤ hi)
    × (length s.packet_lengths ≡ hi - lo)
    × (s.continuations + s.non_continuations ≡ hi - lo)

count_packet-Counts :
    (b : Buffer) (lo k : ℕ) (s : Stat) → Counts b lo k s → Counts b lo (k + 1) (count_packet b k s)
count_packet-Counts b lo k s h =
    (omega arith, omega (arith, length-append s.packet_lengths ((slot b k).len ∷ [])), ground arith)

-- `getStatistics()` ends, lists one length for each packet in the buffer, and counts each packet
-- once, as a continuation or not.
pub get_statistics_lem :
    {b : Buffer}
    → Inv b
    → (s : Stat) × (get_statistics b ≡ some s) × Counts b b.first_pos b.write_pos s
unfolding get_statistics
get_statistics_lem {b} v = elim (dec_lt 0 b.write_pos) [
  | yes h ↦
      let n = b.write_pos - b.first_pos in
      (
        rounds n (count_packet b) b.first_pos no_stat,
        ground (arith, scan_ends (count_packet b) no_stat v h),
        rounds_inv (λ k s. Counts b b.first_pos k s) (count_packet b) b.write_pos
            (λ i s _ p. count_packet-Counts b b.first_pos i s p) n b.first_pos no_stat
            (omega (arith, v.first_eq)) (omega arith),
      )
  | no h ↦ (no_stat, ground arith, omega (arith, v.first_eq))
]
