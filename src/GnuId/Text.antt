-- ===== src/GnuId/Text.antt =====
-- Identifiers in hexadecimal, and random ones.
use peercast_yt.Prelude.{
  IsByte, ℕ, zero, suc, ◌*◌, ◌/◌, ◌%◌, ◌≤◌, ◌<◌, ◌≡◌, refl, ap₂, true, false, List, [], ◌∷◌, map,
  ltb, ◌==◌, arith, All, length, take, set, ◌≢◌, length-take, Bool-cases, inl, inr, ==_iff, subst,
}
use peercast_yt.Prelude.Bits.{all_below, all_below_lem}
use peercast_yt.GnuId.{
  hex_digit, hex_pair, read_pairs, to_str, from_str, random, is_set, any_nonzero,
}

hex_table : all_below 256 (λ b. hex_pair (hex_digit (b / 16)) (hex_digit (b % 16)) == b) ≡ true
hex_table = refl

hex_pair-hex_digit : (b : ℕ) → b < 256 → hex_pair (hex_digit (b / 16)) (hex_digit (b % 16)) ≡ b
hex_pair-hex_digit b h = (==_iff _ b).0 (
    all_below_lem 256 (λ (c : ℕ). hex_pair (hex_digit (c / 16)) (hex_digit (c % 16)) == c) b
      hex_table h)

read_pairs-to_str : (bs : List ℕ) → All IsByte bs → read_pairs (length bs) (to_str bs) ≡ bs
unfolding to_str
read_pairs-to_str [] h = refl
read_pairs-to_str (b ∷ bs) h = ap₂ ◌∷◌ (hex_pair-hex_digit b h.0) (read_pairs-to_str bs h.1)

length-to_str : (bs : List ℕ) → length (to_str bs) ≡ 2 * length bs
unfolding to_str
length-to_str [] = refl
length-to_str (b ∷ bs) = omega (arith, length-to_str bs)

-- Printing 16 bytes in hexadecimal and reading them back gives the same identifier.
pub from_str-to_str :
    (bs : List ℕ)
    → length bs ≡ 16
    → All IsByte bs
    → from_str (to_str bs) ≡ record { id = bs; store_time = 0 }
unfolding from_str
from_str-to_str bs l h = rw (long, body)
  where
    long : ltb (length (to_str bs)) 32 ≡ false
    long = rw (length-to_str bs, l)

    body : read_pairs 16 (to_str bs) ≡ bs
    body = subst (λ n. read_pairs n (to_str bs) ≡ bs) l (read_pairs-to_str bs h)

any_nonzero-set : (n v : ℕ) (xs : List ℕ) → n < length xs → v ≢ 0 → any_nonzero (set xs n v) ≡ true
any_nonzero-set n v [] h k = absurd (omega arith)
any_nonzero-set zero v (x ∷ xs) h k = ground arith
any_nonzero-set (suc n) v (x ∷ xs) h k = ground (arith, any_nonzero-set n v xs (omega arith))

length-map_mod : (xs : List ℕ) → length (map (λ r. r % 256) xs) ≡ length xs
length-map_mod [] = refl
length-map_mod (x ∷ xs) = omega (arith, length-map_mod xs)

-- Whatever the random numbers are, a random identifier is set.
pub random-is_set : (rnd : List ℕ) → 16 ≤ length rnd → is_set (random rnd) ≡ true
unfolding random
random-is_set rnd h = elim (Bool-cases (any_nonzero (map (λ r. r % 256) (take 16 rnd)))) [
  | inl e ↦ rw e e
  | inr e ↦ rw e (any_nonzero-set 15 1 (map (λ r. r % 256) (take 16 rnd)) long (omega arith))
]
  where
    long : 15 < length (map (λ r. r % 256) (take 16 rnd))
    long = omega (arith, length-map_mod (take 16 rnd), length-take 16 rnd)
