-- ===== src/Filter/Netmask.antt =====
-- Patterns with a netmask, and the first bits of an address.
use peercast_yt.Prelude.{
  IsByte, ℕ, zero, suc, ◌+◌, ◌-◌, ◌*◌, ◌/◌, ◌%◌, ◌^◌, ◌≤◌, ◌<◌, ◌≡◌, ◌↔◌, refl, ap, sym, ◌∙◌, ◌⊎◌,
  true, false, ◌||◌, some, List, [], ◌∷◌, ◌++◌, ltb, ◌==◌, bit_and, take, length, arith, subst,
  dec_le, All, inl, inr,
}
use peercast_yt.Prelude.Bits.{ones, shl, and_prefix_iff, all_below, all_below_lem}
use peercast_yt.Address.{Ip, of_ipv4, is_ipv4_mapped}
use peercast_yt.Address.Laws.{ipv4-of_ipv4, mapped-of_ipv4}
use peercast_yt.Filter.{verdict, mask32, mask8, matches_ipv4, matches_ipv6, match_bytes}

mask32_table : all_below 33 (λ n. (n == 0) || (mask32 (32 - n) == shl (32 - n) (ones n))) ≡ true
mask32_table = refl

mask32-eq : (n : ℕ) → 0 < n → n < 33 → mask32 (32 - n) ≡ shl (32 - n) (ones n)
mask32-eq n h k = ground (
  arith,
  all_below_lem 33 (λ (n : ℕ). (n == 0) || (mask32 (32 - n) == shl (32 - n) (ones n))) n
      mask32_table k,
)

full_word : (n a : ℕ) → n < 33 → a < 4294967296 → a ≤ ones (32 - n + n)
full_word n a h k = rw whole (omega arith)
  where
    whole : 32 - n + n ≡ 32
    whole = omega arith

-- An IPv4 address matches the pattern p/n, for n from 1 to 32, exactly when its first n bits are
-- those of p.
pub matches_ipv4_lem :
    (p a n : ℕ)
    → p < 4294967296
    → a < 4294967296
    → 0 < n
    → n ≤ 32
    → (matches_ipv4 (of_ipv4 p) (of_ipv4 a) (some n) ≡ verdict true)
      ↔ (p / 2 ^ (32 - n) ≡ a / 2 ^ (32 - n))
unfolding matches_ipv4
matches_ipv4_lem p a n hp ha h k =
    (λ e. prefix.0 (ground (arith, opened, masks)), λ e. ground (arith, opened, masks, prefix.1 e))
  where
    prefix :
        (bit_and p (shl (32 - n) (ones n)) ≡ bit_and a (shl (32 - n) (ones n)))
        ↔ (p / 2 ^ (32 - n) ≡ a / 2 ^ (32 - n))
    prefix =
        and_prefix_iff (32 - n) n p a (full_word n p (omega arith) hp)
          (full_word n a (omega arith) ha)

    masks : mask32 (32 - n) ≡ shl (32 - n) (ones n)
    masks = mask32-eq n h (omega arith)

    in_range : ((n == 0) || ltb 32 n) ≡ false
    in_range = ground arith

    opened :
        matches_ipv4 (of_ipv4 p) (of_ipv4 a) (some n)
        ≡ verdict (bit_and p (mask32 (32 - n)) == bit_and a (mask32 (32 - n)))
    opened = rw (mapped-of_ipv4 a, mapped-of_ipv4 p, ipv4-of_ipv4 p hp, ipv4-of_ipv4 a ha, in_range)

-- The bits of a byte, the highest first, and those of an address.
abbrev pub bits : ℕ → List ℕ
bits b =
    (b / 128 % 2)
    ∷ (b / 64 % 2)
    ∷ (b / 32 % 2)
    ∷ (b / 16 % 2)
    ∷ (b / 8 % 2)
    ∷ (b / 4 % 2)
    ∷ (b / 2 % 2)
    ∷ (b % 2)
    ∷ []

abbrev pub all_bits : List ℕ → List ℕ
all_bits [] = []
all_bits (b ∷ bs) = bits b ++ all_bits bs

mask8_table : all_below 9 (λ n. mask8 (8 - n) == shl (8 - n) (ones n)) ≡ true
mask8_table = refl

mask8-eq : (n : ℕ) → n < 9 → mask8 (8 - n) ≡ shl (8 - n) (ones n)
mask8-eq n k =
    ground
      (arith, all_below_lem 9 (λ (n : ℕ). mask8 (8 - n) == shl (8 - n) (ones n)) n mask8_table k)

-- Two bytes agree in their first k bits exactly when their quotients do.
module _ (x y : ℕ) (r s : List ℕ) (hx : x < 256) (hy : y < 256) where
  quotients_iff :
      (k : ℕ)
      → k < 8
      → (x / 2 ^ (8 - k) ≡ y / 2 ^ (8 - k)) ↔ (take k (bits x ++ r) ≡ take k (bits y ++ s))
  quotients_iff zero h = (λ e. refl, λ e. omega arith)
  quotients_iff (suc zero) h = (λ e. ground arith, λ e. ground arith)
  quotients_iff (suc (suc zero)) h = (λ e. ground arith, λ e. ground arith)
  quotients_iff (suc (suc (suc zero))) h = (λ e. ground arith, λ e. ground arith)
  quotients_iff (suc (suc (suc (suc zero)))) h = (λ e. ground arith, λ e. ground arith)
  quotients_iff (suc (suc (suc (suc (suc zero))))) h = (λ e. ground arith, λ e. ground arith)
  quotients_iff (suc (suc (suc (suc (suc (suc zero)))))) h = (λ e. ground arith, λ e. ground arith)
  quotients_iff (suc (suc (suc (suc (suc (suc (suc zero))))))) h =
      (λ e. ground arith, λ e. ground arith)
  quotients_iff (suc (suc (suc (suc (suc (suc (suc (suc k)))))))) h = absurd (omega arith)

  masked_iff :
      (k : ℕ)
      → k < 8
      → ((bit_and x (mask8 (8 - k)) == bit_and y (mask8 (8 - k))) ≡ true)
        ↔ (take k (bits x ++ r) ≡ take k (bits y ++ s))
  masked_iff k h = (
    λ e. (quotients_iff k h).0 (prefix.0 (ground (arith, mask8-eq k (omega arith)))),
    λ e. ground (arith, mask8-eq k (omega arith), prefix.1 ((quotients_iff k h).1 e)),
  )
    where
      full : (c : ℕ) → c < 256 → c ≤ ones (8 - k + k)
      full c hc = rw whole (omega arith)
        where
          whole : 8 - k + k ≡ 8
          whole = omega arith

      prefix :
          (bit_and x (shl (8 - k) (ones k)) ≡ bit_and y (shl (8 - k) (ones k)))
          ↔ (x / 2 ^ (8 - k) ≡ y / 2 ^ (8 - k))
      prefix = and_prefix_iff (8 - k) k x y (full x hx) (full y hy)

take-bits : (n x : ℕ) (r : List ℕ) → 8 ≤ n → take n (bits x ++ r) ≡ bits x ++ take (n - 8) r
take-bits n x r h = subst (λ m. take m (bits x ++ r) ≡ bits x ++ take (n - 8) r) e refl
  where
    e : suc (suc (suc (suc (suc (suc (suc (suc (n - 8)))))))) ≡ n
    e = omega arith

bits_inj :
    (x y : ℕ) (r s : List ℕ) → x < 256 → y < 256 → bits x ++ r ≡ bits y ++ s → (x ≡ y) × (r ≡ s)
bits_inj x y r s hx hy e = ground arith

match_bytes_big :
    (x y : ℕ) (xs ys : List ℕ) (n : ℕ)
    → 8 ≤ n
    → (match_bytes (x ∷ xs) (y ∷ ys) n ≡ true)
      ↔ ((x ≡ y) × ((n - 8 ≡ 0) ⊎ (match_bytes xs ys (n - 8) ≡ true)))
unfolding match_bytes
match_bytes_big x y xs ys n h = (λ m. ground arith, λ m. ground arith)

match_bytes_iff :
    (xs ys : List ℕ) (n : ℕ)
    → All IsByte xs
    → All IsByte ys
    → length xs ≡ length ys
    → n ≤ 8 * length xs
    → (match_bytes xs ys n ≡ true) ↔ (take n (all_bits xs) ≡ take n (all_bits ys))
unfolding match_bytes
match_bytes_iff [] [] n bx by e h = (λ m. refl, λ m. refl)
match_bytes_iff [] (y ∷ ys) n bx by e h = absurd (omega arith)
match_bytes_iff (x ∷ xs) [] n bx by e h = absurd (omega arith)
match_bytes_iff (x ∷ xs) (y ∷ ys) n bx by e h = elim (dec_le 8 n) [
  | yes big ↦
      let tails = match_bytes_iff xs ys (n - 8) bx.1 by.1 (omega arith) (omega arith) in
      let heads = match_bytes_big x y xs ys n big in
      let left = take-bits n x (all_bits xs) big in
      let right = take-bits n y (all_bits ys) big in
      (
        λ m.
            rw (left, right, (heads.0 m).0)
              (ap (λ r. bits y ++ r) (tails_of (heads.0 m).1 tails.0)),
        λ m.
            let split = bits_inj x y _ _ bx.0 by.0 (sym left ∙ m ∙ right) in
            heads.1 (split.0, inr (tails.1 split.1)),
      )
  | no small ↦
      let byte = masked_iff x y (all_bits xs) (all_bits ys) bx.0 by.0 n (omega arith) in
      (λ m. byte.0 (ground arith), λ m. ground (arith, byte.1 m))
]
  where
    tails_of :
        (n - 8 ≡ 0) ⊎ (match_bytes xs ys (n - 8) ≡ true)
        → (match_bytes xs ys (n - 8) ≡ true
            → take (n - 8) (all_bits xs) ≡ take (n - 8) (all_bits ys))
        → take (n - 8) (all_bits xs) ≡ take (n - 8) (all_bits ys)
    tails_of (inl z) f = rw z
    tails_of (inr m) f = f m

-- An address that is not IPv4 matches the pattern p/n, for n up to 128, exactly when its first n
-- bits are those of p; an IPv4 address matches none.
pub matches_ipv6_lem :
    (p a : Ip) (n : ℕ)
    → All IsByte p
    → All IsByte a
    → length p ≡ 16
    → length a ≡ 16
    → n ≤ 128
    → (matches_ipv6 p a (some n) ≡ verdict true)
      ↔ ((is_ipv4_mapped a ≡ false) × (take n (all_bits p) ≡ take n (all_bits a)))
unfolding matches_ipv6
matches_ipv6_lem p a n bp ba lp la h =
    (λ m. (ground arith, loop.0 (ground arith)), λ m. ground (arith, m.0, loop.1 m.1))
  where
    loop : (match_bytes p a n ≡ true) ↔ (take n (all_bits p) ≡ take n (all_bits a))
    loop = match_bytes_iff p a n bp ba (omega arith) (omega arith)
