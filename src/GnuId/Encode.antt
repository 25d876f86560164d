-- ===== src/GnuId/Encode.antt =====
-- `GnuID::encode` mixes bytes in by exclusive or.
use peercast_yt.Prelude.{
  ℕ, zero, suc, ◌+◌, ◌%◌, ◌<◌, ◌≡◌, refl, sym, ◌∙◌, ap, ap₂, Option, none, some, List, [], ◌∷◌,
  arith, bit_xor, get_or, set,
}
use peercast_yt.Prelude.Bits.{xor_cancel, xor_swap}
use peercast_yt.Address.{Host, of_ipv4}
use peercast_yt.GnuId.{
  GnuId, pepper, address_byte, salt_loop, salt_byte, salt_next, salt_rounds, encode,
}

-- The byte at `k` mixed with `m`.
mix : List ℕ → ℕ → ℕ → List ℕ
mix [] k m = []
mix (x ∷ xs) zero m = bit_xor x m ∷ xs
mix (x ∷ xs) (suc k) m = x ∷ mix xs k m

set-mix :
    (xs : List ℕ) (k m n : ℕ)
    → set xs k (bit_xor (bit_xor (get_or xs k 0) m) n) ≡ mix (mix xs k m) k n
unfolding mix
set-mix [] k m n = refl
set-mix (x ∷ xs) zero m n = refl
set-mix (x ∷ xs) (suc k) m n = ap (λ r. x ∷ r) (set-mix xs k m n)

mix_swap : (xs : List ℕ) (j k m n : ℕ) → mix (mix xs j m) k n ≡ mix (mix xs k n) j m
unfolding mix
mix_swap [] j k m n = refl
mix_swap (x ∷ xs) zero zero m n = ap (λ r. r ∷ xs) (xor_swap x m n)
mix_swap (x ∷ xs) zero (suc k) m n = refl
mix_swap (x ∷ xs) (suc j) zero m n = refl
mix_swap (x ∷ xs) (suc j) (suc k) m n = ap (λ r. x ∷ r) (mix_swap xs j k m n)

mix_cancel : (xs : List ℕ) (k m : ℕ) → mix (mix xs k m) k m ≡ xs
unfolding mix
mix_cancel [] k m = refl
mix_cancel (x ∷ xs) zero m = ap (λ r. r ∷ xs) (xor_cancel x m)
mix_cancel (x ∷ xs) (suc k) m = ap (λ r. x ∷ r) (mix_cancel xs k m)

-- The loops commute with a further mix, and cancel when they run twice.
module _ (salt1 salt2 : Option (List ℕ)) where
  salt_loop-mix :
      (n i s1 s2 : ℕ) (xs : List ℕ) (k m : ℕ)
      → salt_loop salt1 salt2 n i s1 s2 (mix xs k m) ≡ mix (salt_loop salt1 salt2 n i s1 s2 xs) k m
  unfolding salt_loop
  salt_loop-mix zero i s1 s2 xs k m = refl
  salt_loop-mix (suc n) i s1 s2 xs k m =
      ap next (
        set-mix (mix xs k m) (i % 16) b1 b2
        ∙ ap (λ r. mix r (i % 16) b2) (mix_swap xs k (i % 16) m b1)
        ∙ mix_swap (mix xs (i % 16) b1) k (i % 16) m b2
        ∙ ap (λ r. mix r k m) (sym (set-mix xs (i % 16) b1 b2)))
      ∙ salt_loop-mix n (i + 1) (salt_next salt1 s1) (salt_next salt2 s2) _ k m
    where
      b1 : ℕ
      b1 = salt_byte salt1 s1

      b2 : ℕ
      b2 = salt_byte salt2 s2

      next : List ℕ → List ℕ
      next = salt_loop salt1 salt2 n (i + 1) (salt_next salt1 s1) (salt_next salt2 s2)

  module _ (n i s1 s2 : ℕ) where
    abbrev next : List ℕ → List ℕ
    next = salt_loop salt1 salt2 n (i + 1) (salt_next salt1 s1) (salt_next salt2 s2)

    mix_both : List ℕ → List ℕ
    mix_both xs = mix (mix xs (i % 16) (salt_byte salt1 s1)) (i % 16) (salt_byte salt2 s2)

    salt_loop-suc : (xs : List ℕ) → salt_loop salt1 salt2 (suc n) i s1 s2 xs ≡ next (mix_both xs)
    unfolding salt_loop mix_both
    salt_loop-suc xs =
        ap (salt_loop salt1 salt2 n (i + 1) (salt_next salt1 s1) (salt_next salt2 s2))
          (set-mix xs (i % 16) (salt_byte salt1 s1) (salt_byte salt2 s2))

    mix_both_cancel : (xs : List ℕ) → mix_both (mix_both xs) ≡ xs
    unfolding mix_both
    mix_both_cancel xs =
        ap (λ r. mix r (i % 16) (salt_byte salt2 s2))
          (mix_swap (mix xs (i % 16) (salt_byte salt1 s1)) (i % 16) (i % 16) (salt_byte salt2 s2)
            (salt_byte salt1 s1))
        ∙ mix_cancel (mix (mix xs (i % 16) (salt_byte salt1 s1)) (i % 16) (salt_byte salt1 s1))
            (i % 16) (salt_byte salt2 s2)
        ∙ mix_cancel xs (i % 16) (salt_byte salt1 s1)

    next-mix_both : (xs : List ℕ) → next (mix_both xs) ≡ mix_both (next xs)
    unfolding mix_both
    next-mix_both xs =
        salt_loop-mix n (i + 1) (salt_next salt1 s1) (salt_next salt2 s2) _ (i % 16)
          (salt_byte salt2 s2)
        ∙ ap (λ r. mix r (i % 16) (salt_byte salt2 s2))
            (salt_loop-mix n (i + 1) (salt_next salt1 s1) (salt_next salt2 s2) xs (i % 16)
              (salt_byte salt1 s1))

    salt_loop_cancel_suc :
        ((xs : List ℕ) → next (next xs) ≡ xs)
        → (xs : List ℕ)
        → salt_loop salt1 salt2 (suc n) i s1 s2 (salt_loop salt1 salt2 (suc n) i s1 s2 xs) ≡ xs
    salt_loop_cancel_suc ih xs =
        salt_loop-suc (salt_loop salt1 salt2 (suc n) i s1 s2 xs)
        ∙ ap (λ r. next (mix_both r)) (salt_loop-suc xs)
        ∙ ap next (sym (next-mix_both (mix_both xs)))
        ∙ ap (λ r. next (next r)) (mix_both_cancel xs)
        ∙ ih xs

  salt_loop_cancel :
      (n i s1 s2 : ℕ) (xs : List ℕ)
      → salt_loop salt1 salt2 n i s1 s2 (salt_loop salt1 salt2 n i s1 s2 xs) ≡ xs
  salt_loop_cancel zero i s1 s2 xs = unfold salt_loop in refl
  salt_loop_cancel (suc n) i s1 s2 xs =
      salt_loop_cancel_suc n i s1 s2
        (salt_loop_cancel n (i + 1) (salt_next salt1 s1) (salt_next salt2 s2)) xs

pepper-mix :
    (h : Option Host) (p i : ℕ) (xs : List ℕ) (k m : ℕ)
    → pepper h p i (mix xs k m) ≡ mix (pepper h p i xs) k m
unfolding pepper mix
pepper-mix h p i [] k m = refl
pepper-mix h p i (x ∷ xs) zero m =
    ap (λ r. r ∷ pepper h p (i + 1) xs)
      (ap (λ r. bit_xor r p) (xor_swap x m (address_byte h i))
        ∙ xor_swap (bit_xor x (address_byte h i)) m p)
pepper-mix h p i (x ∷ xs) (suc k) m =
    ap (λ r. bit_xor (bit_xor x (address_byte h i)) p ∷ r) (pepper-mix h p (i + 1) xs k m)

pepper_cancel : (h : Option Host) (p i : ℕ) (xs : List ℕ) → pepper h p i (pepper h p i xs) ≡ xs
unfolding pepper
pepper_cancel h p i [] = refl
pepper_cancel h p i (x ∷ xs) =
    ap₂ ◌∷◌
      (ap (λ r. bit_xor r p) (xor_swap (bit_xor x (address_byte h i)) p (address_byte h i))
        ∙ xor_cancel (bit_xor (bit_xor x (address_byte h i)) (address_byte h i)) p
        ∙ xor_cancel x (address_byte h i))
      (pepper_cancel h p (i + 1) xs)

pepper-salt_loop :
    (h : Option Host) (p : ℕ) (salt1 salt2 : Option (List ℕ)) (n i s1 s2 : ℕ) (xs : List ℕ)
    → pepper h p 0 (salt_loop salt1 salt2 n i s1 s2 xs)
      ≡ salt_loop salt1 salt2 n i s1 s2 (pepper h p 0 xs)
unfolding salt_loop
pepper-salt_loop h p salt1 salt2 zero i s1 s2 xs = refl
pepper-salt_loop h p salt1 salt2 (suc n) i s1 s2 xs =
    pepper-salt_loop h p salt1 salt2 n (i + 1) (salt_next salt1 s1) (salt_next salt2 s2) _
    ∙ ap (salt_loop salt1 salt2 n (i + 1) (salt_next salt1 s1) (salt_next salt2 s2)) (
        ap (pepper h p 0) (set-mix xs (i % 16) b1 b2)
        ∙ pepper-mix h p 0 (mix xs (i % 16) b1) (i % 16) b2
        ∙ ap (λ r. mix r (i % 16) b2) (pepper-mix h p 0 xs (i % 16) b1)
        ∙ sym (set-mix (pepper h p 0 xs) (i % 16) b1 b2))
  where
    b1 : ℕ
    b1 = salt_byte salt1 s1

    b2 : ℕ
    b2 = salt_byte salt2 s2

-- Encoding an identifier twice with the same host, salts and pepper gives the identifier back.
pub encode_twice :
    (h : Option Host) (salt1 salt2 : Option (List ℕ)) (p : ℕ) (a : GnuId)
    → encode h salt1 salt2 p (encode h salt1 salt2 p a) ≡ a
unfolding encode
encode_twice h salt1 salt2 p a =
    ap (λ xs. record a { id = xs })
      (ap loop
          (pepper-salt_loop h p salt1 salt2 (salt_rounds salt1 salt2) 0 0 0 (pepper h p 0 a.id))
        ∙ salt_loop_cancel salt1 salt2 (salt_rounds salt1 salt2) 0 0 0 _
        ∙ pepper_cancel h p 0 a.id)
  where
    loop : List ℕ → List ℕ
    loop = salt_loop salt1 salt2 (salt_rounds salt1 salt2) 0 0 0

first_bytes-of_ipv4 : (n k : ℕ) → k < 4 → get_or (of_ipv4 n) k 0 ≡ 0
unfolding of_ipv4
first_bytes-of_ipv4 n zero h = refl
first_bytes-of_ipv4 n (suc zero) h = refl
first_bytes-of_ipv4 n (suc (suc zero)) h = refl
first_bytes-of_ipv4 n (suc (suc (suc zero))) h = refl
first_bytes-of_ipv4 n (suc (suc (suc (suc k)))) h = absurd (omega arith)

address_byte-of_ipv4 :
    (n port i : ℕ) → address_byte (some (record { ip = of_ipv4 n; port = port })) i ≡ 0
address_byte-of_ipv4 n port i = first_bytes-of_ipv4 n (i % 4) (omega arith)

pepper-of_ipv4 :
    (n port p i : ℕ) (xs : List ℕ)
    → pepper (some (record { ip = of_ipv4 n; port = port })) p i xs ≡ pepper none p i xs
unfolding pepper
pepper-of_ipv4 n port p i [] = refl
pepper-of_ipv4 n port p i (x ∷ xs) =
    ap₂ (λ b r. bit_xor (bit_xor x b) p ∷ r) (address_byte-of_ipv4 n port i)
      (pepper-of_ipv4 n port p (i + 1) xs)

-- An IPv4 host leaves no trace in the encoding: the four bytes that are mixed in are the first of
-- the 16 of its address, which are 0.
pub encode_ipv4 :
    (n port p : ℕ) (salt1 salt2 : Option (List ℕ)) (a : GnuId)
    → encode (some (record { ip = of_ipv4 n; port = port })) salt1 salt2 p a
      ≡ encode none salt1 salt2 p a
unfolding encode
encode_ipv4 n port p salt1 salt2 a =
    ap (λ xs. record a { id = salt_loop salt1 salt2 (salt_rounds salt1 salt2) 0 0 0 xs })
      (pepper-of_ipv4 n port p 0 a.id)
