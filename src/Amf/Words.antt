-- ===== src/Amf/Words.antt =====
-- Lengths and texts, written and read.
use peercast_yt.Prelude.{
  ℕ, zero, suc, ◌+◌, ◌-◌, ◌*◌, ◌/◌, ◌%◌, ◌≤◌, ◌<◌, ◌≡◌, refl, ap, ◌∙◌, true, false, List, [], ◌∷◌,
  ◌++◌, ◌==◌, ==_iff, leb, arith, length, take-append, drop-append, length-append,
}
use peercast_yt.Prelude.Bits.{all_below, all_below_lem}
use peercast_yt.Io.{ok, bind_result, read_char}
use peercast_yt.Io.Words.{write_to_lem}
use peercast_yt.Amf.{two_chars, read_two, read_text, read_string, string_bytes, read_chars}

two_table : all_below 128 (λ c. all_below 128 (λ d. two_chars c d == c * 256 + d)) ≡ true
unfolding two_chars
two_table = refl

pub two_chars_lem : (c d : ℕ) → c < 128 → d < 128 → two_chars c d ≡ c * 256 + d
two_chars_lem c d h k = (==_iff (two_chars c d) (c * 256 + d)).0 (
    all_below_lem 128 (λ d. two_chars c d == c * 256 + d) d
      (all_below_lem 128 (λ c. all_below 128 (λ d. two_chars c d == c * 256 + d)) c two_table h) k)

negative_table :
    all_below 128 (λ c. all_below 128 (λ d. leb 2147483648 (two_chars c (d + 128)))) ≡ true
unfolding two_chars
negative_table = refl

pub two_chars-negative :
    (c d : ℕ) → c < 128 → d < 128 → leb 2147483648 (two_chars c (d + 128)) ≡ true
two_chars-negative c d h k =
    all_below_lem 128 (λ d. leb 2147483648 (two_chars c (d + 128))) d
      (all_below_lem 128 (λ c. all_below 128 (λ d. leb 2147483648 (two_chars c (d + 128)))) c
        negative_table h)
      k

-- The length is below 2 ^ 15, and its low byte below 128.
pub record IsShort (s : List ℕ) : Type 0 where
  pub small : length s < 32768
  pub low : length s % 256 < 128

abbrev pub written : List ℕ → List ℕ
written s = (length s / 256 % 256) ∷ (length s % 256) ∷ s

pub string_bytes_lem : (s : List ℕ) → length s < 65536 → string_bytes s ≡ ok (written s)
unfolding string_bytes
string_bytes_lem s h = rw (fits (length s) h) refl
  where
    fits : (n : ℕ) → n < 65536 → leb 65536 n ≡ false
    fits n h = ground arith

pub read_two-chars : (c d : ℕ) (t : List ℕ) → read_two (c ∷ d ∷ t) ≡ (ok (two_chars c d), t)
unfolding read_two read_char
read_two-chars c d t = refl

pub read_string-chars :
    (c d : ℕ) (t : List ℕ) → read_string (c ∷ d ∷ t) ≡ read_text (two_chars c d) t
unfolding read_string read_text
read_string-chars c d t = ap (λ r. bind_result r read_text) (read_two-chars c d t)

read_text-append :
    (s t : List ℕ) → length s < 2147483648 → read_text (length s) (s ++ t) ≡ (ok s, t)
unfolding read_text
read_text-append s t h = rw (positive (length s) h) (
    write_to_lem (length s) (s ++ t) (omega (arith, length-append s t))
    ∙ rw (take-append s t, drop-append s t) refl)
  where
    positive : (n : ℕ) → n < 2147483648 → leb 2147483648 n ≡ false
    positive n h = ground arith

pub read_string-written : (s t : List ℕ) → IsShort s → read_string (written s ++ t) ≡ (ok s, t)
read_string-written s t h =
    read_string-chars (length s / 256 % 256) (length s % 256) (s ++ t)
    ∙ ap (λ n. read_text n (s ++ t))
        (two_chars_lem (length s / 256 % 256) (length s % 256) (omega (arith, h.small)) h.low
          ∙ whole)
    ∙ read_text-append s t (omega (arith, h.small))
  where
    whole : length s / 256 % 256 * 256 + length s % 256 ≡ length s
    whole = omega (arith, h.small)

-- A text whose length has a low byte from 128 on is read as an empty one, and left in the stream.
pub read_string-lost :
    (s t : List ℕ)
    → length s < 32768
    → 128 ≤ length s % 256
    → read_string (written s ++ t) ≡ (ok [], s ++ t)
unfolding read_text
read_string-lost s t h k =
    read_string-chars (length s / 256 % 256) (length s % 256) (s ++ t)
    ∙ ap (λ n. read_text (two_chars (length s / 256 % 256) n) (s ++ t)) split
    ∙ rw
        (two_chars-negative (length s / 256 % 256) (length s % 256 - 128) (omega (arith, h))
          (omega (arith, k)))
        refl
  where
    split : length s % 256 ≡ length s % 256 - 128 + 128
    split = omega (arith, k)

pub read_chars-append : (n : ℕ) (b t : List ℕ) → length b ≡ n → read_chars n (b ++ t) ≡ (ok b, t)
unfolding read_chars read_char
read_chars-append zero [] t h = refl
read_chars-append zero (c ∷ b) t h = absurd (omega arith)
read_chars-append (suc n) [] t h = absurd (omega arith)
read_chars-append (suc n) (c ∷ b) t h = rw (read_chars-append n b t (omega arith)) refl
