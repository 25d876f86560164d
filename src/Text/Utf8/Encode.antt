-- ===== src/Text/Utf8/Encode.antt =====
-- What `codepoint_to_utf8` gives, against `Stream::writeUTF8` of core/common/stream.cpp and against
-- `validate_utf8`.
use peercast_yt.Prelude.{
  Bool-cases, inl, inr, ℕ, suc, ◌+◌, ◌/◌, ◌%◌, ◌≤◌, ◌<◌, ◌≡◌, ◌⊎◌, refl, ap, ◌∙◌, Bool, true, false,
  Option, none, some, List, [], ◌∷◌, ltb, ◌==◌, ==_iff, if-elim, ltb→lt, bit_or, arith,
}
use peercast_yt.Prelude.Bits.{all_below_lem}
use peercast_yt.Io.{write_utf8}
use peercast_yt.Text.Utf8.{is_tail, tail_count, validate_from, validate_utf8, codepoint_to_utf8}
use peercast_yt.Text.Utf8.Laws.{validate-lead, validate-no_lead, validate-tail}

-- Tests of what a byte leads, so that the bytes of a range are tried by one evaluation.
is_some : ℕ → Option ℕ → Bool
is_some n none = false
is_some n (some k) = k == n

is_some→eq : (n : ℕ) (o : Option ℕ) → is_some n o ≡ true → o ≡ some n
unfolding is_some
is_some→eq n none h = cc
is_some→eq n (some k) h = ap some ((==_iff k n).0 h)

is_none : Option ℕ → Bool
is_none none = true
is_none (some k) = false

is_none→eq : (o : Option ℕ) → is_none o ≡ true → o ≡ none
unfolding is_none
is_none→eq none h = refl
is_none→eq (some k) h = cc

pub lead_one : (x : ℕ) → x < 128 → tail_count x ≡ some 0
unfolding tail_count is_some
lead_one x h =
    is_some→eq 0 (tail_count x) (all_below_lem 128 (λ x. is_some 0 (tail_count x)) x refl h)

lead_two : (x : ℕ) → x < 32 → tail_count (x + 0xC0) ≡ some 1
unfolding tail_count is_some
lead_two x h =
    is_some→eq 1 (tail_count (x + 0xC0))
      (all_below_lem 32 (λ x. is_some 1 (tail_count (x + 0xC0))) x refl h)

lead_three : (x : ℕ) → x < 16 → tail_count (x + 0xE0) ≡ some 2
unfolding tail_count is_some
lead_three x h =
    is_some→eq 2 (tail_count (x + 0xE0))
      (all_below_lem 16 (λ x. is_some 2 (tail_count (x + 0xE0))) x refl h)

lead_four : (x : ℕ) → x < 8 → tail_count ((x + 0xF0) % 256) ≡ some 3
unfolding tail_count is_some
lead_four x h =
    is_some→eq 3 (tail_count ((x + 0xF0) % 256))
      (all_below_lem 8 (λ x. is_some 3 (tail_count ((x + 0xF0) % 256))) x refl h)

-- The byte that is written in place of the leading byte of two.
lead_wrong : (x : ℕ) → x < 32 → tail_count (bit_or 0xb0 x) ≡ none
unfolding tail_count is_none
lead_wrong x h =
    is_none→eq (tail_count (bit_or 0xb0 x))
      (all_below_lem 32 (λ x. is_none (tail_count (bit_or 0xb0 x))) x refl h)

is_tail_lem : (x : ℕ) → is_tail (x % 64 + 0x80) ≡ true
unfolding is_tail
is_tail_lem x = all_below_lem 64 (λ x. is_tail (x + 0x80)) (x % 64) refl (omega arith)

validate-more :
    (x n : ℕ) (s : List ℕ) → validate_from (suc n) ((x % 64 + 0x80) ∷ s) ≡ validate_from n s
validate-more x n s = validate-tail (x % 64 + 0x80) n s ∙ rw (is_tail_lem x) refl

valid_one : (cp : ℕ) → cp < 128 → validate_from 0 (cp ∷ []) ≡ true
unfolding validate_from
valid_one cp h = validate-lead cp 0 [] (lead_one cp h)

valid_two :
    (cp : ℕ) → cp < 0x800 → validate_from 0 ((cp / 64 + 0xC0) ∷ (cp % 64 + 0x80) ∷ []) ≡ true
unfolding validate_from
valid_two cp h =
    validate-lead (cp / 64 + 0xC0) 1 ((cp % 64 + 0x80) ∷ []) (lead_two (cp / 64) (omega arith))
    ∙ validate-more cp 0 []

valid_three :
    (cp : ℕ)
    → cp < 0x10000
    → validate_from 0 ((cp / 0x1000 + 0xE0) ∷ (cp / 64 % 64 + 0x80) ∷ (cp % 64 + 0x80) ∷ []) ≡ true
unfolding validate_from
valid_three cp h =
    validate-lead (cp / 0x1000 + 0xE0) 2 ((cp / 64 % 64 + 0x80) ∷ (cp % 64 + 0x80) ∷ [])
      (lead_three (cp / 0x1000) (omega arith))
    ∙ validate-more (cp / 64) 1 ((cp % 64 + 0x80) ∷ [])
    ∙ validate-more cp 0 []

valid_four :
    (cp : ℕ)
    → cp < 0x110000
    → validate_from 0 (
        ((cp / 0x40000 + 0xF0) % 256)
        ∷ (cp / 0x1000 % 64 + 0x80)
        ∷ (cp / 64 % 64 + 0x80)
        ∷ (cp % 64 + 0x80)
        ∷ [])
      ≡ true
unfolding validate_from
valid_four cp h =
    validate-lead ((cp / 0x40000 + 0xF0) % 256) 3
      ((cp / 0x1000 % 64 + 0x80) ∷ (cp / 64 % 64 + 0x80) ∷ (cp % 64 + 0x80) ∷ [])
      (lead_four (cp / 0x40000) (omega arith))
    ∙ validate-more (cp / 0x1000) 2 ((cp / 64 % 64 + 0x80) ∷ (cp % 64 + 0x80) ∷ [])
    ∙ validate-more (cp / 64) 1 ((cp % 64 + 0x80) ∷ [])
    ∙ validate-more cp 0 []

-- What `writeUTF8` writes is valid.
validate_utf8-write_utf8 : (cp : ℕ) → cp < 0x110000 → validate_utf8 (write_utf8 cp) ≡ true
unfolding validate_utf8 write_utf8
validate_utf8-write_utf8 cp h =
    if-elim (λ s. validate_from 0 s ≡ true) (ltb cp 0x80) _ _ (λ e. valid_one cp (ltb→lt cp 0x80 e))
      (λ e.
        if-elim (λ s. validate_from 0 s ≡ true) (ltb cp 0x800) _ _
          (λ e. valid_two cp (ltb→lt cp 0x800 e))
          (λ e.
            if-elim (λ s. validate_from 0 s ≡ true) (ltb cp 0x10000) _ _
              (λ e. valid_three cp (ltb→lt cp 0x10000 e)) (λ e. valid_four cp h)))

encode-other :
    (cp : ℕ)
    → cp < 0x110000
    → (cp < 0x80) ⊎ (0x800 ≤ cp)
    → codepoint_to_utf8 cp ≡ some (write_utf8 cp)
unfolding codepoint_to_utf8 write_utf8
encode-other cp h c = ground arith

encode-two :
    (cp : ℕ)
    → 0x80 ≤ cp
    → cp < 0x800
    → codepoint_to_utf8 cp ≡ some (bit_or 0xb0 (cp / 0x40) ∷ (0x80 + cp % 0x40) ∷ [])
unfolding codepoint_to_utf8 write_utf8
encode-two cp h c = ground arith

two_bytes-wrong :
    (cp : ℕ)
    → 0x80 ≤ cp
    → cp < 0x800
    → (s : List ℕ) × (codepoint_to_utf8 cp ≡ some s) × (validate_utf8 s ≡ false)
unfolding codepoint_to_utf8 validate_utf8
two_bytes-wrong cp h k = (
  bit_or 0xb0 (cp / 0x40) ∷ (0x80 + cp % 0x40) ∷ [],
  encode-two cp h k,
  validate-no_lead (bit_or 0xb0 (cp / 0x40)) ((0x80 + cp % 0x40) ∷ [])
      (lead_wrong (cp / 0x40) (omega arith)),
)

no_codepoint : (cp : ℕ) → 0x110000 ≤ cp → codepoint_to_utf8 cp ≡ none
unfolding codepoint_to_utf8
no_codepoint cp h = ground arith

-- `codepoint_to_utf8` throws for what is no code point. For a code point below 0x80 or from 0x800 on it
-- writes the character that `Stream::writeUTF8` writes, and a valid text. For those of two bytes, in
-- between, its result is not valid UTF-8.
pub codepoint_to_utf8_lem :
    (cp : ℕ)
    → ((0x110000 ≤ cp) × (codepoint_to_utf8 cp ≡ none))
      ⊎ ((cp < 0x110000)
          × ((cp < 0x80) ⊎ (0x800 ≤ cp))
          × (codepoint_to_utf8 cp ≡ some (write_utf8 cp))
          × (validate_utf8 (write_utf8 cp) ≡ true))
      ⊎ ((0x80 ≤ cp)
          × (cp < 0x800)
          × ((s : List ℕ) × (codepoint_to_utf8 cp ≡ some s) × (validate_utf8 s ≡ false)))
codepoint_to_utf8_lem cp = elim (Bool-cases (ltb cp 0x110000)) [
  | inr h ↦ inl (ground arith, no_codepoint cp (ground arith))
  | inl h ↦ elim (Bool-cases (ltb cp 0x80)) [
    | inl k ↦ inr (inl (one_of cp (ground arith) (inl (ground arith))))
    | inr k ↦ elim (Bool-cases (ltb cp 0x800)) [
      | inl l ↦
          inr (inr (ground arith, ground arith, two_bytes-wrong cp (ground arith) (ground arith)))
      | inr l ↦ inr (inl (one_of cp (ground arith) (inr (ground arith))))
    ]
  ]
]
  where
    one_of :
        (c : ℕ)
        → c < 0x110000
        → (cases : (c < 0x80) ⊎ (0x800 ≤ c))
        → (c < 0x110000)
          × ((c < 0x80) ⊎ (0x800 ≤ c))
          × (codepoint_to_utf8 c ≡ some (write_utf8 c))
          × (validate_utf8 (write_utf8 c) ≡ true)
    one_of c h cases = (h, cases, encode-other c h cases, validate_utf8-write_utf8 c h)
