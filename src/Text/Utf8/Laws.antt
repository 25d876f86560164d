-- ===== src/Text/Utf8/Laws.antt =====
-- Texts that are valid, cut, and made from code points.
use peercast_yt.Prelude.{
  ℕ, zero, suc, ◌+◌, ◌≤◌, ◌<◌, ◌≡◌, ◌≢◌, inl, inr, refl, sym, ap, subst, ◌∙◌, Bool, true, false,
  none, some, List, [], ◌∷◌, ◌++◌, ltb, if◌then◌else◌, length, arith, Bool-cases, Option-cases,
  append_assoc, append-nil, length-append, ltb→lt, ltb_false→le,
}
use peercast_yt.Text.Utf8.{
  is_tail, tail_count, validate_from, validate_utf8, truncate_from, truncate_utf8,
}

true-ne-false : ◌≢◌ {A = Bool} true false
true-ne-false h = cc

pub validate-lead :
    (b k : ℕ) (s : List ℕ) → tail_count b ≡ some k → validate_from 0 (b ∷ s) ≡ validate_from k s
unfolding validate_from
validate-lead b k s e = rw (e, validate_from) refl

pub validate-no_lead : (b : ℕ) (s : List ℕ) → tail_count b ≡ none → validate_from 0 (b ∷ s) ≡ false
unfolding validate_from
validate-no_lead b s e = rw (e, validate_from) refl

pub validate-tail :
    (b n : ℕ) (s : List ℕ)
    → validate_from (suc n) (b ∷ s) ≡ (if is_tail b then validate_from n s else false)
unfolding validate_from
validate-tail b n s = ground arith

truncate-lead :
    (len b k : ℕ) (dest s : List ℕ)
    → tail_count b ≡ some k
    → truncate_from len 0 dest (b ∷ s) ≡ (
        if ltb len (length dest + (1 + k))
        then some dest
        else truncate_from len k (dest ++ b ∷ []) s)
unfolding truncate_from
truncate-lead len b k dest s e = rw (e, truncate_from) (ground arith)

truncate-tail :
    (len b n : ℕ) (dest s : List ℕ)
    → truncate_from len (suc n) dest (b ∷ s)
      ≡ (if is_tail b then truncate_from len n (dest ++ b ∷ []) s else none)
unfolding truncate_from
truncate-tail len b n dest s = ground arith

-- Nothing is left, or the next character, of `1 + k` bytes, does not fit behind `n` bytes.
abbrev pub NoRoom : ℕ → ℕ → List ℕ → Type 0
NoRoom len n [] = Unit {0}
NoRoom len n (b ∷ s) = (k : ℕ) × (tail_count b ≡ some k) × (len < n + (1 + k))

-- What is cut from `s`, with `n` bytes of a character to come, behind `size` bytes.
pub record Cut (len n size : ℕ) (s r : List ℕ) : Type 0 where
  pub rest : List ℕ
  pub whole : s ≡ r ++ rest
  pub valid : validate_from n r ≡ true
  pub fits : size + length r ≤ len
  pub full : NoRoom len (size + length r) rest

-- A byte that is kept, and what follows it.
module _ (len n m : ℕ) (dest : List ℕ) (b : ℕ) (s : List ℕ) where
  Kept : Type 0
  Kept =
      (r : List ℕ) × (truncate_from len n dest (b ∷ s) ≡ some (dest ++ r))
      × Cut len n (length dest) (b ∷ s) r

  keep :
      truncate_from len n dest (b ∷ s) ≡ truncate_from len m (dest ++ b ∷ []) s
      → ((r : List ℕ) → validate_from m r ≡ true → validate_from n (b ∷ r) ≡ true)
      → (r : List ℕ) × (truncate_from len m (dest ++ b ∷ []) s ≡ some ((dest ++ b ∷ []) ++ r))
        × Cut len m (length (dest ++ b ∷ [])) s r
      → Kept
  unfolding Kept
  keep step valid (r, e, c) = (
    b ∷ r,
    step ∙ e ∙ ap some (append_assoc dest (b ∷ []) r),
    record {
      rest = c.rest;
      whole = ap (λ x. b ∷ x) c.whole;
      valid = valid r c.valid;
      fits = omega (arith, c.fits, length-append dest (b ∷ []));
      full = subst (λ k. NoRoom len k c.rest) more c.full;
    },
  )
    where
      more : length (dest ++ b ∷ []) + length r ≡ length dest + suc (length r)
      more = omega (arith, length-append dest (b ∷ []))

cut_lem :
    (len n : ℕ) (dest s : List ℕ)
    → validate_from n s ≡ true
    → length dest + n ≤ len
    → (r : List ℕ) × (truncate_from len n dest s ≡ some (dest ++ r)) × Cut len n (length dest) s r
unfolding validate_from truncate_from Kept
cut_lem len zero dest [] v h = (
  [],
  ap some (sym (append-nil dest)),
  record { rest = []; whole = refl; valid = refl; fits = h; full = tt },
)
cut_lem len (suc n) dest [] v h = cc
cut_lem len zero dest (b ∷ s) v h = elim (Option-cases (tail_count b)) [
  | inl bad ↦ absurd (true-ne-false (sym v ∙ validate-no_lead b s bad))
  | inr (k, e) ↦ elim (Bool-cases (ltb len (length dest + (1 + k)))) [
    | inl stop ↦ (
      [],
      truncate-lead len b k dest s e ∙ rw stop (ap some (sym (append-nil dest))),
      record {
        rest = b ∷ s;
        whole = refl;
        valid = refl;
        fits = h;
        full = (k, e, omega (arith, ltb→lt len (length dest + (1 + k)) stop));
      },
    )
    | inr go ↦
        (keep len 0 k dest b s (truncate-lead len b k dest s e ∙ rw go refl)
          (λ r p. validate-lead b k r e ∙ p)
          (cut_lem len k (dest ++ b ∷ []) s (sym (validate-lead b k s e) ∙ v) (
            omega
              (arith, ltb_false→le len (length dest + (1 + k)) go, length-append dest (b ∷ [])))))
  ]
]
cut_lem len (suc n) dest (b ∷ s) v h = elim (Bool-cases (is_tail b)) [
  | inl e ↦
      (keep len (suc n) n dest b s (truncate-tail len b n dest s ∙ rw e refl)
        (λ r p. validate-tail b n r ∙ rw e p)
        (cut_lem len n (dest ++ b ∷ []) s (sym (validate-tail b n s ∙ rw e refl) ∙ v)
          (omega (arith, length-append dest (b ∷ [])))))
  | inr bad ↦ absurd (true-ne-false (sym v ∙ validate-tail b n s ∙ rw bad refl))
]

-- `truncate_utf8(str, length)` of a valid text ends without an exception; it gives a prefix of the
-- text that is valid, of at most `length` bytes, and as long as can be: nothing is left, or the next
-- character does not fit.
pub truncate_utf8_lem :
    (s : List ℕ) (len : ℕ)
    → validate_utf8 s ≡ true
    → (r : List ℕ) × (truncate_utf8 s len ≡ some r) × Cut len 0 0 s r
unfolding truncate_utf8 validate_utf8
truncate_utf8_lem s len v = cut_lem len 0 [] s v (omega arith)
