-- ===== src/LogBuffer/Copy.antt =====
-- `copy_utf8` on a text that is valid UTF-8.
use peercast_yt.Prelude.{
  ℕ, zero, suc, ◌+◌, ◌-◌, ◌≤◌, ◌<◌, ◌≡◌, ◌≢◌, ◌⊎◌, refl, sym, ap, subst, ◌∙◌, inl, inr, Bool, true,
  false, some, List, [], ◌∷◌, ◌++◌, ltb, ◌==◌, arith, length, Bool-cases, Option-cases, ltb→lt,
  ltb_false→le,
}
use peercast_yt.Text.Utf8.{is_tail, tail_count, validate_from}
use peercast_yt.Text.Utf8.Laws.{validate-lead, validate-no_lead, validate-tail}
use peercast_yt.Text.Split.Joined.{Lacks}
use peercast_yt.LogBuffer.{char_len, copy_from}

char_len-tail_count : (c k : ℕ) → tail_count c ≡ some k → char_len c ≡ suc k
unfolding char_len tail_count
char_len-tail_count c k h = ground arith

tail_count-small : (c k : ℕ) → tail_count c ≡ some k → k ≤ 3
unfolding tail_count
tail_count-small c k h = ground arith

-- What is copied of a text, with `n` bytes of a character to come and `room` bytes behind it.
pub record Copied (n room : ℕ) (s r : List ℕ) : Type 0 where
  pub rest : List ℕ
  pub whole : s ≡ r ++ rest
  pub valid : validate_from n r ≡ true
  pub valid_rest : validate_from 0 rest ≡ true
  pub fits : length r ≤ n + room

true-ne-false : ◌≢◌ {A = Bool} true false
true-ne-false h = cc

module _ (room c k : ℕ) (s : List ℕ) (lead : tail_count c ≡ some k) (nonzero : c ≢ 0) where
  copy-lead : suc k ≤ room → copy_from 0 room (c ∷ s) ≡ c ∷ copy_from k (room - suc k) s
  unfolding copy_from
  copy-lead h =
      rw (some_room, some_char, enough, copy_from)
        (ap (λ m. c ∷ copy_from (m - 1) (room - m) s) size
          ∙ ap (λ m. c ∷ copy_from m (room - suc k) s) same)
    where
      size : char_len c ≡ suc k
      size = char_len-tail_count c k lead

      some_room : (room == 0) ≡ false
      some_room = ground arith

      some_char : (c == 0) ≡ false
      some_char = ground arith

      enough : ltb room (char_len c) ≡ false
      enough = ground (arith, size)

      same : suc k - 1 ≡ k
      same = omega arith

  pub copy-stop : room < suc k → copy_from 0 room (c ∷ s) ≡ []
  unfolding copy_from
  copy-stop h = ground (arith, char_len-tail_count c k lead)

pub copy_from_lem :
    (n room : ℕ) (s : List ℕ)
    → validate_from n s ≡ true
    → Lacks 0 s
    → Copied n room s (copy_from n room s)
unfolding copy_from validate_from
copy_from_lem zero room [] v z = record {
  rest = [];
  whole = refl;
  valid = refl;
  valid_rest = refl;
  fits = omega arith;
}
copy_from_lem (suc n) room [] v z = cc
copy_from_lem zero room (c ∷ s) v z = elim (Option-cases (tail_count c)) [
  | inl e ↦ absurd (true-ne-false (sym v ∙ validate-no_lead c s e))
  | inr (k, e) ↦ elim (Bool-cases (ltb room (suc k))) [
    | inl stop ↦
        subst (Copied 0 room (c ∷ s)) (sym (copy-stop room c k s e z.0 (ltb→lt room (suc k) stop)))
          (record { rest = c ∷ s; whole = refl; valid = refl; valid_rest = v; fits = omega arith })
    | inr go ↦
        let m = copy_from_lem k (room - suc k) s (sym (validate-lead c k s e) ∙ v) z.1 in
        subst (Copied 0 room (c ∷ s))
          (sym (copy-lead room c k s e z.0 (ltb_false→le room (suc k) go)))
          (record {
            rest = m.rest;
            whole = ap (λ t. c ∷ t) m.whole;
            valid = validate-lead c k (copy_from k (room - suc k) s) e ∙ m.valid;
            valid_rest = m.valid_rest;
            fits = omega (arith, m.fits, ltb_false→le room (suc k) go);
          })
  ]
]
copy_from_lem (suc n) room (c ∷ s) v z = elim (Bool-cases (is_tail c)) [
  | inl e ↦
      let m = copy_from_lem n room s (sym (validate-tail c n s ∙ rw e refl) ∙ v) z.1 in
      record {
        rest = m.rest;
        whole = ap (λ t. c ∷ t) m.whole;
        valid = validate-tail c n (copy_from n room s) ∙ rw e m.valid;
        valid_rest = m.valid_rest;
        fits = omega (arith, m.fits);
      }
  | inr e ↦ absurd (true-ne-false (sym v ∙ validate-tail c n s ∙ rw e refl))
]

-- The bytes to come are there.
tail_length : (n : ℕ) (s : List ℕ) → validate_from n s ≡ true → n ≤ length s
unfolding validate_from
tail_length zero s v = omega arith
tail_length (suc n) [] v = cc
tail_length (suc n) (c ∷ s) v = elim (Bool-cases (is_tail c)) [
  | inl e ↦ omega (arith, tail_length n s (sym (validate-tail c n s ∙ rw e refl) ∙ v))
  | inr e ↦ absurd (true-ne-false (sym v ∙ validate-tail c n s ∙ rw e refl))
]

-- A character is copied when there is room for the longest one, or for the whole text.
pub copied_some :
    (room c : ℕ) (s : List ℕ)
    → validate_from 0 (c ∷ s) ≡ true
    → c ≢ 0
    → (4 ≤ room) ⊎ (suc (length s) ≤ room)
    → 0 < length (copy_from 0 room (c ∷ s))
copied_some room c s v z h = elim (Option-cases (tail_count c)) [
  | inl e ↦ absurd (true-ne-false (sym v ∙ validate-no_lead c s e))
  | inr (k, e) ↦
      rw
        (copy-lead room c k s e z (
          omega
            (arith, h, tail_count-small c k e, tail_length k s (sym (validate-lead c k s e) ∙ v))))
        (omega arith)
]
