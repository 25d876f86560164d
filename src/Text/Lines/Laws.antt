-- ===== src/Text/Lines/Laws.antt =====
-- The lines of a text.
use peercast_yt.Prelude.{
  ℕ, ◌≡◌, ◌≢◌, ◌⊎◌, inl, inr, refl, sym, ap, subst, ◌∙◌, true, false, List, [], ◌∷◌, ◌++◌, ◌==◌,
  ==_iff, append_assoc, Bool-cases, All, arith,
}
use peercast_yt.Text.Split.{join, join_more}
use peercast_yt.Text.Lines.{newline, lines_loop, to_lines}

abbrev pub HasNoNewline : List ℕ → Type 0
HasNoNewline = All (λ c. c ≢ newline)

-- One newline, at the end.
abbrev pub IsLine : List ℕ → Type 0
IsLine l = (a : List ℕ) × HasNoNewline a × (l ≡ a ++ newline ∷ [])

-- Each is a line, but the last one may lack its newline if it is not empty.
abbrev pub AreLines : List (List ℕ) → Type 0
AreLines [] = Unit
AreLines (l ∷ ls) = (IsLine l × AreLines ls) ⊎ ((l ≢ []) × HasNoNewline l × (ls ≡ []))

HasNoNewline-append :
    (a : List ℕ) (c : ℕ) → HasNoNewline a → c ≢ newline → HasNoNewline (a ++ c ∷ [])
HasNoNewline-append [] c h k = (k, tt)
HasNoNewline-append (x ∷ a) c h k = (h.0, HasNoNewline-append a c h.1 k)

join_more-nil : (ls : List (List ℕ)) → join_more [] ls ≡ join [] ls
unfolding join join_more
join_more-nil [] = refl
join_more-nil (l ∷ ls) = refl

step_end :
    (line s : List ℕ) (c : ℕ)
    → (c == newline) ≡ true
    → lines_loop line (c ∷ s) ≡ (line ++ c ∷ []) ∷ lines_loop [] s
unfolding lines_loop
step_end line s c e = ground arith

step_on :
    (line s : List ℕ) (c : ℕ)
    → (c == newline) ≡ false
    → lines_loop line (c ∷ s) ≡ lines_loop (line ++ c ∷ []) s
unfolding lines_loop
step_on line s c e = ground arith

Lines : List ℕ → List (List ℕ) → Type 0
Lines t ls = (join [] ls ≡ t) × AreLines ls

line_first : (l s : List ℕ) (ls : List (List ℕ)) → IsLine l → Lines s ls → Lines (l ++ s) (l ∷ ls)
unfolding join Lines
line_first l s ls h (e, a) = (ap (λ t. l ++ t) (join_more-nil ls ∙ e), inl (h, a))

lines_loop_lem : (line s : List ℕ) → HasNoNewline line → Lines (line ++ s) (lines_loop line s)
unfolding lines_loop join join_more Lines
lines_loop_lem [] [] h = (refl, tt)
lines_loop_lem (x ∷ line) [] h = (refl, inr ((λ e. cc), h, refl))
lines_loop_lem line (c ∷ s) h = elim (Bool-cases (c == newline)) [
  | inl e ↦ subst (Lines (line ++ c ∷ s)) (sym (step_end line s c e)) (
      subst (λ t. Lines t ((line ++ c ∷ []) ∷ lines_loop [] s)) (append_assoc line (c ∷ []) s)
        (line_first (line ++ c ∷ []) s (lines_loop [] s)
          (line, h, ap (λ x. line ++ x ∷ []) ((==_iff c newline).0 e)) (lines_loop_lem [] s tt)))
  | inr e ↦ subst (Lines (line ++ c ∷ s)) (sym (step_on line s c e)) (
      subst (λ t. Lines t (lines_loop (line ++ c ∷ []) s)) (append_assoc line (c ∷ []) s)
        (lines_loop_lem (line ++ c ∷ []) s
          (HasNoNewline-append line c h (λ k. let both = sym ((==_iff c newline).1 k) ∙ e in cc))))
]

-- The lines of a text, joined, are the text; each ends in its only newline, but for the last one, which
-- may have none and is then not empty.
pub to_lines_lem : (text : List ℕ) → (join [] (to_lines text) ≡ text) × AreLines (to_lines text)
unfolding to_lines Lines
to_lines_lem text = lines_loop_lem [] text tt
