-- ===== src/Text/Split/Laws.antt =====
-- Texts that are split and joined again.
use peercast_yt.Prelude.{
  ℕ, zero, suc, ◌+◌, ◌≤◌, ◌<◌, ◌-◌, min, lt→ltb, ltb→lt, ltb_false→le, ◌≡◌, ◌≢◌, refl, sym, ap, ◌∙◌,
  subst, inl, inr, ◌⊎◌, Option, none, some, List, [], ◌∷◌, ◌++◌, ltb, length, length-append,
  append_assoc, append-nil, arith, All, Option-cases, Bool-cases,
}
use peercast_yt.Text.Split.{
  c_str, behind, later, strstr, push_piece, split_loop, split, split_limit_loop, split_limit,
  join_more, join,
}

-- `sep` occurs in `p`.
abbrev pub Has : List ℕ → List ℕ → Type 0
Has sep p = (a : List ℕ) × (r : List ℕ) × (p ≡ a ++ (sep ++ r))

behind-some : (sep p r : List ℕ) → behind sep p ≡ some r → p ≡ sep ++ r
unfolding behind
behind-some [] p r h = cc
behind-some (x ∷ sep) [] r h = cc
behind-some (x ∷ sep) (c ∷ p) r h = ground (arith, behind-some sep p r)

behind-prefix : (sep r : List ℕ) → behind sep (sep ++ r) ≡ some r
unfolding behind
behind-prefix [] r = refl
behind-prefix (x ∷ sep) r = ground (arith, behind-prefix sep r)

module _ (x : ℕ) (u : List ℕ) where
  strstr-here :
      (c : ℕ) (p r : List ℕ)
      → behind (x ∷ u) (c ∷ p) ≡ some r
      → strstr (c ∷ p) (x ∷ u) ≡ some ([], r)
  unfolding strstr
  strstr-here c p r e = rw (e, strstr) refl

  strstr-later :
      (c : ℕ) (p : List ℕ)
      → behind (x ∷ u) (c ∷ p) ≡ none
      → strstr (c ∷ p) (x ∷ u) ≡ later c (strstr p (x ∷ u))
  unfolding strstr
  strstr-later c p e = rw (e, strstr) refl

  later-some :
      (c : ℕ) (o : Option (List ℕ × List ℕ)) (a r : List ℕ)
      → later c o ≡ some (a, r)
      → (a' : List ℕ) × (o ≡ some (a', r)) × (a ≡ c ∷ a')
  unfolding later
  later-some c none a r h = cc
  later-some c (some (a', r')) a r h = (a', cc, cc)

  -- The first occurrence is here, or it is later.
  strstr-cases :
      (c : ℕ) (p a r : List ℕ)
      → strstr (c ∷ p) (x ∷ u) ≡ some (a, r)
      → ((a ≡ []) × (behind (x ∷ u) (c ∷ p) ≡ some r))
        ⊎ ((a' : List ℕ) × (strstr p (x ∷ u) ≡ some (a', r))
            × (a ≡ c ∷ a')
            × (behind (x ∷ u) (c ∷ p) ≡ none))
  strstr-cases c p a r h = elim (Option-cases (behind (x ∷ u) (c ∷ p))) [
    | inl e ↦
        let (a', h', l) = later-some c (strstr p (x ∷ u)) a r (sym (strstr-later c p e) ∙ h) in
        inr (a', h', l, e)
    | inr (r', e) ↦ let same = sym h ∙ strstr-here c p r' e in inl (cc, cc)
  ]

  strstr-some : (p a r : List ℕ) → strstr p (x ∷ u) ≡ some (a, r) → p ≡ a ++ ((x ∷ u) ++ r)
  unfolding strstr behind
  strstr-some [] a r h = cc
  strstr-some (c ∷ p) a r h = elim (strstr-cases c p a r h) [
    | inl (l, e) ↦ rw l (behind-some (x ∷ u) (c ∷ p) r e)
    | inr (a', h', l, e) ↦ rw l (ap (λ t. c ∷ t) (strstr-some p a' r h'))
  ]

  no-Has : (a r : List ℕ) → ¬ (◌≡◌ {A = List ℕ} [] (a ++ ((x ∷ u) ++ r)))
  no-Has [] r h = cc
  no-Has (y ∷ a) r h = cc

  none-prefix : (c : ℕ) (p r : List ℕ) → behind (x ∷ u) (c ∷ p) ≡ none → ¬ (c ∷ p ≡ (x ∷ u) ++ r)
  none-prefix c p r e h = let same = sym e ∙ ap (behind (x ∷ u)) h ∙ behind-prefix (x ∷ u) r in cc

  Has-cases :
      (c : ℕ) (p : List ℕ)
      → Has (x ∷ u) (c ∷ p)
      → ((r : List ℕ) × (c ∷ p ≡ (x ∷ u) ++ r)) ⊎ Has (x ∷ u) p
  Has-cases c p ([], r, e) = inl (r, e)
  Has-cases c p (y ∷ a, r, e) = inr (a, r, cc)

  later-none : (c : ℕ) (o : Option (List ℕ × List ℕ)) → later c o ≡ none → o ≡ none
  unfolding later
  later-none c none h = refl
  later-none c (some (a, r)) h = cc

  strstr-none : (p : List ℕ) → strstr p (x ∷ u) ≡ none → ¬ Has (x ∷ u) p
  strstr-none [] h (a, r, e) = no-Has a r e
  strstr-none (c ∷ p) h has = elim (Option-cases (behind (x ∷ u) (c ∷ p))) [
    | inl n ↦ elim (Has-cases c p has) [
      | inl (r, e) ↦ none-prefix c p r n e
      | inr more ↦
          strstr-none p (later-none c (strstr p (x ∷ u)) (sym (strstr-later c p n) ∙ h)) more
    ]
    | inr (r', n) ↦ let same = sym h ∙ strstr-here c p r' n in cc
  ]

  strstr-first : (p a r : List ℕ) → strstr p (x ∷ u) ≡ some (a, r) → ¬ Has (x ∷ u) a
  unfolding strstr behind
  strstr-first [] a r h has = cc
  strstr-first (c ∷ p) a r h has = elim (strstr-cases c p a r h) [
    | inl (l, e) ↦ no-Has has.0 has.1 (sym l ∙ has.2)
    | inr (a', h', l, n) ↦ elim (Has-cases c a' (subst (Has (x ∷ u)) l has)) [
      | inl (r', e) ↦ none-prefix c p (r' ++ ((x ∷ u) ++ r)) n (
          ap (λ t. c ∷ t) (strstr-some p a' r h')
          ∙ ap (λ t. t ++ ((x ∷ u) ++ r)) e
          ∙ append_assoc (x ∷ u) r' ((x ∷ u) ++ r))
      | inr more ↦ strstr-first p a' r h' more
    ]
  ]

  -- Enough rounds, the pieces that come of them, and what they are.
  pub record Pieces (p : List ℕ) (ps : List (List ℕ)) : Type 0 where
    pub whole : join (x ∷ u) ps ≡ p
    pub apart : All (λ s. ¬ Has (x ∷ u) s) ps
    pub some_piece : 0 < length ps

  pub split_loop-some :
      (fuel : ℕ) (p a r : List ℕ)
      → strstr p (x ∷ u) ≡ some (a, r)
      → split_loop (suc fuel) (x ∷ u) p ≡ push_piece a (split_loop fuel (x ∷ u) r)
  unfolding split_loop
  split_loop-some fuel p a r e = rw (e, split_loop) refl

  pub split_loop-none :
      (fuel : ℕ) (p : List ℕ)
      → strstr p (x ∷ u) ≡ none
      → split_loop (suc fuel) (x ∷ u) p ≡ some (p ∷ [])
  unfolding split_loop
  split_loop-none fuel p e = rw (e, split_loop) refl

  join-cons :
      (a : List ℕ) (ps : List (List ℕ))
      → 0 < length ps
      → join (x ∷ u) (a ∷ ps) ≡ a ++ ((x ∷ u) ++ join (x ∷ u) ps)
  unfolding join join_more
  join-cons a [] h = absurd (omega arith)
  join-cons a (s ∷ ps) h = refl

  piece_last : (p : List ℕ) → strstr p (x ∷ u) ≡ none → Pieces p (p ∷ [])
  unfolding join join_more
  piece_last p e = record {
    whole = append-nil p;
    apart = (strstr-none p e, tt);
    some_piece = omega arith;
  }

  piece_more :
      (p a r : List ℕ) (ps : List (List ℕ))
      → strstr p (x ∷ u) ≡ some (a, r)
      → Pieces r ps
      → Pieces p (a ∷ ps)
  piece_more p a r ps e s = record {
    whole = join-cons a ps s.some_piece ∙ rw s.whole (sym (strstr-some p a r e));
    apart = (strstr-first p a r e, s.apart);
    some_piece = omega arith;
  }

  shorter : (p a r : List ℕ) → strstr p (x ∷ u) ≡ some (a, r) → length r < length p
  shorter p a r e = omega (
    arith,
    ap length (strstr-some p a r e),
    length-append a ((x ∷ u) ++ r),
    length-append (x ∷ u) r,
  )

  -- What the limit leaves of the pieces.
  record Limited (limit size : ℕ) (p : List ℕ) (ps qs : List (List ℕ)) : Type 0 where
    joined : join (x ∷ u) qs ≡ p
    number : length qs ≡ min (limit - size) (length ps)

  module _ (fuel size limit : ℕ) where
    limit-some :
        (p a r : List ℕ)
        → strstr p (x ∷ u) ≡ some (a, r)
        → size + 1 < limit
        → split_limit_loop (suc fuel) size limit (x ∷ u) p
          ≡ push_piece a (split_limit_loop fuel (size + 1) limit (x ∷ u) r)
    unfolding split_limit_loop
    limit-some p a r e h = rw (lt→ltb (size + 1) limit h, e, split_limit_loop) refl

    limit-none :
        (p : List ℕ)
        → strstr p (x ∷ u) ≡ none
        → split_limit_loop (suc fuel) size limit (x ∷ u) p ≡ some (p ∷ [])
    unfolding split_limit_loop
    limit-none p e = elim (Bool-cases (ltb (size + 1) limit)) [
      | inl h ↦ rw (h, e, split_limit_loop) refl
      | inr h ↦ rw (h, split_limit_loop) refl
    ]

    limit-full :
        (p : List ℕ)
        → limit ≤ size + 1
        → split_limit_loop (suc fuel) size limit (x ∷ u) p ≡ some (p ∷ [])
    unfolding split_limit_loop
    limit-full p h = ground arith

  Limits : ℕ → List ℕ → List (List ℕ) → Type 0
  Limits fuel p ps =
      (size limit : ℕ)
      → size < limit
      → (qs : List (List ℕ)) × (split_limit_loop fuel size limit (x ∷ u) p ≡ some qs)
        × Limited limit size p ps qs

  whole-Limited :
      (limit size : ℕ) (p : List ℕ) (ps : List (List ℕ))
      → min (limit - size) (length ps) ≡ 1
      → Limited limit size p ps (p ∷ [])
  unfolding join join_more
  whole-Limited limit size p ps h = record { joined = append-nil p; number = sym h }

  last-Limits : (fuel : ℕ) (p : List ℕ) → strstr p (x ∷ u) ≡ none → Limits (suc fuel) p (p ∷ [])
  unfolding Limits
  last-Limits fuel p e size limit h =
      (p ∷ [], limit-none fuel size limit p e, whole-Limited limit size p (p ∷ []) (omega arith))

  more-Limits :
      (fuel : ℕ) (p a r : List ℕ) (ps : List (List ℕ))
      → strstr p (x ∷ u) ≡ some (a, r)
      → 0 < length ps
      → Limits fuel r ps
      → Limits (suc fuel) p (a ∷ ps)
  unfolding Limits push_piece
  more-Limits fuel p a r ps e k more size limit h = elim (Bool-cases (ltb (size + 1) limit)) [
    | inl l ↦
        let (qs, m, q) = more (size + 1) limit (ltb→lt (size + 1) limit l) in
        (
          a ∷ qs,
          limit-some fuel size limit p a r e (ltb→lt (size + 1) limit l) ∙ ap (push_piece a) m,
          record {
            joined =
                join-cons a qs (omega (arith, q.number, ltb→lt (size + 1) limit l))
                ∙ rw q.joined (sym (strstr-some p a r e));
            number = omega (arith, q.number, ltb→lt (size + 1) limit l);
          },
        )
    | inr l ↦ (
      p ∷ [],
      limit-full fuel size limit p (ltb_false→le (size + 1) limit l),
      whole-Limited limit size p (a ∷ ps) (omega (arith, ltb_false→le (size + 1) limit l)),
    )
  ]

  split_loop_lem :
      (fuel : ℕ) (p : List ℕ)
      → length p < fuel
      → (ps : List (List ℕ)) × (split_loop fuel (x ∷ u) p ≡ some ps)
        × Pieces p ps
        × Limits fuel p ps
  unfolding push_piece
  split_loop_lem zero p h = absurd (omega arith)
  split_loop_lem (suc fuel) p h = elim (Option-cases (strstr p (x ∷ u))) [
    | inl e ↦ (p ∷ [], split_loop-none fuel p e, piece_last p e, last-Limits fuel p e)
    | inr ((a, r), e) ↦
        let (ps, more, s, l) = split_loop_lem fuel r (omega (arith, shorter p a r e)) in
        (
          a ∷ ps,
          split_loop-some fuel p a r e ∙ ap (push_piece a) more,
          piece_more p a r ps e s,
          more-Limits fuel p a r ps e s.some_piece l,
        )
  ]

length-c_str : (s : List ℕ) → length (c_str s) ≤ length s
unfolding c_str
length-c_str [] = omega arith
length-c_str (c ∷ s) = ground (arith, length-c_str s)

-- The separator is split off as one that is not empty.
split_loop_any :
    (sep p : List ℕ) (fuel l : ℕ)
    → sep ≢ []
    → length p < fuel
    → (ps : List (List ℕ)) × (qs : List (List ℕ)) × (split_loop fuel sep p ≡ some ps)
      × (join sep ps ≡ p)
      × All (λ s. ¬ Has sep s) ps
      × (split_limit_loop fuel 0 (suc l) sep p ≡ some qs)
      × (join sep qs ≡ p)
      × (length qs ≡ min (suc l) (length ps))
unfolding Limits
split_loop_any [] p fuel l n h = absurd (n refl)
split_loop_any (x ∷ u) p fuel l n h =
    let (ps, e, s, limited) = split_loop_lem x u fuel p h in
    let (qs, m, q) = limited 0 (suc l) (omega arith) in
    (ps, qs, e, s.whole, s.apart, m, q.joined, omega (arith, q.number))

-- `split` of a text by a separator that is not empty returns within as many rounds as the text has
-- bytes, and one: its pieces, joined by the separator, are the text up to its first NUL, and the
-- separator occurs in none of them. `split` with a limit of at least 1 returns as many pieces, up to the
-- limit, and their join is the text as well.
pub split_lem :
    (text separator : List ℕ) (l : ℕ)
    → c_str separator ≢ []
    → (ps : List (List ℕ)) × (qs : List (List ℕ)) × (split (length text + 1) text separator
        ≡ some ps)
      × (join (c_str separator) ps ≡ c_str text)
      × All (λ s. ¬ Has (c_str separator) s) ps
      × (split_limit (length text + 1) text separator (suc l) ≡ some qs)
      × (join (c_str separator) qs ≡ c_str text)
      × (length qs ≡ min (suc l) (length ps))
unfolding split split_limit
split_lem text separator l h =
    split_loop_any (c_str separator) (c_str text) (length text + 1) l h
      (omega (arith, length-c_str text))
