-- ===== src/Dict/Laws.antt =====
-- Lookup behind a change, and the order of the entries.
use Prim.Native.Nat.{Ordering}
use peercast_yt.Prelude.{
  ℕ, ◌≡◌, ◌≢◌, ◌⊎◌, inl, inr, refl, sym, ap, subst, ◌∙◌, Option, none, some, List, [], ◌∷◌, ◌++◌,
  arith,
}
use peercast_yt.Dict.{compare_text, lookup, update}

pub lt_trans :
    (a b c : List ℕ)
    → compare_text a b ≡ Ordering.lt
    → compare_text b c ≡ Ordering.lt
    → compare_text a c ≡ Ordering.lt
unfolding compare_text
lt_trans [] [] c h k = cc
lt_trans [] (y ∷ b) [] h k = cc
lt_trans [] (y ∷ b) (z ∷ c) h k = refl
lt_trans (x ∷ a) [] c h k = cc
lt_trans (x ∷ a) (y ∷ b) [] h k = cc
lt_trans (x ∷ a) (y ∷ b) (z ∷ c) h k = ground (arith, lt_trans a b c)

pub compare_refl : (a : List ℕ) → compare_text a a ≡ Ordering.eq
unfolding compare_text
compare_refl [] = refl
compare_refl (x ∷ a) = ground (arith, compare_refl a)

pub eq→same : (a b : List ℕ) → compare_text a b ≡ Ordering.eq → a ≡ b
unfolding compare_text
eq→same [] [] h = refl
eq→same [] (y ∷ b) h = cc
eq→same (x ∷ a) [] h = cc
eq→same (x ∷ a) (y ∷ b) h = ground (arith, eq→same a b)

pub gt→lt : (a b : List ℕ) → compare_text a b ≡ Ordering.gt → compare_text b a ≡ Ordering.lt
unfolding compare_text
gt→lt [] [] h = cc
gt→lt [] (y ∷ b) h = cc
gt→lt (x ∷ a) [] h = refl
gt→lt (x ∷ a) (y ∷ b) h = ground (arith, gt→lt a b)

pub lt→gt : (a b : List ℕ) → compare_text a b ≡ Ordering.lt → compare_text b a ≡ Ordering.gt
unfolding compare_text
lt→gt [] [] h = cc
lt→gt [] (y ∷ b) h = refl
lt→gt (x ∷ a) [] h = cc
lt→gt (x ∷ a) (y ∷ b) h = ground (arith, lt→gt a b)

pub Ordering-cases : (o : Ordering) → (o ≡ Ordering.lt) ⊎ ((o ≡ Ordering.eq) ⊎ (o ≡ Ordering.gt))
Ordering-cases Ordering.lt = inl refl
Ordering-cases Ordering.eq = inr (inl refl)
Ordering-cases Ordering.gt = inr (inr refl)

module _ {ℓ} {V : Type ℓ} where
  -- The key comes before every key of the map.
  abbrev pub Before : List ℕ → List (List ℕ × V) → Type 0
  Before key [] = Unit
  Before key ((k, v) ∷ m) = (compare_text key k ≡ Ordering.lt) × Before key m

  abbrev pub IsSorted : List (List ℕ × V) → Type 0
  IsSorted [] = Unit
  IsSorted ((k, v) ∷ m) = Before k m × IsSorted m

  Before-trans :
      (a b : List ℕ) (m : List (List ℕ × V))
      → compare_text a b ≡ Ordering.lt
      → Before b m
      → Before a m
  Before-trans a b [] h k = tt
  Before-trans a b ((c, v) ∷ m) h k = (lt_trans a b c h k.0, Before-trans a b m h k.1)

  module _ (key k : List ℕ) (v : V) (m : List (List ℕ × V)) where
    pub lookup-lt : compare_text key k ≡ Ordering.lt → lookup key ((k, v) ∷ m) ≡ none
    unfolding lookup
    lookup-lt e = rw (e, lookup) refl

    pub lookup-eq : compare_text key k ≡ Ordering.eq → lookup key ((k, v) ∷ m) ≡ some v
    unfolding lookup
    lookup-eq e = rw (e, lookup) refl

    pub lookup-gt : compare_text key k ≡ Ordering.gt → lookup key ((k, v) ∷ m) ≡ lookup key m
    unfolding lookup
    lookup-gt e = rw (e, lookup) refl

    module _ (f : Option V → V) where
      pub update-lt :
          compare_text key k ≡ Ordering.lt → update f key ((k, v) ∷ m) ≡ (key, f none) ∷ (k, v) ∷ m
      unfolding update
      update-lt e = rw (e, update) refl

      pub update-eq :
          compare_text key k ≡ Ordering.eq → update f key ((k, v) ∷ m) ≡ (k, f (some v)) ∷ m
      unfolding update
      update-eq e = rw (e, update) refl

      pub update-gt :
          compare_text key k ≡ Ordering.gt → update f key ((k, v) ∷ m) ≡ (k, v) ∷ update f key m
      unfolding update
      update-gt e = rw (e, update) refl

  -- The entry of the key is what the change makes of it.
  pub lookup-update_same :
      (f : Option V → V) (key : List ℕ) (m : List (List ℕ × V))
      → lookup key (update f key m) ≡ some (f (lookup key m))
  unfolding lookup update
  lookup-update_same f key [] = lookup-eq key key (f none) [] (compare_refl key)
  lookup-update_same f key ((k, v) ∷ m) = elim (Ordering-cases (compare_text key k)) [
    | inl e ↦
        ap (lookup key) (update-lt key k v m f e)
        ∙ lookup-eq key key (f none) ((k, v) ∷ m) (compare_refl key)
        ∙ ap (λ o. some (f o)) (sym (lookup-lt key k v m e))
    | inr (inl e) ↦
        ap (lookup key) (update-eq key k v m f e)
        ∙ lookup-eq key k (f (some v)) m e
        ∙ ap (λ o. some (f o)) (sym (lookup-eq key k v m e))
    | inr (inr e) ↦
        ap (lookup key) (update-gt key k v m f e)
        ∙ lookup-gt key k v (update f key m) e
        ∙ lookup-update_same f key m
        ∙ ap (λ o. some (f o)) (sym (lookup-gt key k v m e))
  ]

  -- The first entry does not matter to another key.
  lookup-skip :
      (key k : List ℕ) (v w : V) (m : List (List ℕ × V))
      → key ≢ k
      → lookup key ((k, v) ∷ m) ≡ lookup key ((k, w) ∷ m)
  lookup-skip key k v w m n = elim (Ordering-cases (compare_text key k)) [
    | inl e ↦ lookup-lt key k v m e ∙ sym (lookup-lt key k w m e)
    | inr (inl e) ↦ absurd (n (eq→same key k e))
    | inr (inr e) ↦ lookup-gt key k v m e ∙ sym (lookup-gt key k w m e)
  ]

  -- A first entry of another key may be left out, if what follows comes behind it.
  lookup-first :
      (key k : List ℕ) (v : V) (m : List (List ℕ × V))
      → key ≢ k
      → (compare_text key k ≡ Ordering.lt → lookup key m ≡ none)
      → lookup key ((k, v) ∷ m) ≡ lookup key m
  lookup-first key k v m n h = elim (Ordering-cases (compare_text key k)) [
    | inl e ↦ lookup-lt key k v m e ∙ sym (h e)
    | inr (inl e) ↦ absurd (n (eq→same key k e))
    | inr (inr e) ↦ lookup-gt key k v m e
  ]

  lookup-behind :
      (key k : List ℕ) (v : V) (m m' : List (List ℕ × V))
      → lookup key m ≡ lookup key m'
      → lookup key ((k, v) ∷ m) ≡ lookup key ((k, v) ∷ m')
  lookup-behind key k v m m' h = elim (Ordering-cases (compare_text key k)) [
    | inl e ↦ lookup-lt key k v m e ∙ sym (lookup-lt key k v m' e)
    | inr (inl e) ↦ lookup-eq key k v m e ∙ sym (lookup-eq key k v m' e)
    | inr (inr e) ↦ lookup-gt key k v m e ∙ h ∙ sym (lookup-gt key k v m' e)
  ]

  -- The other entries stay.
  pub lookup-update_other :
      (f : Option V → V) (key other : List ℕ) (m : List (List ℕ × V))
      → other ≢ key
      → lookup other (update f key m) ≡ lookup other m
  unfolding lookup update
  lookup-update_other f key other [] n = lookup-first other key (f none) [] n (λ e. refl)
  lookup-update_other f key other ((k, v) ∷ m) n = elim (Ordering-cases (compare_text key k)) [
    | inl e ↦
        ap (lookup other) (update-lt key k v m f e)
        ∙ lookup-first other key (f none) ((k, v) ∷ m) n
            (λ l. lookup-lt other k v m (lt_trans other key k l e))
    | inr (inl e) ↦
        ap (lookup other) (update-eq key k v m f e)
        ∙ lookup-skip other k (f (some v)) v m (λ same. n (same ∙ sym (eq→same key k e)))
    | inr (inr e) ↦
        ap (lookup other) (update-gt key k v m f e)
        ∙ lookup-behind other k v (update f key m) m (lookup-update_other f key other m n)
  ]

  Before-update :
      (f : Option V → V) (k key : List ℕ) (m : List (List ℕ × V))
      → compare_text k key ≡ Ordering.lt
      → Before k m
      → Before k (update f key m)
  unfolding update
  Before-update f k key [] h b = (h, tt)
  Before-update f k key ((k', v) ∷ m) h b = elim (Ordering-cases (compare_text key k')) [
    | inl e ↦ subst (Before k) (sym (update-lt key k' v m f e)) (h, b)
    | inr (inl e) ↦ subst (Before k) (sym (update-eq key k' v m f e)) b
    | inr (inr e) ↦
        subst (Before k) (sym (update-gt key k' v m f e)) (b.0, Before-update f k key m h b.1)
  ]

  -- The order of the keys is kept.
  pub update-IsSorted :
      (f : Option V → V) (key : List ℕ) (m : List (List ℕ × V))
      → IsSorted m
      → IsSorted (update f key m)
  unfolding update
  update-IsSorted f key [] s = (tt, tt)
  update-IsSorted f key ((k, v) ∷ m) s = elim (Ordering-cases (compare_text key k)) [
    | inl e ↦ subst IsSorted (sym (update-lt key k v m f e)) ((e, Before-trans key k m e s.0), s)
    | inr (inl e) ↦ subst IsSorted (sym (update-eq key k v m f e)) s
    | inr (inr e) ↦
        subst IsSorted (sym (update-gt key k v m f e))
          (Before-update f k key m (gt→lt key k e) s.0, update-IsSorted f key m s.1)
  ]

  -- Every key of the map comes before the key.
  abbrev pub Below : List (List ℕ × V) → List ℕ → Type 0
  Below [] key = Unit
  Below ((k, v) ∷ m) key = (compare_text k key ≡ Ordering.lt) × Below m key

  pub update-Below :
      (f : Option V → V) (key : List ℕ) (m : List (List ℕ × V))
      → Below m key
      → update f key m ≡ m ++ (key, f none) ∷ []
  unfolding update
  update-Below f key [] h = refl
  update-Below f key ((k, v) ∷ m) h =
      update-gt key k v m f (lt→gt k key h.0) ∙ ap (λ t. (k, v) ∷ t) (update-Below f key m h.1)

  pub update-last :
      (f : Option V → V) (key : List ℕ) (w : V) (m : List (List ℕ × V))
      → Below m key
      → update f key (m ++ (key, w) ∷ []) ≡ m ++ (key, f (some w)) ∷ []
  unfolding update
  update-last f key w [] h = update-eq key key w [] f (compare_refl key)
  update-last f key w ((k, v) ∷ m) h =
      update-gt key k v (m ++ (key, w) ∷ []) f (lt→gt k key h.0)
      ∙ ap (λ t. (k, v) ∷ t) (update-last f key w m h.1)

  pub Below-append :
      (m : List (List ℕ × V)) (k key : List ℕ) (v : V)
      → Below m key
      → compare_text k key ≡ Ordering.lt
      → Below (m ++ (k, v) ∷ []) key
  Below-append [] k key v h l = (l, tt)
  Below-append ((k', v') ∷ m) k key v h l = (h.0, Below-append m k key v h.1 l)

  -- Two sorted maps that may be joined.
  unfoldable pub IsApart : List (List ℕ × V) → List (List ℕ × V) → Type 0
  IsApart m [] = Unit
  IsApart m ((k, v) ∷ n) = Below m k × IsApart m n

  pub IsApart-move :
      (m n : List (List ℕ × V)) (k : List ℕ) (v : V)
      → IsApart m n
      → Before k n
      → IsApart (m ++ (k, v) ∷ []) n
  unfolding IsApart
  IsApart-move m [] k v a b = tt
  IsApart-move m ((k', v') ∷ n) k v a b =
      (Below-append m k k' v a.0 b.0, IsApart-move m n k v a.1 b.1)
