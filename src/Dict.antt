-- ===== src/Dict.antt =====
-- `std::map<std::string, V>`, as the list of its entries in the order of the keys, which is the order of
-- their bytes. The maps of core/common/cgi.h and core/common/amf0.h are of this type.
pub mod Laws
use Prim.Native.Nat.{compare, Ordering}
use peercast_yt.Prelude.{ℕ, Bool, true, false, Option, none, some, List, [], ◌∷◌}

-- `std::string::compare`.
unfoldable pub compare_text : List ℕ → List ℕ → Ordering
compare_text [] [] = Ordering.eq
compare_text [] (y ∷ ys) = Ordering.lt
compare_text (x ∷ xs) [] = Ordering.gt
compare_text (x ∷ xs) (y ∷ ys) =
    let rest = compare_text xs ys in
    elim (compare x y) [
      | Ordering.lt ↦ Ordering.lt
      | Ordering.eq ↦ rest
      | Ordering.gt ↦ Ordering.gt
    ]

module _ {ℓ} {V : Type ℓ} where
  -- `find(key)`
  unfoldable pub lookup : List ℕ → List (List ℕ × V) → Option V
  unfolding compare_text
  lookup key [] = none
  lookup key ((k, v) ∷ m) =
      let rest = lookup key m in
      elim (compare_text key k) [ Ordering.lt ↦ none | Ordering.eq ↦ some v | Ordering.gt ↦ rest ]

  -- A change of what `m[key]` refers to, which is put in at its place if it is not there.
  unfoldable pub update : (Option V → V) → List ℕ → List (List ℕ × V) → List (List ℕ × V)
  unfolding compare_text
  update f key [] = (key, f none) ∷ []
  update f key ((k, v) ∷ m) =
      let rest = update f key m in
      elim (compare_text key k) [
        | Ordering.lt ↦ (key, f none) ∷ (k, v) ∷ m
        | Ordering.eq ↦ (k, f (some v)) ∷ m
        | Ordering.gt ↦ (k, v) ∷ rest
      ]
