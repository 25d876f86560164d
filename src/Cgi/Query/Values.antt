-- ===== src/Cgi/Query/Values.antt =====
-- What is found in a query after a value was added.
use peercast_yt.Prelude.{ℕ, ◌≡◌, ◌≢◌, refl, sym, ap, ◌∙◌, Option, none, some, List, [], ◌∷◌, ◌++◌}
use peercast_yt.Dict.{lookup}
use peercast_yt.Dict.Laws.{IsSorted, lookup-update_same, lookup-update_other, update-IsSorted}
use peercast_yt.Cgi.Query.{push_back, add, get_all}

values : Option (List (List ℕ)) → List (List ℕ)
values none = []
values (some vs) = vs

values-push_back : (v : List ℕ) (o : Option (List (List ℕ))) → push_back v o ≡ values o ++ v ∷ []
unfolding values
values-push_back v none = refl
values-push_back v (some vs) = refl

get_all-values :
    (key : List ℕ) (m : List (List ℕ × List (List ℕ))) → get_all key m ≡ values (lookup key m)
unfolding get_all values
get_all-values key m =
    elim (lookup key m) as (λ o. elim o [ some vs ↦ vs | none ↦ [] ] ≡ values o) [
      | none ↦ refl
      | some vs ↦ refl
    ]

-- After `add`, `getAll` gives the values of the key and the one that was added; those of another key,
-- and the order of the keys, stay.
pub get_all-add :
    (key v : List ℕ) (m : List (List ℕ × List (List ℕ)))
    → IsSorted m
    → (get_all key (add key v m) ≡ get_all key m ++ v ∷ [])
      × ((other : List ℕ) → other ≢ key → get_all other (add key v m) ≡ get_all other m)
      × IsSorted (add key v m)
unfolding add values
get_all-add key v m s = (
  get_all-values key (add key v m)
      ∙ ap values (lookup-update_same (push_back v) key m)
      ∙ values-push_back v (lookup key m)
      ∙ ap (λ r. r ++ v ∷ []) (sym (get_all-values key m)),
  (λ other n.
      get_all-values other (add key v m)
      ∙ ap values (lookup-update_other (push_back v) key other m n)
      ∙ sym (get_all-values other m)),
  update-IsSorted (push_back v) key m s,
)
