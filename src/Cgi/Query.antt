-- ===== src/Cgi/Query.antt =====
-- `cgi::Query` of core/common/cgi.cpp: the constructor, which reads a query string, `str`, `add`, `get`,
-- `getAll`, `hasKey` and `getKeys`. The state is the map `m_dict`.
pub mod Laws
pub mod Round
pub mod Values
use peercast_yt.Prelude.{
  ℕ, ◌+◌, Bool, true, false, Option, none, some, List, [], ◌∷◌, ◌++◌, if◌then◌else◌, length, map,
}
use peercast_yt.Dict.{lookup, update}
use peercast_yt.Text.Split.{split}
use peercast_yt.Cgi.{escape, unescape}

-- `m_dict[key].push_back(value)`
abbrev pub push_back : List ℕ → Option (List (List ℕ)) → List (List ℕ)
push_back value none = value ∷ []
push_back value (some vs) = vs ++ value ∷ []

-- `m_dict[key] = {}`
abbrev pub no_values : Option (List (List ℕ)) → List (List ℕ)
no_values o = []

unfoldable pub add : List ℕ → List ℕ → List (List ℕ × List (List ℕ)) → List (List ℕ × List (List ℕ))
unfolding update
add key value = update (push_back value) key

-- The two sides of an assignment; what follows a second `=` is not used. `none` is a value that
-- `unescape` reads without a defined result.
unfoldable pub assign_sides :
    List (List ℕ) → List (List ℕ × List (List ℕ)) → Option (List (List ℕ × List (List ℕ)))
unfolding add unescape
assign_sides [] m = some m
assign_sides (key ∷ []) m = some (update no_values key m)
assign_sides (key ∷ value ∷ more) m = elim (unescape value) [
  | none ↦ none
  | some v ↦ some (add key v m)
]

unfoldable pub assign :
    List ℕ → List (List ℕ × List (List ℕ)) → Option (List (List ℕ × List (List ℕ)))
unfolding split assign_sides
assign [] m = some m
assign (c ∷ s) m = elim (split (length (c ∷ s) + 1) (c ∷ s) (b'=' ∷ [])) [
  | none ↦ none
  | some sides ↦ assign_sides sides m
]

unfoldable pub assign_all :
    List (List ℕ) → List (List ℕ × List (List ℕ)) → Option (List (List ℕ × List (List ℕ)))
unfolding assign
assign_all [] m = some m
assign_all (a ∷ more) m = elim (assign a m) [ none ↦ none | some n ↦ assign_all more n ]

-- `Query(queryString)`
unfoldable pub query : List ℕ → Option (List (List ℕ × List (List ℕ)))
unfolding split assign_all
query s = elim (split (length s + 1) s (b'&' ∷ [])) [
  | none ↦ none
  | some pieces ↦ assign_all pieces []
]

-- The loops of `str`: whether no value was written yet, and what was written.
unfoldable pub str_values : List ℕ → List (List ℕ) → Bool → List ℕ → Bool × List ℕ
unfolding escape
str_values key [] first res = (first, res)
str_values key (v ∷ vs) first res =
    str_values key vs false
      ((if first then res else res ++ b'&' ∷ []) ++ (escape key ++ b'=' ∷ escape v))

unfoldable pub str_pairs : List (List ℕ × List (List ℕ)) → Bool → List ℕ → List ℕ
unfolding str_values
str_pairs [] first res = res
str_pairs ((key, vs) ∷ m) first res =
    let done = str_values key vs first res in str_pairs m done.0 done.1

unfoldable pub str : List (List ℕ × List (List ℕ)) → List ℕ
unfolding str_pairs
str m = str_pairs m true []

unfoldable pub has_key : List ℕ → List (List ℕ × List (List ℕ)) → Bool
unfolding lookup
has_key key m = elim (lookup key m) [ some vs ↦ true | none ↦ false ]

abbrev pub first_of : List (List ℕ) → List ℕ
first_of [] = []
first_of (v ∷ vs) = v

unfoldable pub get : List ℕ → List (List ℕ × List (List ℕ)) → List ℕ
unfolding lookup
get key m = elim (lookup key m) [ some vs ↦ first_of vs | none ↦ [] ]

unfoldable pub get_all : List ℕ → List (List ℕ × List (List ℕ)) → List (List ℕ)
unfolding lookup
get_all key m = elim (lookup key m) [ some vs ↦ vs | none ↦ [] ]

unfoldable pub get_keys : List (List ℕ × List (List ℕ)) → List (List ℕ)
get_keys m = map (λ e. e.0) m
