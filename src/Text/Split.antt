-- ===== src/Text/Split.antt =====
-- `split` and `join` of core/common/str.cpp. `split` works on C strings, which end at the first NUL;
-- `strstr` gives the text before the first occurrence and the text behind it. Fuel bounds the rounds.
pub mod Laws
pub mod Joined
use peercast_yt.Prelude.{
  ℕ, zero, suc, ◌+◌, Bool, true, false, Option, none, some, List, [], ◌∷◌, ◌++◌, ◌==◌, ltb,
  if◌then◌else◌, length,
}

unfoldable pub c_str : List ℕ → List ℕ
c_str [] = []
c_str (c ∷ s) = let rest = c_str s in if c == 0 then [] else c ∷ rest

-- What follows a prefix, if the text starts with it.
unfoldable pub behind : List ℕ → List ℕ → Option (List ℕ)
behind [] p = some p
behind (x ∷ sep) [] = none
behind (x ∷ sep) (c ∷ p) = let rest = behind sep p in if x == c then rest else none

unfoldable pub later : ℕ → Option (List ℕ × List ℕ) → Option (List ℕ × List ℕ)
later c none = none
later c (some (a, r)) = some (c ∷ a, r)

unfoldable pub strstr : List ℕ → List ℕ → Option (List ℕ × List ℕ)
unfolding behind later
strstr [] sep = elim (behind sep []) [ some r ↦ some ([], r) | none ↦ none ]
strstr (c ∷ p) sep =
    let rest = strstr p sep in
    elim (behind sep (c ∷ p)) [ some r ↦ some ([], r) | none ↦ later c rest ]

unfoldable pub push_piece : List ℕ → Option (List (List ℕ)) → Option (List (List ℕ))
push_piece a none = none
push_piece a (some ps) = some (a ∷ ps)

unfoldable pub split_loop : ℕ → List ℕ → List ℕ → Option (List (List ℕ))
unfolding strstr push_piece
split_loop zero sep p = none
split_loop (suc fuel) sep p = elim (strstr p sep) [
  | some (a, r) ↦ push_piece a (split_loop fuel sep r)
  | none ↦ some (p ∷ [])
]

unfoldable pub split : ℕ → List ℕ → List ℕ → Option (List (List ℕ))
unfolding split_loop c_str
split fuel text separator = split_loop fuel (c_str separator) (c_str text)

-- `split` with a limit, `size` pieces pushed so far.
unfoldable pub split_limit_loop : ℕ → ℕ → ℕ → List ℕ → List ℕ → Option (List (List ℕ))
unfolding strstr push_piece
split_limit_loop zero size limit sep p = none
split_limit_loop (suc fuel) size limit sep p = elim (ltb (size + 1) limit) [
  | true ↦ elim (strstr p sep) [
    | some (a, r) ↦ push_piece a (split_limit_loop fuel (size + 1) limit sep r)
    | none ↦ some (p ∷ [])
  ]
  | false ↦ some (p ∷ [])
]

-- `none` is the exception, which a limit of 0 meets, or the end of the fuel.
unfoldable pub split_limit : ℕ → List ℕ → List ℕ → ℕ → Option (List (List ℕ))
unfolding split_limit_loop c_str
split_limit fuel text separator zero = none
split_limit fuel text separator (suc l) =
    split_limit_loop fuel 0 (suc l) (c_str separator) (c_str text)

-- The delimiter goes before each text but the first.
unfoldable pub join_more : List ℕ → List (List ℕ) → List ℕ
join_more delimiter [] = []
join_more delimiter (s ∷ vec) = delimiter ++ (s ++ join_more delimiter vec)

unfoldable pub join : List ℕ → List (List ℕ) → List ℕ
unfolding join_more
join delimiter [] = []
join delimiter (s ∷ vec) = s ++ join_more delimiter vec
