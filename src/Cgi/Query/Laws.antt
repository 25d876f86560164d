-- ===== src/Cgi/Query/Laws.antt =====
-- What `str` writes: the assignments of a query, joined.
use peercast_yt.Prelude.{
  ℕ, ◌≡◌, refl, sym, ap, ◌∙◌, true, false, List, [], ◌∷◌, ◌++◌, append_assoc, append-nil, map,
}
use peercast_yt.Text.Split.{join, join_more}
use peercast_yt.Cgi.{escape}
use peercast_yt.Cgi.Query.{str_values, str_pairs}

abbrev pub assignment : List ℕ → List ℕ → List ℕ
assignment key v = escape key ++ b'=' ∷ escape v

-- The assignments of a query, in the order of the keys.
abbrev pub assignments : List (List ℕ × List (List ℕ)) → List (List ℕ)
assignments [] = []
assignments ((key, vs) ∷ m) = map (assignment key) vs ++ assignments m

abbrev pub and : List ℕ
and = b'&' ∷ []

join_more-append :
    (d : List ℕ) (xs ys : List (List ℕ)) → join_more d (xs ++ ys) ≡ join_more d xs ++ join_more d ys
unfolding join_more
join_more-append d [] ys = refl
join_more-append d (x ∷ xs) ys = rw (join_more-append d xs ys) (
    ap (λ t. d ++ t) (sym (append_assoc x (join_more d xs) (join_more d ys)))
    ∙ sym (append_assoc d (x ++ join_more d xs) (join_more d ys)))

str_values-more :
    (key : List ℕ) (vs : List (List ℕ)) (res : List ℕ)
    → str_values key vs false res ≡ (false, res ++ join_more and (map (assignment key) vs))
unfolding str_values join_more
str_values-more key [] res = ap (λ t. (false, t)) (sym (append-nil res))
str_values-more key (v ∷ vs) res =
    str_values-more key vs ((res ++ b'&' ∷ []) ++ assignment key v) ∙ ap (λ t. (false, t)) whole
  where
    rest : List ℕ
    rest = join_more and (map (assignment key) vs)

    whole :
        ((res ++ b'&' ∷ []) ++ assignment key v) ++ rest ≡ res ++ b'&' ∷ (assignment key v ++ rest)
    whole =
        append_assoc (res ++ b'&' ∷ []) (assignment key v) rest
        ∙ append_assoc res (b'&' ∷ []) (assignment key v ++ rest)

str_pairs-more :
    (m : List (List ℕ × List (List ℕ))) (res : List ℕ)
    → str_pairs m false res ≡ res ++ join_more and (assignments m)
unfolding str_pairs join_more
str_pairs-more [] res = sym (append-nil res)
str_pairs-more ((key, vs) ∷ m) res = rw (str_values-more key vs res) (
    str_pairs-more m (res ++ join_more and (map (assignment key) vs))
    ∙ append_assoc res (join_more and (map (assignment key) vs)) (join_more and (assignments m))
    ∙ ap (λ t. res ++ t) (sym (join_more-append and (map (assignment key) vs) (assignments m))))

pub str-first : (m : List (List ℕ × List (List ℕ))) → str_pairs m true [] ≡ join and (assignments m)
unfolding str_pairs str_values join_more join
str-first [] = refl
str-first ((key, []) ∷ m) = str-first m
str-first ((key, v ∷ vs) ∷ m) = str_pairs-more ((key, vs) ∷ m) (assignment key v)
