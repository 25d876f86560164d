-- ===== src/Cgi/Query/Round.antt =====
-- What `str` writes, read by the constructor.
use peercast_yt.Prelude.{
  ℕ, ◌+◌, ◌≡◌, ◌≢◌, refl, sym, ap, subst, ◌∙◌, Bool, true, ◌&&◌, not, some, List, [], ◌∷◌, ◌++◌,
  ◌==◌, append_assoc, append-nil, map, All, IsByte, arith, length,
}
use peercast_yt.Prelude.Bits.{all_below, all_below_lem}
use peercast_yt.Dict.Laws.{IsSorted, Below, IsApart, IsApart-move, update-Below, update-last}
use peercast_yt.Text.Split.{split, join, join_more}
use peercast_yt.Text.Split.Joined.{Lacks, Lacks-append, split-join}
use peercast_yt.Cgi.{is_plain, escape_byte, escape}
use peercast_yt.Cgi.Laws.{unescape-escape}
use peercast_yt.Cgi.Query.{push_back, add, assign_sides, assign, assign_all, query, str}
use peercast_yt.Cgi.Query.Laws.{and, assignment, assignments, str-first}

lacks : ℕ → List ℕ → Bool
lacks c [] = true
lacks c (x ∷ s) = not (x == c) && lacks c s

lacks→Lacks : (c : ℕ) (s : List ℕ) → lacks c s ≡ true → Lacks c s
unfolding lacks
lacks→Lacks c [] h = tt
lacks→Lacks c (x ∷ s) h = ground (arith, lacks→Lacks c s)

-- The characters that divide a query, and the one that ends a C string.
IsDivider : ℕ → Type 0
IsDivider c = all_below 256 (λ b. lacks c (escape_byte b)) ≡ true

escape-Lacks : (c : ℕ) (s : List ℕ) → IsDivider c → All IsByte s → Lacks c (escape s)
unfolding escape IsDivider
escape-Lacks c [] d h = tt
escape-Lacks c (x ∷ s) d h =
    Lacks-append c (escape_byte x) (escape s)
      (lacks→Lacks c (escape_byte x) (all_below_lem 256 (λ b. lacks c (escape_byte b)) x d h.0))
      (escape-Lacks c s d h.1)

nul-IsDivider : IsDivider 0
unfolding IsDivider lacks
nul-IsDivider = refl

and-IsDivider : IsDivider b'&'
unfolding IsDivider lacks
and-IsDivider = refl

equal-IsDivider : IsDivider b'='
unfolding IsDivider lacks
equal-IsDivider = refl

-- A key that `escape` leaves as it is.
abbrev pub IsPlain : List ℕ → Type 0
IsPlain = All (λ c. (is_plain c ≡ true) × IsByte c)

escape-IsPlain : (s : List ℕ) → IsPlain s → escape s ≡ s
unfolding escape
escape-IsPlain [] h = refl
escape-IsPlain (c ∷ s) h = rw (h.0.0) (ap (λ t. c ∷ t) (escape-IsPlain s h.1))

IsPlain-IsByte : (s : List ℕ) → IsPlain s → All IsByte s
IsPlain-IsByte [] h = tt
IsPlain-IsByte (c ∷ s) h = (h.0.1, IsPlain-IsByte s h.1)

assignment-Lacks :
    (c : ℕ) (key v : List ℕ)
    → IsDivider c
    → b'=' ≢ c
    → All IsByte key
    → All IsByte v
    → Lacks c (assignment key v)
assignment-Lacks c key v d n h k =
    Lacks-append c (escape key) (b'=' ∷ escape v) (escape-Lacks c key d h) (n, escape-Lacks c v d k)

assign-step :
    (s : List ℕ) (m : List (List ℕ × List (List ℕ))) (sides : List (List ℕ))
    → s ≢ []
    → split (length s + 1) s (b'=' ∷ []) ≡ some sides
    → assign s m ≡ assign_sides sides m
unfolding assign
assign-step [] m sides n h = absurd (n refl)
assign-step (c ∷ s) m sides n h = rw (h, assign) refl

append_some : (a : List ℕ) (x : ℕ) (b : List ℕ) → a ++ x ∷ b ≢ []
append_some [] x b h = cc
append_some (y ∷ a) x b h = cc

-- The sides of an assignment.
split-assignment :
    (key v : List ℕ)
    → All IsByte key
    → All IsByte v
    → split (length (assignment key v) + 1) (assignment key v) (b'=' ∷ [])
      ≡ some (escape key ∷ escape v ∷ [])
unfolding join join_more
split-assignment key v h k =
    subst (λ s. split (length s + 1) s (b'=' ∷ []) ≡ some (escape key ∷ escape v ∷ []))
      (ap (λ t. escape key ++ b'=' ∷ t) (append-nil (escape v)))
      (split-join b'=' (escape key) (escape v ∷ []) (λ e. absurd (omega arith))
        (escape-Lacks b'=' key equal-IsDivider h, (escape-Lacks b'=' v equal-IsDivider k, tt))
        (escape-Lacks 0 key nul-IsDivider h, (escape-Lacks 0 v nul-IsDivider k, tt)))

assign-assignment :
    (key v : List ℕ) (m : List (List ℕ × List (List ℕ)))
    → IsPlain key
    → All IsByte v
    → assign (assignment key v) m ≡ some (add key v m)
unfolding assign_sides
assign-assignment key v m h k =
    assign-step (assignment key v) m (escape key ∷ escape v ∷ [])
      (append_some (escape key) b'=' (escape v)) (split-assignment key v (IsPlain-IsByte key h) k)
    ∙ rw (unescape-escape v k, assign_sides) (ap (λ t. some (add t v m)) (escape-IsPlain key h))

assign_all-one :
    (key v : List ℕ) (more : List (List ℕ)) (m : List (List ℕ × List (List ℕ)))
    → IsPlain key
    → All IsByte v
    → assign_all (assignment key v ∷ more) m ≡ assign_all more (add key v m)
unfolding assign_all
assign_all-one key v more m h k = rw (assign-assignment key v m h k, assign_all) refl

-- The further values of a key.
assign_all-values :
    (key : List ℕ) (vs ws more : List (List ℕ)) (m : List (List ℕ × List (List ℕ)))
    → IsPlain key
    → All (All IsByte) vs
    → Below m key
    → assign_all (map (assignment key) vs ++ more) (m ++ (key, ws) ∷ [])
      ≡ assign_all more (m ++ (key, ws ++ vs) ∷ [])
unfolding add
assign_all-values key [] ws more m h k b =
    ap (λ t. assign_all more (m ++ (key, t) ∷ [])) (sym (append-nil ws))
assign_all-values key (v ∷ vs) ws more m h k b =
    assign_all-one key v (map (assignment key) vs ++ more) (m ++ (key, ws) ∷ []) h k.0
    ∙ ap (assign_all (map (assignment key) vs ++ more)) (update-last (push_back v) key ws m b)
    ∙ assign_all-values key vs (ws ++ v ∷ []) more m h k.1 b
    ∙ ap (λ t. assign_all more (m ++ (key, t) ∷ [])) (append_assoc ws (v ∷ []) vs)

-- Plain keys, each with a value or more.
abbrev pub IsQuery : List (List ℕ × List (List ℕ)) → Type 0
IsQuery [] = Unit
IsQuery ((key, vs) ∷ m) = IsPlain key × (vs ≢ []) × All (All IsByte) vs × IsQuery m

assign_all-assignments :
    (n m : List (List ℕ × List (List ℕ)))
    → IsQuery n
    → IsSorted n
    → IsApart m n
    → assign_all (assignments n) m ≡ some (m ++ n)
unfolding assign_all IsApart add
assign_all-assignments [] m q s a = ap some (sym (append-nil m))
assign_all-assignments ((key, []) ∷ n) m q s a = absurd (q.1 refl)
assign_all-assignments ((key, v ∷ vs) ∷ n) m q s a =
    assign_all-one key v (map (assignment key) vs ++ assignments n) m q.0 q.2.0
    ∙ ap (assign_all (map (assignment key) vs ++ assignments n))
        (update-Below (push_back v) key m a.0)
    ∙ assign_all-values key vs (v ∷ []) (assignments n) m q.0 q.2.1 a.0
    ∙ assign_all-assignments n (m ++ (key, v ∷ vs) ∷ []) q.3 s.1
        (IsApart-move m n key (v ∷ vs) a.1 s.0)
    ∙ ap some (append_assoc m ((key, v ∷ vs) ∷ []) n)

assignments-Lacks :
    (c : ℕ) (m : List (List ℕ × List (List ℕ)))
    → IsDivider c
    → b'=' ≢ c
    → IsQuery m
    → All (Lacks c) (assignments m)
assignments-Lacks c [] d n q = tt
assignments-Lacks c ((key, vs) ∷ m) d n q = values vs q.2 (assignments-Lacks c m d n q.3)
  where
    values :
        (us : List (List ℕ))
        → All (All IsByte) us
        → All (Lacks c) (assignments m)
        → All (Lacks c) (map (assignment key) us ++ assignments m)
    values [] k l = l
    values (u ∷ us) k l =
        (assignment-Lacks c key u d n (IsPlain-IsByte key q.0) k.0, values us k.1 l)

query-join :
    (ps : List (List ℕ))
    → ps ≢ []
    → All (Lacks b'&') ps
    → All (Lacks 0) ps
    → query (join and ps) ≡ assign_all ps []
unfolding query
query-join [] n l z = absurd (n refl)
query-join (p ∷ ps) n l z = rw (split-join b'&' p ps (λ e. absurd (omega arith)) l z, query) refl

-- A query is a map from keys to the lists of their values, in the order of the keys. If the keys need no
-- escape, and each has a value, what `str` writes is read by the constructor as the same map, whatever
-- the bytes of the values are.
pub query-str :
    (m : List (List ℕ × List (List ℕ))) → IsSorted m → IsQuery m → query (str m) ≡ some m
unfolding str query assign_all IsApart
query-str [] s q = refl
query-str ((key, []) ∷ m) s q = absurd (q.1 refl)
query-str ((key, v ∷ vs) ∷ m) s q =
    ap query (str-first ((key, v ∷ vs) ∷ m))
    ∙ query-join (assignments ((key, v ∷ vs) ∷ m)) (λ e. cc)
        (assignments-Lacks b'&' ((key, v ∷ vs) ∷ m) and-IsDivider (λ e. absurd (omega arith)) q)
        (assignments-Lacks 0 ((key, v ∷ vs) ∷ m) nul-IsDivider (λ e. absurd (omega arith)) q)
    ∙ assign_all-assignments ((key, v ∷ vs) ∷ m) [] q s (apart ((key, v ∷ vs) ∷ m))
  where
    apart : (n : List (List ℕ × List (List ℕ))) → IsApart [] n
    apart [] = tt
    apart (e ∷ n) = (tt, apart n)
