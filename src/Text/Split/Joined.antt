-- ===== src/Text/Split/Joined.antt =====
-- Pieces that are joined by one character, split again.
use peercast_yt.Prelude.{
  ℕ, zero, suc, ◌+◌, ◌<◌, ◌≤◌, append-nil, ◌≡◌, ◌≢◌, refl, ap, ◌∙◌, none, some, List, [], ◌∷◌, ◌++◌,
  length, length-append, arith, All,
}
use peercast_yt.Text.Split.{
  c_str, behind, later, strstr, push_piece, split_loop, split, join_more, join,
}
use peercast_yt.Text.Split.Laws.{split_loop-some, split_loop-none}

abbrev pub Lacks : ℕ → List ℕ → Type 0
Lacks c = All (λ y. y ≢ c)

pub Lacks-append : (c : ℕ) (a b : List ℕ) → Lacks c a → Lacks c b → Lacks c (a ++ b)
Lacks-append c [] b h k = k
Lacks-append c (y ∷ a) b h k = (h.0, Lacks-append c a b h.1 k)

pub c_str-Lacks : (s : List ℕ) → Lacks 0 s → c_str s ≡ s
unfolding c_str
c_str-Lacks [] h = refl
c_str-Lacks (c ∷ s) h = ground (arith, c_str-Lacks s)

module _ (x : ℕ) where
  behind-other : (y : ℕ) (p : List ℕ) → y ≢ x → behind (x ∷ []) (y ∷ p) ≡ none
  unfolding behind
  behind-other y p h = ground arith

  behind-same : (p : List ℕ) → behind (x ∷ []) (x ∷ p) ≡ some p
  unfolding behind
  behind-same p = ground arith

  strstr-Lacks : (a : List ℕ) → Lacks x a → strstr a (x ∷ []) ≡ none
  unfolding strstr behind later
  strstr-Lacks [] h = refl
  strstr-Lacks (y ∷ a) h = rw (behind-other y a h.0, strstr) (ap (later y) (strstr-Lacks a h.1))

  strstr-first_one : (a r : List ℕ) → Lacks x a → strstr (a ++ x ∷ r) (x ∷ []) ≡ some (a, r)
  unfolding strstr later
  strstr-first_one [] r h = rw (behind-same r, strstr) refl
  strstr-first_one (y ∷ a) r h =
      rw (behind-other y (a ++ x ∷ r) h.0, strstr) (ap (later y) (strstr-first_one a r h.1))

  split_loop-join :
      (fuel : ℕ) (p : List ℕ) (ps : List (List ℕ))
      → length ps < fuel
      → Lacks x p
      → All (Lacks x) ps
      → split_loop fuel (x ∷ []) (join (x ∷ []) (p ∷ ps)) ≡ some (p ∷ ps)
  unfolding split_loop push_piece join join_more
  split_loop-join zero p ps h k l = absurd (omega arith)
  split_loop-join (suc fuel) p [] h k l =
      rw (append-nil p) (split_loop-none x [] fuel p (strstr-Lacks p k))
  split_loop-join (suc fuel) p (q ∷ ps) h k l =
      split_loop-some x [] fuel (p ++ x ∷ join (x ∷ []) (q ∷ ps)) p (join (x ∷ []) (q ∷ ps))
        (strstr-first_one p _ k)
      ∙ ap (push_piece p) (split_loop-join fuel q ps (omega arith) l.0 l.1)

length-join_more : (x : ℕ) (ps : List (List ℕ)) → length ps ≤ length (join_more (x ∷ []) ps)
unfolding join_more
length-join_more x [] = omega arith
length-join_more x (p ∷ ps) =
    omega (arith, length-join_more x ps, length-append p (join_more (x ∷ []) ps))

Lacks-join_more :
    (c x : ℕ) (ps : List (List ℕ)) → x ≢ c → All (Lacks c) ps → Lacks c (join_more (x ∷ []) ps)
unfolding join_more
Lacks-join_more c x [] n l = tt
Lacks-join_more c x (p ∷ ps) n l =
    (n, Lacks-append c p (join_more (x ∷ []) ps) l.0 (Lacks-join_more c x ps n l.1))

-- Pieces of C strings that lack the character, joined by it, are split into the same pieces.
pub split-join :
    (x : ℕ) (p : List ℕ) (ps : List (List ℕ))
    → x ≢ 0
    → All (Lacks x) (p ∷ ps)
    → All (Lacks 0) (p ∷ ps)
    → split (length (join (x ∷ []) (p ∷ ps)) + 1) (join (x ∷ []) (p ∷ ps)) (x ∷ []) ≡ some (p ∷ ps)
unfolding split join
split-join x p ps n l z =
    rw (c_str-Lacks (x ∷ []) (n, tt), c_str-Lacks (p ++ join_more (x ∷ []) ps) text)
      (split_loop-join x _ p ps
        (omega (arith, length-join_more x ps, length-append p (join_more (x ∷ []) ps))) l.0 l.1)
  where
    text : Lacks 0 (p ++ join_more (x ∷ []) ps)
    text = Lacks-append 0 p (join_more (x ∷ []) ps) z.0 (Lacks-join_more 0 x ps n z.1)
