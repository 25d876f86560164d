-- ===== src/Hits/Count.antt =====
-- The questions about a hit list: how many, how near, how new.
use peercast_yt.Prelude.{
  ℕ, ◌+◌, ◌≤◌, ◌<◌, ◌≡◌, ◌⊎◌, inl, inr, refl, sym, subst, ==_iff, ◌∙◌, ◌≢◌, Bool, true, false, ◌&&◌,
  List, [], ◌∷◌, ltb, ◌==◌, if◌then◌else◌, arith, All, keep, length, Bool-cases,
}
use native.Mathlib.Nat.{zero-add}
use peercast_yt.Prelude.Words.{u32_mod, add32}
use peercast_yt.Hits.{Hit, Node, is_live}
use peercast_yt.Hits.Totals.{total, num_hits, num_listeners, closest_from, closest_hit}

-- The sum over the nodes that a test holds of, with no bound.
abbrev pub sum_of : (Hit → Bool) → (Hit → ℕ) → List Node → ℕ
sum_of test f [] = 0
sum_of test f (n ∷ ns) = (if test n.hit then f n.hit else 0) + sum_of test f ns

total-sum_of :
    (test : Hit → Bool) (f : Hit → ℕ) (l : List Node) (cnt : ℕ)
    → cnt + sum_of test f l < u32_mod
    → total test f l cnt ≡ cnt + sum_of test f l
unfolding total
total-sum_of test f [] cnt h = omega arith
total-sum_of test f (n ∷ ns) cnt h =
    ground (arith, total-sum_of test f ns (add32 cnt (f n.hit)), total-sum_of test f ns cnt)

sum_of-length :
    (test : Hit → Bool) (l : List Node) → sum_of test (λ _. 1) l ≡ length (keep (λ n. test n.hit) l)
sum_of-length test [] = refl
sum_of-length test (n ∷ ns) = ground (arith, sum_of-length test ns)

-- `numHits` is the number of the nodes that have an address and are not dead, and `numListeners` the
-- sum of their listeners, as long as these stay below 2 ^ 32.
pub num_hits-num_listeners :
    (l : List Node)
    → length (keep (λ n. is_live n.hit) l) < u32_mod
    → sum_of is_live (λ c. c.num_listeners) l < u32_mod
    → (num_hits l ≡ length (keep (λ n. is_live n.hit) l))
      × (num_listeners l ≡ sum_of is_live (λ c. c.num_listeners) l)
unfolding num_hits num_listeners
num_hits-num_listeners l h k = (
  total-sum_of is_live (λ _. 1) l 0 (omega (arith, sum_of-length is_live l))
      ∙ (zero-add _ ∙ sum_of-length is_live l),
  total-sum_of is_live (λ c. c.num_listeners) l 0 (omega arith) ∙ zero-add _,
)

and_split : (b : Bool) (x y : ℕ) → (b && ltb x y) ≡ true → (b ≡ true) × (x < y)
and_split b x y h = ground arith

not_and : (b : Bool) (x y : ℕ) → (b && ltb x y) ≡ false → b ≡ true → y ≤ x
not_and b x y h e = ground arith

keep-cons :
    (p : Node → Bool) (n : Node) (ns : List Node)
    → (p n ≡ true) ⊎ (keep p ns ≢ [])
    → keep p (n ∷ ns) ≢ []
keep-cons p n ns (inl e) = rw e (λ q. cc)
keep-cons p n ns (inr e) = elim (Bool-cases (p n)) [
  | inl hit ↦ rw hit (λ q. cc)
  | inr miss ↦ rw miss e
]

-- `hop` is the least number of hops of a live node, or `top` if every live node is farther.
abbrev pub IsClosest : ℕ → List Node → ℕ → Type 0
IsClosest top l hop =
    (hop ≤ top)
    × All (λ n. is_live n.hit ≡ true → hop ≤ (n.hit).num_hops) l
    × ((hop ≡ top) ⊎ (keep (λ n. is_live n.hit && (n.hit).num_hops == hop) l ≢ []))

IsClosest-nearer :
    (n : Node) (ns : List Node) (top hop : ℕ)
    → is_live n.hit ≡ true
    → (n.hit).num_hops < top
    → IsClosest (n.hit).num_hops ns hop
    → IsClosest top (n ∷ ns) hop
IsClosest-nearer n ns top hop live less (le, all, at) =
    (omega arith, ((λ _. le), all), inr (keep-cons _ n ns (here at)))
  where
    here :
        (hop ≡ (n.hit).num_hops) ⊎ (keep (λ m. is_live m.hit && (m.hit).num_hops == hop) ns ≢ [])
        → ((is_live n.hit && (n.hit).num_hops == hop) ≡ true)
          ⊎ (keep (λ m. is_live m.hit && (m.hit).num_hops == hop) ns ≢ [])
    here (inl e) = inl (rw live ((==_iff _ hop).1 (sym e)))
    here (inr some_later) = inr some_later

IsClosest-farther :
    (n : Node) (ns : List Node) (top hop : ℕ)
    → (is_live n.hit ≡ true → top ≤ (n.hit).num_hops)
    → IsClosest top ns hop
    → IsClosest top (n ∷ ns) hop
IsClosest-farther n ns top hop far (le, all, inl e) =
    (le, ((λ live. omega (arith, far live)), all), inl e)
IsClosest-farther n ns top hop far (le, all, inr some_later) =
    (le, ((λ live. omega (arith, far live)), all), inr (keep-cons _ n ns (inr some_later)))

closest_from-cons :
    (n : Node) (ns : List Node) (top : ℕ) (b : Bool)
    → (is_live n.hit && ltb (n.hit).num_hops top) ≡ b
    → closest_from (n ∷ ns) top ≡ closest_from ns (if b then (n.hit).num_hops else top)
unfolding closest_from
closest_from-cons n ns top b e = rw e

closest_from-IsClosest : (l : List Node) (top : ℕ) → IsClosest top l (closest_from l top)
closest_from-IsClosest [] top = unfold closest_from in (omega arith, tt, inl refl)
closest_from-IsClosest (n ∷ ns) top =
    elim (Bool-cases (is_live n.hit && ltb (n.hit).num_hops top)) [
      | inl nearer ↦
          let split = and_split (is_live n.hit) _ _ nearer in
          subst (IsClosest top (n ∷ ns)) (sym (closest_from-cons n ns top true nearer))
            (IsClosest-nearer n ns top _ split.0 split.1 (closest_from-IsClosest ns _))
      | inr farther ↦
          subst (IsClosest top (n ∷ ns)) (sym (closest_from-cons n ns top false farther))
            (IsClosest-farther n ns top _ (not_and _ _ _ farther) (closest_from-IsClosest ns top))
    ]

-- `closestHit` is the least number of hops of a host with an address that is not dead, and 10000
-- where all such hosts are farther.
pub closest_hit_lem : (l : List Node) → IsClosest 10000 l (closest_hit l)
unfolding closest_hit
closest_hit_lem l = closest_from-IsClosest l 10000
