-- ===== src/Hits/Sweep.antt =====
-- The loops over a hit list that delete while they walk, and the filter they stand for.
use peercast_yt.Prelude.{
  true, ◌⊎◌, ◌↔◌, ℕ, zero, suc, ◌+◌, ◌<◌, ◌≡◌, ◌≢◌, inl, inr, refl, ◌∙◌, ap, ap₂, Bool, false, not,
  ◌&&◌, Option, some, List, [], ◌∷◌, ◌++◌, ◌==◌, if◌then◌else◌, arith, keep, length, Bool-cases,
  append_assoc,
}
use peercast_yt.Prelude.Words.{sub32}
use peercast_yt.Address.{is_set}
use peercast_yt.Hits.{
  Hit, Node, delete_hit, sweep, clear_dead_hits, del_hit, is_stale, has_ip, same_hosts, nobody,
}

-- No two nodes have the same address.
abbrev pub Fresh : ℕ → List Node → Type 0
Fresh a [] = Unit {0}
Fresh a (n ∷ ns) = (n.addr ≢ a) × Fresh a ns

abbrev pub Distinct : List Node → Type 0
Distinct [] = Unit {0}
Distinct (n ∷ ns) = Fresh n.addr ns × Distinct ns

abbrev pub survivors : (Hit → Bool) → List Node → List Node
survivors doomed = keep (λ n. not (doomed n.hit))

-- How many of the nodes that stay are counted.
abbrev pub counted_in : (Hit → Bool) → (Hit → Bool) → List Node → ℕ
counted_in doomed counted [] = 0
counted_in doomed counted (n ∷ ns) =
    (if not (doomed n.hit) then (if counted n.hit then 1 else 0) else 0)
    + counted_in doomed counted ns

Fresh-append : (a : ℕ) (xs ys : List Node) → Fresh a (xs ++ ys) → Fresh a ys
Fresh-append a [] ys h = h
Fresh-append a (x ∷ xs) ys h = Fresh-append a xs ys h.1

Fresh-middle : (a : ℕ) (n : Node) (xs ys : List Node) → Fresh a (xs ++ n ∷ ys) → n.addr ≢ a
Fresh-middle a n [] ys h = h.0
Fresh-middle a n (x ∷ xs) ys h = Fresh-middle a n xs ys h.1

-- Deleting the node under the cursor leaves the cursor at the node after it.
delete_hit-middle :
    (n : Node) (xs ys : List Node)
    → Distinct (xs ++ n ∷ ys)
    → delete_hit n.addr (xs ++ n ∷ ys) ≡ (xs ++ ys, ys)
unfolding delete_hit
delete_hit-middle n [] ys d = ground arith
delete_hit-middle n (x ∷ xs) ys d = rw (other, delete_hit-middle n xs ys d.1)
  where
    other : (x.addr == n.addr) ≡ false
    other = ground (arith, Fresh-middle x.addr n xs ys d.0)

Distinct-delete : (n : Node) (xs ys : List Node) → Distinct (xs ++ n ∷ ys) → Distinct (xs ++ ys)
Distinct-delete n [] ys d = d.1
Distinct-delete n (x ∷ xs) ys d = (skip xs d.0, Distinct-delete n xs ys d.1)
  where
    skip : (zs : List Node) → Fresh x.addr (zs ++ n ∷ ys) → Fresh x.addr (zs ++ ys)
    skip [] f = f.1
    skip (z ∷ zs) f = (f.0, skip zs f.1)

sweep-survivors :
    (doomed counted : Hit → Bool) (f : ℕ) (xs ys : List Node) (cnt : ℕ)
    → length ys < f
    → Distinct (xs ++ ys)
    → sweep doomed counted f (xs ++ ys) ys cnt
      ≡ some (xs ++ survivors doomed ys, cnt + counted_in doomed counted ys)
unfolding sweep
sweep-survivors doomed counted zero xs ys cnt h d = absurd (omega arith)
sweep-survivors doomed counted (suc f) xs [] cnt h d = ground arith
sweep-survivors doomed counted (suc f) xs (n ∷ ys) cnt h d = elim (Bool-cases (doomed n.hit)) [
  | inl gone ↦
      rw (gone, delete_hit-middle n xs ys d)
        (sweep-survivors doomed counted f xs ys cnt (omega arith) (Distinct-delete n xs ys d)
          ∙ tally (counted_in doomed counted ys) (omega arith))
  | inr stays ↦
      rw (stays, ← append_assoc xs (n ∷ []) ys)
        (sweep-survivors doomed counted f (xs ++ n ∷ []) ys _ (omega arith)
            (rw (append_assoc xs (n ∷ []) ys) d)
          ∙ ap₂ (λ (l : List Node) (c : ℕ). some (l, c))
              (append_assoc xs (n ∷ []) (survivors doomed ys)) (ground arith))
]
  where
    tally :
        (k : ℕ)
        → cnt + k ≡ cnt + (0 + k)
        → ◌≡◌ {A = Option (List Node × ℕ)}
            (some (xs ++ survivors doomed ys, cnt + k))
            (some (xs ++ survivors doomed ys, cnt + (0 + k)))
    tally k e = ap (λ (c : ℕ). some (xs ++ survivors doomed ys, c)) e

-- The loop over a whole list whose nodes have distinct addresses ends within its fuel, leaves the
-- nodes that are not doomed, in their order, and counts those of them that it counts.
pub sweep_all :
    (doomed counted : Hit → Bool) (l : List Node)
    → Distinct l
    → sweep doomed counted (length l + 1) l l 0
      ≡ some (survivors doomed l, counted_in doomed counted l)
sweep_all doomed counted l d =
    sweep-survivors doomed counted (length l + 1) [] l 0 (omega arith) d
    ∙ ap (λ (c : ℕ). some (survivors doomed l, c)) (omega arith)

-- The hits that are to go at time `now`: with an address, and dead, or last heard of more than
-- `timeout` seconds ago and no tracker, unless trackers go too.
abbrev pub IsGone : ℕ → ℕ → Bool → Hit → Type 0
IsGone now timeout clear_trackers c =
    (is_set c.host.ip ≡ true)
    × ((c.dead ≡ true)
        ⊎ ((timeout < sub32 now c.time) × ((clear_trackers ≡ true) ⊎ (c.tracker ≡ false))))

is_stale_iff :
    (now timeout : ℕ) (clear_trackers : Bool) (c : Hit)
    → (is_stale now timeout clear_trackers c ≡ true) ↔ IsGone now timeout clear_trackers c
is_stale_iff now timeout clear_trackers c = ground arith

-- `clearDeadHits` ends, and removes exactly the nodes with an address that are dead, or that were
-- last heard of more than `timeout` seconds ago and are no tracker, or may be one when
-- `clearTrackers` is set; the others stay in their order, and the result counts those of them that
-- have an address.
pub clear_dead_hits_lem :
    (now timeout : ℕ) (clear_trackers : Bool) (l : List Node)
    → Distinct l
    → (gone : Hit → Bool) × (((c : Hit) → (gone c ≡ true) ↔ IsGone now timeout clear_trackers c)
        × (clear_dead_hits now timeout clear_trackers l
            ≡ some (survivors gone l, counted_in gone has_ip l)))
unfolding clear_dead_hits
clear_dead_hits_lem now timeout clear_trackers l d = (
  is_stale now timeout clear_trackers,
  (
    is_stale_iff now timeout clear_trackers,
    sweep_all (is_stale now timeout clear_trackers) has_ip l d,
  ),
)

counted_in-nobody : (doomed : Hit → Bool) (l : List Node) → counted_in doomed nobody l ≡ 0
counted_in-nobody doomed [] = refl
counted_in-nobody doomed (n ∷ ns) = ground (arith, counted_in-nobody doomed ns)

pub del_hit_lem :
    (h : Hit) (l : List Node)
    → Distinct l
    → del_hit h l ≡ some (survivors (λ c. has_ip c && same_hosts h c) l, 0)
unfolding del_hit
del_hit_lem h l d =
    sweep_all (λ c. has_ip c && same_hosts h c) nobody l d
    ∙ ap (λ (c : ℕ). some (survivors (λ c'. has_ip c' && same_hosts h c') l, c))
        (counted_in-nobody (λ c. has_ip c && same_hosts h c) l)

pub Fresh-survivors :
    (doomed : Hit → Bool) (a : ℕ) (l : List Node) → Fresh a l → Fresh a (survivors doomed l)
Fresh-survivors doomed a [] f = tt
Fresh-survivors doomed a (n ∷ ns) f = elim (Bool-cases (doomed n.hit)) [
  | inl gone ↦ rw gone (Fresh-survivors doomed a ns f.1)
  | inr stays ↦ rw stays (f.0, Fresh-survivors doomed a ns f.1)
]

-- Deletion keeps the addresses distinct.
pub Distinct-survivors :
    (doomed : Hit → Bool) (l : List Node) → Distinct l → Distinct (survivors doomed l)
Distinct-survivors doomed [] d = tt
Distinct-survivors doomed (n ∷ ns) d = elim (Bool-cases (doomed n.hit)) [
  | inl gone ↦ rw gone (Distinct-survivors doomed ns d.1)
  | inr stays ↦ rw stays (Fresh-survivors doomed n.addr ns d.0, Distinct-survivors doomed ns d.1)
]
