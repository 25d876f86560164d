-- ===== src/Hits/Add.antt =====
-- `addHit` and the list it leaves.
use mathlib.Core.Option
use peercast_yt.Prelude.{
  ℕ, ◌+◌, ◌≡◌, ◌⊎◌, inl, inr, refl, subst, ap, true, false, Option, none, some, List, [], ◌∷◌, ◌++◌,
  if◌then◌else◌, All, length, Bool-cases,
}
use peercast_yt.GnuId
use peercast_yt.GnuId.{GnuId}
use peercast_yt.Hits.{
  Hit, Node, HitList, is_update, update_hit, same_session, insert_hit, push_hit, nobody, add_hit,
  sweep,
}
use peercast_yt.Hits.Sweep.{
  Fresh, Distinct, survivors, counted_in, sweep_all, Fresh-survivors, Distinct-survivors,
}

-- No node of the list is taken for the host of `h`.
abbrev pub NoUpdate : Hit → List Node → Type 0
NoUpdate h = All λ n. is_update h n.hit ≡ false

-- The first node that is taken for the host of `h` has it in its place, under its own address.
abbrev pub Updated : Hit → List Node → List Node → ℕ → Type 0
Updated h l l' a =
    (before : List Node) × (n : Node) × (after : List Node) × (l ≡ before ++ n ∷ after)
    × NoUpdate h before
    × (is_update h n.hit ≡ true)
    × (a ≡ n.addr)
    × (l' ≡ before ++ record n { hit = h } ∷ after)

abbrev UpdateResult : Hit → List Node → Option (List Node × ℕ) → Type 0
UpdateResult h l none = NoUpdate h l
UpdateResult h l (some (l', a)) = Updated h l l' a

update_hit-cons :
    (h : Hit) (n : Node) (ns : List Node) (r : Option (List Node × ℕ))
    → is_update h n.hit ≡ false
    → UpdateResult h ns r
    → UpdateResult h (n ∷ ns) (Option.map (λ (q : List Node × ℕ). (n ∷ q.0, q.1)) r)
update_hit-cons h n ns none other u = (other, u)
update_hit-cons h n ns (some (l', a)) other (before, m, after, e, none_before, hit, e', e'') =
    (n ∷ before, m, after, ap (λ r. n ∷ r) e, (other, none_before), hit, e', ap (λ r. n ∷ r) e'')

update_hit-UpdateResult : (h : Hit) (l : List Node) → UpdateResult h l (update_hit h l)
unfolding update_hit
update_hit-UpdateResult h [] = tt
update_hit-UpdateResult h (n ∷ ns) = elim (Bool-cases (is_update h n.hit)) [
  | inl hit ↦ rw hit ([], n, ns, refl, tt, hit, refl, refl)
  | inr other ↦ rw other (update_hit-cons h n ns _ other (update_hit-UpdateResult h ns))
]

abbrev pub cleaned : Hit → List Node → List Node
cleaned h l = if GnuId.is_set h.session_id then survivors (same_session h) l else l

-- What `addHit` does for a hit `h` that is not our own: the list before, the list after, and the
-- address of the node that it returns.
abbrev pub Added : ℕ → HitList → Hit → HitList → ℕ → Type 0
Added fresh l h l' a =
    (l'.info_id ≡ l.info_id)
    × (l'.last_hit_time ≡ h.time)
    × (Updated h l.hits l'.hits a
        ⊎ (NoUpdate h l.hits
            × (a ≡ fresh)
            × (l'.hits
                ≡ record { addr = fresh; hit = record h { chan_id = l.info_id } }
                  ∷ cleaned h l.hits)))

swept :
    (h : Hit) (l : List Node)
    → Distinct l
    → (c : ℕ) × ((if GnuId.is_set h.session_id
          then sweep (same_session h) nobody (length l + 1) l l 0
          else some (l, 0))
        ≡ some (cleaned h l, c))
swept h l d = elim (Bool-cases (GnuId.is_set h.session_id)) [
  | inl known ↦
      (counted_in (same_session h) nobody l, rw known (sweep_all (same_session h) nobody l d))
  | inr unknown ↦ (0, rw unknown)
]

insert_hit-Added :
    (fresh : ℕ) (l : HitList) (h : Hit) (r : Option (List Node × ℕ))
    → Distinct l.hits
    → l.last_hit_time ≡ h.time
    → UpdateResult h l.hits r
    → (l' : HitList) × (a : ℕ) × (insert_hit fresh l h r ≡ some (l', a)) × Added fresh l h l' a
insert_hit-Added fresh l h (some (ns, a)) d t u =
    (record l { hits = ns }, a, refl, (refl, t, inl u))
insert_hit-Added fresh l h none d t u =
    let s = swept h l.hits d in
    (
      record l {
        hits = record { addr = fresh; hit = record h { chan_id = l.info_id } } ∷ cleaned h l.hits;
      },
      fresh,
      ap (push_hit fresh l h) s.1,
      (refl, t, inr (u, refl, refl)),
    )

-- `addHit(h)` of a hit with another session than our own ends, and stamps the hit with the time.
-- The first live node with the same two remote hosts (or with the same first one and no second) is
-- overwritten in its place; where there is none, the nodes with an address and the same session, if
-- the hit has one, are removed, and the hit goes to the front as a new node, with the channel of the
-- list.
pub add_hit-Added :
    (session : GnuId) (now fresh : ℕ) (l : HitList) (h : Hit)
    → Distinct l.hits
    → GnuId.is_same session h.session_id ≡ false
    → (l' : HitList) × (a : ℕ) × (add_hit session now fresh l h ≡ some (l', some a))
      × Added fresh l (record h { time = now }) l' a
unfolding add_hit
add_hit-Added session now fresh l h d other =
    let stamped = record h { time = now } in
    let r =
      insert_hit-Added fresh (record l { last_hit_time = now }) stamped (update_hit stamped l.hits)
        d refl (update_hit-UpdateResult stamped l.hits) in
    (r.0, r.1, rw other (ap (Option.map (λ (q : HitList × ℕ). (q.0, some q.1))) r.2), r.3)

Fresh-update :
    (b : ℕ) (before : List Node) (n : Node) (h : Hit) (after : List Node)
    → Fresh b (before ++ n ∷ after)
    → Fresh b (before ++ record n { hit = h } ∷ after)
Fresh-update b [] n h after f = f
Fresh-update b (x ∷ before) n h after f = (f.0, Fresh-update b before n h after f.1)

Distinct-update :
    (before : List Node) (n : Node) (h : Hit) (after : List Node)
    → Distinct (before ++ n ∷ after)
    → Distinct (before ++ record n { hit = h } ∷ after)
Distinct-update [] n h after d = d
Distinct-update (x ∷ before) n h after d =
    (Fresh-update x.addr before n h after d.0, Distinct-update before n h after d.1)

cleaned-Distinct :
    (fresh : ℕ) (h : Hit) (l : List Node)
    → Distinct l
    → Fresh fresh l
    → Fresh fresh (cleaned h l) × Distinct (cleaned h l)
cleaned-Distinct fresh h l d f = elim (Bool-cases (GnuId.is_set h.session_id)) [
  | inl known ↦
      rw known (Fresh-survivors (same_session h) fresh l f, Distinct-survivors (same_session h) l d)
  | inr unknown ↦ rw unknown (f, d)
]

Added-Distinct :
    (fresh : ℕ) (l : HitList) (h : Hit) (l' : HitList) (a : ℕ)
    → Distinct l.hits
    → Fresh fresh l.hits
    → Added fresh l h l' a
    → Distinct l'.hits
Added-Distinct fresh l h l' a d f (_, _, inl (before, n, after, e, _, _, _, e')) =
    rw e' (Distinct-update before n h after (subst Distinct e d))
Added-Distinct fresh l h l' a d f (_, _, inr (_, _, e)) =
    let c = cleaned-Distinct fresh h l.hits d f in rw e (c.0, c.1)

-- `addHit` of a hit with another session than our own ends, and keeps the addresses of the nodes
-- distinct, if the new node gets one that is not in use.
pub add_hit-Distinct :
    (session : GnuId) (now fresh : ℕ) (l : HitList) (h : Hit)
    → Distinct l.hits
    → Fresh fresh l.hits
    → GnuId.is_same session h.session_id ≡ false
    → (l' : HitList) × (a : ℕ) × (add_hit session now fresh l h ≡ some (l', some a))
      × Distinct l'.hits
add_hit-Distinct session now fresh l h d f other =
    let (l', a, e, added) = add_hit-Added session now fresh l h d other in
    (l', a, e, Added-Distinct fresh l (record h { time = now }) l' a d f added)
