-- ===== src/Pcp/Host/Lists.antt =====
-- A hit that arrives, and the lists of the channel manager.
use peercast_yt.Prelude.{
  ℕ, ◌≡◌, refl, sym, ap, ◌∙◌, inl, inr, Bool, true, false, Option, some, List, [], ◌∷◌, ◌++◌,
  if◌then◌else◌, All, Bool-cases, ◌&&◌, if-elim, bytes_eq_refl,
}
use peercast_yt.GnuId
use peercast_yt.GnuId.{GnuId}
use peercast_yt.Hits.{Hit, HitList, add_hit, del_hit, has_ip, same_hosts}
use peercast_yt.Hits.Sweep.{Distinct, survivors, del_hit_lem}
use peercast_yt.Hits.Add.{Added, add_hit-Added}
use peercast_yt.Pcp.Host.{
  Listing, is_list, has_list, on_list, add_hit_list, added_list, deleted_list, mgr_add_hit,
  mgr_del_hit, take_hit,
}

-- The first list of the channel is changed by the call, and no other list is.
pub record Changed (R : HitList → HitList → Type 0) (id : GnuId) (ls ls' : List Listing)
    : Type 0 where
  pub before : List Listing
  pub found : Listing
  pub list : HitList
  pub after : List Listing
  pub there : ls ≡ before ++ found ∷ after
  pub none_before : All (λ x. is_list id x ≡ false) before
  pub right : is_list id found ≡ true
  pub result : ls' ≡ before ++ record found { list = list } ∷ after
  pub change : R found.list list

-- A call that ends on each list, with what it does.
abbrev Ends : (R : HitList → HitList → Type 0) → (HitList → Option HitList) → List Listing → Type 0
Ends R call = All (λ l. (hl : HitList) × (call l.list ≡ some hl) × R l.list hl)

later :
    (id : GnuId) (l : Listing) (ls : List Listing)
    → is_list id l ≡ false
    → has_list id (l ∷ ls) ≡ has_list id ls
later id l ls e = rw e refl

first :
    (id : GnuId) (l : Listing) (ls : List Listing)
    → is_list id l ≡ true
    → has_list id (l ∷ ls) ≡ true
first id l ls e = rw e refl

on_list-here :
    (call : HitList → Option HitList) (id : GnuId) (l : Listing) (ls : List Listing) (hl : HitList)
    → is_list id l ≡ true
    → call l.list ≡ some hl
    → on_list call id (l ∷ ls) ≡ some (record l { list = hl } ∷ ls)
unfolding on_list
on_list-here call id l ls hl e c = rw (e, c, on_list) refl

on_list-there :
    (call : HitList → Option HitList) (id : GnuId) (l : Listing) (ls ls' : List Listing)
    → is_list id l ≡ false
    → on_list call id ls ≡ some ls'
    → on_list call id (l ∷ ls) ≡ some (l ∷ ls')
unfolding on_list
on_list-there call id l ls ls' e c = rw (e, c, on_list) refl

on_list_lem :
    (R : HitList → HitList → Type 0) (call : HitList → Option HitList) (id : GnuId)
    (ls : List Listing)
    → Ends R call ls
    → has_list id ls ≡ true
    → (ls' : List Listing) × (on_list call id ls ≡ some ls') × Changed R id ls ls'
on_list_lem R call id [] e h = cc
on_list_lem R call id (l ∷ ls) e h = elim (Bool-cases (is_list id l)) [
  | inl here ↦ (
    record l { list = e.0.0 } ∷ ls,
    on_list-here call id l ls (e.0.0) here (e.0.1),
    record {
      before = [];
      found = l;
      list = e.0.0;
      after = ls;
      there = refl;
      none_before = tt;
      right = here;
      result = refl;
      change = e.0.2;
    },
  )
  | inr other ↦
      let (ls', more, c) = on_list_lem R call id ls e.1 (sym (later id l ls other) ∙ h) in
      (
        l ∷ ls',
        on_list-there call id l ls ls' other more,
        record {
          before = l ∷ c.before;
          found = c.found;
          list = c.list;
          after = c.after;
          there = ap (λ r. l ∷ r) c.there;
          none_before = (other, c.none_before);
          right = c.right;
          result = ap (λ r. l ∷ r) c.result;
          change = c.change;
        },
      )
]

no_list :
    (call : HitList → Option HitList) (id : GnuId) (ls : List Listing)
    → has_list id ls ≡ false
    → on_list call id ls ≡ some ls
unfolding on_list
no_list call id [] h = refl
no_list call id (l ∷ ls) h = elim (Bool-cases (is_list id l)) [
  | inl here ↦ let both = sym (first id l ls here) ∙ h in cc
  | inr other ↦
      on_list-there call id l ls ls other (no_list call id ls (sym (later id l ls other) ∙ h))
]

-- `addHit` and `delHit` of one list, as calls that end.
abbrev pub Adds : ℕ → Hit → HitList → HitList → Type 0
Adds fresh h l hl = (a : ℕ) × Added fresh l h hl a

abbrev pub Deletes : Hit → HitList → HitList → Type 0
Deletes h l hl = hl ≡ record l { hits = survivors (λ c. has_ip c && same_hosts h c) l.hits }

abbrev pub AllDistinct : List Listing → Type 0
AllDistinct = All (λ l. Distinct (l.list).hits)

add-Ends :
    (session : GnuId) (now fresh : ℕ) (h : Hit) (ls : List Listing)
    → AllDistinct ls
    → GnuId.is_same session h.session_id ≡ false
    → Ends
        (Adds fresh (record h { time = now }))
        (λ l. added_list (add_hit session now fresh l h))
        ls
add-Ends session now fresh h [] d other = tt
add-Ends session now fresh h (l ∷ ls) d other =
    let (hl, a, e, added) = add_hit-Added session now fresh l.list h d.0 other in
    ((hl, ap added_list e, (a, added)), add-Ends session now fresh h ls d.1 other)

delete-Ends :
    (h : Hit) (ls : List Listing)
    → AllDistinct ls
    → Ends (Deletes h) (λ l. deleted_list l (del_hit h l.hits)) ls
delete-Ends h [] d = tt
delete-Ends h (l ∷ ls) d = (
  (
    record (l.list) { hits = survivors (λ c. has_ip c && same_hosts h c) (l.list).hits },
    ap (deleted_list l.list) (del_hit_lem h (l.list).hits d.0),
    refl,
  ),
  delete-Ends h ls d.1,
)

-- The lists among which the one of the channel is, a new one if there was none.
abbrev pub with_list : GnuId → List Listing → List Listing
with_list id ls = if has_list id ls then ls else add_hit_list id ls

with_list-has : (id : GnuId) (ls : List Listing) → has_list id (with_list id ls) ≡ true
with_list-has id ls = elim (Bool-cases (has_list id ls)) [
  | inl e ↦ rw e e
  | inr e ↦ rw e (rw (bytes_eq_refl id.id) refl)
]

with_list-AllDistinct :
    (id : GnuId) (ls : List Listing) → AllDistinct ls → AllDistinct (with_list id ls)
with_list-AllDistinct id ls d = if-elim AllDistinct (has_list id ls) _ _ (λ e. d) (λ e. (tt, d))

-- What a hit that arrives makes of the lists `ls`, for its `recv` and for whether its channel has a list.
abbrev pub Taken : ℕ → ℕ → Hit → List Listing → Bool → Bool → List Listing → Type 0
Taken now fresh h ls true had ls' =
    Changed (Adds fresh (record h { time = now })) h.chan_id (with_list h.chan_id ls) ls'
Taken now fresh h ls false true ls' = Changed (Deletes h) h.chan_id ls ls'
Taken now fresh h ls false false ls' = ls' ≡ ls

take_hit-Taken :
    (session : GnuId) (now fresh : ℕ) (h : Hit) (ls : List Listing) (recv had : Bool)
    → AllDistinct ls
    → GnuId.is_same session h.session_id ≡ false
    → has_list h.chan_id ls ≡ had
    → (ls' : List Listing) × ((if recv
          then mgr_add_hit session now fresh h ls
          else mgr_del_hit h ls)
        ≡ some ls')
      × Taken now fresh h ls recv had ls'
unfolding mgr_add_hit mgr_del_hit
take_hit-Taken session now fresh h ls true had d other k =
    on_list_lem (Adds fresh (record h { time = now }))
      (λ l. added_list (add_hit session now fresh l h)) h.chan_id (with_list h.chan_id ls)
      (add-Ends session now fresh h (with_list h.chan_id ls) (with_list-AllDistinct h.chan_id ls d)
        other)
      (with_list-has h.chan_id ls)
take_hit-Taken session now fresh h ls false true d other k =
    on_list_lem (Deletes h) (λ l. deleted_list l (del_hit h l.hits)) h.chan_id ls
      (delete-Ends h ls d) k
take_hit-Taken session now fresh h ls false false d other k =
    (ls, no_list (λ l. deleted_list l (del_hit h l.hits)) h.chan_id ls k, refl)

-- What a hit that arrives does to the lists, whose nodes are distinct, if it is not of this peer's own
-- session. If it receives, it is added to the first list of its channel, which is made, in front, if
-- there is none; if it does not, it is deleted from that list, and without one nothing is done. Every
-- other list stays as it is.
pub take_hit_lem :
    (session : GnuId) (now fresh : ℕ) (h : Hit) (ls : List Listing)
    → AllDistinct ls
    → GnuId.is_same session h.session_id ≡ false
    → (ls' : List Listing) × (take_hit session now fresh h ls ≡ some ls')
      × Taken now fresh h ls h.recv (has_list h.chan_id ls) ls'
unfolding take_hit
take_hit_lem session now fresh h ls d other =
    take_hit-Taken session now fresh h ls h.recv (has_list h.chan_id ls) d other refl
