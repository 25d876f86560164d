-- ===== src/Hits/Pick.antt =====
-- `pickHits` and what a search asks for.
use peercast_yt.Prelude.{
  ℕ, ◌≤◌, ◌<◌, ◌≡◌, ◌⊎◌, inl, inr, refl, subst, ap, Bool, true, false, not, ◌&&◌, ◌||◌, some, List,
  [], ◌∷◌, ◌++◌, ltb, leb, ◌==◌, if◌then◌else◌, arith, All, length, Bool-cases, ltb→lt,
  ltb_false→le,
}
use peercast_yt.Prelude.Words.{sub32}
use peercast_yt.Address.{ip_eq, is_set, is_valid}
use peercast_yt.GnuId
use peercast_yt.Hits.{Hit, Node, is_live, same_bool}
use peercast_yt.Hits.Search.{
  Search, Best, take_lan, take_wan, pick_one, pick_loop, pick_result, pick_hits, no_best,
  max_results, touch,
}

-- The hosts that a search at time `now` allows: alive, not excluded, not contacted within the delay,
-- able to take a relay and a control connection unless busy ones will do, a tracker exactly if
-- trackers are wanted, and behind the wanted address with a valid LAN address, or, with no address
-- wanted, firewalled exactly as wanted.
abbrev pub is_allowed : ℕ → Search → Hit → Bool
is_allowed now s c =
    is_live c
    && (not (GnuId.is_same s.exclude_id c.session_id)
        && ((s.wait_delay == 0 || leb s.wait_delay (sub32 now c.last_contact))
            && ((c.relay || s.use_busy_relays)
                && ((c.cin || s.use_busy_controls)
                    && (same_bool s.trackers_only c.tracker
                        && (if is_set s.match_host.ip
                            then ip_eq c.rhost0.ip s.match_host.ip && is_valid c.rhost1
                            else same_bool c.firewalled s.use_firewalled))))))

-- The hit as it is handed out: under its LAN address if an address is wanted, else under its WAN one.
abbrev pub chosen : Search → Node → Best
chosen s n = if is_set s.match_host.ip then take_lan n else take_wan n

-- The ladder of tests of the loop over any answers to them.
pick_ladder :
    (live excluded waited near relay busy cin busy' only tracker wanted at_lan walls : Bool)
    (lan wan best : Best)
    → (if not live
        then best
        else (if excluded
            then best
            else (if not waited
                then best
                else (if not near
                    then best
                    else (if not (relay || (not relay && busy))
                        then best
                        else (if not (cin || (not cin && busy'))
                            then best
                            else (if only && tracker
                                then (if wanted
                                    then (if at_lan then lan else best)
                                    else (if walls then wan else best))
                                else (if not only && not tracker
                                    then (if wanted
                                        then (if at_lan then lan else best)
                                        else (if walls then wan else best))
                                    else best))))))))
      ≡ (if (live
              && (not excluded
                  && (waited
                      && ((relay || busy)
                          && ((cin || busy')
                              && (same_bool only tracker && (if wanted then at_lan else walls)))))))
            && near
          then (if wanted then lan else wan)
          else best)
pick_ladder false e w n r b c b' o t m a f lan wan best = refl
pick_ladder true true w n r b c b' o t m a f lan wan best = refl
pick_ladder true false false n r b c b' o t m a f lan wan best = refl
pick_ladder true false true n r b c b' o t m a f lan wan best = ground arith

pick_one_lem :
    (now : ℕ) (s : Search) (n : Node) (best : Best)
    → pick_one now s n best ≡ (
        if is_allowed now s n.hit && ltb (n.hit).num_hops (best.0).num_hops
        then chosen s n
        else best)
pick_one_lem now s n best =
    pick_ladder (is_live n.hit) (GnuId.is_same s.exclude_id (n.hit).session_id)
      (s.wait_delay == 0 || leb s.wait_delay (sub32 now (n.hit).last_contact))
      (ltb (n.hit).num_hops (best.0).num_hops) (n.hit).relay s.use_busy_relays (n.hit).cin
      s.use_busy_controls s.trackers_only (n.hit).tracker (is_set s.match_host.ip)
      (ip_eq (n.hit).rhost0.ip s.match_host.ip && is_valid (n.hit).rhost1)
      (same_bool (n.hit).firewalled s.use_firewalled) (take_lan n) (take_wan n) best

hops-chosen : (s : Search) (n : Node) → ((chosen s n).0).num_hops ≡ (n.hit).num_hops
hops-chosen s n = ground arith

-- Every allowed node of the list is farther than `hops`, or at least as far.
abbrev pub AllFarther : ℕ → Search → ℕ → List Node → Type 0
AllFarther now s hops = All λ m. is_allowed now s m.hit ≡ true → hops < (m.hit).num_hops

abbrev pub NoneNearer : ℕ → Search → ℕ → List Node → Type 0
NoneNearer now s hops = All λ m. is_allowed now s m.hit ≡ true → hops ≤ (m.hit).num_hops

-- `n` is the first of the nearest allowed nodes of the list.
abbrev pub IsNearest : ℕ → Search → List Node → Node → Type 0
IsNearest now s l n =
    (before : List Node) × (after : List Node) × (l ≡ before ++ n ∷ after)
    × (is_allowed now s n.hit ≡ true)
    × AllFarther now s (n.hit).num_hops before
    × NoneNearer now s (n.hit).num_hops after

abbrev Picked : ℕ → Search → List Node → Best → Best → Type 0
Picked now s l best r =
    ((r ≡ best) × NoneNearer now s (best.0).num_hops l)
    ⊎ ((n : Node) × IsNearest now s l n × ((n.hit).num_hops < (best.0).num_hops) × (r ≡ chosen s n))

Picked-take :
    (now : ℕ) (s : Search) (n : Node) (ns : List Node) (best r : Best)
    → is_allowed now s n.hit ≡ true
    → (n.hit).num_hops < (best.0).num_hops
    → Picked now s ns (chosen s n) r
    → Picked now s (n ∷ ns) best r
Picked-take now s n ns best r ok less (inl (e, far)) =
    inr
      (n, ([], ns, refl, ok, tt, subst (λ k. NoneNearer now s k ns) (hops-chosen s n) far), less, e)
Picked-take now s n ns best r ok less (inr (m, (before, after, e, ok', far, near), less', e')) =
    inr (
      m,
      (
        n ∷ before,
        after,
        ap (λ q. n ∷ q) e,
        ok',
        ((λ _. omega (arith, hops-chosen s n)), far),
        near,
      ),
      omega (arith, hops-chosen s n),
      e',
    )

not_less : (b : Bool) (x y : ℕ) → (b && ltb x y) ≡ false → b ≡ true → y ≤ x
not_less b x y h e = ground arith

both : (b : Bool) (x y : ℕ) → (b && ltb x y) ≡ true → (b ≡ true) × (x < y)
both b x y h = ground arith

Picked-skip :
    (now : ℕ) (s : Search) (n : Node) (ns : List Node) (best r : Best)
    → (is_allowed now s n.hit && ltb (n.hit).num_hops (best.0).num_hops) ≡ false
    → Picked now s ns best r
    → Picked now s (n ∷ ns) best r
Picked-skip now s n ns best r no_pick (inl (e, far)) =
    inl (e, ((λ ok. not_less _ _ _ no_pick ok), far))
Picked-skip now s n ns best r no_pick (inr (m, (before, after, e, ok', far, near), less, e')) =
    inr (
      m,
      (
        n ∷ before,
        after,
        ap (λ q. n ∷ q) e,
        ok',
        ((λ ok. omega (arith, not_less _ _ _ no_pick ok)), far),
        near,
      ),
      less,
      e',
    )

pick_loop-Picked :
    (now : ℕ) (s : Search) (l : List Node) (best : Best)
    → Picked now s l best (pick_loop now s l best)
unfolding pick_loop
pick_loop-Picked now s [] best = inl (refl, tt)
pick_loop-Picked now s (n ∷ ns) best =
    elim (Bool-cases (is_allowed now s n.hit && ltb (n.hit).num_hops (best.0).num_hops)) [
      | inl hit ↦
          let p = both _ _ _ hit in
          rw (pick_one_lem now s n best, hit)
            (Picked-take now s n ns best _ p.0 p.1 (pick_loop-Picked now s ns (chosen s n)))
      | inr miss ↦
          rw (pick_one_lem now s n best, miss)
            (Picked-skip now s n ns best _ miss (pick_loop-Picked now s ns best))
    ]

chosen_pair : (s : Search) (n : Node) → chosen s n ≡ ((chosen s n).0, some n.addr)
chosen_pair s n = ground arith

-- What a search comes to: the list, the search and the result after.
abbrev pub Searched : ℕ → Search → List Node → List Node × Search × ℕ → Type 0
Searched now s l (l', s', r) =
    ((r ≡ 0) × (l' ≡ l) × (s' ≡ s) × (NoneNearer now s 255 l ⊎ (max_results ≤ length s.results)))
    ⊎ ((n : Node) × (r ≡ 1)
        × IsNearest now s l n
        × ((n.hit).num_hops < 255)
        × (length s.results < max_results)
        × (s' ≡ record s { results = s.results ++ (chosen s n).0 ∷ [] })
        × (l' ≡ (if s.wait_delay == 0 then l else touch n.addr now l)))

pick_result-Searched :
    (now : ℕ) (s : Search) (l : List Node) (r : Best)
    → Picked now s l no_best r
    → Searched now s l (pick_result now s l r)
pick_result-Searched now s l r (inl (e, far)) = rw e (inl (refl, refl, refl, inl far))
pick_result-Searched now s l r (inr (n, near, less, e)) =
    rw (e, chosen_pair s n)
      (elim (Bool-cases (ltb (length s.results) max_results)) [
        | inl room ↦ rw room (inr (n, refl, near, less, ltb→lt _ _ room, refl, refl))
        | inr full ↦ rw full (inl (refl, refl, refl, inr (ltb_false→le _ _ full)))
      ])

-- `pickHits` answers 0 and changes nothing when no allowed host is nearer than 255 hops, or when the
-- search has its MAX_RESULTS results. Else it answers 1 and adds the first of the nearest allowed
-- hosts to the results, under the address asked for; and if the search has a delay, the first node at
-- the address of that host's node is marked as contacted now.
pub pick_hits-Searched :
    (now : ℕ) (s : Search) (l : List Node) → Searched now s l (pick_hits now s l)
unfolding pick_hits
pick_hits-Searched now s l =
    pick_result-Searched now s l (pick_loop now s l no_best) (pick_loop-Picked now s l no_best)
