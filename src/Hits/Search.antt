-- ===== src/Hits/Search.antt =====
-- `ChanHitSearch` and `ChanHitList::pickHits` of core/common/chanhit.h and chanhit.cpp.
use peercast_yt.Prelude.{
  ℕ, Bool, true, false, ◌&&◌, ◌||◌, not, Option, none, some, List, [], ◌∷◌, ◌++◌, ltb, leb, ◌==◌,
  if◌then◌else◌, length,
}
use peercast_yt.Prelude.Words.{sub32}
use peercast_yt.Address.{Host, ip_eq, is_set, is_valid, no_host}
use peercast_yt.GnuId
use peercast_yt.GnuId.{GnuId, cleared}
use peercast_yt.Hits.{Hit, new_hit, same_bool, Node, is_live}

-- `ChanHitSearch`: `results` are `best[0]` to `best[numResults - 1]`.
pub record Search : Type 0 where
  pub match_host : Host
  pub wait_delay : ℕ
  pub use_firewalled : Bool
  pub trackers_only : Bool
  pub use_busy_relays : Bool
  pub use_busy_controls : Bool
  pub exclude_id : GnuId
  pub results : List Hit

abbrev pub max_results : ℕ
max_results = 8

-- `ChanHitSearch::init()`
abbrev pub new_search : Search
new_search = record {
  match_host = no_host;
  wait_delay = 0;
  use_firewalled = false;
  trackers_only = false;
  use_busy_relays = true;
  use_busy_controls = true;
  exclude_id = cleared;
  results = [];
}

-- The best hit so far, and the address of its node.
abbrev pub Best : Type 0
Best = Hit × Option ℕ

abbrev pub take_lan : Node → Best
take_lan n = (record (n.hit) { host = (n.hit).rhost1 }, some n.addr)

abbrev pub take_wan : Node → Best
take_wan n = (record (n.hit) { host = (n.hit).rhost0 }, some n.addr)

-- The innermost tests of `pickHits`, the same for trackers and for others.
abbrev pub pick_address : Search → Node → Best → Best
pick_address s n best =
    if is_set s.match_host.ip
    then (if ip_eq (n.hit).rhost0.ip s.match_host.ip && is_valid (n.hit).rhost1
        then take_lan n
        else best)
    else (if same_bool (n.hit).firewalled s.use_firewalled then take_wan n else best)

abbrev pub pick_one : ℕ → Search → Node → Best → Best
pick_one now s n best =
    let c = n.hit in
    if not (is_live c)
    then best
    else (if GnuId.is_same s.exclude_id c.session_id
        then best
        else (if not (s.wait_delay == 0 || leb s.wait_delay (sub32 now c.last_contact))
            then best
            else (if not (ltb c.num_hops (best.0).num_hops)
                then best
                else (if not (c.relay || (not c.relay && s.use_busy_relays))
                    then best
                    else (if not (c.cin || (not c.cin && s.use_busy_controls))
                        then best
                        else (if s.trackers_only && c.tracker
                            then pick_address s n best
                            else (if not s.trackers_only && not c.tracker
                                then pick_address s n best
                                else best)))))))

-- The loop of `pickHits`.
unfoldable pub pick_loop : ℕ → Search → List Node → Best → Best
pick_loop now s [] best = best
pick_loop now s (n ∷ ns) best = pick_loop now s ns (pick_one now s n best)

abbrev pub no_best : Best
no_best = (record new_hit { num_hops = 255; time = 0 }, none)

-- `bestP->lastContact = ctime`
unfoldable pub touch : ℕ → ℕ → List Node → List Node
touch a now [] = []
touch a now (n ∷ ns) =
    if n.addr == a
    then record n { hit = record (n.hit) { last_contact = now } } ∷ ns
    else n ∷ touch a now ns

abbrev pub pick_result : ℕ → Search → List Node → Best → List Node × Search × ℕ
pick_result now s l (best, none) = (l, s, 0)
pick_result now s l (best, some a) =
    if ltb (length s.results) max_results
    then (
      if s.wait_delay == 0 then l else touch a now l,
      record s { results = s.results ++ best ∷ [] },
      1,
    )
    else (l, s, 0)

-- `pickHits(chs)` at time `now`.
unfoldable pub pick_hits : ℕ → Search → List Node → List Node × Search × ℕ
unfolding pick_loop touch
pick_hits now s l = pick_result now s l (pick_loop now s l no_best)
