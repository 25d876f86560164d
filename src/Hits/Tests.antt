-- ===== src/Hits/Tests.antt =====
-- Hit lists on concrete hosts.
use peercast_yt.Prelude.{◌↔◌, Bool, ℕ, ◌≡◌, refl, true, some, arith, List, [], ◌∷◌, replicate}
use peercast_yt.Address.{Host, of_ipv4, no_host}
use peercast_yt.GnuId.{GnuId, cleared}
use peercast_yt.Hits.{Hit, new_hit, Node, HitList, clear_dead_hits, has_ip, add_hit}
use peercast_yt.Hits.Atoms.Leaves.{IsSized}
use peercast_yt.Hits.Search.{Search, new_search, pick_hits}
use peercast_yt.Hits.Sweep.{IsGone, Distinct, survivors, counted_in, clear_dead_hits_lem}
use peercast_yt.Hits.Add.{Added, add_hit-Added}
use peercast_yt.Hits.Pick.{Searched, pick_hits-Searched}

abbrev host_of : ℕ → Host
host_of n = record { ip = of_ipv4 n; port = 7144 }

abbrev hit_of : ℕ → ℕ → Hit
hit_of n hops = record new_hit {
  host = host_of n;
  rhost0 = host_of n;
  num_hops = hops;
  num_listeners = 3;
  time = 100;
}

abbrev own : GnuId
own = record { id = replicate 16 9; store_time = 0 }

abbrev nodes : List Node
nodes =
    record { addr = 10; hit = hit_of 0x08080808 4 }
    ∷ record { addr = 11; hit = record (hit_of 0x01010101 2) { dead = true } }
    ∷ record { addr = 12; hit = hit_of 0x09090909 3 }
    ∷ []

abbrev list : HitList
list = record { info_id = cleared; hits = nodes; last_hit_time = 100 }

nodes-Distinct : Distinct nodes
nodes-Distinct = omega arith

abbrev search_others : Search
search_others = record new_search { exclude_id = own; wait_delay = 30 }

nearest : (pick_hits 200 search_others nodes).2 ≡ 1
unfolding pick_hits peercast_yt.Address.is_any of_ipv4 no_host
nearest = refl

clear_dead_hits_lem_example :
    (gone : Hit → Bool) × (((c : Hit) → (gone c ≡ true) ↔ IsGone 150 60 true c)
      × (clear_dead_hits 150 60 true nodes
          ≡ some (survivors gone nodes, counted_in gone has_ip nodes)))
clear_dead_hits_lem_example = clear_dead_hits_lem 150 60 true nodes nodes-Distinct

add_hit-Added_example :
    (l' : HitList) × (a : ℕ) × (add_hit own 170 13 list (hit_of 0x0a0b0c0d 1) ≡ some (l', some a))
    × Added 13 list (record (hit_of 0x0a0b0c0d 1) { time = 170 }) l' a
add_hit-Added_example = add_hit-Added own 170 13 list (hit_of 0x0a0b0c0d 1) nodes-Distinct refl

pick_hits-Searched_example : Searched 200 search_others nodes (pick_hits 200 search_others nodes)
pick_hits-Searched_example = pick_hits-Searched 200 search_others nodes

abbrev relayed : Hit
relayed = record (hit_of 0x08080808 4) {
  session_id = own;
  uphost = host_of 0x09090909;
  uphost_hops = 1;
  version_ex_number = 38;
}

relayed-IsSized : IsSized relayed own
unfolding of_ipv4 no_host
relayed-IsSized = record {
  session = refl;
  channel = refl;
  rhost0 = refl;
  rhost1 = refl;
  uphost = refl;
  prefix = refl;
}
