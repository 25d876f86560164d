-- ===== src/Pcp/Dispatch/Tests.antt =====
-- A broadcast with a hit, that two peers read.
use peercast_yt.Prelude.{
  ◌-◌, ◌≤◌, ◌<◌, ◌≡◌, ◌≢◌, ◌⊎◌, inl, inr, refl, sym, ◌∙◌, false, not, ◌&&◌, if◌then◌else◌, none,
  some, List, [], ◌∷◌, ◌++◌, arith, replicate, All, IsByte, ℕ,
}
use peercast_yt.Io.{ok}
use peercast_yt.Address.{Host}
use peercast_yt.GnuId.{GnuId, cleared}
use peercast_yt.Hits.{Hit, new_hit}
use peercast_yt.Pcp.Host.Whole.{Fits, received}
use peercast_yt.Pcp.Host.{Listing, has_list}
use peercast_yt.Pcp.Host.Lists.{Taken}
use peercast_yt.Pcp.Broadcast.{BroadcastState, Outcome, Target, targets, is_positive}
use peercast_yt.Pcp.Broadcast.Sent.{Decided, is_loop, last_ttl, ttl_left}
use peercast_yt.Pcp.Broadcast.Fields.{Field, ttl, hops, from, group}
use peercast_yt.Pcp.Dispatch.{with_lists, World, read_broadcast}
use peercast_yt.Pcp.Dispatch.Settings.{set_by}
use peercast_yt.Pcp.Dispatch.Carried.{
  carrying, CanCarry, Carried, read_broadcast-carrying, read_broadcast-Taken,
}
use peercast_yt.Pcp.Dispatch.Journey.{Hop, stop, hop, Journey-bound}

abbrev an_id : GnuId
an_id = record { id = replicate 16 7; store_time = 0 }

abbrev a_host : Host
a_host = record { ip = replicate 16 5; port = 7144 }

abbrev a_hit : Hit
a_hit = record new_hit {
  rhost0 = a_host;
  rhost1 = a_host;
  uphost = a_host;
  session_id = an_id;
  num_listeners = 3;
  version_ex_number = 29;
}

bytes : All IsByte (replicate 16 5)
bytes = (
  omega arith,
  (
    omega arith,
    (
      omega arith,
      (
        omega arith,
        (
          omega arith,
          (
            omega arith,
            (
              omega arith,
              (
                omega arith,
                (
                  omega arith,
                  (
                    omega arith,
                    (
                      omega arith,
                      (omega arith, (omega arith, (omega arith, (omega arith, (omega arith, tt))))),
                    ),
                  ),
                ),
              ),
            ),
          ),
        ),
      ),
    ),
  ),
)

a_hit-Fits : Fits a_hit an_id
a_hit-Fits = record {
  session = refl;
  channel = refl;
  ip0 = (refl, bytes);
  ip1 = (refl, bytes);
  uphost_ip = (refl, bytes);
  prefix = refl;
  port0 = omega arith;
  port1 = omega arith;
  ex_number = omega arith;
  listeners = omega arith;
  relays = omega arith;
  up_time = omega arith;
  version = omega arith;
  version_vp = omega arith;
  oldest = omega arith;
  newest = omega arith;
  uphost_port = omega arith;
  uphost_hops = omega arith;
}

abbrev peer : ℕ → GnuId
peer n = record { id = replicate 16 n; store_time = 0 }

abbrev sent : List Field
sent = group 4 ∷ hops 0 ∷ ttl 7 ∷ from (replicate 16 1) ∷ []

abbrev idle : BroadcastState
idle = record {
  chan_id = cleared;
  bc_id = cleared;
  num_hops = 0;
  for_me = false;
  stream_pos = 0;
  group = 0;
}

abbrev nobody : World
nobody = some (record { lists = []; fresh = 1 })

sent-CanCarry : CanCarry sent a_hit an_id
unfolding peercast_yt.Hits.Atoms.write_hit peercast_yt.Hits.Atoms.first_atoms
    peercast_yt.Address.is_ipv4_mapped peercast_yt.Hits.Atoms.last_atoms peercast_yt.Address.is_any
    peercast_yt.Hits.Atoms.uphost_atoms
sent-CanCarry = record {
  settings = (tt, (tt, (tt, (tt, tt))));
  fields = (omega arith, (omega arith, (omega arith, (refl, tt))));
  hit = a_hit-Fits;
  room = omega arith;
}

abbrev taken_as : Hit
taken_as = received a_hit an_id cleared 1

read_broadcast-Taken_example :
    (o : Outcome World) × (read_broadcast
        (peer 2)
        9
        20
        idle
        []
        nobody
        (carrying sent a_hit an_id ++ 3 ∷ [])
      ≡ (ok o, 3 ∷ []))
    × Carried (peer 2) 9 sent a_hit an_id (set_by (peer 2) 9 sent 5 idle [] nobody) nobody o
    × ((ls : List Listing) × ((o.loop).world
          ≡ some (with_lists (record { lists = []; fresh = 1 }) ls))
        × Taken 9 1 taken_as [] taken_as.recv (has_list taken_as.chan_id []) ls)
unfolding peercast_yt.Pcp.Broadcast.init_packet_settings
read_broadcast-Taken_example =
    read_broadcast-Taken (peer 2) 9 20 sent a_hit an_id idle [] (record { lists = []; fresh = 1 })
      (3 ∷ []) sent-CanCarry (omega arith) tt refl

-- The second peer sends it on.
not_looped : is_loop (peer 2) sent ≡ false
not_looped = refl

goes_out :
    (b : BroadcastState)
    → b.group ≡ 4
    → b.for_me ≡ false
    → (if is_positive (ttl_left (last_ttl sent none)) && not b.for_me then targets b.group else [])
      ≡ Target.up ∷ Target.cout ∷ Target.cin ∷ Target.relay ∷ []
unfolding targets
goes_out b g f = rw (g, f) refl

sent_on :
    (b : BroadcastState) (o : Outcome World)
    → b.group ≡ 4
    → b.for_me ≡ false
    → Decided (peer 2) sent b o
    → o.sent ≢ []
sent_on b o g f (inl d) e = (let l = sym d.0 ∙ not_looped in cc)
sent_on b o g f (inr d) e = (let l = sym (goes_out b g f) ∙ sym d.2 ∙ e in cc)

first-Hop : Hop (carrying sent a_hit an_id)
unfolding peercast_yt.Pcp.Broadcast.init_packet_settings
first-Hop =
    let (o, reads, k) =
      read_broadcast-carrying (peer 2) 9 20 sent a_hit an_id idle [] nobody (3 ∷ []) sent-CanCarry
        (omega arith) in
    record {
      session = peer 2;
      now = 9;
      fuel = 20;
      enough = omega arith;
      bcs = idle;
      routes = [];
      world = nobody;
      after = 3 ∷ [];
      result = o;
      reads = reads;
      sends = sent_on (set_by (peer 2) 9 sent 5 idle [] nobody).bcs o refl refl k.decided;
    }

Journey-bound_example : (1 ≤ 7 - 1) × ((◌≡◌ {A = ℕ} 1 0) ⊎ ((2 ≤ 7) × (7 < 128)))
Journey-bound_example = Journey-bound sent a_hit an_id 7 1 sent-CanCarry refl (hop first-Hop stop)
