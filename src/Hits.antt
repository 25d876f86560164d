-- ===== src/Hits.antt =====
-- `ChanHit`, `ChanHitList` and `ChanHitSearch` of core/common/chanhit.h and chanhit.cpp: the hosts that
-- a channel was heard of from, as a linked list (the search among them stands in Hits/Search.antt, the
-- totals in Hits/Totals.antt). A node of the list is its address and its contents; `next` is the order
-- of the list. The time, the address of a new node and `servMgr->sessionID` are arguments.
pub mod Totals
pub mod Search
pub mod Sweep
pub mod Add
pub mod Pick
pub mod Count
pub mod Atoms
mod Tests
use peercast_yt.Prelude.{
  ℕ, zero, suc, ◌+◌, ◌-◌, ◌%◌, Bool, true, false, ◌&&◌, ◌||◌, not, Option, none, some, List, [],
  ◌∷◌, ◌++◌, ltb, leb, ◌==◌, if◌then◌else◌, bit_or, length, bytes_eq,
}
use peercast_yt.Prelude.Words.{add32, sub32}
use peercast_yt.Address.{Host, ip_eq, is_set, is_same, is_valid, no_host, class_type}
use mathlib.Core.Option
use peercast_yt.GnuId
use peercast_yt.GnuId.{GnuId, cleared}

pub record Hit : Type 0 where
  pub host : Host
  pub rhost0 : Host
  pub rhost1 : Host
  pub num_listeners : ℕ
  pub num_relays : ℕ
  pub num_hops : ℕ
  pub time : ℕ
  pub up_time : ℕ
  pub last_contact : ℕ
  pub session_id : GnuId
  pub chan_id : GnuId
  pub version : ℕ
  pub oldest_pos : ℕ
  pub newest_pos : ℕ
  pub firewalled : Bool
  pub stable : Bool
  pub tracker : Bool
  pub recv : Bool
  pub yp : Bool
  pub dead : Bool
  pub direct : Bool
  pub relay : Bool
  pub cin : Bool
  pub uphost : Host
  pub uphost_hops : ℕ
  pub version_vp : ℕ
  pub version_ex_prefix : List ℕ
  pub version_ex_number : ℕ

-- `ChanHit::init()`
abbrev pub new_hit : Hit
new_hit = record {
  host = no_host;
  rhost0 = no_host;
  rhost1 = no_host;
  num_listeners = 0;
  num_relays = 0;
  num_hops = 0;
  time = 0;
  up_time = 0;
  last_contact = 0;
  session_id = cleared;
  chan_id = cleared;
  version = 0;
  oldest_pos = 0;
  newest_pos = 0;
  firewalled = false;
  stable = false;
  tracker = false;
  recv = true;
  yp = false;
  dead = false;
  direct = false;
  relay = true;
  cin = true;
  uphost = no_host;
  uphost_hops = 0;
  version_vp = 0;
  version_ex_prefix = 32 ∷ 32 ∷ [];
  version_ex_number = 0;
}

abbrev pub same_bool : Bool → Bool → Bool
same_bool a b = if a then b else not b

-- `pickNearestIP(h)`
unfoldable pub pick_nearest_ip : Hit → Host → Hit
pick_nearest_ip c h =
    if same_bool (class_type h) (class_type c.rhost0)
    then record c { host = c.rhost0 }
    else (if same_bool (class_type h) (class_type c.rhost1)
        then record c { host = c.rhost1 }
        else c)

pub data Color : Type 0 where
  red purple blue green : Color

-- `getColor()`
unfoldable pub get_color : Hit → Color
get_color c =
    if c.host.port == 0
    then red
    else (if not c.relay then (if c.num_relays == 0 then purple else blue) else green)

-- `flags1(hit)`: the flag bits of pcp.h.
unfoldable pub flags1 : Hit → ℕ
flags1 c =
    bit_or
      (bit_or
        (bit_or
          (bit_or (bit_or (if c.recv then 0x10 else 0) (if c.relay then 0x02 else 0))
            (if c.direct then 0x04 else 0))
          (if c.cin then 0x20 else 0))
        (if c.tracker then 0x01 else 0))
      (if c.firewalled then 0x08 else 0)

-- `canGiv()`: the prefix is not "ST".
unfoldable pub can_giv : Hit → Bool
can_giv c = not (bytes_eq c.version_ex_prefix (b'S' ∷ b'T' ∷ []))

pub record Node : Type 0 where
  pub addr : ℕ
  pub hit : Hit

-- `h->host.ip` as a condition.
abbrev pub has_ip : Hit → Bool
has_ip c = is_set c.host.ip

abbrev pub is_live : Hit → Bool
is_live c = has_ip c && not c.dead

-- `deleteHit(ch)`: the list without the node at that address, and the nodes after it.
unfoldable pub delete_hit : ℕ → List Node → List Node × List Node
delete_hit a [] = ([], [])
delete_hit a (n ∷ ns) =
    let rest = delete_hit a ns in if n.addr == a then (ns, ns) else (n ∷ rest.0, rest.1)

-- The loops that delete while they walk: the whole list, the cursor in it, and a count of the nodes
-- passed that `counted` holds of. `none` means that the fuel ran out.
unfoldable pub sweep :
    (Hit → Bool) → (Hit → Bool) → ℕ → List Node → List Node → ℕ → Option (List Node × ℕ)
sweep doomed counted zero l c cnt = none
sweep doomed counted (suc f) l [] cnt = some (l, cnt)
sweep doomed counted (suc f) l (n ∷ c) cnt =
    let next = delete_hit n.addr l in
    let deleted = sweep doomed counted f next.0 next.1 cnt in
    let kept = sweep doomed counted f l c (if counted n.hit then cnt + 1 else cnt) in
    if doomed n.hit then deleted else kept

abbrev pub nobody : Hit → Bool
nobody c = false

-- The condition under which `clearDeadHits` deletes.
abbrev pub is_stale : ℕ → ℕ → Bool → Hit → Bool
is_stale now timeout clear_trackers c =
    has_ip c && (c.dead || (ltb timeout (sub32 now c.time) && (clear_trackers || not c.tracker)))

-- `clearDeadHits(timeout, clearTrackers)` at time `now`.
unfoldable pub clear_dead_hits : ℕ → ℕ → Bool → List Node → Option (List Node × ℕ)
unfolding sweep
clear_dead_hits now timeout clear_trackers l =
    sweep (is_stale now timeout clear_trackers) has_ip (length l + 1) l l 0

abbrev pub same_hosts : Hit → Hit → Bool
same_hosts h c = is_same c.rhost0 h.rhost0 && is_same c.rhost1 h.rhost1

-- `delHit(h)`
unfoldable pub del_hit : Hit → List Node → Option (List Node × ℕ)
unfolding sweep
del_hit h l = sweep (λ c. has_ip c && same_hosts h c) nobody (length l + 1) l l 0

-- `deadHit(h)`
unfoldable pub dead_hit : Hit → List Node → List Node
dead_hit h [] = []
dead_hit h (n ∷ ns) =
    (if has_ip n.hit && same_hosts h n.hit
      then record n { hit = record (n.hit) { dead = true } }
      else n)
    ∷ dead_hit h ns

pub record HitList : Type 0 where
  pub info_id : GnuId
  pub hits : List Node
  pub last_hit_time : ℕ

-- The condition under which `addHit` takes a node for the same host.
abbrev pub is_update : Hit → Hit → Bool
is_update h c =
    (ip_eq c.rhost0.ip h.rhost0.ip && c.rhost0.port == h.rhost0.port)
    && (((ip_eq c.rhost1.ip h.rhost1.ip && c.rhost1.port == h.rhost1.port)
          || not (is_valid c.rhost1))
        && not c.dead)

-- The first loop of `addHit`: the list with the node updated, and its address, if there is one.
unfoldable pub update_hit : Hit → List Node → Option (List Node × ℕ)
update_hit h [] = none
update_hit h (n ∷ ns) =
    if is_update h n.hit
    then some (record n { hit = h } ∷ ns, n.addr)
    else Option.map (λ (r : List Node × ℕ). (n ∷ r.0, r.1)) (update_hit h ns)

abbrev pub same_session : Hit → Hit → Bool
same_session h c = has_ip c && GnuId.is_same c.session_id h.session_id

abbrev pub push_hit : ℕ → HitList → Hit → Option (List Node × ℕ) → Option (HitList × ℕ)
push_hit fresh l h none = none
push_hit fresh l h (some (ns, cnt)) = some (
  record l { hits = record { addr = fresh; hit = record h { chan_id = l.info_id } } ∷ ns },
  fresh,
)

abbrev pub insert_hit : ℕ → HitList → Hit → Option (List Node × ℕ) → Option (HitList × ℕ)
insert_hit fresh l h (some (ns, a)) = some (record l { hits = ns }, a)
insert_hit fresh l h none = push_hit fresh l h (
    if GnuId.is_set h.session_id
    then sweep (same_session h) nobody (length l.hits + 1) l.hits l.hits 0
    else some (l.hits, 0))

-- `addHit(h)` at time `now`, with the address that a new node gets. The inner `none` is the answer
-- nullptr, for a hit of our own.
unfoldable pub add_hit : GnuId → ℕ → ℕ → HitList → Hit → Option (HitList × Option ℕ)
unfolding sweep update_hit
add_hit session now fresh l h =
    if GnuId.is_same session h.session_id
    then some (l, none)
    else Option.map (λ (r : HitList × ℕ). (r.0, some r.1))
        (insert_hit fresh (record l { last_hit_time = now }) (record h { time = now })
          (update_hit (record h { time = now }) l.hits))
