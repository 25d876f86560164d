-- ===== src/Pcp/Routing.antt =====
-- Where a broadcast goes: `PCPStream::sendPacket` of core/common/pcp.cpp, `Servent::sendPacket` of
-- servent.cpp and `Channel::sendPacketUp` of channel.cpp, called for all by `broadcastPacket` of servmgr.cpp
-- and `broadcastPacketUp` of chanmgr.cpp. Locks are left out.
pub mod Delivery
pub mod Once
mod Tests
use peercast_yt.Prelude.{
  ℕ, ◌+◌, Bool, true, false, ◌&&◌, ◌||◌, not, Option, none, some, List, [], ◌∷◌, ◌==◌,
  if◌then◌else◌,
}
use peercast_yt.GnuId
use peercast_yt.GnuId.{GnuId}
use peercast_yt.Packet.{Packet}
use peercast_yt.Packet.Buffer.{Buffer, write_packet}
use peercast_yt.Pcp.Broadcast.{Target, up, cout, cin, relay, targets}

-- The members of a PCP stream that sending needs.
pub record Stream : Type 0 where
  pub remote_id : GnuId
  pub route_list : List GnuId
  pub out_data : Buffer

abbrev pub is_routed : GnuId → Stream → Bool
is_routed dest s =
    if GnuId.is_set dest
    then if GnuId.is_same dest s.remote_id then true else GnuId.contains s.route_list dest
    else true

-- `sendPacket(pack, destID)`
unfoldable pub stream_send : ℕ → Packet → GnuId → Stream → Stream × Bool
unfolding write_packet GnuId.contains
stream_send now pack dest s =
    if is_routed dest s
    then (let w = write_packet now s.out_data pack false in (record s { out_data = w.0 }, w.2))
    else (s, false)

-- `Servent::TYPE`
pub data ServentType : Type 0 where
  t_none t_incoming t_server t_relay t_direct t_cout t_cin t_command : ServentType

abbrev pub type_value : ServentType → ℕ
type_value t_none = 0
type_value t_incoming = 1
type_value t_server = 2
type_value t_relay = 3
type_value t_direct = 4
type_value t_cout = 5
type_value t_cin = 6
type_value t_command = 7

-- The members of a servent and of a channel that sending needs. A source that is no PCP stream sends
-- nothing, and counts as none.
pub record Servent : Type 0 where
  pub kind : ServentType
  pub connected : Bool
  pub chan_id : GnuId
  pub remote_id : GnuId
  pub pcp_stream : Option Stream

pub record Source : Type 0 where
  pub active : Bool
  pub info_id : GnuId
  pub remote_id : GnuId
  pub source_stream : Option Stream

abbrev pub is_for : GnuId → GnuId → Bool
is_for cid chan = not (GnuId.is_set cid) || GnuId.is_same chan cid

abbrev pub is_other : GnuId → GnuId → Bool
is_other sid remote = not (GnuId.is_set sid) || not (GnuId.is_same sid remote)

-- The tests of `Servent::sendPacket`, but for the one on `pcpStream`.
abbrev pub is_meant : GnuId → GnuId → ServentType → Servent → Bool
is_meant cid sid t sv =
    (type_value sv.kind == type_value t)
    && sv.connected
    && is_for cid sv.chan_id
    && is_other sid sv.remote_id

abbrev pub send_on : ℕ → Packet → GnuId → Option Stream → Option Stream × Bool
send_on now pack did none = (none, false)
send_on now pack did (some st) = let r = stream_send now pack did st in (some r.0, r.1)

unfoldable pub servent_send :
    ℕ → Packet → GnuId → GnuId → GnuId → ServentType → Servent → Servent × Bool
unfolding stream_send
servent_send now pack cid sid did t sv =
    if is_meant cid sid t sv
    then (let r = send_on now pack did sv.pcp_stream in (record sv { pcp_stream = r.0 }, r.1))
    else (sv, false)

abbrev pub counted : Bool → ℕ → ℕ
counted b n = if b then n + 1 else n

-- `ServMgr::broadcastPacket`, over the servents in the order of `next`: the servents, and how many took it.
unfoldable pub broadcast_packet :
    ℕ → Packet → GnuId → GnuId → GnuId → ServentType → List Servent → List Servent × ℕ
unfolding servent_send
broadcast_packet now pack cid sid did t [] = ([], 0)
broadcast_packet now pack cid sid did t (sv ∷ svs) =
    let r = servent_send now pack cid sid did t sv in
    let rest = broadcast_packet now pack cid sid did t svs in (r.0 ∷ rest.0, counted r.1 rest.1)

-- `Channel::sendPacketUp` and `ChanMgr::broadcastPacketUp`.
unfoldable pub send_packet_up : ℕ → Packet → GnuId → GnuId → GnuId → Source → Source × Bool
unfolding stream_send
send_packet_up now pack cid sid did c =
    if c.active && is_for cid c.info_id && is_other sid c.remote_id
    then (let r = send_on now pack did c.source_stream in (record c { source_stream = r.0 }, r.1))
    else (c, false)

unfoldable pub broadcast_packet_up :
    ℕ → Packet → GnuId → GnuId → GnuId → List Source → List Source × ℕ
unfolding send_packet_up
broadcast_packet_up now pack cid sid did [] = ([], 0)
broadcast_packet_up now pack cid sid did (c ∷ cs) =
    let r = send_packet_up now pack cid sid did c in
    let rest = broadcast_packet_up now pack cid sid did cs in (r.0 ∷ rest.0, counted r.1 rest.1)

-- The servents and channels of a peer.
pub record Net : Type 0 where
  pub servents : List Servent
  pub channels : List Source

-- One of the calls at the end of `readBroadcastAtoms`, and all of those for a group.
unfoldable pub send_to : ℕ → Packet → GnuId → GnuId → GnuId → Target → Net → Net
unfolding broadcast_packet broadcast_packet_up
send_to now pack cid sid did up n = record n {
  channels = (broadcast_packet_up now pack cid sid did n.channels).0;
}
send_to now pack cid sid did cout n = record n {
  servents = (broadcast_packet now pack cid sid did t_cout n.servents).0;
}
send_to now pack cid sid did cin n = record n {
  servents = (broadcast_packet now pack cid sid did t_cin n.servents).0;
}
send_to now pack cid sid did relay n = record n {
  servents = (broadcast_packet now pack cid sid did t_relay n.servents).0;
}

unfoldable pub send_all : ℕ → Packet → GnuId → GnuId → GnuId → List Target → Net → Net
unfolding send_to
send_all now pack cid sid did [] n = n
send_all now pack cid sid did (x ∷ xs) n =
    send_all now pack cid sid did xs (send_to now pack cid sid did x n)

unfoldable pub send_group : ℕ → Packet → GnuId → GnuId → GnuId → ℕ → Net → Net
unfolding send_all targets
send_group now pack cid sid did group n = send_all now pack cid sid did (targets group) n
