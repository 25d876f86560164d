-- ===== src/Pcp/Routing/Tests.antt =====
-- A packet for two servents, of which one is the peer that it came from.
use peercast_yt.Prelude.{◌≡◌, ◌⊎◌, refl, true, false, some, List, [], ◌∷◌, replicate}
use peercast_yt.GnuId.{GnuId, cleared}
use peercast_yt.Packet.{Packet, t_unknown}
use peercast_yt.Packet.Buffer.{Buffer}
use peercast_yt.Pcp.Routing.Once.{Heard, Quiet, send_group-Heard}
use peercast_yt.Pcp.Routing.{Servent, t_relay, broadcast_packet, Net, send_group}
use peercast_yt.Pcp.Routing.Delivery.{All₂, Stays, Gets, broadcast_packet-Gets}

abbrev peer : GnuId
peer = record { id = replicate 16 7; store_time = 0 }

abbrev blank : Packet
blank = record { kind = t_unknown; len = 0; pos = 0; sync = 0; cont = false; bytes = [] }

abbrev message : Packet
message = record { kind = 16; len = 2; pos = 0; sync = 0; cont = false; bytes = 1 ∷ 2 ∷ [] }

abbrev empty : Buffer
empty = record {
  packets = λ _. blank;
  last_pos = 0;
  first_pos = 0;
  safe_pos = 0;
  read_pos = 0;
  write_pos = 0;
  accept = 16;
  last_write_time = 0;
}

abbrev servent_of : GnuId → Servent
servent_of id = record {
  kind = t_relay;
  connected = true;
  chan_id = cleared;
  remote_id = id;
  pcp_stream = some (record { remote_id = id; route_list = []; out_data = empty });
}

abbrev servents : List Servent
servents = servent_of peer ∷ servent_of cleared ∷ []

once : (broadcast_packet 5 message cleared peer cleared t_relay servents).1 ≡ 1
unfolding broadcast_packet
once = refl

broadcast_packet-Gets_example :
    All₂
      (λ sv sv'.
        Stays cleared peer cleared t_relay sv sv'
        ⊎ Gets 5 message cleared peer cleared t_relay sv sv')
      servents
      (broadcast_packet 5 message cleared peer cleared t_relay servents).0
unfolding broadcast_packet
broadcast_packet-Gets_example =
    broadcast_packet-Gets 5 message cleared peer cleared t_relay servents

abbrev net : Net
net = record { servents = servents; channels = [] }

send_group-Heard_example :
    All₂
      (λ sv sv'.
        Heard 5 message cleared peer cleared 7 sv sv'
        ⊎ Quiet 5 message cleared peer cleared 7 sv sv')
      servents
      (send_group 5 message cleared peer cleared 7 net).servents
send_group-Heard_example = send_group-Heard 5 message cleared peer cleared 7 net
