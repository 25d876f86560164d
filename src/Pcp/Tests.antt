-- ===== src/Pcp/Tests.antt =====
-- The theorems on PCP messages at concrete inputs.
use peercast_yt.Prelude.{
  ◌≡◌, inr, refl, true, false, some, List, [], ◌∷◌, ◌++◌, arith, replicate, All, IsByte,
}
use peercast_yt.Io.{ok}
use peercast_yt.Address.{Host}
use peercast_yt.GnuId.{GnuId, cleared}
use peercast_yt.Atom.{read_header}
use peercast_yt.Hits.{Hit, new_hit}
use peercast_yt.Hits.Atoms.{joined, num_children_of, children_of, write_hit, pcp_host}
use peercast_yt.Pcp.Host.{Listing, take_hit, read_host_atoms}
use peercast_yt.Pcp.Host.Lists.{Changed, Adds, with_list, take_hit_lem}
use peercast_yt.Pcp.Host.Whole.{Fits, received, read_host_atoms-write_hit}
use peercast_yt.Packet.{Packet, t_data, t_unknown, reset}
use peercast_yt.Packet.Buffer.{will_skip}
use peercast_yt.Pcp.Packets.{pkt_parts, send_packet, chan_atom, read_pkt_atoms, Chan, take_packet}
use peercast_yt.Pcp.Packets.Relay.{relayed}
use peercast_yt.Pcp.Packets.Arrival.{ready, Put, relay_lem}

abbrev an_id : GnuId
an_id = record { id = replicate 16 7; store_time = 0 }

abbrev a_host : Host
a_host = record { ip = replicate 16 5; port = 7144 }

abbrev a_hit : Hit
a_hit = record new_hit {
  rhost0 = a_host;
  rhost1 = a_host;
  uphost = a_host;
  session_id = an_id;
  num_listeners = 3;
  version_ex_number = 29;
}

bytes : All IsByte (replicate 16 5)
bytes = (
  omega arith,
  (
    omega arith,
    (
      omega arith,
      (
        omega arith,
        (
          omega arith,
          (
            omega arith,
            (
              omega arith,
              (
                omega arith,
                (
                  omega arith,
                  (
                    omega arith,
                    (
                      omega arith,
                      (omega arith, (omega arith, (omega arith, (omega arith, (omega arith, tt))))),
                    ),
                  ),
                ),
              ),
            ),
          ),
        ),
      ),
    ),
  ),
)

a_hit-Fits : Fits a_hit an_id
a_hit-Fits = record {
  session = refl;
  channel = refl;
  ip0 = (refl, bytes);
  ip1 = (refl, bytes);
  uphost_ip = (refl, bytes);
  prefix = refl;
  port0 = omega arith;
  port1 = omega arith;
  ex_number = omega arith;
  listeners = omega arith;
  relays = omega arith;
  up_time = omega arith;
  version = omega arith;
  version_vp = omega arith;
  oldest = omega arith;
  newest = omega arith;
  uphost_port = omega arith;
  uphost_hops = omega arith;
}

read_host_atoms-write_hit_example :
    (read_header (write_hit a_hit an_id ++ []) ≡ (
      ok (record { id = pcp_host; num_children = num_children_of a_hit an_id; num_data = 0 }),
      joined (children_of a_hit an_id) ++ [],
    ))
    × (read_host_atoms 1
          (num_children_of a_hit an_id)
          cleared
          2
          (joined (children_of a_hit an_id) ++ [])
        ≡ (ok (received a_hit an_id cleared 2), []))
read_host_atoms-write_hit_example = read_host_atoms-write_hit 1 2 a_hit an_id cleared [] a_hit-Fits

take_hit_lem_example :
    (ls' : List Listing) × (take_hit cleared 9 1 a_hit [] ≡ some ls')
    × Changed (Adds 1 (record a_hit { time = 9 })) cleared (with_list cleared []) ls'
take_hit_lem_example = take_hit_lem cleared 9 1 a_hit [] tt refl

abbrev a_packet : Packet
a_packet = record {
  kind = t_data;
  len = 3;
  pos = 100;
  sync = 5;
  cont = true;
  bytes = 1 ∷ 2 ∷ 3 ∷ 4 ∷ [];
}

abbrev blank : Packet
blank = record { kind = t_unknown; len = 0; pos = 0; sync = 0; cont = false; bytes = [] }

abbrev a_chan : Chan
a_chan = record {
  stream_index = 0;
  head_pack = blank;
  raw_data = record {
    packets = λ i. blank;
    last_pos = 0;
    first_pos = 0;
    safe_pos = 0;
    read_pos = 0;
    write_pos = 0;
    accept = 0;
    last_write_time = 0;
  };
  stream_pos = 0;
}

relay_lem_example :
    (send_packet an_id a_packet ≡ chan_atom an_id (pkt_parts a_packet).0 (pkt_parts a_packet).1)
    × ((q : Packet) × (read_pkt_atoms 1
            (pkt_parts a_packet).0
            (reset blank)
            (joined (pkt_parts a_packet).1 ++ [])
          ≡ (ok q, []))
        × Put (relayed a_packet) 9 (ready a_packet a_chan) (take_packet 9 q a_chan))
unfolding will_skip
relay_lem_example =
    relay_lem an_id a_packet blank 1 9 [] a_chan
      (record { kind = inr refl; whole = omega arith; size = omega arith; pos = omega arith })
      (λ e. absurd (omega arith)) refl
