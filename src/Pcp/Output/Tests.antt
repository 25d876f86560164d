-- ===== src/Pcp/Output/Tests.antt =====
-- Two packets that wait, and are written.
use peercast_yt.Prelude.{ℕ, false, [], ◌∷◌, arith}
use peercast_yt.Packet.{Packet, t_data, t_unknown}
use peercast_yt.Packet.Buffer.{Buffer, write_packet}
use peercast_yt.Packet.Buffer.Inv.{Inv, Stored, write_packet-Inv, write_packet-Stored}
use peercast_yt.Pcp.Output.{flush, Drained, flush_lem}

abbrev blank : Packet
blank = record { kind = t_unknown; len = 0; pos = 0; sync = 0; cont = false; bytes = [] }

abbrev small : ℕ → Packet
small n = record { kind = t_data; len = 1; pos = 0; sync = 0; cont = false; bytes = n ∷ [] }

abbrev nothing_sent : Buffer
nothing_sent = record {
  packets = λ _. blank;
  last_pos = 0;
  first_pos = 0;
  safe_pos = 0;
  read_pos = 0;
  write_pos = 0;
  accept = t_data;
  last_write_time = 0;
}

nothing_sent-Inv : Inv nothing_sent
nothing_sent-Inv = omega arith

nothing_sent-Stored : Stored nothing_sent
nothing_sent-Stored i h k = absurd (omega arith)

abbrev one_waits : Buffer
unfolding write_packet
one_waits = (write_packet 5 nothing_sent (small 7) false).0

one_waits-Inv : Inv one_waits
unfolding one_waits write_packet
one_waits-Inv = write_packet-Inv 5 (small 7) false nothing_sent-Inv (omega arith)

one_waits-Stored : Stored one_waits
unfolding one_waits write_packet
one_waits-Stored =
    write_packet-Stored 5 (small 7) false nothing_sent-Inv (omega arith) (omega arith)
      nothing_sent-Stored

abbrev two_wait : Buffer
unfolding write_packet
two_wait = (write_packet 6 one_waits (small 8) false).0

two_wait-Inv : Inv two_wait
unfolding two_wait write_packet
two_wait-Inv = write_packet-Inv 6 (small 8) false one_waits-Inv (omega arith)

two_wait-Stored : Stored two_wait
unfolding two_wait one_waits write_packet
two_wait-Stored =
    write_packet-Stored 6 (small 8) false one_waits-Inv (omega arith) (omega arith) one_waits-Stored

flush_lem_example : Drained two_wait [] (flush 9 two_wait blank [])
flush_lem_example = flush_lem 9 blank [] two_wait-Inv two_wait-Stored
