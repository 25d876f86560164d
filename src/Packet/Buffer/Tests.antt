-- ===== src/Packet/Buffer/Tests.antt =====
-- The packet buffer on concrete packets.
use peercast_yt.Prelude.{◌≡◌, ◌≢◌, refl, false, true, none, some, List, [], ◌∷◌, ◌++◌, arith}
use peercast_yt.Packet.{Packet, Content, IsWhole, t_head, t_data}
use peercast_yt.Packet.Buffer.{
  Buffer, Tick, Stat, write_packet, read_packet, find_packet, copy_from, waiting, behind,
  get_latest_non_continuation_pos, get_oldest_non_continuation_pos, get_statistics, max_packets,
}
use peercast_yt.Packet.Buffer.Inv.{Inv, Stored, write_packet-Inv, write_packet-Stored}
use peercast_yt.Packet.Buffer.Queue.{
  Op, write, read, Reply, wrote, read_one, must_wait, model, buffer_run, queue_run, IsWholeOp,
  run_refines,
}
use peercast_yt.Packet.Buffer.Find.{Finds, find_packet_lem}
use peercast_yt.Packet.Buffer.Wait.{read_packet_ends}
use peercast_yt.Packet.Buffer.Copy.{copy_from_overruns}

abbrev blank : Packet
blank = record { kind = 0; len = 0; pos = 0; sync = 0; cont = false; bytes = [] }

abbrev head_packet : Packet
head_packet = record {
  kind = t_head;
  len = 2;
  pos = 100;
  sync = 0;
  cont = false;
  bytes = 7 ∷ 8 ∷ [];
}

abbrev data_packet : Packet
data_packet = record { kind = t_data; len = 1; pos = 102; sync = 0; cont = true; bytes = 9 ∷ [] }

abbrev empty : Buffer
empty = record {
  packets = λ _. blank;
  last_pos = 0;
  first_pos = 0;
  safe_pos = 0;
  read_pos = 0;
  write_pos = 0;
  accept = t_data;
  last_write_time = 0;
}

empty-Inv : Inv empty
empty-Inv = omega arith

empty-Stored : Stored empty
empty-Stored i h k = absurd (omega arith)

-- The buffer after one packet.
abbrev one : Buffer
unfolding write_packet
one = (write_packet 5 empty data_packet false).0

one-Inv : Inv one
unfolding one write_packet
one-Inv = write_packet-Inv 5 data_packet false empty-Inv (omega arith)

one-Stored : Stored one
unfolding one write_packet
one-Stored =
    write_packet-Stored 5 data_packet false empty-Inv (omega arith) (omega arith) empty-Stored

-- A buffer that has seen MAX_PACKETS packets, all read.
abbrev full : Buffer
full = record empty { write_pos = 64; read_pos = 64; last_pos = 63; safe_pos = 8 }

abbrev calls : List Op
calls = write head_packet ∷ read ∷ read ∷ write blank ∷ write data_packet ∷ read ∷ []

replies :
    buffer_run 5 blank empty calls
    ≡ wrote true
      ∷ read_one
          (record { kind = 1; len = 2; pos = 100; sync = 0; cont = false; body = 7 ∷ 8 ∷ [] })
      ∷ must_wait
      ∷ wrote false
      ∷ wrote true
      ∷ read_one (record { kind = 2; len = 1; pos = 102; sync = 1; cont = true; body = 9 ∷ [] })
      ∷ []
unfolding buffer_run peercast_yt.Packet.Buffer.Queue.buffer_step write_packet read_packet
    peercast_yt.Packet.assign
replies = refl

run_refines_example : buffer_run 5 blank empty calls ≡ queue_run (model empty) calls
run_refines_example = run_refines 5 blank calls empty-Inv empty-Stored (omega arith) (omega arith)

write_packet-Stored_example : Stored (write_packet 6 one head_packet false).0
unfolding one
write_packet-Stored_example =
    write_packet-Stored 6 head_packet false one-Inv (omega arith) (omega arith) one-Stored

read_packet_ends_example :
    (read_packet 5 ([] ++ record { now = 40; others = λ b. b } ∷ []) empty blank).0 ≢ waiting
read_packet_ends_example =
    read_packet_ends 5 [] (record { now = 40; others = λ b. b }) [] empty blank (omega arith)

find_packet_lem_example : (r : _) × (find_packet one 50 blank ≡ some r) × Finds one 50 blank r
find_packet_lem_example = find_packet_lem 50 blank one-Inv one-Stored

copy_from_overruns_example : copy_from full one 0 ≡ some none
unfolding one peercast_yt.Packet.assign
copy_from_overruns_example =
    copy_from_overruns full 0 0 one-Inv (omega arith) (omega arith) (omega arith) (omega arith)
