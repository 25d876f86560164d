-- ===== src/Pcp/Packets.antt =====
-- The packets of a channel on their way from one peer to the next: `Servent::sendPCPChannel` of
-- core/common/servent.cpp, which writes each as atoms, and `readPktAtoms` of core/common/pcp.cpp, which
-- reads them and puts the packet in the buffer of its channel.
pub mod Relay
pub mod Arrival
use peercast_yt.Prelude.{
  ℕ, ◌+◌, Bool, true, false, ◌&&◌, ◌||◌, not, List, [], ◌∷◌, ◌++◌, ltb, ◌==◌, if◌then◌else◌, drop,
  length, bytes_eq,
}
use peercast_yt.Prelude.Words.{add32}
use peercast_yt.Io.{Reader, pure, fail, ◌>>=◌, ◌>>◌, too_long, read_id4}
use peercast_yt.Atom.{
  Header, check_data, read_int_data, read_char_data, read_bytes, skip_atom, write_parent,
  write_bytes, write_id4_atom, write_int_atom, write_char_atom,
}
use peercast_yt.GnuId.{GnuId}
use peercast_yt.Packet.{Packet, t_unknown, t_head, t_data, max_datalen, payload, assign}
use peercast_yt.Packet.Buffer
use peercast_yt.Packet.Buffer.{Buffer, write_packet}
use peercast_yt.Pcp.{each_atom}
use peercast_yt.Hits.Atoms.{joined}

abbrev pub pcp_chan : List ℕ
pcp_chan = b'c' ∷ b'h' ∷ b'a' ∷ b'n' ∷ []

abbrev pub pcp_chan_id : List ℕ
pcp_chan_id = b'i' ∷ b'd' ∷ 0 ∷ 0 ∷ []

abbrev pub pcp_chan_pkt : List ℕ
pcp_chan_pkt = b'p' ∷ b'k' ∷ b't' ∷ 0 ∷ []

abbrev pub pcp_chan_pkt_type : List ℕ
pcp_chan_pkt_type = b't' ∷ b'y' ∷ b'p' ∷ b'e' ∷ []

abbrev pub pcp_chan_pkt_pos : List ℕ
pcp_chan_pkt_pos = b'p' ∷ b'o' ∷ b's' ∷ 0 ∷ []

abbrev pub pcp_chan_pkt_head : List ℕ
pcp_chan_pkt_head = b'h' ∷ b'e' ∷ b'a' ∷ b'd' ∷ []

abbrev pub pcp_chan_pkt_data : List ℕ
pcp_chan_pkt_data = b'd' ∷ b'a' ∷ b't' ∷ b'a' ∷ []

abbrev pub pcp_chan_pkt_continuation : List ℕ
pcp_chan_pkt_continuation = b'c' ∷ b'o' ∷ b'n' ∷ b't' ∷ []

-- The children of the packet's atom.
abbrev pub pkt_atoms : List ℕ → Packet → List (List ℕ)
pkt_atoms type p =
    write_id4_atom pcp_chan_pkt_type type
    ∷ write_int_atom pcp_chan_pkt_pos p.pos
    ∷ write_bytes pcp_chan_pkt_data (payload p)
    ∷ []

abbrev pub cont_atoms : Packet → List (List ℕ)
cont_atoms p =
    write_id4_atom pcp_chan_pkt_type pcp_chan_pkt_data
    ∷ write_int_atom pcp_chan_pkt_pos p.pos
    ∷ write_char_atom pcp_chan_pkt_continuation 1
    ∷ write_bytes pcp_chan_pkt_data (payload p)
    ∷ []

-- The atom of the channel: its identifier, and the packet.
abbrev pub chan_atom : GnuId → ℕ → List (List ℕ) → List ℕ
chan_atom chan n children =
    write_parent pcp_chan 2
    ++ (write_bytes pcp_chan_id chan.id ++ (write_parent pcp_chan_pkt n ++ joined children))

-- The number of children that is announced, and the children.
unfoldable pub pkt_parts : Packet → ℕ × List (List ℕ)
pkt_parts p =
    if p.kind == t_head
    then (3, pkt_atoms pcp_chan_pkt_head p)
    else if p.cont
    then (4, cont_atoms p)
    else (3, pkt_atoms pcp_chan_pkt_data p)

-- What `sendPCPChannel` writes for a packet.
unfoldable pub send_packet : GnuId → Packet → List ℕ
unfolding pkt_parts
send_packet chan p =
    if p.kind == t_head || p.kind == t_data
    then chan_atom chan (pkt_parts p).0 (pkt_parts p).1
    else []

abbrev pub kind_of : List ℕ → ℕ
kind_of type =
    if bytes_eq type pcp_chan_pkt_head
    then t_head
    else if bytes_eq type pcp_chan_pkt_data
    then t_data
    else t_unknown

-- One round of the loop of `readPktAtoms`, over `pack`.
unfoldable pub read_pkt_atom : ℕ → Header → Packet → Reader Packet
unfolding read_id4 read_int_data read_char_data read_bytes skip_atom
read_pkt_atom fuel h p =
    if bytes_eq h.id pcp_chan_pkt_type
    then (do check_data h 4; v ← read_id4; pure (record p { kind = kind_of v }))
    else if bytes_eq h.id pcp_chan_pkt_pos
    then (do v ← read_int_data h; pure (record p { pos = v }))
    else if bytes_eq h.id pcp_chan_pkt_continuation
    then (do v ← read_char_data h; pure (record p { cont = not (v == 0) }))
    else if bytes_eq h.id pcp_chan_pkt_data
    then if ltb max_datalen h.num_data then fail too_long else (do
      b ← read_bytes h h.num_data
      pure (record p { len = h.num_data; bytes = b ++ drop h.num_data p.bytes }))
    else (do skip_atom fuel h.num_children h.num_data; pure p)

-- The members of a channel that a packet changes.
pub record Chan : Type 0 where
  pub stream_index : ℕ
  pub head_pack : Packet
  pub raw_data : Buffer
  pub stream_pos : ℕ

-- The check for a restart of the stream.
unfoldable pub restart : Packet → Chan → Chan
unfolding Buffer.init
restart p ch =
    if p.pos == 0
    then record ch { stream_index = add32 ch.stream_index 1; raw_data = Buffer.init ch.raw_data }
    else ch

unfoldable pub put_packet : ℕ → Packet → Chan → Chan
unfolding write_packet
put_packet now p ch = record ch {
  raw_data = (write_packet now ch.raw_data p true).0;
  stream_pos = add32 p.pos p.len;
}

-- What `readPktAtoms` does with the packet of a channel, at time `now`.
unfoldable pub take_packet : ℕ → Packet → Chan → Chan
unfolding assign restart put_packet
take_packet now p ch =
    if p.kind == t_head
    then (let restarted = restart p ch in
        put_packet now p (record restarted { head_pack = assign restarted.head_pack p }))
    else if p.kind == t_data
    then put_packet now p ch
    else ch

-- The position of the broadcast behind the packet.
abbrev pub parent_pos : Packet → ℕ → ℕ
parent_pos p pos = if not (p.pos == 0) && (pos == 0 || ltb p.pos pos) then p.pos else pos

-- The loop of `readPktAtoms` over `numc` children, from a new packet.
unfoldable pub read_pkt_atoms : ℕ → ℕ → Packet → Reader Packet
unfolding read_pkt_atom each_atom
read_pkt_atoms fuel = each_atom (read_pkt_atom fuel)
