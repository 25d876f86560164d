-- ===== src/Pcp/Broadcast.antt =====
-- `readBroadcastAtoms` of core/common/pcp.cpp: a message that goes from peer to peer. Its atoms are copied,
-- with a time to live that falls and hops that grow, while those that are no settings of the broadcast are
-- handed to `readAtom`; then it is sent on. `readAtom`, which calls this function in turn, is an argument here,
-- with the state `W` of the peer that it changes: Dispatch gives it. The session of this peer and the clock
-- are arguments too. An `int` is its word of 32 bits.
pub mod Fields
pub mod Round
pub mod Sent
use peercast_yt.Prelude.{
  ℕ, suc, ◌+◌, Bool, true, false, ◌&&◌, ◌||◌, not, List, [], ◌∷◌, ◌++◌, ltb, leb, ◌==◌,
  if◌then◌else◌, bit_and, bytes_eq, length,
}
use peercast_yt.Prelude.Words.{add32, sub32}
use peercast_yt.GnuId
use peercast_yt.GnuId.{GnuId}
use peercast_yt.Io.{Result, ok, err, Reader, pure, fail, ◌>>=◌, ◌>>◌, too_long}
use peercast_yt.Atom.{
  Header, read_int_data, read_short_data, read_char_data, read_bytes, write_atoms, write_parent,
  write_bytes, write_int_atom, write_short_atom, write_char_atom,
}
use peercast_yt.Packet.{max_datalen}
use peercast_yt.Pcp.{each_atom}

abbrev pub pcp_bcst : List ℕ
pcp_bcst = b'b' ∷ b'c' ∷ b's' ∷ b't' ∷ []

abbrev pub pcp_bcst_ttl : List ℕ
pcp_bcst_ttl = b't' ∷ b't' ∷ b'l' ∷ 0 ∷ []

abbrev pub pcp_bcst_hops : List ℕ
pcp_bcst_hops = b'h' ∷ b'o' ∷ b'p' ∷ b's' ∷ []

abbrev pub pcp_bcst_from : List ℕ
pcp_bcst_from = b'f' ∷ b'r' ∷ b'o' ∷ b'm' ∷ []

abbrev pub pcp_bcst_dest : List ℕ
pcp_bcst_dest = b'd' ∷ b'e' ∷ b's' ∷ b't' ∷ []

abbrev pub pcp_bcst_group : List ℕ
pcp_bcst_group = b'g' ∷ b'r' ∷ b'p' ∷ 0 ∷ []

abbrev pub pcp_bcst_chanid : List ℕ
pcp_bcst_chanid = b'c' ∷ b'i' ∷ b'd' ∷ 0 ∷ []

abbrev pub pcp_bcst_version : List ℕ
pcp_bcst_version = b'v' ∷ b'e' ∷ b'r' ∷ b's' ∷ []

abbrev pub pcp_bcst_version_vp : List ℕ
pcp_bcst_version_vp = b'v' ∷ b'r' ∷ b'v' ∷ b'p' ∷ []

abbrev pub pcp_bcst_version_ex_prefix : List ℕ
pcp_bcst_version_ex_prefix = b'v' ∷ b'e' ∷ b'x' ∷ b'p' ∷ []

abbrev pub pcp_bcst_version_ex_number : List ℕ
pcp_bcst_version_ex_number = b'v' ∷ b'e' ∷ b'x' ∷ b'n' ∷ []

abbrev pub group_root : ℕ
group_root = 1

abbrev pub group_trackers : ℕ
group_trackers = 2

abbrev pub group_relays : ℕ
group_relays = 4

-- `PCP_ERROR_BCST+PCP_ERROR_LOOPBACK`
abbrev pub error_loopback : ℕ
error_loopback = 2000 + 4

pub record BroadcastState : Type 0 where
  pub chan_id : GnuId
  pub bc_id : GnuId
  pub num_hops : ℕ
  pub for_me : Bool
  pub stream_pos : ℕ
  pub group : ℕ

unfoldable pub init_packet_settings : BroadcastState → BroadcastState
init_packet_settings b = record b {
  for_me = false;
  group = 0;
  num_hops = 0;
  bc_id = GnuId.cleared;
  chan_id = GnuId.cleared;
}

-- A `char` as an `int`, and the test `v > 0`.
abbrev pub char_int : ℕ → ℕ
char_int c = if ltb c 128 then c else c + 4294967040

abbrev pub is_positive : ℕ → Bool
is_positive v = not (v == 0) && ltb v 2147483648

-- The loop's variables: `ttl`, `fromID`, `destID`, `bcs`, the stream's `routeList`, what was written to
-- `pmem`, and the state of the peer.
pub record Loop (W : Type 0) : Type 0 where
  pub ttl : ℕ
  pub from : GnuId
  pub dest : GnuId
  pub bcs : BroadcastState
  pub route_list : List GnuId
  pub out : List ℕ
  pub world : W

-- What `readAtom` leaves: the state of the broadcast and of the peer, or an exception, and the buffer up
-- to the position at which it stops.
pub record Handled (W : Type 0) : Type 0 where
  pub result : Result (BroadcastState × W)
  pub left : List ℕ

-- `readAtom(patom, bcs)` on the buffer, from the position where the copied atom starts.
abbrev pub Handler : Type 0 → Type 0
Handler W = List ℕ → ℕ → BroadcastState → W → Handled W

-- A write to `pmem`, which has the size of a packet.
abbrev pub put : {W : Type 0} → List ℕ → Loop W → Reader (Loop W)
put b s =
    if leb (length s.out + length b) max_datalen
    then pure (record s { out = s.out ++ b })
    else fail too_long

abbrev pub resume : {W : Type 0} → Result (BroadcastState × W) → List ℕ → Loop W → Reader (Loop W)
resume (ok (b, w)) left s = pure (record s { bcs = b; world = w; out = left })
resume (err e) left s = fail e

abbrev pub read_copied : {W : Type 0} → Handler W → ℕ → Loop W → Reader (Loop W)
read_copied read_atom old_pos s =
    let h = read_atom s.out old_pos s.bcs s.world in resume h.result h.left s

-- The settings that a message may hold, as what the loop keeps of them.
abbrev pub with_hops : {W : Type 0} → ℕ → Loop W → Loop W
with_hops v s = record s { bcs = record (s.bcs) { num_hops = v } }

abbrev pub with_group : {W : Type 0} → ℕ → Loop W → Loop W
with_group v s = record s { bcs = record (s.bcs) { group = v } }

abbrev pub with_chan : {W : Type 0} → List ℕ → Loop W → Loop W
with_chan v s = record s { bcs = record (s.bcs) { chan_id = record ((s.bcs).chan_id) { id = v } } }

abbrev pub with_dest : {W : Type 0} → GnuId → List ℕ → Loop W → Loop W
with_dest session v s = record s {
  dest = record (s.dest) { id = v };
  bcs = record (s.bcs) { for_me = bytes_eq v session.id };
}

abbrev pub with_from : {W : Type 0} → ℕ → List ℕ → Loop W → Loop W
with_from now v s = record s {
  from = record (s.from) { id = v };
  route_list = GnuId.add now s.route_list (record (s.from) { id = v });
}

-- One round of the loop, at time `now`.
unfoldable pub read_bcst_atom :
    {W : Type 0} → Handler W → GnuId → ℕ → ℕ → Header → Loop W → Reader (Loop W)
unfolding read_int_data read_short_data read_char_data read_bytes write_atoms GnuId.add
read_bcst_atom read_atom session now fuel h s =
    if bytes_eq h.id pcp_bcst_ttl
    then (do
      v ← read_char_data h
      put (write_char_atom h.id (sub32 (char_int v) 1)) (record s { ttl = sub32 (char_int v) 1 }))
    else if bytes_eq h.id pcp_bcst_hops
    then (do
      v ← read_char_data h
      put (write_char_atom h.id (add32 (char_int v) 1)) (with_hops (add32 (char_int v) 1) s))
    else if bytes_eq h.id pcp_bcst_from
    then (do v ← read_bytes h 16; put (write_bytes h.id v) (with_from now v s))
    else if bytes_eq h.id pcp_bcst_group
    then (do
      v ← read_char_data h
      put (write_char_atom h.id (char_int v)) (with_group (char_int v) s))
    else if bytes_eq h.id pcp_bcst_dest
    then (do v ← read_bytes h 16; put (write_bytes h.id v) (with_dest session v s))
    else if bytes_eq h.id pcp_bcst_chanid
    then (do v ← read_bytes h 16; put (write_bytes h.id v) (with_chan v s))
    else if bytes_eq h.id pcp_bcst_version
    then (do v ← read_int_data h; put (write_int_atom h.id v) s)
    else if bytes_eq h.id pcp_bcst_version_vp
    then (do v ← read_int_data h; put (write_int_atom h.id v) s)
    else if bytes_eq h.id pcp_bcst_version_ex_prefix
    then (do v ← read_bytes h 2; put (write_bytes h.id v) s)
    else if bytes_eq h.id pcp_bcst_version_ex_number
    then (do v ← read_short_data h; put (write_short_atom h.id v) s)
    else (do
      c ← write_atoms fuel h.id h.num_children h.num_data
      copied ← put c.bytes s
      read_copied read_atom (length s.out) copied)

-- Where a broadcast is sent on: `broadcastPacketUp`, and `broadcastPacket` to the servents of a type.
pub data Target : Type 0 where
  up cout cin relay : Target

abbrev pub when : Bool → List Target → List Target
when true ts = ts
when false ts = []

abbrev pub in_group : ℕ → ℕ → Bool
in_group group mask = not (bit_and group mask == 0)

unfoldable pub targets : ℕ → List Target
targets group =
    when (in_group group (group_root + group_trackers + group_relays)) (up ∷ [])
    ++ (when (in_group group (group_root + group_trackers + group_relays)) (cout ∷ [])
        ++ (when (in_group group (group_relays + group_trackers)) (cin ∷ [])
            ++ when (in_group group group_relays) (relay ∷ [])))

-- The result, the variables at the end, and where the bytes in `out` are sent.
pub record Outcome (W : Type 0) : Type 0 where
  pub error : ℕ
  pub loop : Loop W
  pub sent : List Target

-- What follows the loop, by the two tests.
unfoldable pub outcome : {W : Type 0} → Bool → Bool → Loop W → Outcome W
unfolding targets
outcome looped sends s =
    if looped
    then record { error = error_loopback; loop = s; sent = [] }
    else if sends
    then record { error = 0; loop = s; sent = targets (s.bcs).group }
    else record { error = 0; loop = s; sent = [] }

unfoldable pub finish : {W : Type 0} → GnuId → Loop W → Outcome W
unfolding outcome
finish session s =
    outcome (GnuId.is_set s.from && GnuId.is_same s.from session)
      (is_positive s.ttl && not (s.bcs).for_me) s

abbrev pub start : {W : Type 0} → ℕ → BroadcastState → List GnuId → W → Loop W
start numc bcs routes w = record {
  ttl = 1;
  from = GnuId.cleared;
  dest = GnuId.cleared;
  bcs = init_packet_settings bcs;
  route_list = routes;
  out = write_parent pcp_bcst numc;
  world = w;
}

unfoldable pub read_broadcast_atoms :
    {W : Type 0}
    → Handler W
    → GnuId
    → ℕ
    → ℕ
    → ℕ
    → BroadcastState
    → List GnuId
    → W
    → Reader (Outcome W)
unfolding read_bcst_atom each_atom finish init_packet_settings
read_broadcast_atoms read_atom session now fuel numc bcs routes w = do
  s ← each_atom (read_bcst_atom read_atom session now fuel) numc (start numc bcs routes w)
  pure (finish session s)
