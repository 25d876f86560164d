-- ===== src/Pcp/Dispatch.antt =====
-- `readAtom` and `procAtom` of core/common/pcp.cpp, for the message of a host, a text, and the answers OK and
-- QUIT, as what a broadcast does with the messages inside it; and `procAtom` of a broadcast. The other messages
-- that `procAtom` knows are left out: `not_modelled`.
pub mod Settings
pub mod Carried
pub mod Journey
mod Tests
use peercast_yt.Prelude.{
  ℕ, ◌+◌, ◌-◌, Bool, true, false, ◌||◌, Option, none, some, List, [], ◌∷◌, if◌then◌else◌, bytes_eq,
  take, drop, length,
}
use mathlib.Core.Option
use peercast_yt.GnuId.{GnuId}
use peercast_yt.Io.{Reader, pure, fail, ◌>>=◌, ◌>>◌, protocol, not_modelled}
use peercast_yt.Atom.{Header, read_header, read_int_data}
use peercast_yt.Hits.{Hit}
use peercast_yt.Hits.Atoms.{pcp_host}
use peercast_yt.Pcp.Host.{Listing, read_host_atoms, take_hit}
use peercast_yt.Pcp.Packets.{pcp_chan}
use peercast_yt.Pcp.Info.{read_string, max_len}
use peercast_yt.Pcp.Broadcast.{BroadcastState, Handler, Outcome, read_broadcast_atoms, pcp_bcst}

abbrev pub pcp_ok : List ℕ
pcp_ok = b'o' ∷ b'k' ∷ 0 ∷ 0 ∷ []

abbrev pub pcp_helo : List ℕ
pcp_helo = b'h' ∷ b'e' ∷ b'l' ∷ b'o' ∷ []

abbrev pub pcp_mesg_ascii : List ℕ
pcp_mesg_ascii = b'a' ∷ b's' ∷ b'c' ∷ b'i' ∷ []

abbrev pub pcp_mesg : List ℕ
pcp_mesg = b'm' ∷ b'e' ∷ b's' ∷ b'g' ∷ []

abbrev pub pcp_push : List ℕ
pcp_push = b'p' ∷ b'u' ∷ b's' ∷ b'h' ∷ []

abbrev pub pcp_root : List ℕ
pcp_root = b'r' ∷ b'o' ∷ b'o' ∷ b't' ∷ []

abbrev pub pcp_quit : List ℕ
pcp_quit = b'q' ∷ b'u' ∷ b'i' ∷ b't' ∷ []

abbrev pub pcp_atom : List ℕ
pcp_atom = b'a' ∷ b't' ∷ b'o' ∷ b'm' ∷ []

-- What the messages change of the peer: its hit lists, and the address of the next node. `none` is the end of
-- the fuel of a loop over a list.
pub record Peer : Type 0 where
  pub lists : List Listing
  pub fresh : ℕ

abbrev pub World : Type 0
World = Option Peer

abbrev pub with_lists : Peer → List Listing → Peer
with_lists p ls = record { lists = ls; fresh = p.fresh + 1 }

abbrev pub taken : GnuId → ℕ → Hit → World → World
taken session now h none = none
taken session now h (some p) = Option.map (with_lists p) (take_hit session now p.fresh h p.lists)

abbrev pub is_left_out : List ℕ → Bool
is_left_out id =
    bytes_eq id pcp_chan
    || bytes_eq id pcp_root
    || bytes_eq id pcp_bcst
    || bytes_eq id pcp_helo
    || bytes_eq id pcp_push
    || bytes_eq id pcp_atom

-- `procAtom(atom, id, numc, dlen, bcs)`, but for its result, which a broadcast does not look at.
unfoldable pub proc_atom :
    GnuId → ℕ → ℕ → Header → BroadcastState → World → Reader (BroadcastState × World)
unfolding read_host_atoms read_string read_int_data take_hit
proc_atom session now fuel h bcs w =
    if bytes_eq h.id pcp_host
    then (do
      hit ← read_host_atoms fuel h.num_children bcs.chan_id bcs.num_hops
      pure (bcs, taken session now hit w))
    else if bytes_eq h.id pcp_mesg_ascii || bytes_eq h.id pcp_mesg
    then (do read_string h max_len h.num_data []; pure (bcs, w))
    else if bytes_eq h.id pcp_ok || bytes_eq h.id pcp_quit
    then (do read_int_data h; pure (bcs, w))
    else if is_left_out h.id
    then fail not_modelled
    else fail protocol

-- `readAtom(atom, bcs)` on what was written to a buffer, from a position on.
unfoldable pub read_atom : GnuId → ℕ → ℕ → Handler World
unfolding proc_atom
read_atom session now fuel out pos bcs w =
    let r = (read_header >>= λ h. proc_atom session now fuel h bcs w) (drop pos out) in
    record { result = r.0; left = take (length out - length r.1) out }

-- `readAtom` of a broadcast that comes from a peer.
unfoldable pub read_broadcast :
    GnuId → ℕ → ℕ → BroadcastState → List GnuId → World → Reader (Outcome World)
unfolding read_broadcast_atoms read_atom
read_broadcast session now fuel bcs routes w = do
  h ← read_header
  (if bytes_eq h.id pcp_bcst
      then read_broadcast_atoms (read_atom session now fuel) session now fuel h.num_children bcs
          routes w
      else fail not_modelled)
