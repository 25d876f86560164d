-- ===== src/Pcp.antt =====
-- The reading of PCP messages, `PCPStream` of core/common/pcp.h and pcp.cpp, and what the loops over the
-- children of an atom share.
pub mod Steps
pub mod Host
pub mod Packets
pub mod Info
pub mod Broadcast
pub mod Routing
pub mod Dispatch
pub mod Output
mod Tests
use peercast_yt.Prelude.{ℕ, zero, suc}
use peercast_yt.Io.{Reader, pure, ◌>>=◌}
use peercast_yt.Atom.{Header, read_header}

-- `for (int i=0; i<numc; i++) { id = atom.read(c, d); ... }`, over the loop's variables.
unfoldable pub each_atom : {S : Type 0} → (Header → S → Reader S) → ℕ → S → Reader S
unfolding read_header
each_atom step zero s = pure s
each_atom step (suc n) s = do h ← read_header; s' ← step h s; each_atom step n s'
