-- ===== src/Hits/Atoms.antt =====
-- `ChanHit::writeAtoms` of core/common/chanhit.cpp, the message by which a host is made known, with
-- the identifiers of core/common/pcp.h.
pub mod Leaves
use peercast_yt.Prelude.{ℕ, ◌+◌, Bool, List, [], ◌∷◌, ◌++◌, ◌==◌, if◌then◌else◌}
use peercast_yt.Address.{is_set}
use peercast_yt.GnuId
use peercast_yt.GnuId.{GnuId}
use peercast_yt.Atom.{
  write_parent, write_bytes, write_address, write_short_atom, write_char_atom, write_int_atom,
}
use peercast_yt.Hits.{Hit, flags1}

-- What several writes append, one after the other.
abbrev pub joined : List (List ℕ) → List ℕ
joined [] = []
joined (w ∷ ws) = w ++ joined ws

abbrev pub when : Bool → List (List ℕ) → List (List ℕ)
when b ws = if b then ws else []

-- The identifiers: four characters, or fewer and zeros.
abbrev pub pcp_host : List ℕ
pcp_host = b'h' ∷ b'o' ∷ b's' ∷ b't' ∷ []

abbrev pub pcp_host_id : List ℕ
pcp_host_id = b'i' ∷ b'd' ∷ 0 ∷ 0 ∷ []

abbrev pub pcp_host_ip : List ℕ
pcp_host_ip = b'i' ∷ b'p' ∷ 0 ∷ 0 ∷ []

abbrev pub pcp_host_port : List ℕ
pcp_host_port = b'p' ∷ b'o' ∷ b'r' ∷ b't' ∷ []

abbrev pub pcp_host_numl : List ℕ
pcp_host_numl = b'n' ∷ b'u' ∷ b'm' ∷ b'l' ∷ []

abbrev pub pcp_host_numr : List ℕ
pcp_host_numr = b'n' ∷ b'u' ∷ b'm' ∷ b'r' ∷ []

abbrev pub pcp_host_uptime : List ℕ
pcp_host_uptime = b'u' ∷ b'p' ∷ b't' ∷ b'm' ∷ []

abbrev pub pcp_host_chanid : List ℕ
pcp_host_chanid = b'c' ∷ b'i' ∷ b'd' ∷ 0 ∷ []

abbrev pub pcp_host_version : List ℕ
pcp_host_version = b'v' ∷ b'e' ∷ b'r' ∷ 0 ∷ []

abbrev pub pcp_host_version_vp : List ℕ
pcp_host_version_vp = b'v' ∷ b'e' ∷ b'v' ∷ b'p' ∷ []

abbrev pub pcp_host_version_ex_prefix : List ℕ
pcp_host_version_ex_prefix = b'v' ∷ b'e' ∷ b'x' ∷ b'p' ∷ []

abbrev pub pcp_host_version_ex_number : List ℕ
pcp_host_version_ex_number = b'v' ∷ b'e' ∷ b'x' ∷ b'n' ∷ []

abbrev pub pcp_host_flags1 : List ℕ
pcp_host_flags1 = b'f' ∷ b'l' ∷ b'g' ∷ b'1' ∷ []

abbrev pub pcp_host_oldpos : List ℕ
pcp_host_oldpos = b'o' ∷ b'l' ∷ b'd' ∷ b'p' ∷ []

abbrev pub pcp_host_newpos : List ℕ
pcp_host_newpos = b'n' ∷ b'e' ∷ b'w' ∷ b'p' ∷ []

abbrev pub pcp_host_uphost_ip : List ℕ
pcp_host_uphost_ip = b'u' ∷ b'p' ∷ b'i' ∷ b'p' ∷ []

abbrev pub pcp_host_uphost_port : List ℕ
pcp_host_uphost_port = b'u' ∷ b'p' ∷ b'p' ∷ b't' ∷ []

abbrev pub pcp_host_uphost_hops : List ℕ
pcp_host_uphost_hops = b'u' ∷ b'p' ∷ b'h' ∷ b'p' ∷ []

-- The number of children that `writeAtoms` announces.
abbrev pub num_children_of : Hit → GnuId → ℕ
num_children_of c chan =
    13
    + (if GnuId.is_set chan then 1 else 0)
    + (if is_set c.uphost.ip then 3 else 0)
    + (if c.version_ex_number == 0 then 0 else 2)

unfoldable pub first_atoms : Hit → List (List ℕ)
unfolding write_address
first_atoms c =
    write_bytes pcp_host_id c.session_id.id
    ∷ write_address pcp_host_ip c.rhost0.ip
    ∷ write_short_atom pcp_host_port c.rhost0.port
    ∷ write_address pcp_host_ip c.rhost1.ip
    ∷ write_short_atom pcp_host_port c.rhost1.port
    ∷ write_int_atom pcp_host_numl c.num_listeners
    ∷ write_int_atom pcp_host_numr c.num_relays
    ∷ write_int_atom pcp_host_uptime c.up_time
    ∷ write_int_atom pcp_host_version c.version
    ∷ write_int_atom pcp_host_version_vp c.version_vp
    ∷ []

abbrev pub ex_atoms : Hit → List (List ℕ)
ex_atoms c =
    write_bytes pcp_host_version_ex_prefix c.version_ex_prefix
    ∷ write_short_atom pcp_host_version_ex_number c.version_ex_number
    ∷ []

unfoldable pub last_atoms : Hit → List (List ℕ)
unfolding flags1
last_atoms c =
    write_char_atom pcp_host_flags1 (flags1 c)
    ∷ write_int_atom pcp_host_oldpos c.oldest_pos
    ∷ write_int_atom pcp_host_newpos c.newest_pos
    ∷ []

unfoldable pub uphost_atoms : Hit → List (List ℕ)
unfolding write_address
uphost_atoms c =
    write_address pcp_host_uphost_ip c.uphost.ip
    ∷ write_int_atom pcp_host_uphost_port c.uphost.port
    ∷ write_int_atom pcp_host_uphost_hops c.uphost_hops
    ∷ []

abbrev pub children_of : Hit → GnuId → List (List ℕ)
children_of c chan =
    when (GnuId.is_set chan) (write_bytes pcp_host_chanid chan.id ∷ [])
    ++ (first_atoms c
        ++ ((if c.version_ex_number == 0 then [] else ex_atoms c)
            ++ (last_atoms c ++ when (is_set c.uphost.ip) (uphost_atoms c))))

-- `writeAtoms(atom, chanID)`
unfoldable pub write_hit : Hit → GnuId → List ℕ
write_hit c chan = write_parent pcp_host (num_children_of c chan) ++ joined (children_of c chan)
