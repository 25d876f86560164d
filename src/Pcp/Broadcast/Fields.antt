-- ===== src/Pcp/Broadcast/Fields.antt =====
-- The messages of a broadcast as lists of fields: their bytes, what is sent on, and what each field does to
-- the variables of `readBroadcastAtoms`.
use peercast_yt.Prelude.{ℕ, ◌+◌, ◌%◌, ◌≤◌, ◌<◌, ◌≡◌, false, List, [], ◌∷◌, ◌++◌, bytes_eq, length}
use peercast_yt.Prelude.Words.{add32, sub32}
use peercast_yt.GnuId
use peercast_yt.GnuId.{GnuId}
use peercast_yt.Io.{ok}
use peercast_yt.Atom.{write_bytes, write_int_atom, write_short_atom, write_char_atom}
use peercast_yt.Atom.Tree.{Tree, parent, leaf, encode, settled, IsTree, atoms}
use peercast_yt.Pcp.Broadcast.{
  BroadcastState, Loop, Handler, char_int, pcp_bcst_ttl, pcp_bcst_hops, pcp_bcst_from,
  pcp_bcst_dest, pcp_bcst_group, pcp_bcst_chanid, pcp_bcst_version, pcp_bcst_version_vp,
  pcp_bcst_version_ex_prefix, pcp_bcst_version_ex_number,
}

pub data Field : Type 0 where
  ttl hops group version version_vp ex_number : ℕ → Field
  from dest chan ex_prefix : List ℕ → Field
  other : Tree → Field

abbrev pub bytes : Field → List ℕ
bytes (ttl v) = write_char_atom pcp_bcst_ttl v
bytes (hops v) = write_char_atom pcp_bcst_hops v
bytes (group v) = write_char_atom pcp_bcst_group v
bytes (version v) = write_int_atom pcp_bcst_version v
bytes (version_vp v) = write_int_atom pcp_bcst_version_vp v
bytes (ex_number v) = write_short_atom pcp_bcst_version_ex_number v
bytes (from v) = write_bytes pcp_bcst_from v
bytes (dest v) = write_bytes pcp_bcst_dest v
bytes (chan v) = write_bytes pcp_bcst_chanid v
bytes (ex_prefix v) = write_bytes pcp_bcst_version_ex_prefix v
bytes (other t) = encode t

-- The field as the next peer gets it.
abbrev pub forward : Field → Field
forward (ttl v) = ttl ((v + 255) % 256)
forward (hops v) = hops ((v + 1) % 256)
forward (group v) = group v
forward (version v) = version v
forward (version_vp v) = version_vp v
forward (ex_number v) = ex_number v
forward (from v) = from v
forward (dest v) = dest v
forward (chan v) = chan v
forward (ex_prefix v) = ex_prefix v
forward (other t) = other (settled t)

abbrev pub top_id : Tree → List ℕ
top_id (parent id ts) = id
top_id (leaf id b) = id

-- An identifier that is no setting's.
abbrev pub IsOther : List ℕ → Type 0
IsOther id =
    (bytes_eq id pcp_bcst_ttl ≡ false)
    × (bytes_eq id pcp_bcst_hops ≡ false)
    × (bytes_eq id pcp_bcst_from ≡ false)
    × (bytes_eq id pcp_bcst_group ≡ false)
    × (bytes_eq id pcp_bcst_dest ≡ false)
    × (bytes_eq id pcp_bcst_chanid ≡ false)
    × (bytes_eq id pcp_bcst_version ≡ false)
    × (bytes_eq id pcp_bcst_version_vp ≡ false)
    × (bytes_eq id pcp_bcst_version_ex_prefix ≡ false)
    × (bytes_eq id pcp_bcst_version_ex_number ≡ false)

-- The values have the sizes that are written, and a tree is copied within the fuel.
abbrev pub IsField : ℕ → Field → Type 0
IsField fuel (ttl v) = v < 256
IsField fuel (hops v) = v < 256
IsField fuel (group v) = v < 256
IsField fuel (version v) = v < 4294967296
IsField fuel (version_vp v) = v < 4294967296
IsField fuel (ex_number v) = v < 65536
IsField fuel (from v) = length v ≡ 16
IsField fuel (dest v) = length v ≡ 16
IsField fuel (chan v) = length v ≡ 16
IsField fuel (ex_prefix v) = length v ≡ 2
IsField fuel (other t) = IsTree t × IsOther (top_id t) × (atoms t ≤ fuel)

abbrev pub size : List Field → ℕ
size [] = 0
size (f ∷ fs) = length (bytes (forward f)) + size fs

module _ {W : Type 0} (effect : Tree → BroadcastState × W → BroadcastState × W) (session : GnuId)
    (now : ℕ) where
  abbrev pub written : Field → Loop W → Loop W
  written f s = record s { out = s.out ++ bytes (forward f) }

  -- What a field does to the loop's variables, where `readAtom` has this effect on them.
  abbrev pub apply : Field → Loop W → Loop W
  apply (ttl v) s = written (ttl v) (record s { ttl = sub32 (char_int v) 1 })
  apply (hops v) s =
      written (hops v) (record s { bcs = record (s.bcs) { num_hops = add32 (char_int v) 1 } })
  apply (group v) s = written (group v) (record s { bcs = record (s.bcs) { group = char_int v } })
  apply (version v) s = written (version v) s
  apply (version_vp v) s = written (version_vp v) s
  apply (ex_number v) s = written (ex_number v) s
  apply (from v) s = written (from v) (record s {
    from = record (s.from) { id = v };
    route_list = GnuId.add now s.route_list (record (s.from) { id = v });
  })
  apply (dest v) s = written (dest v) (record s {
    dest = record (s.dest) { id = v };
    bcs = record (s.bcs) { for_me = bytes_eq v session.id };
  })
  apply (chan v) s =
      written (chan v)
        (record s { bcs = record (s.bcs) { chan_id = record ((s.bcs).chan_id) { id = v } } })
  apply (ex_prefix v) s = written (ex_prefix v) s
  apply (other t) s =
      let r = effect t (s.bcs, s.world) in written (other t) (record s { bcs = r.0; world = r.1 })

  abbrev pub apply_all : List Field → Loop W → Loop W
  apply_all [] s = s
  apply_all (f ∷ fs) s = apply_all fs (apply f s)

  -- `readAtom` takes the atom that was copied, and has that effect.
  abbrev pub Handles : Handler W → Field → Type 0
  Handles read_atom (ttl v) = Unit
  Handles read_atom (hops v) = Unit
  Handles read_atom (group v) = Unit
  Handles read_atom (version v) = Unit
  Handles read_atom (version_vp v) = Unit
  Handles read_atom (ex_number v) = Unit
  Handles read_atom (from v) = Unit
  Handles read_atom (dest v) = Unit
  Handles read_atom (chan v) = Unit
  Handles read_atom (ex_prefix v) = Unit
  Handles read_atom (other t) =
      (out : List ℕ) (b : BroadcastState) (w : W)
      → read_atom (out ++ encode (settled t)) (length out) b w
        ≡ record { result = ok (effect t (b, w)); left = out ++ encode (settled t) }
