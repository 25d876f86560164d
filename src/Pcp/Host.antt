-- ===== src/Pcp/Host.antt =====
-- `readHostAtoms` of core/common/pcp.cpp: the message that makes a host known, which `ChanHit::writeAtoms`
-- writes, and what is done with it, by `findHitListByID`, `addHitList`, `addHit` and `delHit` of
-- core/common/chanmgr.cpp. `fuel` bounds the depth of atoms that are skipped.
pub mod Lists
pub mod Flags
pub mod Round
pub mod Whole
use peercast_yt.Prelude.{
  ℕ, ◌%◌, zero, suc, ◌+◌, Bool, true, false, ◌&&◌, not, Option, none, some, List, [], ◌∷◌, ltb,
  ◌==◌, if◌then◌else◌, bit_and, bytes_eq,
}
use peercast_yt.Address.{Ip, Host}
use peercast_yt.GnuId
use peercast_yt.GnuId.{GnuId}
use peercast_yt.Io.{Reader, pure, fail, ◌>>=◌, ◌>>◌, Result, ok, err}
use peercast_yt.Atom.{
  Header, read_header, read_int_data, read_short_data, read_char_data, read_bytes, read_address,
  skip_atom,
}
use peercast_yt.Pcp.{each_atom}
use peercast_yt.Hits.{Hit, new_hit, HitList, Node, add_hit, del_hit}
use peercast_yt.Hits.Atoms.{
  pcp_host_id, pcp_host_ip, pcp_host_port, pcp_host_numl, pcp_host_numr, pcp_host_uptime,
  pcp_host_chanid, pcp_host_version, pcp_host_version_vp, pcp_host_version_ex_prefix,
  pcp_host_version_ex_number, pcp_host_flags1, pcp_host_oldpos, pcp_host_newpos, pcp_host_uphost_ip,
  pcp_host_uphost_port, pcp_host_uphost_hops,
}

-- The loop's variables: `hit`, `chanID` and `ipNum`.
pub record Seen : Type 0 where
  pub hit : Hit
  pub chan : GnuId
  pub ip_num : ℕ

-- `hit.rhost[ipNum].ip = ip`
abbrev pub set_ip : Ip → Seen → Seen
set_ip a s = record s {
  hit =
      if s.ip_num == 0
      then record (s.hit) { rhost0 = record ((s.hit).rhost0) { ip = a } }
      else record (s.hit) { rhost1 = record ((s.hit).rhost1) { ip = a } };
}

-- `hit.rhost[ipNum++].port = port`, of an `unsigned short`, and the bound on `ipNum`.
abbrev pub set_port : ℕ → Seen → Seen
set_port p s = record s {
  hit =
      if s.ip_num == 0
      then record (s.hit) { rhost0 = record ((s.hit).rhost0) { port = p } }
      else record (s.hit) { rhost1 = record ((s.hit).rhost1) { port = p } };
  ip_num = if ltb 1 (s.ip_num + 1) then 1 else s.ip_num + 1;
}

abbrev pub has_flag : ℕ → ℕ → Bool
has_flag fl1 mask = not (bit_and fl1 mask == 0)

unfoldable pub set_flags : ℕ → Hit → Hit
set_flags fl1 c = record c {
  recv = has_flag fl1 0x10;
  relay = has_flag fl1 0x02;
  direct = has_flag fl1 0x04;
  cin = has_flag fl1 0x20;
  tracker = has_flag fl1 0x01;
  firewalled = has_flag fl1 0x08;
}

-- A value read, put into the hit.
abbrev pub into : {A : Type 0} → Reader A → (A → Hit → Hit) → Seen → Reader Seen
into m set s = do v ← m; pure (record s { hit = set v s.hit })

-- One round of the loop, behind the `read` of the atom's header.
unfoldable pub read_host_atom : ℕ → Header → Seen → Reader Seen
unfolding set_flags read_int_data read_short_data read_char_data read_bytes read_address skip_atom
read_host_atom fuel h s =
    if bytes_eq h.id pcp_host_ip
    then (do v ← read_address h; pure (set_ip v s))
    else if bytes_eq h.id pcp_host_port
    then (do v ← read_short_data h; pure (set_port (v % 65536) s))
    else if bytes_eq h.id pcp_host_numl
    then into (read_int_data h) (λ v c. record c { num_listeners = v }) s
    else if bytes_eq h.id pcp_host_numr
    then into (read_int_data h) (λ v c. record c { num_relays = v }) s
    else if bytes_eq h.id pcp_host_uptime
    then into (read_int_data h) (λ v c. record c { up_time = v }) s
    else if bytes_eq h.id pcp_host_oldpos
    then into (read_int_data h) (λ v c. record c { oldest_pos = v }) s
    else if bytes_eq h.id pcp_host_newpos
    then into (read_int_data h) (λ v c. record c { newest_pos = v }) s
    else if bytes_eq h.id pcp_host_version
    then into (read_int_data h) (λ v c. record c { version = v }) s
    else if bytes_eq h.id pcp_host_version_vp
    then into (read_int_data h) (λ v c. record c { version_vp = v }) s
    else if bytes_eq h.id pcp_host_version_ex_prefix
    then into (read_bytes h 2) (λ v c. record c { version_ex_prefix = v }) s
    else if bytes_eq h.id pcp_host_version_ex_number
    then into (read_short_data h) (λ v c. record c { version_ex_number = v }) s
    else if bytes_eq h.id pcp_host_flags1
    then into (read_char_data h) set_flags s
    else if bytes_eq h.id pcp_host_id
    then into (read_bytes h 16) (λ v c. record c { session_id = record (c.session_id) { id = v } })
        s
    else if bytes_eq h.id pcp_host_chanid
    then (do v ← read_bytes h 16; pure (record s { chan = record (s.chan) { id = v } }))
    else if bytes_eq h.id pcp_host_uphost_ip
    then into (read_address h) (λ v c. record c { uphost = record (c.uphost) { ip = v } }) s
    else if bytes_eq h.id pcp_host_uphost_port
    then into (read_int_data h)
        (λ v c. record c { uphost = record (c.uphost) { port = v % 65536 } }) s
    else if bytes_eq h.id pcp_host_uphost_hops
    then into (read_int_data h) (λ v c. record c { uphost_hops = v }) s
    else (do skip_atom fuel h.num_children h.num_data; pure s)

unfoldable pub read_host_loop : ℕ → ℕ → Seen → Reader Seen
unfolding read_host_atom each_atom
read_host_loop fuel = each_atom (read_host_atom fuel)

-- The hit that the message stands for, with `chanID` and `numHops` of the broadcast.
unfoldable pub read_host_atoms : ℕ → ℕ → GnuId → ℕ → Reader Hit
unfolding read_host_loop
read_host_atoms fuel numc chan hops = do
  s ← read_host_loop fuel numc (record { hit = new_hit; chan = chan; ip_num = 0 })
  pure (record (s.hit) { host = (s.hit).rhost0; chan_id = s.chan; num_hops = hops })

-- The hit lists of the channel manager, in the order of `next`.
pub record Listing : Type 0 where
  pub used : Bool
  pub list : HitList

abbrev pub is_list : GnuId → Listing → Bool
is_list id l = l.used && GnuId.is_same (l.list).info_id id

-- `findHitListByID(id)`, whether there is one.
abbrev pub has_list : GnuId → List Listing → Bool
has_list id [] = false
has_list id (l ∷ ls) = if is_list id l then true else has_list id ls

-- A call on the list that `findHitListByID` finds. `none` is the end of the fuel of its loop.
unfoldable pub on_list : (HitList → Option HitList) → GnuId → List Listing → Option (List Listing)
on_list call id [] = some []
on_list call id (l ∷ ls) = elim (is_list id l) [
  | true ↦ elim (call l.list) [ none ↦ none | some hl ↦ some (record l { list = hl } ∷ ls) ]
  | false ↦ elim (on_list call id ls) [ none ↦ none | some more ↦ some (l ∷ more) ]
]

-- `addHitList(info)`, of an `info` with that identifier: in front of the others.
abbrev pub add_hit_list : GnuId → List Listing → List Listing
add_hit_list id ls =
    record { used = true; list = record { info_id = id; hits = []; last_hit_time = 0 } } ∷ ls

abbrev pub added_list : Option (HitList × Option ℕ) → Option HitList
added_list none = none
added_list (some (hl, a)) = some hl

abbrev pub deleted_list : HitList → Option (List Node × ℕ) → Option HitList
deleted_list l none = none
deleted_list l (some (ns, cnt)) = some (record l { hits = ns })

-- `ChanMgr::addHit(h)` and `ChanMgr::delHit(h)`.
unfoldable pub mgr_add_hit : GnuId → ℕ → ℕ → Hit → List Listing → Option (List Listing)
unfolding add_hit on_list
mgr_add_hit session now fresh h ls =
    on_list (λ l. added_list (add_hit session now fresh l h)) h.chan_id
      (if has_list h.chan_id ls then ls else add_hit_list h.chan_id ls)

unfoldable pub mgr_del_hit : Hit → List Listing → Option (List Listing)
unfolding del_hit on_list
mgr_del_hit h ls = on_list (λ l. deleted_list l (del_hit h l.hits)) h.chan_id ls

-- What `readHostAtoms` does with the hit.
unfoldable pub take_hit : GnuId → ℕ → ℕ → Hit → List Listing → Option (List Listing)
unfolding mgr_add_hit mgr_del_hit
take_hit session now fresh h ls =
    if h.recv then mgr_add_hit session now fresh h ls else mgr_del_hit h ls
