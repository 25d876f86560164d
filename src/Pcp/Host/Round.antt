-- ===== src/Pcp/Host/Round.antt =====
-- What `ChanHit::writeAtoms` writes, read by `readHostAtoms`.
use peercast_yt.Prelude.{
  ℕ, ◌%◌, ◌<◌, ◌≡◌, refl, sym, ap, ◌∙◌, subst, List, ◌++◌, arith, All, IsByte, length,
}
use peercast_yt.Address.{Ip}
use peercast_yt.Io.{short_int, pure, bind_result, write_int, write_short, write_char}
use peercast_yt.Atom.{
  read_int_data, read_short_data, write_bytes, write_address, write_int_atom, write_short_atom,
  write_char_atom,
}
use peercast_yt.Hits.{Hit}
use peercast_yt.Hits.Atoms.{
  pcp_host_id, pcp_host_ip, pcp_host_port, pcp_host_numl, pcp_host_numr, pcp_host_uptime,
  pcp_host_chanid, pcp_host_version, pcp_host_version_vp, pcp_host_version_ex_prefix,
  pcp_host_version_ex_number, pcp_host_flags1, pcp_host_oldpos, pcp_host_newpos, pcp_host_uphost_ip,
  pcp_host_uphost_port, pcp_host_uphost_hops,
}
use peercast_yt.Pcp.Host.{Seen, into, set_ip, set_port, set_flags, read_host_atom}
use peercast_yt.Pcp.Steps.{
  leaf_header, Reads, Reads-write_bytes, read_int-leaf, read_short-leaf, read_char-leaf,
  read_bytes-leaf, read_address-leaf, write_address-bytes, address_data,
}

abbrev pub on_hit : (Hit → Hit) → Seen → Seen
on_hit f s = record s { hit = f s.hit }

-- An identifier, the reading of its data, and what the value is put into.
short_int-small : (v : ℕ) → v < 32768 → short_int v ≡ v
short_int-small v h = ground arith

short_int-port : (v : ℕ) → v < 65536 → short_int v % 65536 ≡ v
short_int-port v h = ground arith

module _ (id : List ℕ) (four : length id ≡ 4) (set : ℕ → Hit → Hit) where
  word-Reads :
      ((fuel : ℕ) (s : Seen)
        → read_host_atom fuel (leaf_header id 4) s ≡ into (read_int_data (leaf_header id 4)) set s)
      → (v : ℕ) → v < 4294967296
      → Reads read_host_atom (write_int_atom id v) (on_hit (set v))
  word-Reads dispatch v small =
      Reads-write_bytes read_host_atom id (write_int v) four (omega arith) (on_hit (set v))
        (λ fuel s t.
          ap (λ m. m (write_int v ++ t)) (dispatch fuel s) ∙ rw (read_int-leaf id v t small) refl)

  short-Reads :
      ((fuel : ℕ) (s : Seen)
        → read_host_atom fuel (leaf_header id 2) s
          ≡ into (read_short_data (leaf_header id 2)) set s)
      → (v : ℕ) → v < 32768
      → Reads read_host_atom (write_short_atom id v) (on_hit (set v))
  short-Reads dispatch v small =
      Reads-write_bytes read_host_atom id (write_short v) four (omega arith) (on_hit (set v))
        (λ fuel s t.
          ap (λ m. m (write_short v ++ t)) (dispatch fuel s)
          ∙ rw (read_short-leaf id v t (omega arith), short_int-small v small) refl)

pub numl-Reads :
    (v : ℕ)
    → v < 4294967296
    → Reads read_host_atom
        (write_int_atom pcp_host_numl v)
        (on_hit (λ c. record c { num_listeners = v }))
unfolding read_host_atom
numl-Reads = word-Reads pcp_host_numl refl (λ v c. record c { num_listeners = v }) (λ fuel s. refl)

pub numr-Reads :
    (v : ℕ)
    → v < 4294967296
    → Reads read_host_atom
        (write_int_atom pcp_host_numr v)
        (on_hit (λ c. record c { num_relays = v }))
unfolding read_host_atom
numr-Reads = word-Reads pcp_host_numr refl (λ v c. record c { num_relays = v }) (λ fuel s. refl)

pub uptime-Reads :
    (v : ℕ)
    → v < 4294967296
    → Reads read_host_atom
        (write_int_atom pcp_host_uptime v)
        (on_hit (λ c. record c { up_time = v }))
unfolding read_host_atom
uptime-Reads = word-Reads pcp_host_uptime refl (λ v c. record c { up_time = v }) (λ fuel s. refl)

pub version-Reads :
    (v : ℕ)
    → v < 4294967296
    → Reads read_host_atom
        (write_int_atom pcp_host_version v)
        (on_hit (λ c. record c { version = v }))
unfolding read_host_atom
version-Reads = word-Reads pcp_host_version refl (λ v c. record c { version = v }) (λ fuel s. refl)

pub version_vp-Reads :
    (v : ℕ)
    → v < 4294967296
    → Reads read_host_atom
        (write_int_atom pcp_host_version_vp v)
        (on_hit (λ c. record c { version_vp = v }))
unfolding read_host_atom
version_vp-Reads =
    word-Reads pcp_host_version_vp refl (λ v c. record c { version_vp = v }) (λ fuel s. refl)

pub oldpos-Reads :
    (v : ℕ)
    → v < 4294967296
    → Reads read_host_atom
        (write_int_atom pcp_host_oldpos v)
        (on_hit (λ c. record c { oldest_pos = v }))
unfolding read_host_atom
oldpos-Reads = word-Reads pcp_host_oldpos refl (λ v c. record c { oldest_pos = v }) (λ fuel s. refl)

pub newpos-Reads :
    (v : ℕ)
    → v < 4294967296
    → Reads read_host_atom
        (write_int_atom pcp_host_newpos v)
        (on_hit (λ c. record c { newest_pos = v }))
unfolding read_host_atom
newpos-Reads = word-Reads pcp_host_newpos refl (λ v c. record c { newest_pos = v }) (λ fuel s. refl)

pub uphost_hops-Reads :
    (v : ℕ)
    → v < 4294967296
    → Reads read_host_atom
        (write_int_atom pcp_host_uphost_hops v)
        (on_hit (λ c. record c { uphost_hops = v }))
unfolding read_host_atom
uphost_hops-Reads =
    word-Reads pcp_host_uphost_hops refl (λ v c. record c { uphost_hops = v }) (λ fuel s. refl)

pub uphost_port-Reads :
    (v : ℕ)
    → v < 65536
    → Reads read_host_atom
        (write_int_atom pcp_host_uphost_port v)
        (on_hit (λ c. record c { uphost = record (c.uphost) { port = v } }))
unfolding read_host_atom
uphost_port-Reads v small =
    subst
      (λ n.
        Reads read_host_atom (write_int_atom pcp_host_uphost_port v)
          (on_hit (λ c. record c { uphost = record (c.uphost) { port = n } })))
      (omega (arith, small))
      (word-Reads pcp_host_uphost_port refl
        (λ v c. record c { uphost = record (c.uphost) { port = v % 65536 } }) (λ fuel s. refl) v
        (omega arith))

pub ex_number-Reads :
    (v : ℕ)
    → v < 32768
    → Reads read_host_atom
        (write_short_atom pcp_host_version_ex_number v)
        (on_hit (λ c. record c { version_ex_number = v }))
unfolding read_host_atom
ex_number-Reads =
    short-Reads pcp_host_version_ex_number refl (λ v c. record c { version_ex_number = v })
      (λ fuel s. refl)

pub port-Reads :
    (v : ℕ) → v < 65536 → Reads read_host_atom (write_short_atom pcp_host_port v) (set_port v)
unfolding read_host_atom
port-Reads v small =
    Reads-write_bytes read_host_atom pcp_host_port (write_short v) refl (omega arith) (set_port v)
      (λ fuel s t.
        rw (read_short-leaf pcp_host_port v t small, short_int-port v small, read_host_atom) refl)

pub flags-Reads :
    (v : ℕ)
    → v < 256
    → Reads read_host_atom (write_char_atom pcp_host_flags1 v) (on_hit (set_flags v))
unfolding read_host_atom
flags-Reads v small =
    Reads-write_bytes read_host_atom pcp_host_flags1 (write_char v) refl (omega arith)
      (on_hit (set_flags v))
      (λ fuel s t.
        ap (λ r. bind_result r (λ n. pure (on_hit (set_flags n) s)))
          (read_char-leaf pcp_host_flags1 v t small))

module _ (b : List ℕ) where
  pub session-Reads :
      length b ≡ 16
      → Reads read_host_atom
          (write_bytes pcp_host_id b)
          (on_hit (λ c. record c { session_id = record (c.session_id) { id = b } }))
  unfolding read_host_atom
  session-Reads size =
      Reads-write_bytes read_host_atom pcp_host_id b refl (omega (arith, size)) _
        (λ fuel s t. rw (read_bytes-leaf pcp_host_id b 16 t size, read_host_atom) refl)

  pub chan-Reads :
      length b ≡ 16
      → Reads read_host_atom
          (write_bytes pcp_host_chanid b)
          (λ s. record s { chan = record (s.chan) { id = b } })
  unfolding read_host_atom
  chan-Reads size =
      Reads-write_bytes read_host_atom pcp_host_chanid b refl (omega (arith, size)) _
        (λ fuel s t. rw (read_bytes-leaf pcp_host_chanid b 16 t size, read_host_atom) refl)

  pub ex_prefix-Reads :
      length b ≡ 2
      → Reads read_host_atom
          (write_bytes pcp_host_version_ex_prefix b)
          (on_hit (λ c. record c { version_ex_prefix = b }))
  unfolding read_host_atom
  ex_prefix-Reads size =
      Reads-write_bytes read_host_atom pcp_host_version_ex_prefix b refl (omega (arith, size)) _
        (λ fuel s t.
          rw (read_bytes-leaf pcp_host_version_ex_prefix b 2 t size, read_host_atom) refl)

module _ (ip : Ip) (size : length ip ≡ 16) (bytes : All IsByte ip) where
  pub ip-Reads : Reads read_host_atom (write_address pcp_host_ip ip) (set_ip ip)
  unfolding read_host_atom
  ip-Reads =
      subst (λ w. Reads read_host_atom w (set_ip ip))
        (sym (write_address-bytes pcp_host_ip ip size).0)
        (Reads-write_bytes read_host_atom pcp_host_ip (address_data ip) refl
          ((write_address-bytes pcp_host_ip ip size).1) (set_ip ip)
          (λ fuel s t.
            rw (read_address-leaf pcp_host_ip ip t refl size bytes, read_host_atom) refl))

  pub uphost_ip-Reads :
      Reads read_host_atom
        (write_address pcp_host_uphost_ip ip)
        (on_hit (λ c. record c { uphost = record (c.uphost) { ip = ip } }))
  unfolding read_host_atom
  uphost_ip-Reads =
      subst
        (λ w.
          Reads read_host_atom w
            (on_hit (λ c. record c { uphost = record (c.uphost) { ip = ip } })))
        (sym (write_address-bytes pcp_host_uphost_ip ip size).0)
        (Reads-write_bytes read_host_atom pcp_host_uphost_ip (address_data ip) refl
          ((write_address-bytes pcp_host_uphost_ip ip size).1) _
          (λ fuel s t.
            rw (read_address-leaf pcp_host_uphost_ip ip t refl size bytes, read_host_atom) refl))
