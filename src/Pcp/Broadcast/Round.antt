-- ===== src/Pcp/Broadcast/Round.antt =====
-- `readBroadcastAtoms` on a message of fields: what is read, and what is sent on.
use peercast_yt.Prelude.{
  ℕ, suc, ◌+◌, ◌%◌, ◌≤◌, ◌<◌, ◌≡◌, refl, sym, ap, ◌∙◌, List, [], ◌∷◌, ◌++◌, arith, All, length, map,
  append_assoc, append-nil, length-append, le→leb,
}
use peercast_yt.Prelude.Words.{add32, sub32}
use peercast_yt.GnuId.{GnuId}
use peercast_yt.Io.Words.{write_short-int}
use peercast_yt.Io.{Reader, ok, bind_result, ◌>>=◌, write_int, write_short, write_char}
use peercast_yt.Atom.{
  Header, read_header, write_bytes, write_int_atom, write_short_atom, write_atoms, write_char_atom,
  read_char_data, read_int_data, read_short_data, read_bytes, top_bit, Copied,
}
use peercast_yt.Atom.Tree.{
  Tree, parent, leaf, encode, settled, copied_int, body, header, read_header-encode,
}
use peercast_yt.Atom.Tree.Copy.{copy_body}
use peercast_yt.Packet.{max_datalen}
use peercast_yt.Hits.Atoms.{joined}
use peercast_yt.Pcp.{each_atom}
use peercast_yt.Pcp.Steps.{
  bind_assoc, leaf_header, read_header-write_bytes, read_char-leaf, read_int-leaf, read_short-leaf,
  read_bytes-leaf,
}
use peercast_yt.Pcp.Broadcast.{
  BroadcastState, Loop, Handler, Handled, resume, put, char_int, with_hops, with_group, with_chan,
  with_dest, with_from, read_copied, read_bcst_atom, pcp_bcst_ttl, pcp_bcst_hops, pcp_bcst_from,
  pcp_bcst_dest, pcp_bcst_group, pcp_bcst_chanid, pcp_bcst_version, pcp_bcst_version_vp,
  pcp_bcst_version_ex_prefix, pcp_bcst_version_ex_number,
}
use peercast_yt.Pcp.Broadcast.Fields.{
  Field, ttl, hops, group, version, version_vp, ex_number, from, dest, chan, ex_prefix, other,
  bytes, forward, IsField, size, apply, apply_all, Handles, top_id, IsOther,
}

put-fits :
    {W : Type 0} (b : List ℕ) (s : Loop W) (t : List ℕ)
    → length s.out + length b ≤ max_datalen
    → put b s t ≡ (ok (record s { out = s.out ++ b }), t)
put-fits b s t h = rw (le→leb (length s.out + length b) max_datalen h) refl

module _ {W : Type 0} (read_atom : Handler W)
    (effect : Tree → BroadcastState × W → BroadcastState × W) (session : GnuId) (now fuel : ℕ) where
  -- One round of the loop, its header included.
  abbrev round : Loop W → Reader (Loop W)
  round s = read_header >>= λ h. read_bcst_atom read_atom session now fuel h s

  leaf-round :
      (id b : List ℕ) (s r : Loop W) (t : List ℕ)
      → length id ≡ 4
      → length b < top_bit
      → read_bcst_atom read_atom session now fuel (leaf_header id (length b)) s (b ++ t) ≡ (ok r, t)
      → round s (write_bytes id b ++ t) ≡ (ok r, t)
  leaf-round id b s r t four small h = rw (read_header-write_bytes id b t four small) h

  -- A setting of one byte, of which `w` makes what is written.
  char-round :
      (id : List ℕ) (w : ℕ → ℕ) (f : ℕ → Loop W → Loop W) (v v' : ℕ) (s : Loop W) (t : List ℕ)
      → length id ≡ 4
      → v < 256
      → w v % 256 ≡ v' % 256
      → length (f v s).out + length (write_char_atom id v') ≤ max_datalen
      → read_bcst_atom read_atom session now fuel (leaf_header id 1) s
        ≡ (read_char_data (leaf_header id 1) >>= λ v. put (write_char_atom id (w v)) (f v s))
      → round s (write_char_atom id v ++ t)
        ≡ (ok (record (f v s) { out = (f v s).out ++ write_char_atom id v' }), t)
  char-round id w f v v' s t four small low room dispatch =
      leaf-round id (write_char v) s _ t four (omega arith) (
        ap (λ m. m (write_char v ++ t)) dispatch
        ∙ ap (λ r. bind_result r (λ v. put (write_char_atom id (w v)) (f v s)))
            (read_char-leaf id v t small)
        ∙ ap (λ (n : ℕ). put (id ++ (write_int 1 ++ n ∷ [])) (f v s) t) low
        ∙ put-fits (write_char_atom id v') (f v s) t room)

  int-round :
      (id : List ℕ) (v : ℕ) (s : Loop W) (t : List ℕ)
      → length id ≡ 4
      → v < 4294967296
      → length s.out + length (write_int_atom id v) ≤ max_datalen
      → read_bcst_atom read_atom session now fuel (leaf_header id 4) s
        ≡ (read_int_data (leaf_header id 4) >>= λ v. put (write_int_atom id v) s)
      → round s (write_int_atom id v ++ t)
        ≡ (ok (record s { out = s.out ++ write_int_atom id v }), t)
  int-round id v s t four small room dispatch =
      leaf-round id (write_int v) s _ t four (omega arith) (
        ap (λ m. m (write_int v ++ t)) dispatch
        ∙ ap (λ r. bind_result r (λ v. put (write_int_atom id v) s)) (read_int-leaf id v t small)
        ∙ put-fits (write_int_atom id v) s t room)

  short-round :
      (id : List ℕ) (v : ℕ) (s : Loop W) (t : List ℕ)
      → length id ≡ 4
      → v < 65536
      → length s.out + length (write_short_atom id v) ≤ max_datalen
      → read_bcst_atom read_atom session now fuel (leaf_header id 2) s
        ≡ (read_short_data (leaf_header id 2) >>= λ v. put (write_short_atom id v) s)
      → round s (write_short_atom id v ++ t)
        ≡ (ok (record s { out = s.out ++ write_short_atom id v }), t)
  short-round id v s t four small room dispatch =
      leaf-round id (write_short v) s _ t four (omega arith) (
        ap (λ m. m (write_short v ++ t)) dispatch
        ∙ ap (λ r. bind_result r (λ v. put (write_short_atom id v) s))
            (read_short-leaf id v t small)
        ∙ ap (λ d. put (id ++ (write_int 2 ++ d)) s t) (write_short-int v small)
        ∙ put-fits (write_short_atom id v) s t room)

  bytes-round :
      (id v : List ℕ) (n : ℕ) (f : List ℕ → Loop W → Loop W) (s : Loop W) (t : List ℕ)
      → length id ≡ 4
      → length v ≡ n
      → n < top_bit
      → length (f v s).out + length (write_bytes id v) ≤ max_datalen
      → ((k : ℕ)
          → read_bcst_atom read_atom session now fuel (leaf_header id k) s
            ≡ (read_bytes (leaf_header id k) n >>= λ v. put (write_bytes id v) (f v s)))
      → round s (write_bytes id v ++ t)
        ≡ (ok (record (f v s) { out = (f v s).out ++ write_bytes id v }), t)
  bytes-round id v n f s t four size small room dispatch =
      leaf-round id v s _ t four (omega (arith, size, small)) (
        ap (λ m. m (v ++ t)) (dispatch (length v))
        ∙ ap (λ r. bind_result r (λ v. put (write_bytes id v) (f v s)))
            (read_bytes-leaf id v n t size)
        ∙ put-fits (write_bytes id v) (f v s) t room)

  -- The round on an atom that is no setting.
  abbrev copy_round : Header → Loop W → Reader (Loop W)
  copy_round h s = do
    c ← write_atoms fuel h.id h.num_children h.num_data
    copied ← put c.bytes s
    read_copied read_atom (length s.out) copied

  other-dispatch :
      (h : Header) (s : Loop W)
      → IsOther h.id
      → read_bcst_atom read_atom session now fuel h s ≡ copy_round h s
  unfolding read_bcst_atom
  other-dispatch h s (a, b, c, d, e, f, g, i, j, k) = rw (a, b, c, d, e, f, g, i, j, k) refl

  header-IsOther : (u : Tree) → IsOther (top_id u) → IsOther (header u).id
  header-IsOther (parent id ts) h = h
  header-IsOther (leaf id b) h = h

  copied-round :
      (u : Tree) (s : Loop W) (t : List ℕ)
      → Handles effect session now read_atom (other u)
      → length s.out + length (encode (settled u)) ≤ max_datalen
      → bind_result
          (ok (copied_int (encode (settled u))), t)
          (λ (c : Copied). put c.bytes s >>= read_copied read_atom (length s.out))
        ≡ (ok (apply effect session now (other u) s), t)
  copied-round u s t k room =
      ap (λ r. bind_result r (read_copied read_atom (length s.out)))
        (put-fits (encode (settled u)) s t room)
      ∙ ap
          (λ (h : Handled W).
            resume h.result h.left (record s { out = s.out ++ encode (settled u) }) t)
          (k s.out s.bcs s.world)

  other-round :
      (u : Tree) (s : Loop W) (t : List ℕ)
      → IsField fuel (other u)
      → Handles effect session now read_atom (other u)
      → length s.out + length (bytes (forward (other u))) ≤ max_datalen
      → round s (encode u ++ t) ≡ (ok (apply effect session now (other u) s), t)
  other-round u s t h k room =
      ap (λ r. bind_result r (λ h. read_bcst_atom read_atom session now fuel h s))
        (read_header-encode u t h.0)
      ∙ ap (λ m. m (body u ++ t)) (other-dispatch (header u) s (header-IsOther u h.1))
      ∙ ap (λ r. bind_result r (λ c. put c.bytes s >>= read_copied read_atom (length s.out)))
          (copy_body u fuel t h.2 h.0)
      ∙ copied-round u s t k room

  -- One round on a field.
  field-round :
      (f : Field) (s : Loop W) (t : List ℕ)
      → IsField fuel f
      → Handles effect session now read_atom f
      → length s.out + length (bytes (forward f)) ≤ max_datalen
      → round s (bytes f ++ t) ≡ (ok (apply effect session now f s), t)
  unfolding read_bcst_atom
  field-round (ttl v) s t h k room =
      char-round pcp_bcst_ttl (λ v. sub32 (char_int v) 1)
        (λ v s. record s { ttl = sub32 (char_int v) 1 }) v ((v + 255) % 256) s t refl h
        (ground arith) room refl
  field-round (hops v) s t h k room =
      char-round pcp_bcst_hops (λ v. add32 (char_int v) 1)
        (λ v s. with_hops (add32 (char_int v) 1) s) v ((v + 1) % 256) s t refl h (ground arith) room
        refl
  field-round (group v) s t h k room =
      char-round pcp_bcst_group char_int (λ v s. with_group (char_int v) s) v v s t refl h
        (ground arith) room refl
  field-round (version v) s t h k room = int-round pcp_bcst_version v s t refl h room refl
  field-round (version_vp v) s t h k room = int-round pcp_bcst_version_vp v s t refl h room refl
  field-round (ex_number v) s t h k room =
      short-round pcp_bcst_version_ex_number v s t refl h room refl
  field-round (from v) s t h k room =
      bytes-round pcp_bcst_from v 16 (with_from now) s t refl h (omega arith) room (λ n. refl)
  field-round (dest v) s t h k room =
      bytes-round pcp_bcst_dest v 16 (with_dest session) s t refl h (omega arith) room (λ n. refl)
  field-round (chan v) s t h k room =
      bytes-round pcp_bcst_chanid v 16 with_chan s t refl h (omega arith) room (λ n. refl)
  field-round (ex_prefix v) s t h k room =
      bytes-round pcp_bcst_version_ex_prefix v 2 (λ v s. s) s t refl h (omega arith) room
        (λ n. refl)
  field-round (other u) s t h k room = other-round u s t h k room

  apply-out :
      (f : Field) (s : Loop W) → (apply effect session now f s).out ≡ s.out ++ bytes (forward f)
  apply-out (ttl v) s = refl
  apply-out (hops v) s = refl
  apply-out (group v) s = refl
  apply-out (version v) s = refl
  apply-out (version_vp v) s = refl
  apply-out (ex_number v) s = refl
  apply-out (from v) s = refl
  apply-out (dest v) s = refl
  apply-out (chan v) s = refl
  apply-out (ex_prefix v) s = refl
  apply-out (other u) s = refl

  pub fields-loop :
      (fs : List Field) (s : Loop W) (t : List ℕ)
      → All (IsField fuel) fs
      → All (Handles effect session now read_atom) fs
      → length s.out + size fs ≤ max_datalen
      → each_atom
          (read_bcst_atom read_atom session now fuel)
          (length fs)
          s
          (joined (map bytes fs) ++ t)
        ≡ (ok (apply_all effect session now fs s), t)
  unfolding each_atom
  fields-loop [] s t h k room = refl
  fields-loop (f ∷ fs) s t h k room =
      ap (each_atom (read_bcst_atom read_atom session now fuel) (suc (length fs)) s)
        (append_assoc (bytes f) (joined (map bytes fs)) t)
      ∙ sym (
          bind_assoc (read_header (bytes f ++ (joined (map bytes fs) ++ t)))
            (λ h. read_bcst_atom read_atom session now fuel h s)
            (each_atom (read_bcst_atom read_atom session now fuel) (length fs)))
      ∙ ap (λ r. bind_result r (each_atom (read_bcst_atom read_atom session now fuel) (length fs)))
          (field-round f s (joined (map bytes fs) ++ t) h.0 k.0 (omega (arith, room)))
      ∙ fields-loop fs (apply effect session now f s) t h.1 k.1
          (omega (arith, room, ap length (apply-out f s), length-append s.out (bytes (forward f))))

  pub apply_all-out :
      (fs : List Field) (s : Loop W)
      → (apply_all effect session now fs s).out ≡ s.out ++ joined (map bytes (map forward fs))
  apply_all-out [] s = sym (append-nil s.out)
  apply_all-out (f ∷ fs) s =
      apply_all-out fs (apply effect session now f s)
      ∙ ap (λ o. o ++ joined (map bytes (map forward fs))) (apply-out f s)
      ∙ append_assoc s.out (bytes (forward f)) (joined (map bytes (map forward fs)))
