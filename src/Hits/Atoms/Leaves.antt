-- ===== src/Hits/Atoms/Leaves.antt =====
-- The message of `writeAtoms` as a tree of atoms.
use peercast_yt.Prelude.{
  length-reverse, ℕ, suc, ◌+◌, ◌≤◌, ◌<◌, ◌≡◌, refl, sym, ap, ◌∙◌, inl, inr, subst, Bool, true,
  false, List, [], ◌∷◌, ◌++◌, ◌==◌, if◌then◌else◌, arith, All, length, Bool-cases, length-append,
  if-elim,
}
use mathlib.Core.List.{reverse}
use peercast_yt.Address.{Ip, is_set, is_ipv4_mapped, ipv4}
use peercast_yt.GnuId
use peercast_yt.GnuId.{GnuId}
use peercast_yt.Io.{ok, write_int, write_short, write_char}
use peercast_yt.Atom.{
  ipv4_word, write_parent, write_bytes, write_address, write_short_atom, write_int_atom, top_bit,
}
use peercast_yt.Atom.Tree.Copy.{copy_atom-int}
use peercast_yt.Atom.Tree.{
  Forest, parent, leaf, nil, cons, count, encode, encode_all, atoms, atoms_all, IsTree, IsForest,
  settled, settled_all, remake, copied_int, copy_atom,
}
use peercast_yt.Hits.{Hit, flags1}
use peercast_yt.Hits.Atoms.{
  joined, when, num_children_of, first_atoms, ex_atoms, last_atoms, uphost_atoms, children_of,
  write_hit, pcp_host, pcp_host_id, pcp_host_ip, pcp_host_port, pcp_host_numl, pcp_host_numr,
  pcp_host_uptime, pcp_host_chanid, pcp_host_version, pcp_host_version_vp,
  pcp_host_version_ex_prefix, pcp_host_version_ex_number, pcp_host_flags1, pcp_host_oldpos,
  pcp_host_newpos, pcp_host_uphost_ip, pcp_host_uphost_port, pcp_host_uphost_hops,
}

-- A write of one atom of data.
pub record IsLeaf (w : List ℕ) : Type 0 where
  pub id : List ℕ
  pub data_bytes : List ℕ
  pub four : length id ≡ 4
  pub small : length data_bytes < top_bit
  pub bytes : w ≡ write_bytes id data_bytes

-- The same writes as a forest of leaves.
pub record Leaves (ws : List (List ℕ)) : Type 0 where
  pub forest : Forest
  pub bytes : encode_all forest ≡ joined ws
  pub number : count forest ≡ length ws
  pub total : atoms_all forest ≡ length ws
  pub good : IsForest forest
  pub same : settled_all forest ≡ forest

leaves : (ws : List (List ℕ)) → All IsLeaf ws → Leaves ws
unfolding encode atoms IsTree settled
leaves [] h = record {
  forest = nil;
  bytes = refl;
  number = refl;
  total = refl;
  good = tt;
  same = refl;
}
leaves (w ∷ ws) h =
    let r = leaves ws h.1 in
    record {
      forest = cons (leaf (h.0).id (h.0).data_bytes) r.forest;
      bytes =
          ap (λ b. write_bytes (h.0).id (h.0).data_bytes ++ b) r.bytes
          ∙ ap (λ v. v ++ joined ws) (sym (h.0).bytes);
      number = ap suc r.number;
      total = omega (arith, r.total);
      good = (((h.0).four, (h.0).small), r.good);
      same = ap (cons (leaf (h.0).id (h.0).data_bytes)) r.same;
    }

-- The bytes of the hit fit their fields: addresses and identifiers of 16 bytes, a prefix of 2.
pub record IsSized (c : Hit) (chan : GnuId) : Type 0 where
  pub session : length c.session_id.id ≡ 16
  pub channel : length chan.id ≡ 16
  pub rhost0 : length c.rhost0.ip ≡ 16
  pub rhost1 : length c.rhost1.ip ≡ 16
  pub uphost : length c.uphost.ip ≡ 16
  pub prefix : length c.version_ex_prefix ≡ 2

data-IsLeaf : (id b : List ℕ) → length id ≡ 4 → length b < top_bit → IsLeaf (write_bytes id b)
data-IsLeaf id b f s = record { id = id; data_bytes = b; four = f; small = s; bytes = refl }

word-IsLeaf : (id : List ℕ) (v : ℕ) → length id ≡ 4 → IsLeaf (write_int_atom id v)
word-IsLeaf id v f = data-IsLeaf id (write_int v) f (omega arith)

short-IsLeaf : (id : List ℕ) (v : ℕ) → length id ≡ 4 → IsLeaf (write_short_atom id v)
short-IsLeaf id v f = data-IsLeaf id (write_short v) f (omega arith)

address-IsLeaf :
    (id : List ℕ) (ip : Ip) → length id ≡ 4 → length ip ≡ 16 → IsLeaf (write_address id ip)
unfolding write_address
address-IsLeaf id ip f s = elim (Bool-cases (is_ipv4_mapped ip)) [
  | inl mapped ↦ rw mapped (data-IsLeaf id (write_int (ipv4_word (ipv4 ip))) f (omega arith))
  | inr other ↦ rw other (
      subst (λ n. IsLeaf (id ++ (write_int n ++ reverse ip))) size
        (data-IsLeaf id (reverse ip) f (omega (arith, size))))
]
  where
    size : length (reverse ip) ≡ 16
    size = rw (length-reverse ip) s

first-IsLeaf : (c : Hit) (chan : GnuId) → IsSized c chan → All IsLeaf (first_atoms c)
unfolding first_atoms
first-IsLeaf c chan h = (
  data-IsLeaf pcp_host_id c.session_id.id refl (omega (arith, h.session)),
  (
    address-IsLeaf pcp_host_ip c.rhost0.ip refl h.rhost0,
    (
      short-IsLeaf pcp_host_port c.rhost0.port refl,
      (
        address-IsLeaf pcp_host_ip c.rhost1.ip refl h.rhost1,
        (
          short-IsLeaf pcp_host_port c.rhost1.port refl,
          (
            word-IsLeaf pcp_host_numl c.num_listeners refl,
            (
              word-IsLeaf pcp_host_numr c.num_relays refl,
              (
                word-IsLeaf pcp_host_uptime c.up_time refl,
                (
                  word-IsLeaf pcp_host_version c.version refl,
                  (word-IsLeaf pcp_host_version_vp c.version_vp refl, tt),
                ),
              ),
            ),
          ),
        ),
      ),
    ),
  ),
)

ex-IsLeaf : (c : Hit) (chan : GnuId) → IsSized c chan → All IsLeaf (ex_atoms c)
ex-IsLeaf c chan h = (
  data-IsLeaf pcp_host_version_ex_prefix c.version_ex_prefix refl (omega (arith, h.prefix)),
  (short-IsLeaf pcp_host_version_ex_number c.version_ex_number refl, tt),
)

last-IsLeaf : (c : Hit) → All IsLeaf (last_atoms c)
unfolding last_atoms
last-IsLeaf c = (
  data-IsLeaf pcp_host_flags1 (write_char (flags1 c)) refl (omega arith),
  (
    word-IsLeaf pcp_host_oldpos c.oldest_pos refl,
    (word-IsLeaf pcp_host_newpos c.newest_pos refl, tt),
  ),
)

uphost-IsLeaf : (c : Hit) (chan : GnuId) → IsSized c chan → All IsLeaf (uphost_atoms c)
unfolding uphost_atoms
uphost-IsLeaf c chan h = (
  address-IsLeaf pcp_host_uphost_ip c.uphost.ip refl h.uphost,
  (
    word-IsLeaf pcp_host_uphost_port c.uphost.port refl,
    (word-IsLeaf pcp_host_uphost_hops c.uphost_hops refl, tt),
  ),
)

All-append : (xs ys : List (List ℕ)) → All IsLeaf xs → All IsLeaf ys → All IsLeaf (xs ++ ys)
All-append [] ys h k = k
All-append (x ∷ xs) ys h k = (h.0, All-append xs ys h.1 k)

All-when : (b : Bool) (xs : List (List ℕ)) → All IsLeaf xs → All IsLeaf (when b xs)
All-when true xs h = h
All-when false xs h = tt

children-IsLeaf : (c : Hit) (chan : GnuId) → IsSized c chan → All IsLeaf (children_of c chan)
children-IsLeaf c chan h =
    All-append (when (GnuId.is_set chan) (write_bytes pcp_host_chanid chan.id ∷ [])) _
      (All-when (GnuId.is_set chan) (write_bytes pcp_host_chanid chan.id ∷ [])
        (data-IsLeaf pcp_host_chanid chan.id refl (omega (arith, h.channel)), tt))
      (All-append (first_atoms c) _ (first-IsLeaf c chan h) (
        All-append (if c.version_ex_number == 0 then [] else ex_atoms c) _
          (if-elim (All IsLeaf) (c.version_ex_number == 0) [] (ex_atoms c) (λ _. tt)
            (λ _. ex-IsLeaf c chan h))
          (All-append (last_atoms c) _ (last-IsLeaf c)
            (All-when (is_set c.uphost.ip) (uphost_atoms c) (uphost-IsLeaf c chan h)))))

length-when : (b : Bool) (xs : List (List ℕ)) → length (when b xs) ≡ (if b then length xs else 0)
length-when true xs = refl
length-when false xs = refl

length-append_five :
    (a b c d e : List (List ℕ))
    → length (a ++ (b ++ (c ++ (d ++ e))))
      ≡ length a + (length b + (length c + (length d + length e)))
length-append_five a b c d e = omega (
  arith,
  length-append a (b ++ (c ++ (d ++ e))),
  length-append b (c ++ (d ++ e)),
  length-append c (d ++ e),
  length-append d e,
)

length-first : (c : Hit) → length (first_atoms c) ≡ 10
unfolding first_atoms
length-first c = refl

length-last : (c : Hit) → length (last_atoms c) ≡ 3
unfolding last_atoms
length-last c = refl

length-uphost : (c : Hit) → length (uphost_atoms c) ≡ 3
unfolding uphost_atoms
length-uphost c = refl

-- As many atoms are written as the parent announces.
pub length-children_of :
    (c : Hit) (chan : GnuId) → length (children_of c chan) ≡ num_children_of c chan
length-children_of c chan =
    length-append_five (when (GnuId.is_set chan) (write_bytes pcp_host_chanid chan.id ∷ []))
      (first_atoms c) (if c.version_ex_number == 0 then [] else ex_atoms c) (last_atoms c)
      (when (is_set c.uphost.ip) (uphost_atoms c))
    ∙ rw (length-first c, length-last c) sum
  where
    sum :
        length (when (GnuId.is_set chan) (write_bytes pcp_host_chanid chan.id ∷ []))
          + (10
              + (length (if c.version_ex_number == 0 then [] else ex_atoms c)
                  + (3 + length (when (is_set c.uphost.ip) (uphost_atoms c)))))
        ≡ num_children_of c chan
    sum = ground (arith, length-uphost c)

top-settled :
    (ts : Forest)
    → 0 < count ts
    → settled_all ts ≡ ts
    → settled (parent pcp_host ts) ≡ parent pcp_host ts
unfolding settled
top-settled nil h e = absurd (omega arith)
top-settled (cons t ts) h e = ap (remake pcp_host) e

few_children :
    (c : Hit) (chan : GnuId) → (0 < num_children_of c chan) × (num_children_of c chan ≤ 19)
few_children c chan = ground arith

module _ (c : Hit) (chan : GnuId) (sized : IsSized c chan) where
  written : Leaves (children_of c chan)
  written = leaves (children_of c chan) (children-IsLeaf c chan sized)

  count-written : count written.forest ≡ num_children_of c chan
  count-written = written.number ∙ length-children_of c chan

  encode-written : encode (parent pcp_host written.forest) ≡ write_hit c chan
  unfolding encode write_hit
  encode-written =
      ap (λ n. write_parent pcp_host n ++ encode_all written.forest) count-written
      ∙ ap (λ b. write_parent pcp_host (num_children_of c chan) ++ b) written.bytes

  written-IsTree : IsTree (parent pcp_host written.forest)
  unfolding IsTree
  written-IsTree = (refl, (omega (arith, count-written, (few_children c chan).1), written.good))

-- The message as a tree.
pub record HostTree (c : Hit) (chan : GnuId) : Type 0 where
  pub forest : Forest
  pub bytes : encode (parent pcp_host forest) ≡ write_hit c chan
  pub good : IsTree (parent pcp_host forest)
  pub same : settled (parent pcp_host forest) ≡ parent pcp_host forest
  pub few : atoms (parent pcp_host forest) ≤ 20

pub host_tree : (c : Hit) (chan : GnuId) → IsSized c chan → HostTree c chan
unfolding atoms
host_tree c chan sized =
    let w = written c chan sized in
    let number = count-written c chan sized in
    let few = few_children c chan in
    record {
      forest = w.forest;
      bytes = encode-written c chan sized;
      good = written-IsTree c chan sized;
      same = top-settled w.forest (omega (arith, number, few.0)) w.same;
      few = omega (arith, w.total, w.number, number, few.1);
    }

-- The message of a hit whose fields have their sizes is one atom, with as many children as it
-- announces: `writeAtoms` of AtomStream, on fuel for 20 atoms or more, takes exactly the message off
-- the stream and writes the same bytes.
pub copy_atom-write_hit :
    (c : Hit) (chan : GnuId) (f : ℕ) (s : List ℕ)
    → IsSized c chan
    → 20 ≤ f
    → copy_atom f (write_hit c chan ++ s) ≡ (ok (copied_int (write_hit c chan)), s)
unfolding atoms
copy_atom-write_hit c chan f s sized h =
    let w = written c chan sized in
    let number = count-written c chan sized in
    let few = few_children c chan in
    subst (λ b. copy_atom f (b ++ s) ≡ (ok (copied_int b), s)) (encode-written c chan sized)
      (copy_atom-int (parent pcp_host w.forest) f s
          (omega (arith, w.total, w.number, number, few.1)) (written-IsTree c chan sized)
        ∙ ap (λ t. (ok (copied_int (encode t)), s))
            (top-settled w.forest (omega (arith, number, few.0)) w.same))
