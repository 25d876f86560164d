-- ===== src/Atom/Tree/Copy.antt =====
-- `writeAtoms` on a tree of atoms.
use peercast_yt.Prelude.{
  ℕ, zero, suc, ◌+◌, ◌%◌, ◌≤◌, ◌<◌, ◌≡◌, refl, sym, ap, ◌∙◌, false, List, [], ◌++◌, ◌==◌, arith,
  length, take-append, drop-append, length-append,
}
use mathlib.Core.List.{append_assoc}
use peercast_yt.Io.{ok, pure, bind_result, write_int}
use peercast_yt.Io.Words.{write_to_lem}
use peercast_yt.Atom.{
  write_parent, write_bytes, with_top, Copied, copy_leaf, copy_children, write_atoms,
}
use peercast_yt.Atom.Tree.{
  Tree, Forest, parent, leaf, nil, cons, count, encode, encode_all, atoms, atoms_all, IsTree,
  IsForest, remake, settled, settled_all, count-settled, header, body, read_header-encode,
  copy_atom, copied, copied_int,
}

write_header : (id : List ℕ) (v : ℕ) → length id ≡ 4 → length (id ++ write_int v) ≡ 8
write_header id v h = omega (arith, length-append id (write_int v), h)

copy_leaf_lem :
    (id b s : List ℕ)
    → length id ≡ 4
    → copy_leaf id (length b) (b ++ s) ≡ (ok (copied_int (write_bytes id b)), s)
copy_leaf_lem id b s four =
    rw
      (
        write_to_lem (length b) (b ++ s) (omega (arith, length-append b s)),
        take-append b s,
        drop-append b s,
        sym size,
      )
      refl
  where
    size : length (write_bytes id b) ≡ 8 + length b
    size = omega (
      arith,
      length-append id (write_int (length b) ++ b),
      length-append (write_int (length b)) b,
      four,
    )

-- Sums of words.
parent_int : (a n : ℕ) → n ≡ 8 + a → (8 + a % 4294967296) % 4294967296 ≡ n % 4294967296
parent_int a n e = omega (arith, e)

add_int : (a b n : ℕ) → n ≡ a + b → (a % 4294967296 + b % 4294967296) % 4294967296 ≡ n % 4294967296
add_int a b n e = omega (arith, e)

abbrev under_parent : List ℕ → ℕ → Copied → Copied
under_parent id n y = record {
  bytes = write_parent id n ++ y.bytes;
  total = (8 + y.total) % 4294967296;
}

copy_parent :
    (f : ℕ) (id : List ℕ) (ts : Forest) (s : List ℕ)
    → length id ≡ 4
    → copy_children (write_atoms f) (count ts) (encode_all ts ++ s)
      ≡ (ok (copied_int (encode_all (settled_all ts))), s)
    → write_atoms (suc f) id (count ts) 0 (encode_all ts ++ s)
      ≡ (ok (copied_int (encode (remake id (settled_all ts)))), s)
unfolding write_atoms encode settled
copy_parent f id nil s four e = copy_leaf_lem id [] s four
copy_parent f id (cons t ts) s four e = rw nonzero (
    ap (λ r. bind_result r (λ y. pure (under_parent id (suc (count ts)) y))) e
    ∙ rw (count-settled ts, parent_int _ _ size) refl)
  where
    nonzero : (suc (count ts) == 0) ≡ false
    nonzero = ground arith

    size :
        length (write_parent id (suc (count ts)) ++ encode_all (settled_all (cons t ts)))
        ≡ 8 + length (encode_all (settled_all (cons t ts)))
    size = omega (
      arith,
      length-append (write_parent id (suc (count ts))) (encode_all (settled_all (cons t ts))),
      write_header id (with_top (suc (count ts))) four,
    )

mutual
  unfolding copy_children write_atoms encode IsTree atoms settled

  pub copy_body :
      (t : Tree) (f : ℕ) (s : List ℕ)
      → atoms t ≤ f
      → IsTree t
      → write_atoms f ((header t).id) ((header t).num_children) ((header t).num_data) (body t ++ s)
        ≡ (ok (copied_int (encode (settled t))), s)
  copy_body (parent id ts) zero s k h = absurd (omega arith)
  copy_body (leaf id b) zero s k h = absurd (omega arith)
  copy_body (parent id ts) (suc f) s k h =
      copy_parent f id ts s (h.0) (copy_bodies ts f s (omega arith) (h.1.1))
  copy_body (leaf id b) (suc f) s k h = copy_leaf_lem id b s (h.0)

  copy_bodies :
      (ts : Forest) (f : ℕ) (s : List ℕ)
      → atoms_all ts ≤ f
      → IsForest ts
      → copy_children (write_atoms f) (count ts) (encode_all ts ++ s)
        ≡ (ok (copied_int (encode_all (settled_all ts))), s)
  copy_bodies nil f s k h = refl
  copy_bodies (cons t ts) f s k h =
      rw
        (
          append_assoc (encode t) (encode_all ts) s,
          read_header-encode t (encode_all ts ++ s) (h.0),
          copy_body t f (encode_all ts ++ s) (omega arith) (h.0),
          copy_bodies ts f s (omega arith) (h.1),
          add_int _ _ _ (length-append (encode (settled t)) (encode_all (settled_all ts))),
        )
        refl

pub copy_atom-int :
    (t : Tree) (f : ℕ) (s : List ℕ)
    → atoms t ≤ f
    → IsTree t
    → copy_atom f (encode t ++ s) ≡ (ok (copied_int (encode (settled t))), s)
copy_atom-int t f s k h = rw (read_header-encode t s h) (copy_body t f s k h)

-- `writeAtoms`, behind the `read` of an atom's header, on fuel for as many atoms as the tree has:
-- it ends, takes exactly the tree's bytes off the stream, and writes the bytes of the same tree,
-- but that a parent without children comes out as a leaf without data; the total that it returns
-- is the number of bytes it writes, which is below 2 ^ 31.
pub copy_atom-encode :
    (t : Tree) (f : ℕ) (s : List ℕ)
    → atoms t ≤ f
    → IsTree t
    → length (encode (settled t)) < 2147483648
    → copy_atom f (encode t ++ s) ≡ (ok (copied (encode (settled t))), s)
copy_atom-encode t f s k h small =
    copy_atom-int t f s k h
    ∙ ap (λ n. (ok (record { bytes = encode (settled t); total = n }), s)) (omega (arith, small))
