-- ===== src/Atom/Tree/Skip.antt =====
-- `skip` on a tree of atoms.
use peercast_yt.Prelude.{
  ℕ, zero, suc, ◌≤◌, ◌≡◌, refl, false, List, [], ◌∷◌, ◌++◌, ◌==◌, arith, length, drop-append,
  length-append,
}
use mathlib.Core.List.{append_assoc}
use peercast_yt.Io.{ok}
use peercast_yt.Io.Words.{skip_lem}
use peercast_yt.Atom.{skip_children, skip_data, skip_atom}
use peercast_yt.Atom.Tree.{
  Tree, Forest, parent, leaf, nil, cons, count, encode, encode_all, atoms, atoms_all, IsTree,
  IsForest, header, body, read_header-encode, skip_next,
}

skip_data_lem : (b s : List ℕ) → skip_data (length b) (b ++ s) ≡ (ok tt, s)
skip_data_lem [] s = refl
skip_data_lem (x ∷ b) s =
    rw
      (
        nonzero,
        skip_lem (length (x ∷ b)) ((x ∷ b) ++ s) (omega (arith, length-append (x ∷ b) s)),
        drop-append (x ∷ b) s,
      )
      refl
  where
    nonzero : (suc (length b) == 0) ≡ false
    nonzero = ground arith

mutual
  unfolding skip_children skip_atom encode IsTree atoms

  skip_body :
      (t : Tree) (f : ℕ) (s : List ℕ)
      → atoms t ≤ f
      → IsTree t
      → skip_atom f ((header t).num_children) ((header t).num_data) (body t ++ s) ≡ (ok tt, s)
  skip_body (parent id ts) zero s k h = absurd (omega arith)
  skip_body (leaf id b) zero s k h = absurd (omega arith)
  skip_body (parent id ts) (suc f) s k h = skip_bodies ts f s (omega arith) (h.1.1)
  skip_body (leaf id b) (suc f) s k h = rw (skip_data_lem b s) refl

  skip_bodies :
      (ts : Forest) (f : ℕ) (s : List ℕ)
      → atoms_all ts ≤ f
      → IsForest ts
      → skip_children (skip_atom f) (count ts) (encode_all ts ++ s) ≡ (ok tt, s)
  skip_bodies nil f s k h = refl
  skip_bodies (cons t ts) f s k h =
      rw
        (
          append_assoc (encode t) (encode_all ts) s,
          read_header-encode t (encode_all ts ++ s) (h.0),
          skip_body t f (encode_all ts ++ s) (omega arith) (h.0),
          skip_bodies ts f s (omega arith) (h.1),
        )
        refl

-- `skip`, behind the `read` of an atom's header, on fuel for as many atoms as the tree has: it ends
-- and takes exactly the tree's bytes off the stream.
pub skip_next-encode :
    (t : Tree) (f : ℕ) (s : List ℕ)
    → atoms t ≤ f
    → IsTree t
    → skip_next f (encode t ++ s) ≡ (ok tt, s)
skip_next-encode t f s k h = rw (read_header-encode t s h) (skip_body t f s k h)
