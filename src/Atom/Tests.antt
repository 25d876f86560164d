-- ===== src/Atom/Tests.antt =====
-- A concrete tree of atoms.
use peercast_yt.Prelude.{◌≡◌, arith, [], ◌∷◌, ◌++◌}
use peercast_yt.Io.{ok}
use peercast_yt.Atom.Tree.Copy.{copy_atom-encode}
use peercast_yt.Atom.Tree.{
  Tree, parent, leaf, nil, cons, encode, settled, copied, copy_atom, atoms, IsTree,
}

-- A `quit` in a `root`, and a parent without children.
abbrev sample_tree : Tree
sample_tree = parent (b'r' ∷ b'o' ∷ b'o' ∷ b't' ∷ []) (
    cons (leaf (b'q' ∷ b'u' ∷ b'i' ∷ b't' ∷ []) (1 ∷ 2 ∷ []))
      (cons (parent (b'h' ∷ b'o' ∷ b's' ∷ b't' ∷ []) nil) nil))

sample_tree-IsTree : IsTree sample_tree
unfolding IsTree
sample_tree-IsTree = omega arith

copy_atom-encode_example :
    copy_atom 3 (encode sample_tree ++ 5 ∷ [])
    ≡ (ok (copied (encode (settled sample_tree))), 5 ∷ [])
unfolding atoms encode settled
copy_atom-encode_example =
    copy_atom-encode sample_tree 3 (5 ∷ []) (omega arith) sample_tree-IsTree (omega arith)
