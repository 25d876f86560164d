-- ===== src/Atom/Tree.antt =====
-- Trees of atoms, as they stand in the stream.
pub mod Copy
pub mod Skip
use peercast_yt.Prelude.{
  ℕ, zero, suc, ◌+◌, ◌%◌, ◌≤◌, ◌<◌, ◌≡◌, refl, sym, ap, ◌∙◌, false, List, [], ◌∷◌, ◌++◌, ◌==◌,
  arith, length, take-append, drop-append, length-append,
}
use mathlib.Core.List.{append_assoc}
use peercast_yt.Io.{ok, Reader, pure, bind_result, ◌>>=◌, read_id4, write_int}
use peercast_yt.Io.Words.{read-append, read_int-write_int, skip_lem, write_to_lem}
use peercast_yt.Atom.{
  Header, header_of, read_header, write_parent, write_bytes, with_top, top_bit, skip_children,
  skip_data, skip_atom, Copied, copy_leaf, copy_children, write_atoms,
}

mutual
  pub data Tree : Type 0 where
    parent : List ℕ → Forest → Tree
    leaf : List ℕ → List ℕ → Tree

  pub data Forest : Type 0 where
    nil : Forest
    cons : Tree → Forest → Forest

abbrev pub count : Forest → ℕ
count nil = 0
count (cons t ts) = suc (count ts)

-- The bytes of a tree.
unfoldable mutual
  pub encode : Tree → List ℕ
  encode (parent id ts) = write_parent id (count ts) ++ encode_all ts
  encode (leaf id b) = write_bytes id b

  pub encode_all : Forest → List ℕ
  encode_all nil = []
  encode_all (cons t ts) = encode t ++ encode_all ts

-- Its number of atoms.
unfoldable mutual
  pub atoms : Tree → ℕ
  atoms (parent id ts) = suc (atoms_all ts)
  atoms (leaf id b) = 1

  pub atoms_all : Forest → ℕ
  atoms_all nil = 0
  atoms_all (cons t ts) = atoms t + atoms_all ts

-- IDs of four bytes, and numbers that leave the top bit of a word free.
unfoldable mutual
  pub IsTree : Tree → Type 0
  IsTree (parent id ts) = (length id ≡ 4) × ((count ts < top_bit) × IsForest ts)
  IsTree (leaf id b) = (length id ≡ 4) × (length b < top_bit)

  pub IsForest : Forest → Type 0
  IsForest nil = Unit
  IsForest (cons t ts) = IsTree t × IsForest ts

-- The same tree with each parent that has no children made a leaf that has no data.
abbrev pub remake : List ℕ → Forest → Tree
remake id nil = leaf id []
remake id (cons t ts) = parent id (cons t ts)

unfoldable mutual
  pub settled : Tree → Tree
  settled (parent id ts) = remake id (settled_all ts)
  settled (leaf id b) = leaf id b

  pub settled_all : Forest → Forest
  settled_all nil = nil
  settled_all (cons t ts) = cons (settled t) (settled_all ts)

pub count-settled : (ts : Forest) → count (settled_all ts) ≡ count ts
unfolding settled_all
count-settled nil = refl
count-settled (cons t ts) = ap suc (count-settled ts)

-- What a header says of a tree, and the bytes that come after it.
abbrev pub header : Tree → Header
header (parent id ts) = record { id = id; num_children = count ts; num_data = 0 }
header (leaf id b) = record { id = id; num_children = 0; num_data = length b }

abbrev pub body : Tree → List ℕ
body (parent id ts) = encode_all ts
body (leaf id b) = b

read_id4-append : (id s : List ℕ) → length id ≡ 4 → read_id4 (id ++ s) ≡ (ok id, s)
unfolding read_id4
read_id4-append id s four = rw (sym four) (read-append id s)

pub read_words :
    (id : List ℕ) (v : ℕ) (s : List ℕ)
    → length id ≡ 4
    → v < 4294967296
    → read_header (id ++ (write_int v ++ s)) ≡ (ok (header_of id v), s)
unfolding read_header
read_words id v s four small =
    rw (read_id4-append id (write_int v ++ s) four, read_int-write_int v s small) refl

pub header-parent :
    (id : List ℕ) (n : ℕ)
    → n < top_bit
    → header_of id (with_top n) ≡ record { id = id; num_children = n; num_data = 0 }
header-parent id n h = ground arith

header-leaf :
    (id : List ℕ) (n : ℕ)
    → n < top_bit
    → header_of id n ≡ record { id = id; num_children = 0; num_data = n }
header-leaf id n h = ground arith

pub read_header-encode :
    (t : Tree) (s : List ℕ) → IsTree t → read_header (encode t ++ s) ≡ (ok (header t), body t ++ s)
unfolding encode IsTree
read_header-encode (parent id ts) s h =
    rw
      (
        append_assoc (write_parent id (count ts)) (encode_all ts) s,
        append_assoc id (write_int (with_top (count ts))) (encode_all ts ++ s),
        read_words id (with_top (count ts)) (encode_all ts ++ s) (h.0) (omega arith),
      )
      (ap (λ k. (ok k, encode_all ts ++ s)) (header-parent id (count ts) (h.1.0)))
read_header-encode (leaf id b) s h =
    rw
      (
        append_assoc id (write_int (length b) ++ b) s,
        append_assoc (write_int (length b)) b s,
        read_words id (length b) (b ++ s) (h.0) (omega (arith, h.1)),
      )
      (ap (λ k. (ok k, b ++ s)) (header-leaf id (length b) (h.1)))

-- `writeAtoms` and `skip`, each behind the `read` of the atom's header.
abbrev pub copy_atom : ℕ → Reader Copied
copy_atom f = read_header >>= λ h. write_atoms f h.id h.num_children h.num_data

abbrev pub skip_next : ℕ → Reader (Unit {0})
skip_next f = read_header >>= λ h. skip_atom f h.num_children h.num_data

abbrev pub copied : List ℕ → Copied
copied b = record { bytes = b; total = length b }

-- The same with the total as the word of an `int`.
abbrev pub copied_int : List ℕ → Copied
copied_int b = record { bytes = b; total = length b % 4294967296 }
