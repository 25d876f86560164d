-- ===== src/Pcp/Info/Text.antt =====
-- Texts in arrays, and `readString` of a text that `writeString` wrote.
use peercast_yt.Prelude.{
  ℕ, zero, suc, ◌+◌, ◌≤◌, ◌<◌, ◌≡◌, refl, sym, ap, ◌∙◌, true, List, [], ◌∷◌, ◌++◌, ◌==◌, ltb, arith,
  length, subst, ◌-◌, drop, set, append_assoc, Bool-cases, inl, inr,
}
use peercast_yt.Text.Split.{c_str}
use peercast_yt.Io.{ok, err, bad_atom, bind_result, pure, skip, skip_loop, ◌>>◌}
use peercast_yt.Io.Words.{read-append}
use peercast_yt.Atom.{read_bytes}
use peercast_yt.Pcp.Steps.{leaf_header}
use peercast_yt.Pcp.Info.{max_len, strcpy, read_string}

pub c_str-closed : (s r : List ℕ) → c_str (c_str s ++ 0 ∷ r) ≡ c_str s
unfolding c_str
c_str-closed [] r = refl
c_str-closed (c ∷ s) r = elim (Bool-cases (c == 0)) [
  | inl e ↦ rw e refl
  | inr e ↦ rw e (rw e (ap (λ t. c ∷ t) (c_str-closed s r)))
]

pub c_str-strcpy : (dest src : List ℕ) → c_str (strcpy dest src) ≡ c_str src
c_str-strcpy dest src = c_str-closed src (drop (length (c_str src) + 1) dest)

-- A NUL behind a text changes nothing of it.
set-behind :
    (t r : List ℕ) (i : ℕ) → length t ≤ i → (r' : List ℕ) × (set (t ++ 0 ∷ r) i 0 ≡ t ++ 0 ∷ r')
set-behind [] r zero h = (r, refl)
set-behind [] r (suc i) h = (set r i 0, refl)
set-behind (c ∷ t) r zero h = absurd (omega arith)
set-behind (c ∷ t) r (suc i) h =
    let (r', e) = set-behind t r i (omega arith) in (r', ap (λ x. c ∷ x) e)

pub c_str-set :
    (s r : List ℕ) (i : ℕ) → length (c_str s) ≤ i → c_str (set (c_str s ++ 0 ∷ r) i 0) ≡ c_str s
c_str-set s r i h = let (r', e) = set-behind (c_str s) r i h in ap c_str e ∙ c_str-closed s r'

-- The array `old` behind the reading of a text and its NUL.
abbrev pub stored : List ℕ → List ℕ → List ℕ
stored t old = set ((t ++ 0 ∷ []) ++ drop (length (t ++ 0 ∷ [])) old) 255 0

pub c_str-stored :
    (s old : List ℕ) → length (c_str s) < max_len → c_str (stored (c_str s) old) ≡ c_str s
c_str-stored s old h =
    ap (λ x. c_str (set x 255 0))
      (append_assoc (c_str s) (0 ∷ []) (drop (length (c_str s ++ 0 ∷ [])) old))
    ∙ c_str-set s (drop (length (c_str s ++ 0 ∷ [])) old) 255 (omega arith)

same : (n : ℕ) → (n == n) ≡ true
same n = ground arith

-- Data that fits is read, and put before what is left of the array.
pub read_string-fits :
    (id b old t : List ℕ)
    → length b ≤ max_len
    → read_string (leaf_header id (length b)) max_len (length b) old (b ++ t)
      ≡ (ok (set (b ++ drop (length b) old) 255 0), t)
unfolding read_string skip_loop
read_string-fits id b old t h = elim (Bool-cases (ltb (length b) max_len)) [
  | inl e ↦ rw (same (length b), e, read-append b t) refl
  | inr e ↦
      let full : max_len ≡ length b = ground arith in
      rw (same (length b), e)
        (subst
          (λ n.
            bind_result
              (bind_result (read_bytes (leaf_header id (length b)) n (b ++ t))
                (λ c. skip (length b - n) >> pure c))
              (λ c. pure (set (c ++ drop (length c) old) 255 0))
            ≡ (ok (set (b ++ drop (length b) old) 255 0), t))
          (sym full) (rw (same (length b), read-append b t) (rw (none_left (length b)) refl)))
]
  where
    none_left : (n : ℕ) → n - n ≡ 0
    none_left n = omega arith

-- `readString` of an atom's data that is longer than the array of 256 bytes throws, and takes nothing of it off
-- the stream: the call of `readBytes(s, max)`, which is there to cut the data, tests their size again.
pub read_string-long :
    (id old s : List ℕ) (n : ℕ)
    → max_len < n
    → read_string (leaf_header id n) max_len n old s ≡ (err bad_atom, s)
unfolding read_string
read_string-long id old s n h = rw (same n) (ground arith)
