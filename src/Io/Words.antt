-- ===== src/Io/Words.antt =====
-- The words and blocks of `Stream`, read and written.
use peercast_yt.Prelude.{
  ℕ, zero, suc, ◌-◌, ◌≤◌, ◌<◌, ◌≡◌, ◌≢◌, refl, ap, ap₂, true, false, List, [], ◌∷◌, ◌++◌, leb, ◌==◌,
  arith, take, drop, length, take-append, drop-append, length-append, length-drop, ℕ_discrete,
}
use peercast_yt.Io.{
  ok, read, read_short, short_int, from_le, read_int, write_short, write_int, block_of, skip_loop,
  skip, write_to_loop, write_to,
}

-- A read of as many bytes as come first gives them, and leaves the rest.
pub read-append : (b s : List ℕ) → read (length b) (b ++ s) ≡ (ok b, s)
unfolding read
read-append b s = rw (enough, take-append b s, drop-append b s)
  where
    enough : leb (length b) (length (b ++ s)) ≡ true
    enough = ground (arith, length-append b s)

-- A 32-bit word that `writeInt` wrote is what `readInt` reads, and the rest of the stream is left.
pub read_int-write_int :
    (v : ℕ) (s : List ℕ) → v < 4294967296 → read_int (write_int v ++ s) ≡ (ok v, s)
unfolding read_int
read_int-write_int v s h =
    rw (read-append (write_int v) s) (ap (λ (n : ℕ). (ok n, s)) (omega arith))

pub read_short-write_short :
    (v : ℕ) (s : List ℕ) → v < 65536 → read_short (write_short v ++ s) ≡ (ok (short_int v), s)
unfolding read_short
read_short-write_short v s h =
    rw (read-append (write_short v) s) (ap (λ (n : ℕ). (ok (short_int n), s)) two)
  where
    two : from_le (write_short v) ≡ v
    two = omega (arith, h)

-- The sign that is put before a `short` is not written.
pub write_short-int : (v : ℕ) → v < 65536 → write_short (short_int v) ≡ write_short v
write_short-int v h = ap₂ (λ (a b : ℕ). a ∷ b ∷ []) (ground (arith, h)) (ground (arith, h))

pub read_enough : (n : ℕ) (s : List ℕ) → n ≤ length s → read n s ≡ (ok (take n s), drop n s)
unfolding read
read_enough n s h = ground arith

take-nil : (n : ℕ) → take {A = ℕ} n [] ≡ []
take-nil zero = refl
take-nil (suc n) = refl

drop-nil : (n : ℕ) → drop {A = ℕ} n [] ≡ []
drop-nil zero = refl
drop-nil (suc n) = refl

take-take : (n m : ℕ) (s : List ℕ) → n ≤ m → take n s ++ take (m - n) (drop n s) ≡ take m s
take-take zero m s h = ap (λ k. take k s) (omega arith)
take-take (suc n) zero s h = absurd (omega arith)
take-take (suc n) (suc m) [] h = take-nil (suc m - suc n)
take-take (suc n) (suc m) (x ∷ s) h = ap (λ r. x ∷ r) (rw less (take-take n m s (omega arith)))
  where
    less : suc m - suc n ≡ m - n
    less = omega arith

drop-drop : (n m : ℕ) (s : List ℕ) → n ≤ m → drop (m - n) (drop n s) ≡ drop m s
drop-drop zero m s h = ap (λ k. drop k s) (omega arith)
drop-drop (suc n) zero s h = absurd (omega arith)
drop-drop (suc n) (suc m) [] h = drop-nil (suc m - suc n)
drop-drop (suc n) (suc m) (x ∷ s) h = rw less (drop-drop n m s (omega arith))
  where
    less : suc m - suc n ≡ m - n
    less = omega arith

-- A block is at most the whole and, of a whole that is not empty, not empty.
block_bounds : (len : ℕ) → len ≢ 0 → (block_of len ≤ len) × (0 < block_of len)
block_bounds len h = ground arith

write_to_loop_lem :
    (f len : ℕ) (s : List ℕ)
    → len < f
    → len ≤ length s
    → write_to_loop f len s ≡ (ok (take len s), drop len s)
unfolding write_to_loop
write_to_loop_lem zero len s h k = absurd (omega arith)
write_to_loop_lem (suc f) len s h k = elim (ℕ_discrete len 0) [
  | yes e ↦ rw e refl
  | no ne ↦
      let b = block_bounds len ne in
      rw (
        nonzero ne,
        read_enough (block_of len) s (omega (arith, b.0)),
        write_to_loop_lem f (len - block_of len) (drop (block_of len) s) (omega (arith, b))
            (omega (arith, b.0, length-drop (block_of len) s)),
        take-take (block_of len) len s b.0,
        drop-drop (block_of len) len s b.0,
      )
]
  where
    nonzero : len ≢ 0 → (len == 0) ≡ false
    nonzero ne = ground arith

-- `writeTo(out, len)` from a stream that holds at least `len` bytes ends, writes exactly its first
-- `len` bytes, and leaves the rest.
pub write_to_lem :
    (len : ℕ) (s : List ℕ) → len ≤ length s → write_to len s ≡ (ok (take len s), drop len s)
write_to_lem len s h = write_to_loop_lem (suc len) len s (omega arith) h

skip_loop_lem :
    (f len : ℕ) (s : List ℕ) → len < f → len ≤ length s → skip_loop f len s ≡ (ok tt, drop len s)
unfolding skip_loop
skip_loop_lem zero len s h k = absurd (omega arith)
skip_loop_lem (suc f) len s h k = elim (ℕ_discrete len 0) [
  | yes e ↦ rw e refl
  | no ne ↦
      let b = block_bounds len ne in
      rw (
        nonzero ne,
        read_enough (block_of len) s (omega (arith, b.0)),
        skip_loop_lem f (len - block_of len) (drop (block_of len) s) (omega (arith, b))
            (omega (arith, b.0, length-drop (block_of len) s)),
        drop-drop (block_of len) len s b.0,
      )
]
  where
    nonzero : len ≢ 0 → (len == 0) ≡ false
    nonzero ne = ground arith

-- `skip(len)` over a stream that holds at least `len` bytes ends, and leaves what comes after them.
pub skip_lem : (len : ℕ) (s : List ℕ) → len ≤ length s → skip len s ≡ (ok tt, drop len s)
skip_lem len s h = skip_loop_lem (suc len) len s (omega arith) h
