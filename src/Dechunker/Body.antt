-- ===== src/Dechunker/Body.antt =====
-- Bodies in chunks (RFC 7230, 4.1), and the reading of them.
use peercast_yt.Prelude.{
  ℕ, zero, suc, ◌+◌, ◌*◌, ◌%◌, ◌≤◌, ◌<◌, ◌≡◌, ◌⊎◌, inl, inr, refl, sym, ap, ◌∙◌, subst, true, false,
  some, List, [], ◌∷◌, ◌++◌, map, append_assoc, append-nil, ◌==◌, if◌then◌else◌, arith, le→leb,
  leb-false, take, drop, length, All, length-append, dec_le,
}
use peercast_yt.Io.{read, Result, ok, err, read_char, closed}
use peercast_yt.Io.Words.{read-append}
use peercast_yt.GnuId.{hex_digit, hex_value}
use peercast_yt.Dechunker.{
  Dechunker, size_mod, read_chunk, read_size, get_next_chunk, chunk_body, store_chunk, crlf,
  read_loop, dechunk, continue_with,
}

-- The number that hexadecimal digits stand for, after `acc`.
abbrev pub number : ℕ → List ℕ → ℕ
number acc [] = acc
number acc (d ∷ ds) = number (acc * 16 + d) ds

abbrev pub IsDigit : ℕ → Type 0
IsDigit d = d < 16

-- A chunk: the digits of its size, and its bytes.
pub record Chunk : Type 0 where
  pub digits : List ℕ
  pub body : List ℕ

-- The digits give the size of the body, which is not empty and fits an `int`.
pub record IsChunk (c : Chunk) : Type 0 where
  pub digit : All IsDigit c.digits
  pub size : number 0 c.digits ≡ length c.body
  pub filled : 0 < length c.body
  pub fits : length c.body < 2147483648

abbrev pub encode : Chunk → List ℕ → List ℕ
encode c rest = map hex_digit c.digits ++ (13 ∷ 10 ∷ (c.body ++ (13 ∷ 10 ∷ rest)))

-- The chunks, the last one of size 0, and what comes after the body.
abbrev pub encode_all : List Chunk → List ℕ → List ℕ
encode_all [] rest = b'0' ∷ 13 ∷ 10 ∷ 13 ∷ 10 ∷ rest
encode_all (c ∷ cs) rest = encode c (encode_all cs rest)

abbrev pub bodies : List Chunk → List ℕ
bodies [] = []
bodies (c ∷ cs) = c.body ++ bodies cs

number_ge : (acc : ℕ) (ds : List ℕ) → acc ≤ number acc ds
number_ge acc [] = omega arith
number_ge acc (d ∷ ds) = omega (arith, number_ge (acc * 16 + d) ds)

digit_value : (d : ℕ) → d < 16 → hex_value (hex_digit d) ≡ some d
digit_value d h = ground arith

digit_not_cr : (d : ℕ) → d < 16 → (hex_digit d == 13) ≡ false
digit_not_cr d h = ground arith

no_wrap :
    (acc d : ℕ) → acc * 16 + d < size_mod → (acc * 16 % size_mod + d) % size_mod ≡ acc * 16 + d
no_wrap acc d h = omega arith

read_size-digits :
    (ds : List ℕ) (acc : ℕ) (s : List ℕ)
    → All IsDigit ds
    → number acc ds < size_mod
    → read_size acc (map hex_digit ds ++ 13 ∷ 10 ∷ s) ≡ (ok (number acc ds), s)
unfolding read_size
read_size-digits [] acc s h k = refl
read_size-digits (d ∷ ds) acc s h k =
    rw
      (
        digit_not_cr d h.0,
        digit_value d h.0,
        no_wrap acc d (omega (arith, number_ge (acc * 16 + d) ds)),
      )
      (read_size-digits ds (acc * 16 + d) s h.1 k)

crlf-append : (s : List ℕ) → crlf (13 ∷ 10 ∷ s) ≡ (ok tt, s)
unfolding read_char
crlf-append s = refl

-- The state before some chunks: the end is not reached, and the stream holds them.
abbrev pub Before : List Chunk → List ℕ → Dechunker → Type 0
Before cs rest d = (d.eof ≡ false) × (d.stream ≡ encode_all cs rest)

abbrev after : Chunk → List Chunk → List ℕ → Dechunker → Dechunker
after c cs rest d = record d { buffer = d.buffer ++ c.body; stream = encode_all cs rest }

stored :
    (c : Chunk) (d : Dechunker) (s : List ℕ)
    → store_chunk d (ok c.body, 13 ∷ 10 ∷ s)
      ≡ (record d { buffer = d.buffer ++ c.body; stream = s }, ok tt)
unfolding read_char
stored c d s = refl

read_chunk-read : (n : ℕ) (s : List ℕ) → n < 2147483648 → read_chunk n s ≡ read n s
read_chunk-read n s h = ground (arith, h)

get_next_chunk-cons :
    (c : Chunk) (cs : List Chunk) (rest : List ℕ) (d : Dechunker)
    → IsChunk c
    → d.stream ≡ encode_all (c ∷ cs) rest
    → get_next_chunk d ≡ (after c cs rest d, ok tt)
unfolding get_next_chunk
get_next_chunk-cons c cs rest d v e =
    ap (λ s. chunk_body d (read_size 0 s)) e
    ∙ ap (chunk_body d) (
        read_size-digits c.digits 0 (c.body ++ (13 ∷ 10 ∷ encode_all cs rest)) v.digit
          (omega (arith, v.size, v.fits)))
    ∙ ap (λ (n : ℕ). chunk_body d (ok n, c.body ++ (13 ∷ 10 ∷ encode_all cs rest))) v.size
    ∙ rw
        (
          nonzero,
          read_chunk-read (length c.body) (c.body ++ (13 ∷ 10 ∷ encode_all cs rest)) v.fits,
          read-append c.body (13 ∷ 10 ∷ encode_all cs rest),
        )
        (stored c d (encode_all cs rest))
  where
    nonzero : (length c.body == 0) ≡ false
    nonzero = ground (arith, v.filled)

get_next_chunk-nil :
    (rest : List ℕ) (d : Dechunker)
    → d.stream ≡ encode_all [] rest
    → get_next_chunk d ≡ (record d { eof = true; stream = rest }, err closed)
unfolding get_next_chunk read_size read_char
get_next_chunk-nil rest d e = rw e refl

-- What is still to be read of a body.
abbrev pub content : Dechunker → List Chunk → List ℕ
content d cs = d.buffer ++ bodies cs

-- The state of the end of the body, with all bytes that were not read in the buffer.
abbrev pub AtEnd : List ℕ → List ℕ → Dechunker → Type 0
AtEnd body rest d = (d.eof ≡ true) × (d.stream ≡ rest) × (d.buffer ≡ body)

-- What `read(buf, n)` comes to, when `body` is still to be read.
abbrev pub Reads : ℕ → List ℕ → List ℕ → Dechunker × Result (List ℕ) → Type 0
Reads n body rest (d', r) =
    ((n ≤ length body)
      × (r ≡ ok (take n body))
      × ((cs : List Chunk) × All IsChunk cs × Before cs rest d' × (content d' cs ≡ drop n body)))
    ⊎ ((length body < n) × (r ≡ err closed) × AtEnd body rest d')

append-nil_length : (xs : List ℕ) → length (xs ++ []) ≡ length xs
append-nil_length xs = ap length (append-nil xs)

take-front : (n : ℕ) (xs ys : List ℕ) → n ≤ length xs → take n (xs ++ ys) ≡ take n xs
take-front zero xs ys h = refl
take-front (suc n) [] ys h = absurd (omega arith)
take-front (suc n) (x ∷ xs) ys h = ap (λ r. x ∷ r) (take-front n xs ys (omega arith))

drop-front : (n : ℕ) (xs ys : List ℕ) → n ≤ length xs → drop n (xs ++ ys) ≡ drop n xs ++ ys
drop-front zero xs ys h = refl
drop-front (suc n) [] ys h = absurd (omega arith)
drop-front (suc n) (x ∷ xs) ys h = drop-front n xs ys (omega arith)

-- Enough is in the buffer.
read_loop_enough :
    (f n : ℕ) (cs : List Chunk) (rest : List ℕ) (d : Dechunker)
    → n ≤ length d.buffer
    → All IsChunk cs
    → Before cs rest d
    → Reads n (content d cs) rest (read_loop (suc f) n d)
unfolding read_loop
read_loop_enough f n cs rest d enough v b = rw (le→leb _ _ enough) (
    inl (
      omega (arith, enough, length-append d.buffer (bodies cs)),
      ap ok (sym (take-front n d.buffer (bodies cs) enough)),
      (cs, v, b, sym (drop-front n d.buffer (bodies cs) enough)),
    ))

read_loop_short :
    (f n : ℕ) (d : Dechunker)
    → length d.buffer < n
    → read_loop (suc f) n d ≡ continue_with (get_next_chunk d) (read_loop f n)
unfolding read_loop
read_loop_short f n d h = rw (leb-false _ _ h)

read_loop-Reads :
    (f n : ℕ) (cs : List Chunk) (rest : List ℕ) (d : Dechunker)
    → length cs < f
    → All IsChunk cs
    → Before cs rest d
    → Reads n (content d cs) rest (read_loop f n d)
read_loop-Reads zero n cs rest d h v b = absurd (omega arith)
read_loop-Reads (suc f) n [] rest d h v b = elim (dec_le n (length d.buffer)) [
  | yes enough ↦ read_loop_enough f n [] rest d enough v b
  | no short ↦
      rw (read_loop_short f n d (omega arith), get_next_chunk-nil rest d b.1)
        (inr (
          omega (arith, append-nil_length d.buffer),
          refl,
          (refl, refl, sym (append-nil d.buffer)),
        ))
]
read_loop-Reads (suc f) n (c ∷ cs) rest d h v b = elim (dec_le n (length d.buffer)) [
  | yes enough ↦ read_loop_enough f n (c ∷ cs) rest d enough v b
  | no short ↦
      rw (read_loop_short f n d (omega arith), get_next_chunk-cons c cs rest d v.0 b.1)
        (subst (λ body. Reads n body rest (read_loop f n (after c cs rest d)))
          (append_assoc d.buffer c.body (bodies cs))
          (read_loop-Reads f n cs rest (after c cs rest d) (omega arith) v.1 (b.0, refl)))
]

length-encode_all : (cs : List Chunk) (rest : List ℕ) → length cs ≤ length (encode_all cs rest)
length-encode_all [] rest = omega arith
length-encode_all (c ∷ cs) rest = omega (
  arith,
  length-append (map hex_digit c.digits) (13 ∷ 10 ∷ (c.body ++ (13 ∷ 10 ∷ encode_all cs rest))),
  length-append c.body (13 ∷ 10 ∷ encode_all cs rest),
  length-encode_all cs rest,
)

dechunk-open :
    (n : ℕ) (d : Dechunker) → d.eof ≡ false → dechunk n d ≡ read_loop (length d.stream + 1) n d
unfolding dechunk
dechunk-open n d e = ap (λ b. if b then (d, err closed) else read_loop (length d.stream + 1) n d) e

-- `Dechunker::read(buf, n)` before a well-formed chunked body (each chunk with the hexadecimal digits
-- of its size, which is below 2 ^ 31, and then the chunk of size 0) ends. If the body still has n bytes, counting those in
-- the buffer, it returns its next n bytes, and is again before a well-formed body, of the bytes after
-- these. If it has fewer, it throws "Closed on read", with the end marked, the stream behind the body,
-- and the bytes that were left in the buffer.
pub dechunk-Reads :
    (n : ℕ) (cs : List Chunk) (rest : List ℕ) (d : Dechunker)
    → All IsChunk cs
    → Before cs rest d
    → Reads n (content d cs) rest (dechunk n d)
dechunk-Reads n cs rest d v b = subst (Reads n (content d cs) rest) (sym (dechunk-open n d b.0)) (
    read_loop-Reads (length d.stream + 1) n cs rest d
      (omega (arith, ap length b.1, length-encode_all cs rest)) v b)
