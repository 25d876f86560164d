-- ===== src/Dechunker/Chunker.antt =====
-- `Chunker` of core/common/chunker.h, which writes a body in HTTP's chunked encoding, read back by
-- `Dechunker`. The size is printed by `printf` with `%X`: its hexadecimal digits, of which an `int` has at
-- most 8.
use peercast_yt.Prelude.{
  ℕ, zero, suc, ◌+◌, ◌*◌, ◌/◌, ◌%◌, ◌<◌, ◌≡◌, refl, ap, ◌∙◌, false, List, [], ◌∷◌, ◌++◌, ltb,
  if◌then◌else◌, arith, All, length, map, append_assoc, Bool-cases, inl, inr, subst, ltb→lt,
}
use peercast_yt.GnuId.{hex_digit}
use peercast_yt.Dechunker.{dechunk}
use peercast_yt.Dechunker.Body.{
  Chunk, IsChunk, IsDigit, number, encode, encode_all, bodies, Reads, dechunk-Reads,
}

unfoldable pub hex_digits : ℕ → ℕ → List ℕ
hex_digits zero n = []
hex_digits (suc f) n =
    let more = hex_digits f (n / 16) ++ (n % 16) ∷ [] in if ltb n 16 then n ∷ [] else more

-- `write(buf, size)`
unfoldable pub write : List ℕ → List ℕ
write [] = []
write (b ∷ bs) =
    map hex_digit (hex_digits 8 (length (b ∷ bs))) ++ (13 ∷ 10 ∷ ((b ∷ bs) ++ (13 ∷ 10 ∷ [])))

-- `close()`
abbrev pub close : List ℕ
close = b'0' ∷ 13 ∷ 10 ∷ 13 ∷ 10 ∷ []

-- The stream after some writes and `close`, and the bytes that were written.
unfoldable pub write_all : List (List ℕ) → List ℕ
unfolding write
write_all [] = close
write_all (b ∷ bs) = write b ++ write_all bs

abbrev pub concat : List (List ℕ) → List ℕ
concat [] = []
concat (b ∷ bs) = b ++ concat bs

number-append : (acc : ℕ) (ds : List ℕ) (d : ℕ) → number acc (ds ++ d ∷ []) ≡ number acc ds * 16 + d
number-append acc [] d = refl
number-append acc (e ∷ ds) d = number-append (acc * 16 + e) ds d

abbrev pow16 : ℕ → ℕ
pow16 zero = 1
pow16 (suc f) = 16 * pow16 f

number-hex_digits : (f n : ℕ) → n < pow16 f → number 0 (hex_digits f n) ≡ n
unfolding hex_digits
number-hex_digits zero n h = omega arith
number-hex_digits (suc f) n h = elim (Bool-cases (ltb n 16)) [
  | inl e ↦ rw e (omega arith)
  | inr e ↦ rw e (
      number-append 0 (hex_digits f (n / 16)) (n % 16)
      ∙ ap (λ (k : ℕ). k * 16 + n % 16) (number-hex_digits f (n / 16) (omega arith))
      ∙ omega arith)
]

All-append : (ds : List ℕ) (d : ℕ) → All IsDigit ds → d < 16 → All IsDigit (ds ++ d ∷ [])
All-append [] d h k = (k, tt)
All-append (e ∷ ds) d h k = (h.0, All-append ds d h.1 k)

hex_digits-IsDigit : (f n : ℕ) → All IsDigit (hex_digits f n)
unfolding hex_digits
hex_digits-IsDigit zero n = tt
hex_digits-IsDigit (suc f) n = elim (Bool-cases (ltb n 16)) [
  | inl e ↦ rw e (ltb→lt n 16 e, tt)
  | inr e ↦
      rw e
        (All-append (hex_digits f (n / 16)) (n % 16) (hex_digits-IsDigit f (n / 16)) (omega arith))
]

-- A write that is an `int` long.
abbrev pub IsSized : List ℕ → Type 0
IsSized b = length b < 2147483648

chunk_of : List ℕ → Chunk
chunk_of b = record { digits = hex_digits 8 (length b); body = b }

-- The chunks of some writes: an empty one writes nothing.
chunks : List (List ℕ) → List Chunk
chunks [] = []
chunks ([] ∷ bs) = chunks bs
chunks ((c ∷ b) ∷ bs) = chunk_of (c ∷ b) ∷ chunks bs

chunk_of-IsChunk : (c : ℕ) (b : List ℕ) → IsSized (c ∷ b) → IsChunk (chunk_of (c ∷ b))
unfolding chunk_of
chunk_of-IsChunk c b h = record {
  digit = hex_digits-IsDigit 8 (length (c ∷ b));
  size = number-hex_digits 8 (length (c ∷ b)) (omega (arith, h));
  filled = omega arith;
  fits = omega (arith, h);
}

chunks-IsChunk : (bs : List (List ℕ)) → All IsSized bs → All IsChunk (chunks bs)
unfolding chunks
chunks-IsChunk [] h = tt
chunks-IsChunk ([] ∷ bs) h = chunks-IsChunk bs h.1
chunks-IsChunk ((c ∷ b) ∷ bs) h = (chunk_of-IsChunk c b h.0, chunks-IsChunk bs h.1)

bodies-chunks : (bs : List (List ℕ)) → bodies (chunks bs) ≡ concat bs
unfolding chunks chunk_of
bodies-chunks [] = refl
bodies-chunks ([] ∷ bs) = bodies-chunks bs
bodies-chunks ((c ∷ b) ∷ bs) = ap (λ r. (c ∷ b) ++ r) (bodies-chunks bs)

write-encode : (c : ℕ) (b s : List ℕ) → write (c ∷ b) ++ s ≡ encode (chunk_of (c ∷ b)) s
unfolding write chunk_of
write-encode c b s =
    append_assoc (map hex_digit (hex_digits 8 (length (c ∷ b))))
      (13 ∷ 10 ∷ ((c ∷ b) ++ (13 ∷ 10 ∷ []))) s
    ∙ ap (λ r. map hex_digit (hex_digits 8 (length (c ∷ b))) ++ (13 ∷ 10 ∷ r))
        (append_assoc (c ∷ b) (13 ∷ 10 ∷ []) s)

write_all-encode_all :
    (bs : List (List ℕ)) (rest : List ℕ) → write_all bs ++ rest ≡ encode_all (chunks bs) rest
unfolding write_all chunks
write_all-encode_all [] rest = refl
write_all-encode_all ([] ∷ bs) rest = write_all-encode_all bs rest
write_all-encode_all ((c ∷ b) ∷ bs) rest =
    append_assoc (write (c ∷ b)) (write_all bs) rest
    ∙ write-encode c b (write_all bs ++ rest)
    ∙ ap (encode (chunk_of (c ∷ b))) (write_all-encode_all bs rest)

-- What any number of writes to a `Chunker` and its `close` put on a stream is a body that `Dechunker`
-- reads: from a new one, `read(buf, n)` gives the first n bytes that were written, or throws if fewer were,
-- and ends; the rest of the written bytes are what is still to be read. The writes are shorter than 2 ^ 31.
pub dechunk-write_all :
    (n : ℕ) (bs : List (List ℕ)) (rest : List ℕ)
    → All IsSized bs
    → Reads n
        (concat bs)
        rest
        (dechunk n (record { eof = false; buffer = []; stream = write_all bs ++ rest }))
dechunk-write_all n bs rest h =
    subst
      (λ b.
        Reads n b rest
          (dechunk n (record { eof = false; buffer = []; stream = write_all bs ++ rest })))
      (bodies-chunks bs)
      (dechunk-Reads n (chunks bs) rest
        (record { eof = false; buffer = []; stream = write_all bs ++ rest }) (chunks-IsChunk bs h)
        (refl, write_all-encode_all bs rest))
