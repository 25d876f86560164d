-- ===== src/Dechunker.antt =====
-- `Dechunker` of core/common/dechunker.h and dechunker.cpp: reads a body in HTTP's chunked encoding.
-- The state is the end mark, the buffer of decoded bytes and the underlying stream. A size is a
-- `size_t`, which wraps at 2 ^ 64.
pub mod Body
pub mod Chunker
mod Tests
use peercast_yt.Prelude.{
  ℕ, zero, suc, ◌+◌, ◌-◌, ◌*◌, ◌%◌, ◌^◌, Bool, true, false, ◌&&◌, Option, none, some, List, [], ◌∷◌,
  ◌++◌, ltb, leb, ◌==◌, if◌then◌else◌, take, drop, length,
}
use peercast_yt.Io.{
  Result, ok, err, Error, Reader, pure, fail, ◌>>=◌, ◌>>◌, bind_result, read, read_char, protocol,
  premature, bad_count, closed, end_of_stream, out_of_fuel,
}
use peercast_yt.GnuId.{hex_value}

pub record Dechunker : Type 0 where
  pub eof : Bool
  pub buffer : List ℕ
  pub stream : List ℕ

-- `hexValue(c)`; `none` is -1.
abbrev pub hex_digit_value : ℕ → Option ℕ
hex_digit_value = hex_value

abbrev pub size_mod : ℕ
size_mod = 2 ^ 64

abbrev pub expect : ℕ → Reader (Unit {0})
expect c = do d ← read_char; if d == c then pure tt else fail protocol

-- The CR LF after a chunk.
abbrev pub crlf : Reader (Unit {0})
crlf = do expect 13; expect 10

-- The loop that reads the size of a chunk, up to its CR LF: a recursion on the input.
unfoldable pub read_size : ℕ → Reader ℕ
unfolding read_char
read_size size [] = (err end_of_stream, [])
read_size size (c ∷ s) =
    let next = λ (v : ℕ). read_size ((size * 16 % size_mod + v) % size_mod) s in
    if c == 13
    then bind_result (expect 10 s) (λ _. pure size)
    else elim (hex_digit_value c) [ none ↦ (err protocol, s) | some v ↦ next v ]

-- `m_stream.read(buf, size)`, whose count is an `int`, and the test `r != size`. What a stream does with a
-- negative count is not modelled: `bad_count`.
abbrev pub read_chunk : ℕ → Reader (List ℕ)
read_chunk size =
    let n = size % 4294967296 in
    let short = (do b ← read n; fail premature) in
    if ltb n 2147483648 then if n == size then read size else short else fail bad_count

-- The effects of `getNextChunk` once the size is known. After the last chunk, of size 0, the end is
-- marked and the call throws; the bytes of any other are in the buffer before the CR LF behind them
-- is checked.
abbrev pub end_chunk : Dechunker → Result (Unit {0}) × List ℕ → Dechunker × Result (Unit {0})
end_chunk d (ok _, s) = (record d { eof = true; stream = s }, err closed)
end_chunk d (err e, s) = (record d { stream = s }, err e)

abbrev pub after_chunk : Dechunker → Result (Unit {0}) × List ℕ → Dechunker × Result (Unit {0})
after_chunk d (r, s) = (record d { stream = s }, r)

abbrev pub store_chunk : Dechunker → Result (List ℕ) × List ℕ → Dechunker × Result (Unit {0})
store_chunk d (ok b, s) = after_chunk (record d { buffer = d.buffer ++ b }) (crlf s)
store_chunk d (err e, s) = (record d { stream = s }, err e)

abbrev pub chunk_body : Dechunker → Result ℕ × List ℕ → Dechunker × Result (Unit {0})
chunk_body d (ok size, s) =
    if size == 0 then end_chunk d (crlf s) else store_chunk d (read_chunk size s)
chunk_body d (err e, s) = (record d { stream = s }, err e)

-- `getNextChunk()`
unfoldable pub get_next_chunk : Dechunker → Dechunker × Result (Unit {0})
unfolding read_size read read_char
get_next_chunk d = chunk_body d (read_size 0 d.stream)

abbrev pub continue_with :
    Dechunker × Result (Unit {0})
    → (Dechunker → Dechunker × Result (List ℕ))
    → Dechunker × Result (List ℕ)
continue_with (d, ok _) k = k d
continue_with (d, err e) k = (d, err e)

-- The loop of `read`, on fuel.
unfoldable pub read_loop : ℕ → ℕ → Dechunker → Dechunker × Result (List ℕ)
read_loop zero size d = (d, err out_of_fuel)
read_loop (suc f) size d =
    let again = λ (d' : Dechunker). read_loop f size d' in
    if leb size (length d.buffer)
    then (record d { buffer = drop size d.buffer }, ok (take size d.buffer))
    else continue_with (get_next_chunk d) again

-- `read(buf, size)` for a size that is not negative. Every chunk takes input, so as many rounds as
-- there are bytes left, and one more, are enough.
unfoldable pub dechunk : ℕ → Dechunker → Dechunker × Result (List ℕ)
unfolding read_loop get_next_chunk
dechunk size d = if d.eof then (d, err closed) else read_loop (length d.stream + 1) size d
