-- ===== src/Io.antt =====
-- `Stream` of core/common/stream.h and stream.cpp, over a byte stream that reads like a socket
-- (core/unix/usocket.cpp): a read gives all the bytes that it asks for, or throws. The input is the
-- list of bytes still to come. Words are in the machine's order, lowest byte first, and negative
-- `int`s are their words.
pub mod Words
mod Tests
use peercast_yt.Prelude.{
  ℕ, zero, suc, ◌+◌, ◌-◌, ◌*◌, ◌/◌, ◌%◌, ◌≤◌, ◌<◌, ◌≡◌, refl, Bool, true, false, ◌||◌, ◌&&◌, not,
  List, [], ◌∷◌, ◌++◌, ltb, leb, ◌==◌, if◌then◌else◌, arith, take, drop, length,
}

pub data Error : Type 0 where
  end_of_stream closed protocol premature bad_argument bad_atom too_long bad_type bad_count
        not_modelled out_of_fuel :
      Error

pub data Result {ℓ} (A : Type ℓ) : Type ℓ where
  ok : A → Result A
  err : Error → Result A

-- An operation on the input: its value or exception, and the bytes left.
abbrev pub Reader : Type 0 → Type 0
Reader A = List ℕ → Result A × List ℕ

abbrev pub pure : {A : Type 0} → A → Reader A
pure a s = (ok a, s)

abbrev pub fail : {A : Type 0} → Error → Reader A
fail e s = (err e, s)

abbrev pub bind_result : {A B : Type 0} → Result A × List ℕ → (A → Reader B) → Result B × List ℕ
bind_result (ok a, s) f = f a s
bind_result (err e, s) f = (err e, s)

infixl 5 ◌>>=◌ ◌>>◌
abbrev pub ◌>>=◌ : {A B : Type 0} → Reader A → (A → Reader B) → Reader B
◌>>=◌ m f s = bind_result (m s) f

abbrev pub ◌>>◌ : {A B : Type 0} → Reader A → Reader B → Reader B
m >> k = m >>= λ _. k

-- `read(p, n)`; at the end of the stream what was left is lost.
unfoldable pub read : ℕ → Reader (List ℕ)
read n s = if leb n (length s) then (ok (take n s), drop n s) else (err end_of_stream, [])

abbrev pub first_byte : List ℕ → ℕ
first_byte [] = 0
first_byte (b ∷ bs) = b

-- `readChar()`
unfoldable pub read_char : Reader ℕ
read_char [] = (err end_of_stream, [])
read_char (b ∷ s) = (ok b, s)

-- The number that bytes stand for, lowest first.
abbrev pub from_le : List ℕ → ℕ
from_le [] = 0
from_le (b ∷ bs) = b + 256 * from_le bs

-- The `n` lowest bytes of a number, lowest first.
abbrev pub to_le : ℕ → ℕ → List ℕ
to_le zero v = []
to_le (suc n) v = (v % 256) ∷ to_le n (v / 256)

-- `readShort()`, `readLong()`, `readInt()`, `readInt24()`, `readID4()`
-- A `short` as the word of an `int`: its sign is extended.
abbrev pub short_int : ℕ → ℕ
short_int n = if ltb n 32768 then n else n + 4294901760

unfoldable pub read_short : Reader ℕ
unfolding read
read_short = do b ← read 2; pure (short_int (from_le b))

unfoldable pub read_int : Reader ℕ
unfolding read
read_int = do b ← read 4; pure (from_le b)

unfoldable pub read_int24 : Reader ℕ
unfolding read
read_int24 = do b ← read 3; pure (from_le b)

-- An ID4 is its four bytes.
unfoldable pub read_id4 : Reader (List ℕ)
unfolding read
read_id4 = read 4

-- `writeChar`, `writeShort`, `writeInt` (`writeLong`): the bytes that they append.
abbrev pub write_char : ℕ → List ℕ
write_char v = to_le 1 v

abbrev pub write_short : ℕ → List ℕ
write_short v = to_le 2 v

abbrev pub write_int : ℕ → List ℕ
write_int v = to_le 4 v

-- The size of the block that `skip` and `writeTo` work with.
abbrev pub block_size : ℕ
block_size = 4096

abbrev pub block_of : ℕ → ℕ
block_of len = if ltb len block_size then len else block_size

-- `skip(len)`: the loop, on fuel.
unfoldable pub skip_loop : ℕ → ℕ → Reader (Unit {0})
unfolding read
skip_loop zero len = fail out_of_fuel
skip_loop (suc f) len =
    let rest = skip_loop f (len - block_of len) in
    if len == 0 then pure tt else (do b ← read (block_of len); rest)

abbrev pub skip : ℕ → Reader (Unit {0})
skip len = skip_loop (suc len) len

-- `writeTo(out, len)`: the loop, on fuel; its value is what it writes.
unfoldable pub write_to_loop : ℕ → ℕ → Reader (List ℕ)
unfolding read
write_to_loop zero len = fail out_of_fuel
write_to_loop (suc f) len =
    let rest = write_to_loop f (len - block_of len) in
    if len == 0 then pure [] else (do b ← read (block_of len); bs ← rest; pure (b ++ bs))

abbrev pub write_to : ℕ → Reader (List ℕ)
write_to len = write_to_loop (suc len) len

-- `readLine(max)`: the rest of a line after `res`, without its CR characters. A recursion on the
-- input, each round of which reads one byte.
unfoldable pub read_line_from : ℕ → List ℕ → Reader (List ℕ)
read_line_from max res [] = (err end_of_stream, [])
read_line_from max res (c ∷ s) =
    let next = read_line_from max (res ++ c ∷ []) s in
    let same = read_line_from max res s in
    if c == 10
    then (ok res, s)
    else (if c == 13 then same else (if length res == max then (err too_long, s) else next))

abbrev pub read_line : ℕ → Reader (List ℕ)
read_line max = read_line_from max []

-- `writeUTF8(code)`: the bytes that it writes, each cut to 8 bits.
unfoldable pub write_utf8 : ℕ → List ℕ
write_utf8 code =
    if ltb code 0x80
    then code ∷ []
    else (if ltb code 0x800
        then (code / 0x40 + 0xC0) ∷ (code % 0x40 + 0x80) ∷ []
        else (if ltb code 0x10000
            then (code / 0x1000 + 0xE0) ∷ (code / 0x40 % 0x40 + 0x80) ∷ (code % 0x40 + 0x80) ∷ []
            else ((code / 0x40000 + 0xF0) % 256)
              ∷ (code / 0x1000 % 0x40 + 0x80)
              ∷ (code / 0x40 % 0x40 + 0x80)
              ∷ (code % 0x40 + 0x80)
              ∷ []))
