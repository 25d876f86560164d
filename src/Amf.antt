-- ===== src/Amf.antt =====
-- `amf0::Value::serialize` of core/common/amf0.h and `amf0::Deserializer` of core/common/amf0.cpp: the
-- values that the RTMP server exchanges. A `double` is its eight bytes, the highest first. An `int` is
-- its word of 32 bits, negative from 2 ^ 31 on; `readChar` gives a signed `char`. Fuel bounds the calls.
pub mod Words
pub mod Maps
pub mod Round
mod Tests
use Prim.Native.Nat.{Ordering}
use peercast_yt.Prelude.{
  ℕ, zero, suc, ◌+◌, ◌-◌, ◌*◌, ◌/◌, ◌%◌, Bool, true, false, not, List, [], ◌∷◌, ◌++◌, ltb, leb,
  ◌==◌, if◌then◌else◌, bit_or, length,
}
use peercast_yt.Dict.{compare_text}
use peercast_yt.Io.{
  Result, ok, err, Error, too_long, bad_type, out_of_fuel, Reader, pure, fail, ◌>>=◌, ◌>>◌,
  read_char, write_to,
}

-- `Value`; the fields of an object and of an array are `m_object`, in the order of the keys.
mutual
  pub data Value : Type 0 where
    number : List ℕ → Value
    object : Fields → Value
    string : List ℕ → Value
    boolean : Bool → Value
    array : Fields → Value
    strict_array : Items → Value
    null : Value
    date : List ℕ → ℕ → Value

  pub data Fields : Type 0 where
    nil : Fields
    cons : List ℕ → Value → Fields → Fields

  pub data Items : Type 0 where
    done : Items
    item : Value → Items → Items

-- `b += ...` of two parts, of which the first exception counts.
abbrev pub append_result : Result (List ℕ) → Result (List ℕ) → Result (List ℕ)
append_result (err e) r = err e
append_result (ok a) (err e) = err e
append_result (ok a) (ok b) = ok (a ++ b)

-- `string(s).serialize().substr(1)`
unfoldable pub string_bytes : List ℕ → Result (List ℕ)
string_bytes s =
    if leb 65536 (length s)
    then err too_long
    else ok ((length s / 256 % 256) ∷ (length s % 256) ∷ s)

unfoldable mutual
  unfolding string_bytes

  pub serialize : Value → Result (List ℕ)
  serialize (number b) = ok (0 ∷ b)
  serialize (object fs) =
      append_result (append_result (ok (3 ∷ [])) (serialize_fields fs)) (ok (0 ∷ 0 ∷ 9 ∷ []))
  serialize (string s) = append_result (ok (2 ∷ [])) (string_bytes s)
  serialize null = ok (5 ∷ [])
  serialize (date b tz) = ok (11 ∷ b ++ (tz / 256) ∷ (tz % 256) ∷ [])
  serialize (boolean b) = err bad_type
  serialize (array fs) = err bad_type
  serialize (strict_array vs) = err bad_type

  pub serialize_fields : Fields → Result (List ℕ)
  serialize_fields nil = ok []
  serialize_fields (cons k v fs) =
      append_result (append_result (string_bytes k) (serialize v)) (serialize_fields fs)

abbrev pub int_mod : ℕ
int_mod = 4294967296

-- A `char` as an `int`: from 128 on it is negative.
abbrev pub sign_extend : ℕ → ℕ
sign_extend c = if ltb c 128 then c else c + 4294967040

abbrev pub shift_left : ℕ → ℕ → ℕ
shift_left c m = sign_extend c * m % int_mod

-- `(in.readChar() << 8) | (in.readChar())`
unfoldable pub two_chars : ℕ → ℕ → ℕ
two_chars c d = bit_or (shift_left c 256) (sign_extend d)

unfoldable pub read_two : Reader ℕ
unfolding read_char two_chars
read_two = do c ← read_char; d ← read_char; pure (two_chars c d)

-- `readInt16`, and its value as a `uint16_t`.
unfoldable pub read_int16 : Reader ℕ
unfolding read_two
read_int16 = do v ← read_two; pure (v % 65536)

unfoldable pub read_int32 : Reader ℕ
unfolding read_char
read_int32 = do
  a ← read_char
  b ← read_char
  c ← read_char
  d ← read_char
  pure (
      bit_or (bit_or (bit_or (shift_left a 16777216) (shift_left b 65536)) (shift_left c 256))
        (sign_extend d))

-- `Stream::read(len)`, which reads nothing for a negative length.
unfoldable pub read_text : ℕ → Reader (List ℕ)
read_text len = if leb 2147483648 len then pure [] else write_to len

unfoldable pub read_string : Reader (List ℕ)
unfolding read_two read_text
read_string = do len ← read_two; read_text len

-- The loop of `readDouble`, with `n` bytes to come.
unfoldable pub read_chars : ℕ → Reader (List ℕ)
unfolding read_char
read_chars zero = pure []
read_chars (suc n) = do c ← read_char; cs ← read_chars n; pure (c ∷ cs)

-- `m_object[k] = v`
unfoldable pub put : List ℕ → Value → Fields → Fields
unfolding compare_text
put key v nil = cons key v nil
put key v (cons k w fs) =
    let rest = put key v fs in
    elim (compare_text key k) [
      | Ordering.lt ↦ cons key v (cons k w fs)
      | Ordering.eq ↦ cons k v fs
      | Ordering.gt ↦ cons k w rest
    ]

-- The loop of `object(l)` and `array(l)`, over the pairs that are left.
unfoldable pub put_all : Fields → Fields → Fields
unfolding put
put_all nil m = m
put_all (cons k v fs) m = put_all fs (put k v m)

abbrev pub items_left : ℕ → ℕ
items_left len = if leb 2147483648 len then 0 else len

-- The switch of `readValue`, with the calls of `readObject` and of `readValue` for elements.
unfoldable pub read_typed : Reader Fields → (ℕ → Reader Items) → ℕ → Reader Value
unfolding read_chars read_string read_int16 read_int32 put_all
read_typed fields items type =
    if type == 0
    then (do b ← read_chars 8; pure (number b))
    else if type == 2
    then (do s ← read_string; pure (string s))
    else if type == 3
    then (do fs ← fields; pure (object (put_all fs nil)))
    else if type == 1
    then (do c ← read_char; pure (boolean (not (c == 0))))
    else if type == 8
    then (do len ← read_int32; fs ← fields; pure (array (put_all fs nil)))
    else if type == 10
    then (do len ← read_int32; vs ← items (items_left len); pure (strict_array vs))
    else if type == 5
    then pure null
    else if type == 11
    then (do b ← read_chars 8; tz ← read_int16; pure (date b tz))
    else fail bad_type

-- The loop of `readObject` behind a key: the pairs up to an empty key, and the byte behind it.
unfoldable pub read_pairs : Reader Value → Reader Fields → List ℕ → Reader Fields
unfolding read_char
read_pairs value more [] = do c ← read_char; pure nil
read_pairs value more (c ∷ key) = do v ← value; fs ← more; pure (cons (c ∷ key) v fs)

unfoldable mutual
  unfolding read_char read_string read_typed read_pairs

  pub read_value : ℕ → Reader Value
  read_value zero = fail out_of_fuel
  read_value (suc f) = read_char >>= read_typed (read_object f) (read_items f)

  pub read_object : ℕ → Reader Fields
  read_object zero = fail out_of_fuel
  read_object (suc f) = read_string >>= read_pairs (read_value f) (read_object f)

  -- The loop over the elements of a strict array.
  pub read_items : ℕ → ℕ → Reader Items
  read_items zero n = fail out_of_fuel
  read_items (suc f) zero = pure done
  read_items (suc f) (suc n) = do v ← read_value f; vs ← read_items f n; pure (item v vs)
