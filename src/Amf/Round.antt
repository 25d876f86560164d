-- ===== src/Amf/Round.antt =====
-- What `serialize` writes, read by `readValue`.
use peercast_yt.Prelude.{
  ℕ, zero, suc, ◌+◌, ◌/◌, ◌%◌, ◌≤◌, ◌<◌, ◌≡◌, ◌≢◌, refl, ap, ◌∙◌, List, [], ◌∷◌, ◌++◌, arith,
  length, append_assoc,
}
use peercast_yt.Io.{ok, pure, ◌>>=◌, bind_result, read_char}
use peercast_yt.Amf.{
  Value, number, object, string, boolean, array, strict_array, null, date, Fields, nil, cons,
  append_result, serialize, serialize_fields, read_int16, read_string, read_chars, put_all,
  read_typed, read_pairs, read_value, read_object, read_items,
}
use peercast_yt.Amf.Words.{
  IsShort, written, string_bytes_lem, read_string-written, read_string-lost, read_chars-append,
  two_chars_lem, read_two-chars,
}
use peercast_yt.Amf.Maps.{IsSorted, put_all-IsSorted}

-- The values that are serialized and read back.
unfoldable mutual
  pub IsPlain : Value → Type 0
  IsPlain (number b) = length b ≡ 8
  IsPlain (object fs) = IsSorted fs × ArePlain fs
  IsPlain (string s) = IsShort s
  IsPlain null = Unit
  IsPlain (date b tz) = (length b ≡ 8) × (tz < 32768) × (tz % 256 < 128)
  IsPlain (boolean b) = ⊥
  IsPlain (array fs) = ⊥
  IsPlain (strict_array vs) = ⊥

  pub ArePlain : Fields → Type 0
  ArePlain nil = Unit
  ArePlain (cons k v fs) = (k ≢ []) × IsShort k × IsPlain v × ArePlain fs

-- The calls that reading a value takes.
unfoldable mutual
  pub calls : Value → ℕ
  calls (number b) = 1
  calls (object fs) = suc (calls_all fs)
  calls (string s) = 1
  calls null = 1
  calls (date b tz) = 1
  calls (boolean b) = 1
  calls (array fs) = 1
  calls (strict_array vs) = 1

  pub calls_all : Fields → ℕ
  calls_all nil = 1
  calls_all (cons k v fs) = suc (calls v + calls_all fs)

-- The bytes of a value, and that they are read back, whatever follows.
record Back (v : Value) : Type 0 where
  bytes : List ℕ
  writes : serialize v ≡ ok bytes
  reads : (f : ℕ) (t : List ℕ) → calls v ≤ f → read_value f (bytes ++ t) ≡ (ok v, t)

record BackAll (fs : Fields) : Type 0 where
  bytes : List ℕ
  writes : serialize_fields fs ≡ ok bytes
  reads :
      (f : ℕ) (t : List ℕ) → calls_all fs ≤ f → read_object f (bytes ++ 0 ∷ 0 ∷ 9 ∷ t) ≡ (ok fs, t)

-- One call of `readValue`, and what is left of the fuel.
read_value-step :
    (f n type : ℕ) (t : List ℕ)
    → suc n ≤ f
    → (g : ℕ) × (n ≤ g)
      × (read_value f (type ∷ t) ≡ read_typed (read_object g) (read_items g) type t)
unfolding read_value read_char
read_value-step zero n type t l = absurd (omega arith)
read_value-step (suc g) n type t l = (g, omega arith, refl)

read_object-step :
    (f n : ℕ) (k s t : List ℕ)
    → suc n ≤ f
    → read_string s ≡ (ok k, t)
    → (g : ℕ) × (n ≤ g) × (read_object f s ≡ read_pairs (read_value g) (read_object g) k t)
unfolding read_object
read_object-step zero n k s t l e = absurd (omega arith)
read_object-step (suc g) n k s t l e =
    (g, omega arith, ap (λ r. bind_result r (read_pairs (read_value g) (read_object g))) e)

number-Back : (b : List ℕ) → length b ≡ 8 → Back (number b)
unfolding serialize read_typed calls
number-Back b h = record {
  bytes = 0 ∷ b;
  writes = refl;
  reads = λ f t l.
      let (g, m, e) = read_value-step f 0 0 (b ++ t) l in
      e ∙ ap (λ r. bind_result r (λ b. pure (number b))) (read_chars-append 8 b t h);
}

string-Back : (s : List ℕ) → IsShort s → Back (string s)
unfolding serialize read_typed calls
string-Back s h = record {
  bytes = 2 ∷ written s;
  writes = ap (append_result (ok (2 ∷ []))) (string_bytes_lem s (omega (arith, h.small)));
  reads = λ f t l.
      let (g, m, e) = read_value-step f 0 2 (written s ++ t) l in
      e ∙ ap (λ r. bind_result r (λ b. pure (string b))) (read_string-written s t h);
}

null-Back : Back null
unfolding serialize read_typed calls
null-Back = record {
  bytes = 5 ∷ [];
  writes = refl;
  reads = λ f t l. let (g, m, e) = read_value-step f 0 5 t l in e;
}

read_int16-bytes :
    (tz : ℕ) (t : List ℕ)
    → tz < 32768
    → tz % 256 < 128
    → read_int16 ((tz / 256) ∷ (tz % 256) ∷ t) ≡ (ok tz, t)
unfolding read_int16
read_int16-bytes tz t h k =
    ap (λ r. bind_result r (λ v. pure (v % 65536))) (read_two-chars (tz / 256) (tz % 256) t)
    ∙ ap (λ n. (ok n, t)) (omega (arith, two_chars_lem (tz / 256) (tz % 256) (omega arith) k))

date-Back : (b : List ℕ) (tz : ℕ) → length b ≡ 8 → tz < 32768 → tz % 256 < 128 → Back (date b tz)
unfolding serialize read_typed calls
date-Back b tz h small low = record {
  bytes = 11 ∷ b ++ (tz / 256) ∷ (tz % 256) ∷ [];
  writes = refl;
  reads = λ f t l.
      let (g, m, e) = read_value-step f 0 11 ((b ++ (tz / 256) ∷ (tz % 256) ∷ []) ++ t) l in
      e
      ∙ ap (λ r. bind_result (read_chars 8 r) (λ b. read_int16 >>= λ z. pure (date b z)))
          (append_assoc b ((tz / 256) ∷ (tz % 256) ∷ []) t)
      ∙ ap (λ r. bind_result r (λ b. read_int16 >>= λ z. pure (date b z)))
          (read_chars-append 8 b ((tz / 256) ∷ (tz % 256) ∷ t) h)
      ∙ ap (λ r. bind_result r (λ z. pure (date b z))) (read_int16-bytes tz t small low);
}

object-Back : (fs : Fields) → IsSorted fs → BackAll fs → Back (object fs)
unfolding serialize read_typed calls
object-Back fs s k = record {
  bytes = 3 ∷ k.bytes ++ 0 ∷ 0 ∷ 9 ∷ [];
  writes = rw k.writes refl;
  reads = λ f t l.
      let (g, m, e) = read_value-step f (calls_all fs) 3 ((k.bytes ++ 0 ∷ 0 ∷ 9 ∷ []) ++ t) l in
      e
      ∙ ap (λ r. bind_result (read_object g r) (λ m. pure (object (put_all m nil))))
          (append_assoc k.bytes (0 ∷ 0 ∷ 9 ∷ []) t)
      ∙ ap (λ r. bind_result r (λ m. pure (object (put_all m nil)))) (k.reads g t m)
      ∙ ap (λ m. (ok (object m), t)) (put_all-IsSorted fs s);
}

nil-BackAll : BackAll nil
unfolding serialize calls read_pairs read_char
nil-BackAll = record {
  bytes = [];
  writes = refl;
  reads = λ f t l.
      let (g, m, e) =
        read_object-step f 0 [] (0 ∷ 0 ∷ 9 ∷ t) (9 ∷ t) l
          (read_string-written [] (9 ∷ t) (record { small = omega arith; low = omega arith })) in
      e;
}

cons-BackAll :
    (k : List ℕ) (v : Value) (fs : Fields)
    → k ≢ []
    → IsShort k
    → Back v
    → BackAll fs
    → BackAll (cons k v fs)
unfolding serialize calls read_pairs
cons-BackAll [] v fs n s b a = absurd (n refl)
cons-BackAll (c ∷ k) v fs n s b a = record {
  bytes = (written (c ∷ k) ++ b.bytes) ++ a.bytes;
  writes = rw (string_bytes_lem (c ∷ k) (omega (arith, s.small)), b.writes, a.writes) refl;
  reads = λ f t l.
      let more = a.bytes ++ 0 ∷ 0 ∷ 9 ∷ t in
      let (g, m, e) =
        read_object-step f (calls v + calls_all fs) (c ∷ k) (written (c ∷ k) ++ (b.bytes ++ more))
          (b.bytes ++ more) l (read_string-written (c ∷ k) (b.bytes ++ more) s) in
      ap (read_object f) (
        append_assoc (written (c ∷ k) ++ b.bytes) a.bytes (0 ∷ 0 ∷ 9 ∷ t)
        ∙ append_assoc (written (c ∷ k)) b.bytes more)
      ∙ e
      ∙ ap (λ r. bind_result r (λ v. read_object g >>= λ m. pure (cons (c ∷ k) v m)))
          (b.reads g more (omega (arith, m)))
      ∙ ap (λ r. bind_result r (λ m. pure (cons (c ∷ k) v m))) (a.reads g t (omega (arith, m)));
}

mutual
  unfolding IsPlain

  back : (v : Value) → IsPlain v → Back v
  back (number b) h = number-Back b h
  back (object fs) h = object-Back fs h.0 (back_all fs h.1)
  back (string s) h = string-Back s h
  back null h = null-Back
  back (date b tz) h = date-Back b tz h.0 h.1 h.2
  back (boolean b) h = absurd h
  back (array fs) h = absurd h
  back (strict_array vs) h = absurd h

  back_all : (fs : Fields) → ArePlain fs → BackAll fs
  back_all nil h = nil-BackAll
  back_all (cons k v fs) h = cons-BackAll k v fs h.0 h.1 (back v h.2) (back_all fs h.3)

-- `serialize` of a value made of numbers, texts, dates, null and objects of such fields succeeds, and
-- `readValue` reads its bytes as the value, whatever follows them, if it gets as many calls as the value
-- has parts. The texts are shorter than 2 ^ 15 bytes with a low byte of the length below 128, as is the
-- time zone of a date, and the keys of an object are not empty and in their order.
pub read_value-serialize :
    (v : Value) (f : ℕ) (t : List ℕ)
    → IsPlain v
    → calls v ≤ f
    → (bytes : List ℕ) × (serialize v ≡ ok bytes) × (read_value f (bytes ++ t) ≡ (ok v, t))
read_value-serialize v f t h e = let b = back v h in (b.bytes, b.writes, b.reads f t e)

-- A text shorter than 2 ^ 15 bytes, with a low byte of the length from 128 on, is serialized, and read as
-- the empty text, its own bytes being left in the stream.
pub read_value-lost :
    (s t : List ℕ) (f : ℕ)
    → length s < 32768
    → 128 ≤ length s % 256
    → 0 < f
    → (serialize (string s) ≡ ok (2 ∷ written s))
      × (read_value f ((2 ∷ written s) ++ t) ≡ (ok (string []), s ++ t))
unfolding serialize read_typed
read_value-lost s t f h k l = (
  ap (append_result (ok (2 ∷ []))) (string_bytes_lem s (omega (arith, h))),
  let (g, m, e) = read_value-step f 0 2 (written s ++ t) l in
      e ∙ ap (λ r. bind_result r (λ b. pure (string b))) (read_string-lost s t h k),
)
