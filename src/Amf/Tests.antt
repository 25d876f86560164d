-- ===== src/Amf/Tests.antt =====
-- The theorems on AMF0 at concrete inputs.
use peercast_yt.Prelude.{ℕ, ◌≡◌, refl, List, [], ◌∷◌, ◌++◌, replicate, arith}
use peercast_yt.Dict.{compare_text}
use peercast_yt.Io.{ok}
use peercast_yt.Amf.{Value, number, object, string, null, cons, nil, serialize, read_value}
use peercast_yt.Amf.Words.{IsShort, written}
use peercast_yt.Amf.Round.{IsPlain, calls, read_value-serialize, read_value-lost}

-- An object with a text and an object in it.
abbrev nested : Value
nested = object (
    cons (b'a' ∷ []) (string (b'x' ∷ [])) (
      cons (b'b' ∷ []) (object (cons (b'n' ∷ []) (number (replicate 8 1)) nil))
        (cons (b'c' ∷ []) null nil)))

text-IsShort : (c : ℕ) → IsShort (c ∷ [])
text-IsShort c = record { small = omega arith; low = omega arith }

read_value-serialize_example :
    (bytes : List ℕ) × (serialize nested ≡ ok bytes)
    × (read_value 20 (bytes ++ 5 ∷ []) ≡ (ok nested, 5 ∷ []))
unfolding IsPlain compare_text calls
read_value-serialize_example =
    read_value-serialize nested 20 (5 ∷ [])
      (
        ((refl, (refl, tt)), ((refl, tt), (tt, tt))),
        (
          (λ e. cc),
          text-IsShort b'a',
          text-IsShort b'x',
          (
            (λ e. cc),
            text-IsShort b'b',
            ((tt, tt), ((λ e. cc), text-IsShort b'n', refl, tt)),
            ((λ e. cc), text-IsShort b'c', tt, tt),
          ),
        ),
      )
      (omega arith)

-- A text of 200 bytes.
abbrev long_text : List ℕ
long_text = replicate 200 b'x'

read_value-lost_example :
    (serialize (string long_text) ≡ ok (2 ∷ written long_text))
    × (read_value 1 ((2 ∷ written long_text) ++ 5 ∷ []) ≡ (ok (string []), long_text ++ 5 ∷ []))
read_value-lost_example =
    read_value-lost long_text (5 ∷ []) 1 (omega arith) (omega arith) (omega arith)
