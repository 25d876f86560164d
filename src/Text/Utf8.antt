-- ===== src/Text/Utf8.antt =====
-- `validate_utf8`, `truncate_utf8` and `codepoint_to_utf8` of core/common/str.cpp. The loops that step
-- over the bytes behind a leading byte are the same loop with that many bytes to come.
pub mod Laws
pub mod Encode
use peercast_yt.Prelude.{
  ℕ, zero, suc, ◌+◌, ◌/◌, ◌%◌, Bool, true, false, Option, none, some, List, [], ◌∷◌, ◌++◌, ltb, leb,
  ◌==◌, if◌then◌else◌, bit_and, bit_or, length,
}

-- 10xx xxxx
unfoldable pub is_tail : ℕ → Bool
is_tail b = bit_and b 0xC0 == 0x80

-- How many bytes are to follow a leading byte; `none` for a byte that leads no character.
unfoldable pub tail_count : ℕ → Option ℕ
tail_count b =
    if bit_and b 0x80 == 0
    then some 0
    else if bit_and b 0xE0 == 0xC0
    then some 1
    else if bit_and b 0xF0 == 0xE0
    then some 2
    else if bit_and b 0xF8 == 0xF0
    then some 3
    else none

-- `validate_utf8`, with `n` bytes of a character to come.
unfoldable pub validate_from : ℕ → List ℕ → Bool
validate_from zero [] = true
validate_from (suc n) [] = false
validate_from zero (b ∷ s) = elim (tail_count b) [ some n ↦ validate_from n s | none ↦ false ]
validate_from (suc n) (b ∷ s) = elim (is_tail b) [ true ↦ validate_from n s | false ↦ false ]

unfoldable pub validate_utf8 : List ℕ → Bool
unfolding validate_from
validate_utf8 = validate_from 0

-- `truncate_utf8(str, length)`, with `n` bytes of a character to come; `none` is the exception.
unfoldable pub truncate_from : ℕ → ℕ → List ℕ → List ℕ → Option (List ℕ)
truncate_from len zero dest [] = some dest
truncate_from len (suc n) dest [] = none
truncate_from len zero dest (b ∷ s) = elim (tail_count b) [
  | some n ↦ elim (ltb len (length dest + (1 + n))) [
    | true ↦ some dest
    | false ↦ truncate_from len n (dest ++ b ∷ []) s
  ]
  | none ↦ none
]
truncate_from len (suc n) dest (b ∷ s) = elim (is_tail b) [
  | true ↦ truncate_from len n (dest ++ b ∷ []) s
  | false ↦ none
]

unfoldable pub truncate_utf8 : List ℕ → ℕ → Option (List ℕ)
unfolding truncate_from
truncate_utf8 s len = truncate_from len 0 [] s

-- `codepoint_to_utf8`; `none` is the exception.
unfoldable pub codepoint_to_utf8 : ℕ → Option (List ℕ)
codepoint_to_utf8 cp =
    if leb 0x110000 cp
    then none
    else if leb cp 0x7f
    then some (cp ∷ [])
    else if leb cp 0x7ff
    then some (bit_or 0xb0 (cp / 0x40) ∷ (0x80 + cp % 0x40) ∷ [])
    else if leb cp 0xffff
    then some ((0xe0 + cp / 0x1000) ∷ (0x80 + cp / 0x40 % 0x40) ∷ (0x80 + cp % 0x40) ∷ [])
    else some (
        (0xf0 + cp / 0x40000)
        ∷ (0x80 + cp / 0x1000 % 0x40)
        ∷ (0x80 + cp / 0x40 % 0x40)
        ∷ (0x80 + cp % 0x40)
        ∷ [])
