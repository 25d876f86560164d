-- ===== src/Cgi.antt =====
-- `escape` and `unescape` of core/common/cgi.cpp, on the bytes of a text.
pub mod Laws
pub mod Query
pub mod Html
mod Tests
use peercast_yt.Prelude.{
  ℕ, zero, suc, ◌+◌, ◌-◌, ◌*◌, ◌/◌, ◌%◌, Bool, true, false, ◌&&◌, ◌||◌, Option, none, some, List,
  [], ◌∷◌, ◌++◌, leb, ◌==◌, if◌then◌else◌, take,
}
use peercast_yt.GnuId.{hex_digit, hex_value, is_space}

abbrev pub is_digit : ℕ → Bool
is_digit c = leb b'0' c && leb c b'9'

abbrev pub is_alnum : ℕ → Bool
is_alnum c = is_digit c || (leb b'a' c && leb c b'z') || (leb b'A' c && leb c b'Z')

abbrev pub is_plain : ℕ → Bool
is_plain c = is_alnum c || c == b'_' || c == b'-' || c == b'.'

abbrev pub escape_byte : ℕ → List ℕ
escape_byte c =
    if is_plain c
    then c ∷ []
    else if c == b' '
    then b'+' ∷ []
    else b'%' ∷ hex_digit (c / 16) ∷ hex_digit (c % 16) ∷ []

unfoldable pub escape : List ℕ → List ℕ
escape [] = []
escape (c ∷ s) = escape_byte c ++ escape s

-- `sscanf(s, "%x", &c)` of two characters at most. `none`: no number was read, which leaves `c` with
-- no value, or the text is "0x", of which C leaves open what it is read as.

abbrev pub scan_two : ℕ → Option ℕ → ℕ → Option ℕ
scan_two n (some m) d = some (n * 16 + m)
scan_two n none d = if n == 0 && (d == b'x' || d == b'X') then none else some n

abbrev pub negated : Option ℕ → Option ℕ
negated none = none
negated (some n) = some ((256 - n) % 256)

abbrev pub scan_pair : Option ℕ → ℕ → ℕ → Option ℕ
scan_pair (some n) c d = scan_two n (hex_value d) d
scan_pair none c d =
    if is_space c || c == b'+'
    then hex_value d
    else if c == b'-'
    then negated (hex_value d)
    else none

abbrev pub scan_hex : List ℕ → Option ℕ
scan_hex [] = none
scan_hex (c ∷ []) = hex_value c
scan_hex (c ∷ d ∷ s) = scan_pair (hex_value c) c d

unfoldable pub push : Option ℕ → Option (List ℕ) → Option (List ℕ)
push none r = none
push (some c) none = none
push (some c) (some s) = some (c ∷ s)

-- The loop of `unescape`, with a number of bytes to skip first; `none` is a byte with no value.
unfoldable pub unescape_from : ℕ → List ℕ → Option (List ℕ)
unfolding push
unescape_from n [] = some []
unescape_from (suc n) (c ∷ s) = unescape_from n s
unescape_from zero (c ∷ s) = elim (c == b'%') [
  | true ↦ push (scan_hex (take 2 s)) (unescape_from 2 s)
  | false ↦ push (some (if c == b'+' then b' ' else c)) (unescape_from 0 s)
]

unfoldable pub unescape : List ℕ → Option (List ℕ)
unfolding unescape_from
unescape = unescape_from 0
