-- ===== src/Cgi/Html.antt =====
-- `escape_html` and `unescape_html` of core/common/cgi.cpp.
pub mod Entities
pub mod Laws
use peercast_yt.Prelude.{
  ℕ, zero, suc, ◌+◌, ◌-◌, ◌*◌, ◌%◌, Bool, true, false, ◌&&◌, ◌||◌, Option, none, some, List, [],
  ◌∷◌, ◌++◌, leb, ltb, ◌==◌, if◌then◌else◌,
}
use peercast_yt.GnuId.{hex_value}
use peercast_yt.Cgi.{is_digit, is_alnum}
use peercast_yt.Text.Utf8.{codepoint_to_utf8}
use peercast_yt.Cgi.Html.Entities.{codes, entity}

-- What `escape_html` appends for one byte.
abbrev pub escape_html_byte : ℕ → List ℕ
escape_html_byte c =
    if c == b'&'
    then codes "&amp;"
    else if c == b'<'
    then codes "&lt;"
    else if c == b'>'
    then codes "&gt;"
    else if c == b'"'
    then codes "&quot;"
    else if c == b'\''
    then codes "&#39;"
    else c ∷ []

unfoldable pub escape_html : List ℕ → List ℕ
escape_html [] = []
escape_html (c ∷ s) = escape_html_byte c ++ escape_html s

abbrev pub all_digits : List ℕ → Bool
all_digits [] = true
all_digits (c ∷ s) = is_digit c && all_digits s

abbrev pub is_hex : ℕ → Bool
is_hex c = is_digit c || (leb b'a' c && leb c b'f') || (leb b'A' c && leb c b'F')

abbrev pub all_hex : List ℕ → Bool
all_hex [] = true
all_hex (c ∷ s) = is_hex c && all_hex s

-- `isDecimal(s)` and `isHexadecimal(s)`
abbrev pub is_decimal : List ℕ → Bool
is_decimal [] = false
is_decimal (h ∷ []) = false
is_decimal (h ∷ c ∷ s) = h == b'#' && all_digits (c ∷ s)

abbrev pub is_hexadecimal : List ℕ → Bool
is_hexadecimal (h ∷ x ∷ c ∷ s) = h == b'#' && ((x == b'x' || x == b'X') && all_hex (c ∷ s))
is_hexadecimal (h ∷ x ∷ []) = false
is_hexadecimal (h ∷ []) = false
is_hexadecimal [] = false

abbrev pub digit_of : Option ℕ → ℕ
digit_of (some d) = d
digit_of none = 0

abbrev pub number_from : ℕ → ℕ → List ℕ → ℕ
number_from base n [] = n
number_from base n (c ∷ s) = number_from base (n * base + digit_of (hex_value c)) s

abbrev pub after : ℕ → List ℕ → List ℕ
after zero s = s
after (suc n) [] = []
after (suc n) (c ∷ s) = after n s

-- `std::stoll`, of digits only, as a `uint32_t`; `none` is the exception for 2 ^ 63 and above.
abbrev pub stoll : ℕ → List ℕ → Option ℕ
stoll base s =
    if leb 9223372036854775808 (number_from base 0 s)
    then none
    else some (number_from base 0 s % 4294967296)

unfoldable pub utf8_of : Option ℕ → Option (List ℕ)
unfolding codepoint_to_utf8
utf8_of (some n) = codepoint_to_utf8 n
utf8_of none = none

abbrev pub unknown : List ℕ → List ℕ
unknown ref = b'&' ∷ (ref ++ b';' ∷ [])

abbrev pub named : List ℕ → Option ℕ → Option (List ℕ)
named ref (some n) = codepoint_to_utf8 n
named ref none = some (unknown ref)

-- What is appended for a reference behind which a semicolon stands.
unfoldable pub resolve : List ℕ → Option (List ℕ)
unfolding utf8_of codepoint_to_utf8 entity
resolve [] = some (unknown [])
resolve (c ∷ s) =
    if is_decimal (c ∷ s)
    then utf8_of (stoll 10 (after 1 (c ∷ s)))
    else if is_hexadecimal (c ∷ s)
    then utf8_of (stoll 16 (after 2 (c ∷ s)))
    else named (c ∷ s) (entity (c ∷ s))

abbrev pub is_ref : ℕ → Bool
is_ref c = is_alnum c || c == b'#'

-- `none` is an exception.
unfoldable pub append : Option (List ℕ) → Option (List ℕ) → Option (List ℕ)
append none r = none
append (some a) none = none
append (some a) (some b) = some (a ++ b)

-- The loops of `unescape_html`: outside a reference, or with what was read of one.
unfoldable pub unescape_html_from : Option (List ℕ) → List ℕ → Option (List ℕ)
unfolding append resolve
unescape_html_from none [] = some []
unescape_html_from (some ref) [] = some (b'&' ∷ ref)
unescape_html_from none (c ∷ s) = elim (c == b'&') [
  | true ↦ unescape_html_from (some []) s
  | false ↦ append (some (c ∷ [])) (unescape_html_from none s)
]
unescape_html_from (some ref) (c ∷ s) = elim (is_ref c) [
  | true ↦ unescape_html_from (some (ref ++ c ∷ [])) s
  | false ↦ elim (c == b';') [
    | true ↦ append (resolve ref) (unescape_html_from none s)
    | false ↦ append (some (b'&' ∷ ref)) (elim (c == b'&') [
      | true ↦ unescape_html_from (some []) s
      | false ↦ append (some (c ∷ [])) (unescape_html_from none s)
    ])
  ]
]

unfoldable pub unescape_html : List ℕ → Option (List ℕ)
unfolding unescape_html_from
unescape_html = unescape_html_from none
