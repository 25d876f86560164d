-- ===== src/Text/Shell.antt =====
-- `escapeshellarg_unix` and `shellwords` of core/common/str.cpp: quoting of an argument for a shell,
-- and the reading of a command line into words.
pub mod Laws
use peercast_yt.Prelude.{
  ℕ, Bool, true, false, ◌||◌, ◌&&◌, not, List, [], ◌∷◌, ◌++◌, ◌==◌, if◌then◌else◌,
}

abbrev pub quote : ℕ
quote = b'\''

abbrev pub double_quote : ℕ
double_quote = b'"'

abbrev pub backslash : ℕ
backslash = b'\\'

-- What `escapeshellarg_unix` appends for one byte.
abbrev pub escape_byte : ℕ → List ℕ
escape_byte c =
    if c == quote then quote ∷ double_quote ∷ quote ∷ double_quote ∷ quote ∷ [] else c ∷ []

abbrev pub escape_bytes : List ℕ → List ℕ
escape_bytes [] = []
escape_bytes (c ∷ s) = escape_byte c ++ escape_bytes s

unfoldable pub escapeshellarg_unix : List ℕ → List ℕ
escapeshellarg_unix s = quote ∷ (escape_bytes s ++ quote ∷ [])

-- Where the iterator of `shellwords` stands: between words or in one, in a quoted string, or behind
-- a backslash.
pub data Mode : Type 0 where
  outer single double double_escape escape : Mode

pub data Words : Type 0 where
  words : List (List ℕ) → Words
  unterminated_single unterminated_double unfinished_escape : Words

abbrev pub is_space : ℕ → Bool
is_space c = c == 32 || c == 9 || c == 11

abbrev pub is_empty : List ℕ → Bool
is_empty [] = true
is_empty (x ∷ xs) = false

-- `words.push_back(curr)` behind its condition.
abbrev pub push_word : Bool → List ℕ → List (List ℕ) → List (List ℕ)
push_word allow_empty curr ws = if allow_empty || not (is_empty curr) then ws ++ curr ∷ [] else ws

abbrev pub in_quotes : ℕ → List ℕ → List ℕ
in_quotes c curr =
    if not (c == double_quote) && not (c == backslash)
    then curr ++ backslash ∷ c ∷ []
    else curr ++ c ∷ []

-- The loops of `shellwords`. At a space between words `allow_empty` and `curr` are reset with the
-- push only; without it they are false and empty.
unfoldable pub shell_loop : Mode → Bool → List ℕ → List (List ℕ) → List ℕ → Words
shell_loop outer allow_empty curr ws [] = words (push_word allow_empty curr ws)
shell_loop single allow_empty curr ws [] = unterminated_single
shell_loop double allow_empty curr ws [] = unterminated_double
shell_loop double_escape allow_empty curr ws [] = unfinished_escape
shell_loop escape allow_empty curr ws [] = unfinished_escape
shell_loop outer allow_empty curr ws (c ∷ s) = elim (is_space c) [
  | true ↦ shell_loop outer false [] (push_word allow_empty curr ws) s
  | false ↦ elim (c == quote) [
    | true ↦ shell_loop single allow_empty curr ws s
    | false ↦ elim (c == double_quote) [
      | true ↦ shell_loop double allow_empty curr ws s
      | false ↦ elim (c == backslash) [
        | true ↦ shell_loop escape allow_empty curr ws s
        | false ↦ shell_loop outer allow_empty (curr ++ c ∷ []) ws s
      ]
    ]
  ]
]
shell_loop single allow_empty curr ws (c ∷ s) = elim (c == quote) [
  | true ↦ shell_loop outer true curr ws s
  | false ↦ shell_loop single allow_empty (curr ++ c ∷ []) ws s
]
shell_loop double allow_empty curr ws (c ∷ s) = elim (c == double_quote) [
  | true ↦ shell_loop outer true curr ws s
  | false ↦ elim (c == backslash) [
    | true ↦ shell_loop double_escape allow_empty curr ws s
    | false ↦ shell_loop double allow_empty (curr ++ c ∷ []) ws s
  ]
]
shell_loop double_escape allow_empty curr ws (c ∷ s) =
    shell_loop double allow_empty (in_quotes c curr) ws s
shell_loop escape allow_empty curr ws (c ∷ s) = shell_loop outer allow_empty (curr ++ c ∷ []) ws s

unfoldable pub shellwords : List ℕ → Words
unfolding shell_loop
shellwords s = shell_loop outer false [] [] s
