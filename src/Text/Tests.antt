-- ===== src/Text/Tests.antt =====
-- The theorems on texts at concrete inputs.
use peercast_yt.Prelude.{
  ℕ, ◌≤◌, ◌<◌, ◌≡◌, ◌⊎◌, refl, true, false, none, some, List, [], ◌∷◌, All, length, min,
}
use peercast_yt.Io.{write_utf8}
use peercast_yt.Text.Utf8.{is_tail, tail_count, validate_utf8, truncate_utf8, codepoint_to_utf8}
use peercast_yt.Text.Utf8.Laws.{Cut, truncate_utf8_lem}
use peercast_yt.Text.Utf8.Encode.{codepoint_to_utf8_lem}
use peercast_yt.Text.Split.{c_str, split, split_limit, join}
use peercast_yt.Text.Split.Laws.{Has, split_lem}
use peercast_yt.Text.Shell.{escapeshellarg_unix, words, shellwords}
use peercast_yt.Text.Shell.Laws.{shellwords-escapeshellarg_unix}

-- "a", a character of three bytes, and "b".
abbrev mixed : List ℕ
mixed = b'a' ∷ 0xE3 ∷ 0x81 ∷ 0x82 ∷ b'b' ∷ []

truncate_utf8_lem_example : (r : List ℕ) × (truncate_utf8 mixed 3 ≡ some r) × Cut 3 0 0 mixed r
unfolding validate_utf8 tail_count is_tail
truncate_utf8_lem_example = truncate_utf8_lem mixed 3 refl

codepoint_to_utf8_lem_example :
    ((0x110000 ≤ 0xe9) × (codepoint_to_utf8 0xe9 ≡ none))
    ⊎ ((0xe9 < 0x110000)
        × ((0xe9 < 0x80) ⊎ (0x800 ≤ 0xe9))
        × (codepoint_to_utf8 0xe9 ≡ some (write_utf8 0xe9))
        × (validate_utf8 (write_utf8 0xe9) ≡ true))
    ⊎ ((0x80 ≤ 0xe9)
        × (0xe9 < 0x800)
        × ((s : List ℕ) × (codepoint_to_utf8 0xe9 ≡ some s) × (validate_utf8 s ≡ false)))
codepoint_to_utf8_lem_example = codepoint_to_utf8_lem 0xe9

abbrev query_text : List ℕ
query_text = b'a' ∷ b'=' ∷ b'1' ∷ b'=' ∷ b'2' ∷ []

abbrev equal_sign : List ℕ
equal_sign = b'=' ∷ []

split_lem_example :
    (ps : List (List ℕ)) × (qs : List (List ℕ)) × (split 6 query_text equal_sign ≡ some ps)
    × (join equal_sign ps ≡ query_text)
    × All (λ s. ¬ Has equal_sign s) ps
    × (split_limit 6 query_text equal_sign 2 ≡ some qs)
    × (join equal_sign qs ≡ query_text)
    × (length qs ≡ min 2 (length ps))
unfolding c_str
split_lem_example = split_lem query_text equal_sign 1 (λ e. cc)

abbrev two_lines : List ℕ
two_lines = b'a' ∷ b'\n' ∷ b'b' ∷ []

abbrev quoted : List ℕ
quoted = b'a' ∷ b'\'' ∷ b' ' ∷ b'b' ∷ []

shellwords-escapeshellarg_unix_example :
    shellwords (escapeshellarg_unix quoted) ≡ words (quoted ∷ [])
shellwords-escapeshellarg_unix_example = shellwords-escapeshellarg_unix quoted
