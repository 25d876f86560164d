-- ===== src/Text/Lines.antt =====
-- `to_lines` of core/common/str.cpp: a text cut behind each newline.
pub mod Laws
use peercast_yt.Prelude.{ℕ, Bool, true, false, List, [], ◌∷◌, ◌++◌, ◌==◌}

abbrev pub newline : ℕ
newline = b'\n'

-- The lines behind the ones pushed so far, `line` being collected. An empty last line is dropped.
unfoldable pub lines_loop : List ℕ → List ℕ → List (List ℕ)
lines_loop [] [] = []
lines_loop (x ∷ line) [] = (x ∷ line) ∷ []
lines_loop line (c ∷ s) = elim (c == newline) [
  | true ↦ (line ++ c ∷ []) ∷ lines_loop [] s
  | false ↦ lines_loop (line ++ c ∷ []) s
]

unfoldable pub to_lines : List ℕ → List (List ℕ)
unfolding lines_loop
to_lines = lines_loop []
