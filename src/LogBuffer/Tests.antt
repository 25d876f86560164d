-- ===== src/LogBuffer/Tests.antt =====
-- The theorems on the log at concrete inputs.
use peercast_yt.Prelude.{
  ℕ, ◌-◌, ◌≤◌, ◌≡◌, refl, true, some, List, [], ◌∷◌, arith, length, drop, replicate,
  length-replicate,
}
use peercast_yt.Text.Utf8.{tail_count, validate_utf8}
use peercast_yt.LogBuffer.{max_lines, t_info, Line, Log, no_line, write, each_line}
use peercast_yt.LogBuffer.Ring.{Holds}
use peercast_yt.LogBuffer.Write.{texts, AreLines, write_lem}
use peercast_yt.LogBuffer.Add.{max_linelen, log_text, add_log}
use peercast_yt.LogBuffer.Add.Laws.{Logged, add_log_lem}

-- A buffer in which nothing was put.
abbrev empty_log : Log
empty_log = record { lines = replicate 1000 no_line; curr_line = 0 }

empty-Holds : Holds [] empty_log
empty-Holds = record {
  number = refl;
  size = length-replicate 1000 no_line;
  kept = λ j h k. absurd (omega arith);
}

abbrev message : List ℕ
message = b'o' ∷ b'k' ∷ []

write_lem_example :
    (ls : List Line) × (b : Log) × (write 3 7 t_info message empty_log ≡ some b)
    × (texts ls ≡ message)
    × AreLines 7 t_info 0 ls
    × Holds ls b
    × (each_line b ≡ drop (length ls - max_lines) ls)
unfolding validate_utf8 tail_count
write_lem_example =
    write_lem [] 7 t_info message empty_log empty-Holds (omega arith) refl
      ((λ e. absurd (omega arith)), ((λ e. absurd (omega arith)), tt))

-- A byte that is no character, and a letter.
abbrev broken : List ℕ
broken = 0xE3 ∷ b'a' ∷ []

add_log_lem_example :
    (s : List ℕ) × (ls : List Line) × (b : Log) × (log_text broken ≡ some s)
    × (validate_utf8 s ≡ true)
    × (length s ≤ max_linelen)
    × (add_log true 2 7 t_info broken empty_log ≡ some b)
    × Holds ls b
    × Logged true 2 7 t_info s ls
add_log_lem_example =
    add_log_lem [] true 2 7 t_info broken empty_log empty-Holds (omega arith)
      (omega arith, (omega arith, tt))
      ((λ e. absurd (omega arith)), ((λ e. absurd (omega arith)), tt))
