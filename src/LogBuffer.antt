-- ===== src/LogBuffer.antt =====
-- `LogBuffer` of core/common/logbuf.h and logbuf.cpp: a ring of lines, each kept as the C string in its
-- part of `buf` with its time and type. The sizes are those with which core/common/sys.cpp makes the
-- buffer. The time is an argument; the listeners, which are called with the text, are not modelled.
pub mod Copy
pub mod Write
pub mod Ring
pub mod Add
mod Tests
use peercast_yt.Prelude.{
  ℕ, zero, suc, ◌+◌, ◌-◌, ◌%◌, Bool, true, false, Option, none, some, List, [], ◌∷◌, ltb, ◌==◌,
  if◌then◌else◌, min, bit_and, length, get_or, set, drop,
}
use peercast_yt.Prelude.Words.{add32}

abbrev pub max_lines : ℕ
max_lines = 1000

abbrev pub line_len : ℕ
line_len = 100

-- The values of `TYPE`.
pub data LogType : Type 0 where
  t_none t_trace t_debug t_info t_warn t_error t_fatal t_off : LogType

pub record Line : Type 0 where
  pub time : ℕ
  pub type : LogType
  pub text : List ℕ

pub record Log : Type 0 where
  pub lines : List Line
  pub curr_line : ℕ

-- The bytes of a character, by its first byte; a malformed one counts as one.
unfoldable pub char_len : ℕ → ℕ
char_len c =
    if bit_and c 0x80 == 0
    then 1
    else if bit_and c 0xE0 == 0xC0
    then 2
    else if bit_and c 0xF0 == 0xE0
    then 3
    else if bit_and c 0xF8 == 0xF0
    then 4
    else 1

-- The loops of `copy_utf8`: the bytes of a character still to copy, `buflen` behind that character, and
-- the source. Its value is what is copied; the code returns how many bytes that is.
unfoldable pub copy_from : ℕ → ℕ → List ℕ → List ℕ
unfolding char_len
copy_from n buflen [] = []
copy_from (suc n) buflen (c ∷ s) = c ∷ copy_from n buflen s
copy_from zero buflen (c ∷ s) = elim (buflen == 0) [
  | true ↦ []
  | false ↦ elim (c == 0) [
    | true ↦ []
    | false ↦ elim (ltb buflen (char_len c)) [
      | true ↦ []
      | false ↦ c ∷ copy_from (char_len c - 1) (buflen - char_len c) s
    ]
  ]
]

unfoldable pub copy_utf8 : List ℕ → ℕ → List ℕ
unfolding copy_from
copy_utf8 src buflen = copy_from 0 buflen src

-- A line put at `currLine % maxLines`, and `currLine++`.
unfoldable pub put_line : Line → Log → Log
put_line l b = record b {
  lines = set b.lines (b.curr_line % max_lines) l;
  curr_line = add32 b.curr_line 1;
}

abbrev pub line_of : ℕ → LogType → ℕ → List ℕ → Line
line_of now t cnt b = record {
  time = if cnt == 0 then now else 0;
  type = if cnt == 0 then t else t_none;
  text = b;
}

-- The loop of `write`, with the text still to write; `none` means that the fuel ran out.
unfoldable pub write_loop : ℕ → ℕ → LogType → ℕ → List ℕ → Log → Option Log
unfolding copy_utf8 put_line
write_loop zero now t cnt str b = none
write_loop (suc fuel) now t cnt [] b = some b
write_loop (suc fuel) now t cnt (c ∷ s) b =
    let copied = copy_utf8 (c ∷ s) (min (length (c ∷ s)) (line_len - 1)) in
    write_loop fuel now t (cnt + 1) (drop (length copied) (c ∷ s))
      (put_line (line_of now t cnt copied) b)

unfoldable pub write : ℕ → ℕ → LogType → List ℕ → Log → Option Log
unfolding write_loop
write fuel now t str b = write_loop fuel now t 0 str b

abbrev pub no_line : Line
no_line = record { time = 0; type = t_none; text = [] }

-- The loop of `eachLine`, over `n` lines from `sp` on; its value is what is passed to the block.
unfoldable pub each_from : ℕ → ℕ → List Line → List Line
each_from zero sp ls = []
each_from (suc n) sp ls = get_or ls sp no_line ∷ each_from n ((sp + 1) % max_lines) ls

unfoldable pub each_line : Log → List Line
unfolding each_from
each_line b =
    if ltb b.curr_line max_lines
    then each_from b.curr_line 0 b.lines
    else each_from max_lines (b.curr_line % max_lines) b.lines

-- `clear()`
abbrev pub clear : Log → Log
clear b = record b { curr_line = 0 }
