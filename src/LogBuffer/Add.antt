-- ===== src/LogBuffer/Add.antt =====
-- `ADDLOG` and `log_escape` of core/common/peercast.cpp: from the text of a message to the log. That a
-- log is kept, and not paused, is an argument, as the level is; the functions that are called with the
-- text besides the log are not modelled.
pub mod Laws
use peercast_yt.Prelude.{
  ℕ, suc, ◌+◌, ◌/◌, ◌%◌, Bool, true, false, ◌&&◌, Option, none, some, List, [], ◌∷◌, ◌++◌, ltb, leb,
  ◌==◌, if◌then◌else◌, length,
}
use peercast_yt.GnuId.{hex_digit}
use peercast_yt.Text.Utf8.{validate_utf8, truncate_utf8}
use peercast_yt.LogBuffer.{
  LogType, t_none, t_trace, t_debug, t_info, t_warn, t_error, t_fatal, t_off, Log, write,
}

-- What `log_escape` appends for one byte.
abbrev pub log_escape_byte : ℕ → List ℕ
log_escape_byte c =
    if leb 0x20 c && leb c 0x7E
    then c ∷ []
    else b'[' ∷ hex_digit (c / 16) ∷ hex_digit (c % 16) ∷ b']' ∷ []

unfoldable pub log_escape : List ℕ → List ℕ
log_escape [] = []
log_escape (c ∷ s) = log_escape_byte c ++ log_escape s

abbrev pub max_linelen : ℕ
max_linelen = 1024

-- The text that is logged; `none` is the exception of `truncate_utf8`.
unfoldable pub log_text : List ℕ → Option (List ℕ)
unfolding validate_utf8 truncate_utf8 log_escape
log_text tmp = truncate_utf8 (if validate_utf8 tmp then tmp else log_escape tmp) max_linelen

abbrev pub type_value : LogType → ℕ
type_value t_none = 0
type_value t_trace = 1
type_value t_debug = 2
type_value t_info = 3
type_value t_warn = 4
type_value t_error = 5
type_value t_fatal = 6
type_value t_off = 7

-- The end of `ADDLOG`, with rounds of `write` for the longest text.
unfoldable pub write_log : ℕ → ℕ → LogType → List ℕ → Log → Option Log
unfolding write
write_log level now t s b =
    let written = write (suc max_linelen) now t s b in
    if ltb (type_value t) level then some b else if type_value t == 0 then some b else written

unfoldable pub add_log : Bool → ℕ → ℕ → LogType → List ℕ → Log → Option Log
unfolding log_text write_log
add_log kept level now t tmp b = elim kept [
  | false ↦ some b
  | true ↦ elim (log_text tmp) [ none ↦ none | some s ↦ write_log level now t s b ]
]
