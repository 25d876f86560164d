-- ===== src/LogBuffer/Add/Laws.antt =====
-- A message of any bytes is logged, and the log returns.
use peercast_yt.Prelude.{
  ℕ, suc, ◌+◌, ◌≤◌, ◌<◌, ◌≡◌, ◌⊎◌, refl, sym, ap, subst, ◌∙◌, inl, inr, Bool, true, false, ◌&&◌,
  Option, some, List, [], ◌∷◌, ◌++◌, ltb, leb, ◌==◌, arith, length, append-nil, All, IsByte,
  Bool-cases, ltb→lt, ltb_false→le, ==_iff,
}
use peercast_yt.Prelude.Bits.{all_below_lem}
use peercast_yt.Prelude.Words.{u32_mod}
use peercast_yt.Text.Utf8.{validate_from, validate_utf8, truncate_utf8}
use peercast_yt.Text.Utf8.Laws.{validate-lead, truncate_utf8_lem}
use peercast_yt.Text.Utf8.Encode.{lead_one}
use peercast_yt.Text.Split.Joined.{Lacks}
use peercast_yt.LogBuffer.{LogType, Line, Log, write}
use peercast_yt.LogBuffer.Ring.{Holds}
use peercast_yt.LogBuffer.Write.{texts, AreLines, put_all, put_all-Holds, few_lines, write_loop_lem}
use peercast_yt.LogBuffer.Add.{
  log_escape_byte, log_escape, max_linelen, log_text, type_value, write_log, add_log,
}

-- Bytes of ASCII, none of them 0.
all_ascii : List ℕ → Bool
all_ascii [] = true
all_ascii (c ∷ s) = (leb 1 c && leb c 127) && all_ascii s

all_ascii-append :
    (a b : List ℕ) → all_ascii a ≡ true → all_ascii b ≡ true → all_ascii (a ++ b) ≡ true
unfolding all_ascii
all_ascii-append [] b h k = k
all_ascii-append (c ∷ a) b h k = ground (arith, all_ascii-append a b)

log_escape-all_ascii : (s : List ℕ) → All IsByte s → all_ascii (log_escape s) ≡ true
unfolding log_escape all_ascii
log_escape-all_ascii [] h = refl
log_escape-all_ascii (c ∷ s) h =
    all_ascii-append (log_escape_byte c) (log_escape s)
      (all_below_lem 256 (λ c. all_ascii (log_escape_byte c)) c refl h.0)
      (log_escape-all_ascii s h.1)

record IsAscii (c : ℕ) (s : List ℕ) : Type 0 where
  low : 1 ≤ c
  high : c ≤ 127
  more : all_ascii s ≡ true

all_ascii-cons : (c : ℕ) (s : List ℕ) → all_ascii (c ∷ s) ≡ true → IsAscii c s
unfolding all_ascii
all_ascii-cons c s h = record { low = ground arith; high = ground arith; more = ground arith }

ascii-valid : (s : List ℕ) → all_ascii s ≡ true → (validate_from 0 s ≡ true) × Lacks 0 s
unfolding validate_from all_ascii
ascii-valid [] h = (refl, tt)
ascii-valid (c ∷ s) h =
    let a = all_ascii-cons c s h in
    let m = ascii-valid s a.more in
    (
      validate-lead c 0 s (lead_one c (omega (arith, a.high))) ∙ m.0,
      ((λ e. absurd (omega (arith, e, a.low))), m.1),
    )

Lacks-front : (c : ℕ) (a b : List ℕ) → Lacks c (a ++ b) → Lacks c a
Lacks-front c [] b h = tt
Lacks-front c (x ∷ a) b h = (h.0, Lacks-front c a b h.1)

-- A text that is fit for the log.
record IsFit (s : List ℕ) : Type 0 where
  valid : validate_utf8 s ≡ true
  no_nul : Lacks 0 s
  short : length s ≤ max_linelen

fit :
    (s : List ℕ)
    → validate_utf8 s ≡ true
    → Lacks 0 s
    → (r : List ℕ) × (truncate_utf8 s max_linelen ≡ some r) × IsFit r
unfolding validate_utf8
fit s v z =
    let (r, e, c) = truncate_utf8_lem s max_linelen v in
    (
      r,
      e,
      record {
        valid = c.valid;
        no_nul = Lacks-front 0 r c.rest (subst (Lacks 0) c.whole z);
        short = omega (arith, c.fits);
      },
    )

log_text-IsFit :
    (tmp : List ℕ) → All IsByte tmp → Lacks 0 tmp → (s : List ℕ) × (log_text tmp ≡ some s) × IsFit s
unfolding log_text validate_utf8
log_text-IsFit tmp h z = elim (Bool-cases (validate_utf8 tmp)) [
  | inl e ↦ rw e (fit tmp e z)
  | inr e ↦
      let a = ascii-valid (log_escape tmp) (log_escape-all_ascii tmp h) in
      rw e (fit (log_escape tmp) a.0 a.1)
]

-- The lines `ls` are those of the text, or there are none, since it is not to be logged.
abbrev pub Logged : Bool → ℕ → ℕ → LogType → List ℕ → List Line → Type 0
Logged kept level now t s ls =
    ((kept ≡ true)
      × (level ≤ type_value t)
      × (0 < type_value t)
      × (texts ls ≡ s)
      × AreLines now t 0 ls)
    ⊎ (((kept ≡ false) ⊎ ((type_value t < level) ⊎ (type_value t ≡ 0))) × (ls ≡ []))

-- A log that holds `h` becomes one that holds `ls` as well.
record Grown (h ls : List Line) (o : Option Log) : Type 0 where
  log : Log
  returns : o ≡ some log
  holds : Holds (h ++ ls) log

unchanged : (h : List Line) (b : Log) → Holds h b → Grown h [] (some b)
unchanged h b i = record {
  log = b;
  returns = refl;
  holds = subst (λ r. Holds r b) (sym (append-nil h)) i;
}

module _ (h : List Line) (level now : ℕ) (t : LogType) (s : List ℕ) (b : Log) (i : Holds h b)
    (f : IsFit s) where
  write_fit :
      length h + max_linelen < u32_mod
      → (ls : List Line) × Grown h ls (write (suc max_linelen) now t s b)
        × (texts ls ≡ s)
        × AreLines now t 0 ls
  unfolding write validate_utf8
  write_fit small =
      let (ls, e, w, a) =
        write_loop_lem (suc max_linelen) now t 0 s b (omega (arith, f.short)) f.valid f.no_nul in
      (
        ls,
        record {
          log = put_all ls b;
          returns = e;
          holds =
              put_all-Holds h ls b i
                (omega (arith, small, few_lines now t 0 ls a, ap length w, f.short));
        },
        w,
        a,
      )

  write_log_lem :
      length h + max_linelen < u32_mod
      → (ls : List Line) × Grown h ls (write_log level now t s b) × Logged true level now t s ls
  unfolding write_log
  write_log_lem small = elim (Bool-cases (ltb (type_value t) level)) [
    | inl low ↦
        ([], rw low (unchanged h b i), inr (inr (inl (ltb→lt (type_value t) level low)), refl))
    | inr high ↦ elim (Bool-cases (type_value t == 0)) [
      | inl zero_type ↦ (
        [],
        rw (high, zero_type) (unchanged h b i),
        inr (inr (inr ((==_iff (type_value t) 0).0 zero_type)), refl),
      )
      | inr other ↦
          let (ls, g, w, a) = write_fit small in
          (
            ls,
            rw (high, other) g,
            inl (refl, ltb_false→le (type_value t) level high, positive (type_value t) other, w, a),
          )
    ]
  ]
    where
      positive : (n : ℕ) → (n == 0) ≡ false → 0 < n
      positive n e = ground arith

-- `ADDLOG` of a message that is a C string, whatever its bytes are, returns: its text is valid UTF-8
-- without an exception, and of at most 1024 bytes, so that `write` returns as well, within as many rounds
-- as that takes. The log then holds the lines that it held and, behind them, those of the text, if it is
-- kept, the level is not above the type, and the type is not that of a continuation; else no others.
pub add_log_lem :
    (h : List Line) (kept : Bool) (level now : ℕ) (t : LogType) (tmp : List ℕ) (b : Log)
    → Holds h b
    → length h + max_linelen < u32_mod
    → All IsByte tmp
    → Lacks 0 tmp
    → (s : List ℕ) × (ls : List Line) × (b' : Log) × (log_text tmp ≡ some s)
      × (validate_utf8 s ≡ true)
      × (length s ≤ max_linelen)
      × (add_log kept level now t tmp b ≡ some b')
      × Holds (h ++ ls) b'
      × Logged kept level now t s ls
unfolding add_log
add_log_lem h false level now t tmp b i small bytes z =
    let (s, e, f) = log_text-IsFit tmp bytes z in
    let g = unchanged h b i in
    (s, [], g.log, e, f.valid, f.short, g.returns, g.holds, inr (inl refl, refl))
add_log_lem h true level now t tmp b i small bytes z =
    let (s, e, f) = log_text-IsFit tmp bytes z in
    let (ls, g, l) = write_log_lem h level now t s b i f small in
    (s, ls, g.log, e, f.valid, f.short, rw (e, add_log) g.returns, g.holds, l)
