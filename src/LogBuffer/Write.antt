-- ===== src/LogBuffer/Write.antt =====
-- What `write` puts in the buffer.
use peercast_yt.Prelude.{
  ℕ, zero, suc, ◌+◌, ◌-◌, ◌≤◌, ◌<◌, ◌≡◌, ◌≢◌, ◌⊎◌, refl, sym, ap, subst, ◌∙◌, inl, inr, true, none,
  some, List, [], ◌∷◌, ◌++◌, dec_le, min, arith, length, length-append, append_assoc, append-nil,
  drop, drop-append,
}
use peercast_yt.Prelude.Words.{u32_mod}
use peercast_yt.Text.Utf8.{tail_count, validate_from, validate_utf8}
use peercast_yt.Text.Split.Joined.{Lacks}
use peercast_yt.LogBuffer.{
  max_lines, line_len, LogType, Line, Log, copy_from, copy_utf8, put_line, line_of, write_loop,
  write, each_line,
}
use peercast_yt.LogBuffer.Copy.{copy_from_lem, copied_some, copy-stop}
use peercast_yt.LogBuffer.Ring.{Holds, put_line-Holds, each_line-Holds}

-- The texts of lines, one after the other.
abbrev pub texts : List Line → List ℕ
texts [] = []
texts (l ∷ ls) = l.text ++ texts ls

-- The first line has the time and the type, each further one none; every line is valid, not empty, and
-- short enough for its place.
abbrev pub AreLines : ℕ → LogType → ℕ → List Line → Type 0
AreLines now t cnt [] = Unit
AreLines now t cnt (l ∷ ls) =
    (l ≡ line_of now t cnt l.text)
    × (validate_utf8 l.text ≡ true)
    × (0 < length l.text)
    × (length l.text < line_len)
    × AreLines now t (cnt + 1) ls

pub put_all : List Line → Log → Log
unfolding put_line
put_all [] b = b
put_all (l ∷ ls) b = put_all ls (put_line l b)

pub put_all-Holds :
    (h ls : List Line) (b : Log)
    → Holds h b
    → length h + length ls < u32_mod
    → Holds (h ++ ls) (put_all ls b)
unfolding put_all
put_all-Holds h [] b i small = subst (λ r. Holds r b) (sym (append-nil h)) i
put_all-Holds h (l ∷ ls) b i small =
    subst (λ r. Holds r (put_all ls (put_line l b))) (append_assoc h (l ∷ []) ls)
      (put_all-Holds (h ++ l ∷ []) ls (put_line l b) (put_line-Holds h l b i (omega (arith, small)))
        (omega (arith, small, length-append h (l ∷ []))))

Lacks-behind : (c : ℕ) (a b : List ℕ) → Lacks c (a ++ b) → Lacks c b
Lacks-behind c [] b h = h
Lacks-behind c (x ∷ a) b h = Lacks-behind c a b h.1

abbrev room_of : List ℕ → ℕ
room_of s = min (length s) (line_len - 1)

write_step :
    (fuel now : ℕ) (t : LogType) (cnt c : ℕ) (s r rest : List ℕ) (b : Log)
    → copy_utf8 (c ∷ s) (room_of (c ∷ s)) ≡ r
    → c ∷ s ≡ r ++ rest
    → write_loop (suc fuel) now t cnt (c ∷ s) b
      ≡ write_loop fuel now t (cnt + 1) rest (put_line (line_of now t cnt r) b)
unfolding write_loop
write_step fuel now t cnt c s r rest b e w =
    ap
      (λ q.
        write_loop fuel now t (cnt + 1) (drop (length q) (c ∷ s))
          (put_line (line_of now t cnt q) b))
      e
    ∙ ap (λ q. write_loop fuel now t (cnt + 1) q (put_line (line_of now t cnt r) b))
        (ap (drop (length r)) w ∙ drop-append r rest)

-- The first line of a text that is valid and not empty, and the rest.
record First (c : ℕ) (s : List ℕ) : Type 0 where
  line : List ℕ
  rest : List ℕ
  copied : copy_utf8 (c ∷ s) (room_of (c ∷ s)) ≡ line
  whole : c ∷ s ≡ line ++ rest
  valid : validate_from 0 line ≡ true
  valid_rest : validate_from 0 rest ≡ true
  some_byte : 0 < length line
  fits : length line < line_len

first : (c : ℕ) (s : List ℕ) → validate_from 0 (c ∷ s) ≡ true → Lacks 0 (c ∷ s) → First c s
unfolding copy_utf8
first c s v z =
    let m = copy_from_lem 0 (room_of (c ∷ s)) (c ∷ s) v z in
    record {
      line = copy_from 0 (room_of (c ∷ s)) (c ∷ s);
      rest = m.rest;
      copied = refl;
      whole = m.whole;
      valid = m.valid;
      valid_rest = m.valid_rest;
      some_byte = copied_some (room_of (c ∷ s)) c s v z.0 (enough (length s));
      fits = omega (arith, m.fits);
    }
  where
    enough : (n : ℕ) → (4 ≤ min (suc n) (line_len - 1)) ⊎ (suc n ≤ min (suc n) (line_len - 1))
    enough n = elim (dec_le 4 (suc n)) [ yes e ↦ inl (omega arith) | no e ↦ inr (omega arith) ]

pub write_loop_lem :
    (fuel now : ℕ) (t : LogType) (cnt : ℕ) (s : List ℕ) (b : Log)
    → length s < fuel
    → validate_from 0 s ≡ true
    → Lacks 0 s
    → (ls : List Line) × (write_loop fuel now t cnt s b ≡ some (put_all ls b))
      × (texts ls ≡ s)
      × AreLines now t cnt ls
unfolding write_loop put_all validate_utf8
write_loop_lem zero now t cnt s b h v z = absurd (omega arith)
write_loop_lem (suc fuel) now t cnt [] b h v z = ([], refl, refl, tt)
write_loop_lem (suc fuel) now t cnt (c ∷ s) b h v z =
    let f = first c s v z in
    let (ls, e, w, a) =
      write_loop_lem fuel now t (cnt + 1) f.rest (put_line (line_of now t cnt f.line) b)
        (omega (arith, h, f.some_byte, ap length f.whole, length-append f.line f.rest)) f.valid_rest
        (Lacks-behind 0 f.line f.rest (subst (Lacks 0) f.whole z)) in
    (
      line_of now t cnt f.line ∷ ls,
      write_step fuel now t cnt c s f.line f.rest b f.copied f.whole ∙ e,
      ap (λ r. f.line ++ r) w ∙ sym f.whole,
      (refl, f.valid, f.some_byte, f.fits, a),
    )

pub few_lines :
    (now : ℕ) (t : LogType) (cnt : ℕ) (ls : List Line)
    → AreLines now t cnt ls
    → length ls ≤ length (texts ls)
few_lines now t cnt [] a = omega arith
few_lines now t cnt (l ∷ ls) a =
    omega (arith, a.2, few_lines now t (cnt + 1) ls a.4, length-append l.text (texts ls))

-- `write` of a text that is valid UTF-8 returns within as many rounds as it has bytes, and one. The
-- lines that it puts in the buffer make up the text, each of them valid, not empty and shorter than its
-- place; the first has the time and the type, the others none. What `eachLine` then passes on is the last
-- 1000 of all the lines that were put since the buffer was cleared, in their order, as long as they are
-- fewer than 2 ^ 32.
pub write_lem :
    (h : List Line) (now : ℕ) (t : LogType) (s : List ℕ) (b : Log)
    → Holds h b
    → length h + length s < u32_mod
    → validate_utf8 s ≡ true
    → Lacks 0 s
    → (ls : List Line) × (b' : Log) × (write (length s + 1) now t s b ≡ some b')
      × (texts ls ≡ s)
      × AreLines now t 0 ls
      × Holds (h ++ ls) b'
      × (each_line b' ≡ drop (length (h ++ ls) - max_lines) (h ++ ls))
unfolding write validate_utf8
write_lem h now t s b i small v z =
    let (ls, e, w, a) = write_loop_lem (length s + 1) now t 0 s b (omega arith) v z in
    let holds =
      put_all-Holds h ls b i (omega (arith, small, few_lines now t 0 ls a, ap length w)) in
    (ls, put_all ls b, e, w, a, holds, each_line-Holds (h ++ ls) (put_all ls b) holds)

-- On a text that is the first byte of a longer character alone, `write` never returns.
pub write_stuck :
    (fuel now : ℕ) (t : LogType) (cnt c k : ℕ) (b : Log)
    → tail_count c ≡ some (suc k)
    → c ≢ 0
    → write_loop fuel now t cnt (c ∷ []) b ≡ none
unfolding write_loop copy_utf8
write_stuck zero now t cnt c k b e z = refl
write_stuck (suc fuel) now t cnt c k b e z =
    write_step fuel now t cnt c [] [] (c ∷ []) b (copy-stop 1 c (suc k) [] e z (omega arith)) refl
    ∙ write_stuck fuel now t (cnt + 1) c k (put_line (line_of now t cnt []) b) e z
