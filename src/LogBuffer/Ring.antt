-- ===== src/LogBuffer/Ring.antt =====
-- The lines that are kept: the last ones, in the order in which they were put.
use peercast_yt.Prelude.{
  ℕ, zero, suc, ◌+◌, ◌-◌, ◌%◌, ◌≤◌, ◌<◌, ◌≡◌, ◌≢◌, ℕ_discrete, refl, sym, ap, ◌∙◌, List, [], ◌∷◌,
  ◌++◌, ltb, arith, length, length-append, get_or, set, drop, if-elim, ltb→lt, ltb_false→le,
}
use peercast_yt.Prelude.Words.{u32_mod}
use peercast_yt.LogBuffer.{max_lines, Line, Log, put_line, no_line, each_from, each_line}

length-set : (ls : List Line) (i : ℕ) (v : Line) → length (set ls i v) ≡ length ls
length-set [] i v = refl
length-set (l ∷ ls) zero v = refl
length-set (l ∷ ls) (suc i) v = ap suc (length-set ls i v)

get_or-set_same :
    (ls : List Line) (i : ℕ) (v d : Line) → i < length ls → get_or (set ls i v) i d ≡ v
get_or-set_same [] i v d h = absurd (omega arith)
get_or-set_same (l ∷ ls) zero v d h = refl
get_or-set_same (l ∷ ls) (suc i) v d h = get_or-set_same ls i v d (omega arith)

get_or-set_other :
    (ls : List Line) (i j : ℕ) (v d : Line) → i ≢ j → get_or (set ls i v) j d ≡ get_or ls j d
get_or-set_other [] i j v d h = refl
get_or-set_other (l ∷ ls) zero zero v d h = absurd (h refl)
get_or-set_other (l ∷ ls) zero (suc j) v d h = refl
get_or-set_other (l ∷ ls) (suc i) zero v d h = refl
get_or-set_other (l ∷ ls) (suc i) (suc j) v d h = get_or-set_other ls i j v d (λ e. h (ap suc e))

get_or-append_last : (h : List Line) (x d : Line) → get_or (h ++ x ∷ []) (length h) d ≡ x
get_or-append_last [] x d = refl
get_or-append_last (y ∷ h) x d = get_or-append_last h x d

get_or-append_before :
    (h : List Line) (x d : Line) (j : ℕ) → j < length h → get_or (h ++ x ∷ []) j d ≡ get_or h j d
get_or-append_before [] x d j l = absurd (omega arith)
get_or-append_before (y ∷ h) x d zero l = refl
get_or-append_before (y ∷ h) x d (suc j) l = get_or-append_before h x d j (omega arith)

drop-get_or :
    (h : List Line) (k : ℕ) (d : Line) → k < length h → drop k h ≡ get_or h k d ∷ drop (suc k) h
drop-get_or [] k d l = absurd (omega arith)
drop-get_or (y ∷ h) zero d l = refl
drop-get_or (y ∷ h) (suc k) d l = drop-get_or h k d (omega arith)

drop-all : (h : List Line) (k : ℕ) → length h ≤ k → drop k h ≡ []
drop-all [] zero l = refl
drop-all [] (suc k) l = refl
drop-all (y ∷ h) zero l = absurd (omega arith)
drop-all (y ∷ h) (suc k) l = drop-all h k (omega arith)

-- The buffer after the lines `h`, the oldest first, were put in it.
pub record Holds (h : List Line) (b : Log) : Type 0 where
  pub number : b.curr_line ≡ length h
  pub size : length b.lines ≡ max_lines
  pub kept :
      (j : ℕ)
      → j < length h
      → length h ≤ j + max_lines
      → get_or b.lines (j % max_lines) no_line ≡ get_or h j no_line

pub put_line-Holds :
    (h : List Line) (l : Line) (b : Log)
    → Holds h b
    → length h + 1 < u32_mod
    → Holds (h ++ l ∷ []) (put_line l b)
unfolding put_line
put_line-Holds h l b i small = record {
  number = omega (arith, i.number, length-append h (l ∷ []));
  size = length-set b.lines _ l ∙ i.size;
  kept = λ j below near. elim (ℕ_discrete j (length h)) [
    | yes e ↦
        ap (λ k. get_or (set b.lines (b.curr_line % max_lines) l) (k % max_lines) no_line)
          (e ∙ sym i.number)
        ∙ get_or-set_same b.lines (b.curr_line % max_lines) l no_line (omega (arith, i.size))
        ∙ sym (ap (λ k. get_or (h ++ l ∷ []) k no_line) e ∙ get_or-append_last h l no_line)
    | no ne ↦
        get_or-set_other b.lines (b.curr_line % max_lines) (j % max_lines) l no_line
          (λ same. ne (omega (arith, same, i.number, below, near, length-append h (l ∷ []))))
        ∙ i.kept j (omega (arith, ne, below, length-append h (l ∷ [])))
            (omega (arith, near, length-append h (l ∷ [])))
        ∙ sym (
            get_or-append_before h l no_line j (omega (arith, ne, below, length-append h (l ∷ []))))
  ];
}

each_from-Holds :
    (h : List Line) (b : Log) (n k : ℕ)
    → Holds h b
    → n + k ≡ length h
    → length h ≤ k + max_lines
    → each_from n (k % max_lines) b.lines ≡ drop k h
unfolding each_from
each_from-Holds h b zero k i e m = sym (drop-all h k (omega (arith, e)))
each_from-Holds h b (suc n) k i e m =
    ap (λ x. x ∷ each_from n ((k % max_lines + 1) % max_lines) b.lines)
      (i.kept k (omega (arith, e)) m)
    ∙ ap (λ r. get_or h k no_line ∷ r)
        (ap (λ p. each_from n p b.lines) next
          ∙ each_from-Holds h b n (suc k) i (omega (arith, e)) (omega (arith, m)))
    ∙ sym (drop-get_or h k no_line (omega (arith, e)))
  where
    next : (k % max_lines + 1) % max_lines ≡ suc k % max_lines
    next = omega arith

pub each_line-Holds :
    (h : List Line) (b : Log) → Holds h b → each_line b ≡ drop (length h - max_lines) h
unfolding each_line
each_line-Holds h b i =
    if-elim (λ r. r ≡ drop (length h - max_lines) h) (ltb b.curr_line max_lines) _ _
      (λ few.
        each_from-Holds h b b.curr_line 0 i (omega (arith, i.number))
          (omega (arith, i.number, ltb→lt b.curr_line max_lines few))
        ∙ ap (λ k. drop k h) {x = 0} (omega (arith, i.number, ltb→lt b.curr_line max_lines few)))
      (λ many.
        ap (λ p. each_from max_lines p b.lines) (start (ltb_false→le b.curr_line max_lines many))
        ∙ each_from-Holds h b max_lines (length h - max_lines) i
            (omega (arith, i.number, ltb_false→le b.curr_line max_lines many)) (omega arith))
  where
    start : max_lines ≤ b.curr_line → b.curr_line % max_lines ≡ (length h - max_lines) % max_lines
    start many = omega (arith, i.number)
