-- ===== src/Cgi/Laws.antt =====
-- What `escape` writes, read by `unescape`.
use peercast_yt.Prelude.{
  ℕ, ◌/◌, ◌%◌, ◌<◌, ◌≡◌, refl, sym, ap, ◌∙◌, Bool, true, false, Option, none, some, List, [], ◌∷◌,
  ◌++◌, ◌==◌, ==_iff, if-elim, arith, All, IsByte,
}
use peercast_yt.Prelude.Bits.{all_below_lem}
use peercast_yt.GnuId.{hex_digit}
use peercast_yt.Cgi.{is_plain, escape_byte, escape, scan_hex, push, unescape_from, unescape}

unescape-percent :
    (d e : ℕ) (s : List ℕ)
    → unescape_from 0 (b'%' ∷ d ∷ e ∷ s) ≡ push (scan_hex (d ∷ e ∷ [])) (unescape_from 0 s)
unfolding unescape_from
unescape-percent d e s = refl

unescape-plain :
    (c : ℕ) (s : List ℕ)
    → is_plain c ≡ true
    → unescape_from 0 (c ∷ s) ≡ push (some c) (unescape_from 0 s)
unfolding unescape_from
unescape-plain c s h = ground arith

reads : ℕ → Option ℕ → Bool
reads c none = false
reads c (some d) = d == c

reads→eq : (c : ℕ) (o : Option ℕ) → reads c o ≡ true → o ≡ some c
unfolding reads
reads→eq c none h = cc
reads→eq c (some d) h = ap some ((==_iff d c).0 h)

scan_hex-hex_digit :
    (c : ℕ) → c < 256 → scan_hex (hex_digit (c / 16) ∷ hex_digit (c % 16) ∷ []) ≡ some c
unfolding reads
scan_hex-hex_digit c h = reads→eq c _ (
    all_below_lem 256 (λ c. reads c (scan_hex (hex_digit (c / 16) ∷ hex_digit (c % 16) ∷ []))) c
      refl h)

unescape-space : (s : List ℕ) → unescape_from 0 (b'+' ∷ s) ≡ push (some b' ') (unescape_from 0 s)
unfolding unescape_from
unescape-space s = refl

unescape-escape_byte :
    (c : ℕ) (s : List ℕ)
    → c < 256
    → unescape_from 0 (escape_byte c ++ s) ≡ push (some c) (unescape_from 0 s)
unescape-escape_byte c s h =
    if-elim (λ t. unescape_from 0 (t ++ s) ≡ push (some c) (unescape_from 0 s)) (is_plain c) _ _
      (λ e. unescape-plain c s e)
      (λ e.
        if-elim (λ t. unescape_from 0 (t ++ s) ≡ push (some c) (unescape_from 0 s)) (c == b' ') _ _
          (λ e.
            unescape-space s
            ∙ ap (λ k. push (some k) (unescape_from 0 s)) (sym ((==_iff c b' ').0 e)))
          (λ e.
            unescape-percent (hex_digit (c / 16)) (hex_digit (c % 16)) s
            ∙ ap (λ o. push o (unescape_from 0 s)) (scan_hex-hex_digit c h)))

-- A text that `escape` writes is read by `unescape` as the text itself, whatever its bytes are.
pub unescape-escape : (s : List ℕ) → All IsByte s → unescape (escape s) ≡ some s
unfolding unescape escape push unescape_from
unescape-escape [] h = refl
unescape-escape (c ∷ s) h =
    unescape-escape_byte c (escape s) h.0 ∙ ap (push (some c)) (unescape-escape s h.1)
