-- ===== src/Cgi/Html/Laws.antt =====
-- What `escape_html` writes, read by `unescape_html`.
use peercast_yt.Prelude.{
  ℕ, ◌≡◌, refl, sym, ap, ◌∙◌, true, false, none, some, List, [], ◌∷◌, ◌++◌, ◌==◌, ==_iff, if-elim,
}
use peercast_yt.Cgi.Html.Entities.{codes, entity_at, entity}
use peercast_yt.Cgi.Html.{
  escape_html_byte, escape_html, append, resolve, utf8_of, unescape_html_from, unescape_html,
}
use peercast_yt.Text.Utf8.{codepoint_to_utf8}

plain_byte :
    (c : ℕ) (s : List ℕ)
    → (c == b'&') ≡ false
    → unescape_html_from none (c ∷ s) ≡ append (some (c ∷ [])) (unescape_html_from none s)
unfolding unescape_html_from
plain_byte c s e = rw (e, unescape_html_from) refl

amp_byte :
    (s : List ℕ)
    → unescape_html_from none (codes "&amp;" ++ s)
      ≡ append (some (b'&' ∷ [])) (unescape_html_from none s)
unfolding unescape_html_from resolve entity entity_at codepoint_to_utf8 utf8_of
amp_byte s = refl

lt_byte :
    (s : List ℕ)
    → unescape_html_from none (codes "&lt;" ++ s)
      ≡ append (some (b'<' ∷ [])) (unescape_html_from none s)
unfolding unescape_html_from resolve entity entity_at codepoint_to_utf8 utf8_of
lt_byte s = refl

gt_byte :
    (s : List ℕ)
    → unescape_html_from none (codes "&gt;" ++ s)
      ≡ append (some (b'>' ∷ [])) (unescape_html_from none s)
unfolding unescape_html_from resolve entity entity_at codepoint_to_utf8 utf8_of
gt_byte s = refl

quot_byte :
    (s : List ℕ)
    → unescape_html_from none (codes "&quot;" ++ s)
      ≡ append (some (b'"' ∷ [])) (unescape_html_from none s)
unfolding unescape_html_from resolve entity entity_at codepoint_to_utf8 utf8_of
quot_byte s = refl

apos_byte :
    (s : List ℕ)
    → unescape_html_from none (codes "&#39;" ++ s)
      ≡ append (some (b'\'' ∷ [])) (unescape_html_from none s)
unfolding unescape_html_from resolve entity entity_at codepoint_to_utf8 utf8_of
apos_byte s = refl

-- One byte, escaped and read.
unescape-byte :
    (c : ℕ) (s : List ℕ)
    → unescape_html_from none (escape_html_byte c ++ s)
      ≡ append (some (c ∷ [])) (unescape_html_from none s)
unescape-byte c s =
    if-elim P (c == b'&') _ _ (λ e. same (codes "&amp;") c b'&' amp_byte e)
      (λ e0.
        if-elim P (c == b'<') _ _ (λ e. same (codes "&lt;") c b'<' lt_byte e)
          (λ e1.
            if-elim P (c == b'>') _ _ (λ e. same (codes "&gt;") c b'>' gt_byte e)
              (λ e2.
                if-elim P (c == b'"') _ _ (λ e. same (codes "&quot;") c b'"' quot_byte e)
                  (λ e3.
                    if-elim P (c == b'\'') _ _ (λ e. same (codes "&#39;") c b'\'' apos_byte e)
                      (λ e4. plain_byte c s e0)))))
  where
    P : List ℕ → Type 0
    P t = unescape_html_from none (t ++ s) ≡ append (some (c ∷ [])) (unescape_html_from none s)

    same :
        (t : List ℕ) (d k : ℕ)
        → ((s : List ℕ)
            → unescape_html_from none (t ++ s) ≡ append (some (k ∷ [])) (unescape_html_from none s))
        → (d == k) ≡ true
        → unescape_html_from none (t ++ s) ≡ append (some (d ∷ [])) (unescape_html_from none s)
    same t d k h e =
        h s ∙ ap (λ x. append (some (x ∷ [])) (unescape_html_from none s)) (sym ((==_iff d k).0 e))

-- A text that `escape_html` writes is read by `unescape_html` as the text itself, without an exception,
-- whatever its bytes are.
pub unescape_html-escape_html : (s : List ℕ) → unescape_html (escape_html s) ≡ some s
unfolding unescape_html escape_html unescape_html_from append
unescape_html-escape_html [] = refl
unescape_html-escape_html (c ∷ s) =
    unescape-byte c (escape_html s) ∙ ap (append (some (c ∷ []))) (unescape_html-escape_html s)
