-- ===== src/Cgi/Tests.antt =====
-- The theorems on queries and escapes at concrete inputs.
use peercast_yt.Prelude.{ℕ, ◌≡◌, refl, some, List, [], ◌∷◌, arith}
use peercast_yt.Dict.{compare_text}
use peercast_yt.Cgi.{escape, unescape}
use peercast_yt.Cgi.Laws.{unescape-escape}
use peercast_yt.Cgi.Query.{query, str}
use peercast_yt.Cgi.Query.Round.{query-str}
use peercast_yt.Cgi.Html.{escape_html, unescape_html}
use peercast_yt.Cgi.Html.Laws.{unescape_html-escape_html}

abbrev odd_text : List ℕ
odd_text = b'a' ∷ b'&' ∷ 0 ∷ b' ' ∷ 255 ∷ []

unescape-escape_example : unescape (escape odd_text) ≡ some odd_text
unescape-escape_example =
    unescape-escape odd_text
      (omega arith, (omega arith, (omega arith, (omega arith, (omega arith, tt)))))

-- One key with two values, and another with an odd one.
abbrev two_keys : List (List ℕ × List (List ℕ))
two_keys = (b'a' ∷ [], (b'1' ∷ []) ∷ [] ∷ []) ∷ (b'b' ∷ [], odd_text ∷ []) ∷ []

query-str_example : query (str two_keys) ≡ some two_keys
unfolding compare_text
query-str_example =
    query-str two_keys ((refl, tt), (tt, tt))
      (
        ((refl, omega arith), tt),
        (λ e. cc),
        ((omega arith, tt), (tt, tt)),
        (
          ((refl, omega arith), tt),
          (λ e. cc),
          ((omega arith, (omega arith, (omega arith, (omega arith, (omega arith, tt))))), tt),
          tt,
        ),
      )

unescape_html-escape_html_example : unescape_html (escape_html odd_text) ≡ some odd_text
unescape_html-escape_html_example = unescape_html-escape_html odd_text
