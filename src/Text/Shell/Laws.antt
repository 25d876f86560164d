-- ===== src/Text/Shell/Laws.antt =====
-- Quoted arguments, read back as words.
use peercast_yt.Prelude.{
  ℕ, ◌≡◌, refl, sym, ap, ◌∙◌, inl, inr, Bool, true, false, List, [], ◌∷◌, ◌++◌, ◌==◌, ==_iff,
  Bool-cases, append_assoc, append-nil,
}
use peercast_yt.Text.Shell.{
  quote, escape_byte, escape_bytes, escapeshellarg_unix, single, words, shell_loop, shellwords,
}

single-escape_byte :
    (c : ℕ) (allow : Bool) (curr : List ℕ) (ws : List (List ℕ)) (rest : List ℕ)
    → (allow' : Bool) × (shell_loop single allow curr ws (escape_byte c ++ rest)
        ≡ shell_loop single allow' (curr ++ c ∷ []) ws rest)
unfolding shell_loop
single-escape_byte c allow curr ws rest = elim (Bool-cases (c == quote)) [
  | inl e ↦ (true, rw ((==_iff c quote).0 e) refl)
  | inr e ↦ (allow, rw e (rw (e, shell_loop) refl))
]

single-escape_bytes :
    (s : List ℕ) (allow : Bool) (curr : List ℕ) (ws : List (List ℕ)) (rest : List ℕ)
    → (allow' : Bool) × (shell_loop single allow curr ws (escape_bytes s ++ rest)
        ≡ shell_loop single allow' (curr ++ s) ws rest)
single-escape_bytes [] allow curr ws rest =
    (allow, ap (λ t. shell_loop single allow t ws rest) (sym (append-nil curr)))
single-escape_bytes (c ∷ s) allow curr ws rest =
    let one = single-escape_byte c allow curr ws (escape_bytes s ++ rest) in
    let more = single-escape_bytes s one.0 (curr ++ c ∷ []) ws rest in
    (
      more.0,
      ap (shell_loop single allow curr ws) (append_assoc (escape_byte c) (escape_bytes s) rest)
          ∙ one.1
          ∙ more.1
          ∙ ap (λ t. shell_loop single more.0 t ws rest) (append_assoc curr (c ∷ []) s),
    )

-- A text that `escapeshellarg_unix` quotes is read by `shellwords` as one word, the text itself.
pub shellwords-escapeshellarg_unix :
    (s : List ℕ) → shellwords (escapeshellarg_unix s) ≡ words (s ∷ [])
unfolding shellwords escapeshellarg_unix
shellwords-escapeshellarg_unix s =
    let inner = single-escape_bytes s false [] [] (quote ∷ []) in inner.1 ∙ refl
