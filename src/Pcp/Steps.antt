-- ===== src/Pcp/Steps.antt =====
-- The rounds of a loop over atoms on what one write appended, with the data of each kind of write.
use peercast_yt.Prelude.{
  ℕ, suc, ◌<◌, ◌≡◌, refl, sym, ap, ◌∙◌, inl, inr, subst, true, List, [], ◌∷◌, ◌++◌, if◌then◌else◌,
  arith, All, IsByte, length, Bool-cases, ◌==◌, append_assoc, length-reverse,
}
use mathlib.Core.List.{reverse}
use peercast_yt.Address.{Ip, is_ipv4_mapped, ipv4}
use peercast_yt.Io.{
  short_int, Result, ok, err, Reader, ◌>>=◌, bind_result, read_char, write_int, write_short,
  write_char,
}
use peercast_yt.Io.Words.{read-append, read_int-write_int, read_short-write_short}
use peercast_yt.Atom.{
  Header, read_header, read_int_data, read_short_data, read_char_data, read_bytes, read_address,
  write_bytes, write_address, ipv4_word, top_bit,
}
use peercast_yt.Atom.Tree.{leaf, encode, IsTree, read_header-encode}
use peercast_yt.Atom.Addresses.{read_address_atom, read_address-write_address}
use peercast_yt.Hits.Atoms.{joined}
use peercast_yt.Pcp.{each_atom}

abbrev pub leaf_header : List ℕ → ℕ → Header
leaf_header id n = record { id = id; num_children = 0; num_data = n }

pub read_header-write_bytes :
    (id b s : List ℕ)
    → length id ≡ 4
    → length b < top_bit
    → read_header (write_bytes id b ++ s) ≡ (ok (leaf_header id (length b)), b ++ s)
unfolding encode IsTree
read_header-write_bytes id b s f l = read_header-encode (leaf id b) s (f, l)

-- A write that one round reads, with what the round makes of the loop's variables.
unfoldable pub Reads : {S : Type 0} → (ℕ → Header → S → Reader S) → List ℕ → (S → S) → Type 0
Reads {S} step w f =
    (fuel : ℕ) (s : S) (t : List ℕ)
    → ((read_header >>= λ h. step fuel h s) (w ++ t)) ≡ (ok (f s), t)

-- A round for each write, and `n` more.
abbrev pub rounds : List (List ℕ) → ℕ → ℕ
rounds [] n = n
rounds (w ∷ ws) n = suc (rounds ws n)

pub rounds-append : (ws vs : List (List ℕ)) (n : ℕ) → rounds (ws ++ vs) n ≡ rounds ws (rounds vs n)
rounds-append [] vs n = refl
rounds-append (w ∷ ws) vs n = ap suc (rounds-append ws vs n)

pub rounds-length : (ws : List (List ℕ)) → rounds ws 0 ≡ length ws
rounds-length [] = refl
rounds-length (w ∷ ws) = ap suc (rounds-length ws)

joined-append :
    (ws vs : List (List ℕ)) (t : List ℕ) → joined (ws ++ vs) ++ t ≡ joined ws ++ (joined vs ++ t)
joined-append [] vs t = refl
joined-append (w ∷ ws) vs t =
    append_assoc w (joined (ws ++ vs)) t
    ∙ ap (λ r. w ++ r) (joined-append ws vs t)
    ∙ sym (append_assoc w (joined ws) (joined vs ++ t))

-- Writes that as many rounds read.
unfoldable pub Writes :
    {S : Type 0} → (ℕ → Header → S → Reader S) → List (List ℕ) → (S → S) → Type 0
Writes {S} step ws f =
    (fuel n : ℕ) (s : S) (t : List ℕ)
    → each_atom (step fuel) (rounds ws n) s (joined ws ++ t) ≡ each_atom (step fuel) n (f s) t

pub bind_assoc :
    {A B C : Type 0} (r : Result A × List ℕ) (f : A → Reader B) (g : B → Reader C)
    → bind_result (bind_result r f) g ≡ bind_result r (λ a. f a >>= g)
bind_assoc (ok a, s) f g = refl
bind_assoc (err e, s) f g = refl

module _ {S : Type 0} (step : ℕ → Header → S → Reader S) where
  pub Reads-write_bytes :
      (id b : List ℕ)
      → length id ≡ 4
      → length b < top_bit
      → (f : S → S)
      → ((fuel : ℕ) (s : S) (t : List ℕ)
          → step fuel (leaf_header id (length b)) s (b ++ t) ≡ (ok (f s), t))
      → Reads step (write_bytes id b) f
  unfolding Reads
  Reads-write_bytes id b four small f h fuel s t =
      rw (read_header-write_bytes id b t four small) (h fuel s t)

  pub Writes-nil : Writes step [] (λ s. s)
  unfolding Writes
  Writes-nil fuel n s t = refl

  pub Writes-cons :
      (w : List ℕ) (ws : List (List ℕ)) (f g : S → S)
      → Reads step w f
      → Writes step ws g
      → Writes step (w ∷ ws) (λ s. g (f s))
  unfolding Reads Writes each_atom
  Writes-cons w ws f g h k fuel n s t =
      ap (each_atom (step fuel) (suc (rounds ws n)) s) (append_assoc w (joined ws) t)
      ∙ sym (
          bind_assoc (read_header (w ++ (joined ws ++ t))) (λ h. step fuel h s)
            (each_atom (step fuel) (rounds ws n)))
      ∙ ap (λ r. bind_result r (each_atom (step fuel) (rounds ws n))) (h fuel s (joined ws ++ t))
      ∙ k fuel n (f s) t

  pub Writes-append :
      (ws vs : List (List ℕ)) (f g : S → S)
      → Writes step ws f
      → Writes step vs g
      → Writes step (ws ++ vs) (λ s. g (f s))
  unfolding Writes
  Writes-append ws vs f g h k fuel n s t =
      ap (λ m. each_atom (step fuel) m s (joined (ws ++ vs) ++ t)) (rounds-append ws vs n)
      ∙ ap (each_atom (step fuel) (rounds ws (rounds vs n)) s) (joined-append ws vs t)
      ∙ h fuel (rounds vs n) s (joined vs ++ t)
      ∙ k fuel n (f s) t

  -- The whole loop over as many children as there are writes.
  pub each_atom-Writes :
      (ws : List (List ℕ)) (f : S → S) (fuel : ℕ) (s : S) (t : List ℕ)
      → Writes step ws f
      → each_atom (step fuel) (length ws) s (joined ws ++ t) ≡ (ok (f s), t)
  unfolding Writes each_atom
  each_atom-Writes ws f fuel s t h =
      ap (λ n. each_atom (step fuel) n s (joined ws ++ t)) (sym (rounds-length ws)) ∙ h fuel 0 s t

-- The data of a leaf, read by the header that its write makes.
pub read_int-leaf :
    (id : List ℕ) (v : ℕ) (t : List ℕ)
    → v < 4294967296
    → read_int_data (leaf_header id 4) (write_int v ++ t) ≡ (ok v, t)
unfolding read_int_data
read_int-leaf id v t h = read_int-write_int v t h

pub read_short-leaf :
    (id : List ℕ) (v : ℕ) (t : List ℕ)
    → v < 65536
    → read_short_data (leaf_header id 2) (write_short v ++ t) ≡ (ok (short_int v), t)
unfolding read_short_data
read_short-leaf id v t h = read_short-write_short v t h

pub read_char-leaf :
    (id : List ℕ) (v : ℕ) (t : List ℕ)
    → v < 256
    → read_char_data (leaf_header id 1) (write_char v ++ t) ≡ (ok v, t)
unfolding read_char_data read_char
read_char-leaf id v t h = ap (λ (n : ℕ). (ok n, t)) (omega arith)

pub read_bytes-leaf :
    (id b : List ℕ) (n : ℕ) (t : List ℕ)
    → length b ≡ n
    → read_bytes (leaf_header id (length b)) n (b ++ t) ≡ (ok b, t)
unfolding read_bytes
read_bytes-leaf id b n t h =
    subst (λ n. read_bytes (leaf_header id (length b)) n (b ++ t) ≡ (ok b, t)) h
      (rw (same_size (length b), read-append b t) refl)
  where
    same_size : (n : ℕ) → (n == n) ≡ true
    same_size n = ground arith

-- The data of an address.
abbrev pub address_data : Ip → List ℕ
address_data ip = if is_ipv4_mapped ip then write_int (ipv4_word (ipv4 ip)) else reverse ip

pub write_address-bytes :
    (id : List ℕ) (ip : Ip)
    → length ip ≡ 16
    → (write_address id ip ≡ write_bytes id (address_data ip))
      × (length (address_data ip) < top_bit)
unfolding write_address
write_address-bytes id ip h = elim (Bool-cases (is_ipv4_mapped ip)) [
  | inl m ↦ rw m (refl, omega arith)
  | inr m ↦ rw m (
    ap (λ n. id ++ (write_int n ++ reverse ip)) (sym (length-reverse ip ∙ h)),
    omega (arith, length-reverse ip, h),
  )
]

pub read_address-leaf :
    (id : List ℕ) (ip : Ip) (t : List ℕ)
    → length id ≡ 4
    → length ip ≡ 16
    → All IsByte ip
    → read_address (leaf_header id (length (address_data ip))) (address_data ip ++ t) ≡ (ok ip, t)
unfolding read_address_atom
read_address-leaf id ip t f h k =
    sym (
      ap (λ r. bind_result r read_address)
        (read_header-write_bytes id (address_data ip) t f (shape.1)))
    ∙ ap (λ w. read_address_atom (w ++ t)) (sym shape.0)
    ∙ read_address-write_address id ip t f h k
  where
    shape :
        (write_address id ip ≡ write_bytes id (address_data ip))
        × (length (address_data ip) < top_bit)
    shape = write_address-bytes id ip h
