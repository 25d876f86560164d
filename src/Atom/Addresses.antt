-- ===== src/Atom/Addresses.antt =====
-- Addresses in atoms.
use peercast_yt.Prelude.{
  length-reverse, IsByte, ℕ, zero, suc, ◌<◌, ◌≡◌, refl, sym, ap, ◌∙◌, inl, inr, subst, true, List,
  [], ◌∷◌, ◌++◌, arith, All, take, drop, length, Bool-cases, bytes_eq→eq, length-drop,
}
use mathlib.Core.List.{append_assoc, reverse, reverse-reverse}
use peercast_yt.Address.{Ip, mapped_prefix, is_ipv4_mapped, of_ipv4, ipv4}
use peercast_yt.Io.{ok, Reader, ◌>>=◌, write_int}
use peercast_yt.Io.Words.{read-append, read_int-write_int}
use peercast_yt.Atom.{
  read_header, write_address, ipv4_word, read_address, read_int_data, read_bytes,
}
use peercast_yt.Atom.Tree.{read_words}

-- `readAddress`, behind the `read` of the atom's header.
unfoldable pub read_address_atom : Reader Ip
unfolding read_header read_address
read_address_atom = read_header >>= read_address

take-drop : (n : ℕ) (xs : List ℕ) → take n xs ++ drop n xs ≡ xs
take-drop zero xs = refl
take-drop (suc n) [] = refl
take-drop (suc n) (x ∷ xs) = ap (λ r. x ∷ r) (take-drop n xs)

length-drop_twelve : (xs : List ℕ) → length xs ≡ 16 → length (drop 12 xs) ≡ 4
length-drop_twelve xs h = omega (arith, length-drop 12 xs)

All-drop : (n : ℕ) (xs : List ℕ) → All IsByte xs → All IsByte (drop n xs)
All-drop zero xs h = h
All-drop (suc n) [] h = tt
All-drop (suc n) (x ∷ xs) h = All-drop n xs h.1

-- An IPv4 address is the prefix and four bytes, which make up its word.
of_ipv4-bytes :
    (b : List ℕ)
    → length b ≡ 4
    → All IsByte b
    → (of_ipv4 (ipv4_word (ipv4 (mapped_prefix ++ b))) ≡ mapped_prefix ++ b)
      × (ipv4_word (ipv4 (mapped_prefix ++ b)) < 4294967296)
unfolding of_ipv4 ipv4
of_ipv4-bytes (a ∷ b ∷ c ∷ d ∷ []) n h = (ground arith, omega arith)
of_ipv4-bytes [] n h = absurd (omega arith)
of_ipv4-bytes (a ∷ []) n h = absurd (omega arith)
of_ipv4-bytes (a ∷ b ∷ []) n h = absurd (omega arith)
of_ipv4-bytes (a ∷ b ∷ c ∷ []) n h = absurd (omega arith)
of_ipv4-bytes (a ∷ b ∷ c ∷ d ∷ e ∷ x) n h = absurd (omega arith)

read_ipv4 :
    (id : List ℕ) (v : ℕ) (s : List ℕ)
    → length id ≡ 4
    → v < 4294967296
    → read_address_atom (id ++ (write_int 4 ++ (write_int v ++ s))) ≡ (ok (of_ipv4 v), s)
unfolding read_address read_int_data read_address_atom of_ipv4
read_ipv4 id v s four small =
    rw (read_words id 4 (write_int v ++ s) four (omega arith), read_int-write_int v s small) refl

read_ipv6 :
    (id b : List ℕ) (s : List ℕ)
    → length id ≡ 4
    → length b ≡ 16
    → read_address_atom (id ++ (write_int 16 ++ (b ++ s))) ≡ (ok (reverse b), s)
unfolding read_address read_bytes read_address_atom
read_ipv6 id b s four size =
    rw (read_words id 16 (b ++ s) four (omega arith), sym size, read-append b s) refl

mapped_shape : (ip : Ip) → is_ipv4_mapped ip ≡ true → mapped_prefix ++ drop 12 ip ≡ ip
unfolding is_ipv4_mapped
mapped_shape ip h =
    ap (λ p. p ++ drop 12 ip) (sym (bytes_eq→eq (take 12 ip) mapped_prefix h)) ∙ take-drop 12 ip

of_ipv4-ipv4 :
    (ip : Ip)
    → length ip ≡ 16
    → All IsByte ip
    → is_ipv4_mapped ip ≡ true
    → (of_ipv4 (ipv4_word (ipv4 ip)) ≡ ip) × (ipv4_word (ipv4 ip) < 4294967296)
of_ipv4-ipv4 ip size bytes mapped =
    subst (λ a. (of_ipv4 (ipv4_word (ipv4 a)) ≡ a) × (ipv4_word (ipv4 a) < 4294967296))
      (mapped_shape ip mapped)
      (of_ipv4-bytes (drop 12 ip) (length-drop_twelve ip size) (All-drop 12 ip bytes))

-- `readAddress`, behind the `read` of the header, gives the address of 16 bytes that `writeAddress`
-- wrote, be it one of IPv4 or not, and leaves the rest of the stream.
pub read_address-write_address :
    (id : List ℕ) (ip : Ip) (s : List ℕ)
    → length id ≡ 4
    → length ip ≡ 16
    → All IsByte ip
    → read_address_atom (write_address id ip ++ s) ≡ (ok ip, s)
unfolding write_address
read_address-write_address id ip s four size bytes = elim (Bool-cases (is_ipv4_mapped ip)) [
  | inl mapped ↦
      let v = ipv4_word (ipv4 ip) in
      let back = of_ipv4-ipv4 ip size bytes mapped in
      rw mapped (
        ap read_address_atom (append_assoc id (write_int 4 ++ write_int v) s)
        ∙ read_ipv4 id v s four back.1
        ∙ ap (λ a. (ok a, s)) back.0)
  | inr other ↦ rw other (
      ap read_address_atom (append_assoc id (write_int 16 ++ reverse ip) s)
      ∙ read_ipv6 id (reverse ip) s four (length-reverse ip ∙ size)
      ∙ ap (λ a. (ok a, s)) (reverse-reverse ip))
]
