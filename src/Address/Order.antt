-- ===== src/Address/Order.antt =====
-- `operator <` of IP and Host, by which they are keys of `std::map`.
use peercast_yt.Prelude.{
  ◌≡◌, inl, inr, refl, Bool, true, false, [], ◌∷◌, arith, length, bytes_eq→eq, bytes_eq_refl,
  Bool-cases,
}
use peercast_yt.Address.{Ip, Host, ip_lt, ip_eq, host_lt}

pub ip_lt_irrefl : (a : Ip) → ip_lt a a ≡ false
unfolding ip_lt
ip_lt_irrefl [] = refl
ip_lt_irrefl (x ∷ xs) = ground (arith, ip_lt_irrefl xs)

pub ip_lt_trans : (a b c : Ip) → ip_lt a b ≡ true → ip_lt b c ≡ true → ip_lt a c ≡ true
unfolding ip_lt
ip_lt_trans [] b c h k = cc
ip_lt_trans (x ∷ xs) [] c h k = cc
ip_lt_trans (x ∷ xs) (y ∷ ys) [] h k = cc
ip_lt_trans (x ∷ xs) (y ∷ ys) (z ∷ zs) h k = ground (arith, ip_lt_trans xs ys zs)

-- Of two different addresses one is below the other.
pub ip_lt_total : (a b : Ip) → length a ≡ length b → ip_lt a b ≡ false → ip_lt b a ≡ false → a ≡ b
unfolding ip_lt
ip_lt_total [] [] e h k = refl
ip_lt_total [] (y ∷ ys) e h k = absurd (omega arith)
ip_lt_total (x ∷ xs) [] e h k = absurd (omega arith)
ip_lt_total (x ∷ xs) (y ∷ ys) e h k = ground (arith, ip_lt_total xs ys (omega arith))

-- A strict total order, as `std::map` wants of its keys.
pub record IsStrictOrder (A : Type 0) (In : A → Type 0) (lt : A → A → Bool) : Type 0 where
  pub irrefl : (a : A) → lt a a ≡ false
  pub trans : (a b c : A) → lt a b ≡ true → lt b c ≡ true → lt a c ≡ true
  pub total : (a b : A) → In a → In b → lt a b ≡ false → lt b a ≡ false → a ≡ b

abbrev pub HasIp : Host → Type 0
HasIp h = length h.ip ≡ 16

host_lt_irrefl : (a : Host) → host_lt a a ≡ false
unfolding host_lt
host_lt_irrefl a = ground (arith, ip_lt_irrefl a.ip)

host_lt_trans : (a b c : Host) → host_lt a b ≡ true → host_lt b c ≡ true → host_lt a c ≡ true
unfolding host_lt
host_lt_trans a b c h k = elim (Bool-cases (ip_eq a.ip b.ip)) [
  | inl ab ↦ elim (Bool-cases (ip_eq b.ip c.ip)) [
    | inl bc ↦
        ground (arith, bytes_eq→eq a.ip b.ip ab, bytes_eq→eq b.ip c.ip bc, bytes_eq_refl c.ip)
    | inr bc ↦ ground (arith, bytes_eq→eq a.ip b.ip ab)
  ]
  | inr ab ↦ elim (Bool-cases (ip_eq b.ip c.ip)) [
    | inl bc ↦ ground (arith, bytes_eq→eq b.ip c.ip bc)
    | inr bc ↦ ground (
      arith,
      ip_lt_trans a.ip b.ip c.ip,
      ip_lt_trans b.ip c.ip b.ip,
      ip_lt_irrefl b.ip,
      bytes_eq→eq a.ip c.ip,
    )
  ]
]

host_lt_total : (a b : Host) → HasIp a → HasIp b → host_lt a b ≡ false → host_lt b a ≡ false → a ≡ b
unfolding host_lt
host_lt_total a b ha hb h k = ground (
  arith,
  bytes_eq→eq a.ip b.ip,
  bytes_eq→eq b.ip a.ip,
  bytes_eq_refl b.ip,
  ip_lt_total a.ip b.ip (omega arith),
)

-- `operator <` of Host, on hosts with 16-byte addresses, is a strict total order: no two different
-- hosts are taken for one another.
pub host_lt-IsStrictOrder : IsStrictOrder Host HasIp host_lt
host_lt-IsStrictOrder = record {
  irrefl = host_lt_irrefl;
  trans = host_lt_trans;
  total = host_lt_total;
}
