-- ===== src/Address/Member.antt =====
-- `isMemberOf` by the octets of two IPv4 addresses.
use peercast_yt.Prelude.{
  ℕ, ◌/◌, ◌%◌, ◌<◌, ◌≡◌, ◌≢◌, ◌↔◌, ◌⊎◌, true, false, Bool, not, sym, ◌∙◌, some, if◌then◌else◌,
  arith, get_or,
}
use peercast_yt.Address.{Host, Ip, of_ipv4, is_set, octet_differs, is_ipv4_mapped, is_member_of}
use peercast_yt.Address.Laws.{mapped-of_ipv4, is_any-of_ipv4}

-- Octet `d` of the pattern admits octet `d` of the address: `d` is the divisor that selects it.
abbrev pub Admits : ℕ → ℕ → ℕ → Type 0
Admits d a p = (p / d % 256 ≡ 255) ⊎ (a / d % 256 ≡ p / d % 256)

octets-of_ipv4 :
    (n : ℕ)
    → (get_or (of_ipv4 n) 12 0 ≡ n / 0x1000000 % 256)
      × (get_or (of_ipv4 n) 13 0 ≡ n / 0x10000 % 256)
      × (get_or (of_ipv4 n) 14 0 ≡ n / 0x100 % 256)
      × (get_or (of_ipv4 n) 15 0 ≡ n % 256)
unfolding of_ipv4
octets-of_ipv4 n = omega arith

abbrev AdmitsByte : Ip → Ip → ℕ → Type 0
AdmitsByte ip pat k = (get_or pat k 0 ≡ 255) ⊎ (get_or ip k 0 ≡ get_or pat k 0)

octet_differs_iff : (ip pat : Ip) (k : ℕ) → (octet_differs ip pat k ≡ false) ↔ AdmitsByte ip pat k
octet_differs_iff ip pat k = (λ e. ground arith, λ m. ground arith)

-- The chain of early returns: all five tests must let the host through.
chain_iff :
    (set d e f g : Bool)
    → ((if not set
          then some false
          else (if d
              then some false
              else (if e
                  then some false
                  else (if f then some false else (if g then some false else some true)))))
        ≡ some true)
      ↔ ((set ≡ true) × (d ≡ false) × (e ≡ false) × (f ≡ false) × (g ≡ false))
chain_iff set d e f g = (λ h. ground arith, λ h. ground arith)

is_member_of_iff :
    (h pat : Host)
    → is_ipv4_mapped h.ip ≡ true
    → is_ipv4_mapped pat.ip ≡ true
    → (is_member_of h pat ≡ some true) ↔ (
        (is_set pat.ip ≡ true)
        × AdmitsByte h.ip pat.ip 15
        × AdmitsByte h.ip pat.ip 14
        × AdmitsByte h.ip pat.ip 13
        × AdmitsByte h.ip pat.ip 12)
unfolding is_member_of
is_member_of_iff h pat mh mp = (
  λ e.
      let c =
        (chain_iff (is_set pat.ip) (differs 15) (differs 14) (differs 13) (differs 12)).0
          (opened ∙ e) in
      (c.0, (admits 15).0 c.1, (admits 14).0 c.2, (admits 13).0 c.3, (admits 12).0 c.4),
  λ m.
      sym opened
      ∙ (chain_iff (is_set pat.ip) (differs 15) (differs 14) (differs 13) (differs 12)).1
          (m.0, (admits 15).1 m.1, (admits 14).1 m.2, (admits 13).1 m.3, (admits 12).1 m.4),
)
  where
    differs : ℕ → Bool
    differs k = octet_differs h.ip pat.ip k

    admits : (k : ℕ) → (octet_differs h.ip pat.ip k ≡ false) ↔ AdmitsByte h.ip pat.ip k
    admits k = octet_differs_iff h.ip pat.ip k

    opened :
        (if not (is_set pat.ip)
          then some false
          else (if differs 15
              then some false
              else (if differs 14
                  then some false
                  else (if differs 13
                      then some false
                      else (if differs 12 then some false else some true)))))
        ≡ is_member_of h pat
    opened = rw (mp, mh)

-- Between IPv4 addresses, a host is a member of a pattern exactly when the pattern is not 0.0.0.0
-- and each octet of the pattern is 255 or that of the address; the ports play no part.
pub is_member_of_lem :
    (a p port port' : ℕ)
    → a < 4294967296
    → p < 4294967296
    → (is_member_of
          (record { ip = of_ipv4 a; port = port })
          (record { ip = of_ipv4 p; port = port' })
        ≡ some true)
      ↔ ((p ≢ 0) × Admits 0x1000000 a p × Admits 0x10000 a p × Admits 0x100 a p × Admits 1 a p)
is_member_of_lem a p port port' ha hp = (
  λ e.
      let r = (is_member_of_iff host pattern' (mapped-of_ipv4 a) (mapped-of_ipv4 p)).0 e in
      (
        ground (arith, is_any-of_ipv4 p hp, r.0),
        ground (arith, r.4, octets-of_ipv4 a, octets-of_ipv4 p),
        ground (arith, r.3, octets-of_ipv4 a, octets-of_ipv4 p),
        ground (arith, r.2, octets-of_ipv4 a, octets-of_ipv4 p),
        ground (arith, r.1, octets-of_ipv4 a, octets-of_ipv4 p),
      ),
  λ m. (is_member_of_iff host pattern' (mapped-of_ipv4 a) (mapped-of_ipv4 p)).1 (
    ground (arith, is_any-of_ipv4 p hp),
    ground (arith, m.4, octets-of_ipv4 a, octets-of_ipv4 p),
    ground (arith, m.3, octets-of_ipv4 a, octets-of_ipv4 p),
    ground (arith, m.2, octets-of_ipv4 a, octets-of_ipv4 p),
    ground (arith, m.1, octets-of_ipv4 a, octets-of_ipv4 p),
  ),
)
  where
    host : Host
    host = record { ip = of_ipv4 a; port = port }

    pattern' : Host
    pattern' = record { ip = of_ipv4 p; port = port' }
