-- ===== src/Address/Laws.antt =====
-- What the tests on addresses mean.
use peercast_yt.Prelude.{ℕ, ◌/◌, ◌<◌, ◌≡◌, ◌↔◌, ◌⊎◌, true, false, some, ◌==◌, arith}
use peercast_yt.Address.{of_ipv4, ipv4, is_ipv4_mapped, is_any, is_global}

pub mapped-of_ipv4 : (n : ℕ) → is_ipv4_mapped (of_ipv4 n) ≡ true
unfolding is_ipv4_mapped of_ipv4
mapped-of_ipv4 n = ground arith

-- The IPv4 address that an IP is made from is read back.
pub ipv4-of_ipv4 : (n : ℕ) → n < 4294967296 → ipv4 (of_ipv4 n) ≡ some n
unfolding ipv4 of_ipv4
ipv4-of_ipv4 n h = ground arith

-- Only 0.0.0.0 is no address, of those of IPv4.
pub is_any-of_ipv4 : (n : ℕ) → n < 4294967296 → is_any (of_ipv4 n) ≡ (n == 0)
unfolding is_any of_ipv4
is_any-of_ipv4 n h = ground arith

-- The IPv4 addresses that are not global, by their ranges: 127/8, 10/8, 172.16/12 and 192.168/16.
abbrev pub IsReserved : ℕ → Type 0
IsReserved n =
    (n / 0x1000000 ≡ 127)
    ⊎ ((n / 0x1000000 ≡ 10) ⊎ ((n / 0x100000 ≡ 0xac1) ⊎ (n / 0x10000 ≡ 0xc0a8)))

-- `isGlobal()` answers false for exactly the loopback and private addresses of IPv4.
pub is_global-of_ipv4 : (n : ℕ) → n < 4294967296 → (is_global (of_ipv4 n) ≡ false) ↔ IsReserved n
unfolding is_global of_ipv4
is_global-of_ipv4 n h = (λ e. ground arith, λ r. ground arith)
