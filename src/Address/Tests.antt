-- ===== src/Address/Tests.antt =====
-- Addresses on concrete hosts.
use peercast_yt.Prelude.{ℕ, ◌≡◌, refl, true, some}
use peercast_yt.Address.{Host, of_ipv4, is_global, is_member_of}

-- 192.168.0.1
abbrev router : ℕ
router = 0xc0a80001

-- 192.168.0.255
abbrev network : ℕ
network = 0xc0a800ff

router-member :
    is_member_of
      (record { ip = of_ipv4 router; port = 1 })
      (record { ip = of_ipv4 network; port = 2 })
    ≡ some true
unfolding is_member_of of_ipv4 peercast_yt.Address.is_any
router-member = refl
