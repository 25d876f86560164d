-- ===== src/Filter/Tests.antt =====
-- Filters on concrete addresses.
use peercast_yt.Prelude.{
  ◌-◌, ◌/◌, ◌^◌, ◌≡◌, ◌↔◌, refl, true, false, some, none, take, arith, [], ◌∷◌, replicate,
}
use peercast_yt.Address.{Ip, of_ipv4, is_ipv4_mapped, no_host}
use peercast_yt.Filter.{
  Filter, Resolver, Verdict, verdict, undefined, matches, matches_ipv4, matches_ipv6, f_ban,
  f_private, t_suffix,
}
use peercast_yt.Filter.Netmask.{all_bits, matches_ipv4_lem, matches_ipv6_lem}

-- fe80:: and fe80::1
abbrev link : Ip
link = 0xfe ∷ 0x80 ∷ replicate 14 0

abbrev link1 : Ip
link1 = 0xfe ∷ 0x80 ∷ 0 ∷ 0 ∷ 0 ∷ 0 ∷ 0 ∷ 0 ∷ 0 ∷ 0 ∷ 0 ∷ 0 ∷ 0 ∷ 0 ∷ 0 ∷ 1 ∷ []

-- A ban of the hosts whose names end in `.jp`.
suffix_ban :
    matches
      (record { get_ip = λ _. 0; hostname = λ _. some (b'a' ∷ b'.' ∷ b'j' ∷ b'p' ∷ []) })
      (record {
        kind = t_suffix;
        flags = f_ban;
        host = no_host;
        pattern = b'.' ∷ b'j' ∷ b'p' ∷ [];
        netmask = none;
      })
      f_ban
      no_host
    ≡ verdict true
unfolding matches peercast_yt.Filter.has_suffix
suffix_ban = refl

matches_ipv4_lem_example :
    (matches_ipv4 (of_ipv4 0xc0a80000) (of_ipv4 0xc0a81234) (some 16) ≡ verdict true)
    ↔ (0xc0a80000 / 2 ^ (32 - 16) ≡ 0xc0a81234 / 2 ^ (32 - 16))
matches_ipv4_lem_example =
    matches_ipv4_lem 0xc0a80000 0xc0a81234 16 (omega arith) (omega arith) (omega arith)
      (omega arith)

matches_ipv6_lem_example :
    (matches_ipv6 link link1 (some 64) ≡ verdict true)
    ↔ ((is_ipv4_mapped link1 ≡ false) × (take 64 (all_bits link) ≡ take 64 (all_bits link1)))
matches_ipv6_lem_example =
    matches_ipv6_lem link link1 64 (omega arith) (omega arith) refl refl (omega arith)
