-- ===== src/Address.antt =====
-- `IP` of core/common/ip.h and `Host` of core/common/host.h and host.cpp. An IP is its 16 bytes; an
-- IPv4 address is one with the prefix ::ffff. `inet_pton` and `inet_ntop`, and with them the
-- printing and parsing of addresses, are not modelled.
pub mod Laws
pub mod Order
pub mod Member
mod Tests
use peercast_yt.Prelude.{
  ℕ, ◌+◌, ◌*◌, ◌/◌, ◌%◌, Bool, true, false, ◌&&◌, ◌||◌, not, Option, none, some, List, [], ◌∷◌,
  ◌++◌, ltb, leb, ◌==◌, if◌then◌else◌, bit_and, take, drop, get_or, replicate, bytes_eq,
}

abbrev pub Ip : Type 0
Ip = List ℕ

abbrev pub mapped_prefix : List ℕ
mapped_prefix = 0 ∷ 0 ∷ 0 ∷ 0 ∷ 0 ∷ 0 ∷ 0 ∷ 0 ∷ 0 ∷ 0 ∷ 0xff ∷ 0xff ∷ []

-- `IP()`
abbrev pub zero_ip : Ip
zero_ip = replicate 16 0

-- `IP(unsigned int)`, in network byte order.
unfoldable pub of_ipv4 : ℕ → Ip
of_ipv4 n =
    mapped_prefix
    ++ (n / 0x1000000 % 256) ∷ (n / 0x10000 % 256) ∷ (n / 0x100 % 256) ∷ (n % 256) ∷ []

unfoldable pub is_ipv4_mapped : Ip → Bool
is_ipv4_mapped a = bytes_eq (take 12 a) mapped_prefix

-- `ip3()` to `ip0()`; `none` is the GeneralException on an address that is not IPv4.
abbrev pub octet : ℕ → Ip → Option ℕ
octet k a = if is_ipv4_mapped a then some (get_or a k 0) else none

unfoldable pub ip3 : Ip → Option ℕ
ip3 = octet 12

unfoldable pub ip2 : Ip → Option ℕ
ip2 = octet 13

unfoldable pub ip1 : Ip → Option ℕ
ip1 = octet 14

unfoldable pub ip0 : Ip → Option ℕ
ip0 = octet 15

-- `ipv4()`; `none` is its exception.
unfoldable pub ipv4 : Ip → Option ℕ
unfolding is_ipv4_mapped
ipv4 a =
    if is_ipv4_mapped a
    then some (
        get_or a 12 0 * 0x1000000 + get_or a 13 0 * 0x10000 + get_or a 14 0 * 0x100 + get_or a 15 0)
    else none

abbrev pub ip_eq : Ip → Ip → Bool
ip_eq = bytes_eq

-- `operator <`: `memcmp(a, b, 16) < 0`.
unfoldable pub ip_lt : Ip → Ip → Bool
ip_lt [] ys = false
ip_lt (x ∷ xs) [] = false
ip_lt (x ∷ xs) (y ∷ ys) = if x == y then ip_lt xs ys else ltb x y

unfoldable pub is_ipv6_link_local : Ip → Bool
is_ipv6_link_local a = get_or a 0 0 == 0xfe && bit_and (get_or a 1 0) 0xc0 == 0x80

unfoldable pub is_ipv6_unique_local : Ip → Bool
is_ipv6_unique_local a = get_or a 0 0 == 0xfc || get_or a 0 0 == 0xfd

-- The octets are read behind the test that the address is IPv4, so no exception can come.
unfoldable pub is_ipv4_private : Ip → Bool
unfolding is_ipv4_mapped
is_ipv4_private a =
    if not (is_ipv4_mapped a)
    then false
    else (if get_or a 12 0 == 10
        then true
        else (if get_or a 12 0 == 172 && leb 16 (get_or a 13 0) && leb (get_or a 13 0) 31
            then true
            else get_or a 12 0 == 192 && get_or a 13 0 == 168))

unfoldable pub is_ipv4_loopback : Ip → Bool
unfolding is_ipv4_mapped
is_ipv4_loopback a = is_ipv4_mapped a && get_or a 12 0 == 127

unfoldable pub is_ipv6_loopback : Ip → Bool
is_ipv6_loopback a = bytes_eq a (replicate 15 0 ++ 1 ∷ [])

unfoldable pub is_ipv6_any : Ip → Bool
is_ipv6_any a = bytes_eq a zero_ip

unfoldable pub is_ipv4_any : Ip → Bool
unfolding is_ipv4_mapped
is_ipv4_any a =
    is_ipv4_mapped a
    && (get_or a 12 0 == 0 && get_or a 13 0 == 0 && get_or a 14 0 == 0 && get_or a 15 0 == 0)

unfoldable pub is_any : Ip → Bool
unfolding is_ipv6_any is_ipv4_any
is_any a = is_ipv6_any a || is_ipv4_any a

-- `operator bool`
abbrev pub is_set : Ip → Bool
is_set a = not (is_any a)

unfoldable pub is_global : Ip → Bool
unfolding is_ipv4_mapped is_ipv4_loopback is_ipv4_private is_ipv6_loopback is_ipv6_link_local
    is_ipv6_unique_local
is_global a =
    if is_ipv4_mapped a
    then (if is_ipv4_loopback a then false else not (is_ipv4_private a))
    else (if is_ipv6_loopback a
        then false
        else (if is_ipv6_link_local a then false else not (is_ipv6_unique_local a)))

pub record Host : Type 0 where
  pub ip : Ip
  pub port : ℕ

-- `Host()`, `Host::init()`
unfoldable pub no_host : Host
unfolding of_ipv4
no_host = record { ip = of_ipv4 0; port = 0 }

unfoldable pub is_same : Host → Host → Bool
is_same a b = ip_eq b.ip a.ip && b.port == a.port

unfoldable pub is_valid : Host → Bool
is_valid h = not (is_any h.ip)

-- `classType()`, which is `globalIP()`
abbrev pub class_type : Host → Bool
class_type h = is_global h.ip

-- `localIP()`
abbrev pub local_ip : Host → Bool
local_ip h = not (class_type h)

unfoldable pub loopback_ip : Host → Bool
loopback_ip h = is_ipv4_loopback h.ip || is_ipv6_loopback h.ip

unfoldable pub is_same_type : Host → Host → Bool
is_same_type a b = (class_type a && class_type b) || (not (class_type a) && not (class_type b))

unfoldable pub host_lt : Host → Host → Bool
unfolding ip_lt
host_lt a b = if ip_eq a.ip b.ip then ltb a.port b.port else ip_lt a.ip b.ip

-- One octet of `isMemberOf`: 255 in the pattern stands for any.
abbrev pub octet_differs : Ip → Ip → ℕ → Bool
octet_differs ip pattern k =
    not (get_or pattern k 0 == 255) && not (get_or ip k 0 == get_or pattern k 0)

-- `isMemberOf(h)`; `none` is the ArgumentException on a pattern that is not IPv4.
unfoldable pub is_member_of : Host → Host → Option Bool
unfolding is_ipv4_mapped
is_member_of host h =
    if not (is_ipv4_mapped h.ip)
    then none
    else (if not (is_ipv4_mapped host.ip)
        then some false
        else (if not (is_set h.ip)
            then some false
            else (if octet_differs host.ip h.ip 15
                then some false
                else (if octet_differs host.ip h.ip 14
                    then some false
                    else (if octet_differs host.ip h.ip 13
                        then some false
                        else (if octet_differs host.ip h.ip 12 then some false else some true))))))
