-- ===== src/Filter.antt =====
-- `ServFilter` of core/common/servfilter.h and servfilter.cpp: patterns that hosts are matched
-- against. The resolver is a parameter: `get_ip` is `ClientSocket::getIP`, and `hostname` is
-- `sys->getHostnameByAddress`. `setPattern` and `getPattern`, which parse and print, are not
-- modelled.
pub mod Netmask
mod Tests
use peercast_yt.Prelude.{
  ℕ, zero, suc, ◌+◌, ◌-◌, ◌*◌, ◌%◌, ◌^◌, Bool, true, false, ◌&&◌, ◌||◌, not, Option, none, some,
  List, [], ◌∷◌, ltb, leb, ◌==◌, if◌then◌else◌, bit_and, take, drop, length, get_or, bytes_eq,
}
use peercast_yt.Prelude.Words.{u32_mod}
use peercast_yt.Address.{
  Ip, Host, no_host, of_ipv4, ipv4, ip_eq, is_set, is_ipv4_mapped, is_member_of,
}

abbrev pub f_private : ℕ
f_private = 0x01

abbrev pub f_ban : ℕ
f_ban = 0x02

abbrev pub f_network : ℕ
f_network = 0x04

abbrev pub f_direct : ℕ
f_direct = 0x08

pub data Kind : Type 0 where
  t_ip t_hostname t_suffix t_ipv6 t_ipv4_with_netmask t_ipv6_with_netmask : Kind

-- `netmask` is -1, here `none`, until a pattern with a mask is set.
pub record Filter : Type 0 where
  pub kind : Kind
  pub flags : ℕ
  pub host : Host
  pub pattern : List ℕ
  pub netmask : Option ℕ

unfoldable pub init : Filter
init = record { kind = t_ip; flags = 0; host = no_host; pattern = []; netmask = none }

-- What the name service answers: `none` is a name or an address that it does not know.
pub record Resolver : Type 0 where
  pub get_ip : List ℕ → ℕ
  pub hostname : Ip → Option (List ℕ)

-- `thrown` is an exception, of a pattern that is no IPv4 address; `undefined` is a shift by the width of the
-- word, or by a negative count, which C++ leaves undefined.
pub data Verdict : Type 0 where
  verdict : Bool → Verdict
  thrown : Verdict
  undefined : Verdict

-- `str::has_suffix`
unfoldable pub has_suffix : List ℕ → List ℕ → Bool
has_suffix s t =
    if ltb (length s) (length t) then false else bytes_eq (drop (length s - length t) s) t

-- `(uint32_t) -1 << k`, for k below 32.
abbrev pub mask32 : ℕ → ℕ
mask32 k = 0xffffffff * 2 ^ k % u32_mod

-- `(unsigned char) -1 << k`, for k up to 8.
abbrev pub mask8 : ℕ → ℕ
mask8 k = 0xff * 2 ^ k % 256

-- `(a & mask) == (b & mask)`; both addresses are IPv4 where this is asked.
abbrev pub same_under : ℕ → Option ℕ → Option ℕ → Bool
same_under mask (some a) (some b) = bit_and a mask == bit_and b mask
same_under mask (some a) none = false
same_under mask none b = false

unfoldable pub matches_ipv4 : Ip → Ip → Option ℕ → Verdict
matches_ipv4 pat ip none = if is_ipv4_mapped ip then undefined else verdict false
matches_ipv4 pat ip (some n) =
    if not (is_ipv4_mapped ip)
    then verdict false
    else (if n == 0 || ltb 32 n
        then undefined
        else (if is_ipv4_mapped pat
            then verdict (same_under (mask32 (32 - n)) (ipv4 pat) (ipv4 ip))
            else thrown))

-- The loop over the bytes, `n` bits of the mask left.
unfoldable pub match_bytes : List ℕ → List ℕ → ℕ → Bool
match_bytes [] ys n = true
match_bytes (x ∷ xs) [] n = true
match_bytes (x ∷ xs) (y ∷ ys) n =
    let rest = match_bytes xs ys (n - 8) in
    if leb 8 n
    then (if not (x == y) then false else (if n - 8 == 0 then true else rest))
    else bit_and x (mask8 (8 - n)) == bit_and y (mask8 (8 - n))

-- With a netmask of -1 the first byte is compared under an empty mask, and no other is.
unfoldable pub matches_ipv6 : Ip → Ip → Option ℕ → Verdict
unfolding match_bytes
matches_ipv6 pat ip none = if is_ipv4_mapped ip then verdict false else verdict true
matches_ipv6 pat ip (some n) =
    if is_ipv4_mapped ip then verdict false else verdict (match_bytes pat ip n)

abbrev pub member_verdict : Option Bool → Verdict
member_verdict none = thrown
member_verdict (some b) = verdict b

abbrev pub suffix_verdict : List ℕ → Option (List ℕ) → Bool
suffix_verdict pattern none = false
suffix_verdict pattern (some name) = has_suffix name pattern

unfoldable pub match_kind : Resolver → Filter → Kind → Host → Verdict
match_kind r f t_ip h = member_verdict (is_member_of h f.host)
match_kind r f t_ipv6 h = verdict (ip_eq f.host.ip h.ip)
match_kind r f t_hostname h = verdict (ip_eq h.ip (of_ipv4 (r.get_ip f.pattern)))
match_kind r f t_suffix h = verdict (suffix_verdict f.pattern (r.hostname h.ip))
match_kind r f t_ipv4_with_netmask h = matches_ipv4 f.host.ip h.ip f.netmask
match_kind r f t_ipv6_with_netmask h = matches_ipv6 f.host.ip h.ip f.netmask

-- `matches(fl, h)`
unfoldable pub matches : Resolver → Filter → ℕ → Host → Verdict
unfolding match_kind
matches r f fl h = if bit_and f.flags fl == 0 then verdict false else match_kind r f f.kind h

abbrev is_kind_ip : Kind → Bool
is_kind_ip t_ip = true
is_kind_ip _ = false

-- `isSet()`
unfoldable pub filter_is_set : Filter → Bool
filter_is_set f = not (is_kind_ip f.kind && not (is_set f.host.ip))
