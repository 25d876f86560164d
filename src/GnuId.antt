-- ===== src/GnuId.antt =====
-- `GnuID` and `GnuIDList` of core/common/gnuid.h and gnuid.cpp: the 16-byte identifiers of channels,
-- sessions and broadcasts, and a bounded list of those last seen. Random bytes (`sys->rnd()`) and the
-- time (`sys->getTime()`) are arguments.
pub mod Encode
pub mod Text
pub mod Seen
mod Tests
use peercast_yt.Prelude.{
  ℕ, zero, suc, ◌+◌, ◌-◌, ◌*◌, ◌/◌, ◌%◌, Bool, true, false, ◌&&◌, ◌||◌, not, Option, none, some,
  List, [], ◌∷◌, ◌++◌, map, ltb, leb, ◌==◌, if◌then◌else◌, bit_xor, take, drop, length, get_or, set,
  replicate, bytes_eq,
}
use peercast_yt.Address.{Ip, Host}

pub record GnuId : Type 0 where
  pub id : List ℕ
  pub store_time : ℕ

-- `clear()`
abbrev pub cleared : GnuId
cleared = record { id = replicate 16 0; store_time = 0 }

abbrev pub is_same : GnuId → GnuId → Bool
is_same a b = bytes_eq a.id b.id

abbrev pub any_nonzero : List ℕ → Bool
any_nonzero [] = false
any_nonzero (b ∷ bs) = if not (b == 0) then true else any_nonzero bs

abbrev pub is_set : GnuId → Bool
is_set a = any_nonzero a.id

-- The first loop of `encode`: `((unsigned char *)&h->ip)[i&3]` is a byte of the 16 of the address.
abbrev pub address_byte : Option Host → ℕ → ℕ
address_byte none i = 0
address_byte (some h) i = get_or h.ip (i % 4) 0

unfoldable pub pepper : Option Host → ℕ → ℕ → List ℕ → List ℕ
pepper h salt3 i [] = []
pepper h salt3 i (b ∷ bs) = bit_xor (bit_xor b (address_byte h i)) salt3 ∷ pepper h salt3 (i + 1) bs

-- One use of a salt, a text without its terminating 0: the byte to mix in, 0 for none, and the next
-- index. At the end of the salt nothing is mixed in, and the index starts over.
abbrev pub salt_byte : Option (List ℕ) → ℕ → ℕ
salt_byte none s = 0
salt_byte (some t) s = get_or t s 0

abbrev pub salt_next : Option (List ℕ) → ℕ → ℕ
salt_next none s = s
salt_next (some t) s = if ltb s (length t) then s + 1 else 0

-- The second loop, `n` rounds left from round `i` on.
unfoldable pub salt_loop : Option (List ℕ) → Option (List ℕ) → ℕ → ℕ → ℕ → ℕ → List ℕ → List ℕ
salt_loop salt1 salt2 zero i s1 s2 id = id
salt_loop salt1 salt2 (suc n) i s1 s2 id =
    salt_loop salt1 salt2 n (i + 1) (salt_next salt1 s1) (salt_next salt2 s2) (
      set id (i % 16)
        (bit_xor (bit_xor (get_or id (i % 16) 0) (salt_byte salt1 s1)) (salt_byte salt2 s2)))

abbrev pub salt_length : Option (List ℕ) → ℕ
salt_length none = 0
salt_length (some t) = length t

abbrev pub larger : ℕ → ℕ → ℕ
larger a b = if ltb a b then b else a

abbrev pub salt_rounds : Option (List ℕ) → Option (List ℕ) → ℕ
salt_rounds salt1 salt2 = (larger (salt_length salt1) (salt_length salt2) / 16 + 1) * 16

-- `encode(h, salt1, salt2, salt3)`
unfoldable pub encode : Option Host → Option (List ℕ) → Option (List ℕ) → ℕ → GnuId → GnuId
unfolding pepper salt_loop
encode h salt1 salt2 salt3 a = record a {
  id = salt_loop salt1 salt2 (salt_rounds salt1 salt2) 0 0 0 (pepper h salt3 0 a.id);
}

-- `%02X` of a byte.
abbrev pub hex_digit : ℕ → ℕ
hex_digit d = if ltb d 10 then b'0' + d else b'A' + (d - 10)

unfoldable pub to_str : List ℕ → List ℕ
to_str [] = []
to_str (b ∷ bs) = hex_digit (b / 16) ∷ hex_digit (b % 16) ∷ to_str bs

-- The value of a hexadecimal digit.
abbrev pub hex_value : ℕ → Option ℕ
hex_value c =
    if leb b'0' c && leb c b'9'
    then some (c - b'0')
    else (if leb b'a' c && leb c b'f'
        then some (c - b'a' + 10)
        else (if leb b'A' c && leb c b'F' then some (c - b'A' + 10) else none))

abbrev pub is_space : ℕ → Bool
is_space c = c == 32 || (leb 9 c && leb c 13)

abbrev pub or_zero : Option ℕ → ℕ
or_zero none = 0
or_zero (some v) = v

abbrev pub two_digits : Option ℕ → Option ℕ → ℕ
two_digits none w = 0
two_digits (some v) none = v
two_digits (some v) (some w) = v * 16 + w

-- `(unsigned char) strtoul(buf, nullptr, 16)` of two characters.
abbrev pub hex_pair : ℕ → ℕ → ℕ
hex_pair c d =
    if is_space c || c == b'+'
    then or_zero (hex_value d)
    else (if c == b'-'
        then (256 - or_zero (hex_value d)) % 256
        else two_digits (hex_value c) (hex_value d))

abbrev pub read_pairs : ℕ → List ℕ → List ℕ
read_pairs zero cs = []
read_pairs (suc n) [] = []
read_pairs (suc n) (c ∷ []) = []
read_pairs (suc n) (c ∷ d ∷ cs) = hex_pair c d ∷ read_pairs n cs

-- `fromStr(str)`, of a text without its terminating 0.
unfoldable pub from_str : List ℕ → GnuId
from_str cs =
    if ltb (length cs) 32 then cleared else record { id = read_pairs 16 cs; store_time = 0 }

-- `generate(flags)`: the first byte is then set to the flags.
unfoldable pub generate : ℕ → List ℕ → GnuId
generate flags rnd = record { id = set (map (λ r. r % 256) (take 16 rnd)) 0 flags; store_time = 0 }

-- `GnuID::random()`
unfoldable pub random : List ℕ → GnuId
random rnd =
    let id = map (λ r. r % 256) (take 16 rnd) in
    if any_nonzero id
    then record { id = id; store_time = 0 }
    else record { id = set id 15 1; store_time = 0 }

abbrev pub get_flags : GnuId → ℕ
get_flags a = get_or a.id 0 0

-- `GnuIDList(max)`
unfoldable pub empty_list : ℕ → List GnuId
empty_list n = replicate n cleared

-- `GnuIDList::clear()`
unfoldable pub clear_list : List GnuId → List GnuId
clear_list [] = []
clear_list (x ∷ xs) = cleared ∷ clear_list xs

unfoldable pub contains : List GnuId → GnuId → Bool
contains [] a = false
contains (x ∷ xs) a = if is_same x a then true else contains xs a

unfoldable pub num_used : List GnuId → ℕ
num_used [] = 0
num_used (x ∷ xs) = if x.store_time == 0 then num_used xs else num_used xs + 1

-- The loop of `getOldest`, with the least time so far.
unfoldable pub oldest_from : List GnuId → ℕ → ℕ
oldest_from [] t = t
oldest_from (x ∷ xs) t =
    oldest_from xs
      (if x.store_time == 0 then t else (if ltb x.store_time t then x.store_time else t))

abbrev pub get_oldest : List GnuId → ℕ
get_oldest xs = oldest_from xs 0xffffffff

-- What the loop of `add` finds: the index of the same identifier, or that of the oldest entry.
pub data Place : Type 0 where
  same_at : ℕ → Place
  oldest_at : ℕ → Place

-- The loop of `add` from index `i` on, with the least time so far and its index.
unfoldable pub find_place : List GnuId → GnuId → ℕ → ℕ → ℕ → Place
find_place [] a i min_time min_index = oldest_at min_index
find_place (x ∷ xs) a i min_time min_index =
    let rest =
      find_place xs a (i + 1) (if leb x.store_time min_time then x.store_time else min_time)
        (if leb x.store_time min_time then i else min_index) in
    if is_same x a then same_at i else rest

abbrev pub put_at : List GnuId → GnuId → ℕ → Place → List GnuId
put_at xs a now (same_at i) = set xs i (record { id = (get_or xs i a).id; store_time = now })
put_at xs a now (oldest_at i) = set xs i (record { id = a.id; store_time = now })

-- `add(id)` at time `now`.
unfoldable pub add : ℕ → List GnuId → GnuId → List GnuId
unfolding find_place
add now xs a = put_at xs a now (find_place xs a 0 0xffffffff 0)
