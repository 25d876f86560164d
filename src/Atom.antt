-- ===== src/Atom.antt =====
-- `AtomStream` of core/common/atom.h: the tree-shaped messages of the PCP protocol. An atom is an ID
-- of four bytes, a word, and then its children, of which the word counts the number under a set top
-- bit, or its data, of which the word counts the bytes.
pub mod Tree
pub mod Addresses
mod Tests
use peercast_yt.Prelude.{
  ℕ, zero, suc, ◌+◌, ◌-◌, ◌*◌, ◌%◌, ◌^◌, Bool, true, false, Option, none, some, List, [], ◌∷◌, ◌++◌,
  ltb, leb, ◌==◌, if◌then◌else◌, take, drop, length,
}
use peercast_yt.Io.{
  Result, ok, err, Error, Reader, pure, fail, ◌>>=◌, ◌>>◌, bind_result, read, read_id4, read_int,
  read_short, read_char, skip, write_to, write_int, write_short, write_char, bad_atom, out_of_fuel,
}
use peercast_yt.Address.{Ip, of_ipv4, is_ipv4_mapped, ipv4}
use mathlib.Core.List.{reverse}

-- `nc|0x80000000`, `v & 0x80000000` and `v & 0x7fffffff`, of 32-bit words.
abbrev pub top_bit : ℕ
top_bit = 0x80000000

abbrev pub with_top : ℕ → ℕ
with_top n = n % top_bit + top_bit

-- `writeParent(id, nc)`
abbrev pub write_parent : List ℕ → ℕ → List ℕ
write_parent id nc = id ++ write_int (with_top nc)

-- `writeBytes(id, p, l)`, and by it `writeString`.
abbrev pub write_bytes : List ℕ → List ℕ → List ℕ
write_bytes id p = id ++ (write_int (length p) ++ p)

abbrev pub write_int_atom : List ℕ → ℕ → List ℕ
write_int_atom id d = id ++ (write_int 4 ++ write_int d)

abbrev pub write_short_atom : List ℕ → ℕ → List ℕ
write_short_atom id d = id ++ (write_int 2 ++ write_short d)

abbrev pub write_char_atom : List ℕ → ℕ → List ℕ
write_char_atom id d = id ++ (write_int 1 ++ write_char d)

abbrev pub write_id4_atom : List ℕ → List ℕ → List ℕ
write_id4_atom id d = id ++ (write_int 4 ++ d)

abbrev pub write_string_atom : List ℕ → List ℕ → List ℕ
write_string_atom id s = write_bytes id (s ++ 0 ∷ [])

-- `ip.ipv4()`, behind the test that the address is one of IPv4.
abbrev pub ipv4_word : Option ℕ → ℕ
ipv4_word (some v) = v
ipv4_word none = 0

abbrev pub address_body : Ip → List ℕ
address_body ip =
    if is_ipv4_mapped ip
    then write_int 4 ++ write_int (ipv4_word (ipv4 ip))
    else write_int 16 ++ reverse ip

-- `writeAddress(id, ip)`: an IPv4 address as a word, any other as its bytes in reverse.
unfoldable pub write_address : List ℕ → Ip → List ℕ
write_address id ip = id ++ address_body ip

-- `numChildren` and `numData`, as `read` leaves them.
pub record Header : Type 0 where
  pub id : List ℕ
  pub num_children : ℕ
  pub num_data : ℕ

abbrev pub header_of : List ℕ → ℕ → Header
header_of id v =
    if leb top_bit v
    then record { id = id; num_children = v % top_bit; num_data = 0 }
    else record { id = id; num_children = 0; num_data = v }

-- `read(numc, dlen)`
unfoldable pub read_header : Reader Header
unfolding read_id4 read_int
read_header = do id ← read_id4; v ← read_int; pure (header_of id v)

-- `checkData(d)`
abbrev pub check_data : Header → ℕ → Reader (Unit {0})
check_data h d = if h.num_data == d then pure tt else fail bad_atom

-- `readInt()`, `readShort()`, `readChar()`, `readBytes(p, l)`, `readBytes(p, max, dlen)`, by the
-- header that was read before.
unfoldable pub read_int_data : Header → Reader ℕ
unfolding read_int
read_int_data h = do check_data h 4; read_int

unfoldable pub read_short_data : Header → Reader ℕ
unfolding read_short
read_short_data h = do check_data h 2; read_short

unfoldable pub read_char_data : Header → Reader ℕ
unfolding read_char
read_char_data h = do check_data h 1; read_char

unfoldable pub read_bytes : Header → ℕ → Reader (List ℕ)
unfolding read
read_bytes h l = do check_data h l; read l

unfoldable pub read_address : Header → Reader Ip
unfolding read_int_data read_bytes
read_address h =
    if h.num_data == 4
    then (do v ← read_int_data h; pure (of_ipv4 v))
    else (if h.num_data == 16 then (do b ← read_bytes h 16; pure (reverse b)) else fail bad_atom)

-- The loop of `skip` over `n` children.
unfoldable pub skip_children : (ℕ → ℕ → Reader (Unit {0})) → ℕ → Reader (Unit {0})
skip_children skip_one zero = pure tt
skip_children skip_one (suc n) = do
  h ← read_header
  skip_one h.num_children h.num_data
  skip_children skip_one n

abbrev pub skip_data : ℕ → Reader (Unit {0})
skip_data d = if d == 0 then pure tt else skip d

-- `skip(c, d)`: the data, and then each child. On fuel, which bounds the depth of the tree.
unfoldable pub skip_atom : ℕ → ℕ → ℕ → Reader (Unit {0})
unfolding skip_children
skip_atom zero c d = fail out_of_fuel
skip_atom (suc f) c d = do skip_data d; skip_children (skip_atom f) c

-- `writeAtoms(id, in, cnt, data)`: what it writes, and the total that it returns. On fuel, as above.
-- The total is an `int`, as its word.
pub record Copied : Type 0 where
  pub bytes : List ℕ
  pub total : ℕ

abbrev pub copy_leaf : List ℕ → ℕ → Reader Copied
copy_leaf id dlen = do
  b ← write_to dlen
  pure (record { bytes = id ++ (write_int dlen ++ b); total = (8 + dlen) % 4294967296 })

-- The loop over `n` children, each copied by `copy`.
unfoldable pub copy_children : (List ℕ → ℕ → ℕ → Reader Copied) → ℕ → Reader Copied
copy_children copy zero = pure (record { bytes = []; total = 0 })
copy_children copy (suc n) = do
  h ← read_header
  x ← copy h.id h.num_children h.num_data
  y ← copy_children copy n
  pure (record { bytes = x.bytes ++ y.bytes; total = (x.total + y.total) % 4294967296 })

unfoldable pub write_atoms : ℕ → List ℕ → ℕ → ℕ → Reader Copied
unfolding copy_children
write_atoms zero id cnt dlen = fail out_of_fuel
write_atoms (suc f) id cnt dlen =
    let parent = (do
      y ← copy_children (write_atoms f) cnt
      pure (record {
        bytes = write_parent id cnt ++ y.bytes;
        total = (8 + y.total) % 4294967296;
      })) in
    if cnt == 0 then copy_leaf id dlen else parent
