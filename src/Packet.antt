-- ===== src/Packet.antt =====
-- `ChanPacket` of core/common/chanpacket.h and chanpacket.cpp: a packet with a data array of
-- MAX_DATALEN bytes, of which the first `len` are its payload.
pub mod Buffer
use peercast_yt.Prelude.{
  ℕ, suc, ◌≤◌, ◌≡◌, refl, Bool, false, Option, none, some, List, ◌++◌, arith, ltb, if◌then◌else◌,
  take, drop, length, take-take_append,
}

abbrev pub max_datalen : ℕ
max_datalen = 16384

-- The `TYPE` enumeration, as the bits that `copyFrom` tests.
abbrev pub t_unknown : ℕ
t_unknown = 0

abbrev pub t_head : ℕ
t_head = 1

abbrev pub t_data : ℕ
t_data = 2

pub record Packet : Type 0 where
  pub kind : ℕ
  pub len : ℕ
  pub pos : ℕ
  pub sync : ℕ
  pub cont : Bool
  pub bytes : List ℕ

pub data Fault : Type 0 where
  too_large : Fault

-- `init()`: the data array keeps what it held.
unfoldable pub reset : Packet → Packet
reset p = record p { kind = t_unknown; len = 0; pos = 0; sync = 0; cont = false }

-- `memcpy(dst, src, n)`, on the whole array `dst`.
abbrev pub copy_bytes : List ℕ → List ℕ → ℕ → List ℕ
copy_bytes dst src n = take n src ++ drop n dst

-- `init(type, data, length, position)`. The type is assigned before the length is checked, and
-- `sync` and `cont` are left alone.
unfoldable pub fill : Packet → ℕ → List ℕ → ℕ → ℕ → Packet × Option Fault
fill p t src l position =
    if ltb max_datalen l
    then (record p { kind = t }, some too_large)
    else (record p { kind = t; len = l; bytes = copy_bytes p.bytes src l; pos = position }, none)

-- `operator=`: only `len` bytes of the data are copied.
unfoldable pub assign : Packet → Packet → Packet
assign p other = record {
  kind = other.kind;
  len = other.len;
  pos = other.pos;
  sync = other.sync;
  cont = other.cont;
  bytes = copy_bytes p.bytes other.bytes other.len;
}

abbrev pub payload : Packet → List ℕ
payload p = take p.len p.bytes

-- `writeRaw(out)`: what it appends to the stream.
unfoldable pub write_raw : Packet → List ℕ → List ℕ
write_raw p out = out ++ payload p

-- The data array holds the whole payload.
abbrev pub IsWhole : Packet → Type 0
IsWhole p = p.len ≤ length p.bytes

-- What a reader of a packet sees: all of it but the bytes past the payload.
pub record Content : Type 0 where
  pub kind : ℕ
  pub len : ℕ
  pub pos : ℕ
  pub sync : ℕ
  pub cont : Bool
  pub body : List ℕ

abbrev pub view : Packet → Content
view p = record {
  kind = p.kind;
  len = p.len;
  pos = p.pos;
  sync = p.sync;
  cont = p.cont;
  body = payload p;
}

-- An assigned packet shows the same content, whatever the target held before.
pub view-assign : (p q : Packet) → IsWhole q → view (assign p q) ≡ view q
unfolding assign
view-assign p q h = ground (arith, take-take_append q.len q.bytes (drop q.len p.bytes))
