-- ===== src/Packet.antt =====
-- omnistack-core/src/packet.rs, `Packet`: its fields, its length and the memory that its headers are
-- read from and written to. `debug` is the build profile, under which overflow panics.
pub mod Bytes
pub mod Kept
pub mod Trail
pub mod Length
pub mod Pool
pub mod Chain
use omni_stack_rust.Base.{
  ℕ, zero, suc, ◌+◌, ◌-◌, ◌*◌, ◌/◌, ◌%◌, ◌<◌, ◌≡◌, Bool, true, false, Option, none, some, List, [],
  ◌∷◌, Outcome, ok, panic, undefined, ◌>>=◌, or_undefined, length, get_elem?, set, ltb,
  if◌then◌else◌,
}
use omni_stack_rust.Base.Word.{u16_mod, add_word, sub_word}

abbrev pub mtu : ℕ
mtu = 1500

abbrev pub default_offset : ℕ
default_offset = 64

abbrev pub packet_buf_size : ℕ
packet_buf_size = mtu + default_offset

pub record Header : Type 0 where
  pub length : ℕ
  pub offset : ℕ

-- The packet's bytes are its own, or those of the DPDK buffer at this address.
pub data PktBufType : Type 0 where
  local : PktBufType
  mbuf : ℕ → PktBufType

-- Where `data` points: at the packet's own `buf`, or at memory outside it, with what lies there.
pub data Region : Type 0 where
  own : Region
  outside : List ℕ → Region

-- A pointer to a packet is its number in the pool; `none` is null.
pub record Packet : Type 0 where
  pub len : ℕ
  pub l2_header : Header
  pub l3_header : Header
  pub l4_header : Header
  pub offset : ℕ
  pub region : Region
  pub next : Option ℕ
  pub nic : ℕ
  pub thread_id : ℕ
  pub refcnt : ℕ
  pub buf_ty : PktBufType
  pub buf : List ℕ

-- `Packet::len`.
unfoldable pub packet_len : Bool → Packet → Outcome ℕ
packet_len debug p = sub_word debug u16_mod p.len p.offset

unfoldable pub set_len : Bool → ℕ → Packet → Outcome Packet
set_len debug len p = do total ← add_word debug u16_mod len p.offset; ok (record p { len = total })

-- The bytes from `data` on.
abbrev region_bytes : Region → List ℕ → List ℕ
region_bytes own buf = buf
region_bytes (outside bytes) buf = bytes

abbrev pub bytes : Packet → List ℕ
bytes p = region_bytes p.region p.buf

abbrev put_region : Region → List ℕ → Packet → Packet
put_region own bs p = record p { buf = bs }
put_region (outside old) bs p = record p { region = outside bs }

abbrev pub put_bytes : List ℕ → Packet → Packet
put_bytes bs p = put_region p.region bs p

-- A read or a write through `data.add(i)`; past the memory's end it is undefined.
unfoldable pub read8 : Packet → ℕ → Outcome ℕ
read8 p i = or_undefined (get_elem? (bytes p) i)

unfoldable pub write8 : ℕ → ℕ → Packet → Outcome Packet
write8 i b p = if ltb i (length (bytes p)) then ok (put_bytes (set (bytes p) i b) p) else undefined

-- A `u16` and a `u32` lie lowest byte first.
unfoldable pub read16 : Packet → ℕ → Outcome ℕ
unfolding read8
read16 p i = do low ← read8 p i; high ← read8 p (i + 1); ok (low + 256 * high)

unfoldable pub write16 : ℕ → ℕ → Packet → Outcome Packet
unfolding write8
write16 i x p = do p ← write8 i (x % 256) p; write8 (i + 1) (x / 256 % 256) p

unfoldable pub write32 : ℕ → ℕ → Packet → Outcome Packet
unfolding write16
write32 i x p = do p ← write16 i (x % 65536) p; write16 (i + 2) (x / 65536 % 65536) p

-- A byte array, `[u8; n]`.
unfoldable pub write_all : ℕ → List ℕ → Packet → Outcome Packet
unfolding write8
write_all i [] p = ok p
write_all i (b ∷ bs) p = do p ← write8 i b p; write_all (i + 1) bs p
