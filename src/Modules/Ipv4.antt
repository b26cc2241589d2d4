-- ===== src/Modules/Ipv4.antt =====
-- omnistack-core/src/modules/ipv4.rs. `debug` is the build profile.
pub mod Select
pub mod Sender
pub mod Receiver
use Prim.Native.String.{String}
use omni_stack_rust.Base.{
  or_panic, ℕ, ◌+◌, ◌*◌, ◌/◌, ◌%◌, ◌^◌, ◌∷◌, [], List, Bool, true, false, ◌&&◌, ◌||◌, Option, none,
  some, Outcome, ok, panic, ◌>>=◌, ltb, leb, length, if◌then◌else◌, ◌==◌,
}
use omni_stack_rust.Base.Word.{u8_mod, u16_mod, add_word, sub_word, to_be16}
use omni_stack_rust.Error.{Error, dropped, Result, value, error}
use omni_stack_rust.Packet.{Packet, packet_len, set_len, read8, read16, write8, write16, write32}
use omni_stack_rust.Packet.Pool.{Mempool, World, load, store, deallocate}
use omni_stack_rust.Config.{StackConfig}
use omni_stack_rust.Config.Load.{ConfigManager, get_stack_config}
use omni_stack_rust.Protocol.Addr.{from_le_bytes}
use omni_stack_rust.Protocol.Header.{
  ipv4_header_size, ihl, set_version, set_ihl, proto_code, Ipv4ProtoType,
}
use omni_stack_rust.Protocol.Header.Ipv4Field
use omni_stack_rust.Protocol.Route.{Route, matches}

-- `Ipv4Sender`'s state: a vector of room for ten routes.
abbrev pub route_table_size : ℕ
route_table_size = 10

-- `try_extend_from_slice(..).unwrap()` on an empty table.
extend : List Route → Outcome (List Route)
extend routes = if leb (length routes) route_table_size then ok routes else panic

-- `init`, from an empty table.
unfoldable pub init : String → ConfigManager → Outcome (List Route)
unfolding extend get_stack_config
init stack_name config = do
  stack_config ← or_panic (get_stack_config stack_name config)
  extend stack_config.routes

abbrev pub src_addr : ℕ
src_addr = 192 + 256 * (168 + 256 * (10 + 256 * 1))

abbrev pub dst_addr : ℕ
dst_addr = 192 + 256 * (168 + 256 * (10 + 256 * 2))

-- The loop over the routes, with `max_cidr` and `dst_nic` so far.
unfoldable pub select : List Route → ℕ → ℕ → Option ℕ → Option ℕ
select [] dst max_cidr dst_nic = dst_nic
select (r ∷ rs) dst max_cidr dst_nic =
    let taken = select rs dst r.cidr (some r.nic) in
    let passed = select rs dst max_cidr dst_nic in
    if matches r dst && ltb max_cidr r.cidr then taken else passed

abbrev or_zero : Option ℕ → ℕ
or_zero none = 0
or_zero (some n) = n

unfoldable pub choose_nic : List Route → ℕ
unfolding select
choose_nic routes = or_zero (select routes dst_addr 0 none)

sender_room : Bool → List Route → Packet → Outcome Packet
unfolding choose_nic
sender_room debug routes p = do
  offset ← sub_word debug u16_mod p.offset ipv4_header_size
  ok (record p {
    nic = choose_nic routes;
    offset = offset;
    l3_header = record { length = ipv4_header_size; offset = offset };
  })

-- `set_version(4)` and `set_ihl(20 >> 2)`, on the byte that is there.
set_first : Bool → ℕ → Packet → Outcome Packet
set_first debug hdr p = do
  first ← read8 p (hdr + Ipv4Field.version_ihl)
  first ← set_version debug 4 first
  first ← set_ihl debug (ipv4_header_size / 2 ^ 2) first
  write8 (hdr + Ipv4Field.version_ihl) first p

unfoldable pub sender : Bool → List Route → Packet → Outcome (Packet × Result (Unit {0}))
unfolding sender_room set_first to_be16 proto_code
sender debug routes p = do
  p ← sender_room debug routes p
  let hdr = p.l3_header.offset
  p ← set_first debug hdr p
  len ← packet_len debug p
  p ← write16 (hdr + Ipv4Field.tot_len) (to_be16 len) p
  p ← write8 (hdr + Ipv4Field.protocol) (proto_code Ipv4ProtoType.udp) p
  p ← write8 (hdr + Ipv4Field.ttl) 255 p
  p ← write32 (hdr + Ipv4Field.src) src_addr p
  p ← write32 (hdr + Ipv4Field.dst) dst_addr p
  p ← write8 (hdr + Ipv4Field.tos) 0 p
  p ← write16 (hdr + Ipv4Field.id) 0 p
  p ← write16 (hdr + Ipv4Field.frag_off) 0 p
  p ← write16 (hdr + Ipv4Field.cksum) 0 p
  ok (p, value tt)

-- `Ipv4Receiver::process` up to its test: the packet, and whether the test drops it.
unfoldable pub receive : Bool → Packet → Outcome (Packet × Bool)
unfolding to_be16
receive debug p = do
  let ipv4 = p.offset
  first ← read8 p (ipv4 + Ipv4Field.version_ihl)
  let length = ihl first * 2 ^ 2 % u8_mod
  let p' = record p { l3_header = record { length = length; offset = p.offset } }
  tot_len ← read16 p (ipv4 + Ipv4Field.tot_len)
  p' ← set_len debug (to_be16 tot_len) p'
  offset ← add_word debug u16_mod p'.offset p'.l3_header.length
  ttl ← read8 p (ipv4 + Ipv4Field.ttl)
  ok (record p' { offset = offset }, ltb (ihl first) 5 || ttl == 0)

module _ (M : Mempool) where
  finish : Bool → ℕ → ℕ → Bool → World M → Outcome (World M × Result (Unit {0}))
  finish debug ptr thread false w = ok (w, value tt)
  finish debug ptr thread true w = do w ← deallocate M debug ptr thread w; ok (w, error dropped)

  -- The whole of `process`, on the packet at `ptr`.
  unfoldable pub receiver : Bool → ℕ → ℕ → World M → Outcome (World M × Result (Unit {0}))
  unfolding receive finish
  receiver debug ptr thread w = do
    p ← load M ptr w
    (p, is_dropped) ← receive debug p
    finish debug ptr thread is_dropped (store M ptr p w)
