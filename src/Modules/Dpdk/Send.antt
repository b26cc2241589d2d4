-- ===== src/Modules/Dpdk/Send.antt =====
-- dpdk.rs, `Dpdk::send`: a packet's memory is attached to a buffer of the card. What DPDK computes
-- (physical addresses, the checksum of the pseudo header) and answers is an argument.
pub mod Attach
pub mod Waiting
pub mod Carried
pub mod Card
pub mod Plugged
mod Tests
use omni_stack_rust.Base.{
  leb, length, ℕ, ◌+◌, ◌*◌, ◌%◌, ◌^◌, Bool, true, false, ◌&&◌, ◌||◌, not, Option, none, some, List,
  Outcome, ok, panic, undefined, ◌>>=◌, or_undefined, get_elem?, map, ◌++◌, take, drop, ◌==◌,
  bit_or, if◌then◌else◌,
}
use omni_stack_rust.Base.Word.{u64_mod, add_word, sub_word}
use omni_stack_rust.Error.{Result, value}
use omni_stack_rust.Packet.{
  Packet, PktBufType, local, mbuf, bytes, packet_len, read8, read16, write16,
}
use omni_stack_rust.Packet.Pool.{Mempool, World, load, store}
use omni_stack_rust.Protocol.Header.{
  ether_code, ipv4, arp, ipv6, proto_code, tcp, udp, ipv4_header_size,
}
use omni_stack_rust.Protocol.Header.EthField
use omni_stack_rust.Protocol.Header.Ipv4Field
use omni_stack_rust.Protocol.Header.UdpField
use omni_stack_rust.Modules.Dpdk.{burst_size, Dpdk, flush}

-- `RTE_MBUF_F_EXTERNAL`, `RTE_MBUF_F_TX_IP_CKSUM`, `RTE_MBUF_F_TX_IPV4` and `RTE_MBUF_F_TX_UDP_CKSUM`.
abbrev pub f_external : ℕ
f_external = 2 ^ 61

abbrev pub f_ip_cksum : ℕ
f_ip_cksum = 2 ^ 54

abbrev pub f_ipv4 : ℕ
f_ipv4 = 2 ^ 55

abbrev pub f_udp_cksum : ℕ
f_udp_cksum = 3 * 2 ^ 52

-- Where a buffer points: at its own room, or at the data of a packet, from this offset on.
pub data BufAddr : Type 0 where
  headroom : BufAddr
  packet_data : ℕ → ℕ → BufAddr

-- `rte_mbuf_ext_shared_info` with `packet_free_callback`, and the packet that it is called on.
pub record SharedInfo : Type 0 where
  pub fcb_opaque : ℕ
  pub refcnt : ℕ

pub record Buffer : Type 0 where
  pub buf_addr : BufAddr
  pub buf_iova : ℕ
  pub buf_len : ℕ
  pub data_off : ℕ
  pub pkt_len : ℕ
  pub data_len : ℕ
  pub l2_len : ℕ
  pub l3_len : ℕ
  pub ol_flags : ℕ
  pub shinfo : Option SharedInfo

-- The physical address of a pool's object, the address that a packet's `data` holds, and the checksum
-- of the pseudo header of an IPv4 header.
pub record Platform : Type 0 where
  pub virt2iova : ℕ → ℕ
  pub data_address : ℕ → Packet → ℕ
  pub phdr_cksum : List ℕ → ℕ → ℕ

-- What the card and its pool answer to a flush, and the buffers as they are then.
pub record Answer : Type 0 where
  pub bursts : List ℕ
  pub fresh : Option (List ℕ)
  pub buffers : ℕ → Option Buffer

-- The adapter, the buffers by their addresses, and what the card was handed so far: each buffer as it was
-- then, in order.
pub record Sending : Type 0 where
  pub card : Dpdk
  pub buffers : ℕ → Option Buffer
  pub wire : List (Option Buffer)

abbrev pub put_buffer : (ℕ → Option Buffer) → ℕ → Buffer → ℕ → Option Buffer
put_buffer f address b a = if address == a then some b else f a

abbrev is_local : PktBufType → Bool
is_local local = true
is_local (mbuf m) = false

-- The shared info is written into the buffer's own room. In a buffer that still points to a packet it
-- would go to memory that the buffer does not own.
shared_info : ℕ → BufAddr → Outcome SharedInfo
shared_info p headroom = ok (record { fcb_opaque = p; refcnt = 1 })
shared_info p (packet_data other offset) = undefined

-- `udph.chksum`: the checksum of the pseudo header, for the card to go on with. It is computed from the whole
-- header, which has to lie in the packet's memory.
offload_udp : Platform → Packet → ℕ → Outcome (Packet × ℕ)
offload_udp hw pkt flags =
    let header = take ipv4_header_size (drop pkt.l3_header.offset (bytes pkt)) in
    if leb (pkt.l3_header.offset + ipv4_header_size) (length (bytes pkt))
    then (write16 (pkt.l4_header.offset + UdpField.chksum) (hw.phdr_cksum header flags) pkt
        >>= λ pkt. ok (pkt, flags))
    else undefined

-- `unimplemented!` for another protocol or type; what is none of the enum's is no value of it.
other_protocol : ℕ → Outcome (Packet × ℕ)
other_protocol protocol = if protocol == proto_code tcp then panic else undefined

other_ether_type : ℕ → Outcome (Packet × ℕ)
other_ether_type ether_ty =
    if ether_ty == ether_code arp || ether_ty == ether_code ipv6 then panic else undefined

offload_ipv4 : Platform → Packet → ℕ → Outcome (Packet × ℕ)
unfolding offload_udp other_protocol
offload_ipv4 hw pkt flags = do
  protocol ← read8 pkt (pkt.l3_header.offset + Ipv4Field.protocol)
  if protocol == proto_code udp
      then offload_udp hw pkt (bit_or flags f_udp_cksum)
      else other_protocol protocol

unfoldable pub offload : Platform → Packet → ℕ → Outcome (Packet × ℕ)
unfolding offload_ipv4 other_ether_type
offload hw pkt flags = do
  ether_ty ← read16 pkt (pkt.l2_header.offset + EthField.ether_ty)
  if ether_ty == ether_code ipv4
      then offload_ipv4 hw pkt (bit_or flags (bit_or f_ip_cksum f_ipv4))
      else other_ether_type ether_ty

-- `Packet::iova`.
unfoldable pub iova : Bool → Platform → ℕ → Packet → Outcome ℕ
iova debug hw p pkt =
    if debug && not (is_local pkt.buf_ty)
    then panic
    else sub_word debug u64_mod (hw.data_address p pkt + pkt.offset) p >>= λ far.
        add_word debug u64_mod (hw.virt2iova p) far

-- The buffer's fields; `set_l2_len` and `set_l3_len` keep 7 and 9 bits.
abbrev pub describe_packet : ℕ → Packet → ℕ → ℕ → SharedInfo → Buffer → Buffer
describe_packet p pkt pkt_len io info b = record b {
  buf_addr = packet_data p pkt.offset;
  buf_iova = io;
  buf_len = pkt_len;
  data_off = 0;
  pkt_len = pkt_len;
  data_len = pkt_len;
  l2_len = pkt.l2_header.length % 2 ^ 7;
  l3_len = pkt.l3_header.length % 2 ^ 9;
  shinfo = some info;
}

module _ (M : Mempool) (debug : Bool) where
  flushed :
      Answer
      → Sending
      → World M
      → Option (Outcome (List ℕ × Dpdk × Result (Unit {0})))
      → Option (Outcome (Sending × World M × Result (Unit {0})))
  flushed answer s w none = none
  flushed answer s w (some r) = some (
      r >>= λ (sent, card, res). ok (
        record { card = card; buffers = answer.buffers; wire = s.wire ++ map s.buffers sent },
        w,
        res,
      ))

  -- The buffer waits, and a full queue is flushed.
  pub waits :
      Answer
      → Outcome (Sending × World M)
      → Option (Outcome (Sending × World M × Result (Unit {0})))
  unfolding flushed
  waits answer panic = some panic
  waits answer undefined = some undefined
  waits answer (ok (s, w)) =
      let card = record s.card { tx_idx = s.card.tx_idx + 1 } in
      if card.tx_idx == burst_size
      then flushed answer s w (flush debug answer.bursts answer.fresh card)
      else some (ok (record s { card = card }, w, value tt))

module _ (M : Mempool) (debug : Bool) (hw : Platform) where
  -- `send` up to the count of the buffers that wait.
  unfoldable pub attach : ℕ → ℕ → Sending → World M → Outcome (Sending × World M)
  unfolding shared_info offload iova
  attach thread p s w = do
    address ← or_undefined (get_elem? s.card.tx_bufs s.card.tx_idx)
    b ← or_undefined (s.buffers address)
    pkt ← load M p w
    info ← shared_info p b.buf_addr
    pkt_len ← packet_len debug pkt
    io ← iova debug hw p pkt
    let filled = describe_packet p pkt pkt_len io info b
    (pkt, flags) ← offload hw (record pkt { thread_id = thread }) (bit_or b.ol_flags f_external)
    let filled = record filled { ol_flags = flags }
    ok (record s { buffers = put_buffer s.buffers address filled }, store M p pkt w)

  unfoldable pub send :
      Answer → ℕ → ℕ → Sending → World M → Option (Outcome (Sending × World M × Result (Unit {0})))
  unfolding attach waits
  send answer thread p s w = waits M debug answer (attach thread p s w)
