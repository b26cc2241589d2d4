-- ===== src/Modules/Udp.antt =====
-- omnistack-core/src/modules/udp.rs. `debug` is the build profile.
pub mod Laws
use omni_stack_rust.Base.{ℕ, ◌+◌, Bool, Outcome, ok, ◌>>=◌}
use omni_stack_rust.Base.Word.{u16_mod, add_word, sub_word, to_be16}
use omni_stack_rust.Error.{Result, value}
use omni_stack_rust.Packet.{Packet, packet_len, write16}
use omni_stack_rust.Protocol.Header.{udp_header_size}
use omni_stack_rust.Protocol.Header.UdpField

-- The header goes in front of the data.
sender_room : Bool → Packet → Outcome Packet
sender_room debug p = do
  offset ← sub_word debug u16_mod p.offset udp_header_size
  ok (record p {
    offset = offset;
    l4_header = record { length = udp_header_size; offset = offset };
  })

unfoldable pub sender : Bool → Packet → Outcome (Packet × Result (Unit {0}))
unfolding sender_room to_be16
sender debug p = do
  p ← sender_room debug p
  let udp_hdr = p.l4_header.offset
  p ← write16 (udp_hdr + UdpField.src) (to_be16 80) p
  p ← write16 (udp_hdr + UdpField.dst) (to_be16 81) p
  len ← packet_len debug p
  p ← write16 (udp_hdr + UdpField.len) (to_be16 len) p
  ok (p, value tt)

unfoldable pub receiver : Bool → Packet → Outcome (Packet × Result (Unit {0}))
receiver debug p = do
  let l4 = record p.l4_header { length = udp_header_size; offset = p.offset }
  offset ← add_word debug u16_mod p.offset udp_header_size
  ok (record p { l4_header = l4; offset = offset }, value tt)
