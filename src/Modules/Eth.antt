-- ===== src/Modules/Eth.antt =====
-- omnistack-core/src/modules/eth.rs. `debug` is the build profile.
pub mod Laws
use omni_stack_rust.Base.{ℕ, ◌+◌, ◌∷◌, [], Bool, Outcome, ok, ◌>>=◌}
use omni_stack_rust.Base.Word.{u16_mod, add_word, sub_word}
use omni_stack_rust.Error.{Result, value}
use omni_stack_rust.Packet.{Packet, write16, write_all}
use omni_stack_rust.Protocol.Addr.{MacAddr}
use omni_stack_rust.Protocol.Header.{eth_header_size, ether_code, ipv4}
use omni_stack_rust.Protocol.Header.EthField

abbrev pub peer : MacAddr
peer = record { raw = 0x02 ∷ 0x00 ∷ 0x00 ∷ 0x00 ∷ 0x00 ∷ 0x00 ∷ [] }

sender_room : Bool → Packet → Outcome Packet
sender_room debug p = do
  offset ← sub_word debug u16_mod p.offset eth_header_size
  ok (record p {
    offset = offset;
    l2_header = record { length = eth_header_size; offset = offset };
  })

unfoldable pub sender : Bool → Packet → Outcome (Packet × Result (Unit {0}))
unfolding sender_room
sender debug p = do
  p ← sender_room debug p
  let eth_header = p.l2_header.offset
  p ← write_all (eth_header + EthField.dst) peer.raw p
  p ← write16 (eth_header + EthField.ether_ty) (ether_code ipv4) p
  ok (p, value tt)

unfoldable pub receiver : Bool → Packet → Outcome (Packet × Result (Unit {0}))
receiver debug p = do
  let l2 = record p.l2_header { length = eth_header_size; offset = p.offset }
  offset ← add_word debug u16_mod p.offset eth_header_size
  ok (record p { l2_header = l2; offset = offset }, value tt)
