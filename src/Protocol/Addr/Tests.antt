-- ===== src/Protocol/Addr/Tests.antt =====
-- protocol.rs, `Ipv4Addr`: runs on small inputs.
use omni_stack_rust.Base.{ℕ, ◌≡◌, refl, ok, List, [], ◌∷◌, panic, arith}
use omni_stack_rust.Protocol.Addr.{
  Ipv4Addr, from_be, to_u32_be, from_str, split, collect, parse_u8, parse_digits, parsed, print,
  print_u8,
}
use omni_stack_rust.Protocol.Addr.Laws.{IsIpv4, be_numbers}
use omni_stack_rust.Protocol.Addr.Parse.{leading, verdict, from_str-verdict, from_str-print}

abbrev private_net : Ipv4Addr
private_net = record { octets = 10 ∷ 0 ∷ 0 ∷ 1 ∷ [] }

private_net-IsIpv4 : IsIpv4 private_net
private_net-IsIpv4 = record { four = refl; bytes = omega arith }

be_numbers_example :
    (to_u32_be (from_be 0x0A000001) ≡ 0x0A000001) × (from_be (to_u32_be private_net) ≡ private_net)
be_numbers_example = be_numbers 0x0A000001 private_net (omega arith) private_net-IsIpv4

-- 10.0.0.1
abbrev text : List ℕ
text = 49 ∷ 48 ∷ 46 ∷ 48 ∷ 46 ∷ 48 ∷ 46 ∷ 49 ∷ []

from_str-verdict_example : from_str text ≡ verdict (leading (split b'.' text))
from_str-verdict_example = from_str-verdict text

text_printed : print private_net ≡ ok text
unfolding print print_u8
text_printed = refl

from_str-print_example : from_str text ≡ ok (parsed private_net)
from_str-print_example = from_str-print private_net text private_net-IsIpv4 text_printed

-- 1.2.3.4.5
five_octets : from_str (49 ∷ 46 ∷ 50 ∷ 46 ∷ 51 ∷ 46 ∷ 52 ∷ 46 ∷ 53 ∷ []) ≡ panic
unfolding from_str split collect parse_u8 parse_digits
five_octets = refl
