-- ===== src/Modules/Eth/Laws.antt =====
-- What the Ethernet modules do to a packet.
use omni_stack_rust.Base.{
  ℕ, ◌+◌, ◌-◌, ◌≤◌, ◌<◌, ◌≡◌, refl, sym, ap, ◌∙◌, inl, inr, Bool, ok, Ends, Ends-bind, length,
  get_elem?, arith,
}
use omni_stack_rust.Base.Word.{u16_mod, sub_word_fits, add_word_fits, to_be16}
use omni_stack_rust.Error.{value}
use omni_stack_rust.Packet.{Packet, Header, bytes, read16}
use omni_stack_rust.Packet.Bytes.{
  Frame, Frame-refl, Touched, Touched-refl, Touched-write, byte-kept, Wrote, write16-Writes,
  write_all-Writes, read16-write16, le16,
}
use omni_stack_rust.Modules.Pushed.{HasRoom, Pushed, Placed, Placed-Touched-Pushed}
use omni_stack_rust.Modules.Eth.{sender, receiver, sender_room, peer}
use omni_stack_rust.Protocol.Header.{eth_header_size, ether_code, ipv4}

-- The packet that leaves `EthSender`. The source address is left to the Io node.
pub record EthSent (p : Packet) (q : Packet) : Type 0 where
  pub pushed : Pushed eth_header_size p q
  pub l4_header : q.l4_header ≡ p.l4_header
  pub l3_header : q.l3_header ≡ p.l3_header
  pub l2_header : q.l2_header ≡ record { length = eth_header_size; offset = q.offset }
  pub nic : q.nic ≡ p.nic
  pub dst : (j : ℕ) → j < 6 → get_elem? (bytes q) (q.offset + j) ≡ get_elem? peer.raw j
  pub src :
      (j : ℕ)
      → j < 6
      → get_elem? (bytes q) (q.offset + (6 + j)) ≡ get_elem? (bytes p) (q.offset + (6 + j))
  pub ether_ty : read16 q (q.offset + 12) ≡ ok (ether_code ipv4)

record Roomed (p : Packet) (q : Packet) : Type 0 where
  placed : Placed eth_header_size p q
  l4 : q.l4_header ≡ p.l4_header
  l3 : q.l3_header ≡ p.l3_header
  l2 : q.l2_header ≡ record { length = eth_header_size; offset = q.offset }
  nic : q.nic ≡ p.nic

sender_room-Roomed :
    (debug : Bool) (p : Packet) → HasRoom eth_header_size p → Ends (sender_room debug p) (Roomed p)
unfolding sender_room
sender_room-Roomed debug p h = (
  record p {
    offset = p.offset - eth_header_size;
    l2_header = record { length = eth_header_size; offset = p.offset - eth_header_size };
  },
  rw (sub_word_fits debug u16_mod p.offset eth_header_size h.front),
  ground (arith, h.front),
)

code_small : ether_code ipv4 < u16_mod
unfolding ether_code to_be16
code_small = omega arith

written :
    (p p0 p1 p2 : Packet) (o : ℕ)
    → o ≡ p0.offset
    → Roomed p p0
    → Wrote (o + 0) peer.raw p0 p1
    → Wrote (o + 12) (le16 (ether_code ipv4)) p1 p2
    → EthSent p p2
written p p0 p1 p2 o at a w1 w2 = record {
  pushed = Placed-Touched-Pushed eth_header_size a.placed touched;
  l4_header = touched.frame.l4_header ∙ a.l4;
  l3_header = touched.frame.l3_header ∙ a.l3;
  l2_header =
      touched.frame.l2_header
      ∙ (a.l2
          ∙ ap (λ (t : ℕ). record { length = eth_header_size; offset = t })
              (sym touched.frame.offset));
  nic = touched.frame.nic ∙ a.nic;
  dst = λ j h.
      ap (get_elem? (bytes p2)) (omega (arith, touched.frame.offset))
      ∙ (byte-kept (o + 12) (o + 0 + j) _ w2 (inl (omega arith)) ∙ w1.inside j h);
  src = λ j h.
      byte-kept (o + 12) (p2.offset + (6 + j)) _ w2 (inl (omega (arith, touched.frame.offset)))
      ∙ (byte-kept (o + 0) (p2.offset + (6 + j)) _ w1 (inr (omega (arith, touched.frame.offset)))
          ∙ ap (λ l. get_elem? l (p2.offset + (6 + j))) a.placed.memory);
  ether_ty =
      ap (read16 p2) (omega (arith, touched.frame.offset))
      ∙ read16-write16 p1 p2 (o + 12) _ code_small w2;
}
  where
    touched : Touched p0.offset (p0.offset + eth_header_size) p0 p2
    touched =
        Touched-write _ _ (o + 12) _ (omega arith) (omega arith)
          (Touched-write _ _ (o + 0) _ (omega arith) (omega arith) (Touched-refl _ _ p0) w1) w2

-- Given room, `EthSender` succeeds in either profile and puts a header of 14 bytes in front of the data:
-- the destination 02:00:00:00:00:00 and the type of IPv4 in network order. The bytes of the source
-- address are as they were, and so is everything else in the packet.
pub sender-EthSent :
    (debug : Bool) (p : Packet)
    → HasRoom eth_header_size p
    → Ends (sender debug p) (λ r. (r.1 ≡ value tt) × EthSent p r.0)
unfolding sender
sender-EthSent debug p h = Ends-bind (sender_room-Roomed debug p h) λ p0 a.
    Ends-bind (write_all-Writes _ _ p0 (fits p0 p0 a (Frame-refl p0) 0 6 (omega arith))) λ p1 w1.
      Ends-bind (write16-Writes _ _ p1 (fits p0 p1 a w1.frame 12 2 (omega arith))) λ p2 w2. (
        (p2, value tt),
        refl,
        (refl, written p p0 p1 p2 p0.l2_header.offset (ap (λ (e : Header). e.offset) a.l2) a w1 w2),
      )
  where
    fits :
        (p0 q : Packet)
        → Roomed p p0
        → Frame p0 q
        → (k n : ℕ) → k + n ≤ 14
        → p0.l2_header.offset + k + n ≤ length (bytes q)
    fits p0 q a f k n small = omega (
      arith,
      h.front,
      h.order,
      h.within,
      a.placed.moved,
      f.size,
      ap length a.placed.memory,
      ap (λ (e : Header). e.offset) a.l2,
    )

-- `EthReceiver` takes the header off: the data start 14 bytes later, and the header is where they were.
-- Nothing else changes.
pub receiver-value :
    (debug : Bool) (p : Packet)
    → p.offset + eth_header_size < u16_mod
    → receiver debug p
      ≡ ok (
        record p {
          l2_header = record { length = eth_header_size; offset = p.offset };
          offset = p.offset + eth_header_size;
        },
        value tt,
      )
unfolding receiver
receiver-value debug p h = rw (add_word_fits debug u16_mod p.offset eth_header_size h)
