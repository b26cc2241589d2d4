-- ===== src/Modules/Udp/Laws.antt =====
-- What the UDP modules do to a packet.
use omni_stack_rust.Base.{
  ℕ, ◌+◌, ◌-◌, ◌≤◌, ◌<◌, ◌≡◌, refl, sym, ◌∙◌, inl, Bool, ok, Ends, Ends-bind, Ends-value, ap,
  length, arith,
}
use omni_stack_rust.Base.Word.{u16_mod, sub_word_fits, add_word_fits, to_be16, to_be16-lt}
use omni_stack_rust.Error.{value}
use omni_stack_rust.Packet.{Packet, Header, bytes, packet_len, read16}
use omni_stack_rust.Packet.Bytes.{
  Frame, Frame-refl, Frame-trans, Touched, Touched-refl, Touched-write, read16-kept, Wrote,
  write16-Writes, read16-write16, le16,
}
use omni_stack_rust.Modules.Pushed.{HasRoom, Pushed, Placed, Placed-Touched-Pushed, Placed-len}
use omni_stack_rust.Modules.Udp.{sender, receiver, sender_room}
use omni_stack_rust.Protocol.Header.{udp_header_size}

-- The packet that leaves `UdpSender`.
pub record UdpSent (p : Packet) (q : Packet) : Type 0 where
  pub pushed : Pushed udp_header_size p q
  pub l4_header : q.l4_header ≡ record { length = udp_header_size; offset = q.offset }
  pub l3_header : q.l3_header ≡ p.l3_header
  pub l2_header : q.l2_header ≡ p.l2_header
  pub nic : q.nic ≡ p.nic
  pub src_port : read16 q q.offset ≡ ok (to_be16 80)
  pub dst_port : read16 q (q.offset + 2) ≡ ok (to_be16 81)
  pub udp_len : read16 q (q.offset + 4) ≡ ok (to_be16 (p.len - p.offset + udp_header_size))

-- The header's place.
record Roomed (p : Packet) (q : Packet) : Type 0 where
  placed : Placed udp_header_size p q
  l4 : q.l4_header ≡ record { length = udp_header_size; offset = q.offset }
  l3 : q.l3_header ≡ p.l3_header
  l2 : q.l2_header ≡ p.l2_header
  nic : q.nic ≡ p.nic

sender_room-Roomed :
    (debug : Bool) (p : Packet) → HasRoom udp_header_size p → Ends (sender_room debug p) (Roomed p)
unfolding sender_room
sender_room-Roomed debug p h = (
  record p {
    offset = p.offset - udp_header_size;
    l4_header = record { length = udp_header_size; offset = p.offset - udp_header_size };
  },
  rw (sub_word_fits debug u16_mod p.offset udp_header_size h.front),
  ground (arith, h.front),
)

-- The three fields, once written, are what is read.
written :
    (p p0 p1 p2 p3 : Packet) (o : ℕ)
    → o ≡ p0.offset
    → Roomed p p0
    → Wrote (o + 0) (le16 (to_be16 80)) p0 p1
    → Wrote (o + 2) (le16 (to_be16 81)) p1 p2
    → Wrote (o + 4) (le16 (to_be16 (p.len - p.offset + udp_header_size))) p2 p3
    → UdpSent p p3
written p p0 p1 p2 p3 o at a w1 w2 w3 = record {
  pushed = Placed-Touched-Pushed udp_header_size a.placed touched;
  l4_header =
      touched.frame.l4_header
      ∙ (a.l4
          ∙ ap (λ (t : ℕ). record { length = udp_header_size; offset = t })
              (sym touched.frame.offset));
  l3_header = touched.frame.l3_header ∙ a.l3;
  l2_header = touched.frame.l2_header ∙ a.l2;
  nic = touched.frame.nic ∙ a.nic;
  src_port = from_place (o + 0) p3.offset (omega (arith, touched.frame.offset)) (
      read16-kept (o + 4) (o + 0) _ _ w3 (inl (omega arith)) (
        read16-kept (o + 2) (o + 0) _ _ w2 (inl (omega arith))
          (read16-write16 p0 p1 (o + 0) _ (to_be16-lt 80) w1)));
  dst_port = from_place (o + 2) (p3.offset + 2) (omega (arith, touched.frame.offset)) (
      read16-kept (o + 4) (o + 2) _ _ w3 (inl (omega arith))
        (read16-write16 p1 p2 (o + 2) _ (to_be16-lt 81) w2));
  udp_len =
      from_place (o + 4) (p3.offset + 4) (omega (arith, touched.frame.offset))
        (read16-write16 p2 p3 (o + 4) _ (to_be16-lt _) w3);
}
  where
    touched : Touched p0.offset (p0.offset + udp_header_size) p0 p3
    touched =
        Touched-write _ _ (o + 4) _ (omega arith) (omega arith)
          (Touched-write _ _ (o + 2) _ (omega arith) (omega arith)
            (Touched-write _ _ (o + 0) _ (omega arith) (omega arith) (Touched-refl _ _ p0) w1) w2)
          w3

    from_place : (i j : ℕ) {x : ℕ} → i ≡ j → read16 p3 i ≡ ok x → read16 p3 j ≡ ok x
    from_place i j e h = ap (read16 p3) (sym e) ∙ h

-- Given room, `UdpSender` succeeds in either profile and puts a header of 8 bytes in front of the data:
-- ports 80 and 81, and the length of header and data, each in network order. Everything else in the
-- packet stays.
pub sender-UdpSent :
    (debug : Bool) (p : Packet)
    → HasRoom udp_header_size p
    → Ends (sender debug p) (λ r. (r.1 ≡ value tt) × UdpSent p r.0)
unfolding sender
sender-UdpSent debug p h = Ends-bind (sender_room-Roomed debug p h) λ p0 a.
    Ends-bind (write16-Writes _ _ p0 (fits p0 p0 a (Frame-refl p0) 0 (omega arith))) λ p1 w1.
      Ends-bind (write16-Writes _ _ p1 (fits p0 p1 a w1.frame 2 (omega arith))) λ p2 w2.
        let f : Frame p0 p2 = Frame-trans w1.frame w2.frame in
        Ends-value (packet_len debug p2) _ _ (Placed-len debug udp_header_size p p0 p2 h a.placed f)
          (Ends-bind (write16-Writes _ _ p2 (fits p0 p2 a f 4 (omega arith))) λ p3 w3. (
            (p3, value tt),
            refl,
            (
              refl,
              written p p0 p1 p2 p3 p0.l4_header.offset (ap (λ (e : Header). e.offset) a.l4) a w1 w2
                  w3,
            ),
          ))
  where
    fits :
        (p0 q : Packet)
        → Roomed p p0
        → Frame p0 q
        → (k : ℕ) → k ≤ 6
        → p0.l4_header.offset + k + 2 ≤ length (bytes q)
    fits p0 q a f k small = omega (
      arith,
      h.front,
      h.order,
      h.within,
      a.placed.moved,
      f.size,
      ap length a.placed.memory,
      ap (λ (e : Header). e.offset) a.l4,
    )

-- `UdpReceiver` takes the header off: the data start 8 bytes later, and the header is where they were.
-- Nothing else changes.
pub receiver-value :
    (debug : Bool) (p : Packet)
    → p.offset + udp_header_size < u16_mod
    → receiver debug p
      ≡ ok (
        record p {
          l4_header = record { length = udp_header_size; offset = p.offset };
          offset = p.offset + udp_header_size;
        },
        value tt,
      )
unfolding receiver
receiver-value debug p h = rw (add_word_fits debug u16_mod p.offset udp_header_size h)
