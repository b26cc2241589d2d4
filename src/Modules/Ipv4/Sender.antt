-- ===== src/Modules/Ipv4/Sender.antt =====
-- What `Ipv4Sender` does to a packet.
use native.Mathlib.Nat.{add-zero}
use omni_stack_rust.Base.{
  ℕ, ◌+◌, ◌-◌, ◌*◌, ◌≤◌, ◌<◌, ◌≡◌, refl, sym, ap, ap₂, ◌∙◌, Bool, List, [], ◌∷◌, ok, Ends,
  Ends-bind, Ends-value, length, get_elem?, arith, some, bit_or,
}
use omni_stack_rust.Base.Word.{u16_mod, sub_word_fits, to_be16, to_be16-lt}
use omni_stack_rust.Error.{value}
use omni_stack_rust.Packet.{Packet, Header, bytes, read8, read16, packet_len}
use omni_stack_rust.Packet.Bytes.{
  Frame, Frame-refl, Frame-trans, Wrote, write8-Writes, write16-Writes, write32-Writes,
  read16-write16, le16, le32,
}
use omni_stack_rust.Packet.Trail.{
  Trail, AllApart, done, step, Trail-byte, Trail-read16, Trail-Touched,
}
use omni_stack_rust.Modules.Pushed.{HasRoom, Pushed, Placed, Placed-Touched-Pushed, Placed-len}
use omni_stack_rust.Modules.Ipv4.{sender, sender_room, set_first, choose_nic, src_addr, dst_addr}
use omni_stack_rust.Protocol.Header.{ipv4_header_size}
use omni_stack_rust.Protocol.Header.Version.{set_version-value, set_ihl-value}
use omni_stack_rust.Protocol.Route.{Route}

-- The first byte of the header, made from the byte that lay there.
abbrev pub first_byte : ℕ → ℕ
first_byte old = bit_or (bit_or old 4) (5 * 16)

-- The packet that leaves `Ipv4Sender`, where `old` lay in the first byte of the header.
pub record Ipv4Sent (routes : List Route) (old : ℕ) (p : Packet) (q : Packet) : Type 0 where
  pub pushed : Pushed ipv4_header_size p q
  pub l4_header : q.l4_header ≡ p.l4_header
  pub l3_header : q.l3_header ≡ record { length = ipv4_header_size; offset = q.offset }
  pub l2_header : q.l2_header ≡ p.l2_header
  pub nic : q.nic ≡ choose_nic routes
  pub first : get_elem? (bytes q) q.offset ≡ some (first_byte old)
  pub tot_len : read16 q (q.offset + 2) ≡ ok (to_be16 (p.len - p.offset + ipv4_header_size))
  pub ttl : get_elem? (bytes q) (q.offset + 8) ≡ some 255
  pub protocol : get_elem? (bytes q) (q.offset + 9) ≡ some 0x11
  pub src :
      (j : ℕ) → j < 4 → get_elem? (bytes q) (q.offset + (12 + j)) ≡ get_elem? (le32 src_addr) j
  pub dst :
      (j : ℕ) → j < 4 → get_elem? (bytes q) (q.offset + (16 + j)) ≡ get_elem? (le32 dst_addr) j

record Roomed (routes : List Route) (p : Packet) (q : Packet) : Type 0 where
  placed : Placed ipv4_header_size p q
  l4 : q.l4_header ≡ p.l4_header
  l3 : q.l3_header ≡ record { length = ipv4_header_size; offset = q.offset }
  l2 : q.l2_header ≡ p.l2_header
  nic : q.nic ≡ choose_nic routes

sender_room-Roomed :
    (debug : Bool) (routes : List Route) (p : Packet)
    → HasRoom ipv4_header_size p
    → Ends (sender_room debug routes p) (Roomed routes p)
unfolding sender_room
sender_room-Roomed debug routes p h = (
  record p {
    nic = choose_nic routes;
    offset = p.offset - ipv4_header_size;
    l3_header = record { length = ipv4_header_size; offset = p.offset - ipv4_header_size };
  },
  rw (sub_word_fits debug u16_mod p.offset ipv4_header_size h.front),
  ground (arith, h.front),
)

set_first-Writes :
    (debug : Bool) (hdr old : ℕ) (p : Packet)
    → get_elem? (bytes p) (hdr + 0) ≡ some old
    → hdr + 0 < length (bytes p)
    → Ends (set_first debug hdr p) (Wrote (hdr + 0) (first_byte old ∷ []) p)
unfolding set_first read8
set_first-Writes debug hdr old p e h =
    rw
      (
        e,
        set_version-value debug 4 old (omega arith),
        set_ihl-value debug 5 (bit_or old 4) (omega arith),
      )
      (write8-Writes (hdr + 0) (first_byte old) p h)

-- The writes of `process`, in order, for a header at `o` and a length.
abbrev writes : ℕ → ℕ → ℕ → List (ℕ × List ℕ)
writes o old len =
    (o + 0, first_byte old ∷ [])
    ∷ (o + 2, le16 (to_be16 len))
    ∷ (o + 9, 0x11 ∷ [])
    ∷ (o + 8, 255 ∷ [])
    ∷ (o + 12, le32 src_addr)
    ∷ (o + 16, le32 dst_addr)
    ∷ (o + 1, 0 ∷ [])
    ∷ (o + 4, le16 0)
    ∷ (o + 6, le16 0)
    ∷ (o + 10, le16 0)
    ∷ []

module _ (routes : List Route) (old len : ℕ) (p p0 q : Packet) (o : ℕ) (at : o ≡ p0.offset) where
  -- Each field is read as it was written: the writes after its own lie apart from it.
  field_byte :
      (i b : ℕ) {ws : List (ℕ × List ℕ)} {r s : Packet}
      → Wrote (o + i) (b ∷ []) r s
      → Trail ws s q
      → AllApart (o + i) 1 ws
      → get_elem? (bytes q) (o + i) ≡ some b
  field_byte i b {s = s} w t a =
      Trail-byte (o + i) t a
      ∙ (ap (get_elem? (bytes s)) (sym (add-zero (o + i))) ∙ w.inside 0 (omega arith))

  field_bytes :
      (i j : ℕ) (bs : List ℕ) {ws : List (ℕ × List ℕ)} {r s : Packet}
      → Wrote (o + i) bs r s
      → Trail ws s q
      → j < length bs
      → AllApart (o + i + j) 1 ws
      → get_elem? (bytes q) (o + (i + j)) ≡ get_elem? bs j
  field_bytes i j bs w t h a =
      ap (get_elem? (bytes q)) (omega arith) ∙ (Trail-byte (o + i + j) t a ∙ w.inside j h)

  field_read16 :
      (i x : ℕ) {ws : List (ℕ × List ℕ)} {r s : Packet}
      → x < u16_mod
      → Wrote (o + i) (le16 x) r s
      → Trail ws s q
      → AllApart (o + i) 2 ws
      → read16 q (o + i) ≡ ok x
  field_read16 i x {r = r} {s = s} h w t a =
      Trail-read16 (o + i) x t a (read16-write16 r s (o + i) x h w)

  written :
      Roomed routes p p0
      → len ≡ p.len - p.offset + ipv4_header_size
      → Trail (writes o old len) p0 q
      → Ipv4Sent routes old p q
  written a l
        (step w1 (
          step w2 (
            step w3 (step w4 (step w5 (step w6 (step w7 (step w8 (step w9 (step w10 done)))))))))) =
      let t6 = step w7 (step w8 (step w9 (step w10 done))) in
      let t4 = step w5 (step w6 t6) in
      let t2 = step w3 (step w4 t4) in
      let touched =
        Trail-Touched p0.offset (p0.offset + ipv4_header_size) (step w1 (step w2 t2))
          (omega arith) in
      let here : q.offset ≡ o = touched.frame.offset ∙ sym at in
      record {
        pushed = Placed-Touched-Pushed ipv4_header_size a.placed touched;
        l4_header = touched.frame.l4_header ∙ a.l4;
        l3_header =
            touched.frame.l3_header
            ∙ (a.l3
                ∙ ap (λ (t : ℕ). record { length = ipv4_header_size; offset = t })
                    (sym touched.frame.offset));
        l2_header = touched.frame.l2_header ∙ a.l2;
        nic = touched.frame.nic ∙ a.nic;
        first =
            ap (get_elem? (bytes q)) (here ∙ sym (add-zero o))
            ∙ field_byte 0 (first_byte old) w1 (step w2 t2) (omega arith);
        tot_len =
            ap (λ (k : ℕ). read16 q (k + 2)) here
            ∙ (field_read16 2 (to_be16 len) (to_be16-lt len) w2 t2 (omega arith)
                ∙ ap (λ (n : ℕ). ok (to_be16 n)) l);
        ttl = rw here (field_byte 8 255 w4 t4 (omega arith));
        protocol = rw here (field_byte 9 0x11 w3 (step w4 t4) (omega arith));
        src = λ j h. rw here (field_bytes 12 j (le32 src_addr) w5 (step w6 t6) h (omega arith));
        dst = λ j h. rw here (field_bytes 16 j (le32 dst_addr) w6 t6 h (omega arith));
      }

-- Given room, `Ipv4Sender` succeeds in either profile, chooses the nic from its routes and puts a header
-- of 20 bytes in front of the data: the total length in network order, time to live 255, UDP, and the
-- two fixed addresses. The first byte, with version and header length, is what lay there with the bits of
-- 4 and of 5 << 4 added. The data and everything else in the packet stay.
pub sender-Ipv4Sent :
    (debug : Bool) (routes : List Route) (old : ℕ) (p : Packet)
    → HasRoom ipv4_header_size p
    → get_elem? (bytes p) (p.offset - ipv4_header_size) ≡ some old
    → Ends (sender debug routes p) (λ r. (r.1 ≡ value tt) × Ipv4Sent routes old p r.0)
unfolding sender
sender-Ipv4Sent debug routes old p h lay = Ends-bind (sender_room-Roomed debug routes p h) λ p0 a.
    let o : ℕ = p0.l3_header.offset in
    let at : o ≡ p0.offset = ap (λ (e : Header). e.offset) a.l3 in
    Ends-bind
      (set_first-Writes debug _ old p0 (there p0 a) (below p0 p0 a (Frame-refl p0) 0 (omega arith)))
      λ p1 w1.
        Ends-value (packet_len debug p1) _ _
          (Placed-len debug ipv4_header_size p p0 p1 h a.placed w1.frame)
          (Ends-bind (write16-Writes _ _ p1 (fits p0 p1 a w1.frame 2 2 (omega arith))) λ p2 w2.
            let f2 = Frame-trans w1.frame w2.frame in
            Ends-bind (write8-Writes _ _ p2 (below p0 p2 a f2 9 (omega arith))) λ p3 w3.
              let f3 = Frame-trans f2 w3.frame in
              Ends-bind (write8-Writes _ _ p3 (below p0 p3 a f3 8 (omega arith))) λ p4 w4.
                let f4 = Frame-trans f3 w4.frame in
                Ends-bind (write32-Writes _ _ p4 (fits p0 p4 a f4 12 4 (omega arith))) λ p5 w5.
                  let f5 = Frame-trans f4 w5.frame in
                  Ends-bind (write32-Writes _ _ p5 (fits p0 p5 a f5 16 4 (omega arith))) λ p6 w6.
                    let f6 = Frame-trans f5 w6.frame in
                    Ends-bind (write8-Writes _ _ p6 (below p0 p6 a f6 1 (omega arith))) λ p7 w7.
                      let f7 = Frame-trans f6 w7.frame in
                      Ends-bind (write16-Writes _ _ p7 (fits p0 p7 a f7 4 2 (omega arith))) λ p8 w8.
                        let f8 = Frame-trans f7 w8.frame in
                        Ends-bind (write16-Writes _ _ p8 (fits p0 p8 a f8 6 2 (omega arith)))
                          λ p9 w9.
                            let f9 = Frame-trans f8 w9.frame in
                            Ends-bind (write16-Writes _ _ p9 (fits p0 p9 a f9 10 2 (omega arith)))
                              λ p10 w10. (
                                (p10, value tt),
                                refl,
                                (
                                  refl,
                                  written routes old _ p p0 p10 o at a refl (
                                      step w1 (
                                        step w2 (
                                          step w3 (
                                            step w4 (
                                              step w5 (
                                                step w6 (
                                                  step w7
                                                    (step w8 (step w9 (step w10 done)))))))))),
                                ),
                              ))
  where
    fits :
        (p0 q : Packet)
        → Roomed routes p p0
        → Frame p0 q
        → (k n : ℕ) → k + n ≤ 20
        → p0.l3_header.offset + k + n ≤ length (bytes q)
    fits p0 q a f k n small = omega (
      arith,
      h.front,
      h.order,
      h.within,
      a.placed.moved,
      f.size,
      ap length a.placed.memory,
      ap (λ (e : Header). e.offset) a.l3,
    )

    below :
        (p0 q : Packet)
        → Roomed routes p p0
        → Frame p0 q
        → (k : ℕ) → k + 1 ≤ 20
        → p0.l3_header.offset + k < length (bytes q)
    below p0 q a f k small = omega (arith, fits p0 q a f k 1 small)

    there :
        (p0 : Packet)
        → Roomed routes p p0
        → get_elem? (bytes p0) (p0.l3_header.offset + 0) ≡ some old
    there p0 a =
        ap₂ get_elem? a.placed.memory
          (omega (arith, h.front, a.placed.moved, ap (λ (e : Header). e.offset) a.l3))
        ∙ lay
