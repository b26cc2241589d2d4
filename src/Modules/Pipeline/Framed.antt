-- ===== src/Modules/Pipeline/Framed.antt =====
-- What the three sending modules together make of a packet.
use omni_stack_rust.Base.{
  ℕ, ◌+◌, ◌-◌, ◌≤◌, ◌<◌, ◌≡◌, sym, ap, ◌∙◌, some, Bool, List, ok, Ends, Ends-bind, get_elem?, arith,
}
use omni_stack_rust.Base.Word.{to_be16}
use omni_stack_rust.Error.{value}
use omni_stack_rust.Packet.{Packet, bytes, read16, Header}
use omni_stack_rust.Packet.Bytes.{le32}
use omni_stack_rust.Protocol.Route.{Route}
use omni_stack_rust.Protocol.Header.{
  udp_header_size, ipv4_header_size, eth_header_size, ether_code, ipv4,
}
use omni_stack_rust.Modules.Pushed.{HasRoom, Pushed}
use omni_stack_rust.Modules.Udp.Laws.{UdpSent, sender-UdpSent}
use omni_stack_rust.Modules.Ipv4.{choose_nic, src_addr, dst_addr}
use omni_stack_rust.Modules.Ipv4.Sender.{Ipv4Sent, sender-Ipv4Sent, first_byte}
use omni_stack_rust.Modules.Eth.{peer}
use omni_stack_rust.Modules.Eth.Laws.{EthSent, sender-EthSent}
use omni_stack_rust.Modules.Pipeline.{send_path}

-- All three headers, in front of the data.
abbrev pub headers : ℕ
headers = eth_header_size + ipv4_header_size + udp_header_size

-- One frame: at its start the link header, 14 bytes on the network header, 20 bytes on the transport
-- header, and then the data as they were. `old` is what lay in the first byte of the network header.
pub record Framed (routes : List Route) (old : ℕ) (p : Packet) (q : Packet) : Type 0 where
  pub pushed : Pushed headers p q
  pub nic : q.nic ≡ choose_nic routes
  pub l2_header : q.l2_header ≡ record { length = eth_header_size; offset = q.offset }
  pub l3_header : q.l3_header ≡ record { length = ipv4_header_size; offset = q.offset + 14 }
  pub l4_header : q.l4_header ≡ record { length = udp_header_size; offset = q.offset + 34 }
  pub eth_dst : (j : ℕ) → j < 6 → get_elem? (bytes q) (q.offset + j) ≡ get_elem? peer.raw j
  pub ether_ty : read16 q (q.offset + 12) ≡ ok (ether_code ipv4)
  pub first : get_elem? (bytes q) (q.offset + 14) ≡ some (first_byte old)
  pub tot_len : read16 q (q.offset + 16) ≡ ok (to_be16 (p.len - p.offset + 28))
  pub ttl : get_elem? (bytes q) (q.offset + 22) ≡ some 255
  pub protocol : get_elem? (bytes q) (q.offset + 23) ≡ some 0x11
  pub ip_src :
      (j : ℕ) → j < 4 → get_elem? (bytes q) (q.offset + 26 + j) ≡ get_elem? (le32 src_addr) j
  pub ip_dst :
      (j : ℕ) → j < 4 → get_elem? (bytes q) (q.offset + 30 + j) ≡ get_elem? (le32 dst_addr) j
  pub src_port : read16 q (q.offset + 34) ≡ ok (to_be16 80)
  pub dst_port : read16 q (q.offset + 36) ≡ ok (to_be16 81)
  pub udp_len : read16 q (q.offset + 38) ≡ ok (to_be16 (p.len - p.offset + 8))

-- Room that is left in front of a header.
HasRoom-rest : (n k : ℕ) {p q : Packet} → HasRoom (k + n) p → Pushed n p q → HasRoom k q
HasRoom-rest n k h a = record {
  front = omega (arith, h.front, a.moved);
  order = omega (arith, h.front, h.order, a.moved, a.len);
  short = omega (arith, h.short, a.len);
  within = omega (arith, h.within, a.len, a.size);
}

HasRoom-le : (n k : ℕ) {p : Packet} → n ≤ k → HasRoom k p → HasRoom n p
HasRoom-le n k le h = record {
  front = omega (arith, h.front, le);
  order = h.order;
  short = h.short;
  within = h.within;
}

-- What is read behind a header that is pushed.
read16-Pushed :
    (n : ℕ) {p q : Packet} (j x : ℕ)
    → Pushed n p q
    → p.offset ≤ j
    → read16 p j ≡ ok x
    → read16 q j ≡ ok x
unfolding read16
read16-Pushed n j x a h e = rw (a.payload j h, a.payload (j + 1) (omega arith)) e

Pushed-trans : (n k : ℕ) {p q r : Packet} → Pushed n p q → Pushed k q r → Pushed (k + n) p r
Pushed-trans n k a b = record {
  moved = omega (arith, a.moved, b.moved);
  len = b.len ∙ a.len;
  next = b.next ∙ a.next;
  thread_id = b.thread_id ∙ a.thread_id;
  refcnt = b.refcnt ∙ a.refcnt;
  buf_ty = b.buf_ty ∙ a.buf_ty;
  size = b.size ∙ a.size;
  payload = λ j h. b.payload j (omega (arith, h, a.moved)) ∙ a.payload j h;
  ahead = λ j h. b.ahead j h ∙ a.ahead j (omega (arith, h, b.moved));
}

-- The three headers, each in front of what the module before it made.
module _ (routes : List Route) (old : ℕ) (p p1 p2 p3 : Packet) (u : UdpSent p p1)
    (v : Ipv4Sent routes old p1 p2) (e : EthSent p2 p3) (room : HasRoom headers p) where
  ip_place : p3.offset + 14 ≡ p2.offset
  ip_place = e.pushed.moved

  udp_place : p3.offset + 34 ≡ p1.offset
  udp_place = omega (arith, e.pushed.moved, v.pushed.moved)

  ip_byte :
      (i k : ℕ) → i ≡ p2.offset + k → get_elem? (bytes p3) i ≡ get_elem? (bytes p2) (p2.offset + k)
  ip_byte i k h = e.pushed.payload i (omega (arith, h)) ∙ ap (get_elem? (bytes p2)) h

  ip_word : (i k x : ℕ) → i ≡ p2.offset + k → read16 p2 (p2.offset + k) ≡ ok x → read16 p3 i ≡ ok x
  ip_word i k x h r =
      read16-Pushed eth_header_size i x e.pushed (omega (arith, h)) (ap (read16 p2) h ∙ r)

  udp_word : (i k x : ℕ) → i ≡ p1.offset + k → read16 p1 (p1.offset + k) ≡ ok x → read16 p3 i ≡ ok x
  udp_word i k x h r =
      read16-Pushed eth_header_size i x e.pushed (omega (arith, h, v.pushed.moved))
        (read16-Pushed ipv4_header_size i x v.pushed (omega (arith, h)) (ap (read16 p1) h ∙ r))

  moved_header :
      (n a b : ℕ)
      → a ≡ b
      → (let x : Header = record { length = n; offset = a } in x)
        ≡ record { length = n; offset = b }
  moved_header n a b h = ap (λ (t : ℕ). let x : Header = record { length = n; offset = t } in x) h

  framed : Framed routes old p p3
  framed = record {
    pushed = Pushed-trans 8 34 u.pushed (Pushed-trans 20 14 v.pushed e.pushed);
    nic = e.nic ∙ v.nic;
    l2_header = e.l2_header;
    l3_header = e.l3_header ∙ (v.l3_header ∙ moved_header 20 _ _ (sym ip_place));
    l4_header = e.l4_header ∙ (v.l4_header ∙ (u.l4_header ∙ moved_header 8 _ _ (sym udp_place)));
    eth_dst = e.dst;
    ether_ty = e.ether_ty;
    first =
        e.pushed.payload _ (omega (arith, ip_place))
        ∙ (ap (get_elem? (bytes p2)) ip_place ∙ v.first);
    tot_len = ip_word _ 2 _ (omega (arith, ip_place)) v.tot_len ∙ ap (λ n. ok (to_be16 n)) sizes;
    ttl = ip_byte _ 8 (omega (arith, ip_place)) ∙ v.ttl;
    protocol = ip_byte _ 9 (omega (arith, ip_place)) ∙ v.protocol;
    ip_src = λ j h. ip_byte _ (12 + j) (omega (arith, ip_place)) ∙ v.src j h;
    ip_dst = λ j h. ip_byte _ (16 + j) (omega (arith, ip_place)) ∙ v.dst j h;
    src_port =
        udp_word _ 0 _ (omega (arith, udp_place)) (ap (read16 p1) (omega arith) ∙ u.src_port);
    dst_port = udp_word _ 2 _ (omega (arith, udp_place)) u.dst_port;
    udp_len = udp_word _ 4 _ (omega (arith, udp_place)) u.udp_len;
  }
    where
      sizes : p1.len - p1.offset + ipv4_header_size ≡ p.len - p.offset + 28
      sizes = omega (arith, room.order, u.pushed.moved, u.pushed.len)

-- Given room for the three headers, the way from the user's module to the Io node succeeds in either
-- profile and makes one frame of the data: link, network and transport header lie one behind the other in
-- front of it, each where its record says, with the lengths that the data have at that level, in network
-- order. The data, the owner and the count of the packet stay. `old` is what lay in the first byte of the
-- network header.
pub send_path-Framed :
    (debug : Bool) (routes : List Route) (old : ℕ) (p : Packet)
    → HasRoom headers p
    → get_elem? (bytes p) (p.offset - 28) ≡ some old
    → Ends (send_path debug routes p) (λ r. (r.1 ≡ value tt) × Framed routes old p r.0)
unfolding send_path
send_path-Framed debug routes old p h lay =
    Ends-bind (sender-UdpSent debug p (HasRoom-le 8 headers (omega arith) h)) λ (p1, r1) (fine1, u).
      Ends-bind
        (sender-Ipv4Sent debug routes old p1
          (HasRoom-rest 8 20 (HasRoom-le 28 headers (omega arith) h) u.pushed)
          (u.pushed.ahead _ (omega (arith, h.front, u.pushed.moved))
            ∙ (ap (get_elem? (bytes p)) (omega (arith, h.front, u.pushed.moved)) ∙ lay)))
        λ (p2, r2) (fine2, v).
          let (q, done, (fine3, e)) =
            (sender-EthSent debug p2
              (HasRoom-rest 20 14 (HasRoom-rest 8 34 h u.pushed) v.pushed)) in
          (q, done, (fine3, framed routes old p p1 p2 (q.0) u v e h))
