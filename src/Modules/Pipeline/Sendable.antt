-- ===== src/Modules/Pipeline/Sendable.antt =====
-- engine.rs, nio.rs and dpdk.rs: the frame that the Io node hands to the card's adapter.
use omni_stack_rust.Base.{
  ℕ, ◌+◌, ◌-◌, ◌≤◌, ◌<◌, ◌≡◌, refl, ap, subst, ◌∙◌, inr, ◌>>=◌, some, Bool, List, ok, Ends,
  Ends-value, Ends-bind, or_undefined, length, get_elem?, arith,
}
use omni_stack_rust.Base.Word.{u16_mod, u64_mod}
use omni_stack_rust.Packet.{Packet, Header, local, bytes, read8, read16}
use omni_stack_rust.Packet.Bytes.{Wrote, write_all-Writes, byte-kept, read16-kept}
use omni_stack_rust.Packet.Chain.{packets-store_self}
use omni_stack_rust.Packet.Pool.{Mempool, World, load, store}
use omni_stack_rust.Protocol.Addr.{MacAddr}
use omni_stack_rust.Protocol.Header.{proto_code, udp}
use omni_stack_rust.Protocol.Route.{Route}
use omni_stack_rust.Engine.Worker.{Context}
use omni_stack_rust.Nio.{Adapter, IoNode, put_source}
use omni_stack_rust.Modules.Pushed.{HasRoom}
use omni_stack_rust.Modules.Ipv4.{choose_nic}
use omni_stack_rust.Modules.Dpdk.Send.{Platform}
use omni_stack_rust.Modules.Dpdk.Send.Attach.{IsSendable}
use omni_stack_rust.Modules.Pipeline.{send_path}
use omni_stack_rust.Modules.Pipeline.Framed.{headers, Framed, send_path-Framed}

-- The card's own address is the frame's source, and the adapter can send the frame.
pub record OnCard (hw : Platform) (ptr : ℕ) (mac : MacAddr) (p : Packet) (x : Packet) : Type 0 where
  pub sendable : IsSendable hw ptr x
  pub size : x.len - x.offset ≡ p.len - p.offset + headers
  pub l2_len : x.l2_header.length ≡ 14
  pub l3_len : x.l3_header.length ≡ 20
  pub source : (j : ℕ) → j < 6 → get_elem? (bytes x) (x.offset + 6 + j) ≡ get_elem? mac.raw j
  pub refcnt : x.refcnt ≡ p.refcnt

-- The addresses of a packet of the pool do not overflow.
pub record HasAddress (hw : Platform) (ptr : ℕ) : Type 0 where
  pub above : (x : Packet) → ptr ≤ hw.data_address ptr x + x.offset
  pub physical :
      (x : Packet)
      → x.offset < u16_mod
      → hw.virt2iova ptr + (hw.data_address ptr x + x.offset - ptr) < u64_mod

module _ (hw : Platform) (ptr old : ℕ) (routes : List Route) (mac : MacAddr) (p q x : Packet)
    (six : length mac.raw ≡ 6) (own : p.buf_ty ≡ local) (h : HasRoom headers p)
    (a : HasAddress hw ptr) (f : Framed routes old p q) (w : Wrote (q.offset + 6) mac.raw q x) where
  starts : x.offset ≡ q.offset
  starts = w.frame.offset

  at_l2 : x.l2_header.offset ≡ q.offset
  at_l2 = ap (λ (e : Header). e.offset) (w.frame.l2_header ∙ f.l2_header)

  at_l3 : x.l3_header.offset ≡ q.offset + 14
  at_l3 = ap (λ (e : Header). e.offset) (w.frame.l3_header ∙ f.l3_header)

  at_l4 : x.l4_header.offset ≡ q.offset + 34
  at_l4 = ap (λ (e : Header). e.offset) (w.frame.l4_header ∙ f.l4_header)

  protocol_kept : read8 x (x.l3_header.offset + 9) ≡ ok (proto_code udp)
  unfolding read8 proto_code
  protocol_kept = ap or_undefined (
      ap (get_elem? (bytes x)) (omega (arith, at_l3))
      ∙ (byte-kept (q.offset + 6) (q.offset + 23) mac.raw w (inr (omega (arith, six)))
          ∙ f.protocol))

  framed-OnCard : OnCard hw ptr mac p x
  framed-OnCard = record {
    sendable = record {
      own = w.frame.buf_ty ∙ (f.pushed.buf_ty ∙ own);
      order = omega (arith, starts, w.frame.len, f.pushed.moved, f.pushed.len, h.order);
      link =
          ap (read16 x) (omega (arith, at_l2))
          ∙ read16-kept (q.offset + 6) (q.offset + 12) _ mac.raw w (inr (omega (arith, six)))
              f.ether_ty;
      network = protocol_kept;
      header = omega (arith, at_l3, w.frame.size, f.pushed.size, f.pushed.moved, h.order, h.within);
      transport =
          omega (arith, at_l4, w.frame.size, f.pushed.size, f.pushed.moved, h.order, h.within);
      above = a.above x;
      physical = a.physical x (omega (arith, starts, f.pushed.moved, h.order, h.short));
    };
    size = omega (arith, starts, w.frame.len, f.pushed.moved, f.pushed.len, h.order);
    l2_len = ap (λ (e : Header). e.length) (w.frame.l2_header ∙ f.l2_header);
    l3_len = ap (λ (e : Header). e.length) (w.frame.l3_header ∙ f.l3_header);
    source = λ j small.
        ap (λ n. get_elem? (bytes x) (n + 6 + j)) starts ∙ w.inside j (omega (arith, six));
    refcnt = w.frame.refcnt ∙ f.pushed.refcnt;
  }

module _ (M : Mempool) {A : Type 0} (ops : Adapter A (World M)) (debug : Bool) (ctx : Context) where
  put_source-OnCard :
      (hw : Platform) (ptr old : ℕ) (routes : List Route) (mac : MacAddr) (p q : Packet)
      (io : IoNode A) (w : World M)
      → length mac.raw ≡ 6
      → p.buf_ty ≡ local
      → HasRoom headers p
      → HasAddress hw ptr
      → get_elem? io.nic_to_mac (choose_nic routes) ≡ some mac
      → Framed routes old p q
      → Ends
          (put_source M ops debug ctx ptr io (store M ptr q w))
          (λ w'. (x : Packet) × (w'.packets ptr ≡ some x) × OnCard hw ptr mac p x)
  unfolding put_source load
  put_source-OnCard hw ptr old routes mac p q io w six own h a card f =
      Ends-value _ _ q (ap or_undefined (packets-store_self ptr q w)) (
        Ends-value _ _ mac (ap or_undefined (ap (get_elem? io.nic_to_mac) f.nic ∙ card)) (
          Ends-bind
            (write_all-Writes mac.raw (q.l2_header.offset + 6) q (
              omega (
                arith,
                six,
                ap (λ (e : Header). e.offset) f.l2_header,
                f.pushed.size,
                f.pushed.moved,
                h.order,
                h.within,
              )))
            (λ x wrote. (
              store M ptr x (store M ptr q w),
              refl,
              (
                x,
                packets-store_self ptr x (store M ptr q w),
                framed-OnCard hw ptr old routes mac p q x six own h a f (
                    subst (λ n. Wrote (n + 6) mac.raw q x)
                      (ap (λ (e : Header). e.offset) f.l2_header) wrote),
              ),
            ))))

  -- A packet of the pool with room for the headers goes the whole way: the three sending modules succeed, and
  -- after the Io node has put in the address of the chosen card, the adapter's conditions on a packet hold.
  -- The frame is the data and 42 bytes in front, with the link and network header lengths that the card is
  -- told, the card's address is its source, and the count is as it was.
  pub send_path-OnCard :
      (hw : Platform) (ptr old : ℕ) (routes : List Route) (mac : MacAddr) (p : Packet)
      (io : IoNode A) (w : World M)
      → length mac.raw ≡ 6
      → p.buf_ty ≡ local
      → HasRoom headers p
      → get_elem? (bytes p) (p.offset - 28) ≡ some old
      → HasAddress hw ptr
      → get_elem? io.nic_to_mac (choose_nic routes) ≡ some mac
      → Ends
          (send_path debug routes p >>= λ r. put_source M ops debug ctx ptr io (store M ptr r.0 w))
          (λ w'. (x : Packet) × (w'.packets ptr ≡ some x) × OnCard hw ptr mac p x)
  send_path-OnCard hw ptr old routes mac p io w six own h lay a card =
      Ends-bind (send_path-Framed debug routes old p h lay)
        (λ r (_, f). put_source-OnCard hw ptr old routes mac p r.0 io w six own h a card f)
