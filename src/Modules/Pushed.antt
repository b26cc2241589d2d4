-- ===== src/Modules/Pushed.antt =====
-- What putting a header in front of the data asks of a packet, and what it leaves as it was.
use omni_stack_rust.Base.{ℕ, ◌+◌, ◌-◌, ◌≤◌, ◌<◌, ◌≡◌, ◌∙◌, ap, length, get_elem?, arith, Bool, ok}
use omni_stack_rust.Base.Word.{u16_mod, sub_word_fits}
use omni_stack_rust.Packet.{Packet, bytes, packet_len}
use omni_stack_rust.Packet.Bytes.{Frame, Touched}

-- There is room for `n` bytes in front of the data, and the data lie within the packet's memory.
pub record HasRoom (n : ℕ) (p : Packet) : Type 0 where
  pub front : n ≤ p.offset
  pub order : p.offset ≤ p.len
  pub short : p.len < u16_mod
  pub within : p.len ≤ length (bytes p)

-- The data start `n` bytes earlier. What follows the header and what lies before it is untouched, and
-- so are the fields that say who owns the packet.
pub record Pushed (n : ℕ) (p : Packet) (q : Packet) : Type 0 where
  pub moved : q.offset + n ≡ p.offset
  pub len : q.len ≡ p.len
  pub next : q.next ≡ p.next
  pub thread_id : q.thread_id ≡ p.thread_id
  pub refcnt : q.refcnt ≡ p.refcnt
  pub buf_ty : q.buf_ty ≡ p.buf_ty
  pub size : length (bytes q) ≡ length (bytes p)
  pub payload : (j : ℕ) → p.offset ≤ j → get_elem? (bytes q) j ≡ get_elem? (bytes p) j
  pub ahead : (j : ℕ) → j < q.offset → get_elem? (bytes q) j ≡ get_elem? (bytes p) j

-- The data start `n` bytes earlier, and nothing is written yet.
pub record Placed (n : ℕ) (p : Packet) (q : Packet) : Type 0 where
  pub moved : q.offset + n ≡ p.offset
  pub len : q.len ≡ p.len
  pub next : q.next ≡ p.next
  pub thread_id : q.thread_id ≡ p.thread_id
  pub refcnt : q.refcnt ≡ p.refcnt
  pub buf_ty : q.buf_ty ≡ p.buf_ty
  pub memory : bytes q ≡ bytes p

-- Writes that stay within the header make it one that is pushed.
pub Placed-Touched-Pushed :
    (n : ℕ) {p q r : Packet} → Placed n p q → Touched q.offset (q.offset + n) q r → Pushed n p r
Placed-Touched-Pushed n {p} {q} {r} a t = record {
  moved = omega (arith, a.moved, t.frame.offset);
  len = t.frame.len ∙ a.len;
  next = t.frame.next ∙ a.next;
  thread_id = t.frame.thread_id ∙ a.thread_id;
  refcnt = t.frame.refcnt ∙ a.refcnt;
  buf_ty = t.frame.buf_ty ∙ a.buf_ty;
  size = t.frame.size ∙ ap length a.memory;
  payload = λ j h. t.behind j (omega (arith, a.moved)) ∙ ap (λ l. get_elem? l j) a.memory;
  ahead = λ j h. t.before j (omega (arith, t.frame.offset)) ∙ ap (λ l. get_elem? l j) a.memory;
}

-- The length that is read once the header is placed.
pub Placed-len :
    (debug : Bool) (n : ℕ) (p q r : Packet)
    → HasRoom n p
    → Placed n p q
    → Frame q r
    → packet_len debug r ≡ ok (p.len - p.offset + n)
unfolding packet_len
Placed-len debug n p q r h a f =
    sub_word_fits debug u16_mod r.len r.offset
      (omega (arith, h.front, h.order, a.moved, a.len, f.len, f.offset))
    ∙ ap ok (omega (arith, h.front, h.order, a.moved, a.len, f.len, f.offset))
