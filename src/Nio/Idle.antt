-- ===== src/Nio/Idle.antt =====
-- nio.rs, `IoNode`: no packet is left waiting at an adapter that is not going to be flushed.
pub mod Flushing
use omni_stack_rust.Base.{
  ℕ, zero, suc, ◌<◌, ◌≡◌, ◌≢◌, ◌⊎◌, refl, sym, ap, ap₂, ◌∙◌, subst, Bool, some, List, [], ◌∷◌, ◌++◌,
  ok, Ends, Ends-bind, Gives, Gives-any, Gives-bind, Gives-value, Gives-ok, Ends-of, or_undefined,
  or_undefined-eq-ok, length-set, get_elem?, lt_get_elem?, set, take, All, arith, inl, inr, Outcome,
  ◌>>=◌, ◌+◌, ◌==◌, ==_iff, if◌then◌else◌,
}
use omni_stack_rust.Occurs.{occurs, occurs-append}
use omni_stack_rust.Packet.{Packet, write_all}
use omni_stack_rust.Packet.Bytes.{Frame}
use omni_stack_rust.Packet.Kept.{write_all-Frame}
use omni_stack_rust.Packet.Chain.{packets-store_self}
use omni_stack_rust.Packet.Pool.Counts.{ne_==_false}
use omni_stack_rust.Protocol.Header.EthField
use omni_stack_rust.Error.{dropped, Result, value, error}
use omni_stack_rust.Packet.Pool.{Mempool, World, load}
use omni_stack_rust.Engine.Worker.{Context}
use omni_stack_rust.Nio.{
  Adapter, IoNode, mark, put_source, after_send, process, shl_i32, flush_one, flush_pending,
  and_then,
}
use omni_stack_rust.Nio.Flush.{pending, IsValid, Marked, mark-Marked, unmoved}
use omni_stack_rust.Nio.Poll.{take-get, flush_one-Left}

-- What holds of the adapters still does when one is replaced by one of which it holds.
get-set :
    {A : Type 0} (xs : List A) (i j : ℕ) (v a : A)
    → get_elem? (set xs i v) j ≡ some a
    → ((i ≡ j) × (v ≡ a)) ⊎ ((i ≢ j) × (get_elem? xs j ≡ some a))
get-set [] i j v a e = absurd (cc)
get-set (x ∷ xs) zero zero v a e = inl (refl, cc)
get-set (x ∷ xs) zero (suc j) v a e = inr (omega arith, e)
get-set (x ∷ xs) (suc i) zero v a e = inr (omega arith, e)
get-set (x ∷ xs) (suc i) (suc j) v a e = elim (get-set xs i j v a e) [
  | inl (same, eq) ↦ inl (ap suc same, eq)
  | inr (apart, at) ↦ inr (omega (arith, apart), at)
]

module _ {A : Type 0} (Good Idle : ℕ → A → Type 0) where
  -- An adapter that is not pending has nothing to send.
  pub record IsSettled (io : IoNode A) : Type 0 where
    pub valid : IsValid io
    pub good : (i : ℕ) (a : A) → get_elem? io.adapters i ≡ some a → Good i a
    pub quiet :
        (i : ℕ) (a : A) → get_elem? io.adapters i ≡ some a → occurs i (pending io) ≡ 0 → Idle i a

  -- Nothing is pending and no adapter has anything to send.
  pub record AllSent (io : IoNode A) : Type 0 where
    pub settled : IsSettled io
    pub empty : io.flush_queue_idx ≡ 0
    pub idle : (i : ℕ) (a : A) → get_elem? io.adapters i ≡ some a → Idle i a

module _ {A : Type 0} where
  replaced-IsValid :
      (nic : ℕ) (a : A) (io : IoNode A)
      → IsValid io
      → IsValid (record io { adapters = set io.adapters nic a })
  replaced-IsValid nic a io v = record {
    size = v.size;
    count = omega (arith, v.count, length-set io.adapters nic a);
    bound = v.bound;
    exist = subst (λ n. All (λ m. m < n) (pending io)) (sym (length-set io.adapters nic a)) v.exist;
    flags = v.flags;
  }

-- The packets that each adapter was given, with what they were then.
abbrev pub Given : Type 0
Given = ℕ → List (ℕ × Packet)

abbrev pub hand : ℕ → ℕ → Packet → Given → Given
hand nic p pkt given i = if nic == i then given i ++ (p, pkt) ∷ [] else given i

hand-here :
    (nic i p : ℕ) (pkt : Packet) (given : Given)
    → nic ≡ i
    → hand nic p pkt given i ≡ given nic ++ (p, pkt) ∷ []
hand-here nic i p pkt given same =
    rw ((==_iff nic i).1 same) (ap (λ k. given k ++ (p, pkt) ∷ []) (sym same))

hand-other :
    (nic i p : ℕ) (pkt : Packet) (given : Given) → nic ≢ i → hand nic p pkt given i ≡ given i
hand-other nic i p pkt given apart = rw (ne_==_false nic i apart)

module _ {A : Type 0} (Good Idle : List (ℕ × Packet) → A → Type 0) where
  mark-IsSettled :
      (nic p : ℕ) (pkt : Packet) (given : Given) (a : A) (io io' : IoNode A)
      → IsSettled (λ i. Good (given i)) (λ i. Idle (given i)) io
      → Good (given nic ++ (p, pkt) ∷ []) a
      → Marked nic (record io { adapters = set io.adapters nic a }) io'
      → IsSettled (λ i. Good (hand nic p pkt given i)) (λ i. Idle (hand nic p pkt given i)) io'
  mark-IsSettled nic p pkt given a io io' s g m = record {
    valid = m.valid;
    good = λ i b e.
        elim (get-set io.adapters nic i a b (ap (λ l. get_elem? l i) (sym m.adapters) ∙ e)) [
          | inl (same, eq) ↦
              subst (λ l. Good l b) (sym (hand-here nic i p pkt given same)) (subst (Good _) eq g)
          | inr (apart, at) ↦
              subst (λ l. Good l b) (sym (hand-other nic i p pkt given apart)) (s.good i b at)
        ];
    quiet = λ i b e absent.
        elim (get-set io.adapters nic i a b (ap (λ l. get_elem? l i) (sym m.adapters) ∙ e)) [
          | inl (same, eq) ↦
              absurd (omega (arith, m.here, ap (λ k. occurs k (pending io')) same, absent))
          | inr (apart, at) ↦
              subst (λ l. Idle l b) (sym (hand-other nic i p pkt given apart))
                (s.quiet i b at (sym (m.others i apart) ∙ absent))
        ];
  }

module _ (M : Mempool) {A : Type 0} (ops : Adapter A (World M)) (debug : Bool) (ctx : Context)
    (given : Given) (io : IoNode A) where
  -- The packets that the node handled, one after another, and what each adapter was given by then; what
  -- other modules do to the packets in between does not matter.
  pub data Handled : Given → IoNode A → Type 0 where
    nothing : Handled given io
    packet :
        {given' : Given} {io' io'' : IoNode A} (p : ℕ) (pkt : Packet) (w w' : World M)
        → Handled given' io'
        → w.packets p ≡ some pkt
        → process M ops debug ctx p io' w ≡ ok (io'', w', error dropped)
        → Handled (hand pkt.nic p pkt given') io''

module _ (M : Mempool) {A : Type 0} (ops : Adapter A (World M)) (debug : Bool) (ctx : Context)
    (Good Idle : List (ℕ × Packet) → A → Type 0)
    (sends : (p : ℕ) (pkt q : Packet) (l : List (ℕ × Packet)) (a : A) (w : World M)
      → Frame pkt q
      → w.packets p ≡ some q
      → Good l a
      → Gives
          (ops.send ctx p a w)
          (λ (a', w', r). Good (l ++ (p, pkt) ∷ []) a' × (r ≢ error dropped))) where
  abbrev AtRest : Given → IoNode A → Type 0
  AtRest given = IsSettled (λ i. Good (given i)) (λ i. Idle (given i))

  abbrev Kept : Given → IoNode A × World M × Result (Unit {0}) → Type 0
  Kept given (io, w, r) = r ≡ error dropped → AtRest given io

  after_send-Kept :
      (nic p : ℕ) (pkt : Packet) (given : Given) (a a' : A) (r : Result (Unit {0})) (io : IoNode A)
      (w : World M)
      → AtRest given io
      → get_elem? io.adapters nic ≡ some a
      → Good (given nic ++ (p, pkt) ∷ []) a'
      → r ≢ error dropped
      → Gives
          (after_send M ops debug ctx nic r (record io { adapters = set io.adapters nic a' }) w)
          (Kept (hand nic p pkt given))
  unfolding after_send
  after_send-Kept nic p pkt given a a' (error e) io w s at g ne =
      Gives-ok (Kept (hand nic p pkt given))
        (record io { adapters = set io.adapters nic a' }, w, error e) (λ h. absurd (ne h))
  after_send-Kept nic p pkt given a a' (value u) io w s at g ne =
      let io1 : IoNode A = record io { adapters = set io.adapters nic a' } in
      Gives-bind (mark debug nic io1) {P = Marked nic io1}
        (λ io2 e.
          Ends-of
            (mark-Marked debug nic io1 (replaced-IsValid nic a' io s.valid)
              (omega (arith, lt_get_elem? io.adapters nic at, length-set io.adapters nic a')))
            e)
        (λ io2 m.
          Gives-ok (Kept (hand nic p pkt given)) (io2, w, error dropped)
            (λ h. mark-IsSettled Good Idle nic p pkt given a' io io2 s g m))

  -- The source address is all that the node writes into the packet.
  put_source-Frame :
      (p : ℕ) (pkt : Packet) (io : IoNode A) (w : World M)
      → w.packets p ≡ some pkt
      → Gives
          (put_source M ops debug ctx p io w)
          (λ w1. (q : Packet) × Frame pkt q × (w1.packets p ≡ some q))
  unfolding put_source load
  put_source-Frame p pkt io w at = Gives-value (load M p w) _ pkt (ap or_undefined at) (
      Gives-any (or_undefined (get_elem? io.nic_to_mac pkt.nic)) (λ mac.
        Gives-bind (write_all (pkt.l2_header.offset + EthField.src) mac.raw pkt)
          (write_all-Frame mac.raw (pkt.l2_header.offset + EthField.src) pkt)
          (λ q f. Gives-ok _ _ (q, f, packets-store_self p q w))))

  process-Kept :
      (p : ℕ) (pkt : Packet) (given : Given) (io : IoNode A) (w : World M)
      → AtRest given io
      → w.packets p ≡ some pkt
      → Gives (process M ops debug ctx p io w) (Kept (hand pkt.nic p pkt given))
  unfolding process load
  process-Kept p pkt given io w s loaded = Gives-value (load M p w) _ pkt (ap or_undefined loaded) (
      Gives-bind (put_source M ops debug ctx p io w) (put_source-Frame p pkt io w loaded)
        (λ w1 (q, f, stored).
          Gives-bind (or_undefined (get_elem? io.adapters pkt.nic))
            {P = λ a. get_elem? io.adapters pkt.nic ≡ some a}
            (λ a e. or_undefined-eq-ok (get_elem? io.adapters pkt.nic) e)
            (λ a at.
              Gives-bind (ops.send ctx p a w1)
                (sends p pkt q (given pkt.nic) a w1 f stored (s.good pkt.nic a at))
                (λ (a', w2, r) (g, ne).
                  after_send-Kept pkt.nic p pkt given a a' r io w2 s at g ne))))

  pub Handled-IsSettled :
      {given : Given} {io : IoNode A} {given' : Given} {io' : IoNode A}
      → AtRest given io
      → Handled M ops debug ctx given io given' io'
      → AtRest given' io'
  Handled-IsSettled s nothing = s
  Handled-IsSettled s (packet {given' = given'} {io' = io'} p pkt w w' h loaded e) =
      process-Kept p pkt given' io' w (Handled-IsSettled s h) loaded (_, w', error dropped) e refl
