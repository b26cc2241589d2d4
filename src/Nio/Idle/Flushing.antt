-- ===== src/Nio/Idle/Flushing.antt =====
-- nio.rs, `IoNode::poll`: the flush of the pending adapters leaves nothing to send.
use omni_stack_rust.Base.{
  ℕ, zero, suc, ◌≡◌, ◌≢◌, refl, sym, ap, ap₂, ◌∙◌, subst, Bool, some, [], ◌∷◌, ◌++◌, Ends,
  Ends-bind, Gives, Gives-any, Gives-bind, Gives-ok, Ends-of, or_undefined, or_undefined-eq-ok,
  get_elem?, set, take, inl, inr, List,
}
use omni_stack_rust.Occurs.{occurs, occurs-append}
use omni_stack_rust.Packet.{Packet}
use omni_stack_rust.Packet.Bytes.{Frame}
use omni_stack_rust.Error.{dropped, value, error}
use omni_stack_rust.Packet.Pool.{Mempool, World}
use omni_stack_rust.Engine.Worker.{Context}
use omni_stack_rust.Nio.{Adapter, IoNode, shl_i32, flush_one, flush_pending, and_then}
use omni_stack_rust.Nio.Flush.{pending, unmoved}
use omni_stack_rust.Nio.Poll.{take-get, flush_one-Left}
use omni_stack_rust.Nio.Idle.{IsSettled, AllSent, Given, Handled, get-set, Handled-IsSettled}

module _ (M : Mempool) {A : Type 0} (ops : Adapter A (World M)) (debug : Bool) (ctx : Context)
    (Good Idle : List (ℕ × Packet) → A → Type 0)
    (flushes : (l : List (ℕ × Packet)) (a : A) (w : World M)
      → Good l a
      → Ends (ops.flush ctx a w) (λ (a', w', r). Good l a' × Idle l a' × (r ≡ value tt))) where
  abbrev AtRest : Given → IoNode A → Type 0
  AtRest given = IsSettled (λ i. Good (given i)) (λ i. Idle (given i))

  abbrev Sent : Given → IoNode A → Type 0
  Sent given = AllSent (λ i. Good (given i)) (λ i. Idle (given i))

  returns :
      (l : List (ℕ × Packet)) (nic : ℕ) (a : A) (w : World M)
      → Good l a
      → Ends (ops.flush ctx a w) (λ _. Unit {0})
  returns l nic a w g = let (r, e, _) = flushes l a w g in (r, e, tt)

  -- What one flush leaves of the settled node.
  flush_one-Flushed :
      (given : Given) (idx : ℕ) (io : IoNode A) (w : World M)
      → AtRest given io
      → Gives (flush_one M ops debug ctx idx io w) (λ (io', w', r).
        (nic : ℕ) × (a : A) × (get_elem? io.flush_queue idx ≡ some nic)
        × (io'.flush_queue ≡ io.flush_queue)
        × (io'.adapters ≡ set io.adapters nic a)
        × Good (given nic) a
        × Idle (given nic) a
        × (r ≡ value tt))
  unfolding flush_one
  flush_one-Flushed given idx io w s =
      Gives-bind (or_undefined (get_elem? io.flush_queue idx))
        {P = λ nic. get_elem? io.flush_queue idx ≡ some nic}
        (λ nic e. or_undefined-eq-ok (get_elem? io.flush_queue idx) e)
        (λ nic queued. Gives-any (shl_i32 debug nic) (λ mask.
          Gives-bind (or_undefined (get_elem? io.adapters nic))
            {P = λ a. get_elem? io.adapters nic ≡ some a}
            (λ a e. or_undefined-eq-ok (get_elem? io.adapters nic) e)
            (λ a at.
              Gives-bind (ops.flush ctx a w)
                (λ b e. Ends-of (flushes (given nic) a w (s.good nic a at)) e)
                (λ (a', w', r) (g, i, done).
                  Gives-ok _ _ (nic, a', queued, refl, refl, g, i, done)))))

  -- One adapter less is pending, and it is idle.
  flush_one-IsSettled :
      (given : Given) (idx : ℕ) (io : IoNode A) (w : World M)
      → AtRest given io
      → io.flush_queue_idx ≡ suc idx
      → Ends
          (flush_one M ops debug ctx idx io w)
          (λ (io', w', r). AtRest given io' × (io'.flush_queue_idx ≡ idx) × (r ≡ value tt))
  flush_one-IsSettled given idx io w s at =
      let ((io', w', r), e, (v, at', _)) =
        flush_one-Left M ops debug ctx idx io w s.valid at
          (λ nic a h. returns (given nic) nic a w (s.good nic a h)) in
      let (nic, a, queued, queue, adapters, g, i, done) =
        flush_one-Flushed given idx io w s (io', w', r) e in
      let split : pending io ≡ pending io' ++ nic ∷ [] =
        ap (λ n. take n io.flush_queue) at
        ∙ take-get io.flush_queue idx queued
        ∙ ap₂ (λ n q. take n q ++ nic ∷ []) (sym at') (sym queue) in
      (
        (io', w', r),
        e,
        (
          record {
            valid = v;
            good = λ j b h.
                elim (get-set io.adapters nic j a b (ap (λ l. get_elem? l j) (sym adapters) ∙ h)) [
                  | inl (same, eq) ↦
                      subst (λ k. Good (given k) b) same (subst (Good (given nic)) eq g)
                  | inr (_, old) ↦ s.good j b old
                ];
            quiet = λ j b h absent.
                elim (get-set io.adapters nic j a b (ap (λ l. get_elem? l j) (sym adapters) ∙ h)) [
                  | inl (same, eq) ↦
                      subst (λ k. Idle (given k) b) same (subst (Idle (given nic)) eq i)
                  | inr (apart, old) ↦ s.quiet j b old (
                      ap (occurs j) split
                      ∙ occurs-append j nic (pending io')
                      ∙ unmoved j nic _ apart
                      ∙ absent)
                ];
          },
          at',
          done,
        ),
      )

  flush_settled :
      (given : Given) (idx : ℕ) (io : IoNode A) (w : World M)
      → AtRest given io
      → io.flush_queue_idx ≡ idx
      → Ends
          (flush_pending M ops debug ctx idx io w)
          (λ (io', w', r). Sent given io' × (r ≡ value tt))
  unfolding flush_pending occurs
  flush_settled given zero io w s at = (
    _,
    refl,
    (
      record {
        settled = s;
        empty = at;
        idle = λ i a h. s.quiet i a h (ap (λ n. occurs i (take n io.flush_queue)) at);
      },
      refl,
    ),
  )
  flush_settled given (suc idx) io w s at =
      Ends-bind (flush_one-IsSettled given idx io w s at) (λ (io', w', r) (s', at', done).
        subst
          (λ r.
            Ends
              (and_then M ops debug ctx (io', w', r)
                (λ io w. flush_pending M ops debug ctx idx io w))
              (λ (io', w', r). Sent given io' × (r ≡ value tt)))
          (sym done) (flush_settled given idx io' w' s' at'))

module _ (M : Mempool) {A : Type 0} (ops : Adapter A (World M)) (debug : Bool) (ctx : Context)
    (Good Idle : List (ℕ × Packet) → A → Type 0)
    (sends : (p : ℕ) (pkt q : Packet) (l : List (ℕ × Packet)) (a : A) (w : World M)
      → Frame pkt q
      → w.packets p ≡ some q
      → Good l a
      → Gives
          (ops.send ctx p a w)
          (λ (a', w', r). Good (l ++ (p, pkt) ∷ []) a' × (r ≢ error dropped)))
    (flushes : (l : List (ℕ × Packet)) (a : A) (w : World M)
      → Good l a
      → Ends (ops.flush ctx a w) (λ (a', w', r). Good l a' × Idle l a' × (r ≡ value tt))) where
  -- However many packets the node handled, for whatever cards and in whatever order, since all adapters that
  -- were not pending had sent what they were given: if each adapter's `send` adds the packet to what it was
  -- given and its flush leaves nothing to send, the next poll flushes them without an error, after which each
  -- adapter has sent all that it was given and none is pending.
  pub flush_pending-AllSent :
      (given given' : Given) (io io' : IoNode A) (w : World M)
      → IsSettled (λ i. Good (given i)) (λ i. Idle (given i)) io
      → Handled M ops debug ctx given io given' io'
      → Ends (flush_pending M ops debug ctx io'.flush_queue_idx io' w) (λ (io'', w', r).
        AllSent (λ i. Good (given' i)) (λ i. Idle (given' i)) io'' × (r ≡ value tt))
  flush_pending-AllSent given given' io io' w s h =
      flush_settled M ops debug ctx Good Idle flushes given' io'.flush_queue_idx io' w
        (Handled-IsSettled M ops debug ctx Good Idle sends s h) refl
