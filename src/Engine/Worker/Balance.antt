-- ===== src/Engine/Worker/Balance.antt =====
-- engine.rs and packet.rs: reference counts while `Worker::run` works the tasks off.
use omni_stack_rust.Base.{
  ℕ, suc, ◌+◌, ◌≤◌, ◌≡◌, ◌≢◌, inl, inr, refl, sym, ap, ◌∙◌, subst, Bool, true, false, some, List,
  ◌∷◌, ok, length, ◌==◌, ==_iff, arith,
}
use omni_stack_rust.Error.{dropped, Result, value, error}
use omni_stack_rust.Packet.Pool.{Mempool, World}
use omni_stack_rust.Packet.Pool.Counts.{count_of, refcnt_at, count_of-store}
use omni_stack_rust.Engine.Worker.{Task, task_queue_size, Context, Module, State, process_task}
use omni_stack_rust.Engine.Worker.Steps.{process_task-Processed}
use omni_stack_rust.Engine.Worker.Counts.{
  held, held-length, held-cons, push_links-held, Shared, share-Shared,
}
use omni_stack_rust.Occurs.{times}

module _ {M : Mempool} where
  -- The count of each packet that is held is the number of tasks that hold it.
  pub record Balanced (w : World M) (queue : List Task) : Type 0 where
    pub fits : length queue ≤ task_queue_size
    pub counted : (q : ℕ) → 1 ≤ held q queue → refcnt_at w q ≡ some (held q queue)

module _ (M : Mempool) {S : Type 0} (ops : Module S (World M)) (debug : Bool) (ctx : Context) where
  -- What the worker relies on: a module that passes a packet on leaves the counts alone; one that drops it
  -- takes one reference of it, which it gives back to the pool when it is the last.
  pub record Honest : Type 0 where
    pub passes :
        (p : ℕ) (s s' : S) (w w' : World M)
        → ops.process ctx p s w ≡ ok (s', w', value tt)
        → (q : ℕ) → refcnt_at w' q ≡ refcnt_at w q
    pub others :
        (p : ℕ) (s s' : S) (w w' : World M)
        → ops.process ctx p s w ≡ ok (s', w', error dropped)
        → (q : ℕ) → p ≢ q
        → refcnt_at w' q ≡ refcnt_at w q
    pub drops :
        (p : ℕ) (s s' : S) (w w' : World M) (n : ℕ)
        → ops.process ctx p s w ≡ ok (s', w', error dropped)
        → refcnt_at w p ≡ some (suc n)
        → 1 ≤ n
        → refcnt_at w' p ≡ some n

  abbrev Kept : World M → World M → Type 0
  Kept w w' = (q : ℕ) → refcnt_at w' q ≡ refcnt_at w q

  passed_count :
      (t : Task) (queue queue' : List Task) (w w1 w' : World M) (n q : ℕ) (b : Bool)
      → Balanced w (t ∷ queue)
      → Kept w w1
      → Shared M ops debug ctx n t.packet w1 w'
      → length queue' ≤ task_queue_size
      → length queue' ≡ n + length queue
      → held q queue' ≡ times n b + held q queue
      → (t.packet == q) ≡ b
      → 1 ≤ held q queue'
      → refcnt_at w' q ≡ some (held q queue')
  passed_count t queue queue' w w1 w' n q true b kept s fits len more e h =
      let same = (==_iff t.packet q).0 e in
      let cons = held-cons q t queue ∙ ap (λ b. times 1 b + held q queue) e in
      let before : some s.pkt.refcnt ≡ some (held q (t ∷ queue)) =
        sym (ap count_of (ap w1.packets (sym same) ∙ s.at))
        ∙ kept q
        ∙ b.counted q (omega (arith, cons)) in
      let count : s.pkt.refcnt ≡ held q (t ∷ queue) = cc in
      let after : s.refcnt + 1 ≡ s.pkt.refcnt + n =
        s.count (omega (arith, count, cons))
          (omega (arith, count, cons, fits, len, held-length q queue)) in
      ap (λ w. refcnt_at w q) s.stored
      ∙ count_of-store t.packet _ w1 q true e
      ∙ ap some (omega (arith, after, count, cons, more))
  passed_count t queue queue' w w1 w' n q false b kept s fits len more e h =
      let cons = held-cons q t queue ∙ ap (λ b. times 1 b + held q queue) e in
      ap (λ w. refcnt_at w q) s.stored
      ∙ count_of-store t.packet _ w1 q false e
      ∙ kept q
      ∙ b.counted q (omega (arith, cons, more))
      ∙ ap some (omega (arith, cons, more))

  dropped_count :
      (t : Task) (queue : List Task) (w w' : World M) (q : ℕ) (b : Bool)
      → Balanced w (t ∷ queue)
      → (t.packet ≢ q → refcnt_at w' q ≡ refcnt_at w q)
      → ((n : ℕ) → refcnt_at w t.packet ≡ some (suc n) → 1 ≤ n → refcnt_at w' t.packet ≡ some n)
      → (t.packet == q) ≡ b
      → 1 ≤ held q queue
      → refcnt_at w' q ≡ some (held q queue)
  dropped_count t queue w w' q true b others drops e h =
      let same = (==_iff t.packet q).0 e in
      let cons : held q (t ∷ queue) ≡ suc (held q queue) =
        omega (arith, held-cons q t queue ∙ ap (λ b. times 1 b + held q queue) e) in
      ap (refcnt_at w') (sym same)
      ∙ drops (held q queue)
          (ap (refcnt_at w) same ∙ b.counted q (omega (arith, cons)) ∙ ap some cons) h
  dropped_count t queue w w' q false b others drops e h =
      let cons = held-cons q t queue ∙ ap (λ b. times 1 b + held q queue) e in
      others (λ same. absurd (cc (e, (==_iff t.packet q).1 same)))
      ∙ b.counted q (omega (arith, cons))
      ∙ ap some (omega (arith, cons))

  -- One task of the loop.
  pub process_task-Balanced :
      (t : Task) (st : State M S) {st' : State M S}
      → Honest
      → Balanced st.world (t ∷ st.queue)
      → process_task M ops debug ctx t st ≡ ok (value st')
      → Balanced st'.world st'.queue
  process_task-Balanced t st {st'} h b e =
      let r = process_task-Processed M ops debug ctx t st e in
      let ran = λ (x : Result (Unit {0})) (is : r.result ≡ x).
        r.run ∙ ap (λ y. ok (r.handler, r.left, y)) is in
      elim r.goes_on [
        | inl (passed, (shared, pushed)) ↦
            let held_after = λ (q : ℕ).
              push_links-held r.node.links_to t.packet q st.queue (omega (arith, b.fits)) pushed in
            record {
              fits = (held_after 0).0;
              counted = λ q some_held.
                  passed_count t st.queue st'.queue st.world r.left st'.world
                    (length r.node.links_to) q (t.packet == q) b
                    (h.passes t.packet r.node.handler r.handler st.world r.left (ran _ passed))
                    (share-Shared M ops debug ctx r.node.links_to t.packet r.left shared)
                    (held_after 0).0 (held_after 0).1 (held_after q).2 refl some_held;
            }
        | inr (gone, world, queue) ↦ record {
          fits = omega (arith, b.fits, ap length queue);
          counted = λ q some_held.
              ap (λ w. refcnt_at w q) world
              ∙ dropped_count t st.queue st.world r.left q (t.packet == q) b
                  (h.others t.packet r.node.handler r.handler st.world r.left (ran _ gone) q)
                  (λ n. h.drops t.packet r.node.handler r.handler st.world r.left n (ran _ gone))
                  refl (subst (λ l. 1 ≤ held q l) queue some_held)
              ∙ ap (λ l. some (held q l)) (sym queue);
        }
      ]

  -- The states that the loop goes through, task by task.
  pub data Works : State M S → State M S → Type 0 where
    rest : {st : State M S} → Works st st
    work :
        {st mid st' : State M S} (t : Task) (queue : List Task)
        → st.queue ≡ t ∷ queue
        → process_task M ops debug ctx t (record st { queue = queue }) ≡ ok (value mid)
        → Works mid st'
        → Works st st'

  -- With honest modules, and where the counts agree with the tasks at first: in every state that the loop
  -- reaches, the count of each packet that a task holds is the number of tasks that hold it, and the queue
  -- is within its array.
  pub Works-Balanced :
      {st st' : State M S}
      → Honest
      → Works st st'
      → Balanced st.world st.queue
      → Balanced st'.world st'.queue
  Works-Balanced h rest b = b
  Works-Balanced h (work {st} t queue e step more) b =
      Works-Balanced h more (
        process_task-Balanced t (record st { queue = queue }) h (subst (Balanced st.world) e b)
          step)

  -- With honest modules, and where the counts agree with the tasks at first: in every state that the loop
  -- reaches, a packet whose count is one when its task is taken is in no other task.
  pub Works-last_holder :
      {st st' : State M S} (t : Task) (queue : List Task)
      → Honest
      → Works st st'
      → Balanced st.world st.queue
      → st'.queue ≡ t ∷ queue
      → refcnt_at st'.world t.packet ≡ some 1
      → held t.packet queue ≡ 0
  Works-last_holder {st} {st'} t queue h run b e one =
      let b' = subst (Balanced st'.world) e (Works-Balanced h run b) in
      let cons =
        held-cons t.packet t queue
        ∙ ap (λ b. times 1 b + held t.packet queue) ((==_iff t.packet t.packet).1 refl) in
      let same : some 1 ≡ some (held t.packet (t ∷ queue)) =
        sym one ∙ b'.counted t.packet (omega (arith, cons)) in
      let count : 1 ≡ held t.packet (t ∷ queue) = cc in omega (arith, cons, count)
