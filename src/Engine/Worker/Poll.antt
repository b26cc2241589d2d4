-- ===== src/Engine/Worker/Poll.antt =====
-- engine.rs, `Worker::run`: the tasks that a polled chain of packets makes.
use omni_stack_rust.Base.{
  ℕ, zero, suc, ◌+◌, ◌-◌, ◌*◌, ◌≤◌, ◌≡◌, ◌⊎◌, inl, inr, refl, sym, ap, ◌∙◌, subst, Bool, true,
  false, Option, none, some, List, [], ◌∷◌, ok, >>=-eq-ok, ok-injective, or_undefined-eq-ok, length,
  ◌==◌, ==_iff, All, arith,
}
use omni_stack_rust.Packet.{Packet}
use omni_stack_rust.Packet.Chain.{IsDistinct, Chained}
use omni_stack_rust.Packet.Pool.{Mempool, World, load}
use omni_stack_rust.Packet.Pool.Counts.{refcnt_at}
use omni_stack_rust.Engine.Worker.{Task, task_queue_size, push_chain, push_chains}
use omni_stack_rust.Engine.Worker.Counts.{held, held-cons}
use omni_stack_rust.Occurs.{occurs, times}
use omni_stack_rust.Engine.Worker.Balance.{Balanced}

record Pushed (qs : List ℕ) (n : ℕ) (queue queue' : List Task) : Type 0 where
  size : length queue' ≡ n * length qs + length queue
  holds : (p : ℕ) → held p queue' ≡ n * occurs p qs + held p queue

Pushed-nothing : (queue queue' : List Task) → queue ≡ queue' → Pushed [] 1 queue queue'
unfolding occurs
Pushed-nothing queue queue' e = record {
  size = omega (arith, ap length e);
  holds = λ p. omega (arith, ap (held p) e);
}

push_cons :
    (i p q : ℕ) (qs : List ℕ) (queue queue' : List Task)
    → p ≡ q
    → Pushed qs 1 (record { node_id = i; packet = p } ∷ queue) queue'
    → Pushed (q ∷ qs) 1 queue queue'
unfolding occurs
push_cons i p q qs queue queue' e r = record {
  size = omega (arith, r.size);
  holds = λ x. omega (
    arith,
    r.holds x,
    held-cons x (record { node_id = i; packet = p }) queue,
    ap (λ y. times 1 (y == x)) e,
  );
}

push_twice :
    (qs : List ℕ) (n : ℕ) (queue mid queue' : List Task)
    → Pushed qs 1 queue mid
    → Pushed qs n mid queue'
    → Pushed qs (suc n) queue queue'
push_twice qs n queue mid queue' a b = record {
  size = ground (arith, a.size, b.size);
  holds = λ p. ground (arith, a.holds p, b.holds p);
}

module _ {M : Mempool} (P : Packet → Type 0) where
  push_chain-Pushed :
      (room i : ℕ) (head : Option ℕ) (w : World M) (qs : List ℕ) (queue : List Task)
      {queue' : List Task}
      → Chained P w head qs
      → push_chain M room i head w queue ≡ ok queue'
      → Pushed qs 1 queue queue'
  unfolding push_chain load
  push_chain-Pushed room i none w [] queue c e = Pushed-nothing queue _ (ok-injective e)
  push_chain-Pushed room i (some p) w [] queue c e = absurd (cc)
  push_chain-Pushed room i none w (q ∷ qs) queue c e = absurd (cc (c.0))
  push_chain-Pushed zero i (some p) w (q ∷ qs) queue c e = absurd (cc)
  push_chain-Pushed (suc room) i (some p) w (q ∷ qs) queue (here, pkt, at, has, rest) e =
      let (pkt', loaded, e1) = >>=-eq-ok (load M p w) _ e in
      let same : p ≡ q = cc in
      let found : some pkt' ≡ some pkt =
        sym (or_undefined-eq-ok (w.packets p) loaded) ∙ ap w.packets same ∙ at in
      let one : pkt ≡ pkt' = cc in
      push_cons i p q qs queue _ same (
        push_chain-Pushed room i pkt'.next w qs (record { node_id = i; packet = p } ∷ queue)
          (subst (λ r. Chained P w r.next qs) one rest) e1)

  push_chains-Pushed :
      (links : List ℕ) (p : ℕ) (w : World M) (qs : List ℕ) (queue : List Task) {queue' : List Task}
      → Chained P w (some p) qs
      → push_chains M links p w queue ≡ ok queue'
      → Pushed qs (length links) queue queue'
  unfolding push_chains
  push_chains-Pushed [] p w qs queue c e = record {
    size = omega (arith, ap length (ok-injective e));
    holds = λ p. omega (arith, ap (held p) (ok-injective e));
  }
  push_chains-Pushed (i ∷ links) p w qs queue {queue'} c e =
      let (mid, pushed, e1) =
        >>=-eq-ok (push_chain M (task_queue_size - length queue) i (some p) w queue) _ e in
      push_twice qs (length links) queue mid queue'
        (push_chain-Pushed (task_queue_size - length queue) i (some p) w qs queue c pushed)
        (push_chains-Pushed links p w qs mid c e1)

-- A chain that is polled becomes, for each node that is linked, one task for each of its packets: a packet
-- is held as often as there are links, whatever its count.
pub push_chains-held :
    {M : Mempool} (P : Packet → Type 0) (links : List ℕ) (p : ℕ) (w : World M) (qs : List ℕ)
    (queue : List Task) {queue' : List Task}
    → Chained P w (some p) qs
    → push_chains M links p w queue ≡ ok queue'
    → (length queue' ≡ length links * length qs + length queue)
      × ((q : ℕ) → held q queue' ≡ length links * occurs q qs + held q queue)
push_chains-held P links p w qs queue c e =
    let r = push_chains-Pushed P links p w qs queue c e in (r.size, r.holds)

push_chain-room :
    {M : Mempool} (P : Packet → Type 0) (room i : ℕ) (head : Option ℕ) (w : World M) (qs : List ℕ)
    (queue : List Task) {queue' : List Task}
    → Chained P w head qs
    → push_chain M room i head w queue ≡ ok queue'
    → length qs ≤ room
unfolding push_chain load
push_chain-room P room i head w [] queue c e = omega arith
push_chain-room P room i none w (q ∷ qs) queue c e = absurd (cc (c.0))
push_chain-room P zero i (some p) w (q ∷ qs) queue c e = absurd (cc)
push_chain-room {M} P (suc room) i (some p) w (q ∷ qs) queue (here, pkt, at, has, rest) e =
    let (pkt', loaded, e1) = >>=-eq-ok (load M p w) _ e in
    let same : p ≡ q = cc in
    let found : some pkt' ≡ some pkt =
      sym (or_undefined-eq-ok (w.packets p) loaded) ∙ ap w.packets same ∙ at in
    let one : pkt ≡ pkt' = cc in
    let ih =
      push_chain-room P room i pkt'.next w qs (record { node_id = i; packet = p } ∷ queue)
        (subst (λ r. Chained P w r.next qs) one rest) e1 in
    omega (arith, ih)

-- A packet with a count of one that no task holds.
abbrev pub IsFresh : {M : Mempool} → World M → List Task → ℕ → Type 0
IsFresh w queue q = (refcnt_at w q ≡ some 1) × (held q queue ≡ 0)

occurs_apart : (q : ℕ) (qs : List ℕ) → All (λ r. (q == r) ≡ false) qs → occurs q qs ≡ 0
unfolding occurs
occurs_apart q [] apart = refl
occurs_apart q (r ∷ qs) (e, apart) = let ih = occurs_apart q qs apart in ground arith

occurs_once :
    (Q : ℕ → Type 0) (x : ℕ) (qs : List ℕ)
    → IsDistinct qs
    → All Q qs
    → (occurs x qs ≡ 0) ⊎ ((occurs x qs ≡ 1) × Q x)
unfolding occurs
occurs_once Q x [] d all = inl refl
occurs_once Q x (q ∷ qs) (apart, d) (here, all) = go (q == x) refl (occurs_once Q x qs d all)
  where
    go :
        (b : Bool)
        → (q == x) ≡ b
        → (occurs x qs ≡ 0) ⊎ ((occurs x qs ≡ 1) × Q x)
        → (times 1 (q == x) + occurs x qs ≡ 0) ⊎ ((times 1 (q == x) + occurs x qs ≡ 1) × Q x)
    go true e ih =
        let same = (==_iff q x).0 e in
        inr (
          omega (arith, ap (times 1) e, ap (λ y. occurs y qs) same, occurs_apart q qs apart),
          subst Q same here,
        )
    go false e ih = elim ih [
      | inl none_left ↦ inl (omega (arith, ap (times 1) e, none_left))
      | inr (once, has) ↦ inr (omega (arith, ap (times 1) e, once), has)
    ]

-- A polled chain on one link keeps the counts in agreement with the tasks, and the queue within its array,
-- when they agreed before and the packets are fresh: different, with a count of one, and in no task yet.
pub push_one-Balanced :
    {M : Mempool} (P : Packet → Type 0) (i p : ℕ) (w : World M) (qs : List ℕ) (queue : List Task)
    {queue' : List Task}
    → Chained P w (some p) qs
    → IsDistinct qs
    → All (IsFresh w queue) qs
    → Balanced w queue
    → push_chains M (i ∷ []) p w queue ≡ ok queue'
    → Balanced w queue'
unfolding push_chains
push_one-Balanced {M} P i p w qs queue {queue'} c d fresh b e =
    let (size, holds) = push_chains-held P (i ∷ []) p w qs queue c e in
    let (mid, pushed, e1) =
      >>=-eq-ok (push_chain M (task_queue_size - length queue) i (some p) w queue) _ e in
    let room = push_chain-room P (task_queue_size - length queue) i (some p) w qs queue c pushed in
    record {
      fits = omega (arith, size, room, b.fits);
      counted = λ q h. elim (occurs_once (IsFresh w queue) q qs d fresh) [
        | inl absent ↦
            b.counted q (omega (arith, h, holds q, absent))
            ∙ ap some (omega (arith, holds q, absent))
        | inr (once, (count, unheld)) ↦ count ∙ ap some (omega (arith, holds q, once, unheld))
      ];
    }

-- A polled chain on two links or more, pushed on an empty queue, never leaves the counts in agreement with
-- the tasks if the count of its first packet is one.
pub push_chains-unbalanced :
    {M : Mempool} (P : Packet → Type 0) (links : List ℕ) (p : ℕ) (w : World M) (qs : List ℕ)
    {queue' : List Task}
    → Chained P w (some p) qs
    → 2 ≤ length links
    → refcnt_at w p ≡ some 1
    → push_chains M links p w [] ≡ ok queue'
    → ¬ Balanced w queue'
unfolding occurs
push_chains-unbalanced P links p w [] c two one e b = absurd (cc)
push_chains-unbalanced P links p w (q ∷ qs) {queue'} c two one e b =
    let (size, holds) = push_chains-held P links p w (q ∷ qs) [] c e in
    let same : p ≡ q = cc (c.0) in
    let cons : times 1 (q == p) ≡ 1 = ap (times 1) ((==_iff q p).1 (sym same)) in
    let many : 2 ≤ held p queue' = ground (arith, holds p, cons) in
    let is : some 1 ≡ some (held p queue') = sym one ∙ b.counted p (omega (arith, many)) in
    let is' : 1 ≡ held p queue' = cc in absurd (omega (arith, many, is'))
