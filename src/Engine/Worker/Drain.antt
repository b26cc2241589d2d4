-- ===== src/Engine/Worker/Drain.antt =====
-- engine.rs, `Worker::run`: the length of the loop over the tasks.
use omni_stack_rust.Base.{
  ℕ, zero, suc, ◌+◌, ◌≤◌, ◌≡◌, ◌≢◌, ◌⊎◌, inl, inr, refl, sym, ap, ◌∙◌, subst, Bool, true, false,
  Option, some, List, [], ◌∷◌, Outcome, ok, panic, undefined, if◌then◌else◌, length, >>=-eq-ok,
  ok-injective, get_elem?, set, get_elem?-set_self, get_elem?-set_ne, lt_get_elem?, ltb, Bool-cases,
  ◌==◌, ==_iff, arith,
}
use omni_stack_rust.Error.{Result, value, error}
use omni_stack_rust.Packet.Pool.{Mempool, World}
use omni_stack_rust.Engine.Graph.{Node}
use omni_stack_rust.Engine.Worker.Steps.{Processed, process_task-Processed}
use omni_stack_rust.Engine.Worker.{
  Task, task_queue_size, Context, Module, State, push, push_links, process_task, continue, drain,
}

module _ (cost : ℕ → ℕ) where
  unfoldable pub total : List ℕ → ℕ
  total [] = 0
  total (i ∷ is) = suc (cost i) + total is

  unfoldable pub weight : List Task → ℕ
  weight [] = 0
  weight (t ∷ ts) = suc (cost t.node_id) + weight ts

push-weight :
    (cost : ℕ → ℕ) (i p : ℕ) (queue : List Task) {queue' : List Task}
    → push i p queue ≡ ok queue'
    → weight cost queue' ≡ suc (cost i) + weight cost queue
unfolding push weight
push-weight cost i p queue e = go (ltb (length queue) task_queue_size) e
  where
    go :
        (b : Bool) {queue' : List Task}
        → (if b then ok (record { node_id = i; packet = p } ∷ queue) else undefined) ≡ ok queue'
        → weight cost queue' ≡ suc (cost i) + weight cost queue
    go true e = ap (weight cost) (sym (ok-injective e))
    go false e = absurd (cc)

module _ (M : Mempool) {S : Type 0} (ops : Module S (World M)) (debug : Bool) (ctx : Context)
    (cost : ℕ → ℕ) (IsTerminal : S → Type 0)
    (terminal_lem : (p : ℕ) (s s' : S) (w w' : World M) (r : Result (Unit {0}))
      → ops.process ctx p s w ≡ ok (s', w', r)
      → IsTerminal s
      → IsTerminal s' × (r ≢ value tt)) where
  -- Every node is one whose packets end there, or its cost covers the nodes that it is linked to.
  unfoldable pub Bounded : List (Node S) → Type 0
  Bounded nodes =
      (i : ℕ) (n : Node S)
      → get_elem? nodes i ≡ some n
      → IsTerminal n.handler ⊎ (total cost n.links_to ≤ cost i)

  Bounded-set :
      (nodes : List (Node S)) (i : ℕ) (n : Node S) (s : S)
      → get_elem? nodes i ≡ some n
      → (IsTerminal n.handler → IsTerminal s)
      → Bounded nodes
      → Bounded (set nodes i (record n { handler = s }))
  unfolding Bounded
  Bounded-set nodes i n s at keep b j m found = elim (Bool-cases (i == j)) [
    | inl e ↦
        let same = (==_iff i j).0 e in
        let made = ok_some (
          sym (get_elem?-set_self nodes i _ (lt_get_elem? nodes i at))
          ∙ ap (get_elem? (set nodes i _)) same
          ∙ found) in
        subst (λ k. IsTerminal m.handler ⊎ (total cost m.links_to ≤ cost k)) same
          (subst (λ m. IsTerminal m.handler ⊎ (total cost m.links_to ≤ cost i)) made
            (carry (b i n at)))
    | inr e ↦
        b j m (
          sym (get_elem?-set_ne nodes i j _ (λ same. absurd (cc (e, (==_iff i j).1 same)))) ∙ found)
  ]
    where
      ok_some : {m m' : Node S} → some m ≡ some m' → m ≡ m'
      ok_some e = cc

      carry :
          IsTerminal n.handler ⊎ (total cost n.links_to ≤ cost i)
          → IsTerminal s ⊎ (total cost n.links_to ≤ cost i)
      carry (inl t) = inl (keep t)
      carry (inr c) = inr c

  push_links-weight :
      (links : List ℕ) (p : ℕ) (queue : List Task) {queue' : List Task}
      → push_links links p queue ≡ ok queue'
      → weight cost queue' ≡ total cost links + weight cost queue
  unfolding push_links total
  push_links-weight [] p queue e = omega (arith, ap (weight cost) (ok-injective e))
  push_links-weight (i ∷ links) p queue e =
      let (q, pushed, e1) = >>=-eq-ok (push i p queue) _ e in
      omega (arith, push_links-weight links p q e1, push-weight cost i p queue pushed)

  -- A task that goes on lets the cost of the queue fall.
  process_task-weight :
      (t : Task) (st : State M S) {st' : State M S}
      → Bounded st.nodes
      → process_task M ops debug ctx t st ≡ ok (value st')
      → Bounded st'.nodes × (weight cost st'.queue ≤ cost t.node_id + weight cost st.queue)
  unfolding Bounded
  process_task-weight t st {st'} b e =
      let r = process_task-Processed M ops debug ctx t st e in
      let drop = λ (h : IsTerminal r.node.handler). terminal_lem t.packet _ _ _ _ _ r.run h in
      (
        subst Bounded (sym r.nodes)
            (Bounded-set st.nodes t.node_id r.node r.handler r.at (λ h. (drop h).0) b),
        falls r drop (b t.node_id r.node r.at),
      )
    where
      falls :
          (r : Processed M ops debug ctx t st st')
          → (IsTerminal r.node.handler → IsTerminal r.handler × (r.result ≢ value tt))
          → IsTerminal r.node.handler ⊎ (total cost r.node.links_to ≤ cost t.node_id)
          → weight cost st'.queue ≤ cost t.node_id + weight cost st.queue
      falls r drop h = elim r.goes_on [
        | inl (passed, (shared, pushed)) ↦ elim h [
          | inl ends ↦ absurd ((drop ends).1 passed)
          | inr c ↦ omega (arith, c, push_links-weight r.node.links_to t.packet st.queue pushed)
        ]
        | inr (dropped_it, world, queue) ↦ elim h [
          | inl ends ↦ omega (arith, ap (weight cost) queue)
          | inr c ↦ omega (arith, c, ap (weight cost) queue)
        ]
      ]

  continue-some :
      (m : Outcome (Result (State M S))) (k : State M S → Option (Outcome (Result (State M S))))
      → ((st : State M S)
          → m ≡ ok (value st)
          → (r : Outcome (Result (State M S))) × (k st ≡ some r))
      → (r : Outcome (Result (State M S))) × (continue M ops debug ctx m k ≡ some r)
  continue-some (ok (value st)) k h = h st refl
  continue-some (ok (error e)) k h = (_, refl)
  continue-some panic k h = (_, refl)
  continue-some undefined k h = (_, refl)

  -- In a graph in which every node is one whose packets end there, or has a cost that covers the nodes it is
  -- linked to, the loop over the tasks ends: as many steps as the queue costs are enough.
  pub drain-ends :
      (fuel : ℕ) (queue : List Task) (st : State M S)
      → Bounded st.nodes
      → weight cost queue ≤ fuel
      → (r : Outcome (Result (State M S))) × (drain M ops debug ctx fuel queue st ≡ some r)
  unfolding drain weight
  drain-ends fuel [] st b h = (_, refl)
  drain-ends zero (t ∷ queue) st b h = absurd (omega arith)
  drain-ends (suc fuel) (t ∷ queue) st b h =
      continue-some (process_task M ops debug ctx t (record st { queue = queue })) _ (λ st' e.
        let (b', less) = process_task-weight t (record st { queue = queue }) b e in
        drain-ends fuel st'.queue st' b' (omega (arith, h, less)))
