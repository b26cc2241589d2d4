-- ===== src/Engine/Worker/Steps.antt =====
-- engine.rs, `Worker::run`: what one task does when the loop goes on.
use omni_stack_rust.Base.{
  ℕ, ◌≡◌, ◌⊎◌, inl, inr, refl, sym, ap, Bool, some, List, ok, >>=-eq-ok, or_undefined,
  or_undefined-eq-ok, get_elem?, set,
}
use omni_stack_rust.Error.{
  nop, dropped, unknown, io_error, json_parse_error, memory_error, service_error, Result, value,
  error,
}
use omni_stack_rust.Packet.Pool.{Mempool, World}
use omni_stack_rust.Engine.Graph.{Node}
use omni_stack_rust.Engine.Worker.{
  Task, Context, Module, State, push_links, share, with_handler, after_process, process_task,
}

module _ (M : Mempool) {S : Type 0} (ops : Module S (World M)) (debug : Bool) (ctx : Context) where
  -- The packet is handed on, or the module dropped it.
  abbrev pub HandedOn : List ℕ → ℕ → World M → List Task → State M S → Type 0
  HandedOn links p w queue st' =
      (share M ops debug ctx links p w ≡ ok st'.world) × (push_links links p queue ≡ ok st'.queue)

  pub record Processed (t : Task) (st st' : State M S) : Type 0 where
    pub node : Node S
    pub at : get_elem? st.nodes t.node_id ≡ some node
    pub handler : S
    pub left : World M
    pub result : Result (Unit {0})
    pub run : ops.process ctx t.packet node.handler st.world ≡ ok (handler, left, result)
    pub nodes : st'.nodes ≡ set st.nodes t.node_id (record node { handler = handler })
    pub goes_on :
        ((result ≡ value tt) × HandedOn node.links_to t.packet left st.queue st')
        ⊎ ((result ≡ error dropped) × (st'.world ≡ left) × (st'.queue ≡ st.queue))

  after_process-value :
      (links : List ℕ) (p : ℕ) (r : Result (Unit {0})) (st : State M S) {st' : State M S}
      → after_process M ops debug ctx links p r st ≡ ok (value st')
      → (st'.nodes ≡ st.nodes)
        × (((r ≡ value tt) × HandedOn links p st.world st.queue st')
            ⊎ ((r ≡ error dropped) × (st'.world ≡ st.world) × (st'.queue ≡ st.queue)))
  unfolding after_process
  after_process-value links p (value u) st {st'} e =
      let (w, shared, e1) = >>=-eq-ok (share M ops debug ctx links p st.world) _ e in
      let (q, pushed, e2) = >>=-eq-ok (push_links links p st.queue) _ e1 in
      let same : record st { queue = q; world = w } ≡ st' = cc in
      (sym (ap (λ s. s.nodes) same), inl (refl, (cc, cc)))
  after_process-value links p (error dropped) st {st'} e =
      let same : st ≡ st' = cc in
      (
        sym (ap (λ s. s.nodes) same),
        inr (refl, sym (ap (λ s. s.world) same), sym (ap (λ s. s.queue) same)),
      )
  after_process-value links p (error nop) st e = absurd (cc)
  after_process-value links p (error unknown) st e = absurd (cc)
  after_process-value links p (error io_error) st e = absurd (cc)
  after_process-value links p (error json_parse_error) st e = absurd (cc)
  after_process-value links p (error (memory_error m)) st e = absurd (cc)
  after_process-value links p (error (service_error m)) st e = absurd (cc)

  pub process_task-Processed :
      (t : Task) (st : State M S) {st' : State M S}
      → process_task M ops debug ctx t st ≡ ok (value st')
      → Processed t st st'
  unfolding process_task
  process_task-Processed t st e =
      let (n, found, e1) = >>=-eq-ok (or_undefined (get_elem? st.nodes t.node_id)) _ e in
      let ((s, w, r), ran, e2) = >>=-eq-ok (ops.process ctx t.packet n.handler st.world) _ e1 in
      let (nodes, goes_on) =
        after_process-value n.links_to t.packet r (with_handler M ops debug ctx st t.node_id n s w)
          e2 in
      record {
        node = n;
        at = or_undefined-eq-ok _ found;
        handler = s;
        left = w;
        result = r;
        run = ran;
        nodes = nodes;
        goes_on = goes_on;
      }
