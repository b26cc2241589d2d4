-- ===== src/Engine/Worker/Tests.antt =====
-- engine.rs, `Worker::run`: runs on a small graph.
use omni_stack_rust.Base.{
  ℕ, zero, suc, ◌≤◌, ◌≡◌, inr, ap, sym, refl, ok, Outcome, some, none, [], ◌∷◌, true, arith,
}
use omni_stack_rust.Base.Word.{add_word, sub_word}
use omni_stack_rust.Error.{nop, Result, value, error}
use omni_stack_rust.Packet.{Packet, own, local}
use omni_stack_rust.Packet.Chain.{Chained}
use omni_stack_rust.Packet.Pool.{World, load, store}
use omni_stack_rust.Packet.Pool.ListPool.{list_pool}
use omni_stack_rust.Packet.Pool.Counts.{refcnt_at}
use omni_stack_rust.Engine.Graph.{Node}
use omni_stack_rust.Engine.Worker.{
  Task, Context, Module, State, push, push_links, share, after_process, process_task, push_chain,
  push_chains, drain,
}
use omni_stack_rust.Engine.Worker.Counts.{held}
use omni_stack_rust.Engine.Worker.Balance.{Balanced, Honest, Works, rest, work, Works-Balanced}
use omni_stack_rust.Engine.Worker.Drain.{total, weight, Bounded, drain-ends}
use omni_stack_rust.Engine.Worker.Poll.{IsFresh, push_one-Balanced, push_chains-unbalanced}

abbrev packet : Packet
packet = record {
  len = 100;
  l2_header = record { length = 0; offset = 0 };
  l3_header = record { length = 0; offset = 0 };
  l4_header = record { length = 0; offset = 0 };
  offset = 64;
  region = own;
  next = none;
  nic = 0;
  thread_id = 0;
  refcnt = 1;
  buf_ty = local;
  buf = [];
}

abbrev world : World list_pool
world = record { packets = λ q. some packet; pool = []; freed_mbufs = [] }

-- A module that passes every packet on and polls none.
abbrev passing : Module ℕ (World list_pool)
passing = record {
  init = λ ctx s w. ok (s, w, value tt);
  process = λ ctx p s w. ok (s, w, value tt);
  poll = λ ctx s w. ok (s, w, error nop);
  capability = λ s. 1;
  destroy = λ ctx s w. ok (s, w);
}

abbrev context : Context
context = record {
  pktpool = record { mp = "pktpool_0"; thread_id = 0 };
  cpu = 0;
  worker_id = 0;
  thread_id = 0;
  graph_id = 0;
  stack_name = "stack";
}

abbrev task : Task
task = record { node_id = 0; packet = 5 }

-- Node 0 is linked to node 1, which is linked to none.
abbrev state : State list_pool ℕ
state = record {
  nodes = record { handler = 0; links_to = 1 ∷ [] } ∷ record { handler = 0; links_to = [] } ∷ [];
  nodes_to_poll = [];
  queue = task ∷ [];
  world = world;
}

abbrev cost : ℕ → ℕ
cost zero = 1
cost (suc i) = 0

state-Bounded :
    Bounded list_pool passing true context cost (λ s. ⊥) (λ p s s' w w' r e h. absurd h) state.nodes
unfolding Bounded total
state-Bounded zero n e =
    let same : record { handler = 0; links_to = 1 ∷ [] } ≡ n = cc in
    inr (omega (arith, ap (λ (m : Node ℕ). total cost m.links_to) same))
state-Bounded (suc zero) n e =
    let same : record { handler = 0; links_to = [] } ≡ n = cc in
    inr (omega (arith, ap (λ (m : Node ℕ). total cost m.links_to) same))
state-Bounded (suc (suc i)) n e = absurd (cc)

cost_of_queue : weight cost (task ∷ []) ≤ 2
unfolding weight
cost_of_queue = omega arith

drain-ends_example :
    (r : Outcome (Result (State list_pool ℕ))) × (drain list_pool passing true context 2
        (task ∷ [])
        state
      ≡ some r)
drain-ends_example =
    drain-ends list_pool passing true context cost (λ s. ⊥) (λ p s s' w w' r e h. absurd h) 2
      (task ∷ []) state state-Bounded cost_of_queue

passing-Honest : Honest list_pool passing true context
passing-Honest = record {
  passes = λ p s s' w w' e q. let same : w ≡ w' = cc in ap (λ w. refcnt_at w q) (sym same);
  others = λ p s s' w w' e q apart. absurd (cc);
  drops = λ p s s' w w' n e count h. absurd (cc);
}

one_held : (q : ℕ) → 1 ≤ held q (task ∷ []) → 1 ≡ held q (task ∷ [])
unfolding held
one_held q h = ground arith

state-Balanced : Balanced world (task ∷ [])
state-Balanced = record { fits = omega arith; counted = λ q h. ap some (one_held q h) }

-- The packet has reached node 1.
abbrev next_state : State list_pool ℕ
next_state = record state {
  queue = record { node_id = 1; packet = 5 } ∷ [];
  world = store list_pool 5 packet world;
}

stepped :
    process_task list_pool passing true context task (record state { queue = [] })
    ≡ ok (value next_state)
unfolding process_task after_process share push_links push load add_word sub_word
stepped = refl

passed : Works list_pool passing true context state next_state
passed = work task [] refl stepped rest

Works-Balanced_example : Balanced next_state.world next_state.queue
Works-Balanced_example =
    Works-Balanced list_pool passing true context passing-Honest passed state-Balanced

one_packet : Chained (λ p. Unit {0}) world (some 5) (5 ∷ [])
one_packet = (refl, packet, refl, tt, refl)

pushed_once : push_chains list_pool (0 ∷ []) 5 world [] ≡ ok (task ∷ [])
unfolding push_chains push_chain load
pushed_once = refl

pushed_twice :
    push_chains list_pool (0 ∷ 1 ∷ []) 5 world []
    ≡ ok (record { node_id = 1; packet = 5 } ∷ task ∷ [])
unfolding push_chains push_chain load
pushed_twice = refl

none-Balanced : Balanced world []
unfolding held
none-Balanced = record { fits = omega arith; counted = λ q h. absurd (omega arith) }

packet-IsFresh : IsFresh world [] 5
unfolding held
packet-IsFresh = (refl, refl)

push_one-Balanced_example : Balanced world (task ∷ [])
push_one-Balanced_example =
    push_one-Balanced (λ p. Unit {0}) 0 5 world (5 ∷ []) [] one_packet (tt, tt) (packet-IsFresh, tt)
      none-Balanced pushed_once

push_chains-unbalanced_example : ¬ Balanced world (record { node_id = 1; packet = 5 } ∷ task ∷ [])
push_chains-unbalanced_example =
    push_chains-unbalanced (λ p. Unit {0}) (0 ∷ 1 ∷ []) 5 world (5 ∷ []) one_packet (omega arith)
      refl pushed_twice
