-- ===== src/Engine/Worker.antt =====
-- omnistack-core/src/engine.rs, `Worker::run`: a stack of tasks, filled by the modules that are polled
-- and emptied by the modules that process the packets. The modules are behind `dyn Module`: one type of
-- module states with its operations. `debug` is the build profile.
pub mod Steps
pub mod Drain
pub mod Counts
pub mod Balance
pub mod Poll
pub mod Enter
mod Tests
use Prim.Native.String.{String}
use omni_stack_rust.Base.{
  ℕ, zero, suc, ◌+◌, ◌-◌, Bool, true, false, Option, none, some, List, [], ◌∷◌, ◌++◌, Outcome, ok,
  panic, undefined, ◌>>=◌, or_undefined, length, get_elem?, set, ltb, if◌then◌else◌, ◌==◌, bit_and,
}
use omni_stack_rust.Base.Word.{u64_mod, add_word, sub_word}
use omni_stack_rust.Service.Server.{Response, done, failed, entered}
use omni_stack_rust.Error.{Error, nop, dropped, unknown, service_error, Result, value, error}
use omni_stack_rust.Packet.{Packet}
use omni_stack_rust.Packet.Pool.{Mempool, World, load, store}
use omni_stack_rust.Memory.Pktpool.{PacketPool}
use omni_stack_rust.Engine.Graph.{Node}

abbrev pub task_queue_size : ℕ
task_queue_size = 2048

-- Room in `nodes_to_poll`.
abbrev pub max_polled : ℕ
max_polled = 8

pub record Task : Type 0 where
  pub node_id : ℕ
  pub packet : ℕ

pub record Context : Type 0 where
  pub pktpool : PacketPool
  pub cpu : ℕ
  pub worker_id : ℕ
  pub thread_id : ℕ
  pub graph_id : ℕ
  pub stack_name : String

-- `ModuleCapa::PROCESS` and `POLL`.
abbrev pub capa_process : ℕ
capa_process = 1

abbrev pub capa_poll : ℕ
capa_poll = 2

-- The thread id in the answer to `ThreadEnter`; an answer of another kind is `Unknown`.
unfoldable pub thread_id_of : Result Response → Result ℕ
thread_id_of (error e) = error e
thread_id_of (value (failed e)) = error (service_error e)
thread_id_of (value (done (entered thread_id))) = value thread_id
thread_id_of (value (done other)) = error unknown

unfoldable contains : ℕ → ℕ → Bool
contains capa flag = bit_and capa flag == flag

-- The trait `Module` over the state `S` of a module and a world `W`; packets are passed by pointer.
pub record Module (S W : Type 0) : Type 0 where
  pub init : Context → S → W → Outcome (S × W × Result (Unit {0}))
  pub process : Context → ℕ → S → W → Outcome (S × W × Result (Unit {0}))
  pub poll : Context → S → W → Outcome (S × W × Result ℕ)
  pub capability : S → ℕ
  pub destroy : Context → S → W → Outcome (S × W)

-- A write to the queue, which is not checked.
unfoldable pub push : ℕ → ℕ → List Task → Outcome (List Task)
push node_id p queue =
    if ltb (length queue) task_queue_size
    then ok (record { node_id = node_id; packet = p } ∷ queue)
    else undefined

-- The packet goes to every node that is linked.
unfoldable pub push_links : List ℕ → ℕ → List Task → Outcome (List Task)
unfolding push
push_links [] p queue = ok queue
push_links (node_id ∷ links) p queue = do queue ← push node_id p queue; push_links links p queue

module _ (M : Mempool) where
  -- `while !pkt.is_null()`: a task for each packet of the chain. `room` is what is left of the queue.
  unfoldable pub push_chain : ℕ → ℕ → Option ℕ → World M → List Task → Outcome (List Task)
  push_chain room node_id none w queue = ok queue
  push_chain zero node_id (some p) w queue = undefined
  push_chain (suc room) node_id (some p) w queue = do
    pkt ← load M p w
    push_chain room node_id pkt.next w (record { node_id = node_id; packet = p } ∷ queue)

  unfoldable pub push_chains : List ℕ → ℕ → World M → List Task → Outcome (List Task)
  unfolding push_chain
  push_chains [] p w queue = ok queue
  push_chains (node_id ∷ links) p w queue = do
    queue ← push_chain (task_queue_size - length queue) node_id (some p) w queue
    push_chains links p w queue

-- The tasks, the last one pushed first: `index` is their number.
pub record State (M : Mempool) (S : Type 0) : Type 0 where
  pub nodes : List (Node S)
  pub nodes_to_poll : List ℕ
  pub queue : List Task
  pub world : World M

module _ (M : Mempool) {S : Type 0} (ops : Module S (World M)) (debug : Bool) (ctx : Context) where
  open ops use {init, process, poll, capability, destroy}

  abbrev pub with_handler : State M S → ℕ → Node S → S → World M → (State M S)
  with_handler st i n s w = record st {
    nodes = set st.nodes i (record n { handler = s });
    world = w;
  }

  after_poll : List ℕ → Result ℕ → State M S → Outcome (Result (State M S))
  unfolding push_chains
  after_poll links (value p) st = do
    queue ← push_chains M links p st.world st.queue
    ok (value (record st { queue = queue }))
  after_poll links (error nop) st = ok (value st)
  after_poll links (error e) st = ok (error e)

  unfoldable pub poll_node : ℕ → State M S → Outcome (Result (State M S))
  unfolding after_poll
  poll_node i st = do
    n ← or_undefined (get_elem? st.nodes i)
    (s, w, r) ← poll ctx n.handler st.world
    after_poll n.links_to r (with_handler st i n s w)

  -- `?` and the early returns.
  abbrev pub and_then :
      Outcome (Result (State M S))
      → (State M S → Outcome (Result (State M S)))
      → Outcome (Result (State M S))
  and_then (ok (value st)) k = k st
  and_then r k = r

  unfoldable pub poll_all : List ℕ → State M S → Outcome (Result (State M S))
  unfolding poll_node
  poll_all [] st = ok (value st)
  poll_all (i ∷ is) st = and_then (poll_node i st) (λ st. poll_all is st)

  -- `pkt.refcnt += node.links_to.len() - 1`.
  unfoldable pub share : List ℕ → ℕ → World M → Outcome (World M)
  share links p w = do
    pkt ← load M p w
    more ← sub_word debug u64_mod (length links) 1
    refcnt ← add_word debug u64_mod pkt.refcnt more
    ok (store M p (record pkt { refcnt = refcnt }) w)

  unfoldable pub after_process :
      List ℕ → ℕ → Result (Unit {0}) → State M S → Outcome (Result (State M S))
  unfolding share push_links
  after_process links p (value u) st = do
    w ← share links p st.world
    queue ← push_links links p st.queue
    ok (value (record st { queue = queue; world = w }))
  after_process links p (error dropped) st = ok (value st)
  after_process links p (error e) st = ok (error e)

  unfoldable pub process_task : Task → State M S → Outcome (Result (State M S))
  unfolding after_process
  process_task t st = do
    n ← or_undefined (get_elem? st.nodes t.node_id)
    (s, w, r) ← process ctx t.packet n.handler st.world
    after_process n.links_to t.packet r (with_handler st t.node_id n s w)

  -- `none` when the fuel is gone.
  abbrev pub continue :
      Outcome (Result (State M S))
      → (State M S → Option (Outcome (Result (State M S))))
      → Option (Outcome (Result (State M S)))
  continue (ok (value st)) k = k st
  continue r k = some r

  abbrev pub settle :
      Option (Outcome (Result (State M S)))
      → (State M S → Option (Outcome (Result (State M S))))
      → Option (Outcome (Result (State M S)))
  settle none k = none
  settle (some r) k = continue r k

  -- `while index != 0`.
  unfoldable pub drain : ℕ → List Task → State M S → Option (Outcome (Result (State M S)))
  unfolding process_task
  drain fuel [] st = some (ok (value (record st { queue = [] })))
  drain zero (t ∷ queue) st = none
  drain (suc fuel) (t ∷ queue) st =
      continue (process_task t (record st { queue = queue })) (λ st. drain fuel st.queue st)

  -- One turn of `while !should_stop()`, and several.
  unfoldable pub turn : ℕ → State M S → Option (Outcome (Result (State M S)))
  unfolding poll_all drain
  turn fuel st = continue (poll_all st.nodes_to_poll st) (λ st. drain fuel st.queue st)

  unfoldable pub turns : ℕ → ℕ → State M S → Option (Outcome (Result (State M S)))
  unfolding turn
  turns zero fuel st = some (ok (value st))
  turns (suc n) fuel st = settle (turn fuel st) (λ st. turns n fuel st)

  -- `init` of each node, which must be able to process; those that poll are listed.
  list_polled : Bool → ℕ → State M S → Outcome (State M S)
  list_polled false i st = ok st
  list_polled true i st =
      if ltb (length st.nodes_to_poll) max_polled
      then ok (record st { nodes_to_poll = st.nodes_to_poll ++ i ∷ [] })
      else panic

  after_init : ℕ → S → Result (Unit {0}) → State M S → Outcome (Result (State M S))
  unfolding contains list_polled
  after_init i s (error e) st = ok (error e)
  after_init i s (value u) st =
      if contains (capability s) capa_process
      then (list_polled (contains (capability s) capa_poll) i st >>= λ st. ok (value st))
      else panic

  unfoldable pub init_nodes : ℕ → List (Node S) → State M S → Outcome (Result (State M S))
  unfolding after_init
  init_nodes i [] st = ok (value st)
  init_nodes i (n ∷ ns) st = do
    (s, w, r) ← init ctx n.handler st.world
    and_then (after_init i s r (with_handler st i n s w)) (λ st. init_nodes (i + 1) ns st)

  unfoldable pub destroy_nodes : ℕ → List (Node S) → State M S → Outcome (State M S)
  destroy_nodes i [] st = ok st
  destroy_nodes i (n ∷ ns) st = do
    (s, w) ← destroy ctx n.handler st.world
    destroy_nodes (i + 1) ns (with_handler st i n s w)

  -- `run` once the thread has its id: `n` turns before the flag is set.
  unfoldable pub run : ℕ → ℕ → State M S → Option (Outcome (Result (State M S)))
  unfolding init_nodes turns destroy_nodes
  run n fuel st = continue (init_nodes 0 st.nodes st) (λ st.
      settle (turns n fuel st) (λ st. some (destroy_nodes 0 st.nodes st >>= λ st. ok (value st))))
