-- ===== src/Engine/Worker/Enter.antt =====
-- engine.rs, `Worker::run` up to the first init: the thread id that the server grants, and the pool of packets.
pub mod Apart
mod Tests
use Prim.Native.String.{String}
use omni_stack_rust.Base.{
  ℕ, Bool, Option, none, some, List, [], ◌∷◌, Outcome, ok, panic, undefined, ◌>>=◌,
}
use omni_stack_rust.Error.{Error, Result, value, error}
use omni_stack_rust.Service.ThreadId.{Ids}
use omni_stack_rust.Service.Server.{Response, thread_enter, respond}
use omni_stack_rust.Packet.Pool.{Mempool, World}
use omni_stack_rust.Memory.{Zones}
use omni_stack_rust.Memory.Pktpool.{PacketPool, pktpool}
use omni_stack_rust.Engine.Start.{Worker}
use omni_stack_rust.Engine.Worker.{Context, Module, State, thread_id_of, run}

-- What DPDK answers to the thread: its socket, whether a zone can be reserved there, the pool that is created,
-- if one is, and the cache.
pub record Socket : Type 0 where
  pub socket_id : ℕ
  pub reserved : Bool
  pub mp : Option ℕ

abbrev pub context : {A : Type 0} → Worker A → PacketPool → ℕ → Context
context w pool thread_id = record {
  pktpool = pool;
  cpu = w.cpu;
  worker_id = w.id;
  thread_id = thread_id;
  graph_id = w.graph_id;
  stack_name = w.stack_name;
}

-- `?` ends the run where the server gave no id.
after_enter :
    {A : Type 0} → Socket → Worker A → ℕ → Result ℕ → Zones → Outcome (Zones × Result Context)
unfolding pktpool
after_enter socket w cache (error e) zones = ok (zones, error e)
after_enter socket w cache (value thread_id) zones =
    pktpool socket.socket_id thread_id socket.reserved socket.mp cache zones >>= λ r.
    ok (r.0, value (context w (r.1) thread_id))

unfoldable pub enter :
    {A : Type 0}
    → Socket
    → Worker A
    → ℕ
    → Result Response
    → Zones
    → Outcome (Zones × Result Context)
unfolding after_enter thread_id_of
enter socket w cache res zones = after_enter socket w cache (thread_id_of res) zones

module _ (M : Mempool) {S : Type 0} (ops : Module S (World M)) (debug : Bool) where
  run_entered :
      ℕ
      → ℕ
      → Worker S
      → World M
      → Outcome (Zones × Result Context)
      → Option (Outcome (Result (State M S)))
  unfolding run
  run_entered n fuel w world (ok (zones, value ctx)) =
      run M ops debug ctx n fuel
        (record { nodes = w.nodes; nodes_to_poll = []; queue = []; world = world })
  run_entered n fuel w world (ok (zones, error e)) = some (ok (error e))
  run_entered n fuel w world panic = some panic
  run_entered n fuel w world undefined = some undefined

  -- The whole of `run`: `n` turns before the flag is set.
  unfoldable pub run_worker :
      Socket
      → Worker S
      → ℕ
      → Result Response
      → Zones
      → ℕ
      → ℕ
      → World M
      → Option (Outcome (Result (State M S)))
  unfolding run_entered enter
  run_worker socket w cache res zones n fuel world =
      run_entered n fuel w world (enter socket w cache res zones)

-- `worker.run().unwrap()`.
unwrap : {A : Type 0} → Zones × Result A → Outcome (Zones × A)
unwrap (zones, value a) = ok (zones, a)
unwrap (zones, error e) = panic

-- The workers of a socket enter one after another, each with its cache: the server answers each. It takes the
-- messages one by one, and a lock does so with the calls for the pool.
unfoldable pub enter_all :
    {A : Type 0} → Socket → List (Worker A × ℕ) → Ids → Zones → Outcome (List Context × Ids × Zones)
unfolding enter respond unwrap
enter_all socket [] ids zones = ok ([], ids, zones)
enter_all socket ((w, cache) ∷ rest) ids zones = respond (some thread_enter) ids >>= λ r.
    (enter socket w cache (value (r.0)) zones >>= unwrap) >>= λ e.
    enter_all socket rest (r.1) (e.0) >>= λ s. ok (e.1 ∷ s.0, s.1, s.2)
