-- ===== src/Engine/Start.antt =====
-- omnistack-core/src/engine.rs, `Engine::run` and `run_workers`: the graphs of a stack and the workers that
-- run them. What starts them (DPDK's cores, the server's thread, the signal handler) is left out.
pub mod Placed
mod Tests
use Prim.Native.String.{String}
use omni_stack_rust.Base.{
  ℕ, zero, suc, ◌+◌, Option, List, [], ◌∷◌, ◌++◌, Outcome, ok, ◌>>=◌, or_panic,
}
use omni_stack_rust.Config.{GraphConfig, GraphEntry, StackConfig}
use omni_stack_rust.Config.Load.{ConfigManager, get_graph_config, get_stack_config}
use omni_stack_rust.Engine.Graph.{Node, new_nodes, worker_nodes}
use omni_stack_rust.Engine.Registry.{Factory, build_module}

pub record Graph (A : Type 0) : Type 0 where
  pub id : ℕ
  pub cpu : ℕ
  pub nodes : List (Node A)

-- A worker before it runs: no node is polled yet and its queue is empty.
pub record Worker (A : Type 0) : Type 0 where
  pub id : ℕ
  pub graph_id : ℕ
  pub cpu : ℕ
  pub stack_name : String
  pub nodes : List (Node A)

module _ {A : Type 0} (factory : Factory A) where
  -- `Graph::new`, with the modules of the factory.
  unfoldable pub new_graph : ℕ → GraphConfig → ℕ → Outcome (Graph A)
  new_graph id config cpu = new_nodes (build_module factory) config >>= λ nodes.
      ok (record { id = id; cpu = cpu; nodes = nodes })

  -- `for &cpu in &g.cpus`, and the loop over the entries; a graph that is not known is unwrapped.
  unfoldable pub graphs_of_cpus : ℕ → GraphConfig → List ℕ → Outcome (List (Graph A))
  unfolding new_graph
  graphs_of_cpus id config [] = ok []
  graphs_of_cpus id config (cpu ∷ cpus) =
      new_graph id config cpu >>= λ g. graphs_of_cpus id config cpus >>= λ gs. ok (g ∷ gs)

  unfoldable pub graphs_of : ConfigManager → ℕ → List GraphEntry → Outcome (List (Graph A))
  unfolding graphs_of_cpus get_graph_config
  graphs_of config id [] = ok []
  graphs_of config id (g ∷ entries) = or_panic (get_graph_config g.name config) >>= λ graph_config.
      graphs_of_cpus id graph_config g.cpus >>= λ gs.
      graphs_of config (id + 1) entries >>= λ rest. ok (gs ++ rest)

-- `Worker::new` for each graph, with its place in the list.
unfoldable pub run_workers : {A : Type 0} → ℕ → String → List (Graph A) → Outcome (List (Worker A))
unfolding worker_nodes
run_workers id stack_name [] = ok []
run_workers id stack_name (g ∷ gs) = worker_nodes g.nodes >>= λ nodes.
    run_workers (id + 1) stack_name gs >>= λ rest. ok (
      record { id = id; graph_id = g.id; cpu = g.cpu; stack_name = stack_name; nodes = nodes }
      ∷ rest)

-- `Engine::run` up to the start of the workers.
unfoldable pub start : {A : Type 0} → Factory A → ConfigManager → String → Outcome (List (Worker A))
unfolding graphs_of run_workers get_stack_config
start factory config stack_name = or_panic (get_stack_config stack_name config) >>= λ s.
    graphs_of factory config 0 s.graphs >>= λ graphs. run_workers 0 stack_name graphs
