-- ===== src/Engine/Start/Placed.antt =====
-- engine.rs, `Engine::run`: which worker runs which graph, and where.
use Prim.Native.String.{String}
use omni_stack_rust.Base.{
  ℕ, ◌+◌, ◌≤◌, ◌≡◌, refl, ap, ◌∙◌, some, List, [], ◌∷◌, ◌++◌, ok, length, le→leb, arith,
}
use omni_stack_rust.Config.{GraphConfig, GraphEntry, StackConfig}
use omni_stack_rust.Config.Load.{ConfigManager, get_graph_config, get_stack_config}
use omni_stack_rust.Engine.Graph.{Node, max_nodes, new_nodes, worker_nodes}
use omni_stack_rust.Engine.Registry.{Factory, build_module}
use omni_stack_rust.Engine.Start.{
  Graph, Worker, new_graph, graphs_of_cpus, graphs_of, run_workers, start,
}

module _ {A : Type 0} where
  -- The workers of one entry: one for each of its cores, counted on from `k`.
  abbrev pub placed : ℕ → ℕ → String → List (Node A) → List ℕ → List (Worker A)
  placed k id stack_name nodes [] = []
  placed k id stack_name nodes (cpu ∷ cpus) =
      record { id = k; graph_id = id; cpu = cpu; stack_name = stack_name; nodes = nodes }
      ∷ placed (k + 1) id stack_name nodes cpus

  -- The workers of the entries, whose graphs have these nodes.
  abbrev pub workers_of : ℕ → ℕ → String → List GraphEntry → List (List (Node A)) → List (Worker A)
  workers_of k id stack_name [] nss = []
  workers_of k id stack_name (e ∷ es) [] = []
  workers_of k id stack_name (e ∷ es) (ns ∷ nss) =
      placed k id stack_name ns e.cpus ++ workers_of (k + length e.cpus) (id + 1) stack_name es nss

module _ {A : Type 0} (factory : Factory A) (config : ConfigManager) where
  -- Each entry names a graph that is known and can be built, with these nodes, and a worker has room for them.
  abbrev pub AllBuilt : List GraphEntry → List (List (Node A)) → Type 0
  AllBuilt [] [] = Unit
  AllBuilt (e ∷ es) [] = ⊥
  AllBuilt [] (ns ∷ nss) = ⊥
  AllBuilt (e ∷ es) (ns ∷ nss) =
      ((g : GraphConfig) × (get_graph_config e.name config ≡ some g)
        × (new_nodes (build_module factory) g ≡ ok ns))
      × (length ns ≤ max_nodes)
      × AllBuilt es nss

  -- The graphs of one entry, and of all.
  abbrev cpu_graphs : ℕ → List (Node A) → List ℕ → List (Graph A)
  cpu_graphs id ns [] = []
  cpu_graphs id ns (cpu ∷ cpus) = record { id = id; cpu = cpu; nodes = ns } ∷ cpu_graphs id ns cpus

  abbrev entry_graphs : ℕ → List GraphEntry → List (List (Node A)) → List (Graph A)
  entry_graphs id [] nss = []
  entry_graphs id (e ∷ es) [] = []
  entry_graphs id (e ∷ es) (ns ∷ nss) = cpu_graphs id ns e.cpus ++ entry_graphs (id + 1) es nss

  graphs_of_cpus-value :
      (id : ℕ) (g : GraphConfig) (ns : List (Node A)) (cpus : List ℕ)
      → new_nodes (build_module factory) g ≡ ok ns
      → graphs_of_cpus factory id g cpus ≡ ok (cpu_graphs id ns cpus)
  unfolding graphs_of_cpus new_graph
  graphs_of_cpus-value id g ns [] h = refl
  graphs_of_cpus-value id g ns (cpu ∷ cpus) h = rw h (rw (graphs_of_cpus-value id g ns cpus h) refl)

  graphs_of-value :
      (id : ℕ) (es : List GraphEntry) (nss : List (List (Node A)))
      → AllBuilt es nss
      → graphs_of factory config id es ≡ ok (entry_graphs id es nss)
  unfolding graphs_of
  graphs_of-value id [] [] b = refl
  graphs_of-value id [] (ns ∷ nss) b = absurd b
  graphs_of-value id (e ∷ es) [] b = absurd b
  graphs_of-value id (e ∷ es) (ns ∷ nss) ((g, known, built), room, rest) = rw known (
      rw (graphs_of_cpus-value id g ns e.cpus built)
        (rw (graphs_of-value (id + 1) es nss rest) refl))

  run_workers-cpus :
      (k id : ℕ) (stack_name : String) (ns : List (Node A)) (cpus : List ℕ) (gs : List (Graph A))
      (ws : List (Worker A))
      → length ns ≤ max_nodes
      → run_workers (k + length cpus) stack_name gs ≡ ok ws
      → run_workers k stack_name (cpu_graphs id ns cpus ++ gs)
        ≡ ok (placed k id stack_name ns cpus ++ ws)
  unfolding run_workers worker_nodes
  run_workers-cpus k id stack_name ns [] gs ws room h =
      ap (λ n. run_workers n stack_name gs) (omega arith) ∙ h
  run_workers-cpus k id stack_name ns (cpu ∷ cpus) gs ws room h =
      rw (le→leb (length ns) max_nodes room) (
        rw
          (run_workers-cpus (k + 1) id stack_name ns cpus gs ws room
            (ap (λ n. run_workers n stack_name gs) (omega arith) ∙ h))
          refl)

  run_workers-value :
      (k id : ℕ) (stack_name : String) (es : List GraphEntry) (nss : List (List (Node A)))
      → AllBuilt es nss
      → run_workers k stack_name (entry_graphs id es nss) ≡ ok (workers_of k id stack_name es nss)
  unfolding run_workers
  run_workers-value k id stack_name [] [] b = refl
  run_workers-value k id stack_name [] (ns ∷ nss) b = absurd b
  run_workers-value k id stack_name (e ∷ es) [] b = absurd b
  run_workers-value k id stack_name (e ∷ es) (ns ∷ nss) (known, room, rest) =
      run_workers-cpus k id stack_name ns e.cpus (entry_graphs (id + 1) es nss) _ room
        (run_workers-value (k + length e.cpus) (id + 1) stack_name es nss rest)

  -- A stack whose graphs are all known, can be built and fit into a worker starts one worker for each core of
  -- each entry, in the order of the configuration: they are numbered through, each bound to its core, to the
  -- place of its entry and to nodes of its own of that entry's graph.
  pub start-Placed :
      (stack_name : String) (s : StackConfig) (nss : List (List (Node A)))
      → get_stack_config stack_name config ≡ some s
      → AllBuilt s.graphs nss
      → start factory config stack_name ≡ ok (workers_of 0 0 stack_name s.graphs nss)
  unfolding start
  start-Placed stack_name s nss h b =
      rw h (rw (graphs_of-value 0 s.graphs nss b) (run_workers-value 0 0 stack_name s.graphs nss b))
