-- ===== src/Engine/Start/Tests.antt =====
-- engine.rs, `Engine::run`: a stack of two graphs on three cores.
use omni_stack_rust.Base.{ℕ, ◌≡◌, refl, ok, some, List, [], ◌∷◌, arith}
use omni_stack_rust.Config.{GraphConfig, StackConfig}
use omni_stack_rust.Config.Load.{ConfigManager, get_graph_config, get_stack_config}
use omni_stack_rust.Engine.Graph.{Node, new_nodes, build_nodes, add_links, link_at, find_index}
use omni_stack_rust.Engine.Registry.{Factory, build_module}
use omni_stack_rust.Engine.Start.{start}
use omni_stack_rust.Engine.Start.Placed.{AllBuilt, workers_of, start-Placed}

abbrev factory : Factory ℕ
factory = ("IoNode", 1) ∷ ("UserNode", 2) ∷ []

abbrev echo : GraphConfig
echo = record {
  name = "echo";
  modules = "IoNode" ∷ "UserNode" ∷ [];
  links = ("UserNode", "IoNode") ∷ [];
}

abbrev sink : GraphConfig
sink = record { name = "sink"; modules = "UserNode" ∷ []; links = [] }

abbrev stack : StackConfig
stack = record {
  name = "UDP";
  nics = [];
  routes = [];
  graphs =
      record { name = "echo"; cpus = 12 ∷ 14 ∷ [] } ∷ record { name = "sink"; cpus = 16 ∷ [] } ∷ [];
}

abbrev config : ConfigManager
config = record { graph_configs = echo ∷ sink ∷ []; stack_configs = stack ∷ [] }

abbrev built : List (List (Node ℕ))
built =
    (record { handler = 1; links_to = [] } ∷ record { handler = 2; links_to = 0 ∷ [] } ∷ [])
    ∷ (record { handler = 2; links_to = [] } ∷ [])
    ∷ []

all_built : AllBuilt factory config stack.graphs built
unfolding get_graph_config new_nodes build_nodes add_links link_at find_index build_module
all_built = ((echo, refl, refl), omega arith, ((sink, refl, refl), omega arith, tt))

stack_known : get_stack_config "UDP" config ≡ some stack
unfolding get_stack_config
stack_known = refl

start-Placed_example : start factory config "UDP" ≡ ok (workers_of 0 0 "UDP" stack.graphs built)
start-Placed_example = start-Placed factory config "UDP" stack built stack_known all_built
