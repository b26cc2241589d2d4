-- ===== src/Engine/Graph/Tests.antt =====
-- engine.rs, `Graph::new`: a run on a small configuration.
use omni_stack_rust.Base.{ℕ, ◌<◌, ◌≡◌, refl, ok, some, List, [], ◌∷◌, All, length}
use omni_stack_rust.Config.{GraphConfig}
use omni_stack_rust.Engine.Graph.{
  Node, new_nodes, build_nodes, add_links, link_at, push_link, find_index,
}
use omni_stack_rust.Engine.Graph.Links.{links_at, outgoing, new_nodes-outgoing}

abbrev config : GraphConfig
config = record {
  name = "udp";
  modules = "user" ∷ "udp_sender" ∷ "io" ∷ [];
  links = ("user", "udp_sender") ∷ ("udp_sender", "io") ∷ [];
}

abbrev linked : List (Node ℕ)
linked =
    record { handler = 7; links_to = 1 ∷ [] }
    ∷ record { handler = 7; links_to = 2 ∷ [] }
    ∷ record { handler = 7; links_to = [] }
    ∷ []

config_built : new_nodes (λ name. some 7) config ≡ ok linked
unfolding new_nodes build_nodes add_links link_at push_link find_index
config_built = refl

new_nodes-outgoing_example :
    (length linked ≡ length config.modules)
    × ((i : ℕ)
        → (links_at linked i ≡ outgoing config.modules i config.links)
          × All (λ j. j < length linked) (links_at linked i))
new_nodes-outgoing_example = new_nodes-outgoing (λ name. some 7) config config_built
