-- ===== src/Engine/Graph.antt =====
-- omnistack-core/src/engine.rs, `Graph::new` and `Worker::new`, with `module::build_module`: the nodes in
-- the order of the configuration, linked by the modules' names.
pub mod Links
mod Tests
use Prim.Native.String.{String}
use text.Mathlib.Text.{◌==◌ as str_eq}
use omni_stack_rust.Base.{
  ℕ, zero, suc, ◌+◌, ◌<◌, Bool, Option, none, some, List, [], ◌∷◌, ◌++◌, Outcome, ok, panic, ◌>>=◌,
  or_panic, length, get_elem?, set, ltb, leb, if◌then◌else◌,
}
use omni_stack_rust.Config.{GraphConfig}

-- A module of the graph, of any type, and the nodes that it hands its packets to.
pub record Node {ℓ} (A : Type ℓ) : Type ℓ where
  pub handler : A
  pub links_to : List ℕ

-- Room in `ArrayVec<NodeId, 4>` and `ArrayVec<Node, 32>`; a push past it panics.
abbrev pub max_links : ℕ
max_links = 4

abbrev pub max_nodes : ℕ
max_nodes = 32

-- `enumerate().find(..)`: the first module of that name.
unfoldable pub find_index : String → List String → Option ℕ
find_index name [] = none
find_index name (m ∷ ms) =
    if str_eq m name
    then some 0
    else elim (find_index name ms) [ none ↦ none | some i ↦ some (suc i) ]

module _ {ℓ} {A : Type ℓ} where
  -- `build_module` for each name, by the factory's `builders`; one that is not registered panics.
  unfoldable pub build_nodes : (String → Option A) → List String → Outcome (List (Node A))
  build_nodes builders [] = ok []
  build_nodes builders (m ∷ ms) = do
    a ← or_panic (builders m)
    nodes ← build_nodes builders ms
    ok (record { handler = a; links_to = [] } ∷ nodes)

  push_link : ℕ → Node A → Outcome (Node A)
  push_link dst n =
      if ltb (length n.links_to) max_links
      then ok (record n { links_to = n.links_to ++ dst ∷ [] })
      else panic

  -- `nodes[src].links_to.push(NodeId(dst))`.
  unfoldable pub link_at : ℕ → ℕ → List (Node A) → Outcome (List (Node A))
  unfolding push_link
  link_at src dst nodes = do
    n ← or_panic (get_elem? nodes src)
    n ← push_link dst n
    ok (set nodes src n)

  unfoldable pub add_links :
      List String → List (String × String) → List (Node A) → Outcome (List (Node A))
  unfolding link_at
  add_links modules [] nodes = ok nodes
  add_links modules ((src, dst) ∷ links) nodes = do
    src_idx ← or_panic (find_index src modules)
    dst_idx ← or_panic (find_index dst modules)
    nodes ← link_at src_idx dst_idx nodes
    add_links modules links nodes

  -- The nodes of `Graph::new`.
  unfoldable pub new_nodes : (String → Option A) → GraphConfig → Outcome (List (Node A))
  unfolding build_nodes add_links
  new_nodes builders config = do
    nodes ← build_nodes builders config.modules
    add_links config.modules config.links nodes

  -- `nodes_arr.extend(nodes)` of `Worker::new`.
  unfoldable pub worker_nodes : List (Node A) → Outcome (List (Node A))
  worker_nodes nodes = if leb (length nodes) max_nodes then ok nodes else panic
