-- ===== src/Engine/Registry/Tests.antt =====
-- module.rs: three registrations, one of them twice.
use omni_stack_rust.Base.{ℕ, ◌≡◌, [], ◌∷◌}
use omni_stack_rust.Engine.Registry.{
  Factory, build_module, register_all, last_of, register_all-last,
}

abbrev before : Factory ℕ
before = ("IoNode", 1) ∷ []

io_node_replaced :
    build_module (register_all (("UserNode", 2) ∷ ("IoNode", 3) ∷ []) before) "IoNode"
    ≡ last_of (("UserNode", 2) ∷ ("IoNode", 3) ∷ []) "IoNode" (build_module before "IoNode")
io_node_replaced = register_all-last (("UserNode", 2) ∷ ("IoNode", 3) ∷ []) before "IoNode"
