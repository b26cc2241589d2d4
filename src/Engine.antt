-- ===== src/Engine.antt =====
-- omnistack-core/src/engine.rs: the graph of modules, and the worker that runs packets through it.
pub mod Graph
pub mod Registry
pub mod Worker
pub mod Start
