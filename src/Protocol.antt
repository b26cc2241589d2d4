-- ===== src/Protocol.antt =====
-- omnistack-core/src/protocol.rs: addresses, headers and routes.
pub mod Addr
pub mod Header
pub mod Route
