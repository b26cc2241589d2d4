-- ===== src/Service.antt =====
-- omnistack-core/src/service.rs: the thread ids, the server that hands them out, and its client.
pub mod ThreadId
pub mod Server
pub mod Client
