-- ===== src/Modules.antt =====
-- omnistack-core/src/modules: the packet-processing modules, and the user's module of
-- omnistack-core/src/user.rs.
pub mod Pushed
pub mod Udp
pub mod Eth
pub mod Ipv4
pub mod User
pub mod Pipeline
pub mod Dpdk
mod Tests
