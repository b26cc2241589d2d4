-- ===== src/Lib.antt =====
-- OmniStack: a user-space network stack over DPDK. Worker threads run a graph of modules that pass
-- packets on; a server hands out thread ids over a socket; the graphs and the network cards come from
-- JSON files. This library models the program's own logic, in omnistack-core/src.
--
-- The parts, and where they are:
-- - service.rs: ThreadId::next and free over the table of ids are Service/ThreadId (the statics are the
--   record Ids, one step of the loop of `next` a round of next_from); the loop of Server::run is
--   Service/Server (a Request is answered by respond, an event by handle, the loop is run); send_request
--   is Service/Client.
-- - error.rs: Error.
-- - protocol.rs: Protocol/Addr (Ipv4Addr, its parser and printer), Protocol/Route, Protocol/Header (the
--   packed headers as places of bytes; the version and length byte).
-- - packet.rs: Packet (the fields and the memory of a packet), Packet/Pool (PacketPool over DPDK's memory
--   pool, an interface), Packet/Chain (the packets that hang on one another by `next`); PacketPool's
--   get_or_create is Memory/Pktpool.
-- - modules/udp.rs, eth.rs, ipv4.rs and user.rs: Modules/Udp, Eth, Ipv4 and User, one function for each
--   process, poll and init.
-- - modules/dpdk.rs: Modules/Dpdk (new, flush, recv and the free callback of the adapter Dpdk),
--   Modules/Dpdk/Receive (what recv gives), Modules/Dpdk/Send (the attachment of a packet to a buffer of the
--   card, and send; the state keeps the buffers that the card was handed), Modules/Dpdk/Send/Carried (what a
--   buffer is of its packet), Modules/Dpdk/Send/Card (the card as an adapter), Modules/Dpdk/Send/Plugged (what
--   an Io node's cards are handed), Modules/Dpdk/Port (init, with the Once that sets up the port, and start).
-- - The sending modules one after another, as the graph of config/graph/udp.json links them, are
--   Modules/Pipeline.
-- - config.rs: Config (each record from its JSON value), Config/Load (ConfigManager, load_file, load_dir).
-- - engine.rs: Engine/Graph (Graph::new), Engine/Start (Engine::run and run_workers: which workers are made),
--   Engine/Worker (Worker::run, phase by phase, over modules of any behaviour), Engine/Worker/Enter (its start:
--   the thread id and the pool, and the workers of a socket one after another).
-- - module.rs: Engine/Registry (register and build_module); the trait Module is with the worker.
-- - nio.rs: Nio (IoNode over adapters of any behaviour, and the registry of adapters), Nio/Init (the set-up
--   of a node), Nio/Flush and Nio/Poll (the pending adapters), Nio/Idle (what each adapter was given, and that
--   nothing waits at those that are not pending).
-- - memory.rs: Memory (MemoryPool::get_or_create over named zones, and the caches of the threads),
--   Memory/Pktpool (the packet pool that the threads of a socket share).
-- - channel.rs: Channel (send and recv over a ring of DPDK).
-- Base and Occurs hold what these share.
--
-- How code becomes a definition: a body that may panic or meet undefined behaviour (an unchecked index out
-- of bounds, a null pointer followed) gives an Outcome; `?` and Err are values of Result. Integers are
-- natural numbers; where a machine integer wraps, add_word and sub_word check or wrap as the profile says,
-- which is the argument `debug`. A pointer to a packet is a number, and the World keeps the packet of each
-- number, so that aliases see the same packet.
--
-- Loops: a loop over a list or a counter is a recursion on it. The loop over the tasks of a worker runs on
-- fuel and gives none when the fuel is gone; Engine/Worker/Drain says how much is enough. A pushed chain of
-- packets recurses on the room left in the queue of 2048 tasks, past which the code writes out of bounds.
--
-- What the code only calls is an interface or an input: DPDK's memory pool (Mempool) and ring (Ring), the card
-- (Device, Platform, Answer), the crate json (Json), the sockets and serde_json (the events and attempts), the
-- file system (Entry), the modules and adapters behind `dyn` (Module, Adapter).
--
-- Not modelled: the start of threads, of the signal handler and of DPDK (sys.rs and the rest of Engine::run),
-- the statistics of the feature perf and Dpdk::stop, which prints them, the Debug output of the headers, and
-- the crates omnistack (its functions are todo!()), omnistack-cli, omnistack-proc and rust-dpdk-sys (glue and
-- generated code).
pub mod Base
pub mod Channel
pub mod Config
pub mod Engine
pub mod Error
pub mod Memory
pub mod Modules
pub mod Nio
pub mod Occurs
pub mod Packet
pub mod Protocol
pub mod Service
