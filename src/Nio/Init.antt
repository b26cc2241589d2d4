-- ===== src/Nio/Init.antt =====
-- nio.rs, `IoNode::init`: an adapter for each card of the configuration.
pub mod Built
use Prim.Native.String.{String}
use text.Mathlib.Text.{◌==◌ as str_eq}
use omni_stack_rust.Base.{
  ℕ, zero, suc, ◌+◌, ◌-◌, ◌*◌, ◌^◌, ◌%◌, undefined, Bool, true, false, Option, none, some, List, [],
  ◌∷◌, ◌++◌, Outcome, ok, panic, ◌>>=◌, or_panic, or_undefined, length, get_elem?, set, replicate,
  ltb, if◌then◌else◌, ◌==◌, bit_and, bit_or, bit_xor,
}
use omni_stack_rust.Base.Word.{u16_mod}
use omni_stack_rust.Error.{Error, nop, dropped, unknown, Result, value, error}
use omni_stack_rust.Packet.{Packet, write_all}
use omni_stack_rust.Packet.Pool.{Mempool, World, load, store}
use omni_stack_rust.Protocol.Addr.{MacAddr, new_mac}
use omni_stack_rust.Protocol.Header.EthField
use omni_stack_rust.Config.{NicConfig, StackConfig}
use omni_stack_rust.Config.Load.{ConfigManager, get_stack_config}
use omni_stack_rust.Engine.Worker.{Context}
use omni_stack_rust.Nio.{num_adapter_max, Adapter, IoNode}

module _ (M : Mempool) {A : Type 0} (ops : Adapter A (World M)) (debug : Bool) (ctx : Context) where
  open ops use {init}

  -- One card of the configuration: its adapter is built, set up and kept. `?` is `unwrap` here.
  unwrap : Result MacAddr → Outcome MacAddr
  unwrap (value mac) = ok mac
  unwrap (error e) = panic

  install : ℕ → MacAddr → A → IoNode A → Outcome (IoNode A)
  install id mac a io =
      if ltb id (length io.nic_to_mac)
      then if ltb (length io.adapters) num_adapter_max
        then ok
            (record io { nic_to_mac = set io.nic_to_mac id mac; adapters = io.adapters ++ a ∷ [] })
        else panic
      else panic

  unfoldable pub init_nics :
      (String → Option A)
      → ℕ
      → ℕ
      → ℕ
      → List NicConfig
      → IoNode A
      → World M
      → Outcome (IoNode A × World M)
  unfolding unwrap install
  init_nics builders num_queues queue_id id [] io w = ok (io, w)
  init_nics builders num_queues queue_id id (nic ∷ nics) io w = do
    a ← or_panic (builders nic.adapter_name)
    (a, w, r) ← init ctx id nic.port num_queues queue_id a w
    mac ← unwrap r
    io ← install id mac a io
    init_nics builders num_queues queue_id (id + 1) nics io w

  -- `init`, with the queue counter that all nodes share.
  unfoldable pub init_node :
      (String → Option A)
      → ConfigManager
      → ℕ
      → IoNode A
      → World M
      → Outcome (ℕ × IoNode A × World M)
  unfolding init_nics get_stack_config
  init_node builders config counter io w = do
    stack_config ← or_panic (get_stack_config ctx.stack_name config)
    graph ← or_panic (get_elem? stack_config.graphs ctx.graph_id)
    (io, w) ← init_nics builders (length graph.cpus % u16_mod) counter 0 stack_config.nics io w
    ok ((counter + 1) % u16_mod, io, w)
