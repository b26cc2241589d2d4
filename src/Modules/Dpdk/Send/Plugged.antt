-- ===== src/Modules/Dpdk/Send/Plugged.antt =====
-- dpdk.rs, `impl Adapter for Dpdk`: the cards as the adapters of an Io node.
use omni_stack_rust.Base.{ℕ, ◌≢◌, Bool, List, Outcome, ok, [], ◌∷◌, ◌++◌}
use omni_stack_rust.Packet.{Packet}
use omni_stack_rust.Error.{Result, error, dropped}
use omni_stack_rust.Packet.Pool.{Mempool, World}
use omni_stack_rust.Modules.Dpdk.Send.{Platform, Sending}
use omni_stack_rust.Modules.Dpdk.Send.Card.{Plugged, called, IsGood}

module _ (M : Mempool) (debug : Bool) (hw : Platform) where
  abbrev Sent : List (ℕ × Packet) → ℕ → Packet → Plugged × World M × Result (Unit {0}) → Type 0
  Sent l p pkt (a', w', r) = IsGood M debug hw (l ++ (p, pkt) ∷ []) a' × (r ≢ error dropped)

  -- The result of a call, when it is known.
  abbrev finish :
      Plugged
      → Sending × World M × Result (Unit {0})
      → Outcome (Plugged × World M × Result (Unit {0}))
  finish a (s, w, r) = ok (called a s, w, r)
