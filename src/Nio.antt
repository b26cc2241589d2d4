-- ===== src/Nio.antt =====
-- omnistack-core/src/nio.rs: the node that hands packets to the adapters of the network cards, and the
-- registry of adapters. An adapter is behind `dyn Adapter`: one type of states with its operations.
-- `debug` is the build profile.
pub mod Flush
pub mod Poll
pub mod Idle
pub mod Init
mod Tests
use Prim.Native.String.{String}
use text.Mathlib.Text.{◌==◌ as str_eq}
use omni_stack_rust.Base.{
  ℕ, zero, suc, ◌+◌, ◌-◌, ◌*◌, ◌^◌, ◌%◌, undefined, Bool, true, false, Option, none, some, List, [],
  ◌∷◌, ◌++◌, Outcome, ok, panic, ◌>>=◌, or_panic, or_undefined, length, get_elem?, set, replicate,
  ltb, if◌then◌else◌, ◌==◌, bit_and, bit_or, bit_xor,
}
use omni_stack_rust.Base.Word.{u16_mod}
use omni_stack_rust.Error.{Error, nop, dropped, unknown, Result, value, error}
use omni_stack_rust.Packet.{Packet, write_all}
use omni_stack_rust.Packet.Pool.{Mempool, World, load, store}
use omni_stack_rust.Protocol.Addr.{MacAddr, new_mac}
use omni_stack_rust.Protocol.Header.EthField
use omni_stack_rust.Config.{NicConfig, StackConfig}
use omni_stack_rust.Config.Load.{ConfigManager, get_stack_config}
use omni_stack_rust.Engine.Worker.{Context}

abbrev pub num_adapter_max : ℕ
num_adapter_max = 16

-- The trait `Adapter`; packets are passed by pointer.
pub record Adapter (A W : Type 0) : Type 0 where
  pub init : Context → ℕ → ℕ → ℕ → ℕ → A → W → Outcome (A × W × Result MacAddr)
  pub send : Context → ℕ → A → W → Outcome (A × W × Result (Unit {0}))
  pub recv : Context → A → W → Outcome (A × W × Result ℕ)
  pub flush : Context → A → W → Outcome (A × W × Result (Unit {0}))
  pub stop : Context → A → W → Outcome (A × W)

pub record IoNode (A : Type 0) : Type 0 where
  pub flush_queue : List ℕ
  pub flush_flag : ℕ
  pub flush_queue_idx : ℕ
  pub adapters : List A
  pub nic_to_mac : List MacAddr

unfoldable pub new : {A : Type 0} → IoNode A
new = record {
  flush_queue = replicate num_adapter_max 0;
  flush_flag = 0;
  flush_queue_idx = 0;
  adapters = [];
  nic_to_mac = replicate num_adapter_max new_mac;
}

-- `1 << nic` of a `usize`.
unfoldable pub shl_usize : Bool → ℕ → Outcome ℕ
shl_usize debug n = if ltb n 64 then ok (2 ^ n) else if debug then panic else ok (2 ^ (n % 64))

-- `1 << nic_to_flush` of an `i32`, then `as usize`: place 31 is the sign.
unfoldable pub shl_i32 : Bool → ℕ → Outcome ℕ
shl_i32 debug n =
    if ltb n 31
    then ok (2 ^ n)
    else if ltb n 32
    then ok (2 ^ 64 - 2 ^ 31)
    else if debug
    then panic
    else ok (2 ^ (n % 32))

module _ {A : Type 0} where
  -- The adapter is to be flushed: its flag is set, and it is in the queue once.
  enqueue : ℕ → ℕ → IoNode A → Outcome (IoNode A)
  enqueue mask nic io =
      if ltb io.flush_queue_idx (length io.flush_queue)
      then ok (record io {
        flush_queue = set io.flush_queue io.flush_queue_idx (nic % 256);
        flush_flag = bit_or io.flush_flag mask;
        flush_queue_idx = io.flush_queue_idx + 1;
      })
      else undefined

  unfoldable pub mark : Bool → ℕ → IoNode A → Outcome (IoNode A)
  unfolding shl_usize enqueue
  mark debug nic io = do
    mask ← shl_usize debug nic
    if bit_and io.flush_flag mask == 0 then enqueue mask nic io else ok io

module _ (M : Mempool) {A : Type 0} (ops : Adapter A (World M)) (debug : Bool) (ctx : Context) where
  open ops use {init, send, recv, flush, stop}

  -- The source address is the card's own.
  unfoldable pub put_source : ℕ → IoNode A → World M → Outcome (World M)
  put_source p io w = do
    pkt ← load M p w
    mac ← or_undefined (get_elem? io.nic_to_mac pkt.nic)
    pkt ← write_all (pkt.l2_header.offset + EthField.src) mac.raw pkt
    ok (store M p pkt w)

  after_send :
      ℕ → Result (Unit {0}) → IoNode A → World M → Outcome (IoNode A × World M × Result (Unit {0}))
  after_send nic (error e) io w = ok (io, w, error e)
  after_send nic (value u) io w = do io ← mark debug nic io; ok (io, w, error dropped)

  abbrev pub with_adapter : IoNode A → ℕ → A → IoNode A
  with_adapter io i a = record io { adapters = set io.adapters i a }

  unfoldable pub process : ℕ → IoNode A → World M → Outcome (IoNode A × World M × Result (Unit {0}))
  unfolding put_source after_send
  process p io w = do
    pkt ← load M p w
    w ← put_source p io w
    a ← or_undefined (get_elem? io.adapters pkt.nic)
    (a, w, r) ← send ctx p a w
    after_send pkt.nic r (with_adapter io pkt.nic a) w

  -- One adapter of the queue. What follows runs only if the flush succeeds.
  unfoldable pub flush_one :
      ℕ → IoNode A → World M → Outcome (IoNode A × World M × Result (Unit {0}))
  unfolding shl_i32
  flush_one idx io w = do
    nic ← or_undefined (get_elem? io.flush_queue idx)
    mask ← shl_i32 debug nic
    a ← or_undefined (get_elem? io.adapters nic)
    (a, w, r) ← flush ctx a w
    ok (
      record io {
        flush_queue_idx = idx;
        flush_flag = bit_xor io.flush_flag mask;
        adapters = set io.adapters nic a;
      },
      w,
      r,
    )

  abbrev pub and_then {ℓ} :
      {B : Type ℓ}
      → IoNode A × World M × Result (Unit {0})
      → (IoNode A → World M → Outcome (IoNode A × World M × Result B))
      → Outcome (IoNode A × World M × Result B)
  and_then (io, w, value u) k = k io w
  and_then (io, w, error e) k = ok (io, w, error e)

  -- `while self.flush_queue_idx != 0`.
  unfoldable pub flush_pending :
      ℕ → IoNode A → World M → Outcome (IoNode A × World M × Result (Unit {0}))
  unfolding flush_one
  flush_pending zero io w = ok (io, w, value tt)
  flush_pending (suc idx) io w =
      flush_one idx io w >>= λ r. and_then r (λ io w. flush_pending idx io w)

  -- The first adapter that has packets, or an error other than `Nop`.
  after_recv :
      Result ℕ
      → IoNode A
      → World M
      → Outcome (IoNode A × World M × Result ℕ)
      → Outcome (IoNode A × World M × Result ℕ)
  after_recv (error nop) io w next = next
  after_recv r io w next = ok (io, w, r)

  unfoldable pub receive : ℕ → List A → IoNode A → World M → Outcome (IoNode A × World M × Result ℕ)
  unfolding after_recv
  receive i [] io w = ok (io, w, error nop)
  receive i (a ∷ rest) io w = do
    (a, w, r) ← recv ctx a w
    after_recv r (with_adapter io i a) w (receive (i + 1) rest (with_adapter io i a) w)

  unfoldable pub poll : IoNode A → World M → Outcome (IoNode A × World M × Result ℕ)
  unfolding flush_pending receive
  poll io w =
      flush_pending io.flush_queue_idx io w >>= λ r. and_then r (λ io w. receive 0 io.adapters io w)

  unfoldable pub destroy : ℕ → List A → IoNode A → World M → Outcome (IoNode A × World M)
  destroy i [] io w = ok (io, w)
  destroy i (a ∷ rest) io w = do
    (a, w, _) ← flush ctx a w
    (a, w) ← stop ctx a w
    destroy (i + 1) rest (with_adapter io i a) w

-- The registry: the last registration of a name counts, and a name that was there is reported.
unfoldable pub register : {B : Type 0} → String → B → List (String × B) → Bool × List (String × B)
register id f builders = (known id builders, (id, f) ∷ builders)
  where
    known : {B : Type 0} → String → List (String × B) → Bool
    known id [] = false
    known id ((k, _) ∷ bs) = if str_eq k id then true else known id bs

unfoldable pub builder : {B : Type 0} → String → List (String × B) → Option B
builder id [] = none
builder id ((k, f) ∷ bs) = if str_eq k id then some f else builder id bs
