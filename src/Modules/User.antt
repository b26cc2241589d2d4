-- ===== src/Modules/User.antt =====
-- omnistack-core/src/user.rs, `UserNode`: it takes a burst of packets from the pool when it is polled,
-- and gives back the packets that reach it.
pub mod Laws
use omni_stack_rust.Base.{
  ℕ, ◌-◌, Bool, Option, none, some, List, [], ◌∷◌, Outcome, ok, ◌>>=◌, or_undefined,
}
use omni_stack_rust.Error.{Error, dropped, memory_error, exhausted, Result, value, error}
use omni_stack_rust.Packet.{Packet, Region, own, PktBufType, local, default_offset, set_len}
use omni_stack_rust.Packet.Pool.{Mempool, World, load, store, allocate_many, deallocate}

abbrev pub burst_size : ℕ
burst_size = 32

-- The bytes of user data in each packet.
abbrev pub user_size : ℕ
user_size = 64 - 28

module _ (M : Mempool) where
  unfoldable pub process : Bool → ℕ → ℕ → World M → Outcome (World M × Result (Unit {0}))
  process debug thread p w = do w ← deallocate M debug p thread w; ok (w, error dropped)

  -- One packet of the burst, in front of those behind it.
  unfoldable pub prepare : Bool → ℕ → Option ℕ → World M → Outcome (World M)
  prepare debug p ret w = do
    pkt ← load M p w
    pkt ←
        set_len debug user_size
          (record pkt { region = own; buf_ty = local; offset = default_offset })
    ok (store M p (record pkt { nic = 0; next = ret }) w)

  -- `rx_queue.iter().rev()`: from the last one to the first.
  unfoldable pub chain : Bool → List ℕ → World M → Outcome (Option ℕ × World M)
  unfolding prepare
  chain debug [] w = ok (none, w)
  chain debug (p ∷ ps) w = do (ret, w) ← chain debug ps w; w ← prepare debug p ret w; ok (some p, w)

  burst : Bool → Option (List ℕ × World M) → World M → Outcome (World M × Result ℕ)
  unfolding chain
  burst debug none w = ok (w, error (memory_error exhausted))
  burst debug (some (objs, w)) _ = do
    (ret, w) ← chain debug objs w
    first ← or_undefined ret
    ok (w, value first)

  unfoldable pub poll : Bool → ℕ → World M → Outcome (World M × Result ℕ)
  unfolding burst allocate_many
  poll debug thread w = burst debug (allocate_many M burst_size thread w) w
