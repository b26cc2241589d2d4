-- ===== src/Channel.antt =====
-- omnistack-core/src/channel.rs: channels between processes over a ring of DPDK, which is an interface. The
-- memory that the objects point to is an argument.
pub mod Trace
mod Tests
use omni_stack_rust.Base.{
  ℕ, suc, ◌≡◌, ◌≢◌, Option, List, [], ◌∷◌, ◌++◌, Outcome, ok, ◌>>=◌, or_undefined, ◌==◌,
  if◌then◌else◌,
}

pub data ChannelError : Type 0 where
  write_full read_empty : ChannelError

pub data Result (A : Type 0) : Type 0 where
  value : A → Result A
  error : ChannelError → Result A

-- The channel is the ring's address, and so is its raw form.
pub record IpcChannel : Type 0 where
  pub ring : ℕ

pub record RawIpcChannel : Type 0 where
  pub raw_ring : ℕ

unfoldable pub from_raw : RawIpcChannel → IpcChannel
from_raw raw_channel = record { ring = raw_channel.raw_ring }

unfoldable pub into_raw : IpcChannel → RawIpcChannel
into_raw channel = record { raw_ring = channel.ring }

-- `rte_ring_mp_enqueue` and `rte_ring_mc_dequeue` on one ring: a code, which is 0 if it went well, and for
-- the latter an object. Objects leave in the order in which they came.
pub record Ring : Type 1 where
  pub State : Type 0
  pub content : State → List ℕ
  pub enqueue : ℕ → State → ℕ × State
  pub dequeue : State → ℕ × ℕ × State
  pub enqueued :
      (obj : ℕ) (s : State)
      → (enqueue obj s).0 ≡ 0
      → content (enqueue obj s).1 ≡ content s ++ obj ∷ []
  pub refused :
      (obj : ℕ) (s : State) → (enqueue obj s).0 ≢ 0 → content (enqueue obj s).1 ≡ content s
  pub dequeued : (s : State) → (dequeue s).0 ≡ 0 → content s ≡ (dequeue s).1 ∷ content (dequeue s).2
  pub nothing : (s : State) → (dequeue s).0 ≢ 0 → content (dequeue s).2 ≡ content s

module _ (R : Ring) where
  open R use {State, enqueue, dequeue}

  sent : ℕ × State → Result (Unit {0}) × State
  sent (r, s) = (if r == 0 then (value tt) else (error write_full), s)

  unfoldable pub send : ℕ → State → Result (Unit {0}) × State
  unfolding sent
  send obj s = sent (enqueue obj s)

  -- `*objs.get_unchecked(0).cast()` follows the pointer that was received: what it gives is the word that
  -- lies at the object.
  received : (ℕ → Option ℕ) → ℕ × ℕ × State → Outcome (Result ℕ × State)
  received word_at (r, obj, s) =
      let word = or_undefined (word_at obj) >>= λ w. ok (value w, s) in
      if r == 0 then word else ok (error read_empty, s)

  unfoldable pub recv : (ℕ → Option ℕ) → State → Outcome (Result ℕ × State)
  unfolding received
  recv word_at s = received word_at (dequeue s)
