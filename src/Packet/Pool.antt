-- ===== src/Packet/Pool.antt =====
-- omnistack-core/src/packet.rs, `PacketPool`: packets taken from a DPDK memory pool and given back by
-- reference count. The pool itself, with its per-thread caches, is DPDK's: an interface.
pub mod Counts
pub mod Grants
pub mod ListPool
use mathlib.Core.List.{Perm}
use omni_stack_rust.Base.{
  ℕ, ◌+◌, ◌-◌, ◌≡◌, Bool, true, false, Option, none, some, List, [], ◌∷◌, ◌++◌, Outcome, ok, panic,
  undefined, ◌>>=◌, or_undefined, ◌==◌, if◌then◌else◌, length,
}
use omni_stack_rust.Base.Word.{u64_mod, sub_word}
use omni_stack_rust.Error.{MemoryError, exhausted}
use omni_stack_rust.Packet.{Packet, PktBufType, local, mbuf}

-- `rte_mempool_generic_get` and `put` with a thread's cache. `content` is what is in the pool and its
-- caches: a get of `n` takes `n` of these or fails, and a put adds one.
pub record Mempool : Type 1 where
  pub State : Type 0
  pub content : State → List ℕ
  pub get : ℕ → ℕ → State → Option (List ℕ × State)
  pub put : ℕ → ℕ → State → State
  pub get_lem :
      (n thread : ℕ) (s t : State) (objs : List ℕ)
      → get n thread s ≡ some (objs, t)
      → (length objs ≡ n) × Perm (content s) (objs ++ content t)
  pub put_lem : (obj thread : ℕ) (s : State) → Perm (content (put obj thread s)) (obj ∷ content s)

abbrev pub update : (ℕ → Option Packet) → ℕ → Packet → ℕ → Option Packet
update f ptr p q = if ptr == q then some p else f q

module _ (M : Mempool) where
  open M use {State, content, get, put}

  -- The packets by their pointers, the pool, and the DPDK buffers given back so far.
  pub record World : Type 0 where
    pub packets : ℕ → Option Packet
    pub pool : State
    pub freed_mbufs : List ℕ

  -- A dereferenced pointer.
  unfoldable pub load : ℕ → World → Outcome Packet
  load ptr w = or_undefined (w.packets ptr)

  abbrev pub store : ℕ → Packet → World → World
  store ptr p w = record w { packets = update w.packets ptr p }

  -- `packet_init`, run on each object when the pool is made.
  unfoldable pub packet_init : ℕ → World → Outcome World
  unfolding load
  packet_init ptr w = do p ← load ptr w; ok (store ptr (record p { refcnt = 1; next = none }) w)

  abbrev pub taken : Option (List ℕ × State) → World → Option (List ℕ × World)
  taken none w = none
  taken (some (objs, s)) w = some (objs, record w { pool = s })

  -- `allocate_many`, and `allocate` for one.
  unfoldable pub allocate_many : ℕ → ℕ → World → Option (List ℕ × World)
  allocate_many n thread w = taken (get n thread w.pool) w

  abbrev first_of_one : Option (List ℕ × World) → Outcome (Option (ℕ × World))
  first_of_one none = ok none
  first_of_one (some ([], w)) = undefined
  first_of_one (some (obj ∷ _, w)) = ok (some (obj, w))

  unfoldable pub allocate : ℕ → World → Outcome (Option (ℕ × World))
  unfolding allocate_many
  allocate thread w = first_of_one (allocate_many 1 thread w)

  abbrev free_mbuf : PktBufType → List ℕ → List ℕ
  free_mbuf local freed = freed
  free_mbuf (mbuf m) freed = m ∷ freed

  release : ℕ → Packet → ℕ → World → World
  release ptr p thread w = record w {
    pool = put ptr thread w.pool;
    freed_mbufs = free_mbuf p.buf_ty w.freed_mbufs;
  }

  drop_reference : Bool → ℕ → Packet → World → Outcome World
  drop_reference debug ptr p w = do
    n ← sub_word debug u64_mod p.refcnt 1
    ok (store ptr (record p { refcnt = n }) w)

  unfoldable pub deallocate : Bool → ℕ → ℕ → World → Outcome World
  unfolding load release drop_reference
  deallocate debug ptr thread w = do
    p ← load ptr w
    if p.refcnt == 1 then ok (release ptr p thread w) else drop_reference debug ptr p w
