-- ===== src/Engine/Worker/Enter/Apart.antt =====
-- engine.rs, service.rs and packet.rs: what the workers of a socket have of their own.
use omni_stack_rust.Base.{ℕ, ◌≤◌, ◌≡◌, false, some, List, [], ◌∷◌, All, length, get_elem?}
use Prim.Native.String.{String, len}
use omni_stack_rust.Service.ThreadId.{Ids}
use omni_stack_rust.Service.ThreadId.Held.{Distinct}
use omni_stack_rust.Memory.{MemoryPool, Zones}
use omni_stack_rust.Memory.Pktpool.{pool_name}
use omni_stack_rust.Memory.Pktpool.Caches.{Holds, Cached}
use omni_stack_rust.Engine.Start.{Worker}
use omni_stack_rust.Engine.Worker.{Context}
use omni_stack_rust.Engine.Worker.Enter.{Socket, context}

-- What the workers get: `ids` one by one, and with each the pool of that name.
abbrev pub contexts : {A : Type 0} → String → List (Worker A × ℕ) → List ℕ → List Context
contexts name [] ids = []
contexts name (w ∷ ws) [] = []
contexts name (w ∷ ws) (id ∷ ids) =
    context w.0 (record { mp = name; thread_id = id }) id ∷ contexts name ws ids

abbrev pub caches : {A : Type 0} → List (Worker A × ℕ) → List ℕ → List (ℕ × ℕ)
caches [] ids = []
caches (w ∷ ws) [] = []
caches (w ∷ ws) (id ∷ ids) = (id, w.1) ∷ caches ws ids

-- Ids that are not in use.
abbrev AreFree : Ids → List ℕ → Type 0
AreFree s ids = All (λ id. get_elem? s.thread_id_used id ≡ some false) ids

module _ {A : Type 0} (socket : Socket) (fits : len (pool_name socket.socket_id) ≤ 24) where
  -- The workers have entered: each with an id that was free, no two with the same, and with its own cache.
  abbrev Entered : List (Worker A × ℕ) → Ids → MemoryPool → List Context × Ids × Zones → Type 0
  Entered ws s p (ctxs, t, zones) =
      (ids : List ℕ) × (length ids ≡ length ws)
      × (ctxs ≡ contexts (pool_name socket.socket_id) ws ids)
      × Distinct ids
      × AreFree s ids
      × (p' : MemoryPool) × Holds (pool_name socket.socket_id) zones p'
      × Cached (caches ws ids) p p'
