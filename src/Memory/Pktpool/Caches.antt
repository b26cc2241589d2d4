-- ===== src/Memory/Pktpool/Caches.antt =====
-- packet.rs and memory.rs: the caches that the threads of a socket find in their pool.
use Prim.Native.String.{String, len}
use text.Mathlib.Text.{◌==◌ as str_eq}
use omni_stack_rust.Base.{
  ℕ, ◌≤◌, ◌≡◌, refl, ap, ◌∙◌, le→leb, Bool, true, false, Option, none, some, List, [], ◌∷◌, ok,
  Ends, or_undefined, All, ◌==◌, ==_iff, if◌then◌else◌,
}
use omni_stack_rust.Memory.{
  MemoryPool, Slot, written, Zones, memzone_lookup, get_or_create, found_or_reserve, reserve_zone,
  fill_zone, create_cache, get_cache,
}
use omni_stack_rust.Memory.Laws.{lookup_self}
use omni_stack_rust.Memory.Pktpool.{pool_name, put_slot, with_cache, pktpool}

-- The zone of that name holds this pool.
abbrev pub Holds : String → Zones → MemoryPool → Type 0
Holds name zones p = memzone_lookup name zones ≡ some (written p)

lookup-put_slot :
    (name : String) (slot old : Slot) (zones : Zones)
    → memzone_lookup name zones ≡ some old
    → memzone_lookup name (put_slot name slot zones) ≡ some slot
unfolding memzone_lookup put_slot
lookup-put_slot name slot old [] h = absurd (cc)
lookup-put_slot name slot old ((k, s) ∷ zones) h =
    go (str_eq k name) refl h (lookup-put_slot name slot old zones)
  where
    go :
        (b : Bool)
        → str_eq k name ≡ b
        → (if str_eq k name then some s else memzone_lookup name zones) ≡ some old
        → (memzone_lookup name zones ≡ some old
            → memzone_lookup name (put_slot name slot zones) ≡ some slot)
        → memzone_lookup name
            (if str_eq k name then (k, slot) ∷ zones else (k, s) ∷ put_slot name slot zones)
          ≡ some slot
    go true e h ih = rw e (rw e refl)
    go false e h ih = rw e (rw e (ih (rw e at h)))

-- What the caches of the threads become: those of `threads` are the ones made for them, others stay.
pub record Cached (threads : List (ℕ × ℕ)) (p p' : MemoryPool) : Type 0 where
  pub mp : p'.mp ≡ p.mp
  pub own : All (λ (r : ℕ × ℕ). get_cache r.0 p' ≡ ok r.1) threads
  pub others :
      (t : ℕ)
      → All (λ (r : ℕ × ℕ). (t == r.0) ≡ false) threads
      → p'.cache_per_thread t ≡ p.cache_per_thread t

module _ (socket_id : ℕ) (fits : len (pool_name socket_id) ≤ 24) where
  abbrev pub name : String
  name = pool_name socket_id

  abbrev pub new_pool : ℕ → MemoryPool
  new_pool mp = record { mp = mp; socket_id = socket_id; cache_per_thread = λ t. none }

  pub found :
      (thread cache : ℕ) (reserved : Bool) (mp : Option ℕ) (zones : Zones) (p : MemoryPool)
      → Holds name zones p
      → Ends (pktpool socket_id thread reserved mp cache zones) (λ r.
        (r.1 ≡ record { mp = name; thread_id = thread })
        × Holds name r.0 (create_cache cache thread p))
  unfolding pktpool get_or_create found_or_reserve with_cache
  found thread cache reserved mp zones p h = (
    (
      put_slot name (written (create_cache cache thread p)) zones,
      record { mp = name; thread_id = thread },
    ),
    rw (le→leb _ _ fits) (rw h refl),
    (refl, lookup-put_slot name _ _ zones h),
  )

  pub made :
      (thread cache mp : ℕ) (zones : Zones)
      → memzone_lookup name zones ≡ none
      → Ends (pktpool socket_id thread true (some mp) cache zones) (λ r.
        (r.1 ≡ record { mp = name; thread_id = thread })
        × Holds name r.0 (create_cache cache thread (new_pool mp)))
  unfolding pktpool get_or_create found_or_reserve reserve_zone fill_zone with_cache
  made thread cache mp zones h =
      let reserved : Zones = (name, written (new_pool mp)) ∷ zones in
      (
        (
          put_slot name (written (create_cache cache thread (new_pool mp))) reserved,
          record { mp = name; thread_id = thread },
        ),
        rw (le→leb _ _ fits) (rw h refl),
        (refl, lookup-put_slot name _ _ reserved (lookup_self name _ zones)),
      )

  pub Cached-cons :
      (t c : ℕ) (rest : List (ℕ × ℕ)) (p p' : MemoryPool)
      → All (λ (r : ℕ × ℕ). (t == r.0) ≡ false) rest
      → Cached rest (create_cache c t p) p'
      → Cached ((t, c) ∷ rest) p p'
  unfolding create_cache get_cache
  Cached-cons t c rest p p' apart k = record {
    mp = k.mp;
    own = (ap or_undefined (k.others t apart ∙ self), k.own);
    others = λ u (ne, h). k.others u h ∙ ap (λ b. if b then some c else p.cache_per_thread u) ne;
  }
    where
      self : (if t == t then some c else p.cache_per_thread t) ≡ some c
      self = ap (λ b. if b then some c else p.cache_per_thread t) ((==_iff t t).1 refl)
