-- ===== src/Memory/Laws.antt =====
-- memory.rs, `MemoryPool::get_or_create`: who finds which pool.
use Prim.Native.String.{String, len}
use text.Mathlib.Text.{◌==◌ as str_eq}
use text.Mathlib.TextEquality.{eq_iff}
use omni_stack_rust.Base.{
  ℕ, ◌≤◌, ◌≡◌, ◌≢◌, arith, refl, sym, ap, ◌∙◌, Bool, true, false, Option, none, some, ◌∷◌, ok, leb,
  if◌then◌else◌,
}
use omni_stack_rust.Error.{exhausted}
use omni_stack_rust.Memory.{
  Slot, unwritten, Got, pool, failed, Zones, memzone_lookup, get_or_create, found_or_reserve,
  reserve_zone, fill_zone,
}

pub lookup_self :
    (name : String) (slot : Slot) (zones : Zones)
    → memzone_lookup name ((name, slot) ∷ zones) ≡ some slot
unfolding memzone_lookup
lookup_self name slot zones = rw ((eq_iff name name).1 refl)

lookup_other :
    (name other : String) (slot : Slot) (zones : Zones)
    → name ≢ other
    → memzone_lookup other ((name, slot) ∷ zones) ≡ memzone_lookup other zones
unfolding memzone_lookup
lookup_other name other slot zones apart = go (str_eq name other) refl
  where
    go :
        (b : Bool)
        → str_eq name other ≡ b
        → (if str_eq name other then some slot else memzone_lookup other zones)
          ≡ memzone_lookup other zones
    go true e = absurd (apart ((eq_iff name other).0 e))
    go false e = rw e

-- What one call leaves behind.
pub record Shared (name : String) (zones after : Zones) (got : Got) : Type 0 where
  pub found :
      (slot : Slot) → memzone_lookup name zones ≡ some slot → (got ≡ pool slot) × (after ≡ zones)
  pub kept : (slot : Slot) → got ≡ pool slot → memzone_lookup name after ≡ some slot
  pub others :
      (other : String) → name ≢ other → memzone_lookup other after ≡ memzone_lookup other zones

unsome : {s t : Slot} → some s ≡ some t → s ≡ t
unsome e = cc

unpool : {s t : Slot} → pool s ≡ pool t → s ≡ t
unpool e = cc

found_or_reserve-Shared :
    (o : Option Slot) (name : String) (socket_id : ℕ) (reserved : Bool) (mp : Option ℕ)
    (zones : Zones)
    → memzone_lookup name zones ≡ o
    → Shared name zones
        ((found_or_reserve o name socket_id reserved mp zones).0)
        ((found_or_reserve o name socket_id reserved mp zones).1)
unfolding found_or_reserve reserve_zone fill_zone
found_or_reserve-Shared (some slot) name socket_id reserved mp zones e = record {
  found = λ s h. (ap pool (unsome (sym e ∙ h)), refl);
  kept = λ s h. e ∙ ap some (unpool h);
  others = λ other apart. refl;
}
found_or_reserve-Shared none name socket_id false mp zones e = record {
  found = λ s h. absurd (cc);
  kept = λ s h. absurd (cc);
  others = λ other apart. refl;
}
found_or_reserve-Shared none name socket_id true none zones e = record {
  found = λ s h. absurd (cc);
  kept = λ s h. absurd (cc);
  others = λ other apart. lookup_other name other unwritten zones apart;
}
found_or_reserve-Shared none name socket_id true (some mp) zones e = record {
  found = λ s h. absurd (cc);
  kept = λ s h. lookup_self name _ zones ∙ ap some (unpool h);
  others = λ other apart. lookup_other name other _ zones apart;
}

-- A call with a name that fits returns. If there is a zone of that name, the call gives what it holds and
-- changes nothing, whatever DPDK would answer; what it gives, the next call of that name finds; and it
-- leaves the zones of other names as they are.
pub get_or_create-Shared :
    (name : String) (socket_id : ℕ) (reserved : Bool) (mp : Option ℕ) (zones : Zones)
    → len name ≤ 24
    → (after : Zones) × (got : Got) × (get_or_create name socket_id reserved mp zones
        ≡ ok (after, got))
      × Shared name zones after got
unfolding get_or_create
get_or_create-Shared name socket_id reserved mp zones h =
    let fits : leb (len name) 24 ≡ true = ground arith in
    (
      _,
      _,
      rw fits refl,
      found_or_reserve-Shared (memzone_lookup name zones) name socket_id reserved mp zones refl,
    )

-- If there is no zone of a name that fits, the zone can be reserved and the pool is then not created, the
-- call fails, and the next of that name gives a zone in which no pool was ever written, changing nothing.
pub get_or_create-unwritten :
    (name : String) (socket_id socket_id' : ℕ) (reserved : Bool) (mp : Option ℕ) (zones : Zones)
    → len name ≤ 24
    → memzone_lookup name zones ≡ none
    → (after : Zones) × (get_or_create name socket_id true none zones
        ≡ ok (after, failed exhausted))
      × (get_or_create name socket_id' reserved mp after ≡ ok (after, pool unwritten))
unfolding get_or_create found_or_reserve reserve_zone fill_zone
get_or_create-unwritten name socket_id socket_id' reserved mp zones h e =
    let fits : leb (len name) 24 ≡ true = ground arith in
    ((name, unwritten) ∷ zones, rw (fits, e) refl, rw (fits, lookup_self name unwritten zones) refl)
