-- ===== src/Service/ThreadId/Room.antt =====
-- service.rs, `ThreadId`: how many ids are in use, and that one is found while there is room.
use omni_stack_rust.Base.{
  ℕ, zero, suc, ◌<◌, ◌≡◌, refl, ap, ◌∙◌, Bool, true, false, Option, none, some, List, [], ◌∷◌,
  Outcome, ok, length, get_elem?, set, replicate, arith,
}
use omni_stack_rust.Service.ThreadId.{Ids, max_thread_num, initial, next}
use omni_stack_rust.Service.ThreadId.Alloc.{
  IsValid, Found, exhausted, granted, next-Found, Grant, next-Grant, next-none_iff, next-none_same,
}

-- How many ids are in use.
abbrev pub used : List Bool → ℕ
used [] = 0
used (true ∷ bs) = suc (used bs)
used (false ∷ bs) = used bs

pub used-set :
    (bs : List Bool) (i : ℕ) → get_elem? bs i ≡ some false → used (set bs i true) ≡ suc (used bs)
used-set [] i e = absurd (cc)
used-set (true ∷ bs) zero e = absurd (cc)
used-set (false ∷ bs) zero e = refl
used-set (true ∷ bs) (suc i) e = ap suc (used-set bs i e)
used-set (false ∷ bs) (suc i) e = used-set bs i e

used-all :
    (bs : List Bool) → ((i : ℕ) → i < length bs → get_elem? bs i ≡ some true) → used bs ≡ length bs
used-all [] all = refl
used-all (true ∷ bs) all = ap suc (used-all bs (λ i h. all (suc i) (omega arith)))
used-all (false ∷ bs) all = absurd (cc (all 0 (omega arith)))

used-none : (n : ℕ) → used (replicate n false) ≡ 0
used-none zero = refl
used-none (suc n) = used-none n

-- An entering thread gets an id as long as one is free.
pub next-some :
    (s : Ids)
    → IsValid max_thread_num s
    → used s.thread_id_used < max_thread_num
    → (id : ℕ) × (t : Ids) × (next s ≡ ok (some id, t)) × Grant s id t
next-some s v h = by_found (next s) refl (next-Found s v)
  where
    by_found :
        (r : Outcome (Option ℕ × Ids))
        → next s ≡ r
        → Found max_thread_num max_thread_num s r
        → (id : ℕ) × (t : Ids) × (next s ≡ ok (some id, t)) × Grant s id t
    by_found r h' (exhausted all e) =
        let same = next-none_same s _ v (h' ∙ e) in
        let every = (next-none_iff s v).0 (h' ∙ e ∙ ap (λ t. ok (none, t)) same) in
        absurd (
          omega (arith, v.size, used-all s.thread_id_used (λ i b. every i (omega (arith, v.size)))))
    by_found r h' (granted k b before unused e) = (_, _, h' ∙ e, next-Grant s _ _ v (h' ∙ e))

pub unused : used initial.thread_id_used ≡ 0
unfolding initial
unused = used-none max_thread_num
