-- ===== src/Service/ThreadId/Alloc.antt =====
-- What `next` returns, going round from `NEXT_THREAD_ID`.
use native.Mathlib.Nat.{add-zero, mod-add-mod, mod-eq_of_lt}
use omni_stack_rust.Base.{
  ℕ, zero, suc, ◌+◌, ◌-◌, ◌%◌, ◌≤◌, ◌<◌, ◌≡◌, sym, ap, ◌∙◌, ◌↔◌, Bool, true, false, Option, none,
  some, Outcome, ok, get_elem?, set, length, length-set, get_elem?_lt, arith, length-replicate,
  subst,
}
use omni_stack_rust.Base.Word.{u32_mod}
use omni_stack_rust.Service.ThreadId.{Ids, max_thread_num, initial, next_from, next, free}

pub record IsValid (max : ℕ) (s : Ids) : Type 0 where
  pub in_range : s.next_thread_id < max
  pub size : length s.thread_id_used ≡ max

-- The place that `next` looks at after `k` rounds.
abbrev pub place : ℕ → Ids → ℕ → ℕ
place max s k = (s.next_thread_id + k) % max

abbrev pub UsedAt : ℕ → Ids → ℕ → Type 0
UsedAt max s k = get_elem? s.thread_id_used (place max s k) ≡ some true

-- What the loop has done, when `n` rounds were allowed.
pub data Found (max n : ℕ) (s : Ids) (r : Outcome (Option ℕ × Ids)) : Type 0 where
  exhausted :
      ((k : ℕ) → k < n → UsedAt max s k)
      → r ≡ ok (none, record s { next_thread_id = place max s n })
      → Found max n s r
  granted :
      (k : ℕ)
      → k < n
      → ((j : ℕ) → j < k → UsedAt max s j)
      → get_elem? s.thread_id_used (place max s k) ≡ some false
      → r
        ≡ ok (
          some (place max s k),
          record {
            next_thread_id = (place max s k + 1) % max;
            thread_id_used = set s.thread_id_used (place max s k) true;
          },
        )
      → Found max n s r

abbrev advance : ℕ → Ids → Ids
advance max s = record s { next_thread_id = (s.next_thread_id + 1) % max }

advance-IsValid : (max : ℕ) (s : Ids) → IsValid max s → IsValid max (advance max s)
advance-IsValid max s v = record { in_range = omega (arith, v.in_range); size = v.size }

place-advance : (max : ℕ) (s : Ids) (k : ℕ) → place max (advance max s) k ≡ place max s (suc k)
place-advance max s k = rw mod-add-mod (ap (λ (t : ℕ). t % max) (omega arith))

place-zero : (max : ℕ) (s : Ids) → IsValid max s → place max s 0 ≡ s.next_thread_id
place-zero max s v = rw add-zero (mod-eq_of_lt v.in_range)

module _ (max : ℕ) (small : max ≤ u32_mod) where
  -- One more round before what the rest of the loop does.
  Found-skip :
      (n : ℕ) (s : Ids) (r : Outcome (Option ℕ × Ids))
      → UsedAt max s 0
      → Found max n (advance max s) r
      → Found max (suc n) s r
  Found-skip n s r first (exhausted all e) =
      exhausted all'
        (e ∙ ap (λ p. ok (none, record s { next_thread_id = p })) (place-advance max s n))
    where
      all' : (k : ℕ) → k < suc n → UsedAt max s k
      all' zero h = first
      all' (suc k) h =
          subst (λ p. get_elem? s.thread_id_used p ≡ some true) (place-advance max s k)
            (all k (omega arith))
  Found-skip n s r first (granted k below before unused e) =
      granted (suc k) (omega arith) before'
        (subst (λ p. get_elem? s.thread_id_used p ≡ some false) here unused) (e ∙ ap after here)
    where
      here : place max (advance max s) k ≡ place max s (suc k)
      here = place-advance max s k

      after : ℕ → Outcome (Option ℕ × Ids)
      after p = ok (
        some p,
        record { next_thread_id = (p + 1) % max; thread_id_used = set s.thread_id_used p true },
      )

      before' : (j : ℕ) → j < suc k → UsedAt max s j
      before' zero h = first
      before' (suc j) h =
          subst (λ p. get_elem? s.thread_id_used p ≡ some true) (place-advance max s j)
            (before j (omega arith))

  record_at : Ids → ℕ → Outcome (Option ℕ × Ids)
  record_at s p = ok (
    some p,
    record { next_thread_id = (p + 1) % max; thread_id_used = set s.thread_id_used p true },
  )

  Found-first :
      (n : ℕ) (s : Ids)
      → IsValid max s
      → get_elem? s.thread_id_used s.next_thread_id ≡ some false
      → Found max (suc n) s (record_at s s.next_thread_id)
  unfolding record_at
  Found-first n s v e =
      granted zero (omega arith) (λ j h. elim h [ ]) (rw (place-zero max s v) e)
        (ap (record_at s) (sym (place-zero max s v)))

  cast_id : (s : Ids) → IsValid max s → s.next_thread_id % u32_mod ≡ s.next_thread_id
  cast_id s v = mod-eq_of_lt (omega (arith, v.in_range))

  next_from-Found : (n : ℕ) (s : Ids) → IsValid max s → Found max n s (next_from max n s)
  unfolding next_from record_at
  next_from-Found zero s v =
      exhausted (λ k h. elim h [ ])
        (ap (λ p. ok (none, record s { next_thread_id = p })) (sym (place-zero max s v)))
  next_from-Found (suc n) s v =
      let (b, e) =
        get_elem?_lt s.thread_id_used s.next_thread_id (omega (arith, v.in_range, v.size)) in
      by_use b e (next_from-Found n (advance max s) (advance-IsValid max s v))
    where
      by_use :
          (b : Bool)
          → get_elem? s.thread_id_used s.next_thread_id ≡ some b
          → Found max n (advance max s) (next_from max n (advance max s))
          → Found max (suc n) s (next_from max (suc n) s)
      by_use true e ih = rw e (Found-skip n s _ (rw (place-zero max s v) e) ih)
      by_use false e ih = rw (e, cast_id s v) (Found-first n s v e)

-- From a valid table `next` returns, and either every one of the 2048 places is in use, the answer
-- is `None` and the state is as it was, or the answer is the first place not in use, counted round
-- the table from `NEXT_THREAD_ID`; that place alone becomes used and the search goes on behind it.
pub next-Found :
    (s : Ids) → IsValid max_thread_num s → Found max_thread_num max_thread_num s (next s)
unfolding next
next-Found s v = next_from-Found max_thread_num (omega arith) max_thread_num s v

abbrev pub AllUsed : Ids → Type 0
AllUsed s = (i : ℕ) → i < max_thread_num → get_elem? s.thread_id_used i ≡ some true

pub place_back :
    (s : Ids)
    → IsValid max_thread_num s
    → (i : ℕ) → i < max_thread_num
    → place max_thread_num s ((i + max_thread_num - s.next_thread_id) % max_thread_num) ≡ i
place_back s v i h = omega (arith, v.in_range)

place_round :
    (s : Ids) → IsValid max_thread_num s → place max_thread_num s max_thread_num ≡ s.next_thread_id
place_round s v = omega (arith, v.in_range)

-- `next` answers `None` exactly when all ids are in use, and then leaves the state as it was.
pub next-none_iff : (s : Ids) → IsValid max_thread_num s → (next s ≡ ok (none, s)) ↔ AllUsed s
next-none_iff s v = by_found (next s) (next-Found s v)
  where
    by_found :
        (r : Outcome (Option ℕ × Ids))
        → Found max_thread_num max_thread_num s r
        → (r ≡ ok (none, s)) ↔ AllUsed s
    by_found r (exhausted all e) = (
      λ _ i h.
          subst (λ p. get_elem? s.thread_id_used p ≡ some true) (place_back s v i h)
            (all _ (omega arith)),
      λ _. e ∙ ap (λ p. ok (none, record s { next_thread_id = p })) (place_round s v),
    )
    by_found r (granted k h before unused e) =
        (λ p. cc, λ all. absurd (cc (all (place max_thread_num s k) (omega (arith, v.in_range)))))

-- What a granted id is: in range, unused before, used after, every other place as before.
pub record Grant (s : Ids) (id : ℕ) (t : Ids) : Type 0 where
  pub below : id < max_thread_num
  pub fresh : get_elem? s.thread_id_used id ≡ some false
  pub table : t.thread_id_used ≡ set s.thread_id_used id true
  pub valid : IsValid max_thread_num t

pub next-Grant :
    (s t : Ids) (id : ℕ) → IsValid max_thread_num s → next s ≡ ok (some id, t) → Grant s id t
next-Grant s t id v h = by_found (next s) h (next-Found s v)
  where
    by_found :
        (r : Outcome (Option ℕ × Ids))
        → r ≡ ok (some id, t)
        → Found max_thread_num max_thread_num s r
        → Grant s id t
    by_found r h (exhausted all e) = cc
    by_found r h (granted k b before unused e) =
        ground (arith, length-set s.thread_id_used (place max_thread_num s k) true)

pub next-none_same : (s t : Ids) → IsValid max_thread_num s → next s ≡ ok (none, t) → t ≡ s
next-none_same s t v h = by_found (next s) h (next-Found s v)
  where
    by_found :
        (r : Outcome (Option ℕ × Ids))
        → r ≡ ok (none, t)
        → Found max_thread_num max_thread_num s r
        → t ≡ s
    by_found r h (exhausted all e) = ground (arith, place_round s v)
    by_found r h (granted k b before unused e) = cc

pub initial-IsValid : IsValid max_thread_num initial
unfolding initial
initial-IsValid = record { in_range = omega arith; size = length-replicate max_thread_num false }

pub free-IsValid : (max id : ℕ) (s t : Ids) → IsValid max s → free id s ≡ ok t → IsValid max t
unfolding free
free-IsValid max id s t v h = ground (arith, length-set s.thread_id_used id false)
