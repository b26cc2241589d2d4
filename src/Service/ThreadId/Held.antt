-- ===== src/Service/ThreadId/Held.antt =====
-- The ids that threads hold, through any order of entries and exits. A thread gives back only an id
-- that it holds, as the server's clients do.
use mathlib.Core.Path.{subst₂}
use omni_stack_rust.Base.{
  ℕ, ◌≡◌, ◌≢◌, ◌∙◌, sym, ap, subst, true, false, none, some, List, [], ◌∷◌, ◌++◌, ok, get_elem?,
  get_elem?-set_self, get_elem?-set_ne, set, All, arith,
}
use omni_stack_rust.Service.ThreadId.{Ids, max_thread_num, initial, next, free}
use omni_stack_rust.Service.ThreadId.Alloc.{
  IsValid, Grant, next-Grant, next-none_same, initial-IsValid, free-IsValid,
}

pub record Threads : Type 0 where
  pub ids : Ids
  pub held : List ℕ

abbrev pub Distinct : List ℕ → Type 0
Distinct [] = Unit
Distinct (x ∷ xs) = All (λ y. x ≢ y) xs × Distinct xs

-- A thread enters, is refused, or leaves.
pub data Step (s : Threads) (t : Threads) : Type 0 where
  enter : (id : ℕ) → next s.ids ≡ ok (some id, t.ids) → t.held ≡ id ∷ s.held → Step s t
  refuse : next s.ids ≡ ok (none, t.ids) → t.held ≡ s.held → Step s t
  leave :
      (id : ℕ) (before after : List ℕ)
      → s.held ≡ before ++ id ∷ after
      → free id s.ids ≡ ok t.ids
      → t.held ≡ before ++ after
      → Step s t

pub data Reach (s : Threads) : Threads → Type 0 where
  here : Reach s s
  next_step : {t u : Threads} → Reach s t → Step t u → Reach s u

abbrev pub UsedId : Ids → ℕ → Type 0
UsedId s id = get_elem? s.thread_id_used id ≡ some true

pub record Inv (s : Threads) : Type 0 where
  pub valid : IsValid max_thread_num s.ids
  pub distinct : Distinct s.held
  pub used : All (UsedId s.ids) s.held

-- A used id stays used when an unused one is granted, and differs from it.
All-Grant :
    (s t : Ids) (id : ℕ) (xs : List ℕ)
    → Grant s id t
    → All (UsedId s) xs
    → All (UsedId t) xs × All (λ y. id ≢ y) xs
All-Grant s t id [] g u = (tt, tt)
All-Grant s t id (x ∷ xs) g (u, us) =
    let (later, apart) = All-Grant s t id xs g us in ((kept, later), (ne, apart))
  where
    ne : id ≢ x
    ne p = cc (g.fresh, u, ap (get_elem? s.thread_id_used) p)

    kept : UsedId t x
    kept = ap (λ l. get_elem? l x) g.table ∙ (get_elem?-set_ne s.thread_id_used id x true ne ∙ u)

All-freed :
    (s : Ids) (id : ℕ) (xs : List ℕ)
    → All (λ y. id ≢ y) xs
    → All (UsedId s) xs
    → All (λ y. get_elem? (set s.thread_id_used id false) y ≡ some true) xs
All-freed s id [] a u = tt
All-freed s id (x ∷ xs) a u =
    (get_elem?-set_ne s.thread_id_used id x false a.0 ∙ u.0, All-freed s id xs a.1 u.1)

All-remove {κ} :
    (P : ℕ → Type κ) (before after : List ℕ) (id : ℕ)
    → All P (before ++ id ∷ after)
    → All P (before ++ after)
All-remove P [] after id a = a.1
All-remove P (x ∷ before) after id a = (a.0, All-remove P before after id a.1)

All-at {κ} : (P : ℕ → Type κ) (before after : List ℕ) (id : ℕ) → All P (before ++ id ∷ after) → P id
All-at P [] after id a = a.0
All-at P (x ∷ before) after id a = All-at P before after id a.1

Distinct-remove :
    (before after : List ℕ) (id : ℕ)
    → Distinct (before ++ id ∷ after)
    → Distinct (before ++ after) × All (λ y. id ≢ y) (before ++ after)
Distinct-remove [] after id d = (d.1, d.0)
Distinct-remove (x ∷ before) after id (a, d) =
    let (rest, apart) = Distinct-remove before after id d in
    (
      (All-remove (λ y. x ≢ y) before after id a, rest),
      (λ p. All-at (λ y. x ≢ y) before after id a (sym p), apart),
    )

now_used : (s t : Ids) (id : ℕ) → IsValid max_thread_num s → Grant s id t → UsedId t id
now_used s t id v g =
    ap (λ l. get_elem? l id) g.table
    ∙ get_elem?-set_self s.thread_id_used id true (omega (arith, g.below, v.size))

free-table :
    (id : ℕ) (s t : Ids) → free id s ≡ ok t → t.thread_id_used ≡ set s.thread_id_used id false
unfolding free
free-table id s t e = ground arith

Step-Inv : (s t : Threads) → Step s t → Inv s → Inv t
Step-Inv s t (enter id e h) v =
    let g = next-Grant s.ids t.ids id v.valid e in
    let (later, apart) = All-Grant s.ids t.ids id s.held g v.used in
    record {
      valid = g.valid;
      distinct = subst Distinct (sym h) (apart, v.distinct);
      used = subst (All (UsedId t.ids)) (sym h) (now_used s.ids t.ids id v.valid g, later);
    }
Step-Inv s t (refuse e h) v =
    let same = next-none_same s.ids t.ids v.valid e in
    record {
      valid = subst (IsValid max_thread_num) (sym same) v.valid;
      distinct = subst Distinct (sym h) v.distinct;
      used = subst₂ (λ i l. All (UsedId i) l) (sym same) (sym h) v.used;
    }
Step-Inv s t (leave id before after h e k) v =
    let (rest, apart) = Distinct-remove before after id (subst Distinct h v.distinct) in
    let kept = All-remove (UsedId s.ids) before after id (subst (All (UsedId s.ids)) h v.used) in
    record {
      valid = free-IsValid max_thread_num id s.ids t.ids v.valid e;
      distinct = subst Distinct (sym k) rest;
      used =
          subst₂ (λ u l. All (λ y. get_elem? u y ≡ some true) l) (sym (free-table id s.ids t.ids e))
            (sym k) (All-freed s.ids id (before ++ after) apart kept);
    }

abbrev pub empty : Threads
empty = record { ids = initial; held = [] }

Reach-Inv : {s t : Threads} → Inv s → Reach s t → Inv t
Reach-Inv v here = v
Reach-Inv v (next_step r st) = Step-Inv _ _ st (Reach-Inv v r)

-- Whatever the order of entries, refusals and exits since the start, no two threads hold the same
-- id, and every id that is held is marked as used.
pub held-Distinct : (s : Threads) → Reach empty s → Distinct s.held × All (UsedId s.ids) s.held
held-Distinct s r =
    let v =
      Reach-Inv {s = empty} (record { valid = initial-IsValid; distinct = tt; used = tt }) r in
    (v.distinct, v.used)
