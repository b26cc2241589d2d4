-- ===== src/Service/ThreadId/Tests.antt =====
-- service.rs, `ThreadId`: runs on small inputs.
use omni_stack_rust.Base.{◌≡◌, refl, ok, some, [], ◌∷◌, All, set, true}
use omni_stack_rust.Service.ThreadId.{Ids, max_thread_num, initial, next, next_from}
use omni_stack_rust.Service.ThreadId.Alloc.{Found, next-Found, initial-IsValid}
use omni_stack_rust.Service.ThreadId.Held.{
  Threads, enter, here, next_step, Distinct, UsedId, held-Distinct,
}

next-Found_example : Found max_thread_num max_thread_num initial (next initial)
next-Found_example = next-Found initial initial-IsValid

-- The table after one thread has entered.
abbrev one_id : Ids
one_id = record { next_thread_id = 1; thread_id_used = set initial.thread_id_used 0 true }

one_entered : next initial ≡ ok (some 0, one_id)
unfolding next next_from initial
one_entered = refl

abbrev one_thread : Threads
one_thread = record { ids = one_id; held = 0 ∷ [] }

held-Distinct_example : Distinct one_thread.held × All (UsedId one_thread.ids) one_thread.held
held-Distinct_example = held-Distinct one_thread (next_step here (enter 0 one_entered refl))
