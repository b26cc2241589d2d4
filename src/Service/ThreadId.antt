-- ===== src/Service/ThreadId.antt =====
-- omnistack-core/src/service.rs, `ThreadId::next` and `ThreadId::free` over the two statics
-- `NEXT_THREAD_ID` and `THREAD_ID_USED`.
pub mod Alloc
pub mod Held
pub mod Room
mod Tests
use omni_stack_rust.Base.{
  ℕ, zero, suc, ◌+◌, ◌%◌, ◌≡◌, Bool, true, false, Option, none, some, List, Outcome, ok, panic,
  ◌>>=◌, or_panic, get_elem?, set, ltb, length, replicate, if◌then◌else◌,
}
use omni_stack_rust.Base.Word.{u32_mod}

abbrev pub max_thread_num : ℕ
max_thread_num = 2048

pub record Ids : Type 0 where
  pub next_thread_id : ℕ
  pub thread_id_used : List Bool

unfoldable pub initial : Ids
initial = record { next_thread_id = 0; thread_id_used = replicate max_thread_num false }

-- The loop of `next` with `rounds` left; the table has `max` places.
unfoldable pub next_from : ℕ → ℕ → Ids → Outcome (Option ℕ × Ids)
next_from max zero s = ok (none, s)
next_from max (suc rounds) s =
    let skip = next_from max rounds (record s { next_thread_id = (s.next_thread_id + 1) % max }) in
    do
      used ← or_panic (get_elem? s.thread_id_used s.next_thread_id)
      if used
          then skip
          else ok (
            some (s.next_thread_id % u32_mod),
            record {
              next_thread_id = (s.next_thread_id + 1) % max;
              thread_id_used = set s.thread_id_used s.next_thread_id true;
            },
          )

unfoldable pub next : Ids → Outcome (Option ℕ × Ids)
unfolding next_from
next s = next_from max_thread_num max_thread_num s

-- The index is checked: an id out of range panics.
unfoldable pub free : ℕ → Ids → Outcome Ids
free id s =
    if ltb id (length s.thread_id_used)
    then ok (record s { thread_id_used = set s.thread_id_used id false })
    else panic
