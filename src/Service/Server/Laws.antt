-- ===== src/Service/Server/Laws.antt =====
-- The server's replies, its panics, and the id table it keeps.
use omni_stack_rust.Base.{
  ℕ, ◌<◌, ◌≤◌, ◌≡◌, refl, sym, ◌∙◌, ap, subst, ◌≢◌, Bool, true, false, Option, none, some, List, [],
  ◌∷◌, Outcome, ok, panic, ◌>>=◌, length, set, length-set, All, arith, lt→ltb,
}
use omni_stack_rust.Service.ThreadId.{Ids, max_thread_num, next, free}
use omni_stack_rust.Service.ThreadId.Alloc.{
  IsValid, Found, exhausted, granted, next-Found, next-Grant, next-none_same,
}
use omni_stack_rust.Service.Server.{
  Request, thread_enter, thread_exit, fd_create, fd_close, Response, done, failed, nothing, entered,
  invalid_request, unknown, respond, Event, listener, stream, message, read_error, Server, Turn,
  running, stopped, IoErrorKind, Sent, written, write_error, give_up, after_write, answered,
  and_then, handle, handle_all, run, accept_all,
}

-- A request that does not index out of the table.
abbrev pub InRange : Option Request → Type 0
InRange none = Unit
InRange (some thread_enter) = Unit
InRange (some (thread_exit id)) = id < max_thread_num
InRange (some (fd_create addr)) = Unit
InRange (some (fd_close fd)) = Unit

-- What a client may be told, and what becomes of the table.
pub data Answered (s : Ids) : Option Request → Outcome (Response × Ids) → Type 0 where
  let_in :
      (id : ℕ) (t : Ids) (r : Outcome (Response × Ids))
      → next s ≡ ok (some id, t)
      → r ≡ ok (done (entered id), t)
      → Answered s (some thread_enter) r
  full :
      (r : Outcome (Response × Ids))
      → next s ≡ ok (none, s)
      → r ≡ ok (failed unknown, s)
      → Answered s (some thread_enter) r
  let_out :
      (id : ℕ) (t : Ids) (r : Outcome (Response × Ids))
      → t.next_thread_id ≡ s.next_thread_id
      → t.thread_id_used ≡ set s.thread_id_used id false
      → r ≡ ok (done nothing, t)
      → Answered s (some (thread_exit id)) r
  refused :
      (q : Option Request) (r : Outcome (Response × Ids))
      → q ≢ some thread_enter
      → ((id : ℕ) → q ≢ some (thread_exit id))
      → r ≡ ok (failed invalid_request, s)
      → Answered s q r

enter-Answered :
    (s : Ids)
    → IsValid max_thread_num s
    → Answered s (some thread_enter) (respond (some thread_enter) s)
unfolding respond
enter-Answered s v = by_found (next s) refl (next-Found s v)
  where
    by_found :
        (r : Outcome (Option ℕ × Ids))
        → next s ≡ r
        → Found max_thread_num max_thread_num s r
        → Answered s (some thread_enter) (respond (some thread_enter) s)
    by_found r h (exhausted all e) =
        let same = next-none_same s _ v (h ∙ e) in
        let back : next s ≡ ok (none, s) = h ∙ (e ∙ ap (λ t. ok (none, t)) same) in
        rw back (full _ back refl)
    by_found r h (granted k b before unused e) = rw (h ∙ e) (let_in _ _ _ (h ∙ e) refl)

-- An entering thread is told the id that `next` grants.
pub respond-enter :
    (s t : Ids) (id : ℕ)
    → next s ≡ ok (some id, t)
    → respond (some thread_enter) s ≡ ok (done (entered id), t)
unfolding respond
respond-enter s t id h = rw h refl

-- Every message gets the answer that its kind is due: an entering thread the id that `next` grants, or
-- `Unknown` with nothing changed when `next` grants none; an exit frees its id and moves no other;
-- anything else, a text that is no request among it, `InvalidRequest` with nothing changed.
pub respond-Answered :
    (q : Option Request) (s : Ids)
    → IsValid max_thread_num s
    → InRange q
    → Answered s q (respond q s)
unfolding respond free
respond-Answered (some thread_enter) s v h = enter-Answered s v
respond-Answered (some (thread_exit id)) s v h =
    rw (lt→ltb id (length s.thread_id_used) (omega (arith, v.size)))
      (let_out id (record s { thread_id_used = set s.thread_id_used id false }) _ refl refl refl)
respond-Answered (some (fd_create addr)) s v h = refused _ _ (λ e. cc) (λ id e. cc) refl
respond-Answered (some (fd_close fd)) s v h = refused _ _ (λ e. cc) (λ id e. cc) refl
respond-Answered none s v h = refused _ _ (λ e. cc) (λ id e. cc) refl

-- The id table that an answer leaves is valid.
respond-IsValid :
    (q : Option Request) (s : Ids)
    → IsValid max_thread_num s
    → InRange q
    → (res : Response) × (t : Ids) × (respond q s ≡ ok (res, t)) × IsValid max_thread_num t
respond-IsValid q s v h = by_answer q (respond q s) (respond-Answered q s v h)
  where
    by_answer :
        (q : Option Request) (r : Outcome (Response × Ids))
        → Answered s q r
        → (res : Response) × (t : Ids) × (r ≡ ok (res, t)) × IsValid max_thread_num t
    by_answer _ r (let_in id t _ g e) = (_, t, e, (next-Grant s t id v g).valid)
    by_answer _ r (full _ g e) = (_, s, e, v)
    by_answer _ r (let_out id t _ a b e) = (
      _,
      t,
      e,
      record {
        in_range = omega (arith, a, v.in_range);
        size = ap length b ∙ (length-set s.thread_id_used id false ∙ v.size);
      },
    )
    by_answer _ r (refused q _ a b e) = (_, s, e, v)

abbrev pub server_of : Turn → Server
server_of (running s) = s
server_of (stopped s) = s

-- The code came to an end without a panic, and the id table is valid.
abbrev pub Sound : Outcome Turn → Type 0
Sound r = (t : Turn) × (r ≡ ok t) × IsValid max_thread_num (server_of t).ids

abbrev pub EventInRange : Event → Type 0
EventInRange (stream fd (message q) sent deregistered) = InRange q
EventInRange (stream fd (read_error kind) sent deregistered) = Unit
EventInRange (listener accepted) = Unit

abbrev pub RoundInRange : Option (List Event) → Type 0
RoundInRange none = Unit
RoundInRange (some events) = All EventInRange events

accept_all-ids :
    (accepted : List (ℕ × Bool)) (s : Server) → (server_of (accept_all accepted s)).ids ≡ s.ids
unfolding accept_all
accept_all-ids [] s = refl
accept_all-ids ((fd, true) ∷ rest) s = accept_all-ids rest _
accept_all-ids ((fd, false) ∷ rest) s = refl

give_up-ids :
    (fd : ℕ) (kind : IoErrorKind) (d : Bool) (s : Server)
    → (server_of (give_up fd kind d s)).ids ≡ s.ids
unfolding give_up
give_up-ids fd kind d s = ground arith

after_write-ids :
    (fd : ℕ) (sent : Sent) (d : Bool) (s : Server)
    → (server_of (after_write fd sent d s)).ids ≡ s.ids
unfolding after_write
after_write-ids fd written d s = refl
after_write-ids fd (write_error kind) d s = give_up-ids fd kind d s

handle-Sound :
    (e : Event) (s : Server) → IsValid max_thread_num s.ids → EventInRange e → Sound (handle e s)
unfolding handle answered
handle-Sound (listener accepted) s v h =
    (_, refl, subst (IsValid max_thread_num) (sym (accept_all-ids accepted s)) v)
handle-Sound (stream fd (read_error kind) sent d) s v h =
    (_, refl, subst (IsValid max_thread_num) (sym (give_up-ids fd kind d s)) v)
handle-Sound (stream fd (message q) sent d) s v h =
    let (res, t, e, w) = respond-IsValid q s.ids v h in
    rw e (_, refl, subst (IsValid max_thread_num) (sym (after_write-ids fd sent d _)) w)

then-Sound :
    (m : Outcome Turn) (f : Server → Outcome Turn)
    → Sound m
    → ((s : Server) → IsValid max_thread_num s.ids → Sound (f s))
    → Sound (m >>= and_then f)
then-Sound m f (running s, e, v) k = rw e (k s v)
then-Sound m f (stopped s, e, v) k = rw e (stopped s, refl, v)

handle_all-Sound :
    (events : List Event) (s : Server)
    → IsValid max_thread_num s.ids
    → All EventInRange events
    → Sound (handle_all events s)
unfolding handle_all
handle_all-Sound [] s v h = (running s, refl, v)
handle_all-Sound (e ∷ events) s v h =
    then-Sound (handle e s) (handle_all events) (handle-Sound e s v h.0)
      (λ t w. handle_all-Sound events t w h.1)

-- Whatever events come, in whatever order and with whatever IO errors, the server's loop comes to an
-- end without a panic and leaves the id table valid, provided no message asks to free an id that is
-- out of range.
pub run-Sound :
    (rounds : List (Option (List Event))) (s : Server)
    → IsValid max_thread_num s.ids
    → All RoundInRange rounds
    → Sound (run rounds s)
unfolding run
run-Sound [] s v h = (running s, refl, v)
run-Sound (none ∷ rounds) s v h = (stopped s, refl, v)
run-Sound (some events ∷ rounds) s v h =
    then-Sound (handle_all events s) (run rounds) (handle_all-Sound events s v h.0)
      (λ t w. run-Sound rounds t w h.1)

-- A message that asks to free an id past the table's end panics the server, in any valid state.
pub respond-panics :
    (id : ℕ) (s : Ids)
    → IsValid max_thread_num s
    → max_thread_num ≤ id
    → respond (some (thread_exit id)) s ≡ panic
unfolding respond free
respond-panics id s v h = ground (arith, v.size)
