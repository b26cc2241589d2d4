-- ===== src/Service/Server.antt =====
-- omnistack-core/src/service.rs: the requests, the server's answer to one message, and its event
-- loop. The text of a message is read and written by serde_json, and the sockets are mio's: the
-- events and what the calls return are the input.
pub mod Laws
mod Tests
use omni_stack_rust.Base.{
  ℕ, ◌≡◌, Bool, true, false, Option, none, some, List, [], ◌∷◌, Outcome, ok, panic, ◌>>=◌, ◌==◌,
  if◌then◌else◌, not,
}
use omni_stack_rust.Service.ThreadId.{Ids, next, free}

pub record OwnedFd : Type 0 where
  pub fd : ℕ

-- A `SocketAddr` is only carried: any number stands for one.
pub data Request : Type 0 where
  thread_enter : Request
  thread_exit : ℕ → Request
  fd_create : ℕ → Request
  fd_close : OwnedFd → Request

pub data ResponseData : Type 0 where
  nothing : ResponseData
  entered : ℕ → ResponseData
  created : OwnedFd → ResponseData

pub data ServiceError : Type 0 where
  io_error invalid_request json_parse_error unknown : ServiceError

pub data Response : Type 0 where
  done : ResponseData → Response
  failed : ServiceError → Response

enter_response : Option ℕ → Response
enter_response none = failed unknown
enter_response (some id) = done (entered id)

-- The answer to one message; `none` is a text that is no request.
unfoldable pub respond : Option Request → Ids → Outcome (Response × Ids)
unfolding enter_response
respond (some thread_enter) s = do (id, s') ← next s; ok (enter_response id, s')
respond (some (thread_exit id)) s = do s' ← free id s; ok (done nothing, s')
respond (some (fd_create addr)) s = ok (failed invalid_request, s)
respond (some (fd_close fd)) s = ok (failed invalid_request, s)
respond none s = ok (failed invalid_request, s)

pub data IoErrorKind : Type 0 where
  would_block interrupted other_kind : IoErrorKind

unfoldable pub is_transient : IoErrorKind → Bool
is_transient would_block = true
is_transient interrupted = true
is_transient other_kind = false

-- What reading a message gave: what `serde_json::from_slice` made of the bytes, or an error.
pub data Received : Type 0 where
  message : Option Request → Received
  read_error : IoErrorKind → Received

pub data Sent : Type 0 where
  written : Sent
  write_error : IoErrorKind → Sent

-- An event of a poll, with what its system calls return. The listener's holds the descriptors that
-- `accept` gives until it fails, each with whether it could be registered. A stream's holds its
-- descriptor, the read, the write (if one is made) and whether it could be deregistered (if it is).
pub data Event : Type 0 where
  listener : List (ℕ × Bool) → Event
  stream : ℕ → Received → Sent → Bool → Event

-- The server: the id table, the descriptors that the poll watches, and the answers so far, newest
-- first, each with its descriptor.
pub record Server : Type 0 where
  pub ids : Ids
  pub watched : List ℕ
  pub answers : List (ℕ × Response)

-- An event leaves the loop running, or an IO error ends `run` through `?`.
pub data Turn : Type 0 where
  running : Server → Turn
  stopped : Server → Turn

unfoldable pub accept_all : List (ℕ × Bool) → Server → Turn
accept_all [] s = running s
accept_all ((fd, true) ∷ rest) s = accept_all rest (record s { watched = fd ∷ s.watched })
accept_all ((fd, false) ∷ rest) s = stopped s

unfoldable pub remove_fd : ℕ → List ℕ → List ℕ
remove_fd fd [] = []
remove_fd fd (x ∷ xs) = if x == fd then remove_fd fd xs else x ∷ remove_fd fd xs

-- `stream` was made by `from_raw_fd` and owns the descriptor: leaving the arm, by `continue` or at its
-- end, closes it, and a closed descriptor is no longer watched.
close : ℕ → Server → Server
close fd s = record s { watched = remove_fd fd s.watched }

-- After a failed read or write: deregister unless it was transient.
give_up : ℕ → IoErrorKind → Bool → Server → Turn
unfolding close is_transient
give_up fd kind deregistered s =
    if is_transient kind
    then running (close fd s)
    else if deregistered
    then running (close fd s)
    else stopped (close fd s)

after_write : ℕ → Sent → Bool → Server → Turn
unfolding close give_up
after_write fd written deregistered s = running (close fd s)
after_write fd (write_error kind) deregistered s = give_up fd kind deregistered s

answered : ℕ → Response → Ids → Server → Server
answered fd res ids s = record s { ids = ids; answers = (fd, res) ∷ s.answers }

unfoldable pub handle : Event → Server → Outcome Turn
unfolding accept_all give_up after_write answered close
handle (listener accepted) s = ok (accept_all accepted s)
handle (stream fd (read_error kind) sent deregistered) s = ok (give_up fd kind deregistered s)
handle (stream fd (message req) sent deregistered) s = do
  (res, ids) ← respond req s.ids
  ok (after_write fd sent deregistered (answered fd res ids s))

abbrev and_then : (Server → Outcome Turn) → Turn → Outcome Turn
and_then rest (running s) = rest s
and_then rest (stopped s) = ok (stopped s)

unfoldable pub handle_all : List Event → Server → Outcome Turn
unfolding handle
handle_all [] s = ok (running s)
handle_all (e ∷ events) s = handle e s >>= and_then (handle_all events)

-- `run` from the point where the socket is bound and listening. A round is one pass of the loop before
-- the stop flag is seen: the events of `poll`, or `none` where it fails and `?` ends the loop.
unfoldable pub run : List (Option (List Event)) → Server → Outcome Turn
unfolding handle_all
run [] s = ok (running s)
run (none ∷ rounds) s = ok (stopped s)
run (some events ∷ rounds) s = handle_all events s >>= and_then (run rounds)
