-- ===== src/Service/Server/Tests.antt =====
-- service.rs, `Server::run`: runs on small inputs.
use omni_stack_rust.Base.{Option, some, none, List, [], ◌∷◌, arith, true}
use omni_stack_rust.Service.ThreadId.{initial}
use omni_stack_rust.Service.ThreadId.Alloc.{initial-IsValid}
use omni_stack_rust.Service.Server.{
  Event, listener, stream, message, written, write_error, would_block, Server, thread_enter,
  thread_exit, respond, run,
}
use omni_stack_rust.Service.Server.Laws.{Answered, Sound, respond-Answered, run-Sound}

respond-Answered_example :
    Answered initial (some (thread_exit 5)) (respond (some (thread_exit 5)) initial)
respond-Answered_example =
    respond-Answered (some (thread_exit 5)) initial initial-IsValid (omega arith)

abbrev started : Server
started = record { ids = initial; watched = []; answers = [] }

-- A client enters, another sends no request, a third leaves and cannot be answered.
abbrev two_rounds : List (Option (List Event))
two_rounds =
    some (listener ((4, true) ∷ []) ∷ stream 4 (message (some thread_enter)) written true ∷ [])
    ∷ some (
        stream 4 (message none) written true
        ∷ stream 5 (message (some (thread_exit 0))) (write_error would_block) true
        ∷ [])
    ∷ []

run-Sound_example : Sound (run two_rounds started)
run-Sound_example =
    run-Sound two_rounds started initial-IsValid ((tt, (tt, tt)), ((tt, (omega arith, tt)), tt))
