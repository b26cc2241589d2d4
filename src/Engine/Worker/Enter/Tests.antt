-- ===== src/Engine/Worker/Enter/Tests.antt =====
-- engine.rs: two workers of one socket.
use omni_stack_rust.Base.{ℕ, true, ◌+◌, some, List, [], ◌∷◌}
use omni_stack_rust.Engine.Start.{Worker}
use omni_stack_rust.Engine.Worker.Enter.{Socket}

abbrev socket : Socket
socket = record { socket_id = 1; reserved = true; mp = some 7 }

abbrev worker : ℕ → Worker ℕ
worker id = record { id = id; graph_id = 0; cpu = 12 + id; stack_name = "UDP"; nodes = [] }

abbrev two : List (Worker ℕ × ℕ)
two = (worker 0, 100) ∷ (worker 1, 200) ∷ []
