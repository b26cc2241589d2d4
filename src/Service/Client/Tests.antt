-- ===== src/Service/Client/Tests.antt =====
-- service.rs, `send_request`: runs on small inputs.
use omni_stack_rust.Base.{ℕ, zero, suc, ◌≡◌, true, some, ◌↔◌}
use omni_stack_rust.Error.{value}
use omni_stack_rust.Service.Server.{done, entered, written, write_error, would_block}
use omni_stack_rust.Service.Client.{Attempt, got, max_retries, send_request}
use omni_stack_rust.Service.Client.Laws.{RepliedWithin, send_request-value_iff}

-- The first write would block; the second attempt is answered.
abbrev second_time : ℕ → Attempt
second_time zero = record {
  encodes = true;
  sent = write_error would_block;
  reply = got (some (done (entered 1)));
}
second_time (suc i) = record {
  encodes = true;
  sent = written;
  reply = got (some (done (entered 1)));
}

send_request-value_iff_example :
    (send_request true true true second_time ≡ value (done (entered 1)))
    ↔ RepliedWithin second_time (done (entered 1)) max_retries 0
send_request-value_iff_example = send_request-value_iff second_time (done (entered 1))
