-- ===== src/Service/Client.antt =====
-- omnistack-core/src/service.rs, `send_request`. What the socket and serde_json return is the input:
-- whether `connect` and the two timeouts succeed, and what each attempt meets.
pub mod Laws
mod Tests
use omni_stack_rust.Base.{ℕ, zero, suc, ◌+◌, Bool, Option, none, some, if◌then◌else◌}
use omni_stack_rust.Error.{Error, io_error, json_parse_error, service_error, Result, value, error}
use omni_stack_rust.Service.Server
use omni_stack_rust.Service.Server.{
  Response, ServiceError, IoErrorKind, Sent, written, write_error, is_transient,
}

-- What `read` and then `from_slice` give: the response, or a text that is none, or an error.
pub data Reply : Type 0 where
  got : Option Response → Reply
  read_error : IoErrorKind → Reply

pub record Attempt : Type 0 where
  pub encodes : Bool
  pub sent : Sent
  pub reply : Reply

abbrev pub max_retries : ℕ
max_retries = 5

gone : Result Response
gone = error (service_error ServiceError.io_error)

retry_or_gone : IoErrorKind → Result Response → Result Response
unfolding gone is_transient
retry_or_gone kind retry = if is_transient kind then retry else gone

after_read : Reply → Result Response → Result Response
unfolding retry_or_gone
after_read (got none) retry = error json_parse_error
after_read (got (some r)) retry = value r
after_read (read_error kind) retry = retry_or_gone kind retry

after_write : Sent → Reply → Result Response → Result Response
unfolding after_read
after_write written reply retry = after_read reply retry
after_write (write_error kind) reply retry = retry_or_gone kind retry

-- The loop with `rounds` left, at attempt `i`.
unfoldable pub attempts_from : ℕ → ℕ → (ℕ → Attempt) → Result Response
unfolding after_write gone
attempts_from zero i attempt = gone
attempts_from (suc rounds) i attempt =
    let retry = attempts_from rounds (i + 1) attempt in
    if (attempt i).encodes
    then after_write (attempt i).sent (attempt i).reply retry
    else error json_parse_error

unfoldable pub send_request : Bool → Bool → Bool → (ℕ → Attempt) → Result Response
unfolding attempts_from
send_request connected read_timeout_set write_timeout_set attempt =
    if connected
    then if read_timeout_set
      then if write_timeout_set then attempts_from max_retries 0 attempt else error io_error
      else error io_error
    else error io_error
