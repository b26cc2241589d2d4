-- ===== src/Service/Client/Laws.antt =====
-- The client's `send_request`: its tries and the replies to them.
use native.Mathlib.Nat.{add-zero}
use omni_stack_rust.Base.{
  ℕ, zero, suc, ◌+◌, ◌<◌, ◌≡◌, refl, ◌∙◌, subst, ◌⊎◌, inl, inr, ◌↔◌, Bool, true, false, none, some,
  if◌then◌else◌, arith,
}
use omni_stack_rust.Error.{io_error, json_parse_error, service_error, Result, value, error}
use omni_stack_rust.Service.Server.{
  Response, ServiceError, Sent, IoErrorKind, would_block, interrupted, other_kind, written,
  write_error, is_transient,
}
use omni_stack_rust.Service.Client.{
  Attempt, Reply, got, read_error, max_retries, attempts_from, after_write, send_request,
}

-- The attempt was written and a response was read.
pub record Replied (a : Attempt) (r : Response) : Type 0 where
  pub encoded : a.encodes ≡ true
  pub wrote : a.sent ≡ written
  pub read : a.reply ≡ got (some r)

-- The attempt failed in a way that is tried again: a write or a read would have blocked or was
-- interrupted.
pub data Transient (a : Attempt) : Type 0 where
  write_later :
      (kind : IoErrorKind)
      → a.encodes ≡ true
      → a.sent ≡ write_error kind
      → is_transient kind ≡ true
      → Transient a
  read_later :
      (kind : IoErrorKind)
      → a.encodes ≡ true
      → a.sent ≡ written
      → a.reply ≡ read_error kind
      → is_transient kind ≡ true
      → Transient a

-- From attempt `i` on, one of the next `rounds` is replied to and those before it fail transiently.
pub data RepliedWithin (attempt : ℕ → Attempt) (r : Response) : ℕ → ℕ → Type 0 where
  at_once : {rounds i : ℕ} → Replied (attempt i) r → RepliedWithin attempt r (suc rounds) i
  later :
      {rounds i : ℕ}
      → Transient (attempt i)
      → RepliedWithin attempt r rounds (i + 1)
      → RepliedWithin attempt r (suc rounds) i

skip-Transient :
    (rounds i : ℕ) (attempt : ℕ → Attempt)
    → Transient (attempt i)
    → attempts_from (suc rounds) i attempt ≡ attempts_from rounds (i + 1) attempt
unfolding attempts_from
skip-Transient rounds i attempt (write_later kind a b c) = ground arith
skip-Transient rounds i attempt (read_later kind a b c d) = ground arith

take_reply :
    (rounds i : ℕ) (attempt : ℕ → Attempt) (r : Response)
    → Replied (attempt i) r
    → attempts_from (suc rounds) i attempt ≡ value r
unfolding attempts_from
take_reply rounds i attempt r h = ground arith

abbrev made_of : Bool → Sent → Reply → Attempt
made_of b w p = record { encodes = b; sent = w; reply = p }

-- A value is this attempt's response, or this attempt was transient and the retry gave it.
value_split :
    (b : Bool) (w : Sent) (p : Reply) (retry : Result Response) (r : Response)
    → (if b then after_write w p retry else error json_parse_error) ≡ value r
    → Replied (made_of b w p) r ⊎ (Transient (made_of b w p) × (retry ≡ value r))
unfolding after_write
value_split false w p retry r h = absurd (cc)
value_split true written (got none) retry r h = absurd (cc)
value_split true written (got (some q)) retry r h = inl (ground arith)
value_split true written (read_error would_block) retry r h =
    inr (read_later would_block refl refl refl refl, h)
value_split true written (read_error interrupted) retry r h =
    inr (read_later interrupted refl refl refl refl, h)
value_split true written (read_error other_kind) retry r h = absurd (cc)
value_split true (write_error would_block) p retry r h =
    inr (write_later would_block refl refl refl, h)
value_split true (write_error interrupted) p retry r h =
    inr (write_later interrupted refl refl refl, h)
value_split true (write_error other_kind) p retry r h = absurd (cc)

value_from :
    (rounds i : ℕ) (attempt : ℕ → Attempt) (r : Response)
    → attempts_from rounds i attempt ≡ value r
    → RepliedWithin attempt r rounds i
unfolding attempts_from
value_from zero i attempt r h = absurd (cc)
value_from (suc rounds) i attempt r h =
    by_split (value_split a.encodes a.sent a.reply _ r h) (value_from rounds (i + 1) attempt r)
  where
    a : Attempt
    a = attempt i

    by_split :
        Replied a r ⊎ (Transient a × (attempts_from rounds (i + 1) attempt ≡ value r))
        → (attempts_from rounds (i + 1) attempt ≡ value r → RepliedWithin attempt r rounds (i + 1))
        → RepliedWithin attempt r (suc rounds) i
    by_split (inl p) ih = at_once p
    by_split (inr (t, e)) ih = later t (ih e)

value_to :
    (attempt : ℕ → Attempt) (r : Response) (rounds i : ℕ)
    → RepliedWithin attempt r rounds i
    → attempts_from rounds i attempt ≡ value r
value_to attempt r _ _ (at_once {rounds} {i} p) = take_reply rounds i attempt r p
value_to attempt r _ _ (later {rounds} {i} t w) =
    skip-Transient rounds i attempt t ∙ value_to attempt r rounds (i + 1) w

-- Once connected with both timeouts set, `send_request` returns a response exactly when one of the
-- five attempts, counted from 0, reads that response and all attempts before it fail transiently.
pub send_request-value_iff :
    (attempt : ℕ → Attempt) (r : Response)
    → (send_request true true true attempt ≡ value r) ↔ RepliedWithin attempt r max_retries 0
unfolding send_request
send_request-value_iff attempt r =
    (value_from max_retries 0 attempt r, value_to attempt r max_retries 0)

exhausts :
    (rounds i : ℕ) (attempt : ℕ → Attempt)
    → ((j : ℕ) → j < rounds → Transient (attempt (i + j)))
    → attempts_from rounds i attempt ≡ attempts_from 0 (i + rounds) attempt
unfolding attempts_from
exhausts zero i attempt h = refl
exhausts (suc rounds) i attempt h =
    skip-Transient rounds i attempt
      (subst (λ k. Transient (attempt k)) (add-zero i) (h 0 (omega arith)))
    ∙ exhausts rounds (i + 1) attempt
        (λ j p. subst (λ k. Transient (attempt k)) (omega arith) (h (suc j) (omega arith)))

-- If all five attempts fail transiently, or the socket cannot be connected, the caller gets an IO
-- error: of the service in the first case, the socket's own in the second.
pub send_request-exhausted :
    (attempt : ℕ → Attempt) (rt wt : Bool)
    → ((j : ℕ) → j < max_retries → Transient (attempt j))
    → (send_request true true true attempt ≡ error (service_error ServiceError.io_error))
      × (send_request false rt wt attempt ≡ error io_error)
unfolding send_request
send_request-exhausted attempt rt wt h = (
  exhausts max_retries 0 attempt (λ j p. subst (λ k. Transient (attempt k)) (omega arith) (h j p)),
  refl,
)
