-- ===== src/Channel/Trace.antt =====
-- channel.rs: what comes out of a channel for what goes in.
use omni_stack_rust.Base.{
  ℕ, ◌≡◌, refl, sym, ap, ◌∙◌, Bool, true, false, Option, some, List, [], ◌∷◌, ◌++◌, map, Outcome,
  ok, ◌>>=◌, Ends, Ends-bind, or_undefined, ◌==◌, ==_iff, if◌then◌else◌,
}
use mathlib.Core.List.{append_assoc, append-nil}
use omni_stack_rust.Channel.{
  Result, value, error, write_full, read_empty, Ring, send, sent, recv, received,
}

-- A use of the channel, from either end.
pub data Op : Type 0 where
  put : ℕ → Op
  get : Op

-- The objects that were accepted and the values that came out, each in their order.
pub record Log (S : Type 0) : Type 0 where
  pub accepted : List ℕ
  pub values : List ℕ
  pub state : S

module _ (R : Ring) (word_at : ℕ → Option ℕ) where
  abbrev accept : ℕ → Result (Unit {0}) → Log R.State → Log R.State
  accept obj (value u) log = record log { accepted = obj ∷ log.accepted }
  accept obj (error e) log = log

  abbrev note : Result ℕ → Log R.State → Log R.State
  note (value v) log = record log { values = v ∷ log.values }
  note (error e) log = log

  -- One call after another.
  unfoldable pub run : List Op → R.State → Outcome (Log R.State)
  run [] s = ok (record { accepted = []; values = []; state = s })
  run (put obj ∷ ops) s = let r = send R obj s in run ops (r.1) >>= λ log. ok (accept obj (r.0) log)
  run (get ∷ ops) s = recv R word_at s >>= λ r. run ops (r.1) >>= λ log. ok (note (r.0) log)

module _ (R : Ring) (word_at : ℕ → Option ℕ)
    (readable : (obj : ℕ) → (v : ℕ) × (word_at obj ≡ some v)) where
  abbrev pub word : ℕ → ℕ
  word obj = (readable obj).0

  -- The objects that left are those in front, in order, and for each the word at it came out.
  pub record InOrder (s : R.State) (log : Log R.State) : Type 0 where
    pub gone : List ℕ
    pub order : R.content s ++ log.accepted ≡ gone ++ R.content log.state
    pub values : log.values ≡ map word gone

  -- A call of `send`, by whether the ring accepted the object.
  put-InOrder :
      (obj : ℕ) (b : Bool) (s s' : R.State) (log : Log R.State)
      → (b ≡ true → R.content s' ≡ R.content s ++ obj ∷ [])
      → (b ≡ false → R.content s' ≡ R.content s)
      → InOrder s' log
      → InOrder s (accept R word_at obj (if b then (value tt) else (error write_full)) log)
  put-InOrder obj true s s' log kept lost o = record {
    gone = o.gone;
    order =
        sym (append_assoc (R.content s) (obj ∷ []) log.accepted)
        ∙ ap (λ c. c ++ log.accepted) (sym (kept refl))
        ∙ o.order;
    values = o.values;
  }
  put-InOrder obj false s s' log kept lost o = record {
    gone = o.gone;
    order = ap (λ c. c ++ log.accepted) (sym (lost refl)) ∙ o.order;
    values = o.values;
  }

  -- A call of `recv`, by whether the ring gave an object.
  get-InOrder :
      (b : Bool) (obj : ℕ) (s s' : R.State) (k : R.State → Outcome (Log R.State))
      → (b ≡ true → R.content s ≡ obj ∷ R.content s')
      → (b ≡ false → R.content s' ≡ R.content s)
      → Ends (k s') (InOrder s')
      → let taken : Outcome (Result ℕ × R.State) =
          or_undefined (word_at obj) >>= λ w. ok (value w, s') in
        let empty : Outcome (Result ℕ × R.State) = ok (error read_empty, s') in
        Ends
          ((if b then taken else empty) >>= λ a. k (a.1) >>= λ log. ok (note R word_at (a.0) log))
          (InOrder s)
  get-InOrder true obj s s' k taken lost (log, e, o) =
      let (v, at) = readable obj in
      let back : ℕ → Outcome (Result ℕ × R.State) = λ w. ok (value w, s') in
      (
        record log { values = v ∷ log.values },
        ap (λ w. (or_undefined w >>= back) >>= λ a. k (a.1) >>= λ l. ok (note R word_at (a.0) l)) at
            ∙ ap (λ r. r >>= λ l. ok (note R word_at (value v) l)) e,
        record {
          gone = obj ∷ o.gone;
          order = ap (λ c. c ++ log.accepted) (taken refl) ∙ ap (obj ∷◌) o.order;
          values = ap (v ∷◌) o.values;
        },
      )
  get-InOrder false obj s s' k taken lost (log, e, o) = (
    log,
    rw e,
    record {
      gone = o.gone;
      order = ap (λ c. c ++ log.accepted) (sym (lost refl)) ∙ o.order;
      values = o.values;
    },
  )

  -- Where the objects can be read, whatever calls are made of the two ends, in whatever order, each call
  -- returns; the objects that left the channel are the first of those that it held and then accepted, in that
  -- order, and what `recv` returned for each is the word that lies at the object.
  pub run-InOrder : (ops : List Op) (s : R.State) → Ends (run R word_at ops s) (InOrder s)
  unfolding run send recv sent received
  run-InOrder [] s =
      (_, refl, record { gone = []; order = append-nil (R.content s); values = refl })
  run-InOrder (put obj ∷ ops) s = Ends-bind (run-InOrder ops (R.enqueue obj s).1) λ log o. (
    _,
    refl,
    put-InOrder obj ((R.enqueue obj s).0 == 0) s (R.enqueue obj s).1 log
        (λ t. R.enqueued obj s ((==_iff (R.enqueue obj s).0 0).0 t))
        (λ f. R.refused obj s (λ z. cc)) o,
  )
  run-InOrder (get ∷ ops) s =
      get-InOrder ((R.dequeue s).0 == 0) (R.dequeue s).1 s (R.dequeue s).2 (run R word_at ops)
        (λ t. R.dequeued s ((==_iff (R.dequeue s).0 0).0 t)) (λ f. R.nothing s (λ z. cc))
        (run-InOrder ops (R.dequeue s).2)
