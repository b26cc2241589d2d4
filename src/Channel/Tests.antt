-- ===== src/Channel/Tests.antt =====
-- channel.rs: a ring with room for one object.
use omni_stack_rust.Base.{ℕ, ◌+◌, ◌≡◌, ◌≢◌, refl, Option, some, List, [], ◌∷◌, ◌++◌, ok, Ends}
use omni_stack_rust.Channel.{
  IpcChannel, from_raw, into_raw, value, Ring, send, sent, recv, received,
}
use omni_stack_rust.Channel.Trace.{put, get, run, InOrder, run-InOrder}

abbrev enqueue : ℕ → List ℕ → ℕ × List ℕ
enqueue obj [] = (0, obj ∷ [])
enqueue obj (x ∷ xs) = (105, x ∷ xs)

abbrev dequeue : List ℕ → ℕ × ℕ × List ℕ
dequeue [] = (2, 0, [])
dequeue (x ∷ xs) = (0, x, xs)

enqueued : (obj : ℕ) (s : List ℕ) → (enqueue obj s).0 ≡ 0 → (enqueue obj s).1 ≡ s ++ obj ∷ []
enqueued obj [] e = refl
enqueued obj (x ∷ xs) e = absurd (cc)

refused : (obj : ℕ) (s : List ℕ) → (enqueue obj s).0 ≢ 0 → (enqueue obj s).1 ≡ s
refused obj [] ne = absurd (ne refl)
refused obj (x ∷ xs) ne = refl

dequeued : (s : List ℕ) → (dequeue s).0 ≡ 0 → s ≡ (dequeue s).1 ∷ (dequeue s).2
dequeued [] e = absurd (cc)
dequeued (x ∷ xs) e = refl

nothing : (s : List ℕ) → (dequeue s).0 ≢ 0 → (dequeue s).2 ≡ s
nothing [] ne = refl
nothing (x ∷ xs) ne = absurd (ne refl)

abbrev one_place : Ring
one_place = record {
  State = List ℕ;
  content = λ s. s;
  enqueue = enqueue;
  dequeue = dequeue;
  enqueued = enqueued;
  refused = refused;
  dequeued = dequeued;
  nothing = nothing;
}

abbrev word_at : ℕ → Option ℕ
word_at obj = some (obj + 1)

-- What `recv` returns is not what was sent.
received_word : (recv one_place word_at (send one_place 4096 []).1) ≡ ok (value 4097, [])
unfolding recv send sent received
received_word = refl

raw : (channel : IpcChannel) → from_raw (into_raw channel) ≡ channel
unfolding from_raw into_raw
raw channel = refl

run-InOrder_example :
    Ends
      (run one_place word_at (put 4096 ∷ put 8192 ∷ get ∷ get ∷ put 8192 ∷ get ∷ []) [])
      (InOrder one_place word_at (λ obj. (obj + 1, refl)) [])
run-InOrder_example =
    run-InOrder one_place word_at (λ obj. (obj + 1, refl))
      (put 4096 ∷ put 8192 ∷ get ∷ get ∷ put 8192 ∷ get ∷ []) []
