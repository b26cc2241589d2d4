-- ===== src/Nio/Poll.antt =====
-- nio.rs, `IoNode::poll`: the flush of the pending adapters.
use omni_stack_rust.Base.{
  ℕ, zero, suc, ◌^◌, ◌<◌, ◌≡◌, refl, sym, ap, ◌∙◌, subst, Bool, true, false, some, List, [], ◌∷◌,
  ◌++◌, ok, Ends, Ends-bind, Ends-value, or_undefined, length, length-set, get_elem?, get_elem?_lt,
  take, All, lt→ltb, ◌==◌, ==_iff, bit_xor, arith,
}
use omni_stack_rust.Base.Bits.{
  digit, digit_le_one, digit-bit_xor, digit-two_pow_self, digit-two_pow_ne,
}
use omni_stack_rust.Occurs.{times, occurs, occurs-append}
use omni_stack_rust.Error.{Result, value, error}
use omni_stack_rust.Packet.Pool.{Mempool, World}
use omni_stack_rust.Engine.Worker.{Context}
use omni_stack_rust.Nio.{Adapter, IoNode, shl_i32, flush_one, flush_pending, and_then}
use omni_stack_rust.Nio.Flush.{pending, IsValid}

pub take-get :
    (xs : List ℕ) (i : ℕ) {v : ℕ} → get_elem? xs i ≡ some v → take (suc i) xs ≡ take i xs ++ v ∷ []
take-get [] i e = absurd (cc)
take-get (x ∷ xs) zero e = let same : x ≡ _ = cc in ap (λ y. y ∷ []) same
take-get (x ∷ xs) (suc i) e = ap (λ r. x ∷ r) (take-get xs i e)

All-split : (P : ℕ → Type 0) (xs : List ℕ) (x : ℕ) → All P (xs ++ x ∷ []) → All P xs × P x
All-split P [] x (h, _) = (tt, h)
All-split P (y ∷ ys) x (here, all) = let (rest, h) = All-split P ys x all in ((here, rest), h)

shl_i32-value : (debug : Bool) (n : ℕ) → n < 31 → shl_i32 debug n ≡ ok (2 ^ n)
unfolding shl_i32
shl_i32-value debug n h = rw (lt→ltb n 31 h)

flag_cleared :
    (k nic flag : ℕ) (l : List ℕ) (b : Bool)
    → (nic == k) ≡ b
    → digit k flag ≡ occurs k (l ++ nic ∷ [])
    → digit k (bit_xor flag (2 ^ nic)) ≡ occurs k l
flag_cleared k nic flag l true e h =
    let same = (==_iff nic k).0 e in
    omega (
      arith,
      digit-bit_xor k flag (2 ^ nic),
      ap (λ x. digit x (2 ^ nic)) same,
      digit-two_pow_self nic,
      digit_le_one k flag,
      occurs-append k nic l,
      ap (times 1) e,
      h,
    )
flag_cleared k nic flag l false e h = omega (
  arith,
  digit-bit_xor k flag (2 ^ nic),
  digit-two_pow_ne k nic (λ same. absurd (cc (e, (==_iff nic k).1 (sym same)))),
  digit_le_one k flag,
  occurs-append k nic l,
  ap (times 1) e,
  h,
)

module _ (M : Mempool) {A : Type 0} (ops : Adapter A (World M)) (debug : Bool) (ctx : Context) where
  abbrev pub Left : ℕ → ℕ → IoNode A × World M × Result (Unit {0}) → Type 0
  Left n idx (io, w, r) = IsValid io × (io.flush_queue_idx ≡ idx) × (length io.adapters ≡ n)

  pub flush_one-Left :
      (idx : ℕ) (io : IoNode A) (w : World M)
      → IsValid io
      → io.flush_queue_idx ≡ suc idx
      → ((nic : ℕ) (a : A)
          → get_elem? io.adapters nic ≡ some a
          → Ends (ops.flush ctx a w) (λ _. Unit {0}))
      → Ends (flush_one M ops debug ctx idx io w) (Left (length io.adapters) idx)
  unfolding flush_one
  flush_one-Left idx io w v e returns =
      let (nic, at) = get_elem?_lt io.flush_queue idx (omega (arith, v.size, v.bound, e)) in
      let split : pending io ≡ take idx io.flush_queue ++ nic ∷ [] =
        ap (λ n. take n io.flush_queue) e ∙ take-get io.flush_queue idx at in
      let (exist, here) =
        All-split _ (take idx io.flush_queue) nic
          (subst (All (λ n. n < length io.adapters)) split v.exist) in
      let (a, found) = get_elem?_lt io.adapters nic here in
      Ends-value _ _ nic (ap or_undefined at) (
        Ends-value _ _ (2 ^ nic) (shl_i32-value debug nic (omega (arith, here, v.count))) (
          Ends-value _ _ a (ap or_undefined found) (
            Ends-bind (returns nic a found) (λ (a', w', r) _. (
              _,
              refl,
              (
                record {
                  size = v.size;
                  count = omega (arith, v.count, length-set io.adapters nic a');
                  bound = omega (arith, v.bound, e);
                  exist =
                      subst (λ n. All (λ m. m < n) (take idx io.flush_queue))
                        (sym (length-set io.adapters nic a')) exist;
                  flags = λ k.
                      flag_cleared k nic io.flush_flag (take idx io.flush_queue) (nic == k) refl
                        (v.flags k ∙ ap (occurs k) split);
                },
                refl,
                length-set io.adapters nic a',
              ),
            )))))

module _ (M : Mempool) {A : Type 0} (ops : Adapter A (World M)) (debug : Bool) (ctx : Context)
    (returns : (a : A) (w : World M) → Ends (ops.flush ctx a w) (λ _. Unit {0})) where
  abbrev pub Flushed : ℕ → IoNode A × World M × Result (Unit {0}) → Type 0
  Flushed n (io, w, r) =
      IsValid io
      × (length io.adapters ≡ n)
      × (r ≡ value tt → (io.flush_queue_idx ≡ 0) × ((k : ℕ) → digit k io.flush_flag ≡ 0))

  flush_rest :
      (n idx : ℕ) (io : IoNode A) (w : World M) (r : Result (Unit {0}))
      → Left M ops debug ctx n idx (io, w, r)
      → ((io : IoNode A) (w : World M)
          → IsValid io
          → io.flush_queue_idx ≡ idx
          → Ends (flush_pending M ops debug ctx idx io w) (Flushed (length io.adapters)))
      → Ends
          (and_then M ops debug ctx (io, w, r) (λ io w. flush_pending M ops debug ctx idx io w))
          (Flushed n)
  flush_rest n idx io w (value u) (v, at, len) k =
      subst (λ n. Ends (flush_pending M ops debug ctx idx io w) (Flushed n)) len (k io w v at)
  flush_rest n idx io w (error e) (v, at, len) k = (_, refl, (v, len, λ h. absurd (cc)))

  -- When the flushes return, so does the loop over the pending adapters, which all exist. If none fails, no
  -- adapter is pending and no flag is set afterwards. If one fails, the loop stops there, and the flags still
  -- belong to the adapters that are pending.
  pub flush_pending-IsValid :
      (idx : ℕ) (io : IoNode A) (w : World M)
      → IsValid io
      → io.flush_queue_idx ≡ idx
      → Ends (flush_pending M ops debug ctx idx io w) (Flushed (length io.adapters))
  unfolding flush_pending occurs
  flush_pending-IsValid zero io w v e = (
    _,
    refl,
    (v, refl, λ _. (e, λ k. v.flags k ∙ none_pending k io.flush_queue_idx io.flush_queue e)),
  )
    where
      none_pending : (k i : ℕ) (q : List ℕ) → i ≡ 0 → occurs k (take i q) ≡ 0
      none_pending k i q e = ap (λ i. occurs k (take i q)) e
  flush_pending-IsValid (suc idx) io w v e =
      Ends-bind (flush_one-Left M ops debug ctx idx io w v e (λ nic a _. returns a w))
        (λ (io', w', r) left.
          flush_rest (length io.adapters) idx io' w' r left
            (λ io w v e. flush_pending-IsValid idx io w v e))
