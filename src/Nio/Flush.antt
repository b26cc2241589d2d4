-- ===== src/Nio/Flush.antt =====
-- nio.rs, `IoNode`: the queue of the adapters that are to be flushed.
use omni_stack_rust.Base.{
  ℕ, suc, ◌+◌, ◌%◌, ◌^◌, ◌≤◌, ◌<◌, ◌≡◌, ◌≢◌, refl, sym, ap, ap₂, ◌∙◌, subst, Bool, true, false,
  List, [], ◌∷◌, ◌++◌, ok, Ends, Ends-value, length, length-set, length-take, set, take, All,
  lt→ltb, ◌==◌, ==_iff, bit_and, bit_or, if◌then◌else◌, arith,
}
use omni_stack_rust.Base.Bits.{
  digit, digit_le_one, digit-zero, digit-bit_or, digit-two_pow_self, digit-two_pow_ne,
  bit_and-two_pow_eq_zero,
}
use omni_stack_rust.Occurs.{times, occurs, occurs-append, length_lt_range, take-set_end}
use omni_stack_rust.Nio.{num_adapter_max, IoNode, new, shl_usize, enqueue, mark}

shl_usize-value : (debug : Bool) (n : ℕ) → n < 64 → shl_usize debug n ≡ ok (2 ^ n)
unfolding shl_usize
shl_usize-value debug n h = rw (lt→ltb n 64 h)

All-append : (P : ℕ → Type 0) (xs : List ℕ) (x : ℕ) → All P xs → P x → All P (xs ++ x ∷ [])
All-append P [] x all h = (h, tt)
All-append P (y ∷ ys) x (here, all) h = (here, All-append P ys x all h)

flag_set :
    (k nic flag : ℕ) (l : List ℕ) (b : Bool)
    → (nic == k) ≡ b
    → digit nic flag ≡ 0
    → digit k flag ≡ occurs k l
    → digit k (bit_or flag (2 ^ nic)) ≡ occurs k (l ++ nic ∷ [])
flag_set k nic flag l true e clear h =
    let same = (==_iff nic k).0 e in
    omega (
      arith,
      digit-bit_or k flag (2 ^ nic),
      ap (λ x. digit x (2 ^ nic)) same,
      digit-two_pow_self nic,
      ap (λ x. digit x flag) same,
      clear,
      occurs-append k nic l,
      ap (times 1) e,
      h,
    )
flag_set k nic flag l false e clear h = omega (
  arith,
  digit-bit_or k flag (2 ^ nic),
  digit-two_pow_ne k nic (λ same. absurd (cc (e, (==_iff nic k).1 (sym same)))),
  occurs-append k nic l,
  ap (times 1) e,
  h,
)

succ : (n : ℕ) → n + 1 ≡ suc n
succ n = omega arith

byte : (n : ℕ) → n < num_adapter_max → n % 256 ≡ n
byte n h = omega arith

flag_is_set : (nic flag : ℕ) → (bit_and flag (2 ^ nic) == 0) ≡ false → digit nic flag ≡ 1
flag_is_set nic flag e =
    let some_flag : digit nic flag ≢ 0 = λ z.
      absurd
        (cc (e, (==_iff (bit_and flag (2 ^ nic)) 0).1 ((bit_and-two_pow_eq_zero nic flag).1 z))) in
    omega (arith, some_flag, digit_le_one nic flag)

pub unmoved : (k nic n : ℕ) → nic ≢ k → times 1 (nic == k) + n ≡ n
unmoved k nic n h = ground arith

module _ {A : Type 0} where
  abbrev pub pending : IoNode A → List ℕ
  pending io = take io.flush_queue_idx io.flush_queue

  -- The pending adapters exist, and the flags are theirs: one flag for each, and so no adapter is there twice.
  pub record IsValid (io : IoNode A) : Type 0 where
    pub size : length io.flush_queue ≡ num_adapter_max
    pub count : length io.adapters ≤ num_adapter_max
    pub bound : io.flush_queue_idx ≤ num_adapter_max
    pub exist : All (λ n. n < length io.adapters) (pending io)
    pub flags : (k : ℕ) → digit k io.flush_flag ≡ occurs k (pending io)

  pub new-IsValid : IsValid new
  unfolding new occurs
  new-IsValid = record {
    size = refl;
    count = omega arith;
    bound = omega arith;
    exist = tt;
    flags = λ k. digit-zero k;
  }

  -- What `mark` does to a node: the adapter is pending afterwards, and none is forgotten.
  pub record Marked (nic : ℕ) (io io' : IoNode A) : Type 0 where
    pub valid : IsValid io'
    pub adapters : io'.adapters ≡ io.adapters
    pub macs : io'.nic_to_mac ≡ io.nic_to_mac
    pub here : occurs nic (pending io') ≡ 1
    pub others : (k : ℕ) → nic ≢ k → occurs k (pending io') ≡ occurs k (pending io)

  pending_shorter :
      (nic : ℕ) (io : IoNode A)
      → IsValid io
      → nic < length io.adapters
      → occurs nic (pending io) ≡ 0
      → io.flush_queue_idx < num_adapter_max
  pending_shorter nic io v h absent = omega (
    arith,
    v.size,
    v.count,
    v.bound,
    length_lt_range (length io.adapters) nic (pending io) v.exist
        (λ k. omega (arith, v.flags k, digit_le_one k io.flush_flag)) h absent,
    length-take io.flush_queue_idx io.flush_queue,
  )

  abbrev enqueued : ℕ → IoNode A → IoNode A
  enqueued nic io = record io {
    flush_queue = set io.flush_queue io.flush_queue_idx (nic % 256);
    flush_flag = bit_or io.flush_flag (2 ^ nic);
    flush_queue_idx = io.flush_queue_idx + 1;
  }

  enqueue-Marked :
      (nic : ℕ) (io : IoNode A)
      → IsValid io
      → nic < length io.adapters
      → digit nic io.flush_flag ≡ 0
      → Ends (enqueue (2 ^ nic) nic io) (Marked nic io)
  unfolding enqueue
  enqueue-Marked nic io v h clear =
      let absent : occurs nic (pending io) ≡ 0 = sym (v.flags nic) ∙ clear in
      let room = pending_shorter nic io v h absent in
      let more : take (io.flush_queue_idx + 1) (set io.flush_queue io.flush_queue_idx (nic % 256))
          ≡ pending io ++ nic ∷ [] =
        ap₂ (λ n b. take n (set io.flush_queue io.flush_queue_idx b)) (succ io.flush_queue_idx)
          (byte nic (omega (arith, h, v.count)))
        ∙ take-set_end io.flush_queue io.flush_queue_idx nic (omega (arith, room, v.size)) in
      (
        enqueued nic io,
        rw (lt→ltb io.flush_queue_idx (length io.flush_queue) (omega (arith, v.size, room))) refl,
        record {
          valid = record {
            size = length-set io.flush_queue _ _ ∙ v.size;
            count = v.count;
            bound = omega (arith, room);
            exist =
                subst (All (λ n. n < length io.adapters)) (sym more) (All-append _ _ _ v.exist h);
            flags = λ k.
                flag_set k nic io.flush_flag (pending io) (nic == k) refl clear (v.flags k)
                ∙ sym (ap (occurs k) more);
          };
          adapters = refl;
          macs = refl;
          here =
              ap (occurs nic) more
              ∙ occurs-append nic nic (pending io)
              ∙ omega (arith, ap (times 1) ((==_iff nic nic).1 refl), absent);
          others = λ k apart.
              ap (occurs k) more ∙ occurs-append k nic (pending io) ∙ unmoved k nic _ apart;
        },
      )

  -- After a packet is sent, its adapter is pending exactly once and the others are as they were, the queue
  -- stays within its array, and the marking never fails.
  pub mark-Marked :
      (debug : Bool) (nic : ℕ) (io : IoNode A)
      → IsValid io
      → nic < length io.adapters
      → Ends (mark debug nic io) (Marked nic io)
  unfolding mark
  mark-Marked debug nic io v h =
      Ends-value _ _ (2 ^ nic) (shl_usize-value debug nic (omega (arith, h, v.count)))
        (go (bit_and io.flush_flag (2 ^ nic) == 0) refl)
    where
      go :
          (b : Bool)
          → (bit_and io.flush_flag (2 ^ nic) == 0) ≡ b
          → Ends (if b then enqueue (2 ^ nic) nic io else ok io) (Marked nic io)
      go true e = enqueue-Marked nic io v h (
          (bit_and-two_pow_eq_zero nic io.flush_flag).0
            ((==_iff (bit_and io.flush_flag (2 ^ nic)) 0).0 e))
      go false e = (
        io,
        refl,
        record {
          valid = v;
          adapters = refl;
          macs = refl;
          here = sym (v.flags nic) ∙ flag_is_set nic io.flush_flag e;
          others = λ k apart. refl;
        },
      )
