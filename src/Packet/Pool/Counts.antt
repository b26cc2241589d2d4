-- ===== src/Packet/Pool/Counts.antt =====
-- packet.rs, `deallocate`: reference counts, and what returns to the pool.
use mathlib.Core.List.{Perm}
use omni_stack_rust.Base.{
  ℕ, zero, suc, ◌≤◌, ◌≡◌, ◌≢◌, refl, ap, ◌∙◌, Bool, true, false, Option, none, some, List, ◌∷◌,
  length, ok, Ends, Ends-value, or_undefined, ◌==◌, ==_iff, if◌then◌else◌, arith,
}
use omni_stack_rust.Base.Word.{u64_mod, sub_word_fits}
use omni_stack_rust.Packet.{Packet}
use omni_stack_rust.Packet.Pool.{
  Mempool, World, load, store, release, taken, allocate_many, drop_reference, deallocate,
}

abbrev pub count_of : Option Packet → Option ℕ
count_of none = none
count_of (some p) = some p.refcnt

counted_packet :
    (o : Option Packet) {n : ℕ}
    → count_of o ≡ some n
    → (pkt : Packet) × (o ≡ some pkt) × (pkt.refcnt ≡ n)
counted_packet none e = absurd (cc)
counted_packet (some pkt) e = (pkt, refl, cc)

pub ne_==_false : (p q : ℕ) → p ≢ q → (p == q) ≡ false
ne_==_false p q h = ground arith

module _ {M : Mempool} where
  abbrev pub refcnt_at : World M → ℕ → Option ℕ
  refcnt_at w p = count_of (w.packets p)

  pub count_of-store :
      (p : ℕ) (pkt : Packet) (w : World M) (q : ℕ) (b : Bool)
      → (p == q) ≡ b
      → refcnt_at (store M p pkt w) q ≡ (if b then some pkt.refcnt else refcnt_at w q)
  count_of-store p pkt w q true e = rw e
  count_of-store p pkt w q false e = rw e

  -- One reference to `p` is given up; the last one gives the packet back.
  pub record GivenUp (p n : ℕ) (w w' : World M) : Type 0 where
    pub others : (q : ℕ) → p ≢ q → refcnt_at w' q ≡ refcnt_at w q
    pub one_less : 1 ≤ n → (refcnt_at w' p ≡ some n) × (w'.pool ≡ w.pool)
    pub last : n ≡ 0 → (refcnt_at w' p ≡ some 1) × Perm (M.content w'.pool) (p ∷ M.content w.pool)

  drop_reference-GivenUp :
      (debug : Bool) (p : ℕ) (pkt : Packet) (w : World M) (n : ℕ)
      → pkt.refcnt ≡ suc n
      → 1 ≤ n
      → Ends (drop_reference M debug p pkt w) (GivenUp p n w)
  unfolding drop_reference
  drop_reference-GivenUp debug p pkt w n count h =
      Ends-value _ _ n
        (sub_word_fits debug u64_mod pkt.refcnt 1 (omega (arith, count))
          ∙ ap ok (omega (arith, count)))
        (
          _,
          refl,
          record {
            others = λ q apart. count_of-store p _ w q false (ne_==_false p q apart);
            one_less = λ _. (count_of-store p _ w p true ((==_iff p p).1 refl), refl);
            last = λ e. absurd (omega arith);
          },
        )

  release-GivenUp :
      (p : ℕ) (pkt : Packet) (thread : ℕ) (w : World M)
      → w.packets p ≡ some pkt
      → pkt.refcnt ≡ 1
      → GivenUp p 0 w (release M p pkt thread w)
  unfolding release
  release-GivenUp p pkt thread w at count = record {
    others = λ q apart. refl;
    one_less = λ e. absurd (omega arith);
    last = λ e. (ap count_of at ∙ ap some count, M.put_lem p thread w.pool);
  }

  -- Giving up a reference to a packet that has `n + 1` of them never fails. The other packets keep their
  -- counts. With references left, `n` remain and the pool is as it was; the last one puts the packet back
  -- into the pool, with the count of a fresh packet.
  pub deallocate-GivenUp :
      (debug : Bool) (p thread : ℕ) (w : World M) (n : ℕ)
      → refcnt_at w p ≡ some (suc n)
      → Ends (deallocate M debug p thread w) (GivenUp p n w)
  unfolding deallocate load
  deallocate-GivenUp debug p thread w zero h =
      let (pkt, at, count) = counted_packet (w.packets p) h in
      Ends-value _ _ pkt (ap or_undefined at)
        (_, rw ((==_iff pkt.refcnt 1).1 count), release-GivenUp p pkt thread w at count)
  deallocate-GivenUp debug p thread w (suc n) h =
      let (pkt, at, count) = counted_packet (w.packets p) h in
      let (w', done, given_up) = drop_reference-GivenUp debug p pkt w (suc n) count (omega arith) in
      Ends-value _ _ pkt (ap or_undefined at) (
        w',
        ap (λ b. if b then ok (release M p pkt thread w) else drop_reference M debug p pkt w)
              (ne_==_false pkt.refcnt 1 (λ e. absurd (omega (arith, e, count))))
            ∙ done,
        given_up,
      )

module _ (M : Mempool) where
  pub allocate_many-length :
      (n thread : ℕ) (w : World M) {w' : World M} {objs : List ℕ}
      → allocate_many M n thread w ≡ some (objs, w')
      → length objs ≡ n
  unfolding allocate_many
  allocate_many-length n thread w e = go (M.get n thread w.pool) refl e
    where
      go :
          (o : Option (List ℕ × M.State)) {w' : World M} {got : List ℕ}
          → M.get n thread w.pool ≡ o
          → taken M o w ≡ some (got, w')
          → length got ≡ n
      go none is e = absurd (cc)
      go (some (objs, s)) {w'} {got} is e =
          let same : got ≡ objs = cc in ap length same ∙ (M.get_lem n thread w.pool s objs is).0
