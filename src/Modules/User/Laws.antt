-- ===== src/Modules/User/Laws.antt =====
-- user.rs, `UserNode`: the burst it makes, and the counts of its packets.
use omni_stack_rust.Base.{
  ℕ, suc, ◌+◌, ◌≡◌, refl, sym, ap, ◌∙◌, subst, Bool, true, false, Option, some, List, [], ◌∷◌, ok,
  Ends, Ends-bind, Ends-value, or_undefined, ◌==◌, ==_iff, All, length, arith,
}
use omni_stack_rust.Error.{dropped, value, error}
use omni_stack_rust.Packet.{Packet, own, local, default_offset}
use omni_stack_rust.Packet.Length.{set_len-value}
use omni_stack_rust.Packet.Chain.{
  IsDistinct, IsLive, Chained, Chained-store, packets-store_other, packets-store_self,
}
use omni_stack_rust.Packet.Pool.{Mempool, World, load, store, allocate_many}
use omni_stack_rust.Packet.Pool.Counts.{
  refcnt_at, count_of, count_of-store, GivenUp, deallocate-GivenUp, allocate_many-length,
}
use omni_stack_rust.Modules.User.{user_size, burst_size, process, prepare, chain, burst, poll}

-- What `poll` makes of a packet.
pub record Prepared (pkt : Packet) : Type 0 where
  pub region : pkt.region ≡ own
  pub buf_ty : pkt.buf_ty ≡ local
  pub offset : pkt.offset ≡ default_offset
  pub len : pkt.len ≡ default_offset + user_size
  pub nic : pkt.nic ≡ 0

==_false_comm : (p q : ℕ) → (p == q) ≡ false → (q == p) ≡ false
==_false_comm p q h = ground arith

module _ {M : Mempool} where
  record OnePrepared (p : ℕ) (ret : Option ℕ) (w w' : World M) : Type 0 where
    pkt : Packet
    stored : w' ≡ store M p pkt w
    next : pkt.next ≡ ret
    has : Prepared pkt
    count : some pkt.refcnt ≡ refcnt_at w p

  prepare-OnePrepared :
      (debug : Bool) (p : ℕ) (ret : Option ℕ) (w : World M)
      → IsLive w p
      → Ends (prepare M debug p ret w) (OnePrepared p ret w)
  unfolding prepare load
  prepare-OnePrepared debug p ret w (pkt, at) = Ends-value _ _ pkt (ap or_undefined at) (
      Ends-value _ _ _
        (set_len-value debug user_size
          (record pkt { region = own; buf_ty = local; offset = default_offset }) (omega arith))
        (
          _,
          refl,
          record {
            pkt = _;
            stored = refl;
            next = refl;
            has = record { region = refl; buf_ty = refl; offset = refl; len = refl; nic = refl };
            count = sym (ap count_of at);
          },
        ))

  record Chain (objs : List ℕ) (w : World M) (r : Option ℕ × World M) : Type 0 where
    chained : Chained Prepared (r.1) (r.0) objs
    counts : (q : ℕ) → refcnt_at (r.1) q ≡ refcnt_at w q
    others : (q : ℕ) → All (λ p. (q == p) ≡ false) objs → r.1.packets q ≡ w.packets q

  kept_counts :
      (p : ℕ) (pkt : Packet) (w : World M)
      → some pkt.refcnt ≡ refcnt_at w p
      → (q : ℕ) → refcnt_at (store M p pkt w) q ≡ refcnt_at w q
  kept_counts p pkt w e q = go (p == q) refl
    where
      go : (b : Bool) → (p == q) ≡ b → refcnt_at (store M p pkt w) q ≡ refcnt_at w q
      go true is = count_of-store p pkt w q true is ∙ e ∙ ap (refcnt_at w) ((==_iff p q).0 is)
      go false is = count_of-store p pkt w q false is

  chain-Chain :
      (debug : Bool) (objs : List ℕ) (w : World M)
      → IsDistinct objs
      → All (IsLive w) objs
      → Ends (chain M debug objs w) (Chain objs w)
  unfolding chain
  chain-Chain debug [] w d live =
      (_, refl, record { chained = refl; counts = λ q. refl; others = λ q h. refl })
  chain-Chain debug (p ∷ ps) w (apart, d) ((pkt, at), live) =
      Ends-bind (chain-Chain debug ps w d live) (λ (ret, w1) c.
        Ends-bind (prepare-OnePrepared debug p ret w1 (pkt, c.others p apart ∙ at)) (λ w2 one. (
          _,
          refl,
          record {
            chained = (
              refl,
              one.pkt,
              ap (λ w. w.packets p) one.stored ∙ packets-store_self p one.pkt w1,
              one.has,
              subst (λ w. Chained Prepared w one.pkt.next ps) (sym one.stored)
                  (Chained-store Prepared p one.pkt w1 one.pkt.next ps apart
                    (subst (λ o. Chained Prepared w1 o ps) (sym one.next) c.chained)),
            );
            counts = λ q.
                ap (λ w. refcnt_at w q) one.stored
                ∙ kept_counts p one.pkt w1 one.count q
                ∙ c.counts q;
            others = λ q (e, h).
                ap (λ w. w.packets q) one.stored
                ∙ packets-store_other p one.pkt w1 q (==_false_comm q p e)
                ∙ c.others q h;
          },
        )))

  -- Where the pool hands out a burst of different packets, `poll` returns the first, and all of them hang
  -- together in the order of the burst: each is empty but for its user data, which starts at the default
  -- offset of its own memory. No packet's count is changed.
  pub poll-burst :
      (debug : Bool) (thread : ℕ) (w w1 : World M) (objs : List ℕ)
      → allocate_many M burst_size thread w ≡ some (objs, w1)
      → IsDistinct objs
      → All (IsLive w1) objs
      → Ends (poll M debug thread w) (λ (w2, r).
        (first : ℕ) × (r ≡ value first)
        × (length objs ≡ burst_size)
        × Chained Prepared w2 (some first) objs
        × ((q : ℕ) → refcnt_at w2 q ≡ refcnt_at w1 q))
  unfolding poll burst
  poll-burst debug thread w w1 [] got d live =
      absurd (omega (arith, allocate_many-length M burst_size thread w got))
  poll-burst debug thread w w1 (p ∷ ps) got d live =
      let ((ret, w2), done, c) = chain-Chain debug (p ∷ ps) w1 d live in
      let (head, pkt, at, has, rest) = c.chained in
      (
        (w2, value p),
        ap (λ o. burst M debug o w) got ∙ finish ret w2 done head,
        (
          p,
          refl,
          allocate_many-length M burst_size thread w got,
          (refl, pkt, at, has, rest),
          c.counts,
        ),
      )
    where
      finish :
          (ret : Option ℕ) (w2 : World M)
          → chain M debug (p ∷ ps) w1 ≡ ok (ret, w2)
          → ret ≡ some p
          → burst M debug (some (p ∷ ps, w1)) w ≡ ok (w2, value p)
      finish ret w2 done head = rw done (rw head refl)

  -- `process` gives up one reference to the packet and reports it as dropped.
  pub process-GivenUp :
      (debug : Bool) (p thread : ℕ) (w : World M) (n : ℕ)
      → refcnt_at w p ≡ some (suc n)
      → Ends (process M debug thread p w) (λ (w', r). (r ≡ error dropped) × GivenUp p n w w')
  unfolding process
  process-GivenUp debug p thread w n h =
      Ends-bind (deallocate-GivenUp debug p thread w n h)
        (λ w' g. ((w', error dropped), refl, (refl, g)))
