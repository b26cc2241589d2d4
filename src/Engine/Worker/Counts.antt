-- ===== src/Engine/Worker/Counts.antt =====
-- engine.rs and packet.rs: reference counts and the tasks that hold a packet.
use omni_stack_rust.Base.{
  ℕ, suc, ◌+◌, ◌≤◌, ◌≡◌, sym, ap, ◌∙◌, subst, Bool, some, List, [], ◌∷◌, ok, if◌then◌else◌, length,
  >>=-eq-ok, ok-injective, or_undefined-eq-ok, ◌==◌, arith,
}
use omni_stack_rust.Base.Word.{u64_mod, add_word, sub_word}
use omni_stack_rust.Occurs.{times}
use omni_stack_rust.Packet.{Packet}
use omni_stack_rust.Packet.Pool.{Mempool, World, load, store}
use omni_stack_rust.Engine.Worker.{Task, task_queue_size, Context, Module, push, push_links, share}

-- The tasks that hold packet `p`.
unfoldable pub held : ℕ → List Task → ℕ
held p [] = 0
held p (t ∷ ts) = if t.packet == p then suc (held p ts) else held p ts

push-held :
    (i p : ℕ) (queue : List Task) {queue' : List Task}
    → push i p queue ≡ ok queue'
    → (length queue' ≤ task_queue_size) × (queue' ≡ record { node_id = i; packet = p } ∷ queue)
unfolding push
push-held i p queue e = ground arith

pub held-cons :
    (q : ℕ) (t : Task) (ts : List Task) → held q (t ∷ ts) ≡ times 1 (t.packet == q) + held q ts
unfolding held
held-cons q t ts = ground arith

held-append :
    (i p q : ℕ) (queue : List Task) (k : ℕ)
    → times k (p == q) + held q (record { node_id = i; packet = p } ∷ queue)
      ≡ times (suc k) (p == q) + held q queue
unfolding held
held-append i p q queue k = ground arith

pub push_links-held :
    (links : List ℕ) (p q : ℕ) (queue : List Task) {queue' : List Task}
    → length queue ≤ task_queue_size
    → push_links links p queue ≡ ok queue'
    → (length queue' ≤ task_queue_size)
      × (length queue' ≡ length links + length queue)
      × (held q queue' ≡ times (length links) (p == q) + held q queue)
unfolding push_links
push_links-held [] p q queue fits e =
    subst
      (λ r.
        (length r ≤ task_queue_size)
        × (length r ≡ 0 + length queue)
        × (held q r ≡ times 0 (p == q) + held q queue))
      (ok-injective e) (fits, omega arith, ground arith)
push_links-held (i ∷ links) p q queue fits e =
    let (queue1, pushed, e1) = >>=-eq-ok (push i p queue) _ e in
    let (fits1, made) = push-held i p queue pushed in
    let (fits', len, more) = push_links-held links p q queue1 fits1 e1 in
    (
      fits',
      omega (arith, len, ap length made),
      more
          ∙ ap (λ r. times (length links) (p == q) + held q r) made
          ∙ held-append i p q queue (length links),
    )

pub held-length : (p : ℕ) (queue : List Task) → held p queue ≤ length queue
unfolding held
held-length p [] = omega arith
held-length p (t ∷ ts) = let ih = held-length p ts in ground arith

-- `refcnt += n - 1`, whether or not `n - 1` wraps.
share_count :
    (debug : Bool) (a n b r : ℕ)
    → sub_word debug u64_mod n 1 ≡ ok b
    → add_word debug u64_mod a b ≡ ok r
    → 1 ≤ a
    → a + n ≤ u64_mod
    → r + 1 ≡ a + n
unfolding sub_word add_word
share_count debug a n b r e e' h h' = ground arith

module _ (M : Mempool) {S : Type 0} (ops : Module S (World M)) (debug : Bool) (ctx : Context) where
  pub record Shared (n p : ℕ) (w w' : World M) : Type 0 where
    pub pkt : Packet
    pub at : w.packets p ≡ some pkt
    pub refcnt : ℕ
    pub stored : w' ≡ store M p (record pkt { refcnt = refcnt }) w
    pub count : 1 ≤ pkt.refcnt → pkt.refcnt + n ≤ u64_mod → refcnt + 1 ≡ pkt.refcnt + n

  pub share-Shared :
      (links : List ℕ) (p : ℕ) (w : World M) {w' : World M}
      → share M ops debug ctx links p w ≡ ok w'
      → Shared (length links) p w w'
  unfolding share load
  share-Shared links p w e =
      let (pkt, at, e1) = >>=-eq-ok (load M p w) _ e in
      let (more, sub, e2) = >>=-eq-ok (sub_word debug u64_mod (length links) 1) _ e1 in
      let (refcnt, add, e3) = >>=-eq-ok (add_word debug u64_mod pkt.refcnt more) _ e2 in
      record {
        pkt = pkt;
        at = or_undefined-eq-ok (w.packets p) at;
        refcnt = refcnt;
        stored = sym (ok-injective e3);
        count = share_count debug pkt.refcnt (length links) more refcnt sub add;
      }
