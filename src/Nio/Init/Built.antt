-- ===== src/Nio/Init/Built.antt =====
-- nio.rs, `IoNode::init`: what a node has once it is set up.
use Prim.Native.String.{String}
use omni_stack_rust.Base.{
  ℕ, zero, suc, ◌+◌, ◌%◌, ◌≤◌, ◌<◌, ◌≡◌, refl, sym, ap, subst, ◌∙◌, Bool, Option, some, List, [],
  ◌∷◌, ◌++◌, ok, Ends, Ends-bind, Ends-value, or_panic, length, length-append, length-replicate,
  replicate, length-set, get_elem?, set, drop, lt→ltb, arith,
}
use mathlib.Core.List.{append_assoc, append-nil}
use omni_stack_rust.Base.Word.{u16_mod}
use omni_stack_rust.Error.{value}
use omni_stack_rust.Packet.Pool.{Mempool, World}
use omni_stack_rust.Protocol.Addr.{MacAddr, new_mac}
use omni_stack_rust.Config.{NicConfig, StackConfig, GraphEntry}
use omni_stack_rust.Config.Load.{ConfigManager, get_stack_config}
use omni_stack_rust.Base.Bits.{digit-zero}
use omni_stack_rust.Occurs.{occurs}
use omni_stack_rust.Engine.Worker.{Context}
use omni_stack_rust.Nio.Idle.{IsSettled}
use omni_stack_rust.Nio.{num_adapter_max, Adapter, IoNode, new}
use omni_stack_rust.Nio.Init.{unwrap, install, init_nics, init_node}

-- The addresses are put from a place on.
abbrev put_all : ℕ → List MacAddr → List MacAddr → List MacAddr
put_all id [] l = l
put_all id (m ∷ ms) l = put_all (id + 1) ms (set l id m)

put_all-cons :
    (id k : ℕ) (x : MacAddr) (ms l : List MacAddr)
    → k ≡ suc id
    → put_all k ms (x ∷ l) ≡ x ∷ put_all id ms l
put_all-cons id k x [] l e = refl
put_all-cons id k x (m ∷ ms) l e =
    ap (λ n. put_all (k + 1) ms (set (x ∷ l) n m)) e
    ∙ put_all-cons (id + 1) (k + 1) x ms (set l id m) (omega (arith, e))

put_all-zero :
    (ms l : List MacAddr) → length ms ≤ length l → put_all 0 ms l ≡ ms ++ drop (length ms) l
put_all-zero [] l h = refl
put_all-zero (m ∷ ms) [] h = absurd (omega arith)
put_all-zero (m ∷ ms) (x ∷ l) h =
    put_all-cons 0 1 m ms l refl ∙ ap (m ∷◌) (put_all-zero ms l (omega arith))

module _ (M : Mempool) {A : Type 0} (ops : Adapter A (World M)) (debug : Bool) (ctx : Context)
    (builders : String → Option A) (Made : ℕ → NicConfig → A → MacAddr → Type 0) where
  -- An adapter and an address for each card, each made for its card.
  abbrev pub Built : ℕ → List NicConfig → List A → List MacAddr → Type 0
  Built id [] [] [] = Unit
  Built id (n ∷ ns) (a ∷ as') (m ∷ ms) = Made id n a m × Built (id + 1) ns as' ms
  Built id [] (a ∷ as') ms = ⊥
  Built id [] [] (m ∷ ms) = ⊥
  Built id (n ∷ ns) [] ms = ⊥
  Built id (n ∷ ns) (a ∷ as') [] = ⊥

  Built-length :
      (id : ℕ) (ns : List NicConfig) (adapters : List A) (ms : List MacAddr)
      → Built id ns adapters ms
      → (length adapters ≡ length ns) × (length ms ≡ length ns)
  Built-length id [] [] [] b = (refl, refl)
  Built-length id (n ∷ ns) (a ∷ as') (m ∷ ms) (_, b) =
      let (p, q) = Built-length (id + 1) ns as' ms b in (ap suc p, ap suc q)
  Built-length id [] (a ∷ as') ms b = absurd b
  Built-length id [] [] (m ∷ ms) b = absurd b
  Built-length id (n ∷ ns) [] ms b = absurd b
  Built-length id (n ∷ ns) (a ∷ as') [] b = absurd b

  -- Each card's adapter is known, and its `init` gives an address.
  abbrev pub Inits : ℕ → ℕ → ℕ → List NicConfig → Type 0
  Inits num_queues queue_id id [] = Unit
  Inits num_queues queue_id id (n ∷ ns) =
      ((a : A) × (builders n.adapter_name ≡ some a)
        × ((w : World M)
            → Ends (ops.init ctx id n.port num_queues queue_id a w)
                (λ (a', w', r). (mac : MacAddr) × (r ≡ value mac) × Made id n a' mac)))
      × Inits num_queues queue_id (id + 1) ns

  abbrev Installed : ℕ → List NicConfig → IoNode A → IoNode A × World M → Type 0
  Installed id ns io (io', w') =
      (adapters : List A) × (ms : List MacAddr) × Built id ns adapters ms
      × (io' ≡ record io {
        adapters = io.adapters ++ adapters;
        nic_to_mac = put_all id ms io.nic_to_mac;
      })

  install-value :
      (id : ℕ) (mac : MacAddr) (a : A) (io : IoNode A)
      → id < length io.nic_to_mac
      → length io.adapters < num_adapter_max
      → install M ops debug ctx id mac a io
        ≡ ok (record io { nic_to_mac = set io.nic_to_mac id mac; adapters = io.adapters ++ a ∷ [] })
  unfolding install
  install-value id mac a io h h' = rw (lt→ltb _ _ h) (rw (lt→ltb _ _ h') refl)

  init_nics-Installed :
      (num_queues queue_id id : ℕ) (ns : List NicConfig) (io : IoNode A) (w : World M)
      → Inits num_queues queue_id id ns
      → length io.nic_to_mac ≡ num_adapter_max
      → length io.adapters ≡ id
      → id + length ns ≤ num_adapter_max
      → Ends
          (init_nics M ops debug ctx builders num_queues queue_id id ns io w)
          (Installed id ns io)
  unfolding init_nics unwrap
  init_nics-Installed num_queues queue_id id [] io w h macs count room = (
    (io, w),
    refl,
    ([], [], tt, ap (λ l. record io { adapters = l }) (sym (append-nil io.adapters))),
  )
  init_nics-Installed num_queues queue_id id (n ∷ ns) io w ((a, known, inits), h) macs count room =
      Ends-value _ _ a (ap or_panic known) (
        Ends-bind (inits w) (λ (a', w', r) (mac, got, made).
          Ends-value _ _ mac (ap (unwrap M ops debug ctx) got) (
            Ends-value _ _ _
              (install-value id mac a' io (omega (arith, macs, room)) (omega (arith, count, room)))
              (let io1 : IoNode A = record io {
                nic_to_mac = set io.nic_to_mac id mac;
                adapters = io.adapters ++ a' ∷ [];
              } in
                let (r2, e, (as', ms, b, same)) =
                  init_nics-Installed num_queues queue_id (id + 1) ns io1 w' h
                    (length-set io.nic_to_mac id mac ∙ macs)
                    (omega (arith, length-append io.adapters (a' ∷ []), count))
                    (omega (arith, room)) in
                (
                  r2,
                  e,
                  (
                    a' ∷ as',
                    mac ∷ ms,
                    (made, b),
                    same
                        ∙ ap
                            (λ l. record io {
                              adapters = l;
                              nic_to_mac = put_all (id + 1) ms (set io.nic_to_mac id mac);
                            })
                            (append_assoc io.adapters (a' ∷ []) as'),
                  ),
                )))))

  -- What the set-up makes of a new node.
  abbrev pub set_up : List A → List MacAddr → IoNode A
  set_up adapters ms =
      let io : IoNode A = new in
      record io { adapters = adapters; nic_to_mac = ms ++ drop (length ms) io.nic_to_mac }

  -- Whatever holds of the adapters that are made.
  Built-each :
      (P : A → Type 0) (id : ℕ) (ns : List NicConfig) (adapters : List A) (ms : List MacAddr)
      → ((id : ℕ) (n : NicConfig) (a : A) (m : MacAddr) → Made id n a m → P a)
      → Built id ns adapters ms
      → (i : ℕ) (a : A) → get_elem? adapters i ≡ some a
      → P a
  Built-each P id [] [] [] made b i a e = absurd (cc)
  Built-each P id (n ∷ ns) (x ∷ xs) (m ∷ ms) made (h, b) zero a e = subst P (cc) (made id n x m h)
  Built-each P id (n ∷ ns) (x ∷ xs) (m ∷ ms) made (h, b) (suc i) a e =
      Built-each P (id + 1) ns xs ms made b i a e
  Built-each P id [] (x ∷ xs) ms made b i a e = absurd b
  Built-each P id [] [] (m ∷ ms) made b i a e = absurd b
  Built-each P id (n ∷ ns) [] ms made b i a e = absurd b
  Built-each P id (n ∷ ns) (x ∷ xs) [] made b i a e = absurd b

  set_up-IsSettled :
      (Good Idle : A → Type 0) (ns : List NicConfig) (adapters : List A) (ms : List MacAddr)
      → ((id : ℕ) (n : NicConfig) (a : A) (m : MacAddr) → Made id n a m → Good a × Idle a)
      → Built 0 ns adapters ms
      → length ns ≤ num_adapter_max
      → IsSettled (λ i. Good) (λ i. Idle) (set_up adapters ms)
  unfolding new occurs
  set_up-IsSettled Good Idle ns adapters ms made b room = record {
    valid = record {
      size = refl;
      count = omega (arith, (Built-length 0 ns adapters ms b).0, room);
      bound = omega arith;
      exist = tt;
      flags = λ k. digit-zero k;
    };
    good = Built-each Good 0 ns adapters ms (λ id n a m h. (made id n a m h).0) b;
    quiet = λ i a e _. Built-each Idle 0 ns adapters ms (λ id n a m h. (made id n a m h).1) b i a e;
  }

  -- A node that is set up on a stack of at most 16 cards, whose adapters are known and can be set up, has an
  -- adapter for each card, in the order of the configuration, each set up with the number of its card, the
  -- card's port, the queues of its own graph and the node's queue number; the addresses of the cards are in
  -- front, and the next node gets the next queue number. Where an adapter is made with nothing to send, nothing
  -- waits at the node.
  pub init_node-Built :
      (Good Idle : A → Type 0) (config : ConfigManager) (counter : ℕ) (s : StackConfig)
      (g : GraphEntry) (w : World M)
      → get_stack_config ctx.stack_name config ≡ some s
      → get_elem? s.graphs ctx.graph_id ≡ some g
      → Inits (length g.cpus % u16_mod) counter 0 s.nics
      → length s.nics ≤ num_adapter_max
      → ((id : ℕ) (n : NicConfig) (a : A) (m : MacAddr) → Made id n a m → Good a × Idle a)
      → Ends (init_node M ops debug ctx builders config counter new w) (λ (next, io, w').
        (next ≡ (counter + 1) % u16_mod)
        × (adapters : List A) × (ms : List MacAddr) × Built 0 s.nics adapters ms
        × (io ≡ set_up adapters ms)
        × IsSettled (λ i. Good) (λ i. Idle) io)
  unfolding init_node new
  init_node-Built Good Idle config counter s g w known entry h room made =
      Ends-value _ _ s (ap or_panic known) (
        Ends-value _ _ g (ap or_panic entry) (
          Ends-bind
            (init_nics-Installed (length g.cpus % u16_mod) counter 0 s.nics new w h
              (length-replicate num_adapter_max new_mac) refl (omega (arith, room)))
            (λ (io, w') (adapters, ms, b, same).
              let size = length-replicate num_adapter_max new_mac in
              let shape : io ≡ set_up adapters ms =
                same
                ∙ ap (λ l. record (set_up adapters ms) { nic_to_mac = l })
                    (put_all-zero ms (replicate num_adapter_max new_mac)
                      (omega (arith, (Built-length 0 s.nics adapters ms b).1, room, size))) in
              let settled = set_up-IsSettled Good Idle s.nics adapters ms made b room in
              (
                _,
                refl,
                (
                  refl,
                  adapters,
                  ms,
                  b,
                  shape,
                  subst (IsSettled (λ i. Good) (λ i. Idle)) (sym shape) settled,
                ),
              ))))
