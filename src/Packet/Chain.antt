-- ===== src/Packet/Chain.antt =====
-- packet.rs, `Packet::next`: the packets that hang on one another.
use omni_stack_rust.Base.{
  ℕ, ◌≡◌, refl, ◌∙◌, false, Option, none, some, List, [], ◌∷◌, ◌==◌, All, ==_iff,
}
use omni_stack_rust.Packet.{Packet}
use omni_stack_rust.Packet.Pool.{Mempool, World, store}

-- The packets are different ones.
abbrev pub IsDistinct : List ℕ → Type 0
IsDistinct [] = Unit
IsDistinct (p ∷ ps) = All (λ q. (p == q) ≡ false) ps × IsDistinct ps

module _ {M : Mempool} where
  -- The pointer leads to a packet.
  abbrev pub IsLive : World M → ℕ → Type 0
  IsLive w p = (pkt : Packet) × (w.packets p ≡ some pkt)

  pub packets-store_other :
      (p : ℕ) (pkt : Packet) (w : World M) (q : ℕ)
      → (p == q) ≡ false
      → (store M p pkt w).packets q ≡ w.packets q
  packets-store_other p pkt w q e = rw e

  pub packets-store_self :
      (p : ℕ) (pkt : Packet) (w : World M) → (store M p pkt w).packets p ≡ some pkt
  packets-store_self p pkt w = rw ((==_iff p p).1 refl)

module _ {M : Mempool} (P : Packet → Type 0) where
  -- From `head` on, the pointers lead through these packets, which all have the property, to null.
  abbrev pub Chained : World M → Option ℕ → List ℕ → Type 0
  Chained w head [] = head ≡ none
  Chained w head (p ∷ ps) =
      (head ≡ some p) × (pkt : Packet) × (w.packets p ≡ some pkt) × P pkt × Chained w pkt.next ps

  -- A packet outside the chain may change.
  pub Chained-store :
      (p : ℕ) (new : Packet) (w : World M) (head : Option ℕ) (ps : List ℕ)
      → All (λ q. (p == q) ≡ false) ps
      → Chained w head ps
      → Chained (store M p new w) head ps
  Chained-store p new w head [] apart c = c
  Chained-store p new w head (q ∷ ps) (e, apart) (here, pkt, at, has, rest) = (
    here,
    pkt,
    packets-store_other p new w q e ∙ at,
    has,
    Chained-store p new w pkt.next ps apart rest,
  )
