-- ===== src/Packet/Pool/Grants.antt =====
-- packet.rs, `PacketPool::allocate`: the packet that is handed out.
use mathlib.Core.List.{Mem, Perm, Nodup, Nodup-cons, mem-cons_of_mem, mem-cons_self}
use mathlib.Core.List.Perm
use omni_stack_rust.Base.{
  ℕ, ◌≡◌, refl, ap, ◌∙◌, subst, Bool, true, false, Option, none, some, List, [], ◌∷◌, Ends, ◌==◌,
  ==_iff, arith,
}
use omni_stack_rust.Packet.Chain.{IsLive}
use omni_stack_rust.Packet.Pool.{Mempool, World, allocate, allocate_many, taken, first_of_one}

module _ {M : Mempool} where
  -- What the pool hands out are packets, and no packet twice.
  pub record IsStocked (w : World M) : Type 0 where
    pub live : (q : ℕ) → Mem q (M.content w.pool) → IsLive w q
    pub once : Nodup (M.content w.pool)

  -- What `allocate` takes is taken out of the pool, and nothing else changes.
  abbrev pub Grants : World M → Option (ℕ × World M) → Type 0
  Grants w none = Unit
  Grants w (some (p, w')) =
      (w'.packets ≡ w.packets) × Perm (M.content w.pool) (p ∷ M.content w'.pool)

  pub allocate-Grants : (thread : ℕ) (w : World M) → Ends (allocate M thread w) (Grants w)
  unfolding allocate allocate_many
  allocate-Grants thread w = go (M.get 1 thread w.pool) refl
    where
      go :
          (o : Option (List ℕ × M.State))
          → M.get 1 thread w.pool ≡ o
          → Ends (first_of_one M (taken M o w)) (Grants w)
      go none e = (none, refl, tt)
      go (some ([], s)) e = absurd (omega (arith, (M.get_lem 1 thread w.pool s [] e).0))
      go (some (p ∷ [], s)) e = (
        some (p, record w { pool = s }),
        refl,
        (refl, (M.get_lem 1 thread w.pool s (p ∷ []) e).1),
      )
      go (some (p ∷ q ∷ rest, s)) e =
          absurd (omega (arith, (M.get_lem 1 thread w.pool s (p ∷ q ∷ rest) e).0))

  -- A packet that was granted: it is one, and the pool has no more of it than of those granted before.
  pub record Granted (w : World M) (p : ℕ) (w' : World M) : Type 0 where
    pub same : w'.packets ≡ w.packets
    pub live : IsLive w' p
    pub stocked : IsStocked w'
    pub gone : ¬ Mem p (M.content w'.pool)
    pub apart : (q : ℕ) → ¬ Mem q (M.content w.pool) → (p == q) ≡ false
    pub still_gone : (q : ℕ) → ¬ Mem q (M.content w.pool) → ¬ Mem q (M.content w'.pool)

  pub Grants-Granted :
      (w w' : World M) (p : ℕ) → IsStocked w → Grants w (some (p, w')) → Granted w p w'
  Grants-Granted w w' p s (same, perm) = record {
    same = same;
    live = moved p (s.live p here);
    stocked = record { live = λ q m. moved q (s.live q (kept q m)); once = split.1 };
    gone = split.0;
    apart = λ q absent. other q absent (p == q) refl;
    still_gone = λ q absent m. absent (kept q m);
  }
    where
      split : (¬ Mem p (M.content w'.pool)) × Nodup (M.content w'.pool)
      split = Nodup-cons.0 (Perm.nodup perm s.once)

      here : Mem p (M.content w.pool)
      here = (Perm.mem_iff perm).1 mem-cons_self

      kept : (q : ℕ) → Mem q (M.content w'.pool) → Mem q (M.content w.pool)
      kept q m = (Perm.mem_iff perm).1 (mem-cons_of_mem p m)

      moved : (q : ℕ) → IsLive w q → IsLive w' q
      moved q (pkt, at) = (pkt, ap (λ f. f q) same ∙ at)

      other : (q : ℕ) → ¬ Mem q (M.content w.pool) → (b : Bool) → (p == q) ≡ b → (p == q) ≡ false
      other q absent true e =
          absurd (absent (subst (λ x. Mem x (M.content w.pool)) ((==_iff p q).0 e) here))
      other q absent false e = e
