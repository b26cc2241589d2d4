-- ===== src/Modules/Ipv4/Select.antt =====
-- The route that `Ipv4Sender` takes: the longest prefix that matches, the first among equals.
use omni_stack_rust.Base.{
  ℕ, ◌≤◌, ◌<◌, ◌≡◌, refl, ap, ◌∙◌, ◌⊎◌, inl, inr, Bool, true, false, Option, none, some, List, [],
  ◌∷◌, ◌++◌, All, arith, ltb, ltb→lt,
}
use omni_stack_rust.Protocol.Route.{Route, matches}
use omni_stack_rust.Modules.Ipv4.{select, choose_nic, dst_addr}

-- Routes that match have prefixes of at most this length, or of less.
abbrev pub AtMost : ℕ → ℕ → List Route → Type 0
AtMost d m = All (λ r. matches r d ≡ true → r.cidr ≤ m)

abbrev pub Below : ℕ → ℕ → List Route → Type 0
Below d m = All (λ r. matches r d ≡ true → r.cidr < m)

pub data Chosen (routes : List Route) (d m : ℕ) (fallback result : Option ℕ) : Type 0 where
  kept : AtMost d m routes → result ≡ fallback → Chosen routes d m fallback result
  taken :
      (before : List Route) (r : Route) (after : List Route)
      → routes ≡ before ++ r ∷ after
      → matches r d ≡ true
      → m < r.cidr
      → Below d r.cidr before
      → AtMost d r.cidr after
      → result ≡ some r.nic
      → Chosen routes d m fallback result

Chosen-taken :
    (r : Route) (rs : List Route) (d m : ℕ) (fallback result : Option ℕ)
    → matches r d ≡ true
    → m < r.cidr
    → Chosen rs d r.cidr (some r.nic) result
    → Chosen (r ∷ rs) d m fallback result
Chosen-taken r rs d m fallback result h l (kept a e) = taken [] r rs refl h l tt a e
Chosen-taken r rs d m fallback result h l (taken b s c e k n before after t) =
    taken (r ∷ b) s c (ap (◌∷◌ r) e) k (omega arith) ((λ _. n), before) after t

Chosen-passed :
    (r : Route) (rs : List Route) (d m : ℕ) (fallback result : Option ℕ)
    → (matches r d ≡ true → r.cidr ≤ m)
    → Chosen rs d m fallback result
    → Chosen (r ∷ rs) d m fallback result
Chosen-passed r rs d m fallback result h (kept a e) = kept (h, a) e
Chosen-passed r rs d m fallback result h (taken b s c e k n before after t) =
    taken (r ∷ b) s c (ap (◌∷◌ r) e) k n ((λ x. omega (arith, h x)), before) after t

select-Chosen :
    (rs : List Route) (d m : ℕ) (fallback : Option ℕ)
    → Chosen rs d m fallback (select rs d m fallback)
unfolding select
select-Chosen [] d m fallback = kept tt refl
select-Chosen (r ∷ rs) d m fallback =
    by_tests (matches r d) refl (ltb m r.cidr) refl (select-Chosen rs d r.cidr (some r.nic))
      (select-Chosen rs d m fallback)
  where
    by_tests :
        (b : Bool)
        → matches r d ≡ b
        → (c : Bool) → ltb m r.cidr ≡ c
        → Chosen rs d r.cidr (some r.nic) (select rs d r.cidr (some r.nic))
        → Chosen rs d m fallback (select rs d m fallback)
        → Chosen (r ∷ rs) d m fallback (select (r ∷ rs) d m fallback)
    by_tests true e true f t p =
        rw (e, f) (Chosen-taken r rs d m fallback _ e (ltb→lt m r.cidr f) t)
    by_tests true e false f t p =
        rw (e, f) (Chosen-passed r rs d m fallback _ (λ _. ground arith) p)
    by_tests false e c f t p = rw e (Chosen-passed r rs d m fallback _ (λ h. absurd (cc)) p)

-- The nic of a packet that `Ipv4Sender` sends: that of the first route among those with the longest
-- prefix that match the destination; 0, if none with a prefix longer than 0 matches.
pub choose_nic-longest :
    (routes : List Route)
    → (AtMost dst_addr 0 routes × (choose_nic routes ≡ 0))
      ⊎ ((before : List Route) × (r : Route) × (after : List Route) × (routes ≡ before ++ r ∷ after)
          × (matches r dst_addr ≡ true)
          × Below dst_addr r.cidr before
          × AtMost dst_addr r.cidr after
          × (choose_nic routes ≡ r.nic))
unfolding choose_nic
choose_nic-longest routes =
    by_choice (select routes dst_addr 0 none) refl (select-Chosen routes dst_addr 0 none)
  where
    by_choice :
        (n : Option ℕ)
        → select routes dst_addr 0 none ≡ n
        → Chosen routes dst_addr 0 none n
        → (AtMost dst_addr 0 routes × (choose_nic routes ≡ 0))
          ⊎ ((before : List Route) × (r : Route) × (after : List Route) × (routes
                ≡ before ++ r ∷ after)
              × (matches r dst_addr ≡ true)
              × Below dst_addr r.cidr before
              × AtMost dst_addr r.cidr after
              × (choose_nic routes ≡ r.nic))
    by_choice n f (kept a e) = inl (a, rw (f ∙ e))
    by_choice n f (taken b r c e k l before after t) =
        inr (b, r, c, e, k, before, after, rw (f ∙ t))
