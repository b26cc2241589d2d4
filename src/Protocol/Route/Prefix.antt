-- ===== src/Protocol/Route/Prefix.antt =====
-- Which addresses a route matches, in octets. The number that `Route::new` keeps has the first octet
-- lowest, so the mask of `cidr` ones takes the low bits of the octet in which the prefix ends.
use native.Mathlib.Nat.{div-add-mod, mod-lt}
use omni_stack_rust.Base.{
  ℕ, zero, suc, ◌+◌, ◌-◌, ◌*◌, ◌/◌, ◌%◌, ◌^◌, ◌≤◌, ◌<◌, ◌≡◌, ◌↔◌, refl, sym, ap, ◌∙◌, Bool, true,
  false, List, [], ◌∷◌, All, length, arith, ok, panic, ==_iff, bit_xor, lt→ltb, le→leb, ap₂, subst,
}
use omni_stack_rust.Base.Word.{u32_mod, sub_word, sub_word_fits}
use omni_stack_rust.Base.Bits.{bit_xor-ones, mod_unique, two_pow_suc, two_pow_pos, bit_and-zero}
use omni_stack_rust.Protocol.Addr.{Ipv4Addr, to_u32_be, from_le_bytes}
use omni_stack_rust.Protocol.Addr.Laws.{IsIpv4}
use omni_stack_rust.Protocol.Route.{Route, new, matches}

-- The first `k` octets agree, and the `j` low bits of the next.
abbrev pub Agree : ℕ → ℕ → List ℕ → List ℕ → Type 0
Agree zero j (x ∷ xs) (y ∷ ys) = x % 2 ^ j ≡ y % 2 ^ j
Agree (suc k) j (x ∷ xs) (y ∷ ys) = (x ≡ y) × Agree k j xs ys
Agree _ _ _ _ = Unit

mod_octet : (x m : ℕ) (v : ℕ) → x < 256 → 0 < m → (x + 256 * v) % (256 * m) ≡ x + 256 * (v % m)
mod_octet x m v hx hm =
    ap (λ (t : ℕ). t % (256 * m)) regroup ∙ mod_unique (v / m) (x + 256 * (v % m)) (256 * m) small
  where
    small : x + 256 * (v % m) < 256 * m
    small = omega (arith, mod-lt v hm)

    regroup : x + 256 * v ≡ v / m * (256 * m) + (x + 256 * (v % m))
    regroup = omega (arith, div-add-mod v m)

low_octet : (j x v : ℕ) → j ≤ 8 → (x + 256 * v) % 2 ^ j ≡ x % 2 ^ j
low_octet zero x v h = omega arith
low_octet (suc zero) x v h = omega arith
low_octet (suc (suc zero)) x v h = omega arith
low_octet (suc (suc (suc zero))) x v h = omega arith
low_octet (suc (suc (suc (suc zero)))) x v h = omega arith
low_octet (suc (suc (suc (suc (suc zero))))) x v h = omega arith
low_octet (suc (suc (suc (suc (suc (suc zero)))))) x v h = omega arith
low_octet (suc (suc (suc (suc (suc (suc (suc zero))))))) x v h = omega arith
low_octet (suc (suc (suc (suc (suc (suc (suc (suc zero)))))))) x v h = omega arith
low_octet (suc (suc (suc (suc (suc (suc (suc (suc (suc j))))))))) x v h = absurd (omega arith)

pow_octet : (n : ℕ) → 2 ^ (8 + n) ≡ 256 * 2 ^ n
pow_octet n =
    let e : 8 + n ≡ suc (suc (suc (suc (suc (suc (suc (suc n))))))) = omega arith in
    rw e (
      omega (
        arith,
        two_pow_suc n,
        two_pow_suc (suc n),
        two_pow_suc (suc (suc n)),
        two_pow_suc (suc (suc (suc n))),
        two_pow_suc (suc (suc (suc (suc n)))),
        two_pow_suc (suc (suc (suc (suc (suc n))))),
        two_pow_suc (suc (suc (suc (suc (suc (suc n)))))),
        two_pow_suc (suc (suc (suc (suc (suc (suc (suc n))))))),
      ))

bits_of : ℕ → ℕ → ℕ
bits_of k j = 8 * k + j

Agree-iff :
    (k j : ℕ) (xs ys : List ℕ)
    → j ≤ 8
    → k < length xs
    → length xs ≡ length ys
    → All (λ b. b < 256) xs
    → All (λ b. b < 256) ys
    → (from_le_bytes xs % 2 ^ bits_of k j ≡ from_le_bytes ys % 2 ^ bits_of k j) ↔ Agree k j xs ys
unfolding from_le_bytes bits_of
Agree-iff k j [] ys hj hk n bx by_ = absurd (omega arith)
Agree-iff k j (x ∷ xs) [] hj hk n bx by_ = absurd (omega arith)
Agree-iff zero j (x ∷ xs) (y ∷ ys) hj hk n bx by_ =
    let e : 8 * 0 + j ≡ j = omega arith in
    rw (e, low_octet j x (from_le_bytes xs) hj, low_octet j y (from_le_bytes ys) hj)
      (λ h. h, λ h. h)
Agree-iff (suc k) j (x ∷ xs) (y ∷ ys) hj hk n bx by_ =
    step (Agree-iff k j xs ys hj (omega arith) (omega arith) bx.1 by_.1)
  where
    m : ℕ
    m = 2 ^ bits_of k j

    wide : 2 ^ bits_of (suc k) j ≡ 256 * m
    wide = ap (λ (t : ℕ). 2 ^ t) (omega arith) ∙ pow_octet (8 * k + j)

    split_off :
        (z : ℕ) (zs : List ℕ)
        → z < 256
        → (z + 256 * from_le_bytes zs) % 2 ^ bits_of (suc k) j ≡ z + 256 * (from_le_bytes zs % m)
    split_off z zs hz = rw wide (mod_octet z m (from_le_bytes zs) hz (two_pow_pos (8 * k + j)))

    step :
        (from_le_bytes xs % m ≡ from_le_bytes ys % m) ↔ Agree k j xs ys
        → (from_le_bytes (x ∷ xs) % 2 ^ bits_of (suc k) j
            ≡ from_le_bytes (y ∷ ys) % 2 ^ bits_of (suc k) j)
          ↔ Agree (suc k) j (x ∷ xs) (y ∷ ys)
    step ih =
        rw (split_off x xs bx.0, split_off y ys by_.0)
          (
            λ h. (omega (arith, bx.0, by_.0), ih.0 (omega (arith, bx.0, by_.0))),
            λ h. ap₂ (λ (u v : ℕ). u + 256 * v) h.0 (ih.1 h.1),
          )

-- The route that `Route::new` makes of a prefix length below 32.
pub new-below_32 :
    (debug : Bool) (a : Ipv4Addr) (cidr nic : ℕ)
    → cidr < 32
    → new debug a cidr nic
      ≡ ok (record { ip = to_u32_be a; cidr_mask = 2 ^ cidr - 1; nic = nic; cidr = cidr })
unfolding new
new-below_32 debug a cidr nic h = rw (
  le→leb cidr 32 (omega arith),
  lt→ltb cidr 32 h,
  sub_word_fits debug u32_mod (2 ^ cidr) 1 (two_pow_pos cidr),
)

matches-mod :
    (ip nic cidr other : ℕ)
    → (matches (record { ip = ip; cidr_mask = 2 ^ cidr - 1; nic = nic; cidr = cidr }) other ≡ true)
      ↔ (ip % 2 ^ cidr ≡ other % 2 ^ cidr)
unfolding matches
matches-mod ip nic cidr other = (
  λ h. (bit_xor-ones cidr ip other).0 ((==_iff _ 0).0 h),
  λ h. (==_iff _ 0).1 ((bit_xor-ones cidr ip other).1 h),
)

-- A route with a prefix of `8 * k + j` bits, `k` below 4 and `j` below 8, matches an address exactly
-- when the first `k` octets agree and the `j` low bits of the next octet do, in either profile.
pub matches-Agree :
    (debug : Bool) (a b : Ipv4Addr) (k j nic : ℕ) {r : Route}
    → IsIpv4 a
    → IsIpv4 b
    → k < 4
    → j < 8
    → new debug a (8 * k + j) nic ≡ ok r
    → (matches r (to_u32_be b) ≡ true) ↔ Agree k j a.octets b.octets
unfolding to_u32_be bits_of
matches-Agree debug a b k j nic {r} va vb hk hj e =
    subst (λ t. (matches t (to_u32_be b) ≡ true) ↔ Agree k j a.octets b.octets) made
      (
        λ h.
            (Agree-iff k j a.octets b.octets (omega arith) (omega (arith, va.four))
                (va.four ∙ sym vb.four) va.bytes vb.bytes).0
              ((matches-mod _ nic (8 * k + j) _).0 h),
        λ h. (matches-mod _ nic (8 * k + j) _).1 (
            (Agree-iff k j a.octets b.octets (omega arith) (omega (arith, va.four))
                (va.four ∙ sym vb.four) va.bytes vb.bytes).1
              h),
      )
  where
    made :
        record { ip = to_u32_be a; cidr_mask = 2 ^ (8 * k + j) - 1; nic = nic; cidr = 8 * k + j }
        ≡ r
    made = cc (e, new-below_32 debug a (8 * k + j) nic (omega arith))

-- A host route, of 32 bits, panics in a debug build; in a release build its mask is 0, and it matches
-- every address.
pub new-host_route :
    (a : Ipv4Addr) (nic : ℕ)
    → (new true a 32 nic ≡ panic)
      × ((r : Route) × (new false a 32 nic ≡ ok r) × ((ip : ℕ) → matches r ip ≡ true))
unfolding new matches sub_word
new-host_route a nic = (
  refl,
  (
    record { ip = to_u32_be a; cidr_mask = 0; nic = nic; cidr = 32 },
    refl,
    λ ip. (==_iff _ 0).1 (bit_and-zero (bit_xor (to_u32_be a) ip)),
  ),
)
