-- ===== src/Base/Bits/Step.antt =====
-- `&`, `|` and `^` from the lowest digit up: one equation for each.
use Prim.Native.Nat.{ℕ, zero, suc, ◌+◌, ◌*◌, ◌/◌, ◌%◌, ◌≤◌, min, max, digits, bitwise, differ}
use Prim.Native.Nat.{bit_and, bit_or, bit_xor, bit_and-bitwise, bit_or-bitwise, bit_xor-bitwise}
use mathlib.Core.Path.{◌≡◌, refl}
use native.Mathlib.Omega.{arith}

module _ (alone : ℕ → ℕ) (both : ℕ → ℕ → ℕ) where
  -- Any two numbers of digits that cover `x` give the same.
  covered : (y x j k : ℕ) → (x ≤ j) × (x ≤ k) → digits alone both j x y ≡ digits alone both k x y
  covered y zero zero zero h = refl
  covered y zero zero (suc k) h = refl
  covered y zero (suc j) zero h = refl
  covered y zero (suc j) (suc k) h = refl
  covered y (suc x) zero k (less, _) = absurd (omega (arith, less))
  covered y (suc x) (suc j) zero (_, less) = absurd (omega (arith, less))
  covered y (suc x) (suc j) (suc k) (hj, hk) =
      let rest = covered (y / 2) (suc x / 2) j k (omega (arith, hj), omega (arith, hk)) in
      omega (arith, rest)

  halved :
      (x y : ℕ)
      → bitwise alone both (suc x) y
        ≡ both (suc x % 2) (y % 2) + 2 * bitwise alone both (suc x / 2) (y / 2)
  halved x y =
      let rest = covered (y / 2) (suc x / 2) x (suc x / 2) (omega arith, omega arith) in
      omega (arith, rest)

pub bit_or_step : (x y : ℕ) → bit_or x y ≡ max (x % 2) (y % 2) + 2 * bit_or (x / 2) (y / 2)
bit_or_step zero y = omega (arith, bit_or-bitwise 0 y, bit_or-bitwise 0 (y / 2))
bit_or_step (suc x) y =
    omega
      (arith, halved (λ d. d) max x y, bit_or-bitwise (suc x) y, bit_or-bitwise (suc x / 2) (y / 2))

pub bit_and_step : (x y : ℕ) → bit_and x y ≡ min (x % 2) (y % 2) + 2 * bit_and (x / 2) (y / 2)
bit_and_step zero y = omega (arith, bit_and-bitwise 0 y, bit_and-bitwise 0 (y / 2))
bit_and_step (suc x) y =
    omega (
      arith,
      halved (λ d. 0) min x y,
      bit_and-bitwise (suc x) y,
      bit_and-bitwise (suc x / 2) (y / 2),
    )

pub bit_xor_step : (x y : ℕ) → bit_xor x y ≡ differ (x % 2) (y % 2) + 2 * bit_xor (x / 2) (y / 2)
bit_xor_step zero y = omega (arith, bit_xor-bitwise 0 y, bit_xor-bitwise 0 (y / 2))
bit_xor_step (suc x) y = omega (
  arith,
  halved (λ d. d) differ x y,
  bit_xor-bitwise (suc x) y,
  bit_xor-bitwise (suc x / 2) (y / 2),
)
