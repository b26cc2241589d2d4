-- ===== src/Base/Bits.antt =====
-- Laws of `&`, `|` and `^` on binary digits: the digit of a result, and what a single bit or a low
-- mask selects.
mod Step
use Step.{bit_or_step, bit_and_step, bit_xor_step}
use Prim.Native.Nat.{
  ℕ, zero, suc, ◌+◌, ◌-◌, ◌*◌, ◌/◌, ◌%◌, ◌^◌, ◌≤◌, ◌<◌, min, max, digits, bitwise, differ,
}
use Prim.Native.Nat.{bit_and, bit_or, bit_xor, bit_and-bitwise, bit_or-bitwise, bit_xor-bitwise}
use mathlib.Core.Path.{◌≡◌, refl, ap, ◌∙◌, sym}
use mathlib.Core.Logic.{◌≢◌, ◌↔◌}
use native.Mathlib.Nat.{le_refl, pow-suc, one-le-pow}
use native.Mathlib.Omega.{arith}

-- `x << k` before it is cut to its width.
infixl 75 ◌<<<◌
abbrev pub ◌<<<◌ : ℕ → ℕ → ℕ
x <<< k = x * 2 ^ k

-- The binary digit at place `k`.
pub digit : ℕ → ℕ → ℕ
digit zero a = a % 2
digit (suc k) a = digit k (a / 2)

pub digit_le_one : (k a : ℕ) → digit k a ≤ 1
unfolding digit
digit_le_one zero a = omega arith
digit_le_one (suc k) a = digit_le_one k (a / 2)

pub digit-zero : (k : ℕ) → digit k 0 ≡ 0
unfolding digit
digit-zero zero = refl
digit-zero (suc k) = digit-zero k

pub digit-bit_or : (k a b : ℕ) → digit k (bit_or a b) ≡ max (digit k a) (digit k b)
unfolding digit
digit-bit_or zero a b = omega (arith, bit_or_step a b)
digit-bit_or (suc k) a b =
    let e : bit_or a b / 2 ≡ bit_or (a / 2) (b / 2) = omega (arith, bit_or_step a b) in
    ap (digit k) e ∙ digit-bit_or k (a / 2) (b / 2)

differ_digits : (x y : ℕ) → x < 2 → y < 2 → (differ x y < 2) × (differ x y ≡ (x + y) % 2)
differ_digits zero zero p q = omega arith
differ_digits zero (suc y) p q = omega arith
differ_digits (suc x) zero p q = omega arith
differ_digits (suc zero) (suc zero) p q = omega arith
differ_digits (suc zero) (suc (suc y)) p q = absurd (omega arith)
differ_digits (suc (suc x)) (suc y) p q = absurd (omega arith)

xor_low : (a b : ℕ) → (bit_xor a b / 2 ≡ bit_xor (a / 2) (b / 2)) × (bit_xor a b % 2 ≡ (a + b) % 2)
xor_low a b =
    omega (arith, bit_xor_step a b, differ_digits (a % 2) (b % 2) (omega arith) (omega arith))

pub digit-bit_xor : (k a b : ℕ) → digit k (bit_xor a b) ≡ (digit k a + digit k b) % 2
unfolding digit
digit-bit_xor zero a b = omega (arith, xor_low a b)
digit-bit_xor (suc k) a b = ap (digit k) (xor_low a b).0 ∙ digit-bit_xor k (a / 2) (b / 2)

pub two_pow_suc : (k : ℕ) → 2 ^ suc k ≡ 2 * 2 ^ k
two_pow_suc k = omega (arith, pow-suc 2 k)

pub two_pow_pos : (k : ℕ) → 0 < 2 ^ k
two_pow_pos k = one-le-pow k 2 (omega arith)

pub digit-two_pow_self : (k : ℕ) → digit k (2 ^ k) ≡ 1
unfolding digit
digit-two_pow_self zero = refl
digit-two_pow_self (suc k) =
    let e : 2 ^ suc k / 2 ≡ 2 ^ k = omega (arith, two_pow_suc k) in
    ap (digit k) e ∙ digit-two_pow_self k

pub digit-two_pow_ne : (k j : ℕ) → k ≢ j → digit k (2 ^ j) ≡ 0
unfolding digit
digit-two_pow_ne zero zero h = absurd (h refl)
digit-two_pow_ne zero (suc j) h = omega (arith, two_pow_suc j)
digit-two_pow_ne (suc k) zero h = digit-zero k
digit-two_pow_ne (suc k) (suc j) h =
    let e : 2 ^ suc j / 2 ≡ 2 ^ j = omega (arith, two_pow_suc j) in
    ap (digit k) e ∙ digit-two_pow_ne k j (λ p. h (ap suc p))

no_digits : (bound x : ℕ) → x ≤ bound → bit_and x 0 ≡ 0
no_digits bound zero fits = refl
no_digits zero (suc x) fits = absurd (omega (arith, fits))
no_digits (suc bound) (suc x) fits =
    let half = no_digits bound (suc x / 2) (omega (arith, fits)) in
    omega (arith, half, bit_and_step (suc x) 0)

pub bit_and-zero : (a : ℕ) → bit_and a 0 ≡ 0
bit_and-zero a = no_digits a a (le_refl a)

-- A one-bit mask selects that digit, in its place.
pub bit_and-two_pow : (k a : ℕ) → bit_and a (2 ^ k) ≡ digit k a * 2 ^ k
unfolding digit
bit_and-two_pow zero a = omega (arith, bit_and_step a 1, bit_and-zero (a / 2))
bit_and-two_pow (suc k) a =
    let e : 2 ^ suc k / 2 ≡ 2 ^ k = omega (arith, two_pow_suc k) in
    let below : bit_and (a / 2) (2 ^ suc k / 2) ≡ digit k (a / 2) * 2 ^ k =
      ap (bit_and (a / 2)) e ∙ bit_and-two_pow k (a / 2) in
    omega (
      arith,
      bit_and_step a (2 ^ suc k),
      two_pow_suc k,
      below,
      ap (λ (t : ℕ). digit k (a / 2) * t) (two_pow_suc k),
    )

-- So a test `x & (1 << k) == 0` reads the digit.
pub bit_and-two_pow_eq_zero : (k a : ℕ) → (bit_and a (2 ^ k) ≡ 0) ↔ (digit k a ≡ 0)
bit_and-two_pow_eq_zero k a = (down, up)
  where
    down : bit_and a (2 ^ k) ≡ 0 → digit k a ≡ 0
    down h = grind (arith, bit_and-two_pow k a, one-le-pow k 2, digit_le_one k a)

    up : digit k a ≡ 0 → bit_and a (2 ^ k) ≡ 0
    up h = omega (arith, bit_and-two_pow k a, ap (λ (t : ℕ). t * 2 ^ k) h)

-- The `k` lowest digits.
low : ℕ → ℕ → ℕ
low zero a = 0
low (suc k) a = low k (a / 2) * 2 + a % 2

low-split : (k a : ℕ) → (q : ℕ) × (a ≡ q * 2 ^ k + low k a) × (low k a < 2 ^ k)
unfolding low
low-split zero a = (a, omega arith, omega arith)
low-split (suc k) a =
    let (q, e, h) = low-split k (a / 2) in
    (
      q,
      omega (arith, e, ap (λ (t : ℕ). q * t) (two_pow_suc k), two_pow_suc k),
      omega (arith, h, two_pow_suc k),
    )

pub mod_unique : (q r m : ℕ) → r < m → (q * m + r) % m ≡ r
mod_unique q r m h = grind arith

low-eq_mod : (k a : ℕ) → low k a ≡ a % 2 ^ k
low-eq_mod k a =
    let (q, e, h) = low-split k a in
    sym (ap (λ (t : ℕ). t % 2 ^ k) e ∙ mod_unique q (low k a) (2 ^ k) h)

bit_and-low : (k a : ℕ) → bit_and a (2 ^ k - 1) ≡ low k a
unfolding low
bit_and-low zero a = bit_and-zero a
bit_and-low (suc k) a =
    let e : (2 ^ suc k - 1) / 2 ≡ 2 ^ k - 1 = omega (arith, two_pow_suc k, one-le-pow k 2) in
    let below : bit_and (a / 2) ((2 ^ suc k - 1) / 2) ≡ low k (a / 2) =
      ap (bit_and (a / 2)) e ∙ bit_and-low k (a / 2) in
    omega (arith, bit_and_step a (2 ^ suc k - 1), below, two_pow_suc k, one-le-pow k 2)

-- A mask of `k` ones is the remainder by `2 ^ k`.
pub bit_and-ones : (k a : ℕ) → bit_and a (2 ^ k - 1) ≡ a % 2 ^ k
bit_and-ones k a = bit_and-low k a ∙ low-eq_mod k a

low-bit_xor : (k a b : ℕ) → (low k (bit_xor a b) ≡ 0) ↔ (low k a ≡ low k b)
unfolding low
low-bit_xor zero a b = (λ _. refl, λ _. refl)
low-bit_xor (suc k) a b = step (low-bit_xor k (a / 2) (b / 2))
  where
    rest : low k (bit_xor a b / 2) ≡ low k (bit_xor (a / 2) (b / 2))
    rest = ap (low k) (xor_low a b).0

    step :
        (low k (bit_xor (a / 2) (b / 2)) ≡ 0) ↔ (low k (a / 2) ≡ low k (b / 2))
        → (low (suc k) (bit_xor a b) ≡ 0) ↔ (low (suc k) a ≡ low (suc k) b)
    step ih = (
      λ h.
          let above : low k (bit_xor (a / 2) (b / 2)) ≡ 0 = omega (arith, rest) in
          omega (arith, xor_low a b, ih.0 above),
      λ h.
          let same : low k (a / 2) ≡ low k (b / 2) = omega arith in
          omega (arith, xor_low a b, rest, ih.1 same),
    )

-- `(a ^ b) & ones(k)` is 0 exactly when `a` and `b` agree on their `k` lowest digits.
pub bit_xor-ones : (k a b : ℕ) → (bit_and (bit_xor a b) (2 ^ k - 1) ≡ 0) ↔ (a % 2 ^ k ≡ b % 2 ^ k)
bit_xor-ones k a b = (down, up)
  where
    down : bit_and (bit_xor a b) (2 ^ k - 1) ≡ 0 → a % 2 ^ k ≡ b % 2 ^ k
    down h =
        sym (low-eq_mod k a)
        ∙ ((low-bit_xor k a b).0 (sym (bit_and-low k (bit_xor a b)) ∙ h) ∙ low-eq_mod k b)

    up : a % 2 ^ k ≡ b % 2 ^ k → bit_and (bit_xor a b) (2 ^ k - 1) ≡ 0
    up h =
        bit_and-low k (bit_xor a b)
        ∙ (low-bit_xor k a b).1 (low-eq_mod k a ∙ (h ∙ sym (low-eq_mod k b)))
