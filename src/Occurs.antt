-- ===== src/Occurs.antt =====
-- How often a number is in a list, and what fits into a range when none is there twice.
use omni_stack_rust.Base.{
  ℕ, zero, suc, ◌+◌, ◌≤◌, ◌<◌, ◌≡◌, refl, Bool, true, false, List, [], ◌∷◌, ◌++◌, length, take, set,
  ltb, ◌==◌, All, arith, ap, Bool-cases, inl, inr, ltb→lt,
}

abbrev pub times : ℕ → Bool → ℕ
times k true = k
times k false = 0

unfoldable pub occurs : ℕ → List ℕ → ℕ
occurs n [] = 0
occurs n (m ∷ ms) = times 1 (m == n) + occurs n ms

pub occurs-append :
    (n m : ℕ) (xs : List ℕ) → occurs n (xs ++ m ∷ []) ≡ times 1 (m == n) + occurs n xs
unfolding occurs
occurs-append n m [] = refl
occurs-append n m (x ∷ xs) = omega (arith, occurs-append n m xs)

-- The occurrences of the numbers below `n`.
tally : ℕ → List ℕ → ℕ
tally zero xs = 0
tally (suc n) xs = occurs n xs + tally n xs

tally-nil : (n : ℕ) → tally n [] ≡ 0
unfolding tally occurs
tally-nil zero = refl
tally-nil (suc n) = omega (arith, tally-nil n)

tally-cons : (n x : ℕ) (xs : List ℕ) → tally n (x ∷ xs) ≡ times 1 (ltb x n) + tally n xs
unfolding tally occurs
tally-cons zero x xs = ground arith
tally-cons (suc n) x xs = let ih = tally-cons n x xs in ground arith

tally-length : (n : ℕ) (xs : List ℕ) → All (λ x. x < n) xs → tally n xs ≡ length xs
tally-length n [] all = tally-nil n
tally-length n (x ∷ xs) (h, all) =
    let ih = tally-length n xs all in let step = tally-cons n x xs in ground arith

tally_le : (n : ℕ) (xs : List ℕ) → ((k : ℕ) → occurs k xs ≤ 1) → tally n xs ≤ n
unfolding tally
tally_le zero xs once = omega arith
tally_le (suc n) xs once = omega (arith, once n, tally_le n xs once)

tally_lt :
    (n m : ℕ) (xs : List ℕ) → ((k : ℕ) → occurs k xs ≤ 1) → m < n → occurs m xs ≡ 0 → tally n xs < n
unfolding tally
tally_lt zero m xs once h absent = absurd (omega arith)
tally_lt (suc n) m xs once h absent = elim (Bool-cases (ltb m n)) [
  | inl e ↦ omega (arith, once n, tally_lt n m xs once (ltb→lt m n e) absent)
  | inr e ↦
      let same : m ≡ n = ground arith in
      omega (arith, tally_le n xs once, ap (λ k. occurs k xs) same, absent)
]

-- A list without repetitions that misses one of the numbers below `n` is shorter than `n`.
pub length_lt_range :
    (n m : ℕ) (xs : List ℕ)
    → All (λ x. x < n) xs
    → ((k : ℕ) → occurs k xs ≤ 1)
    → m < n
    → occurs m xs ≡ 0
    → length xs < n
length_lt_range n m xs all once h absent =
    omega (arith, tally-length n xs all, tally_lt n m xs once h absent)

pub take-set_end :
    (xs : List ℕ) (i v : ℕ) → i < length xs → take (suc i) (set xs i v) ≡ take i xs ++ v ∷ []
take-set_end [] i v h = absurd (omega arith)
take-set_end (x ∷ xs) zero v h = refl
take-set_end (x ∷ xs) (suc i) v h = ap (λ r. x ∷ r) (take-set_end xs i v (omega arith))
