-- ===== src/Base/Runs.antt =====
-- How a run of Rust code ends: with a value, in a panic, or in undefined behaviour (an unchecked
-- index out of bounds, a null or dangling pointer). Overflow is checked or wraps by the profile.
use mathlib.Core.Path.{ap, ◌≡◌, refl, sym, ◌∙◌, subst}
use mathlib.Core.Option.{Option, none, some}

pub data Outcome {ℓ} (A : Type ℓ) : Type ℓ where
  ok : A → Outcome A
  panic : Outcome A
  undefined : Outcome A

-- What follows runs only after a value.
infixl 5 ◌>>=◌
abbrev pub ◌>>=◌ {ℓ κ} : {A : Type ℓ} {B : Type κ} → Outcome A → (A → Outcome B) → Outcome B
panic >>= then = panic
undefined >>= then = undefined
ok a >>= then = then a

-- `unwrap`, `expect` and a checked index.
abbrev pub or_panic {ℓ} : {A : Type ℓ} → Option A → Outcome A
or_panic none = panic
or_panic (some a) = ok a

-- `get_unchecked`, and a raw pointer that is followed.
abbrev pub or_undefined {ℓ} : {A : Type ℓ} → Option A → Outcome A
or_undefined none = undefined
or_undefined (some a) = ok a

pub ok-injective {ℓ} : {A : Type ℓ} {x y : A} → ok x ≡ ok y → x ≡ y
ok-injective e = cc

-- A sequence that gave a value did so through a value of its first part.
pub >>=-eq-ok {ℓ κ} :
    {B : Type κ} {A : Type ℓ} (run : Outcome A) (then : A → Outcome B) {b : B}
    → (run >>= then) ≡ ok b
    → (a : A) × (run ≡ ok a) × (then a ≡ ok b)
>>=-eq-ok undefined then e = absurd (cc)
>>=-eq-ok panic then e = absurd (cc)
>>=-eq-ok (ok first) then e = (first, refl, e)

-- The code ends with a value that has the property: total correctness.
abbrev pub Ends {ℓ κ} : {A : Type ℓ} → Outcome A → (A → Type κ) → Type (ℓ ⊔ κ)
Ends {A} m P = (a : A) × (m ≡ ok a) × P a

-- The rule for a sequence.
pub Ends-bind {ℓ κ μ ν} :
    {A : Type ℓ} {B : Type μ} {m : Outcome A} {f : A → Outcome B} {P : A → Type κ} {Q : B → Type ν}
    → Ends m P
    → ((a : A) → P a → Ends (f a) Q)
    → Ends (m >>= f) Q
Ends-bind (a, e, p) k = let (b, e', q) = k a p in (b, rw e e', q)

-- A value that is known.
pub Ends-value {ℓ κ ν} :
    {A : Type ℓ} {B : Type κ} (m : Outcome A) (f : A → Outcome B) {Q : B → Type ν} (a : A)
    → m ≡ ok a
    → Ends (f a) Q
    → Ends (m >>= f) Q
Ends-value m f a e (b, e', q) = (b, rw e e', q)

-- What holds of every run holds of one.
pub Ends-of {ℓ κ} :
    {A : Type ℓ} {m : Outcome A} {P : A → Type κ} {a : A} → Ends m P → m ≡ ok a → P a
Ends-of {P} (b, e, p) h = subst P (ok-injective (sym e ∙ h)) p

pub or_panic-eq-ok {ℓ} : {A : Type ℓ} {a : A} (o : Option A) → or_panic o ≡ ok a → o ≡ some a
or_panic-eq-ok none e = cc
or_panic-eq-ok (some x) e = cc

pub or_undefined-eq-ok {ℓ} :
    {A : Type ℓ} {a : A} (o : Option A) → or_undefined o ≡ ok a → o ≡ some a
or_undefined-eq-ok none e = cc
or_undefined-eq-ok (some x) e = cc

-- What holds of the value if there is one: partial correctness.
abbrev pub Gives {ℓ κ} : {A : Type ℓ} → Outcome A → (A → Type κ) → Type (ℓ ⊔ κ)
Gives {A} m P = (a : A) → m ≡ ok a → P a

-- A first part of which nothing has to be known.
pub Gives-any {ℓ κ ν} :
    {A : Type ℓ} {B : Type κ} (m : Outcome A) {f : A → Outcome B} {Q : B → Type ν}
    → ((a : A) → Gives (f a) Q)
    → Gives (m >>= f) Q
Gives-any panic k b e = absurd (cc)
Gives-any undefined k b e = absurd (cc)
Gives-any (ok a) k b e = k a b e

pub Gives-bind {ℓ κ μ ν} :
    {A : Type ℓ} {B : Type κ} (m : Outcome A) {f : A → Outcome B} {P : A → Type μ} {Q : B → Type ν}
    → Gives m P
    → ((a : A) → P a → Gives (f a) Q)
    → Gives (m >>= f) Q
Gives-bind panic g k b e = absurd (cc)
Gives-bind undefined g k b e = absurd (cc)
Gives-bind (ok a) g k b e = k a (g a refl) b e

pub Gives-ok {ℓ κ} : {A : Type ℓ} (P : A → Type κ) (a : A) → P a → Gives (ok a) P
Gives-ok P a p b e = subst P (ok-injective e) p

-- A first part whose value is known.
pub Gives-value {ℓ κ} :
    {A B : Type ℓ} (m : Outcome A) (f : A → Outcome B) {Q : B → Type κ} (a : A)
    → m ≡ ok a
    → Gives (f a) Q
    → Gives (m >>= f) Q
Gives-value m f a e g b h = g b (sym (ap (λ m. m >>= f) e) ∙ h)
