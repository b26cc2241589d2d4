-- ===== src/Base/Word.antt =====
-- Machine integers as native numbers. `checks` is the build profile's `overflow-checks`: on, an
-- overflow panics; off, it wraps.
use Prim.Native.Nat.{ℕ, ◌+◌, ◌-◌, ◌*◌, ◌/◌, ◌%◌, ◌^◌, ◌≤◌, ◌<◌}
use mathlib.Core.Path.{◌≡◌}
use mathlib.Core.Bool.{Bool}
use native.Mathlib.Omega.{arith}
use omni_stack_rust.Base.Tests.{ltb, leb, if◌then◌else◌, lt→ltb, le→leb}
use omni_stack_rust.Base.Runs.{Outcome, ok, panic}

abbrev pub u8_mod : ℕ
u8_mod = 2 ^ 8

abbrev pub u16_mod : ℕ
u16_mod = 2 ^ 16

abbrev pub u32_mod : ℕ
u32_mod = 2 ^ 32

abbrev pub u64_mod : ℕ
u64_mod = 2 ^ 64

unfoldable pub add_word : Bool → ℕ → ℕ → ℕ → Outcome ℕ
add_word checks m a b =
    if ltb (a + b) m then ok (a + b) else if checks then panic else ok ((a + b) % m)

unfoldable pub sub_word : Bool → ℕ → ℕ → ℕ → Outcome ℕ
sub_word checks m a b = if leb b a then ok (a - b) else if checks then panic else ok (a + m - b)

pub add_word_fits : (checks : Bool) (m a b : ℕ) → a + b < m → add_word checks m a b ≡ ok (a + b)
unfolding add_word
add_word_fits checks m a b h = rw (lt→ltb (a + b) m h)

pub sub_word_fits : (checks : Bool) (m a b : ℕ) → b ≤ a → sub_word checks m a b ≡ ok (a - b)
unfolding sub_word
sub_word_fits checks m a b h = rw (le→leb b a h)

-- `u16::to_be` on a little-endian machine.
unfoldable pub to_be16 : ℕ → ℕ
to_be16 x = x % 256 * 256 + x / 256 % 256

pub to_be16_involutive : (x : ℕ) → x < u16_mod → to_be16 (to_be16 x) ≡ x
unfolding to_be16
to_be16_involutive x h = omega arith

pub to_be16-lt : (x : ℕ) → to_be16 x < u16_mod
unfolding to_be16
to_be16-lt x = omega arith
