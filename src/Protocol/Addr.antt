-- ===== src/Protocol/Addr.antt =====
-- omnistack-core/src/protocol.rs, `MacAddr` and `Ipv4Addr` with its text. Bytes are numbers, lowest
-- address first; a text is the list of its codes. `split` and `u8::from_str` are the standard
-- library's.
pub mod Laws
pub mod Parse
mod Tests
use omni_stack_rust.Base.{
  ℕ, zero, suc, ◌+◌, ◌-◌, ◌*◌, ◌/◌, ◌%◌, ◌<◌, ◌≡◌, refl, Bool, true, false, Option, none, some,
  List, [], ◌∷◌, ◌++◌, reverse, Outcome, ok, panic, ◌>>=◌, length, set, replicate, leb, ltb, ◌==◌,
  ◌&&◌, if◌then◌else◌,
}

pub record MacAddr : Type 0 where
  pub raw : List ℕ

unfoldable pub new_mac : MacAddr
new_mac = record { raw = replicate 6 0 }

pub record Ipv4Addr : Type 0 where
  pub octets : List ℕ

-- `from_le_bytes` and `to_le_bytes`, of any width.
unfoldable pub from_le_bytes : List ℕ → ℕ
from_le_bytes [] = 0
from_le_bytes (b ∷ bs) = b + 256 * from_le_bytes bs

unfoldable pub to_le_bytes : ℕ → ℕ → List ℕ
to_le_bytes zero x = []
to_le_bytes (suc n) x = x % 256 ∷ to_le_bytes n (x / 256)

unfoldable pub from_be : ℕ → Ipv4Addr
unfolding to_le_bytes
from_be x = record { octets = to_le_bytes 4 x }

unfoldable pub to_u32_be : Ipv4Addr → ℕ
unfolding from_le_bytes
to_u32_be a = from_le_bytes a.octets

unfoldable pub to_u32_le : Ipv4Addr → ℕ
unfolding from_le_bytes
to_u32_le a = from_le_bytes (reverse a.octets)

-- `str::split` at a code.
abbrev cons_first : ℕ → List (List ℕ) → List (List ℕ)
cons_first c [] = (c ∷ []) ∷ []
cons_first c (p ∷ ps) = (c ∷ p) ∷ ps

unfoldable pub split : ℕ → List ℕ → List (List ℕ)
split at [] = [] ∷ []
split at (c ∷ cs) = if c == at then [] ∷ split at cs else cons_first c (split at cs)

-- The digits of a number below 256: `None` at a code that is no digit, and past the range.
abbrev is_digit : ℕ → Bool
is_digit c = leb b'0' c && leb c b'9'

unfoldable pub parse_digits : ℕ → List ℕ → Option ℕ
parse_digits acc [] = some acc
parse_digits acc (c ∷ cs) =
    let rest = parse_digits (acc * 10 + (c - b'0')) cs in
    if is_digit c && ltb (acc * 10 + (c - b'0')) 256 then rest else none

-- `u8::from_str`: one sign `+` is allowed, and at least one digit is wanted.
unfoldable pub parse_u8 : List ℕ → Option ℕ
unfolding parse_digits
parse_u8 [] = none
parse_u8 (c ∷ []) = if c == b'+' then none else parse_digits 0 (c ∷ [])
parse_u8 (c ∷ d ∷ cs) = if c == b'+' then parse_digits 0 (d ∷ cs) else parse_digits 0 (c ∷ d ∷ cs)

pub data ParseIpv4Error : Type 0 where
  invalid_address : ParseIpv4Error

pub data Parsed : Type 0 where
  parsed : Ipv4Addr → Parsed
  rejected : ParseIpv4Error → Parsed

after_loop : ℕ → List ℕ → Parsed
after_loop idx octets =
    if ltb idx 4 then rejected invalid_address else parsed (record { octets = octets })

-- The `while let Some(Ok(octet))` loop at `idx`, and what follows it. `octets[idx]` is checked.
unfoldable pub collect : List (List ℕ) → ℕ → List ℕ → Outcome Parsed
unfolding after_loop
collect [] idx octets = ok (after_loop idx octets)
collect (piece ∷ pieces) idx octets = elim (parse_u8 piece) [
  | none ↦ ok (after_loop idx octets)
  | some octet ↦
      let rest = collect pieces (idx + 1) (set octets idx octet) in
      if ltb idx (length octets)
      then if ltb 4 (idx + 1) then ok (rejected invalid_address) else rest
      else panic
]

unfoldable pub from_str : List ℕ → Outcome Parsed
unfolding collect split
from_str s = collect (split b'.' s) 0 (0 ∷ 0 ∷ 0 ∷ 0 ∷ [])

-- `Display` of a `u8` in decimal, and `Debug` of the address.
unfoldable pub print_u8 : ℕ → List ℕ
print_u8 n =
    if ltb n 10
    then (n + b'0') ∷ []
    else if ltb n 100
    then (n / 10 + b'0') ∷ (n % 10 + b'0') ∷ []
    else (n / 100 + b'0') ∷ (n / 10 % 10 + b'0') ∷ (n % 10 + b'0') ∷ []

-- `self.octets[0]` to `[3]` are checked indices.
abbrev print_octets : List ℕ → Outcome (List ℕ)
print_octets (a ∷ b ∷ c ∷ d ∷ _) =
    ok (print_u8 a ++ b'.' ∷ (print_u8 b ++ b'.' ∷ (print_u8 c ++ b'.' ∷ print_u8 d)))
print_octets _ = panic

unfoldable pub print : Ipv4Addr → Outcome (List ℕ)
unfolding print_u8
print a = print_octets a.octets
