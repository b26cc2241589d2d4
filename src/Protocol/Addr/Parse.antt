-- ===== src/Protocol/Addr/Parse.antt =====
-- protocols, `Ipv4Addr::from_str`: the strings it takes, and those that `Debug` prints.
use omni_stack_rust.Base.{
  ℕ, ◌<◌, ◌≡◌, ◌≢◌, refl, sym, ap, ◌∙◌, inl, inr, none, some, List, [], ◌∷◌, ◌++◌, All, length,
  arith, Outcome, ok, panic, Option-cases, ok-injective,
}
use omni_stack_rust.Protocol.Addr.{
  Ipv4Addr, split, parse_u8, collect, from_str, print_u8, print, Parsed, parsed, rejected,
  invalid_address,
}
use omni_stack_rust.Protocol.Addr.Laws.{IsIpv4}

abbrev NoDot : List ℕ → Type 0
NoDot = All (λ c. c ≢ b'.')

split_all : (p : List ℕ) → NoDot p → split b'.' p ≡ p ∷ []
unfolding split
split_all [] h = refl
split_all (c ∷ cs) h = ground (arith, split_all cs h.1)

split_first : (p rest : List ℕ) → NoDot p → split b'.' (p ++ b'.' ∷ rest) ≡ p ∷ split b'.' rest
unfolding split
split_first [] rest h = refl
split_first (c ∷ cs) rest h = ground (arith, split_first cs rest h.1)

print_u8-NoDot : (n : ℕ) → NoDot (print_u8 n)
unfolding print_u8
print_u8-NoDot n = ground arith

parse_u8-print_u8 : (n : ℕ) → n < 256 → parse_u8 (print_u8 n) ≡ some n
unfolding print_u8 parse_u8
parse_u8-print_u8 n h = ground arith

-- The values of the pieces before the first that is no octet.
unfoldable pub leading : List (List ℕ) → List ℕ
leading [] = []
leading (p ∷ ps) = elim (parse_u8 p) [ none ↦ [] | some v ↦ v ∷ leading ps ]

-- How many there are decides.
abbrev pub verdict : List ℕ → Outcome Parsed
verdict (a ∷ b ∷ c ∷ d ∷ []) = ok (parsed (record { octets = a ∷ b ∷ c ∷ d ∷ [] }))
verdict (a ∷ b ∷ c ∷ d ∷ _ ∷ _) = panic
verdict _ = ok (rejected invalid_address)

from_four :
    (a b c d : ℕ) (ps : List (List ℕ))
    → collect ps 4 (a ∷ b ∷ c ∷ d ∷ []) ≡ verdict (a ∷ b ∷ c ∷ d ∷ leading ps)
unfolding collect leading
from_four a b c d [] = refl
from_four a b c d (p ∷ ps) = ground arith

from_three :
    (a b c : ℕ) (ps : List (List ℕ))
    → collect ps 3 (a ∷ b ∷ c ∷ 0 ∷ []) ≡ verdict (a ∷ b ∷ c ∷ leading ps)
unfolding collect leading
from_three a b c [] = refl
from_three a b c (p ∷ ps) = elim (Option-cases (parse_u8 p)) [
  | inl e ↦ rw (e, collect, leading)
  | inr (v, e) ↦ rw (e, collect, leading) (from_four a b c v ps)
]

from_two :
    (a b : ℕ) (ps : List (List ℕ))
    → collect ps 2 (a ∷ b ∷ 0 ∷ 0 ∷ []) ≡ verdict (a ∷ b ∷ leading ps)
unfolding collect leading
from_two a b [] = refl
from_two a b (p ∷ ps) = elim (Option-cases (parse_u8 p)) [
  | inl e ↦ rw (e, collect, leading)
  | inr (v, e) ↦ rw (e, collect, leading) (from_three a b v ps)
]

from_one :
    (a : ℕ) (ps : List (List ℕ)) → collect ps 1 (a ∷ 0 ∷ 0 ∷ 0 ∷ []) ≡ verdict (a ∷ leading ps)
unfolding collect leading
from_one a [] = refl
from_one a (p ∷ ps) = elim (Option-cases (parse_u8 p)) [
  | inl e ↦ rw (e, collect, leading)
  | inr (v, e) ↦ rw (e, collect, leading) (from_two a v ps)
]

from_none : (ps : List (List ℕ)) → collect ps 0 (0 ∷ 0 ∷ 0 ∷ 0 ∷ []) ≡ verdict (leading ps)
unfolding collect leading
from_none [] = refl
from_none (p ∷ ps) = elim (Option-cases (parse_u8 p)) [
  | inl e ↦ rw (e, collect, leading)
  | inr (v, e) ↦ rw (e, collect, leading) (from_one v ps)
]

-- `from_str` looks at the octets before the first piece that is none: fewer than four are rejected,
-- exactly four are the address, whatever follows them, and from five on it panics.
pub from_str-verdict : (s : List ℕ) → from_str s ≡ verdict (leading (split b'.' s))
unfolding from_str
from_str-verdict s = from_none (split b'.' s)

leading-octet :
    (n : ℕ) (rest : List (List ℕ)) → n < 256 → leading (print_u8 n ∷ rest) ≡ n ∷ leading rest
unfolding leading
leading-octet n rest h = rw (parse_u8-print_u8 n h, leading)

four_pieces :
    (a b c d : ℕ)
    → split b'.' (print_u8 a ++ b'.' ∷ (print_u8 b ++ b'.' ∷ (print_u8 c ++ b'.' ∷ print_u8 d)))
      ≡ print_u8 a ∷ print_u8 b ∷ print_u8 c ∷ print_u8 d ∷ []
four_pieces a b c d =
    split_first (print_u8 a) _ (print_u8-NoDot a)
    ∙ ap (◌∷◌ (print_u8 a)) (
        split_first (print_u8 b) _ (print_u8-NoDot b)
        ∙ ap (◌∷◌ (print_u8 b)) (
            split_first (print_u8 c) _ (print_u8-NoDot c)
            ∙ ap (◌∷◌ (print_u8 c)) (split_all (print_u8 d) (print_u8-NoDot d))))

four_octets :
    (a b c d : ℕ)
    → a < 256
    → b < 256
    → c < 256
    → d < 256
    → leading (print_u8 a ∷ print_u8 b ∷ print_u8 c ∷ print_u8 d ∷ []) ≡ a ∷ b ∷ c ∷ d ∷ []
unfolding leading
four_octets a b c d ha hb hc hd = rw (
  leading-octet a (print_u8 b ∷ print_u8 c ∷ print_u8 d ∷ []) ha,
  leading-octet b (print_u8 c ∷ print_u8 d ∷ []) hb,
  leading-octet c (print_u8 d ∷ []) hc,
  leading-octet d [] hd,
)

read_back :
    (os s : List ℕ)
    → length os ≡ 4
    → All (λ b. b < 256) os
    → print (record { octets = os }) ≡ ok s
    → from_str s ≡ ok (parsed (record { octets = os }))
unfolding print
read_back (a ∷ b ∷ c ∷ d ∷ []) s n (ha, (hb, (hc, (hd, _)))) e =
    from_str-verdict s
    ∙ ap verdict (
        ap (λ t. leading (split b'.' t)) (sym (ok-injective e))
        ∙ (ap leading (four_pieces a b c d) ∙ four_octets a b c d ha hb hc hd))
read_back _ s n h e = absurd (omega arith)

-- What `Debug` prints for an address is read back as that address.
pub from_str-print :
    (a : Ipv4Addr) (s : List ℕ) → IsIpv4 a → print a ≡ ok s → from_str s ≡ ok (parsed a)
from_str-print a s v e = read_back a.octets s v.four v.bytes e
