-- ===== src/Protocol/Addr/Laws.antt =====
-- protocols, addresses as numbers: the two byte orders side by side.
use omni_stack_rust.Base.{
  ℕ, ◌+◌, ◌*◌, ◌/◌, ◌%◌, ◌<◌, ◌≡◌, refl, sym, ap, ◌∙◌, List, [], ◌∷◌, All, length, arith,
}
use omni_stack_rust.Base.Word.{u32_mod}
use omni_stack_rust.Protocol.Addr.{Ipv4Addr, from_be, to_u32_be, to_le_bytes, from_le_bytes}

-- Four bytes.
pub record IsIpv4 (a : Ipv4Addr) : Type 0 where
  pub four : length a.octets ≡ 4
  pub bytes : All (λ b. b < 256) a.octets

pub from_be-IsIpv4 : (x : ℕ) → IsIpv4 (from_be x)
unfolding from_be
from_be-IsIpv4 x = omega arith

-- Every 32-bit number is read back from the address that is made of it.
pub to_u32_be-from_be : (x : ℕ) → x < u32_mod → to_u32_be (from_be x) ≡ x
unfolding from_be to_u32_be
to_u32_be-from_be x h = omega arith

bytes-from_le_bytes :
    (xs : List ℕ) → All (λ b. b < 256) xs → to_le_bytes (length xs) (from_le_bytes xs) ≡ xs
unfolding to_le_bytes from_le_bytes
bytes-from_le_bytes [] h = refl
bytes-from_le_bytes (x ∷ xs) (b, bs) =
    let low : (x + 256 * from_le_bytes xs) % 256 ≡ x = omega arith in
    let high : (x + 256 * from_le_bytes xs) / 256 ≡ from_le_bytes xs = omega arith in
    rw (low, high, bytes-from_le_bytes xs bs)

-- And every address of four bytes is made again of the number that it reads as.
pub from_be-to_u32_be : (a : Ipv4Addr) → IsIpv4 a → from_be (to_u32_be a) ≡ a
unfolding from_be to_u32_be
from_be-to_u32_be a v =
    ap (λ l. record { octets = l })
      (ap (λ n. to_le_bytes n (from_le_bytes a.octets)) (sym v.four)
        ∙ bytes-from_le_bytes a.octets v.bytes)

-- The addresses of four bytes and the 32-bit numbers are the same thing by `from_be` and `to_u32_be`: each
-- reads back what the other makes.
pub be_numbers :
    (x : ℕ) (a : Ipv4Addr)
    → x < u32_mod
    → IsIpv4 a
    → (to_u32_be (from_be x) ≡ x) × (from_be (to_u32_be a) ≡ a)
be_numbers x a h v = (to_u32_be-from_be x h, from_be-to_u32_be a v)
