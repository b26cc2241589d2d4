-- ===== src/Protocol/Header/Version.antt =====
-- What the setters of `version_ihl` leave for the getters.
use omni_stack_rust.Base.{
  ℕ, zero, suc, ◌%◌, ◌<◌, ◌≡◌, refl, Bool, true, false, ◌&&◌, ok, ◌>>=◌, ◌==◌, ==_iff, bit_or, ap,
  ◌∙◌, ltb, ltb→lt, ◌*◌, arith,
}
use omni_stack_rust.Protocol.Header.{version, ihl, set_version, set_ihl}

-- The test holds at the first `count` numbers.
passes : (ℕ → Bool) → ℕ → Bool
passes test zero = true
passes test (suc count) = passes test count && test count

passes-at :
    (test : ℕ → Bool) (count place : ℕ)
    → passes test count ≡ true
    → place < count
    → test place ≡ true
unfolding passes
passes-at test (suc count) place all less = ground (arith, passes-at test count place)
passes-at test zero place all less = absurd (omega (arith, less))

-- What `|= v` and `|= i << 4` do to the two halves, at every byte and every half-byte.
version_row : ℕ → ℕ → Bool
version_row b v =
    version (bit_or b v) == version b
    && (ihl (bit_or b v) == bit_or (ihl b) v && ltb (bit_or b v) 256)

ihl_row : ℕ → ℕ → Bool
ihl_row b i =
    version (bit_or b (i * 16)) == bit_or (version b) i
    && (ihl (bit_or b (i * 16)) == ihl b && ltb (bit_or b (i * 16)) 256)

version_table : passes (λ b. passes (version_row b) 16) 256 ≡ true
unfolding passes version_row version ihl
version_table = refl

ihl_table : passes (λ b. passes (ihl_row b) 16) 256 ≡ true
unfolding passes ihl_row version ihl
ihl_table = refl

at_byte :
    (f : ℕ → ℕ → Bool) (b v : ℕ)
    → passes (λ b. passes (f b) 16) 256 ≡ true
    → b < 256
    → v < 16
    → f b v ≡ true
at_byte f b v t hb hv = passes-at (f b) 16 v (passes-at (λ b. passes (f b) 16) 256 b t hb) hv

both : (p q : Bool) → (p && q) ≡ true → (p ≡ true) × (q ≡ true)
both true q h = (refl, h)
both false q h = absurd (cc)

pub version_half :
    (b v : ℕ)
    → b < 256
    → v < 16
    → (version (bit_or b v) ≡ version b)
      × (ihl (bit_or b v) ≡ bit_or (ihl b) v)
      × (bit_or b v < 256)
unfolding version_row
version_half b v hb hv =
    let (p, h) = both _ _ (at_byte version_row b v version_table hb hv) in
    let (q, r) = both _ _ h in ((==_iff _ _).0 p, (==_iff _ _).0 q, ltb→lt _ _ r)

pub ihl_half :
    (b i : ℕ)
    → b < 256
    → i < 16
    → (version (bit_or b (i * 16)) ≡ bit_or (version b) i)
      × (ihl (bit_or b (i * 16)) ≡ ihl b)
      × (bit_or b (i * 16) < 256)
unfolding ihl_row
ihl_half b i hb hi =
    let (p, h) = both _ _ (at_byte ihl_row b i ihl_table hb hi) in
    let (q, r) = both _ _ h in ((==_iff _ _).0 p, (==_iff _ _).0 q, ltb→lt _ _ r)

pub set_version-value : (debug : Bool) (v b : ℕ) → v < 16 → set_version debug v b ≡ ok (bit_or b v)
unfolding set_version
set_version-value debug v b h = ground arith

pub set_ihl-value : (debug : Bool) (i b : ℕ) → i < 16 → set_ihl debug i b ≡ ok (bit_or b (i * 16))
unfolding set_ihl
set_ihl-value debug i b h = let cast : i * 16 % 256 ≡ i * 16 = omega arith in ground (arith, cast)

-- The setters write each other's half, and clear nothing: whatever the byte was, after
-- `set_version(v)` and `set_ihl(i)` the getter `ihl` reads the old length with the bits of `v` added,
-- and the getter `version` the old version with those of `i`. It is a byte still.
pub setters_crossed :
    (debug : Bool) (v i b : ℕ)
    → v < 16
    → i < 16
    → b < 256
    → (b' : ℕ) × ((set_version debug v b >>= set_ihl debug i) ≡ ok b')
      × (ihl b' ≡ bit_or (ihl b) v)
      × (version b' ≡ bit_or (version b) i)
      × (b' < 256)
setters_crossed debug v i b hv hi hb =
    let (p, q, small) = version_half b v hb hv in
    let (r, t, small') = ihl_half (bit_or b v) i small hi in
    (
      bit_or (bit_or b v) (i * 16),
      rw (set_version-value debug v b hv) (set_ihl-value debug i (bit_or b v) hi),
      t ∙ q,
      r ∙ ap (λ w. bit_or w i) p,
      small',
    )
