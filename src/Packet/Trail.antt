-- ===== src/Packet/Trail.antt =====
-- Several writes in a row to a packet's memory.
use omni_stack_rust.Base.{ℕ, ◌+◌, ◌≤◌, ◌≡◌, refl, ◌∙◌, List, [], ◌∷◌, ok, length, get_elem?}
use omni_stack_rust.Packet.{Packet, bytes, read16}
use omni_stack_rust.Packet.Bytes.{
  Wrote, Touched, Touched-refl, Touched-write, Apart, byte-kept, read16-kept,
}

pub data Trail : List (ℕ × List ℕ) → Packet → Packet → Type 0 where
  done : {p : Packet} → Trail [] p p
  step :
      {i : ℕ} {bs : List ℕ} {ws : List (ℕ × List ℕ)} {p q r : Packet}
      → Wrote i bs p q
      → Trail ws q r
      → Trail ((i, bs) ∷ ws) p r

abbrev pub AllApart : ℕ → ℕ → List (ℕ × List ℕ) → Type 0
AllApart j n [] = Unit
AllApart j n ((i, bs) ∷ ws) = Apart j n i (length bs) × AllApart j n ws

abbrev pub AllWithin : ℕ → ℕ → List (ℕ × List ℕ) → Type 0
AllWithin lo hi [] = Unit
AllWithin lo hi ((i, bs) ∷ ws) = (lo ≤ i) × (i + length bs ≤ hi) × AllWithin lo hi ws

pub Trail-byte :
    (j : ℕ) {ws : List (ℕ × List ℕ)} {p q : Packet}
    → Trail ws p q
    → AllApart j 1 ws
    → get_elem? (bytes q) j ≡ get_elem? (bytes p) j
Trail-byte j done a = refl
Trail-byte j (step {i} {bs} w t) (h, a) = Trail-byte j t a ∙ byte-kept i j bs w h

pub Trail-read16 :
    (j x : ℕ) {ws : List (ℕ × List ℕ)} {p q : Packet}
    → Trail ws p q
    → AllApart j 2 ws
    → read16 p j ≡ ok x
    → read16 q j ≡ ok x
Trail-read16 j x done a e = e
Trail-read16 j x (step {i} {bs} w t) (h, a) e = Trail-read16 j x t a (read16-kept i j x bs w h e)

Touched-Trail :
    (lo hi : ℕ) {ws : List (ℕ × List ℕ)} {p q r : Packet}
    → Touched lo hi p q
    → Trail ws q r
    → AllWithin lo hi ws
    → Touched lo hi p r
Touched-Trail lo hi v done a = v
Touched-Trail lo hi v (step {i} {bs} w t) (l, h, a) =
    Touched-Trail lo hi (Touched-write lo hi i bs l h v w) t a

pub Trail-Touched :
    (lo hi : ℕ) {ws : List (ℕ × List ℕ)} {p q : Packet}
    → Trail ws p q
    → AllWithin lo hi ws
    → Touched lo hi p q
Trail-Touched lo hi t a = Touched-Trail lo hi (Touched-refl lo hi _) t a
