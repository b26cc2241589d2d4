-- ===== src/Packet/Kept.antt =====
-- packet.rs: what a write that was made has left of the packet.
use omni_stack_rust.Base.{
  ℕ, ◌+◌, List, [], ◌∷◌, length, ltb, ltb→lt, Bool-cases, inl, inr, Gives, Gives-bind, Gives-ok,
  Ends-of,
}
use omni_stack_rust.Packet.{Packet, bytes, write8, write_all}
use omni_stack_rust.Packet.Bytes.{Frame, Frame-refl, Frame-trans, write8-Writes}

write8-Frame : (i b : ℕ) (p : Packet) → Gives (write8 i b p) (Frame p)
unfolding write8
write8-Frame i b p q e = elim (Bool-cases (ltb i (length (bytes p)))) [
  | inl fits ↦ (Ends-of (write8-Writes i b p (ltb→lt i (length (bytes p)) fits)) e).frame
  | inr past ↦ absurd (cc (past, e))
]

pub write_all-Frame : (bs : List ℕ) (i : ℕ) (p : Packet) → Gives (write_all i bs p) (Frame p)
unfolding write_all
write_all-Frame [] i p = Gives-ok (Frame p) p (Frame-refl p)
write_all-Frame (b ∷ bs) i p =
    Gives-bind (write8 i b p) (write8-Frame i b p)
      (λ q f r e. Frame-trans f (write_all-Frame bs (i + 1) q r e))
