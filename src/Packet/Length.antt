-- ===== src/Packet/Length.antt =====
-- packet.rs, `Packet::set_len`, where the length does not overflow.
use omni_stack_rust.Base.{ℕ, ◌+◌, ◌<◌, ◌≡◌, Bool, ok}
use omni_stack_rust.Base.Word.{u16_mod, add_word_fits}
use omni_stack_rust.Packet.{Packet, set_len}

pub set_len-value :
    (debug : Bool) (n : ℕ) (p : Packet)
    → n + p.offset < u16_mod
    → set_len debug n p ≡ ok (record p { len = n + p.offset })
unfolding set_len
set_len-value debug n p h = rw (add_word_fits debug u16_mod n p.offset h)
