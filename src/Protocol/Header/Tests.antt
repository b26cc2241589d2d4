-- ===== src/Protocol/Header/Tests.antt =====
-- protocol.rs, `Ipv4Header`: runs on small inputs.
use omni_stack_rust.Base.{ℕ, ◌≡◌, ◌<◌, ok, ◌>>=◌, true, bit_or, arith}
use omni_stack_rust.Protocol.Header.{version, ihl, set_version, set_ihl}
use omni_stack_rust.Protocol.Header.Version.{setters_crossed}

setters_crossed_example :
    (b' : ℕ) × ((set_version true 4 0 >>= set_ihl true 5) ≡ ok b')
    × (ihl b' ≡ bit_or (ihl 0) 4)
    × (version b' ≡ bit_or (version 0) 5)
    × (b' < 256)
setters_crossed_example = setters_crossed true 4 5 0 (omega arith) (omega arith) (omega arith)
