-- ===== src/Protocol/Header/UdpField.antt =====
-- omnistack-core/src/protocol.rs: where the fields of the packed `UdpHeader` lie.
use Prim.Native.Nat.{ℕ}

abbrev pub src : ℕ
src = 0

abbrev pub dst : ℕ
dst = 2

abbrev pub len : ℕ
len = 4

abbrev pub chksum : ℕ
chksum = 6
