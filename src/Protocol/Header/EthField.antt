-- ===== src/Protocol/Header/EthField.antt =====
-- omnistack-core/src/protocol.rs: where the fields of the packed `EthHeader` lie.
use Prim.Native.Nat.{ℕ}

abbrev pub dst : ℕ
dst = 0

abbrev pub src : ℕ
src = 6

abbrev pub ether_ty : ℕ
ether_ty = 12
