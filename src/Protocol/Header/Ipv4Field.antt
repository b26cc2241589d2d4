-- ===== src/Protocol/Header/Ipv4Field.antt =====
-- omnistack-core/src/protocol.rs: where the fields of the packed `Ipv4Header` lie.
use Prim.Native.Nat.{ℕ}

abbrev pub version_ihl : ℕ
version_ihl = 0

abbrev pub tos : ℕ
tos = 1

abbrev pub tot_len : ℕ
tot_len = 2

abbrev pub id : ℕ
id = 4

abbrev pub frag_off : ℕ
frag_off = 6

abbrev pub ttl : ℕ
ttl = 8

abbrev pub protocol : ℕ
protocol = 9

abbrev pub cksum : ℕ
cksum = 10

abbrev pub src : ℕ
src = 12

abbrev pub dst : ℕ
dst = 16
