-- ===== src/Protocol/Route/Tests.antt =====
-- protocol.rs, `Route`: runs on small inputs.
use omni_stack_rust.Base.{ℕ, ◌≡◌, refl, ok, panic, [], ◌∷◌, ◌↔◌, true, false, arith}
use omni_stack_rust.Base.Word.{sub_word}
use omni_stack_rust.Protocol.Addr.{Ipv4Addr, to_u32_be}
use omni_stack_rust.Protocol.Addr.Laws.{IsIpv4}
use omni_stack_rust.Protocol.Route.{Route, new, matches}
use omni_stack_rust.Protocol.Route.Prefix.{Agree, matches-Agree, new-host_route}

abbrev net : Ipv4Addr
net = record { octets = 10 ∷ 2 ∷ 0 ∷ 0 ∷ [] }

abbrev host : Ipv4Addr
host = record { octets = 10 ∷ 2 ∷ 0 ∷ 7 ∷ [] }

abbrev net_route : Route
net_route = record { ip = 0x0000020A; cidr_mask = 0xFFFFFF; nic = 1; cidr = 24 }

net-IsIpv4 : IsIpv4 net
net-IsIpv4 = record { four = refl; bytes = omega arith }

host-IsIpv4 : IsIpv4 host
host-IsIpv4 = record { four = refl; bytes = omega arith }

net_built : new true net 24 1 ≡ ok net_route
unfolding new to_u32_be sub_word
net_built = refl

matches-Agree_example :
    (matches net_route (to_u32_be host) ≡ true) ↔ Agree 3 0 net.octets host.octets
matches-Agree_example =
    matches-Agree true net host 3 0 1 net-IsIpv4 host-IsIpv4 (omega arith) (omega arith) net_built

new-host_route_example :
    (new true host 32 2 ≡ panic)
    × ((r : Route) × (new false host 32 2 ≡ ok r) × ((ip : ℕ) → matches r ip ≡ true))
new-host_route_example = new-host_route host 2
