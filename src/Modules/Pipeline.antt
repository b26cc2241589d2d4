-- ===== src/Modules/Pipeline.antt =====
-- config/graph/udp.json: the way of a packet from the user's module to the Io node, through the three
-- modules that put a header in front of it. `debug` is the build profile.
pub mod Framed
pub mod Sendable
mod Tests
use omni_stack_rust.Base.{Bool, List, Outcome, ◌>>=◌}
use omni_stack_rust.Error.{Result}
use omni_stack_rust.Packet.{Packet}
use omni_stack_rust.Protocol.Route.{Route}
use omni_stack_rust.Modules.Udp
use omni_stack_rust.Modules.Ipv4
use omni_stack_rust.Modules.Eth

-- The links from `UdpSender` on; none of the three reports an error.
unfoldable pub send_path : Bool → List Route → Packet → Outcome (Packet × Result (Unit {0}))
send_path debug routes p =
    Udp.sender debug p >>= λ r. Ipv4.sender debug routes r.0 >>= λ r. Eth.sender debug r.0
