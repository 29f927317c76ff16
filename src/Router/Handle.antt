-- ===== src/Router/Handle.antt =====
-- src/aodvRouter.cpp: the packet handlers. A handler has the header, the bytes of the buffer behind
-- it, stale ones included, and the length of the payload.
pub mod Routes
pub mod Info
pub mod Users
pub mod Keys
use eie4_mesh_network.Prelude.{List, ℕ, ◌+◌}
use eie4_mesh_network.Exec.{gets, match_option, skip, ◌>>=◌, ◌>>◌}
use eie4_mesh_network.Packet.{BaseHeader}
use eie4_mesh_network.Router.State.{Method, u8}
use eie4_mesh_network.Router.Table.{get_route}
use eie4_mesh_network.Router.Transmit.{transmit_packet}

-- The header of a packet that is passed on.
unfoldable pub forwarded : BaseHeader → ℕ → ℕ → BaseHeader
forwarded base me dest = record base {
  dest_node_id = dest;
  prev_hop_id = me;
  hop_count = u8 (base.hop_count + 1);
}

-- Pass a packet on towards a node, if there is a route.
unfoldable pub forward_to : ℕ → BaseHeader → List ℕ → List ℕ → Method (Unit {0})
forward_to node base ext payload = do
  me ← gets (λ r. r.my_node_id)
  o ← get_route node
  match_option o skip (λ re. transmit_packet (forwarded base me re.next_hop) ext payload)
