-- ===== src/Router/Invariant.antt =====
-- src/aodvRouter.cpp: what a property of the router needs to survive every method. A property that
-- each single change keeps is kept by every packet handler (Keeping.antt).
use eie4_mesh_network.Prelude.{Bool, List, Map, add, erase, insert, length, ℕ, ◌≤◌}
use eie4_mesh_network.Client.{Outgoing}
use eie4_mesh_network.Crypto.{IsGcm}
use eie4_mesh_network.Packet.{MoveUserReqHeader}
use eie4_mesh_network.Router.Gateways.{add_gateway, remove_gateway}
use eie4_mesh_network.Router.State.{
  DataBufferEntry, GutEntry, PendingUserRouteEntry, Publication, RouteEntry, Router, Uplink,
  UserMessageBufferEntry, enqueue_tx_packet, fault, malloc, next_random, notify, publish,
  set_gateway_state, uplink,
}
use eie4_mesh_network.Sessions.{Sessions}

pub record Invariant (P : Router → Type 0) : Type 0 where
  pub gcm : (r : Router) → P r → IsGcm r.env.lib
  pub faults : (r : Router) → P r → P (fault r).1
  pub draws : (r : Router) → P r → P (next_random r).1
  pub allocates : (r : Router) → P r → P (malloc r).1
  pub enqueues :
      (bytes : List ℕ) (r : Router) → length bytes ≤ 255 → P r → P (enqueue_tx_packet bytes r).1
  pub publishes : (p : Publication) (r : Router) → P r → P (publish p r).1
  pub notifies : (o : Outgoing) (r : Router) → P r → P (notify o r).1
  pub tells_state : (b : Bool) (r : Router) → P r → P (set_gateway_state b r).1
  pub uplinks : (u : Uplink) (r : Router) → P r → P (uplink u r).1
  pub routes : (m : Map RouteEntry) (r : Router) → P r → P (record r { route_table = m })
  pub data_buffers :
      (m : Map (List DataBufferEntry)) (r : Router) → P r → P (record r { data_buffer = m })
  pub user_msg_buffers :
      (m : Map (List UserMessageBufferEntry)) (r : Router)
      → P r
      → P (record r { user_msg_buffer = m })
  pub user_route_buffers :
      (m : Map (List PendingUserRouteEntry)) (r : Router)
      → P r
      → P (record r { user_route_buffer = m })
  pub move_req_buffers :
      (m : Map (List MoveUserReqHeader)) (r : Router) → P r → P (record r { move_req_buffer = m })
  pub remembers :
      (id : ℕ) (r : Router)
      → P r
      → P (record r { received_packet_ids = add id r.received_packet_ids })
  pub discovers : (ns : List ℕ) (r : Router) → P r → P (record r { discovered_nodes = ns })
  pub guts : (m : Map GutEntry) (r : Router) → P r → P (record r { gut = m })
  pub keys : (m : Map (List ℕ)) (r : Router) → P r → P (record r { user_keys = m })
  pub sessions : (s : Sessions) (r : Router) → P r → P (record r { usm = s })
  pub adds_gateway : (node : ℕ) (r : Router) → P r → P (add_gateway node r).1
  pub removes_gateway : (node : ℕ) (r : Router) → P r → P (remove_gateway node r).1
  pub stores_ack :
      (id hop : ℕ) (bytes : List ℕ) (r : Router)
      → length bytes ≤ 255
      → P r
      → P (record r {
        ack_buffer =
            insert id
              (record { packet = bytes; expected_next_hop = hop; timestamp = r.now; attempts = 0 })
              r.ack_buffer;
      })
  pub erases_ack : (id : ℕ) (r : Router) → P r → P (record r { ack_buffer = erase id r.ack_buffer })
