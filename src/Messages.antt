-- ===== src/Messages.antt =====
-- src/networkMessageHandler.cpp: the queue in front of the router, and its dispatch.
use eie4_mesh_network.Prelude.{Bool, List, if◌then◌else◌, none, some, take, ℕ}
use eie4_mesh_network.Exec.{gets, when, ◌>>=◌}
use eie4_mesh_network.Node.{
  MsgKind, NodeMethod, OutgoingMessage, enc_user_kind, from_gateway_kind, move_user_req_kind,
  node_kind, on_router, req_pub_key_kind, to_gateway_kind, user_kind,
}
use eie4_mesh_network.Queues.{offer, receive}
use eie4_mesh_network.Router.Buffers.{add_pub_key}
use eie4_mesh_network.Router.Gateways.{have_gateway}
use eie4_mesh_network.Router.Send.{send_data, send_pub_key_req}
use eie4_mesh_network.Router.Send.Users.{send_move_user_req, send_user_message}
use eie4_mesh_network.Router.State.{Method, uplink}

abbrev pub queue_length : ℕ
queue_length = 10

abbrev pub max_message : ℕ
max_message = 200

-- A longer message is cut. The result is that of the queue.
unfoldable pub enqueue_message : MsgKind → ℕ → List ℕ → ℕ → ℕ → ℕ → NodeMethod Bool
unfolding offer
enqueue_message kind dest message packet_id user flags n =
    let (sent, q) =
      offer queue_length
        (record {
          packet_id = packet_id;
          kind = kind;
          flags = flags;
          dest_id = dest;
          user_id = user;
          message = take max_message message;
        })
        n.send_queue in
    (sent, record n { send_queue = q })

unfoldable pub announce_pub_key : ℕ → List ℕ → NodeMethod (Unit {0})
announce_pub_key user key = on_router (add_pub_key user key)

unfoldable pub send_to_users : OutgoingMessage → Method (Unit {0})
send_to_users msg = send_user_message msg.user_id msg.dest_id msg.message msg.packet_id msg.flags

-- A message for the Internet: over the own uplink, or through the mesh to another gateway.
unfoldable pub send_to_internet : OutgoingMessage → Method (Unit {0})
send_to_internet msg = do
  is_up ← gets (λ r. r.gateway_online)
  if is_up
      then uplink (record { from = msg.user_id; to = msg.dest_id; body = msg.message })
      else do reachable ← have_gateway; when reachable (send_to_users msg)

-- The body of the loop of `processQueue`.
unfoldable pub dispatch_message : Bool → OutgoingMessage → MsgKind → Method (Unit {0})
dispatch_message gw msg node_kind = send_data msg.dest_id msg.message msg.packet_id msg.flags
dispatch_message gw msg user_kind = send_to_users msg
dispatch_message gw msg from_gateway_kind = send_to_users msg
dispatch_message gw msg to_gateway_kind = when gw (send_to_internet msg)
dispatch_message gw msg req_pub_key_kind = send_pub_key_req msg.dest_id msg.user_id
dispatch_message gw msg enc_user_kind = send_to_users msg
dispatch_message gw msg move_user_req_kind = send_move_user_req msg.user_id msg.dest_id

-- One round of the loop, which waits while the queue is empty.
unfoldable pub process_queue : NodeMethod (Unit {0})
unfolding receive
process_queue n = elim (receive n.send_queue) [
  | none ↦ (tt, n)
  | some (msg, rest) ↦
      on_router (dispatch_message n.has_gateway_manager msg msg.kind)
        (record n { send_queue = rest })
]
