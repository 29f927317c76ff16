-- ===== src/Router/Send/Users.antt =====
-- src/aodvRouter.cpp: messages to users and to the gateways, and requests to move a user.
use eie4_mesh_network.Prelude.{List, Option, [], if◌then◌else◌, none, some, ℕ, ◌==◌, ◌||◌, ◌∷◌}
use eie4_mesh_network.Exec.{gets, match_option, skip, when, ◌>>=◌, ◌>>◌}
use eie4_mesh_network.Packet.{pkt_move_user_req, pkt_user_msg, to_gateway}
use eie4_mesh_network.Packet.Serialise.{move_user_req_bytes, user_msg_header_bytes}
use eie4_mesh_network.Router.Buffers.{
  add_move_req, add_pending_user_route_message, add_user_message, get_gut_entry,
}
use eie4_mesh_network.Router.Send.{fresh_header, packet_id_or_fresh, send_rreq, send_ureq}
use eie4_mesh_network.Router.State.{Method, Router, malloc}
use eie4_mesh_network.Router.Table.{get_route}
use eie4_mesh_network.Router.Transmit.{transmit_packet}

-- The last part of `sendUserMessage`.
unfoldable pub send_user_packet : ℕ → ℕ → ℕ → ℕ → List ℕ → ℕ → ℕ → Method (Unit {0})
send_user_packet next_hop dest_node from to message id flags =
    if next_hop == 0 || dest_node == 0 then skip else do
      me ← gets (λ r. r.my_node_id)
      transmit_packet
          (record {
            dest_node_id = next_hop;
            prev_hop_id = me;
            origin_node_id = me;
            packet_id = id;
            packet_type = pkt_user_msg;
            flags = flags;
            hop_count = 0;
            reserved = 0;
          })
          (user_msg_header_bytes
            (record { from_user_id = from; to_user_id = to; to_node_id = dest_node }))
          message

-- With a route to the node the message is sent, otherwise it waits for the route.
unfoldable pub route_user_message : ℕ → ℕ → ℕ → List ℕ → ℕ → ℕ → Method (Unit {0})
route_user_message node from to message id flags = do
  o ← get_route node
  match_option o
      (do
        copied ← malloc
        when copied (do
          add_pending_user_route_message node
              (record { packet_id = id; sender_id = from; dest_user_id = to; message = message })
          send_rreq node))
      (λ re. send_user_packet re.next_hop node from to message id flags)

-- `*_gateways.begin()` where no closest gateway is known.
unfoldable pub gateway_for : Router → Option ℕ
gateway_for r = elim r.gateways [
  | [] ↦ none
  | g ∷ gs ↦ some (if r.closest_gw == 0 then g else r.closest_gw)
]

-- A message for the Internet goes to a gateway.
unfoldable pub send_to_gateway : ℕ → ℕ → List ℕ → ℕ → ℕ → Method (Unit {0})
send_to_gateway from to message id flags = do
  gw ← gets gateway_for
  match_option gw skip (λ node. route_user_message node from to message id flags)

unfoldable pub send_user_message : ℕ → ℕ → List ℕ → ℕ → ℕ → Method (Unit {0})
send_user_message from to message given flags = do
  id ← packet_id_or_fresh given
  if flags == to_gateway then send_to_gateway from to message id flags else do
    ge ← get_gut_entry to
    match_option ge
        (do
          copied ← malloc
          when copied (do
            add_user_message to (record { packet_id = id; sender_id = from; message = message })
            send_ureq to))
        (λ e. route_user_message e.node_id from to message id flags)

unfoldable pub send_move_user_req : ℕ → ℕ → Method (Unit {0})
send_move_user_req user old_node = do
  o ← get_route old_node
  match_option o
      (do
        add_move_req old_node (record { user_id = user; dest_node_id = old_node })
        send_rreq old_node)
      (λ re. do
        me ← gets (λ r. r.my_node_id)
        bh ← fresh_header re.next_hop me pkt_move_user_req
        transmit_packet bh
            (move_user_req_bytes (record { user_id = user; dest_node_id = old_node })) [])
