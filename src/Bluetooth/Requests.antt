-- ===== src/Bluetooth/Requests.antt =====
-- src/bluetoothManager.cpp and src/networkMessageHandler.cpp: from the phone to the router.
use eie4_mesh_network.Prelude.{
  Bool, Bool-cases, List, [], if◌then◌else◌, inl, inr, not, refl, some, take, ℕ, ◌&&◌, ◌==◌, ◌≡◌,
}
use eie4_mesh_network.Bluetooth.{
  BleMessageType, PhoneMessage, ack_failed, ack_success, ble_announce_key, ble_request_pubkey,
  broadcast, enc_user_msg, enc_user_msg_req_ack, gateway_available, gateway_offline, list_node_resp,
  list_nodes_req, list_users_req, list_users_resp, node_id_msg, node_msg, node_msg_req_ack, parse,
  pubkey_resp, request_node_id, user_id_update, user_moved, user_msg, user_msg_accepted,
  user_msg_gateway, user_msg_req_ack,
}
use eie4_mesh_network.Bluetooth.Process.{
  announce_uplink, echo, enqueue, handle_request_node_id, ignore, list_pkt,
  process_incoming_message, react, when_known,
}
use eie4_mesh_network.Bluetooth.Transmit.{enqueue_ble_out, push_ble_out, send_to_client}
use eie4_mesh_network.Exec.{gets, methods, skip, when, ◌>>=◌}
use eie4_mesh_network.Messages.{
  dispatch_message, enqueue_message, process_queue, send_to_internet, send_to_users,
}
use eie4_mesh_network.Node.{Node, on_router}
use eie4_mesh_network.Packet.{broadcast_addr, enc_ack, enc_msg, req_ack, to_gateway}
use eie4_mesh_network.Queues.{offer, receive}
use eie4_mesh_network.Router.Gateways.{have_gateway}
use eie4_mesh_network.Router.Send.{send_data, send_pub_key_req}
use eie4_mesh_network.Router.Send.Users.{send_move_user_req, send_user_message}
use eie4_mesh_network.Router.State.{Method, Router, uplink}
use eie4_mesh_network.Sessions.{knows_user}

-- The requests that are for the router; the other types are about the phone and the node.
abbrev pub IsRequest : BleMessageType → Type 0
IsRequest user_id_update = ⊥
IsRequest ble_announce_key = ⊥
IsRequest _ = Unit

-- What a phone asks of the router, as calls of the router and without the queue between.
unfoldable pub ask_router : Bool → PhoneMessage → BleMessageType → Method (Unit {0})
ask_router gw i node_msg = send_data i.dest (take 200 i.body) i.pkt_id 0
ask_router gw i broadcast = send_data broadcast_addr (take 200 i.body) i.pkt_id 0
ask_router gw i node_msg_req_ack = send_data i.dest (take 200 i.body) i.pkt_id req_ack
ask_router gw i user_msg = do
  known ← gets (λ r. knows_user i.sender r.usm)
  when known (send_user_message i.sender i.dest (take 200 i.body) i.pkt_id 0)
ask_router gw i user_msg_req_ack = do
  known ← gets (λ r. knows_user i.sender r.usm)
  when known (send_user_message i.sender i.dest (take 200 i.body) i.pkt_id req_ack)
ask_router gw i enc_user_msg = send_user_message i.sender i.dest (take 200 i.body) i.pkt_id enc_msg
ask_router gw i enc_user_msg_req_ack =
    send_user_message i.sender i.dest (take 200 i.body) i.pkt_id enc_ack
ask_router gw i user_msg_gateway = do
  known ← gets (λ r. knows_user i.sender r.usm)
  is_up ← gets (λ r. r.gateway_online)
  reachable ← have_gateway
  if not (known && gw)
      then skip
      else if is_up
      then uplink (record { from = i.sender; to = i.dest; body = take 200 i.body })
      else when reachable (send_user_message i.sender i.dest (take 200 i.body) 0 to_gateway)
ask_router gw i ble_request_pubkey =
    if i.sender == 0 then skip else send_pub_key_req i.dest i.sender
ask_router gw i user_moved = send_move_user_req i.sender i.dest
ask_router gw i _ = skip

-- The router after a phone's message and a round of the sender task.
abbrev pub after_request : ℕ → List ℕ → Node → Router
after_request handle msg n = (process_queue (process_incoming_message handle msg n).1).1.router

reaction :
    (handle : ℕ) (i : PhoneMessage) (t : BleMessageType) (n : Node)
    → n.send_queue ≡ []
    → IsRequest t
    → (process_queue (react handle i t n).1).1.router
      ≡ (ask_router n.has_gateway_manager i t n.router).1
unfolding react handle_request_node_id ask_router process_queue dispatch_message methods on_router
    enqueue_message ignore enqueue echo push_ble_out enqueue_ble_out when_known send_to_users offer
    receive list_pkt announce_uplink have_gateway send_to_internet send_to_client
reaction handle i broadcast n e u = simp e refl
reaction handle i node_msg n e u = simp e refl
reaction handle i user_msg n e u = elim (Bool-cases (knows_user i.sender n.router.usm)) [
  | inl k ↦ simp (e, k) refl
  | inr k ↦ simp (e, k) refl
]
reaction handle i user_id_update n e u = absurd u
reaction handle i list_nodes_req n e u = simp e refl
reaction handle i list_users_req n e u = simp e refl
reaction handle i list_node_resp n e u = simp e refl
reaction handle i list_users_resp n e u = simp e refl
reaction handle i gateway_available n e u = simp e refl
reaction handle i user_msg_gateway n e u = elim (Bool-cases (knows_user i.sender n.router.usm)) [
  | inr k ↦ simp (e, k) refl
  | inl k ↦ elim (Bool-cases n.has_gateway_manager) [
    | inr g ↦ simp (e, k, g) refl
    | inl g ↦ elim (Bool-cases n.router.gateway_online) [
      | inl o ↦ simp (e, k, g, o) refl
      | inr o ↦ simp (e, k, g, o) refl
    ]
  ]
]
reaction handle i gateway_offline n e u = simp e refl
reaction handle i ack_success n e u = simp e refl
reaction handle i ble_announce_key n e u = absurd u
reaction handle i ble_request_pubkey n e u = elim (Bool-cases (i.sender == 0)) [
  | inl z ↦ simp (e, z) refl
  | inr z ↦ simp (e, z) refl
]
reaction handle i pubkey_resp n e u = simp e refl
reaction handle i user_msg_accepted n e u = simp e refl
reaction handle i enc_user_msg n e u = simp e refl
reaction handle i user_moved n e u = simp e refl
reaction handle i node_id_msg n e u = simp e refl
reaction handle i request_node_id n e u = elim (Bool-cases n.has_rx_characteristic) [
  | inl x ↦ elim (Bool-cases n.gateway_state) [
    | inl g ↦ simp (e, x, g) refl
    | inr g ↦ simp (e, x, g) refl
  ]
  | inr x ↦ elim (Bool-cases n.gateway_state) [
    | inl g ↦ simp (e, x, g) refl
    | inr g ↦ simp (e, x, g) refl
  ]
]
reaction handle i user_msg_req_ack n e u = elim (Bool-cases (knows_user i.sender n.router.usm)) [
  | inl k ↦ simp (e, k) refl
  | inr k ↦ simp (e, k) refl
]
reaction handle i node_msg_req_ack n e u = simp e refl
reaction handle i ack_failed n e u = simp e refl
reaction handle i enc_user_msg_req_ack n e u = simp e refl

-- When nothing waits for the sender task, a message of a phone that the parser accepts and that is
-- a request has, once the sender task has run, changed the router exactly as the calls of the
-- router that it stands for, on the first 200 bytes of its body; requests that are answered by the
-- node itself leave the router as it was.
pub after_request-ask_router :
    (handle : ℕ) (msg : List ℕ) (i : PhoneMessage) (n : Node)
    → parse msg ≡ some i
    → IsRequest i.kind
    → n.send_queue ≡ []
    → after_request handle msg n ≡ (ask_router n.has_gateway_manager i i.kind n.router).1
unfolding process_incoming_message
after_request-ask_router handle msg i n p request e =
    rw (p, after_request, process_incoming_message) (reaction handle i i.kind n e request)
