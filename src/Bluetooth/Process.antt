-- ===== src/Bluetooth/Process.antt =====
-- src/bluetoothManager.cpp: the messages of the phones, and their connections.
use eie4_mesh_network.Client
use eie4_mesh_network.Prelude.{
  List, [], add, discard, if◌then◌else◌, length, none, not, some, true, ℕ, ◌==◌,
}
use eie4_mesh_network.Bluetooth.{
  BleMessageType, PhoneMessage, ble_announce_key, ble_request_pubkey, broadcast, enc_user_msg,
  enc_user_msg_req_ack, list_node_resp, list_nodes_req, list_users_req, list_users_resp,
  node_id_msg, node_msg, node_msg_req_ack, parse, request_node_id, user_id_update, user_moved,
  user_msg, user_msg_gateway, user_msg_req_ack,
}
use eie4_mesh_network.Bluetooth.Encode.{encode_list_response, encode_message}
use eie4_mesh_network.Bluetooth.Transmit.{
  ble_queue_length, gateway_pkt, notify, push_ble_out, send_to_client,
}
use eie4_mesh_network.Client.{
  BleType, ble_broadcast, ble_list_nodes, ble_list_users, ble_node, ble_node_id,
}
use eie4_mesh_network.Exec.{Exec, for_each, gets, methods, modify, skip, when, ◌>>=◌, ◌>>◌}
use eie4_mesh_network.Messages.{announce_pub_key, enqueue_message}
use eie4_mesh_network.Node.{
  BleOut, MsgKind, NodeMethod, enc_user_kind, move_user_req_kind, node_kind, on_router,
  req_pub_key_kind, to_gateway_kind, user_kind,
}
use eie4_mesh_network.Packet.{broadcast_addr, enc_ack, enc_msg, req_ack, to_gateway}
use eie4_mesh_network.Packet.Bytes.{bytes32}
use eie4_mesh_network.Queues.{offer, receive}
use eie4_mesh_network.Router.Buffers.{get_known_node_ids, get_known_user_ids}
use eie4_mesh_network.Router.Handle.Keys.{take_inbox_of}
use eie4_mesh_network.Sessions.{OfflineMsg, add_or_refresh, handle_ble_disconnect, knows_user}

-- A call whose result is not looked at.
unfoldable pub ignore {ℓ} : {S : Type ℓ} {A : Type 0} → Exec S A → Exec S (Unit {0})
ignore m s = (tt, (m s).1)

unfoldable pub enqueue : MsgKind → ℕ → List ℕ → ℕ → ℕ → ℕ → NodeMethod (Unit {0})
unfolding ignore
enqueue kind dest message id user flags = ignore (enqueue_message kind dest message id user flags)

-- The message goes back to all phones of the node, with the two addresses swapped.
unfoldable pub echo : BleType → PhoneMessage → NodeMethod (Unit {0})
echo kind i = push_ble_out (record {
  kind = kind;
  conn_handle = 0;
  to = i.sender;
  from = i.dest;
  bytes = i.body;
  pkt_id = i.pkt_id;
})

unfoldable pub refresh_session : ℕ → ℕ → NodeMethod (Unit {0})
unfolding methods
refresh_session user handle n =
    on_router (modify (λ r. record r { usm = add_or_refresh user handle r.now r.usm })) n

unfoldable pub take_waiting : ℕ → NodeMethod (List OfflineMsg)
take_waiting user = on_router (take_inbox_of user)

-- A message that waited, with the id that the loop passes on.
unfoldable pub waiting_notice : (OfflineMsg → ℕ) → OfflineMsg → Client.Outgoing
waiting_notice id_of q = record {
  kind = q.kind;
  to = q.to;
  from = q.from;
  bytes = q.bytes;
  pkt_id = id_of q;
}

unfoldable pub replay : (OfflineMsg → ℕ) → List OfflineMsg → NodeMethod (Unit {0})
unfolding ignore
replay id_of waiting = for_each waiting (λ q. ignore (notify (waiting_notice id_of q)))

unfoldable pub announce_uplink : ℕ → NodeMethod (Unit {0})
announce_uplink handle n = when n.gateway_state (push_ble_out (gateway_pkt n.node_id true handle)) n

unfoldable pub node_id_pkt : ℕ → ℕ → List ℕ → BleOut
node_id_pkt node handle payload = record {
  kind = ble_node_id;
  conn_handle = handle;
  to = 0;
  from = node;
  bytes = payload;
  pkt_id = 0;
}

-- The answer to a request for all nodes or all users.
unfoldable pub list_pkt : BleType → BleMessageType → List ℕ → ℕ → BleOut
list_pkt kind type ids handle = record {
  kind = kind;
  conn_handle = handle;
  to = 0;
  from = 0;
  bytes = encode_list_response type ids;
  pkt_id = 0;
}

unfoldable pub handle_user_id_update : ℕ → PhoneMessage → NodeMethod (Unit {0})
unfolding announce_uplink
handle_user_id_update handle i = do
  refresh_session i.sender handle
  announce_uplink handle
  waiting ← take_waiting i.sender
  replay (λ q. 0) waiting
  me ← gets (λ n. n.node_id)
  push_ble_out (node_id_pkt me handle (bytes32 me))

unfoldable pub handle_announce_key : ℕ → PhoneMessage → NodeMethod (Unit {0})
handle_announce_key handle i = if not (length i.body == 32) then skip else do
  announce_pub_key i.sender i.body
  refresh_session i.sender handle
  waiting ← take_waiting i.sender
  replay (λ q. q.packet_id) waiting
  me ← gets (λ n. n.node_id)
  push_ble_out (node_id_pkt me handle [])

unfoldable pub handle_request_node_id : ℕ → NodeMethod (Unit {0})
unfolding ignore announce_uplink
handle_request_node_id handle = do
  me ← gets (λ n. n.node_id)
  ignore (send_to_client handle (encode_message node_id_msg 0 me (bytes32 me) 0))
  announce_uplink handle

-- A message of a user whom the node knows.
unfoldable pub when_known : ℕ → NodeMethod (Unit {0}) → NodeMethod (Unit {0})
when_known user m n = when (knows_user user n.router.usm) m n

-- The switch of `processIncomingMessage`.
unfoldable pub react : ℕ → PhoneMessage → BleMessageType → NodeMethod (Unit {0})
unfolding ignore enqueue echo announce_uplink list_pkt
react handle i user_id_update = handle_user_id_update handle i
react handle i list_nodes_req = do
  nodes ← gets (λ n. get_known_node_ids n.router)
  push_ble_out (list_pkt ble_list_nodes list_node_resp nodes handle)
react handle i list_users_req = do
  users ← gets (λ n. get_known_user_ids n.router)
  push_ble_out (list_pkt ble_list_users list_users_resp users handle)
react handle i node_msg = do enqueue node_kind i.dest i.body i.pkt_id 0 0; echo ble_node i
react handle i user_msg = when_known i.sender (enqueue user_kind i.dest i.body i.pkt_id i.sender 0)
react handle i broadcast = do
  enqueue node_kind broadcast_addr i.body i.pkt_id 0 0
  echo ble_broadcast i
react handle i user_msg_gateway =
    when_known i.sender (enqueue to_gateway_kind i.dest i.body 0 i.sender to_gateway)
react handle i ble_announce_key = handle_announce_key handle i
react handle i ble_request_pubkey =
    if i.sender == 0 then skip else enqueue req_pub_key_kind i.dest i.body 0 i.sender 0
react handle i enc_user_msg = enqueue enc_user_kind i.dest i.body i.pkt_id i.sender enc_msg
react handle i request_node_id = handle_request_node_id handle
react handle i user_moved = enqueue move_user_req_kind i.dest [] 0 i.sender 0
react handle i user_msg_req_ack =
    when_known i.sender (enqueue user_kind i.dest i.body i.pkt_id i.sender req_ack)
react handle i node_msg_req_ack = enqueue node_kind i.dest i.body i.pkt_id 0 req_ack
react handle i enc_user_msg_req_ack = enqueue enc_user_kind i.dest i.body i.pkt_id i.sender enc_ack
react handle i _ = skip

unfoldable pub process_incoming_message : ℕ → List ℕ → NodeMethod (Unit {0})
process_incoming_message handle msg = elim (parse msg) [
  | none ↦ skip
  | some i ↦ react handle i i.kind
]

-- One round of `bleRxWorker`.
unfoldable pub ble_rx_worker : NodeMethod (Unit {0})
unfolding receive
ble_rx_worker n = elim (receive n.ble_rx_queue) [
  | none ↦ (tt, n)
  | some (pkt, rest) ↦
      process_incoming_message pkt.conn_handle pkt.bytes (record n { ble_rx_queue = rest })
]

-- A write of a phone to the characteristic.
unfoldable pub on_write : ℕ → List ℕ → NodeMethod (Unit {0})
unfolding offer
on_write handle msg n = (
  tt,
  record n {
    ble_rx_queue =
        (offer ble_queue_length (record { conn_handle = handle; bytes = msg }) n.ble_rx_queue).1;
  },
)

unfoldable pub on_connect : ℕ → NodeMethod (Unit {0})
on_connect handle n = (tt, record n { connected_devices = add handle n.connected_devices })

unfoldable pub on_disconnect : ℕ → NodeMethod (Unit {0})
on_disconnect handle n =
    let r = n.router in
    (
      tt,
      record n {
        router = record r { usm = handle_ble_disconnect handle r.now r.usm };
        connected_devices = discard handle n.connected_devices;
      },
    )
