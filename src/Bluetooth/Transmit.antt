-- ===== src/Bluetooth/Transmit.antt =====
-- src/bluetoothManager.h and .cpp: the queue towards the phones and the task that empties it.
use eie4_mesh_network.Client
use eie4_mesh_network.Prelude.{
  Bool, List, [], false, if◌then◌else◌, none, not, some, true, ℕ, ◌==◌, ◌∷◌,
}
use eie4_mesh_network.Bluetooth.{
  BleMessageType, broadcast, enc_user_msg, gateway_available, gateway_offline, node_id_msg,
  node_msg, user_msg, user_msg_gateway,
}
use eie4_mesh_network.Bluetooth.Encode.{
  encode_ack, encode_ack_failure, encode_message, encode_pub_key,
}
use eie4_mesh_network.Client.{
  BleType, ble_ack, ble_ack_failure, ble_broadcast, ble_enc_unicast_user, ble_gateway,
  ble_gateway_status, ble_list_nodes, ble_list_users, ble_node, ble_node_id, ble_pubkey_resp,
  ble_unicast_user, ble_user_gateway,
}
use eie4_mesh_network.Exec.{for_each, pure, ◌>>◌}
use eie4_mesh_network.Node.{BleOut, NodeMethod, to_all, to_one}
use eie4_mesh_network.Queues.{offer, receive}
use eie4_mesh_network.Sessions.{Sessions, get_ble_handle}

abbrev pub ble_queue_length : ℕ
ble_queue_length = 20

unfoldable pub enqueue_ble_out : BleOut → NodeMethod Bool
unfolding offer
enqueue_ble_out pkt n =
    let (taken, q) = offer ble_queue_length pkt n.ble_tx_queue in
    (taken, record n { ble_tx_queue = q })

-- An entry whose result the caller does not look at.
unfoldable pub push_ble_out : BleOut → NodeMethod (Unit {0})
unfolding enqueue_ble_out
push_ble_out pkt n = (tt, (enqueue_ble_out pkt n).1)

unfoldable pub send_broadcast : List ℕ → NodeMethod Bool
send_broadcast message n =
    if n.has_rx_characteristic
    then (true, record n { sent = to_all message ∷ n.sent })
    else (false, n)

unfoldable pub send_to_client : ℕ → List ℕ → NodeMethod Bool
send_to_client handle message n =
    if n.has_rx_characteristic
    then (n.takes handle message, record n { sent = to_one handle message ∷ n.sent })
    else (false, n)

-- The four ways in which `notify` fills the entry.
pub data Addressing : Type 0 where
  by_user everybody acknowledges plain : Addressing

unfoldable pub addressing : BleType → Addressing
addressing ble_user_gateway = by_user
addressing ble_unicast_user = by_user
addressing ble_enc_unicast_user = by_user
addressing ble_broadcast = everybody
addressing ble_node = everybody
addressing ble_ack = acknowledges
addressing ble_ack_failure = acknowledges
addressing _ = plain

-- `new BleOut{…}` in `notify`
unfoldable pub ble_out_of : Addressing → Client.Outgoing → Sessions → BleOut
ble_out_of by_user o s = record {
  kind = o.kind;
  conn_handle = get_ble_handle o.to s;
  to = o.to;
  from = o.from;
  bytes = o.bytes;
  pkt_id = o.pkt_id;
}
ble_out_of everybody o s = record {
  kind = o.kind;
  conn_handle = 0;
  to = o.to;
  from = o.from;
  bytes = o.bytes;
  pkt_id = o.pkt_id;
}
ble_out_of acknowledges o s = record {
  kind = o.kind;
  conn_handle = if o.to == 0 then 0 else get_ble_handle o.to s;
  to = o.to;
  from = 0;
  bytes = [];
  pkt_id = o.pkt_id;
}
ble_out_of plain o s = record {
  kind = o.kind;
  conn_handle = 0;
  to = o.to;
  from = o.from;
  bytes = o.bytes;
  pkt_id = 0;
}

unfoldable pub notify : Client.Outgoing → NodeMethod Bool
unfolding enqueue_ble_out
notify o n = enqueue_ble_out (ble_out_of (addressing o.kind) o n.router.usm) n

-- What a phone is told of the node's uplink.
unfoldable pub gateway_pkt : ℕ → Bool → ℕ → BleOut
gateway_pkt node is_up handle = record {
  kind = ble_gateway;
  conn_handle = handle;
  to = 0;
  from = node;
  bytes = (if is_up then 1 else 0) ∷ [];
  pkt_id = 0;
}

-- `queueGatewayStatus`
unfoldable pub queue_gateway_status : Bool → NodeMethod (Unit {0})
queue_gateway_status is_up n =
    for_each n.connected_devices (λ h. push_ble_out (gateway_pkt n.node_id is_up h)) n

unfoldable pub set_gateway_state : Bool → NodeMethod Bool
unfolding queue_gateway_status
set_gateway_state is_up n =
    (true, (queue_gateway_status is_up (record n { gateway_state = is_up })).1)

-- `!data.empty() && data[0]`
unfoldable pub is_flag_set : List ℕ → Bool
is_flag_set [] = false
is_flag_set (b ∷ rest) = not (b == 0)

-- To one phone, or to all for the handle 0.
unfoldable pub send_ack_bytes : ℕ → List ℕ → NodeMethod Bool
send_ack_bytes handle raw = if handle == 0 then send_broadcast raw else send_to_client handle raw

unfoldable pub message_bytes : BleMessageType → BleOut → List ℕ
message_bytes kind pkt = encode_message kind pkt.to pkt.from pkt.bytes pkt.pkt_id

-- The switch of `bleTxWorker`.
unfoldable pub send_ble_out : BleOut → BleType → NodeMethod Bool
unfolding message_bytes send_ack_bytes
send_ble_out pkt ble_unicast_user = send_to_client pkt.conn_handle (message_bytes user_msg pkt)
send_ble_out pkt ble_user_gateway =
    send_to_client pkt.conn_handle (message_bytes user_msg_gateway pkt)
send_ble_out pkt ble_gateway = send_to_client pkt.conn_handle (
    encode_message (if is_flag_set pkt.bytes then gateway_available else gateway_offline) 0 pkt.from
      pkt.bytes 0)
send_ble_out pkt ble_node = send_broadcast (message_bytes node_msg pkt)
send_ble_out pkt ble_broadcast = send_broadcast (message_bytes broadcast pkt)
send_ble_out pkt ble_list_users = send_to_client pkt.conn_handle pkt.bytes
send_ble_out pkt ble_list_nodes = send_to_client pkt.conn_handle pkt.bytes
send_ble_out pkt ble_gateway_status = do queue_gateway_status (is_flag_set pkt.bytes); pure true
send_ble_out pkt ble_ack = send_ack_bytes pkt.conn_handle (encode_ack pkt.pkt_id)
send_ble_out pkt ble_pubkey_resp = send_broadcast (encode_pub_key pkt.from pkt.bytes)
send_ble_out pkt ble_enc_unicast_user =
    send_to_client pkt.conn_handle (message_bytes enc_user_msg pkt)
send_ble_out pkt ble_node_id = send_broadcast (encode_message node_id_msg pkt.to pkt.from [] 0)
send_ble_out pkt ble_ack_failure = send_ack_bytes pkt.conn_handle (encode_ack_failure pkt.pkt_id)
send_ble_out pkt _ = pure false

-- One round of `bleTxWorker`, which waits while the queue is empty.
unfoldable pub ble_tx_worker : NodeMethod (Unit {0})
unfolding receive
ble_tx_worker n = elim (receive n.ble_tx_queue) [
  | none ↦ (tt, n)
  | some (pkt, rest) ↦ (tt, (send_ble_out pkt pkt.kind (record n { ble_tx_queue = rest })).1)
]
