-- ===== src/Client.antt =====
-- src/IClientNotifier.h: what the router tells the connected phones.
use eie4_mesh_network.Prelude.{ℕ, List}

pub data BleType : Type 0 where
  ble_broadcast ble_unicast_user ble_node ble_list_users ble_list_nodes ble_gateway : BleType
  ble_user_gateway ble_gateway_status ble_ack ble_pubkey_resp ble_enc_unicast_user : BleType
  ble_node_id ble_ack_failure ble_user_msg_req_ack ble_node_msg_req_ack : BleType

-- The pointer and the length of the source are the bytes that they delimit.
pub record Outgoing : Type 0 where
  pub kind : BleType
  pub to : ℕ
  pub from : ℕ
  pub bytes : List ℕ
  pub pkt_id : ℕ
