-- ===== src/Node.antt =====
-- The node around the router: the queues of src/networkMessageHandler.cpp and
-- src/bluetoothManager.cpp, and what the node sends to the phones.
use eie4_mesh_network.Prelude.{Bool, List, ℕ}
use eie4_mesh_network.Client.{BleType}
use eie4_mesh_network.Exec.{Exec}
use eie4_mesh_network.Router.State.{Method, Router}

-- src/NetworkMessageHandler.h
pub data MsgKind : Type 0 where
  node_kind user_kind to_gateway_kind from_gateway_kind req_pub_key_kind enc_user_kind : MsgKind
  move_user_req_kind : MsgKind

-- `message` is the part of the array that `length` delimits.
pub record OutgoingMessage : Type 0 where
  pub packet_id : ℕ
  pub kind : MsgKind
  pub flags : ℕ
  pub dest_id : ℕ
  pub user_id : ℕ
  pub message : List ℕ

-- src/bluetoothManager.h
pub record BleOut : Type 0 where
  pub kind : BleType
  pub conn_handle : ℕ
  pub to : ℕ
  pub from : ℕ
  pub bytes : List ℕ
  pub pkt_id : ℕ

pub record BleIn : Type 0 where
  pub conn_handle : ℕ
  pub bytes : List ℕ

-- What goes over the air to the phones: to every phone, or to one connection.
pub data Notification : Type 0 where
  to_all : List ℕ → Notification
  to_one : ℕ → List ℕ → Notification

-- `sent` is newest first; `takes` is the result of `notify` of the BLE library. `node_id` is `_nodeID`.
pub record Node : Type 0 where
  pub router : Router
  pub has_gateway_manager : Bool
  pub send_queue : List OutgoingMessage
  pub node_id : ℕ
  pub has_rx_characteristic : Bool
  pub gateway_state : Bool
  pub connected_devices : List ℕ
  pub ble_rx_queue : List BleIn
  pub ble_tx_queue : List BleOut
  pub takes : ℕ → List ℕ → Bool
  pub sent : List Notification

abbrev pub NodeMethod : Type 0 → Type 0
NodeMethod A = Exec Node A

-- A call of the router.
unfoldable pub on_router : {A : Type 0} → Method A → NodeMethod A
on_router m n = let (a, after) = m n.router in (a, record n { router = after })
