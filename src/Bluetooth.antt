-- ===== src/Bluetooth.antt =====
-- src/bluetoothManager.h: the types of the messages between a phone and the node. What is done with
-- them is in the children.
pub mod Encode
pub mod Transmit
pub mod Process
pub mod RoundTrip
pub mod Requests
pub mod Replay
pub mod Delivery
pub mod Bounds
pub mod Runs
pub mod Rejects
use eie4_mesh_network.Prelude.{
  Bool, List, Option, [], drop, false, if◌then◌else◌, length, ltb, none, refl, some, true, ℕ, ◌+◌,
  ◌==◌, ◌∷◌, ◌≡◌,
}
use eie4_mesh_network.Packet.Bytes.{read32, read8}

pub data BleMessageType : Type 0 where
  broadcast node_msg user_msg user_id_update list_nodes_req list_users_req : BleMessageType
  list_node_resp list_users_resp gateway_available user_msg_gateway gateway_offline : BleMessageType
  ack_success ble_announce_key ble_request_pubkey pubkey_resp user_msg_accepted : BleMessageType
  enc_user_msg user_moved node_id_msg request_node_id user_msg_req_ack : BleMessageType
  node_msg_req_ack ack_failed enc_user_msg_req_ack : BleMessageType

-- The value of the enumerator.
abbrev pub code : BleMessageType → ℕ
code broadcast = 0x01
code node_msg = 0x02
code user_msg = 0x03
code user_id_update = 0x04
code list_nodes_req = 0x05
code list_users_req = 0x06
code list_node_resp = 0x07
code list_users_resp = 0x08
code gateway_available = 0x09
code user_msg_gateway = 0x0a
code gateway_offline = 0x0b
code ack_success = 0x0c
code ble_announce_key = 0x0d
code ble_request_pubkey = 0x0e
code pubkey_resp = 0x0f
code user_msg_accepted = 0x10
code enc_user_msg = 0x11
code user_moved = 0x12
code node_id_msg = 0x13
code request_node_id = 0x14
code user_msg_req_ack = 0x15
code node_msg_req_ack = 0x16
code ack_failed = 0x17
code enc_user_msg_req_ack = 0x18

abbrev all_types : List BleMessageType
all_types =
    broadcast ∷ node_msg ∷ user_msg ∷ user_id_update ∷ list_nodes_req ∷ list_users_req
    ∷ list_node_resp ∷ list_users_resp ∷ gateway_available ∷ user_msg_gateway ∷ gateway_offline
    ∷ ack_success ∷ ble_announce_key ∷ ble_request_pubkey ∷ pubkey_resp ∷ user_msg_accepted
    ∷ enc_user_msg ∷ user_moved ∷ node_id_msg ∷ request_node_id ∷ user_msg_req_ack
    ∷ node_msg_req_ack ∷ ack_failed ∷ enc_user_msg_req_ack ∷ []

find_type : ℕ → List BleMessageType → Option BleMessageType
find_type raw [] = none
find_type raw (t ∷ rest) = let later = find_type raw rest in if code t == raw then some t else later

-- `static_cast<BLEMessageType>(raw)`, where a value without an enumerator is `none`.
unfoldable pub type_of : ℕ → Option BleMessageType
unfolding find_type
type_of raw = find_type raw all_types

pub type_of-code : (t : BleMessageType) → type_of (code t) ≡ some t
unfolding type_of
type_of-code broadcast = refl
type_of-code node_msg = refl
type_of-code user_msg = refl
type_of-code user_id_update = refl
type_of-code list_nodes_req = refl
type_of-code list_users_req = refl
type_of-code list_node_resp = refl
type_of-code list_users_resp = refl
type_of-code gateway_available = refl
type_of-code user_msg_gateway = refl
type_of-code gateway_offline = refl
type_of-code ack_success = refl
type_of-code ble_announce_key = refl
type_of-code ble_request_pubkey = refl
type_of-code pubkey_resp = refl
type_of-code user_msg_accepted = refl
type_of-code enc_user_msg = refl
type_of-code user_moved = refl
type_of-code node_id_msg = refl
type_of-code request_node_id = refl
type_of-code user_msg_req_ack = refl
type_of-code node_msg_req_ack = refl
type_of-code ack_failed = refl
type_of-code enc_user_msg_req_ack = refl

-- The types whose header has a packet id.
unfoldable pub has_pkt : BleMessageType → Bool
has_pkt node_msg = true
has_pkt user_msg = true
has_pkt user_msg_gateway = true
has_pkt broadcast = true
has_pkt enc_user_msg = true
has_pkt user_msg_req_ack = true
has_pkt node_msg_req_ack = true
has_pkt enc_user_msg_req_ack = true
has_pkt _ = false

-- A message of a phone, taken apart.
pub record PhoneMessage : Type 0 where
  pub kind : BleMessageType
  pub pkt_id : ℕ
  pub dest : ℕ
  pub sender : ℕ
  pub body : List ℕ

-- The destination, the sender and the body from `at` on.
unfoldable pub parse_from : ℕ → BleMessageType → ℕ → List ℕ → Option PhoneMessage
parse_from at kind id msg =
    if ltb (length msg) (at + 8)
    then none
    else some (record {
      kind = kind;
      pkt_id = id;
      dest = read32 msg at;
      sender = read32 msg (at + 4);
      body = drop (at + 8) msg;
    })

unfoldable pub parse_as : BleMessageType → List ℕ → Option PhoneMessage
parse_as kind msg =
    if has_pkt kind
    then if ltb (length msg) 13 then none else parse_from 5 kind (read32 msg 1) msg
    else parse_from 1 kind 0 msg

-- The first part of `processIncomingMessage`; a type that the switch does not know is `none`.
unfoldable pub parse : List ℕ → Option PhoneMessage
parse msg =
    if ltb (length msg) 9
    then none
    else elim (type_of (read8 msg 0)) [ none ↦ none | some kind ↦ parse_as kind msg ]
