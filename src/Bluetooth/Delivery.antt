-- ===== src/Bluetooth/Delivery.antt =====
-- src/bluetoothManager.cpp: from the router's notice to the bytes that a phone gets.
use eie4_mesh_network.Client
use eie4_mesh_network.Prelude.{List, [], refl, some, true, ℕ, ◌<◌, ◌∷◌, ◌≡◌}
use eie4_mesh_network.Bluetooth.{
  BleMessageType, broadcast, enc_user_msg, has_pkt, node_msg, parse, user_msg, user_msg_gateway,
}
use eie4_mesh_network.Bluetooth.Encode.{encode_message}
use eie4_mesh_network.Bluetooth.RoundTrip.{parse-encode_message}
use eie4_mesh_network.Bluetooth.Transmit.{
  addressing, ble_out_of, ble_tx_worker, enqueue_ble_out, message_bytes, notify, send_ble_out,
  send_broadcast, send_to_client,
}
use eie4_mesh_network.Client.{
  BleType, ble_broadcast, ble_enc_unicast_user, ble_node, ble_unicast_user, ble_user_gateway,
}
use eie4_mesh_network.Node.{Node, Notification, to_all, to_one}
use eie4_mesh_network.Queues.{offer, receive}
use eie4_mesh_network.Sessions.{get_ble_handle}

-- The type of message in which a kind of notice goes over the air.
pub data Carries : BleType → BleMessageType → Type 0 where
  as_user_msg : Carries ble_unicast_user user_msg
  as_gateway_msg : Carries ble_user_gateway user_msg_gateway
  as_encrypted : Carries ble_enc_unicast_user enc_user_msg
  as_node_msg : Carries ble_node node_msg
  as_broadcast : Carries ble_broadcast broadcast

-- To the connection of the addressee, or to every phone.
abbrev pub goes_to : {k : BleType} {t : BleMessageType} → Carries k t → ℕ → List ℕ → Notification
goes_to as_node_msg handle raw = to_all raw
goes_to as_broadcast handle raw = to_all raw
goes_to _ handle raw = to_one handle raw

Carries-has_pkt : {k : BleType} {t : BleMessageType} → Carries k t → has_pkt t ≡ true
unfolding has_pkt
Carries-has_pkt as_user_msg = refl
Carries-has_pkt as_gateway_msg = refl
Carries-has_pkt as_encrypted = refl
Carries-has_pkt as_node_msg = refl
Carries-has_pkt as_broadcast = refl

-- A notice of a kind, with what it says.
abbrev pub notice : BleType → ℕ → ℕ → List ℕ → ℕ → Client.Outgoing
notice k to from bytes id = record { kind = k; to = to; from = from; bytes = bytes; pkt_id = id }

sent_by_worker :
    {k : BleType} {t : BleMessageType} (c : Carries k t) (to from : ℕ) (bytes : List ℕ) (id : ℕ)
    (n : Node)
    → n.ble_tx_queue ≡ []
    → n.has_rx_characteristic ≡ true
    → (ble_tx_worker (notify (notice k to from bytes id) n).1).1.sent
      ≡ goes_to c (get_ble_handle to n.router.usm) (encode_message t to from bytes id) ∷ n.sent
unfolding ble_tx_worker notify enqueue_ble_out offer receive send_ble_out send_to_client
    send_broadcast ble_out_of addressing message_bytes
sent_by_worker as_user_msg to from bytes id n e x = simp (e, x) refl
sent_by_worker as_gateway_msg to from bytes id n e x = simp (e, x) refl
sent_by_worker as_encrypted to from bytes id n e x = simp (e, x) refl
sent_by_worker as_node_msg to from bytes id n e x = simp (e, x) refl
sent_by_worker as_broadcast to from bytes id n e x = simp (e, x) refl

-- With an empty queue and the characteristic in place, a notice of a message, whose id and
-- addresses are 32-bit numbers, has after a round of the sending task gone out as one notification,
-- to the connection of the addressee or for messages to the node to every phone; read as a message
-- of the phone protocol it has the type of the notice's kind, and the notice's id, addresses and
-- bytes.
pub parse-ble_tx_worker :
    {k : BleType} {t : BleMessageType} (c : Carries k t) (to from : ℕ) (bytes : List ℕ) (id : ℕ)
    (n : Node)
    → n.ble_tx_queue ≡ []
    → n.has_rx_characteristic ≡ true
    → to < 4294967296
    → from < 4294967296
    → id < 4294967296
    → (raw : List ℕ) × ((ble_tx_worker (notify (notice k to from bytes id) n).1).1.sent
        ≡ goes_to c (get_ble_handle to n.router.usm) raw ∷ n.sent)
      × (parse raw
          ≡ some (record { kind = t; pkt_id = id; dest = to; sender = from; body = bytes }))
parse-ble_tx_worker {t = t} c to from bytes id n e x ht hf hi = (
  encode_message t to from bytes id,
  sent_by_worker c to from bytes id n e x,
  parse-encode_message t to from bytes id (Carries-has_pkt c) ht hf hi,
)
