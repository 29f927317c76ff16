-- ===== src/Examples/Phones.antt =====
-- The theorems on the phones of a node, at node 2 with user 70.
use eie4_mesh_network.Prelude.{
  List, [], arith, false, lookup, refl, replicate, some, true, ℕ, ◌∷◌, ◌≡◌,
}
use eie4_mesh_network.Bluetooth.{
  PhoneMessage, ble_announce_key, code, has_pkt, node_msg, parse, parse_as, parse_from,
  request_node_id, type_of, user_msg, user_msg_req_ack,
}
use eie4_mesh_network.Bluetooth.Bounds.{IsBounded}
use eie4_mesh_network.Bluetooth.Delivery.{as_user_msg, notice, parse-ble_tx_worker}
use eie4_mesh_network.Bluetooth.Encode.{encode_message}
use eie4_mesh_network.Bluetooth.Process.{handle_announce_key, node_id_pkt, process_incoming_message}
use eie4_mesh_network.Bluetooth.Rejects.{process_incoming_message_ignored, too_short}
use eie4_mesh_network.Bluetooth.Replay.{handle_announce_key-replays, to_connection}
use eie4_mesh_network.Bluetooth.Requests.{after_request, after_request-ask_router, ask_router}
use eie4_mesh_network.Bluetooth.RoundTrip.{parse-encode_message}
use eie4_mesh_network.Bluetooth.Runs.{
  connects, happen_all, happen_all-IsBounded, receiver_runs, sender_runs, transmitter_runs, writes,
}
use eie4_mesh_network.Bluetooth.Transmit.{addressing, ble_tx_worker, notify}
use eie4_mesh_network.Client.{ble_unicast_user}
use eie4_mesh_network.Examples.{bob, hello, user_info, with_user}
use eie4_mesh_network.Node.{Node, to_one}
use eie4_mesh_network.Sessions.{OfflineMsg, UserInfo, get_ble_handle}

abbrev pub bob_node : Node
bob_node = record {
  router = bob;
  has_gateway_manager = true;
  send_queue = [];
  node_id = 2;
  has_rx_characteristic = true;
  gateway_state = false;
  connected_devices = 1 ∷ [];
  ble_rx_queue = [];
  ble_tx_queue = [];
  takes = λ handle raw. true;
  sent = [];
}

-- User 70 writes to user 60.
abbrev from_phone : PhoneMessage
from_phone = record { kind = user_msg_req_ack; pkt_id = 5; dest = 60; sender = 70; body = hello }

parse-encode_message_example :
    parse (encode_message user_msg_req_ack 60 70 hello 5) ≡ some from_phone
parse-encode_message_example =
    parse-encode_message user_msg_req_ack 60 70 hello 5 (unfold has_pkt in refl) (omega arith)
      (omega arith) (omega arith)

written_parses : parse (encode_message user_msg_req_ack 60 70 hello 5) ≡ some from_phone
unfolding parse parse_as parse_from encode_message type_of has_pkt
written_parses = refl

after_request-ask_router_example :
    after_request 1 (encode_message user_msg_req_ack 60 70 hello 5) bob_node
    ≡ (ask_router true from_phone user_msg_req_ack bob).1
after_request-ask_router_example =
    after_request-ask_router 1 (encode_message user_msg_req_ack 60 70 hello 5) from_phone bob_node
      written_parses tt refl

abbrev kept_message : OfflineMsg
kept_message = record { kind = ble_unicast_user; packet_id = 8; to = 70; from = 60; bytes = hello }

abbrev with_waiting : UserInfo
with_waiting = record (user_info 70 false) { inbox = kept_message ∷ [] }

abbrev node_with_waiting : Node
node_with_waiting = record bob_node {
  router = record bob { usm = record (with_user false) { users = (70, with_waiting) ∷ [] } };
}

abbrev logging_on : PhoneMessage
logging_on = record {
  kind = ble_announce_key;
  pkt_id = 0;
  dest = 0;
  sender = 70;
  body = replicate 32 7;
}

handle_announce_key-replays_example :
    (handle_announce_key 3 logging_on node_with_waiting).1.ble_tx_queue
    ≡ to_connection 3 kept_message ∷ node_id_pkt 2 3 [] ∷ []
unfolding lookup addressing
handle_announce_key-replays_example =
    handle_announce_key-replays 3 logging_on node_with_waiting with_waiting kept_message [] refl
      refl refl ((refl, refl), tt) (omega arith)

parse-ble_tx_worker_example :
    (raw : List ℕ) × ((ble_tx_worker
        (notify (notice ble_unicast_user 70 60 hello 8) bob_node).1).1.sent
      ≡ to_one (get_ble_handle 70 bob.usm) raw ∷ [])
    × (parse raw
        ≡ some (record { kind = user_msg; pkt_id = 8; dest = 70; sender = 60; body = hello }))
parse-ble_tx_worker_example =
    parse-ble_tx_worker as_user_msg 70 60 hello 8 bob_node refl refl (omega arith) (omega arith)
      (omega arith)

happen_all-IsBounded_example :
    IsBounded
      (happen_all
        (connects 1
          ∷ writes 1 (encode_message node_msg 1 70 hello 6)
          ∷ receiver_runs
          ∷ sender_runs
          ∷ transmitter_runs
          ∷ [])
        bob_node).1
happen_all-IsBounded_example =
    happen_all-IsBounded
      (connects 1
        ∷ writes 1 (encode_message node_msg 1 70 hello 6)
        ∷ receiver_runs
        ∷ sender_runs
        ∷ transmitter_runs
        ∷ [])
      bob_node refl refl refl

-- The one byte of a request for the node's id has no room for the addresses.
process_incoming_message_ignored_example :
    process_incoming_message 1 (code request_node_id ∷ []) bob_node ≡ (tt, bob_node)
process_incoming_message_ignored_example =
    process_incoming_message_ignored 1 (code request_node_id ∷ []) bob_node
      (too_short (omega arith))
