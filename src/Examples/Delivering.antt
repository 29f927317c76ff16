-- ===== src/Examples/Delivering.antt =====
-- From the phone of user 60 at node 1 to the phone of user 70 at node 2.
use eie4_mesh_network.Bluetooth.Transmit
use eie4_mesh_network.Prelude.{
  List, [], add, arith, contains, false, lookup, refl, replicate, some, true, ℕ, ◌++◌, ◌∷◌, ◌≡◌,
}
use eie4_mesh_network.Bluetooth.{PhoneMessage, has_pkt, parse, user_msg}
use eie4_mesh_network.Bluetooth.Encode.{encode_message}
use eie4_mesh_network.Bluetooth.Requests.{after_request}
use eie4_mesh_network.Bluetooth.RoundTrip.{parse-encode_message}
use eie4_mesh_network.Bluetooth.Transmit.{ble_tx_worker}
use eie4_mesh_network.Client.{Outgoing}
use eie4_mesh_network.Crypto.{aes_gcm_encrypt}
use eie4_mesh_network.Delivers.{handle_packet-after_request}
use eie4_mesh_network.Examples.{
  alice, bob, copying-IsGcm, hello, node, to_bob, to_user, to_user-InRange, user_bytes, user_info,
  with_user,
}
use eie4_mesh_network.Examples.Phones.{bob_node}
use eie4_mesh_network.Node.{Node, to_one}
use eie4_mesh_network.Packet.{BaseHeader}
use eie4_mesh_network.Packet.RoundTrip.{BaseHeaderInRange}
use eie4_mesh_network.Packet.Serialise.{user_msg_header_bytes}
use eie4_mesh_network.Router.Receive.{handle_packet}
use eie4_mesh_network.Router.Receive.Accept.{received}
use eie4_mesh_network.Router.Receive.EndToEnd.{notice_of}
use eie4_mesh_network.Router.Receive.Relay.{handle_packet-handle_packet}
use eie4_mesh_network.Router.State.{Router, notify}
use eie4_mesh_network.Router.Transmit.{encrypt_packet}
use eie4_mesh_network.Router.Transmit.Succeeds.{transmit_packet_lem}
use eie4_mesh_network.Router.Transmit.Wire.{sealed_bytes}
use eie4_mesh_network.Sessions.{get_ble_handle, is_online, knows_user}

abbrev alice_node : Node
alice_node = record bob_node {
  router = record alice {
    gut = (70, record { node_id = 2; seq = 0; ts = 0 }) ∷ [];
    usm = record (with_user false) { users = (60, user_info 60 true) ∷ [] };
  };
  node_id = 1;
}

abbrev written : PhoneMessage
written = record { kind = user_msg; pkt_id = 5; dest = 70; sender = 60; body = hello }

abbrev as_written : List ℕ
as_written = encode_message user_msg 70 60 hello 5

handle_packet-after_request_example :
    (bytes : List ℕ) × (o : Outgoing) × (raw : List ℕ) × ((after_request 1 as_written
        alice_node).transmitted
      ≡ bytes ∷ [])
    × (handle_packet (received bytes (9 ∷ [])) bob
        ≡ notify o (record bob { received_packet_ids = add 5 [] }))
    × ((ble_tx_worker (Transmit.notify o bob_node).1).1.sent
        ≡ to_one (get_ble_handle 70 bob.usm) raw ∷ [])
    × (parse raw ≡ some written)
unfolding lookup contains is_online knows_user encrypt_packet aes_gcm_encrypt user_msg_header_bytes
handle_packet-after_request_example =
    handle_packet-after_request 1 as_written written alice_node bob_node
      (record { node_id = 2; seq = 0; ts = 0 }) (record { next_hop = 2; hopcount = 1 })
      (user_bytes ++ hello) (replicate 8 0) (9 ∷ [])
      (parse-encode_message user_msg 70 60 hello 5 (unfold has_pkt in refl) (omega arith)
        (omega arith) (omega arith))
      refl refl (omega arith) refl refl refl refl refl (omega arith) (omega arith) (omega arith)
      (omega arith) (omega arith) (omega arith) (omega arith) copying-IsGcm refl refl refl refl refl
      refl refl refl

-- Node 3 lies between the two.
abbrev carol : Router
carol = node 3 ((2, record { next_hop = 2; hopcount = 1 }) ∷ []) (with_user false)

abbrev by_carol : BaseHeader
by_carol = record to_bob { dest_node_id = 3 }

by_carol-InRange : BaseHeaderInRange by_carol
by_carol-InRange = record {
  dest_node_id = omega arith;
  prev_hop_id = omega arith;
  origin_node_id = omega arith;
  packet_id = omega arith;
  packet_type = omega arith;
  flags = omega arith;
  hop_count = omega arith;
  reserved = omega arith;
}

abbrev to_carol : List ℕ
to_carol = sealed_bytes by_carol (user_bytes ++ hello) (replicate 8 0)

handle_packet-handle_packet_example :
    (onward : List ℕ) × ((handle_packet (received to_carol (9 ∷ [])) carol).1.transmitted
      ≡ onward ∷ [])
    × (handle_packet (received onward []) bob
        ≡ notify
            (notice_of by_carol to_user hello)
            (record bob { received_packet_ids = add 77 [] }))
unfolding lookup contains is_online encrypt_packet aes_gcm_encrypt user_msg_header_bytes
handle_packet-handle_packet_example =
    handle_packet-handle_packet alice carol bob by_carol to_user
      (record { next_hop = 2; hopcount = 1 }) hello to_carol (9 ∷ []) [] (user_bytes ++ hello)
      (replicate 8 0) copying-IsGcm refl refl by_carol-InRange to_user-InRange refl refl
      (omega arith) refl (omega arith) refl refl refl refl refl (omega arith) (omega arith) refl
      refl refl refl refl
      (transmit_packet_lem by_carol (user_msg_header_bytes to_user) hello (user_bytes ++ hello)
        (replicate 8 0) alice (omega arith) refl refl)
