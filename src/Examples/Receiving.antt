-- ===== src/Examples/Receiving.antt =====
-- The theorems on what a node receives, at two nodes.
use eie4_mesh_network.Prelude.{
  List, [], add, ap, arith, contains, drop, inr, length, lookup, refl, replicate, some, take, ℕ,
  ◌++◌, ◌+◌, ◌-◌, ◌↔◌, ◌∷◌, ◌≡◌,
}
use eie4_mesh_network.Client.{ble_node}
use eie4_mesh_network.Crypto.{aes_gcm_encrypt}
use eie4_mesh_network.Examples.{
  alice, bob, copying-IsGcm, hello, plain_packet, to_bob, to_bob-InRange, to_user, to_user-InRange,
  user_bytes,
}
use eie4_mesh_network.Exec.{methods}
use eie4_mesh_network.Packet.{BaseHeader, DataHeader, pkt_data}
use eie4_mesh_network.Packet.RoundTrip.{BaseHeaderInRange}
use eie4_mesh_network.Packet.Serialise.{
  base_header_bytes, data_header_bytes, deserialise_base_header, user_msg_header_bytes,
}
use eie4_mesh_network.Router.Handle.Routes.{data_notice}
use eie4_mesh_network.Router.Receive.{RadioPacket, handle_packet, open_packet}
use eie4_mesh_network.Router.Receive.Accept.{open_packet-transmit_packet, received}
use eie4_mesh_network.Router.Receive.DataEndToEnd.{handle_packet-transmit_data}
use eie4_mesh_network.Router.Receive.Duplicates.{handle_packet_elsewhere}
use eie4_mesh_network.Router.Receive.EndToEnd.{handle_packet-transmit_packet, notice_of}
use eie4_mesh_network.Router.Receive.Replays.{handle_packet_again}
use eie4_mesh_network.Router.State.{Router, enqueue_tx_packet, notify, publish}
use eie4_mesh_network.Router.Transmit.{
  build_nonce, encrypt_packet, enqueue_packet, header_out, keep_for_ack, transmit_packet,
  transmit_sealed,
}
use eie4_mesh_network.Router.Transmit.Nonce.{build_nonce-eq_iff}
use eie4_mesh_network.Router.Transmit.Wire.{sealed_bytes}
use eie4_mesh_network.Sessions.{is_online}

abbrev on_air : List ℕ
on_air = sealed_bytes to_bob (user_bytes ++ hello) (replicate 8 0)

alice_sends :
    (transmit_packet to_bob (user_msg_header_bytes to_user) hello alice).1.transmitted
    ≡ on_air ∷ alice.transmitted
unfolding transmit_packet transmit_sealed encrypt_packet aes_gcm_encrypt enqueue_packet keep_for_ack
    enqueue_tx_packet publish build_nonce base_header_bytes user_msg_header_bytes header_out
    sealed_bytes methods
alice_sends = refl

handle_packet-transmit_packet_example :
    handle_packet (received on_air (9 ∷ 9 ∷ [])) bob
    ≡ notify
        (notice_of to_bob to_user hello)
        (record bob { received_packet_ids = add 77 bob.received_packet_ids })
unfolding contains lookup is_online
handle_packet-transmit_packet_example =
    handle_packet-transmit_packet alice bob to_bob to_user hello on_air (9 ∷ 9 ∷ []) copying-IsGcm
      refl to_bob-InRange to_user-InRange refl refl refl refl (omega arith) refl refl refl
      (omega arith) alice_sends

open_packet-transmit_packet_example :
    (p : RadioPacket) × (open_packet (received on_air (9 ∷ 9 ∷ [])) bob ≡ some (to_bob, p))
    × (take (p.len - 20) (drop 20 p.bytes) ≡ user_msg_header_bytes to_user ++ hello)
    × (p.len ≡ 20 + length (user_msg_header_bytes to_user ++ hello))
open_packet-transmit_packet_example =
    open_packet-transmit_packet alice bob to_bob (user_msg_header_bytes to_user) hello on_air
      (9 ∷ 9 ∷ []) copying-IsGcm refl to_bob-InRange (omega arith) alice_sends

plain_opens : (r : Router) → open_packet plain_packet r ≡ some (to_bob, plain_packet)
unfolding open_packet deserialise_base_header
plain_opens r = refl

-- Node 3 overhears the packet twice.
abbrev overhearing : Router
overhearing = record bob { my_node_id = 3 }

overhears :
    handle_packet plain_packet overhearing
    ≡ (tt, record overhearing { received_packet_ids = add 77 bob.received_packet_ids })
unfolding contains lookup
overhears =
    handle_packet_elsewhere plain_packet plain_packet to_bob overhearing (plain_opens _) refl refl
      (inr (omega arith, omega arith))

handle_packet_again_example :
    handle_packet plain_packet (handle_packet plain_packet overhearing).1
    ≡ (tt, (handle_packet plain_packet overhearing).1)
unfolding lookup
handle_packet_again_example =
    handle_packet_again plain_packet plain_packet to_bob [] overhearing copying-IsGcm
      (plain_opens _) refl (ap (λ s. lookup 77 s.1.ack_buffer) overhears)

-- Node 3 overhears the packet.
handle_packet_elsewhere_example :
    handle_packet plain_packet (record bob { my_node_id = 3 })
    ≡ (tt, record bob { my_node_id = 3; received_packet_ids = add 77 bob.received_packet_ids })
unfolding contains lookup
handle_packet_elsewhere_example =
    handle_packet_elsewhere plain_packet plain_packet to_bob (record bob { my_node_id = 3 })
      (plain_opens _) refl refl (inr (omega arith, omega arith))

build_nonce-eq_iff_example :
    (build_nonce to_bob ≡ build_nonce (record to_bob { hop_count = 1 })) ↔ (
      (to_bob.origin_node_id ≡ to_bob.origin_node_id)
      × (to_bob.packet_id ≡ to_bob.packet_id)
      × (to_bob.hop_count ≡ 1)
      × (to_bob.packet_type ≡ to_bob.packet_type))
build_nonce-eq_iff_example =
    build_nonce-eq_iff to_bob (record to_bob { hop_count = 1 }) to_bob-InRange
      (record {
        dest_node_id = omega arith;
        prev_hop_id = omega arith;
        origin_node_id = omega arith;
        packet_id = omega arith;
        packet_type = omega arith;
        flags = omega arith;
        hop_count = omega arith;
        reserved = omega arith;
      })

abbrev data_to_bob : BaseHeader
data_to_bob = record to_bob { packet_type = pkt_data }

abbrev bob_is_dest : DataHeader
bob_is_dest = record { final_dest_id = 2 }

abbrev data_on_air : List ℕ
data_on_air = sealed_bytes data_to_bob (2 ∷ 0 ∷ 0 ∷ 0 ∷ hello) (replicate 8 0)

data_to_bob-InRange : BaseHeaderInRange data_to_bob
data_to_bob-InRange = record {
  dest_node_id = omega arith;
  prev_hop_id = omega arith;
  origin_node_id = omega arith;
  packet_id = omega arith;
  packet_type = omega arith;
  flags = omega arith;
  hop_count = omega arith;
  reserved = omega arith;
}

handle_packet-transmit_data_example :
    handle_packet (received data_on_air (9 ∷ 9 ∷ [])) bob
    ≡ notify
        (data_notice ble_node 2 1 hello 77)
        (record bob { received_packet_ids = add 77 bob.received_packet_ids })
unfolding contains lookup transmit_packet transmit_sealed encrypt_packet aes_gcm_encrypt
    enqueue_packet keep_for_ack enqueue_tx_packet publish build_nonce base_header_bytes
    data_header_bytes header_out sealed_bytes methods
handle_packet-transmit_data_example =
    handle_packet-transmit_data alice bob data_to_bob bob_is_dest hello data_on_air (9 ∷ 9 ∷ [])
      copying-IsGcm refl data_to_bob-InRange (record { final_dest_id = omega arith }) refl refl refl
      refl (omega arith) refl refl refl
