-- ===== src/Router/Transmit.antt =====
-- src/aodvRouter.h and .cpp: building, encrypting and queueing a packet.
pub mod Nonce
pub mod Wire
pub mod Succeeds
use eie4_mesh_network.Prelude.{
  Bool, List, Option, [], bit_and, bit_or, false, if◌then◌else◌, insert, length, ltb, not, true, ℕ,
  ◌&&◌, ◌++◌, ◌+◌, ◌==◌, ◌∷◌,
}
use eie4_mesh_network.Crypto.{aes_gcm_encrypt}
use eie4_mesh_network.Exec.{gets, match_option, modify, skip, when, ◌>>=◌, ◌>>◌}
use eie4_mesh_network.Packet.{BaseHeader, broadcast_addr, flag_encrypted, req_ack}
use eie4_mesh_network.Packet.Bytes.{bytes32}
use eie4_mesh_network.Packet.Serialise.{base_header_bytes}
use eie4_mesh_network.Router.State.{
  Method, MqttLink, Router, absent, connected, enqueue_tx_packet, fault, malloc, packet, publish,
}
use eie4_mesh_network.Router.Table.{get_route}

-- origin, packet id, hop count, type, two zeros
unfoldable pub build_nonce : BaseHeader → List ℕ
build_nonce h =
    bytes32 h.origin_node_id ++ (bytes32 h.packet_id ++ (h.hop_count ∷ h.packet_type ∷ 0 ∷ 0 ∷ []))

abbrev pub max_packet : ℕ
max_packet = 255

abbrev pub tag_len : ℕ
tag_len = 8

unfoldable pub store_ack_packet : ℕ → List ℕ → ℕ → Method (Unit {0})
store_ack_packet id bytes expected_next_hop = do
  allocated ← malloc
  when allocated (
      modify (λ r. record r {
        ack_buffer =
            insert id
              (record {
                packet = bytes;
                expected_next_hop = expected_next_hop;
                timestamp = r.now;
                attempts = 0;
              })
              r.ack_buffer;
      }))

-- The header that goes on the air.
unfoldable pub header_out : BaseHeader → BaseHeader
header_out h = record h { flags = bit_or h.flags flag_encrypted }

unfoldable pub encrypt_packet : BaseHeader → List ℕ → Router → Option (List ℕ × List ℕ)
encrypt_packet hdr plain r =
    aes_gcm_encrypt r.env.lib (build_nonce hdr) (base_header_bytes hdr) plain tag_len

-- A unicast packet that wants an ACK is kept, if its next hop has a route.
unfoldable pub keep_for_ack : BaseHeader → List ℕ → Method (Unit {0})
keep_for_ack hdr bytes =
    when (not (hdr.dest_node_id == broadcast_addr) && not (bit_and hdr.flags req_ack == 0)) (do
      o ← get_route hdr.dest_node_id
      match_option o skip (λ re. store_ack_packet hdr.packet_id bytes re.next_hop))

unfoldable pub enqueue_packet : BaseHeader → List ℕ → List ℕ → Method (Unit {0})
enqueue_packet hdr cipher tag = do
  let bytes = base_header_bytes hdr ++ (cipher ++ tag)
  queued ← enqueue_tx_packet bytes
  when queued (keep_for_ack hdr bytes)

-- The part of `transmitPacket` behind the MQTT copy. `plain` has 255 bytes and is filled before
-- the size is checked.
unfoldable pub transmit_sealed : BaseHeader → List ℕ → Method (Unit {0})
transmit_sealed hdr plain =
    if ltb max_packet (length plain)
    then fault
    else if ltb max_packet (20 + length plain + tag_len)
    then skip
    else do
      sealed ← gets (encrypt_packet hdr plain)
      match_option sealed skip (λ s. enqueue_packet hdr s.0 s.1)

abbrev pub is_connected : MqttLink → Bool
is_connected connected = true
is_connected _ = false

abbrev pub is_absent : MqttLink → Bool
is_absent absent = true
is_absent _ = false

unfoldable pub transmit_packet : BaseHeader → List ℕ → List ℕ → Method (Unit {0})
transmit_packet header ext payload = do
  link ← gets (λ r. r.mqtt)
  if is_connected link && ltb max_packet (20 + length ext + length payload) then skip else do
    publish (packet header.packet_id (base_header_bytes header ++ (ext ++ payload)))
    transmit_sealed (header_out header) (ext ++ payload)
