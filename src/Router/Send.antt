-- ===== src/Router/Send.antt =====
-- src/aodvRouter.cpp: the messages that the router starts.
pub mod Users
pub mod Info
pub mod Chunks
use eie4_mesh_network.Prelude.{List, Option, [], if◌then◌else◌, none, some, ℕ, ◌++◌, ◌==◌, ◌∷◌}
use eie4_mesh_network.Client.{Outgoing, ble_pubkey_resp}
use eie4_mesh_network.Exec.{gets, match_option, pure, skip, when, ◌>>=◌, ◌>>◌}
use eie4_mesh_network.Packet.{
  BaseHeader, UrepHeader, broadcast_addr, pkt_ack, pkt_data, pkt_pubkey_req, pkt_pubkey_resp,
  pkt_rerr, pkt_rrep, pkt_rreq, pkt_uerr, pkt_urep, pkt_ureq,
}
use eie4_mesh_network.Packet.Serialise.{
  ack_header_bytes, data_header_bytes, pub_key_req_bytes, pub_key_resp_bytes, rerr_header_bytes,
  rrep_header_bytes, rreq_header_bytes, uerr_header_bytes, urep_header_bytes, ureq_header_bytes,
}
use eie4_mesh_network.Router.Buffers.{get_gut_entry, get_pub_key, insert_data_buffer}
use eie4_mesh_network.Router.State.{GutEntry, Method, Router, malloc, next_random, notify}
use eie4_mesh_network.Router.Table.{get_route}
use eie4_mesh_network.Router.Transmit.{transmit_packet}

-- A header of this node with a fresh packet id.
unfoldable pub fresh_header : ℕ → ℕ → ℕ → Method BaseHeader
fresh_header dest origin packet_type = do
  me ← gets (λ r. r.my_node_id)
  id ← next_random
  pure (record {
    dest_node_id = dest;
    prev_hop_id = me;
    origin_node_id = origin;
    packet_id = id;
    packet_type = packet_type;
    flags = 0;
    hop_count = 0;
    reserved = 0;
  })

unfoldable pub send_rreq : ℕ → Method (Unit {0})
send_rreq dest = do
  me ← gets (λ r. r.my_node_id)
  bh ← fresh_header broadcast_addr me pkt_rreq
  transmit_packet bh (rreq_header_bytes (record { rreq_dest_node_id = dest })) []

unfoldable pub send_rrep : ℕ → ℕ → ℕ → ℕ → Method (Unit {0})
send_rrep origin dest next_hop hop_count = do
  bh ← fresh_header next_hop origin pkt_rrep
  transmit_packet bh
      (rrep_header_bytes (record { rrep_dest_node_id = dest; lifetime = 0; num_hops = hop_count }))
      []

unfoldable pub send_rerr : ℕ → ℕ → ℕ → ℕ → Method (Unit {0})
send_rerr broken origin original_dest original_packet = do
  me ← gets (λ r. r.my_node_id)
  bh ← fresh_header origin origin pkt_rerr
  transmit_packet bh
      (rerr_header_bytes (record {
        reporter_node_id = me;
        broken_node_id = broken;
        original_dest_node_id = original_dest;
        original_packet_id = original_packet;
      }))
      []

unfoldable pub send_ureq : ℕ → Method (Unit {0})
send_ureq user = do
  me ← gets (λ r. r.my_node_id)
  bh ← fresh_header broadcast_addr me pkt_ureq
  transmit_packet bh (ureq_header_bytes (record { user_id = user })) []

-- `UREPHeader` is not packed: what is sent of it has a padding byte.
unfoldable pub urep_struct : UrepHeader → Router → List ℕ
urep_struct h r = urep_header_bytes h ++ r.env.padding ∷ []

unfoldable pub send_urep : ℕ → ℕ → ℕ → ℕ → ℕ → ℕ → Method (Unit {0})
send_urep origin dest user next_hop lifetime hop_count = do
  bh ← fresh_header next_hop origin pkt_urep
  ext ← gets (
      urep_struct
        (record { dest_node_id = dest; user_id = user; lifetime = lifetime; num_hops = hop_count }))
  transmit_packet bh ext []

unfoldable pub send_uerr : ℕ → ℕ → ℕ → ℕ → ℕ → Method (Unit {0})
send_uerr user node origin original_packet next_hop = do
  bh ← fresh_header next_hop origin pkt_uerr
  transmit_packet bh
      (uerr_header_bytes
        (record { user_id = user; node_id = node; original_packet_id = original_packet }))
      []

unfoldable pub send_ack : ℕ → ℕ → Method (Unit {0})
send_ack dest original_packet = do
  me ← gets (λ r. r.my_node_id)
  bh ← fresh_header dest me pkt_ack
  transmit_packet bh (ack_header_bytes (record { original_packet_id = original_packet })) []

-- The notice that carries a public key to the phones.
unfoldable pub pub_key_notice : ℕ → List ℕ → Outgoing
pub_key_notice user key = record {
  kind = ble_pubkey_resp;
  to = 0;
  from = user;
  bytes = key;
  pkt_id = 0;
}

-- The home node of a user, or everybody.
unfoldable pub home_node : Option GutEntry → ℕ
home_node none = broadcast_addr
home_node (some ge) = ge.node_id

-- A key that is here goes to the phones; otherwise the request carries the sender's own key.
unfoldable pub send_pub_key_req : ℕ → ℕ → Method (Unit {0})
send_pub_key_req target sender = do
  held ← get_pub_key target
  match_option held
      (do
        ge ← get_gut_entry target
        own ← get_pub_key sender
        match_option own skip (λ key. do
          me ← gets (λ r. r.my_node_id)
          bh ← fresh_header (home_node ge) me pkt_pubkey_req
          transmit_packet bh
              (pub_key_req_bytes
                (record { sender_user_id = sender; target_user_id = target; public_key = key }))
              []))
      (λ key. notify (pub_key_notice target key))

unfoldable pub send_pub_key_resp : ℕ → ℕ → ℕ → List ℕ → Method (Unit {0})
send_pub_key_resp dest target origin key = do
  bh ← fresh_header dest origin pkt_pubkey_resp
  transmit_packet bh (pub_key_resp_bytes (record { user_id = target; public_key = key })) []

-- `packetId == 0` asks for a fresh id.
unfoldable pub packet_id_or_fresh : ℕ → Method ℕ
packet_id_or_fresh id = if id == 0 then next_random else pure id

unfoldable pub send_data_to : ℕ → ℕ → List ℕ → ℕ → ℕ → Method (Unit {0})
send_data_to next_hop dest bytes id flags = do
  me ← gets (λ r. r.my_node_id)
  transmit_packet
      (record {
        dest_node_id = next_hop;
        prev_hop_id = me;
        origin_node_id = me;
        packet_id = id;
        packet_type = pkt_data;
        flags = flags;
        hop_count = 0;
        reserved = 0;
      })
      (data_header_bytes (record { final_dest_id = dest })) bytes

unfoldable pub send_data : ℕ → List ℕ → ℕ → ℕ → Method (Unit {0})
send_data dest bytes given flags = do
  id ← packet_id_or_fresh given
  if dest == broadcast_addr then send_data_to broadcast_addr dest bytes id flags else do
    o ← get_route dest
    match_option o
        (do
          copied ← malloc
          when copied (insert_data_buffer dest (record { packet_id = id; bytes = bytes }))
          send_rreq dest)
        (λ re. send_data_to re.next_hop dest bytes id flags)
