-- ===== src/Router/Receive.antt =====
-- src/aodvRouter.cpp: `handlePacket`.
pub mod Accept
pub mod Duplicates
pub mod EndToEnd
pub mod Relay
pub mod Replays
pub mod DataEndToEnd
use mathlib.Core.Option
use eie4_mesh_network.Prelude.{
  List, Option, [], bit_and, drop, if◌then◌else◌, length, ltb, none, not, some, take, ℕ, ◌&&◌, ◌+◌,
  ◌-◌, ◌==◌, ◌∷◌,
}
use eie4_mesh_network.Crypto.{aes_gcm_decrypt}
use eie4_mesh_network.Exec.{gets, match_option, skip, ◌>>=◌, ◌>>◌}
use eie4_mesh_network.Packet.{
  BaseHeader, broadcast_addr, flag_encrypted, pkt_ack, pkt_broadcast_info, pkt_data,
  pkt_move_user_req, pkt_pubkey_req, pkt_pubkey_resp, pkt_rerr, pkt_rrep, pkt_rreq, pkt_uerr,
  pkt_urep, pkt_ureq, pkt_user_msg,
}
use eie4_mesh_network.Packet.Bytes.{write}
use eie4_mesh_network.Packet.Serialise.{deserialise_base_header}
use eie4_mesh_network.Router.Acks.{try_implicit_ack}
use eie4_mesh_network.Router.Buffers.{is_duplicate_packet_id, store_packet_id}
use eie4_mesh_network.Router.Handle.Info.{handle_broadcast_info}
use eie4_mesh_network.Router.Handle.Keys.{
  handle_move_user_req, handle_pub_key_req, handle_pub_key_resp,
}
use eie4_mesh_network.Router.Handle.Routes.{
  handle_ack, handle_data, handle_rerr, handle_rrep, handle_rreq,
}
use eie4_mesh_network.Router.Handle.Users.{
  handle_uerr, handle_urep, handle_ureq, handle_user_message,
}
use eie4_mesh_network.Router.State.{Method, Router}
use eie4_mesh_network.Router.Transmit.{build_nonce, tag_len}

-- `RadioPacket`: the whole buffer, stale bytes included, and the length of the packet.
pub record RadioPacket : Type 0 where
  pub bytes : List ℕ
  pub len : ℕ

unfoldable pub dispatch : BaseHeader → List ℕ → ℕ → Method (Unit {0})
dispatch bh payload len =
    if bh.packet_type == pkt_rreq
    then handle_rreq bh payload len
    else if bh.packet_type == pkt_rrep
    then handle_rrep bh payload len
    else if bh.packet_type == pkt_rerr
    then handle_rerr bh payload len
    else if bh.packet_type == pkt_data
    then handle_data bh payload len
    else if bh.packet_type == pkt_broadcast_info
    then handle_broadcast_info bh payload len
    else if bh.packet_type == pkt_ack
    then handle_ack bh payload len
    else if bh.packet_type == pkt_uerr
    then handle_uerr bh payload len
    else if bh.packet_type == pkt_urep
    then handle_urep bh payload len
    else if bh.packet_type == pkt_ureq
    then handle_ureq bh payload len
    else if bh.packet_type == pkt_user_msg
    then handle_user_message bh payload len
    else if bh.packet_type == pkt_pubkey_req
    then handle_pub_key_req bh payload len
    else if bh.packet_type == pkt_pubkey_resp
    then handle_pub_key_resp bh payload len
    else if bh.packet_type == pkt_move_user_req
    then handle_move_user_req bh payload len
    else skip

-- The packet is not from this node itself, and is for it or for everybody.
unfoldable pub accept : BaseHeader → RadioPacket → Method (Unit {0})
accept bh p = do
  store_packet_id bh.packet_id
  me ← gets (λ r. r.my_node_id)
  if bh.prev_hop_id == me
      then skip
      else if not (bh.dest_node_id == broadcast_addr) && not (bh.dest_node_id == me)
      then skip
      else dispatch bh (drop 20 p.bytes) (p.len - 20)

unfoldable pub process : BaseHeader → RadioPacket → Method (Unit {0})
process bh p = do
  acked ← try_implicit_ack bh.packet_id
  if acked
      then skip
      else do dup ← is_duplicate_packet_id bh.packet_id; if dup then skip else accept bh p

-- The cipher text and the tag of an encrypted packet.
unfoldable pub cipher_of : RadioPacket → List ℕ
cipher_of p = take (p.len - 20 - tag_len) (drop 20 p.bytes)

unfoldable pub tag_of : RadioPacket → List ℕ
tag_of p = take tag_len (drop (p.len - tag_len) p.bytes)

unfoldable pub decrypt_packet : BaseHeader → RadioPacket → Router → Option (List ℕ)
decrypt_packet bh p r =
    aes_gcm_decrypt r.env.lib (build_nonce bh) (take 20 p.bytes) (cipher_of p) (tag_of p)

-- The encryption flag is cleared.
unfoldable pub header_in : BaseHeader → BaseHeader
header_in bh = record bh { flags = bit_and bh.flags 0x7f }

-- The plain text overwrites the cipher text, and the flags byte of the buffer is written too.
unfoldable pub decrypted : BaseHeader → RadioPacket → List ℕ → RadioPacket
decrypted bh p plain = record {
  bytes = write (write p.bytes 20 plain) 17 ((header_in bh).flags ∷ []);
  len = 20 + length plain;
}

-- The packet that the handlers see: its header, and its buffer with the plain text. `none` if the
-- packet is dropped.
unfoldable pub open_packet : RadioPacket → Router → Option (BaseHeader × RadioPacket)
open_packet p r =
    let bh = (deserialise_base_header p.bytes).0 in
    if ltb p.len 20
    then none
    else if bit_and bh.flags flag_encrypted == 0
    then some (bh, p)
    else if ltb p.len (20 + tag_len)
    then none
    else Option.map (λ plain. (header_in bh, decrypted bh p plain)) (decrypt_packet bh p r)

unfoldable pub handle_packet : RadioPacket → Method (Unit {0})
handle_packet p = do
  o ← gets (open_packet p)
  match_option o skip (λ opened. process opened.0 opened.1)
