-- ===== src/Packet/Serialise.antt =====
-- src/packet.h: writing headers into a buffer and reading them back, field by field. A serialiser
-- gives the buffer and the offset behind what it wrote; `x_bytes` are the bytes that it writes.
use eie4_mesh_network.Prelude.{ℕ, ◌+◌, List, [], ◌∷◌, ◌++◌, take, drop}
use eie4_mesh_network.Packet.{
  BaseHeader, RreqHeader, RrepHeader, RerrHeader, AckHeader, DataHeader, DiffBroadcastInfoHeader,
  UreqHeader, UrepHeader, UerrHeader, UserMsgHeader, PubKeyReq, PubKeyResp, MoveUserReqHeader,
}
use eie4_mesh_network.Packet.Bytes.{bytes16, bytes32, read8, read16, read32, write}

unfoldable pub base_header_bytes : BaseHeader → List ℕ
base_header_bytes h =
    bytes32 h.dest_node_id
    ++ (bytes32 h.prev_hop_id
        ++ (bytes32 h.origin_node_id
            ++ (bytes32 h.packet_id ++ (h.packet_type ∷ h.flags ∷ h.hop_count ∷ h.reserved ∷ []))))

unfoldable pub serialise_base_header : BaseHeader → List ℕ → List ℕ × ℕ
unfolding base_header_bytes write
serialise_base_header h buffer = (write buffer 0 (base_header_bytes h), 20)

unfoldable pub deserialise_base_header : List ℕ → BaseHeader × ℕ
deserialise_base_header p = (
  record {
    dest_node_id = read32 p 0;
    prev_hop_id = read32 p 4;
    origin_node_id = read32 p 8;
    packet_id = read32 p 12;
    packet_type = read8 p 16;
    flags = read8 p 17;
    hop_count = read8 p 18;
    reserved = read8 p 19;
  },
  20,
)

unfoldable pub rreq_header_bytes : RreqHeader → List ℕ
rreq_header_bytes h = bytes32 h.rreq_dest_node_id ++ []

unfoldable pub serialise_rreq_header : RreqHeader → List ℕ → ℕ → List ℕ × ℕ
unfolding rreq_header_bytes write
serialise_rreq_header h buffer offset = (write buffer offset (rreq_header_bytes h), offset + 4)

unfoldable pub deserialise_rreq_header : List ℕ → ℕ → RreqHeader × ℕ
deserialise_rreq_header buffer offset =
    let p = drop offset buffer in (record { rreq_dest_node_id = read32 p 0 }, offset + 4)

unfoldable pub rrep_header_bytes : RrepHeader → List ℕ
rrep_header_bytes h = bytes32 h.rrep_dest_node_id ++ (bytes16 h.lifetime ++ (h.num_hops ∷ []))

unfoldable pub serialise_rrep_header : RrepHeader → List ℕ → ℕ → List ℕ × ℕ
unfolding rrep_header_bytes write
serialise_rrep_header h buffer offset = (write buffer offset (rrep_header_bytes h), offset + 7)

unfoldable pub deserialise_rrep_header : List ℕ → ℕ → RrepHeader × ℕ
deserialise_rrep_header buffer offset =
    let p = drop offset buffer in
    (
      record { rrep_dest_node_id = read32 p 0; lifetime = read16 p 4; num_hops = read8 p 6 },
      offset + 7,
    )

unfoldable pub rerr_header_bytes : RerrHeader → List ℕ
rerr_header_bytes h =
    bytes32 h.reporter_node_id
    ++ (bytes32 h.broken_node_id
        ++ (bytes32 h.original_dest_node_id ++ (bytes32 h.original_packet_id ++ [])))

unfoldable pub serialise_rerr_header : RerrHeader → List ℕ → ℕ → List ℕ × ℕ
unfolding rerr_header_bytes write
serialise_rerr_header h buffer offset = (write buffer offset (rerr_header_bytes h), offset + 16)

unfoldable pub deserialise_rerr_header : List ℕ → ℕ → RerrHeader × ℕ
deserialise_rerr_header buffer offset =
    let p = drop offset buffer in
    (
      record {
        reporter_node_id = read32 p 0;
        broken_node_id = read32 p 4;
        original_dest_node_id = read32 p 8;
        original_packet_id = read32 p 12;
      },
      offset + 16,
    )

unfoldable pub ack_header_bytes : AckHeader → List ℕ
ack_header_bytes h = bytes32 h.original_packet_id ++ []

unfoldable pub serialise_ack_header : AckHeader → List ℕ → ℕ → List ℕ × ℕ
unfolding ack_header_bytes write
serialise_ack_header h buffer offset = (write buffer offset (ack_header_bytes h), offset + 4)

unfoldable pub deserialise_ack_header : List ℕ → ℕ → AckHeader × ℕ
deserialise_ack_header buffer offset =
    let p = drop offset buffer in (record { original_packet_id = read32 p 0 }, offset + 4)

unfoldable pub data_header_bytes : DataHeader → List ℕ
data_header_bytes h = bytes32 h.final_dest_id ++ []

unfoldable pub serialise_data_header : DataHeader → List ℕ → ℕ → List ℕ × ℕ
unfolding data_header_bytes write
serialise_data_header h buffer offset = (write buffer offset (data_header_bytes h), offset + 4)

unfoldable pub deserialise_data_header : List ℕ → ℕ → DataHeader × ℕ
deserialise_data_header buffer offset =
    let p = drop offset buffer in (record { final_dest_id = read32 p 0 }, offset + 4)

unfoldable pub broadcast_info_header_bytes : DiffBroadcastInfoHeader → List ℕ
broadcast_info_header_bytes h = bytes16 h.num_added ++ (bytes16 h.num_removed ++ [])

unfoldable pub serialise_broadcast_info_header : DiffBroadcastInfoHeader → List ℕ → ℕ → List ℕ × ℕ
unfolding broadcast_info_header_bytes write
serialise_broadcast_info_header h buffer offset =
    (write buffer offset (broadcast_info_header_bytes h), offset + 4)

unfoldable pub deserialise_broadcast_info_header : List ℕ → ℕ → DiffBroadcastInfoHeader × ℕ
deserialise_broadcast_info_header buffer offset =
    let p = drop offset buffer in
    (record { num_added = read16 p 0; num_removed = read16 p 2 }, offset + 4)

unfoldable pub ureq_header_bytes : UreqHeader → List ℕ
ureq_header_bytes h = bytes32 h.user_id ++ []

unfoldable pub serialise_ureq_header : UreqHeader → List ℕ → ℕ → List ℕ × ℕ
unfolding ureq_header_bytes write
serialise_ureq_header h buffer offset = (write buffer offset (ureq_header_bytes h), offset + 4)

unfoldable pub deserialise_ureq_header : List ℕ → ℕ → UreqHeader × ℕ
deserialise_ureq_header buffer offset =
    let p = drop offset buffer in (record { user_id = read32 p 0 }, offset + 4)

unfoldable pub urep_header_bytes : UrepHeader → List ℕ
urep_header_bytes h =
    bytes32 h.dest_node_id ++ (bytes32 h.user_id ++ (bytes16 h.lifetime ++ (h.num_hops ∷ [])))

unfoldable pub serialise_urep_header : UrepHeader → List ℕ → ℕ → List ℕ × ℕ
unfolding urep_header_bytes write
serialise_urep_header h buffer offset = (write buffer offset (urep_header_bytes h), offset + 11)

unfoldable pub deserialise_urep_header : List ℕ → ℕ → UrepHeader × ℕ
deserialise_urep_header buffer offset =
    let p = drop offset buffer in
    (
      record {
        dest_node_id = read32 p 0;
        user_id = read32 p 4;
        lifetime = read16 p 8;
        num_hops = read8 p 10;
      },
      offset + 11,
    )

unfoldable pub uerr_header_bytes : UerrHeader → List ℕ
uerr_header_bytes h =
    bytes32 h.user_id ++ (bytes32 h.node_id ++ (bytes32 h.original_packet_id ++ []))

unfoldable pub serialise_uerr_header : UerrHeader → List ℕ → ℕ → List ℕ × ℕ
unfolding uerr_header_bytes write
serialise_uerr_header h buffer offset = (write buffer offset (uerr_header_bytes h), offset + 12)

unfoldable pub deserialise_uerr_header : List ℕ → ℕ → UerrHeader × ℕ
deserialise_uerr_header buffer offset =
    let p = drop offset buffer in
    (
      record { user_id = read32 p 0; node_id = read32 p 4; original_packet_id = read32 p 8 },
      offset + 12,
    )

unfoldable pub user_msg_header_bytes : UserMsgHeader → List ℕ
user_msg_header_bytes h =
    bytes32 h.from_user_id ++ (bytes32 h.to_user_id ++ (bytes32 h.to_node_id ++ []))

unfoldable pub serialise_user_msg_header : UserMsgHeader → List ℕ → ℕ → List ℕ × ℕ
unfolding user_msg_header_bytes write
serialise_user_msg_header h buffer offset =
    (write buffer offset (user_msg_header_bytes h), offset + 12)

unfoldable pub deserialise_user_msg_header : List ℕ → ℕ → UserMsgHeader × ℕ
deserialise_user_msg_header buffer offset =
    let p = drop offset buffer in
    (
      record { from_user_id = read32 p 0; to_user_id = read32 p 4; to_node_id = read32 p 8 },
      offset + 12,
    )

unfoldable pub pub_key_req_bytes : PubKeyReq → List ℕ
pub_key_req_bytes h = bytes32 h.sender_user_id ++ (bytes32 h.target_user_id ++ (h.public_key ++ []))

unfoldable pub serialise_pub_key_req : PubKeyReq → List ℕ → ℕ → List ℕ × ℕ
unfolding pub_key_req_bytes write
serialise_pub_key_req h buffer offset = (write buffer offset (pub_key_req_bytes h), offset + 40)

unfoldable pub deserialise_pub_key_req : List ℕ → ℕ → PubKeyReq × ℕ
deserialise_pub_key_req buffer offset =
    let p = drop offset buffer in
    (
      record {
        sender_user_id = read32 p 0;
        target_user_id = read32 p 4;
        public_key = take 32 (drop 8 p);
      },
      offset + 40,
    )

unfoldable pub pub_key_resp_bytes : PubKeyResp → List ℕ
pub_key_resp_bytes h = bytes32 h.user_id ++ (h.public_key ++ [])

unfoldable pub serialise_pub_key_resp : PubKeyResp → List ℕ → ℕ → List ℕ × ℕ
unfolding pub_key_resp_bytes write
serialise_pub_key_resp h buffer offset = (write buffer offset (pub_key_resp_bytes h), offset + 36)

unfoldable pub deserialise_pub_key_resp : List ℕ → ℕ → PubKeyResp × ℕ
deserialise_pub_key_resp buffer offset =
    let p = drop offset buffer in
    (record { user_id = read32 p 0; public_key = take 32 (drop 4 p) }, offset + 36)

unfoldable pub move_user_req_bytes : MoveUserReqHeader → List ℕ
move_user_req_bytes h = bytes32 h.user_id ++ (bytes32 h.dest_node_id ++ [])

unfoldable pub serialise_move_user_req : MoveUserReqHeader → List ℕ → ℕ → List ℕ × ℕ
unfolding move_user_req_bytes write
serialise_move_user_req h buffer offset = (write buffer offset (move_user_req_bytes h), offset + 8)

unfoldable pub deserialise_move_user_req : List ℕ → ℕ → MoveUserReqHeader × ℕ
deserialise_move_user_req buffer offset =
    let p = drop offset buffer in
    (record { user_id = read32 p 0; dest_node_id = read32 p 4 }, offset + 8)
