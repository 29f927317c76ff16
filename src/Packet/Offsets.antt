-- ===== src/Packet/Offsets.antt =====
-- src/packet.h: a packet's headers written into a buffer at an offset, and read from there.
use eie4_mesh_network.Prelude.{List, ap, drop, length, ℕ, ◌+◌, ◌∙◌, ◌≡◌, ◌≤◌}
use eie4_mesh_network.Packet.{
  AckHeader, BaseHeader, DataHeader, DiffBroadcastInfoHeader, MoveUserReqHeader, PubKeyReq,
  PubKeyResp, RerrHeader, RrepHeader, RreqHeader, UerrHeader, UrepHeader, UreqHeader, UserMsgHeader,
}
use eie4_mesh_network.Packet.Bytes.{drop-write, write}
use eie4_mesh_network.Packet.RoundTrip.{
  AckHeaderInRange, BaseHeaderInRange, DataHeaderInRange, DiffBroadcastInfoHeaderInRange,
  RerrHeaderInRange, RrepHeaderInRange, RreqHeaderInRange, deserialise-ack_header_bytes,
  deserialise-base_header_bytes, deserialise-broadcast_info_header_bytes,
  deserialise-data_header_bytes, deserialise-rerr_header_bytes, deserialise-rrep_header_bytes,
  deserialise-rreq_header_bytes,
}
use eie4_mesh_network.Packet.Serialise.{
  ack_header_bytes, base_header_bytes, broadcast_info_header_bytes, data_header_bytes,
  deserialise_ack_header, deserialise_base_header, deserialise_broadcast_info_header,
  deserialise_data_header, deserialise_move_user_req, deserialise_pub_key_req,
  deserialise_pub_key_resp, deserialise_rerr_header, deserialise_rrep_header,
  deserialise_rreq_header, deserialise_uerr_header, deserialise_urep_header,
  deserialise_ureq_header, deserialise_user_msg_header, move_user_req_bytes, pub_key_req_bytes,
  pub_key_resp_bytes, rerr_header_bytes, rrep_header_bytes, rreq_header_bytes, serialise_ack_header,
  serialise_base_header, serialise_broadcast_info_header, serialise_data_header,
  serialise_move_user_req, serialise_pub_key_req, serialise_pub_key_resp, serialise_rerr_header,
  serialise_rrep_header, serialise_rreq_header, serialise_uerr_header, serialise_urep_header,
  serialise_ureq_header, serialise_user_msg_header, uerr_header_bytes, urep_header_bytes,
  ureq_header_bytes, user_msg_header_bytes,
}
use eie4_mesh_network.Packet.UserRoundTrip.{
  MoveUserReqHeaderInRange, PubKeyReqInRange, PubKeyRespInRange, UerrHeaderInRange,
  UrepHeaderInRange, UreqHeaderInRange, UserMsgHeaderInRange, deserialise-move_user_req_bytes,
  deserialise-pub_key_req_bytes, deserialise-pub_key_resp_bytes, deserialise-uerr_header_bytes,
  deserialise-urep_header_bytes, deserialise-ureq_header_bytes, deserialise-user_msg_header_bytes,
}

-- At the start of any buffer, a base header whose fields fit their types is read back as it was
-- written, and both end at the same offset.
pub deserialise-serialise_base_header :
    (h : BaseHeader) (buffer : List ℕ)
    → BaseHeaderInRange h
    → deserialise_base_header (serialise_base_header h buffer).0
      ≡ (h, (serialise_base_header h buffer).1)
unfolding serialise_base_header write
deserialise-serialise_base_header h buffer v =
    deserialise-base_header_bytes h (drop (0 + length (base_header_bytes h)) buffer) v

-- In a buffer that reaches the offset at least, a route request whose fields fit their types is
-- read back as it was written, and both end at the same offset.
pub deserialise-serialise_rreq_header :
    (h : RreqHeader) (buffer : List ℕ) (offset : ℕ)
    → RreqHeaderInRange h
    → offset ≤ length buffer
    → deserialise_rreq_header (serialise_rreq_header h buffer offset).0 offset
      ≡ (h, (serialise_rreq_header h buffer offset).1)
unfolding serialise_rreq_header deserialise_rreq_header
deserialise-serialise_rreq_header h buffer offset v o =
    ap (λ p. ((deserialise_rreq_header p 0).0, offset + 4))
      (drop-write buffer offset (rreq_header_bytes h) o)
    ∙ ap (λ q. (q.0, offset + 4))
        (deserialise-rreq_header_bytes h (drop (offset + length (rreq_header_bytes h)) buffer) v)

-- In a buffer that reaches the offset at least, a route reply whose fields fit their types is read
-- back as it was written, and both end at the same offset.
pub deserialise-serialise_rrep_header :
    (h : RrepHeader) (buffer : List ℕ) (offset : ℕ)
    → RrepHeaderInRange h
    → offset ≤ length buffer
    → deserialise_rrep_header (serialise_rrep_header h buffer offset).0 offset
      ≡ (h, (serialise_rrep_header h buffer offset).1)
unfolding serialise_rrep_header deserialise_rrep_header
deserialise-serialise_rrep_header h buffer offset v o =
    ap (λ p. ((deserialise_rrep_header p 0).0, offset + 7))
      (drop-write buffer offset (rrep_header_bytes h) o)
    ∙ ap (λ q. (q.0, offset + 7))
        (deserialise-rrep_header_bytes h (drop (offset + length (rrep_header_bytes h)) buffer) v)

-- In a buffer that reaches the offset at least, a route error whose fields fit their types is read
-- back as it was written, and both end at the same offset.
pub deserialise-serialise_rerr_header :
    (h : RerrHeader) (buffer : List ℕ) (offset : ℕ)
    → RerrHeaderInRange h
    → offset ≤ length buffer
    → deserialise_rerr_header (serialise_rerr_header h buffer offset).0 offset
      ≡ (h, (serialise_rerr_header h buffer offset).1)
unfolding serialise_rerr_header deserialise_rerr_header
deserialise-serialise_rerr_header h buffer offset v o =
    ap (λ p. ((deserialise_rerr_header p 0).0, offset + 16))
      (drop-write buffer offset (rerr_header_bytes h) o)
    ∙ ap (λ q. (q.0, offset + 16))
        (deserialise-rerr_header_bytes h (drop (offset + length (rerr_header_bytes h)) buffer) v)

-- In a buffer that reaches the offset at least, an ACK header whose fields fit their types is read
-- back as it was written, and both end at the same offset.
pub deserialise-serialise_ack_header :
    (h : AckHeader) (buffer : List ℕ) (offset : ℕ)
    → AckHeaderInRange h
    → offset ≤ length buffer
    → deserialise_ack_header (serialise_ack_header h buffer offset).0 offset
      ≡ (h, (serialise_ack_header h buffer offset).1)
unfolding serialise_ack_header deserialise_ack_header
deserialise-serialise_ack_header h buffer offset v o =
    ap (λ p. ((deserialise_ack_header p 0).0, offset + 4))
      (drop-write buffer offset (ack_header_bytes h) o)
    ∙ ap (λ q. (q.0, offset + 4))
        (deserialise-ack_header_bytes h (drop (offset + length (ack_header_bytes h)) buffer) v)

-- In a buffer that reaches the offset at least, a data header whose fields fit their types is read
-- back as it was written, and both end at the same offset.
pub deserialise-serialise_data_header :
    (h : DataHeader) (buffer : List ℕ) (offset : ℕ)
    → DataHeaderInRange h
    → offset ≤ length buffer
    → deserialise_data_header (serialise_data_header h buffer offset).0 offset
      ≡ (h, (serialise_data_header h buffer offset).1)
unfolding serialise_data_header deserialise_data_header
deserialise-serialise_data_header h buffer offset v o =
    ap (λ p. ((deserialise_data_header p 0).0, offset + 4))
      (drop-write buffer offset (data_header_bytes h) o)
    ∙ ap (λ q. (q.0, offset + 4))
        (deserialise-data_header_bytes h (drop (offset + length (data_header_bytes h)) buffer) v)

-- In a buffer that reaches the offset at least, a broadcast header whose fields fit their types is
-- read back as it was written, and both end at the same offset.
pub deserialise-serialise_broadcast_info_header :
    (h : DiffBroadcastInfoHeader) (buffer : List ℕ) (offset : ℕ)
    → DiffBroadcastInfoHeaderInRange h
    → offset ≤ length buffer
    → deserialise_broadcast_info_header (serialise_broadcast_info_header h buffer offset).0 offset
      ≡ (h, (serialise_broadcast_info_header h buffer offset).1)
unfolding serialise_broadcast_info_header deserialise_broadcast_info_header
deserialise-serialise_broadcast_info_header h buffer offset v o =
    ap (λ p. ((deserialise_broadcast_info_header p 0).0, offset + 4))
      (drop-write buffer offset (broadcast_info_header_bytes h) o)
    ∙ ap (λ q. (q.0, offset + 4))
        (deserialise-broadcast_info_header_bytes h
          (drop (offset + length (broadcast_info_header_bytes h)) buffer) v)

-- In a buffer that reaches the offset at least, a user request whose fields fit their types is
-- read back as it was written, and both end at the same offset.
pub deserialise-serialise_ureq_header :
    (h : UreqHeader) (buffer : List ℕ) (offset : ℕ)
    → UreqHeaderInRange h
    → offset ≤ length buffer
    → deserialise_ureq_header (serialise_ureq_header h buffer offset).0 offset
      ≡ (h, (serialise_ureq_header h buffer offset).1)
unfolding serialise_ureq_header deserialise_ureq_header
deserialise-serialise_ureq_header h buffer offset v o =
    ap (λ p. ((deserialise_ureq_header p 0).0, offset + 4))
      (drop-write buffer offset (ureq_header_bytes h) o)
    ∙ ap (λ q. (q.0, offset + 4))
        (deserialise-ureq_header_bytes h (drop (offset + length (ureq_header_bytes h)) buffer) v)

-- In a buffer that reaches the offset at least, a user reply whose fields fit their types is read
-- back as it was written, and both end at the same offset.
pub deserialise-serialise_urep_header :
    (h : UrepHeader) (buffer : List ℕ) (offset : ℕ)
    → UrepHeaderInRange h
    → offset ≤ length buffer
    → deserialise_urep_header (serialise_urep_header h buffer offset).0 offset
      ≡ (h, (serialise_urep_header h buffer offset).1)
unfolding serialise_urep_header deserialise_urep_header
deserialise-serialise_urep_header h buffer offset v o =
    ap (λ p. ((deserialise_urep_header p 0).0, offset + 11))
      (drop-write buffer offset (urep_header_bytes h) o)
    ∙ ap (λ q. (q.0, offset + 11))
        (deserialise-urep_header_bytes h (drop (offset + length (urep_header_bytes h)) buffer) v)

-- In a buffer that reaches the offset at least, a user error whose fields fit their types is read
-- back as it was written, and both end at the same offset.
pub deserialise-serialise_uerr_header :
    (h : UerrHeader) (buffer : List ℕ) (offset : ℕ)
    → UerrHeaderInRange h
    → offset ≤ length buffer
    → deserialise_uerr_header (serialise_uerr_header h buffer offset).0 offset
      ≡ (h, (serialise_uerr_header h buffer offset).1)
unfolding serialise_uerr_header deserialise_uerr_header
deserialise-serialise_uerr_header h buffer offset v o =
    ap (λ p. ((deserialise_uerr_header p 0).0, offset + 12))
      (drop-write buffer offset (uerr_header_bytes h) o)
    ∙ ap (λ q. (q.0, offset + 12))
        (deserialise-uerr_header_bytes h (drop (offset + length (uerr_header_bytes h)) buffer) v)

-- In a buffer that reaches the offset at least, a user message's header whose fields fit their
-- types is read back as it was written, and both end at the same offset.
pub deserialise-serialise_user_msg_header :
    (h : UserMsgHeader) (buffer : List ℕ) (offset : ℕ)
    → UserMsgHeaderInRange h
    → offset ≤ length buffer
    → deserialise_user_msg_header (serialise_user_msg_header h buffer offset).0 offset
      ≡ (h, (serialise_user_msg_header h buffer offset).1)
unfolding serialise_user_msg_header deserialise_user_msg_header
deserialise-serialise_user_msg_header h buffer offset v o =
    ap (λ p. ((deserialise_user_msg_header p 0).0, offset + 12))
      (drop-write buffer offset (user_msg_header_bytes h) o)
    ∙ ap (λ q. (q.0, offset + 12))
        (deserialise-user_msg_header_bytes h
          (drop (offset + length (user_msg_header_bytes h)) buffer) v)

-- In a buffer that reaches the offset at least, a key request whose fields fit their types is read
-- back as it was written, and both end at the same offset.
pub deserialise-serialise_pub_key_req :
    (h : PubKeyReq) (buffer : List ℕ) (offset : ℕ)
    → PubKeyReqInRange h
    → offset ≤ length buffer
    → deserialise_pub_key_req (serialise_pub_key_req h buffer offset).0 offset
      ≡ (h, (serialise_pub_key_req h buffer offset).1)
unfolding serialise_pub_key_req deserialise_pub_key_req
deserialise-serialise_pub_key_req h buffer offset v o =
    ap (λ p. ((deserialise_pub_key_req p 0).0, offset + 40))
      (drop-write buffer offset (pub_key_req_bytes h) o)
    ∙ ap (λ q. (q.0, offset + 40))
        (deserialise-pub_key_req_bytes h (drop (offset + length (pub_key_req_bytes h)) buffer) v)

-- In a buffer that reaches the offset at least, a key reply whose fields fit their types is read
-- back as it was written, and both end at the same offset.
pub deserialise-serialise_pub_key_resp :
    (h : PubKeyResp) (buffer : List ℕ) (offset : ℕ)
    → PubKeyRespInRange h
    → offset ≤ length buffer
    → deserialise_pub_key_resp (serialise_pub_key_resp h buffer offset).0 offset
      ≡ (h, (serialise_pub_key_resp h buffer offset).1)
unfolding serialise_pub_key_resp deserialise_pub_key_resp
deserialise-serialise_pub_key_resp h buffer offset v o =
    ap (λ p. ((deserialise_pub_key_resp p 0).0, offset + 36))
      (drop-write buffer offset (pub_key_resp_bytes h) o)
    ∙ ap (λ q. (q.0, offset + 36))
        (deserialise-pub_key_resp_bytes h (drop (offset + length (pub_key_resp_bytes h)) buffer) v)

-- In a buffer that reaches the offset at least, a request to move a user whose fields fit their
-- types is read back as it was written, and both end at the same offset.
pub deserialise-serialise_move_user_req :
    (h : MoveUserReqHeader) (buffer : List ℕ) (offset : ℕ)
    → MoveUserReqHeaderInRange h
    → offset ≤ length buffer
    → deserialise_move_user_req (serialise_move_user_req h buffer offset).0 offset
      ≡ (h, (serialise_move_user_req h buffer offset).1)
unfolding serialise_move_user_req deserialise_move_user_req
deserialise-serialise_move_user_req h buffer offset v o =
    ap (λ p. ((deserialise_move_user_req p 0).0, offset + 8))
      (drop-write buffer offset (move_user_req_bytes h) o)
    ∙ ap (λ q. (q.0, offset + 8))
        (deserialise-move_user_req_bytes h (drop (offset + length (move_user_req_bytes h)) buffer)
          v)
