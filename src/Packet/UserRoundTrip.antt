-- ===== src/Packet/UserRoundTrip.antt =====
-- src/packet.h: what a serialiser writes, its deserialiser reads back: the packets about users.
use eie4_mesh_network.Prelude.{List, [], ap, length, refl, subst, take, ℕ, ◌++◌, ◌<◌, ◌∷◌, ◌≡◌}
use eie4_mesh_network.Packet.{
  MoveUserReqHeader, PubKeyReq, PubKeyResp, UerrHeader, UrepHeader, UreqHeader, UserMsgHeader,
}
use eie4_mesh_network.Packet.Bytes.{word16-bytes16, word32-bytes32}
use eie4_mesh_network.Packet.Serialise.{
  deserialise_move_user_req, deserialise_pub_key_req, deserialise_pub_key_resp,
  deserialise_uerr_header, deserialise_urep_header, deserialise_ureq_header,
  deserialise_user_msg_header, move_user_req_bytes, pub_key_req_bytes, pub_key_resp_bytes,
  uerr_header_bytes, urep_header_bytes, ureq_header_bytes, user_msg_header_bytes,
}

-- The fields fit their C types.
pub record UreqHeaderInRange (h : UreqHeader) : Type 0 where
  pub user_id : h.user_id < 4294967296

pub deserialise-ureq_header_bytes :
    (h : UreqHeader) (rest : List ℕ)
    → UreqHeaderInRange h
    → deserialise_ureq_header (ureq_header_bytes h ++ rest) 0 ≡ (h, 4)
unfolding ureq_header_bytes deserialise_ureq_header
deserialise-ureq_header_bytes h rest v =
    λ i. (record { user_id = word32-bytes32 h.user_id v.user_id i }, 4)

-- The fields fit their C types.
pub record UrepHeaderInRange (h : UrepHeader) : Type 0 where
  pub dest_node_id : h.dest_node_id < 4294967296
  pub user_id : h.user_id < 4294967296
  pub lifetime : h.lifetime < 65536
  pub num_hops : h.num_hops < 256

pub deserialise-urep_header_bytes :
    (h : UrepHeader) (rest : List ℕ)
    → UrepHeaderInRange h
    → deserialise_urep_header (urep_header_bytes h ++ rest) 0 ≡ (h, 11)
unfolding urep_header_bytes deserialise_urep_header
deserialise-urep_header_bytes h rest v = λ i. (
  record {
    dest_node_id = word32-bytes32 h.dest_node_id v.dest_node_id i;
    user_id = word32-bytes32 h.user_id v.user_id i;
    lifetime = word16-bytes16 h.lifetime v.lifetime i;
    num_hops = h.num_hops;
  },
  11,
)

-- The fields fit their C types.
pub record UerrHeaderInRange (h : UerrHeader) : Type 0 where
  pub user_id : h.user_id < 4294967296
  pub node_id : h.node_id < 4294967296
  pub original_packet_id : h.original_packet_id < 4294967296

pub deserialise-uerr_header_bytes :
    (h : UerrHeader) (rest : List ℕ)
    → UerrHeaderInRange h
    → deserialise_uerr_header (uerr_header_bytes h ++ rest) 0 ≡ (h, 12)
unfolding uerr_header_bytes deserialise_uerr_header
deserialise-uerr_header_bytes h rest v = λ i. (
  record {
    user_id = word32-bytes32 h.user_id v.user_id i;
    node_id = word32-bytes32 h.node_id v.node_id i;
    original_packet_id = word32-bytes32 h.original_packet_id v.original_packet_id i;
  },
  12,
)

-- The fields fit their C types.
pub record UserMsgHeaderInRange (h : UserMsgHeader) : Type 0 where
  pub from_user_id : h.from_user_id < 4294967296
  pub to_user_id : h.to_user_id < 4294967296
  pub to_node_id : h.to_node_id < 4294967296

pub deserialise-user_msg_header_bytes :
    (h : UserMsgHeader) (rest : List ℕ)
    → UserMsgHeaderInRange h
    → deserialise_user_msg_header (user_msg_header_bytes h ++ rest) 0 ≡ (h, 12)
unfolding user_msg_header_bytes deserialise_user_msg_header
deserialise-user_msg_header_bytes h rest v = λ i. (
  record {
    from_user_id = word32-bytes32 h.from_user_id v.from_user_id i;
    to_user_id = word32-bytes32 h.to_user_id v.to_user_id i;
    to_node_id = word32-bytes32 h.to_node_id v.to_node_id i;
  },
  12,
)

-- The fields fit their C types.
pub record PubKeyReqInRange (h : PubKeyReq) : Type 0 where
  pub sender_user_id : h.sender_user_id < 4294967296
  pub target_user_id : h.target_user_id < 4294967296
  pub public_key : length h.public_key ≡ 32

-- The fields fit their C types.
pub record PubKeyRespInRange (h : PubKeyResp) : Type 0 where
  pub user_id : h.user_id < 4294967296
  pub public_key : length h.public_key ≡ 32

-- The key of a packet is read from the bytes behind the ids.
take-key : (key rest : List ℕ) → take (length key) ((key ++ []) ++ rest) ≡ key
take-key [] [] = refl
take-key [] (b ∷ rest) = refl
take-key (b ∷ key) rest = ap (◌∷◌ b) (take-key key rest)

take-key_of : (key rest : List ℕ) → length key ≡ 32 → take 32 ((key ++ []) ++ rest) ≡ key
take-key_of key rest h = subst (λ n. take n ((key ++ []) ++ rest) ≡ key) h (take-key key rest)

pub deserialise-pub_key_req_bytes :
    (h : PubKeyReq) (rest : List ℕ)
    → PubKeyReqInRange h
    → deserialise_pub_key_req (pub_key_req_bytes h ++ rest) 0 ≡ (h, 40)
unfolding pub_key_req_bytes deserialise_pub_key_req
deserialise-pub_key_req_bytes h rest v = λ i. (
  record {
    sender_user_id = word32-bytes32 h.sender_user_id v.sender_user_id i;
    target_user_id = word32-bytes32 h.target_user_id v.target_user_id i;
    public_key = take-key_of h.public_key rest v.public_key i;
  },
  40,
)

pub deserialise-pub_key_resp_bytes :
    (h : PubKeyResp) (rest : List ℕ)
    → PubKeyRespInRange h
    → deserialise_pub_key_resp (pub_key_resp_bytes h ++ rest) 0 ≡ (h, 36)
unfolding pub_key_resp_bytes deserialise_pub_key_resp
deserialise-pub_key_resp_bytes h rest v = λ i. (
  record {
    user_id = word32-bytes32 h.user_id v.user_id i;
    public_key = take-key_of h.public_key rest v.public_key i;
  },
  36,
)

-- The fields fit their C types.
pub record MoveUserReqHeaderInRange (h : MoveUserReqHeader) : Type 0 where
  pub user_id : h.user_id < 4294967296
  pub dest_node_id : h.dest_node_id < 4294967296

pub deserialise-move_user_req_bytes :
    (h : MoveUserReqHeader) (rest : List ℕ)
    → MoveUserReqHeaderInRange h
    → deserialise_move_user_req (move_user_req_bytes h ++ rest) 0 ≡ (h, 8)
unfolding move_user_req_bytes deserialise_move_user_req
deserialise-move_user_req_bytes h rest v = λ i. (
  record {
    user_id = word32-bytes32 h.user_id v.user_id i;
    dest_node_id = word32-bytes32 h.dest_node_id v.dest_node_id i;
  },
  8,
)
