-- ===== src/Packet.antt =====
-- src/packet.h: the packet types, the flags and the headers. The serialisers are in the children.
-- A header is a record of numbers; a buffer is the list of its bytes.
pub mod Bytes
pub mod Serialise
pub mod RoundTrip
pub mod UserRoundTrip
pub mod Offsets
use eie4_mesh_network.Prelude.{ℕ, List}

abbrev pub pkt_rreq : ℕ
pkt_rreq = 0x01

abbrev pub pkt_rrep : ℕ
pkt_rrep = 0x02

abbrev pub pkt_rerr : ℕ
pkt_rerr = 0x03

abbrev pub pkt_data : ℕ
pkt_data = 0x04

abbrev pub pkt_broadcast : ℕ
pkt_broadcast = 0x05

abbrev pub pkt_broadcast_info : ℕ
pkt_broadcast_info = 0x06

abbrev pub pkt_ack : ℕ
pkt_ack = 0x07

abbrev pub pkt_ureq : ℕ
pkt_ureq = 0x0f

abbrev pub pkt_urep : ℕ
pkt_urep = 0x10

abbrev pub pkt_uerr : ℕ
pkt_uerr = 0x11

abbrev pub pkt_user_msg : ℕ
pkt_user_msg = 0x12

abbrev pub pkt_pubkey_req : ℕ
pkt_pubkey_req = 0x13

abbrev pub pkt_pubkey_resp : ℕ
pkt_pubkey_resp = 0x14

abbrev pub pkt_move_user_req : ℕ
pkt_move_user_req = 0x15

abbrev pub from_gateway : ℕ
from_gateway = 0x01

abbrev pub to_gateway : ℕ
to_gateway = 0x02

abbrev pub i_am_gateway : ℕ
i_am_gateway = 0x03

abbrev pub req_ack : ℕ
req_ack = 0x04

abbrev pub enc_msg : ℕ
enc_msg = 0x10

abbrev pub enc_ack : ℕ
enc_ack = 0x14

abbrev pub flag_encrypted : ℕ
flag_encrypted = 0x80

abbrev pub broadcast_addr : ℕ
broadcast_addr = 0xffff_ffff

pub record BaseHeader : Type 0 where
  pub dest_node_id : ℕ
  pub prev_hop_id : ℕ
  pub origin_node_id : ℕ
  pub packet_id : ℕ
  pub packet_type : ℕ
  pub flags : ℕ
  pub hop_count : ℕ
  pub reserved : ℕ

pub record RreqHeader : Type 0 where
  pub rreq_dest_node_id : ℕ

pub record RrepHeader : Type 0 where
  pub rrep_dest_node_id : ℕ
  pub lifetime : ℕ
  pub num_hops : ℕ

pub record RerrHeader : Type 0 where
  pub reporter_node_id : ℕ
  pub broken_node_id : ℕ
  pub original_dest_node_id : ℕ
  pub original_packet_id : ℕ

pub record AckHeader : Type 0 where
  pub original_packet_id : ℕ

pub record DataHeader : Type 0 where
  pub final_dest_id : ℕ

pub record DiffBroadcastInfoHeader : Type 0 where
  pub num_added : ℕ
  pub num_removed : ℕ

pub record UreqHeader : Type 0 where
  pub user_id : ℕ

pub record UrepHeader : Type 0 where
  pub dest_node_id : ℕ
  pub user_id : ℕ
  pub lifetime : ℕ
  pub num_hops : ℕ

pub record UerrHeader : Type 0 where
  pub user_id : ℕ
  pub node_id : ℕ
  pub original_packet_id : ℕ

pub record UserMsgHeader : Type 0 where
  pub from_user_id : ℕ
  pub to_user_id : ℕ
  pub to_node_id : ℕ

pub record PubKeyReq : Type 0 where
  pub sender_user_id : ℕ
  pub target_user_id : ℕ
  pub public_key : List ℕ

pub record PubKeyResp : Type 0 where
  pub user_id : ℕ
  pub public_key : List ℕ

pub record MoveUserReqHeader : Type 0 where
  pub user_id : ℕ
  pub dest_node_id : ℕ
