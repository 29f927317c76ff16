-- ===== src/Packet/RoundTrip.antt =====
-- src/packet.h: what a serialiser writes, its deserialiser reads back.
use eie4_mesh_network.Prelude.{List, ℕ, ◌++◌, ◌<◌, ◌≡◌}
use eie4_mesh_network.Packet.{
  AckHeader, BaseHeader, DataHeader, DiffBroadcastInfoHeader, RerrHeader, RrepHeader, RreqHeader,
}
use eie4_mesh_network.Packet.Bytes.{word16-bytes16, word32-bytes32}
use eie4_mesh_network.Packet.Serialise.{
  ack_header_bytes, base_header_bytes, broadcast_info_header_bytes, data_header_bytes,
  deserialise_ack_header, deserialise_base_header, deserialise_broadcast_info_header,
  deserialise_data_header, deserialise_rerr_header, deserialise_rrep_header,
  deserialise_rreq_header, rerr_header_bytes, rrep_header_bytes, rreq_header_bytes,
}

-- The fields fit their C types.
pub record BaseHeaderInRange (h : BaseHeader) : Type 0 where
  pub dest_node_id : h.dest_node_id < 4294967296
  pub prev_hop_id : h.prev_hop_id < 4294967296
  pub origin_node_id : h.origin_node_id < 4294967296
  pub packet_id : h.packet_id < 4294967296
  pub packet_type : h.packet_type < 256
  pub flags : h.flags < 256
  pub hop_count : h.hop_count < 256
  pub reserved : h.reserved < 256

pub deserialise-base_header_bytes :
    (h : BaseHeader) (rest : List ℕ)
    → BaseHeaderInRange h
    → deserialise_base_header (base_header_bytes h ++ rest) ≡ (h, 20)
unfolding base_header_bytes deserialise_base_header
deserialise-base_header_bytes h rest v = λ i. (
  record {
    dest_node_id = word32-bytes32 h.dest_node_id v.dest_node_id i;
    prev_hop_id = word32-bytes32 h.prev_hop_id v.prev_hop_id i;
    origin_node_id = word32-bytes32 h.origin_node_id v.origin_node_id i;
    packet_id = word32-bytes32 h.packet_id v.packet_id i;
    packet_type = h.packet_type;
    flags = h.flags;
    hop_count = h.hop_count;
    reserved = h.reserved;
  },
  20,
)

-- The fields fit their C types.
pub record RreqHeaderInRange (h : RreqHeader) : Type 0 where
  pub rreq_dest_node_id : h.rreq_dest_node_id < 4294967296

pub deserialise-rreq_header_bytes :
    (h : RreqHeader) (rest : List ℕ)
    → RreqHeaderInRange h
    → deserialise_rreq_header (rreq_header_bytes h ++ rest) 0 ≡ (h, 4)
unfolding rreq_header_bytes deserialise_rreq_header
deserialise-rreq_header_bytes h rest v = λ i.
    (record { rreq_dest_node_id = word32-bytes32 h.rreq_dest_node_id v.rreq_dest_node_id i }, 4)

-- The fields fit their C types.
pub record RrepHeaderInRange (h : RrepHeader) : Type 0 where
  pub rrep_dest_node_id : h.rrep_dest_node_id < 4294967296
  pub lifetime : h.lifetime < 65536
  pub num_hops : h.num_hops < 256

pub deserialise-rrep_header_bytes :
    (h : RrepHeader) (rest : List ℕ)
    → RrepHeaderInRange h
    → deserialise_rrep_header (rrep_header_bytes h ++ rest) 0 ≡ (h, 7)
unfolding rrep_header_bytes deserialise_rrep_header
deserialise-rrep_header_bytes h rest v = λ i. (
  record {
    rrep_dest_node_id = word32-bytes32 h.rrep_dest_node_id v.rrep_dest_node_id i;
    lifetime = word16-bytes16 h.lifetime v.lifetime i;
    num_hops = h.num_hops;
  },
  7,
)

-- The fields fit their C types.
pub record RerrHeaderInRange (h : RerrHeader) : Type 0 where
  pub reporter_node_id : h.reporter_node_id < 4294967296
  pub broken_node_id : h.broken_node_id < 4294967296
  pub original_dest_node_id : h.original_dest_node_id < 4294967296
  pub original_packet_id : h.original_packet_id < 4294967296

pub deserialise-rerr_header_bytes :
    (h : RerrHeader) (rest : List ℕ)
    → RerrHeaderInRange h
    → deserialise_rerr_header (rerr_header_bytes h ++ rest) 0 ≡ (h, 16)
unfolding rerr_header_bytes deserialise_rerr_header
deserialise-rerr_header_bytes h rest v = λ i. (
  record {
    reporter_node_id = word32-bytes32 h.reporter_node_id v.reporter_node_id i;
    broken_node_id = word32-bytes32 h.broken_node_id v.broken_node_id i;
    original_dest_node_id = word32-bytes32 h.original_dest_node_id v.original_dest_node_id i;
    original_packet_id = word32-bytes32 h.original_packet_id v.original_packet_id i;
  },
  16,
)

-- The fields fit their C types.
pub record AckHeaderInRange (h : AckHeader) : Type 0 where
  pub original_packet_id : h.original_packet_id < 4294967296

pub deserialise-ack_header_bytes :
    (h : AckHeader) (rest : List ℕ)
    → AckHeaderInRange h
    → deserialise_ack_header (ack_header_bytes h ++ rest) 0 ≡ (h, 4)
unfolding ack_header_bytes deserialise_ack_header
deserialise-ack_header_bytes h rest v = λ i.
    (record { original_packet_id = word32-bytes32 h.original_packet_id v.original_packet_id i }, 4)

-- The fields fit their C types.
pub record DataHeaderInRange (h : DataHeader) : Type 0 where
  pub final_dest_id : h.final_dest_id < 4294967296

pub deserialise-data_header_bytes :
    (h : DataHeader) (rest : List ℕ)
    → DataHeaderInRange h
    → deserialise_data_header (data_header_bytes h ++ rest) 0 ≡ (h, 4)
unfolding data_header_bytes deserialise_data_header
deserialise-data_header_bytes h rest v =
    λ i. (record { final_dest_id = word32-bytes32 h.final_dest_id v.final_dest_id i }, 4)

-- The fields fit their C types.
pub record DiffBroadcastInfoHeaderInRange (h : DiffBroadcastInfoHeader) : Type 0 where
  pub num_added : h.num_added < 65536
  pub num_removed : h.num_removed < 65536

pub deserialise-broadcast_info_header_bytes :
    (h : DiffBroadcastInfoHeader) (rest : List ℕ)
    → DiffBroadcastInfoHeaderInRange h
    → deserialise_broadcast_info_header (broadcast_info_header_bytes h ++ rest) 0 ≡ (h, 4)
unfolding broadcast_info_header_bytes deserialise_broadcast_info_header
deserialise-broadcast_info_header_bytes h rest v = λ i. (
  record {
    num_added = word16-bytes16 h.num_added v.num_added i;
    num_removed = word16-bytes16 h.num_removed v.num_removed i;
  },
  4,
)
