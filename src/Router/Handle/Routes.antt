-- ===== src/Router/Handle/Routes.antt =====
-- src/aodvRouter.cpp: route requests, replies and errors, data and ACKs.
use eie4_mesh_network.Prelude.{
  List, Option, [], drop, if◌then◌else◌, leb, ltb, none, some, take, ℕ, ◌+◌, ◌-◌, ◌==◌,
}
use eie4_mesh_network.Client.{BleType, Outgoing, ble_broadcast, ble_node}
use eie4_mesh_network.Exec.{gets, match_option, skip, when, ◌>>=◌, ◌>>◌}
use eie4_mesh_network.Packet.{
  BaseHeader, DataHeader, RreqHeader, broadcast_addr, pkt_data, pkt_rerr, pkt_rrep, pkt_rreq,
  req_ack,
}
use eie4_mesh_network.Packet.Serialise.{
  data_header_bytes, deserialise_ack_header, deserialise_data_header, deserialise_rerr_header,
  deserialise_rrep_header, deserialise_rreq_header, rerr_header_bytes, rrep_header_bytes,
  rreq_header_bytes,
}
use eie4_mesh_network.Router.Acks.{remove_from_ack_buffer}
use eie4_mesh_network.Router.Flush.{
  flush_data_queue, flush_move_req_buffer, flush_user_route_buffer,
}
use eie4_mesh_network.Router.Handle.{forward_to, forwarded}
use eie4_mesh_network.Router.Send.{send_ack, send_rerr, send_rrep}
use eie4_mesh_network.Router.State.{
  Method, Publication, RouteEntry, fault, invalidate_route, notify, publish, u8,
}
use eie4_mesh_network.Router.Table.{
  get_route, has_route, invalidate_route_entry, remove_item_routing_table, update_route_entry,
}
use eie4_mesh_network.Router.Transmit.{is_absent, transmit_packet}

abbrev route_reply_threshold : ℕ
route_reply_threshold = 2

-- A known route is offered only if it is long enough.
unfoldable pub long_enough : Option RouteEntry → Option RouteEntry
long_enough none = none
long_enough (some re) = if leb route_reply_threshold re.hopcount then some re else none

unfoldable pub forward_rreq : BaseHeader → RreqHeader → Method (Unit {0})
forward_rreq base rreq = do
  me ← gets (λ r. r.my_node_id)
  transmit_packet (record (forwarded base me broadcast_addr) { packet_type = pkt_rreq })
      (rreq_header_bytes rreq) []

-- The answer to a request: by the destination, by a node with a long enough route, or none yet.
unfoldable pub answer_rreq : BaseHeader → RreqHeader → ℕ → Method (Unit {0})
answer_rreq base rreq me =
    if rreq.rreq_dest_node_id == me
    then send_rrep base.origin_node_id me base.prev_hop_id 0
    else (do
      o ← get_route rreq.rreq_dest_node_id
      match_option (long_enough o) (forward_rreq base rreq)
          (λ re. send_rrep base.origin_node_id rreq.rreq_dest_node_id base.prev_hop_id re.hopcount))

unfoldable pub handle_rreq : BaseHeader → List ℕ → ℕ → Method (Unit {0})
handle_rreq base payload len = if ltb len 4 then skip else do
  let rreq = (deserialise_rreq_header payload 0).0
  update_route_entry base.origin_node_id base.prev_hop_id (u8 (base.hop_count + 1))
  update_route_entry base.prev_hop_id base.prev_hop_id 1
  me ← gets (λ r. r.my_node_id)
  answer_rreq base rreq me

unfoldable pub handle_rrep : BaseHeader → List ℕ → ℕ → Method (Unit {0})
handle_rrep base payload len = if ltb len 7 then skip else do
  let rrep = (deserialise_rrep_header payload 0).0
  update_route_entry rrep.rrep_dest_node_id base.prev_hop_id (u8 (rrep.num_hops + 1))
  update_route_entry base.prev_hop_id base.prev_hop_id 1
  found ← has_route rrep.rrep_dest_node_id
  when found (do
    flush_data_queue rrep.rrep_dest_node_id
    flush_move_req_buffer rrep.rrep_dest_node_id
    flush_user_route_buffer rrep.rrep_dest_node_id)
  me ← gets (λ r. r.my_node_id)
  if me == base.origin_node_id
      then skip
      else forward_to base.origin_node_id (record base { packet_type = pkt_rrep })
          (rrep_header_bytes (record rrep { num_hops = u8 (rrep.num_hops + 1) })) []

-- `_mqttManager->connected` with no test for a null pointer.
unfoldable pub publish_unguarded : Publication → Method (Unit {0})
publish_unguarded p = do link ← gets (λ r. r.mqtt); if is_absent link then fault else publish p

unfoldable pub handle_rerr : BaseHeader → List ℕ → ℕ → Method (Unit {0})
handle_rerr base payload len = if ltb len 16 then skip else do
  let rerr = (deserialise_rerr_header payload 0).0
  if rerr.broken_node_id == rerr.reporter_node_id
      then (do
        remove_item_routing_table rerr.original_dest_node_id
        publish_unguarded (invalidate_route rerr.original_dest_node_id))
      else invalidate_route_entry rerr.broken_node_id rerr.original_dest_node_id
  me ← gets (λ r. r.my_node_id)
  if me == base.origin_node_id
      then skip
      else forward_to base.origin_node_id (record base { packet_type = pkt_rerr })
          (rerr_header_bytes rerr) []

unfoldable pub data_notice : BleType → ℕ → ℕ → List ℕ → ℕ → Outgoing
data_notice kind to from bytes id = record {
  kind = kind;
  to = to;
  from = from;
  bytes = bytes;
  pkt_id = id;
}

-- Data for another node: passed on, or its route is reported broken.
unfoldable pub forward_data : BaseHeader → DataHeader → List ℕ → Method (Unit {0})
forward_data base dh bytes = do
  me ← gets (λ r. r.my_node_id)
  o ← get_route dh.final_dest_id
  match_option o (send_rerr me base.origin_node_id dh.final_dest_id base.packet_id) (λ re.
      transmit_packet (record (forwarded base me re.next_hop) { packet_type = pkt_data })
        (data_header_bytes dh) bytes)

-- Data for this node goes to the phones, a broadcast to the phones and on.
unfoldable pub route_data : BaseHeader → DataHeader → List ℕ → ℕ → Method (Unit {0})
route_data base dh bytes me =
    if me == dh.final_dest_id
    then notify (data_notice ble_node dh.final_dest_id base.origin_node_id bytes base.packet_id)
    else if dh.final_dest_id == broadcast_addr
    then (do
      notify (data_notice ble_broadcast 0 0 bytes base.packet_id)
      transmit_packet (record (forwarded base me broadcast_addr) { packet_type = pkt_data })
          (data_header_bytes dh) bytes)
    else forward_data base dh bytes

unfoldable pub handle_data : BaseHeader → List ℕ → ℕ → Method (Unit {0})
handle_data base payload len = if ltb len 4 then skip else do
  let dh = (deserialise_data_header payload 0).0
  let bytes = take (len - 4) (drop 4 payload)
  when (base.flags == req_ack) (send_ack base.prev_hop_id base.packet_id)
  me ← gets (λ r. r.my_node_id)
  route_data base dh bytes me

unfoldable pub handle_ack : BaseHeader → List ℕ → ℕ → Method (Unit {0})
handle_ack base payload len =
    if ltb len 4
    then skip
    else remove_from_ack_buffer (deserialise_ack_header payload 0).0.original_packet_id
