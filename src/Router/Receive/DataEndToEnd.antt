-- ===== src/Router/Receive/DataEndToEnd.antt =====
-- src/aodvRouter.cpp: data from one node's `transmitPacket` to the phones of another node.
use eie4_mesh_network.Prelude.{
  List, add, ap, arith, contains, drop, false, length, le→ltb, lookup, ltb, none, refl, take,
  take-append_self, true, ℕ, ◌++◌, ◌+◌, ◌-◌, ◌==◌, ◌∙◌, ◌∷◌, ◌≡◌, ◌≢◌,
}
use eie4_mesh_network.Client.{ble_node}
use eie4_mesh_network.Crypto.{IsGcm}
use eie4_mesh_network.Exec.{methods, skip, when}
use eie4_mesh_network.Packet.{BaseHeader, DataHeader, pkt_data, req_ack}
use eie4_mesh_network.Packet.RoundTrip.{
  BaseHeaderInRange, DataHeaderInRange, deserialise-data_header_bytes,
}
use eie4_mesh_network.Packet.Serialise.{data_header_bytes, deserialise_data_header}
use eie4_mesh_network.Router.Handle.Routes.{data_notice, handle_data, route_data}
use eie4_mesh_network.Router.Receive.{RadioPacket, dispatch, handle_packet}
use eie4_mesh_network.Router.Receive.Accept.{open_packet-transmit_packet, received}
use eie4_mesh_network.Router.Receive.EndToEnd.{process_new, take_eq}
use eie4_mesh_network.Router.Send.{send_ack}
use eie4_mesh_network.Router.Send.Chunks.{size}
use eie4_mesh_network.Router.State.{Router, notify}
use eie4_mesh_network.Router.Transmit.{transmit_packet}

-- The bytes behind the header of an opened packet start with what was sealed.
opened_data :
    (dh : DataHeader) (bytes : List ℕ) (p : RadioPacket)
    → DataHeaderInRange dh
    → take (p.len - 20) (drop 20 p.bytes) ≡ data_header_bytes dh ++ bytes
    → p.len ≡ 20 + length (data_header_bytes dh ++ bytes)
    → (ltb (p.len - 20) 4 ≡ false)
      × ((deserialise_data_header (drop 20 p.bytes) 0).0 ≡ dh)
      × (take (p.len - 20 - 4) (drop 4 (drop 20 p.bytes)) ≡ bytes)
unfolding data_header_bytes
opened_data dh bytes p v e n =
    let rest = drop (p.len - 20) (drop 20 p.bytes) in
    let split = take_eq (p.len - 20) (drop 20 p.bytes) (data_header_bytes dh ++ bytes) e in
    let size : p.len - 20 - 4 ≡ length bytes = omega arith in
    (
      le→ltb (p.len - 20) 4 (omega arith),
      ap (λ b. (deserialise_data_header b 0).0) split
          ∙ ap (λ q. q.0) (deserialise-data_header_bytes dh (bytes ++ rest) v),
      ap (λ b. take (p.len - 20 - 4) (drop 4 b)) split
          ∙ ap (λ k. take k (bytes ++ rest)) size
          ∙ take-append_self bytes rest,
    )

handle_data_here :
    (base : BaseHeader) (dh : DataHeader) (payload bytes : List ℕ) (len : ℕ) (r : Router)
    → ltb len 4 ≡ false
    → (deserialise_data_header payload 0).0 ≡ dh
    → take (len - 4) (drop 4 payload) ≡ bytes
    → base.flags ≡ 0
    → dh.final_dest_id ≡ r.my_node_id
    → handle_data base payload len r
      ≡ notify (data_notice ble_node dh.final_dest_id base.origin_node_id bytes base.packet_id) r
unfolding handle_data route_data methods
handle_data_here base dh payload bytes len r long d b f t =
    let quiet : when (base.flags == req_ack) (send_ack base.prev_hop_id base.packet_id) ≡ skip =
      ap (λ n. when (n == req_ack) (send_ack base.prev_hop_id base.packet_id)) f in
    let here : (r.my_node_id == dh.final_dest_id) ≡ true = ground (arith, t) in
    rw (long, d, b) (rw quiet (rw here refl))

dispatch_data :
    (bh : BaseHeader) (payload : List ℕ) (len : ℕ) (r : Router)
    → bh.packet_type ≡ pkt_data
    → dispatch bh payload len r ≡ handle_data bh payload len r
unfolding dispatch
dispatch_data bh payload len r e = simp e refl

-- Data that one node queues for the radio with `transmitPacket`, with no flags, reaches the phones
-- of its destination: a node with the same library that is the next hop and the final destination
-- tells them the data, whole and once, when it gets these bytes, whatever stale bytes stand behind
-- them in its buffer; else it only notes the id. The id is new to it and waits for no ACK, and it
-- was not itself the previous hop. The fields fit their types and the library does what GCM
-- promises.
pub handle_packet-transmit_data :
    (sender receiver : Router) (h : BaseHeader) (dh : DataHeader) (bytes wire stale : List ℕ)
    → IsGcm receiver.env.lib
    → sender.env.lib ≡ receiver.env.lib
    → BaseHeaderInRange h
    → DataHeaderInRange dh
    → h.packet_type ≡ pkt_data
    → h.flags ≡ 0
    → h.dest_node_id ≡ receiver.my_node_id
    → dh.final_dest_id ≡ receiver.my_node_id
    → h.prev_hop_id ≢ receiver.my_node_id
    → lookup h.packet_id receiver.ack_buffer ≡ none
    → contains h.packet_id receiver.received_packet_ids ≡ false
    → (transmit_packet h (data_header_bytes dh) bytes sender).1.transmitted
      ≡ wire ∷ sender.transmitted
    → handle_packet (received wire stale) receiver
      ≡ notify
          (data_notice ble_node dh.final_dest_id h.origin_node_id bytes h.packet_id)
          (record receiver { received_packet_ids = add h.packet_id receiver.received_packet_ids })
unfolding handle_packet methods
handle_packet-transmit_data sender receiver h dh bytes wire stale gcm same v dv ty fl dest home prev
      pending fresh queued =
    let (p, opens, body, size) =
      open_packet-transmit_packet sender receiver h (data_header_bytes dh) bytes wire stale gcm same
        v (omega (arith, fl)) queued in
    let (long, head, text) = opened_data dh bytes p dv body size in
    rw (opens, methods)
      (process_new h p receiver pending fresh prev dest
        ∙ dispatch_data h (drop 20 p.bytes) (p.len - 20) _ ty
        ∙ handle_data_here h dh (drop 20 p.bytes) bytes (p.len - 20) _ long head text fl home)
