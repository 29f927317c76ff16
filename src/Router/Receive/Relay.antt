-- ===== src/Router/Receive/Relay.antt =====
-- src/aodvRouter.cpp: a user's message that passes a node on its way.
use eie4_mesh_network.Prelude.{
  ==_ne, List, add, ap, arith, contains, drop, false, length, lookup, none, refl, some, subst, sym,
  true, ℕ, ◌++◌, ◌-◌, ◌<◌, ◌==◌, ◌||◌, ◌∙◌, ◌∷◌, ◌≡◌, ◌≢◌, ◌≤◌,
}
use eie4_mesh_network.Crypto.{IsGcm}
use eie4_mesh_network.Exec.{methods, skip, when}
use eie4_mesh_network.Packet.{BaseHeader, UserMsgHeader, enc_ack, pkt_user_msg, req_ack}
use eie4_mesh_network.Packet.RoundTrip.{BaseHeaderInRange}
use eie4_mesh_network.Packet.Serialise.{deserialise_user_msg_header, user_msg_header_bytes}
use eie4_mesh_network.Packet.UserRoundTrip.{UserMsgHeaderInRange}
use eie4_mesh_network.Router.Handle.{forwarded}
use eie4_mesh_network.Router.Handle.Users.{forward_user_message, handle_user_message, message_of}
use eie4_mesh_network.Router.Receive.{handle_packet}
use eie4_mesh_network.Router.Receive.Accept.{open_packet-transmit_packet, received}
use eie4_mesh_network.Router.Receive.EndToEnd.{
  dispatch_user_msg, handle_packet-transmit_packet, notice_of, opened_bytes, process_new,
}
use eie4_mesh_network.Router.Send.{send_ack}
use eie4_mesh_network.Router.Send.Chunks.{size}
use eie4_mesh_network.Router.State.{RouteEntry, Router, notify}
use eie4_mesh_network.Router.Table.{get_route}
use eie4_mesh_network.Router.Transmit.{encrypt_packet, header_out, transmit_packet}
use eie4_mesh_network.Router.Transmit.Succeeds.{transmit_packet_lem}
use eie4_mesh_network.Router.Transmit.Wire.{sealed_bytes}
use eie4_mesh_network.Sessions.{is_online}

-- What a node on the way sends.
abbrev pub relayed : BaseHeader → ℕ → ℕ → BaseHeader
relayed h me hop = record (forwarded h me hop) { packet_type = pkt_user_msg }

handle_user_message_elsewhere :
    (base : BaseHeader) (umh : UserMsgHeader) (payload message : List ℕ) (len : ℕ)
    (route : RouteEntry) (r : Router)
    → (deserialise_user_msg_header payload 0).0 ≡ umh
    → base.flags ≡ 0
    → umh.to_node_id ≢ r.my_node_id
    → lookup umh.to_node_id r.route_table ≡ some route
    → message_of payload len ≡ some message
    → handle_user_message base payload len r
      ≡ transmit_packet
          (relayed base r.my_node_id route.next_hop)
          (user_msg_header_bytes umh)
          message
          r
unfolding handle_user_message forward_user_message get_route methods
handle_user_message_elsewhere base umh payload message len route r d f t e m =
    let quiet : when (base.flags == req_ack || base.flags == enc_ack)
          (send_ack base.prev_hop_id base.packet_id)
        ≡ skip =
      ap (λ n. when (n == req_ack || n == enc_ack) (send_ack base.prev_hop_id base.packet_id)) f in
    let away : (r.my_node_id == umh.to_node_id) ≡ false =
      ==_ne r.my_node_id umh.to_node_id (λ z. t (sym z)) in
    rw (d, quiet) (rw away (rw (e, methods) (rw (m, methods) refl)))

-- A user's message that one node queued for the radio, of 215 bytes at most and with no flags, is
-- passed on by the next hop when the user's home is elsewhere and the route there is known: the node
-- notes the id and sends the same user header and the same message, whole, to the next hop of its
-- route, with itself as the previous hop and a hop more. The id is new to it and waits for no ACK,
-- and it was not itself the previous hop. The fields fit their types, the two nodes share a library
-- that does what GCM promises, and any stale bytes may stand behind the packet in the buffer.
pub handle_packet-relayed :
    (sender middle : Router) (h : BaseHeader) (umh : UserMsgHeader) (route : RouteEntry)
    (message bytes stale : List ℕ)
    → IsGcm middle.env.lib
    → sender.env.lib ≡ middle.env.lib
    → BaseHeaderInRange h
    → UserMsgHeaderInRange umh
    → h.packet_type ≡ pkt_user_msg
    → h.flags ≡ 0
    → h.dest_node_id ≡ middle.my_node_id
    → umh.to_node_id ≢ middle.my_node_id
    → lookup umh.to_node_id middle.route_table ≡ some route
    → h.prev_hop_id ≢ middle.my_node_id
    → lookup h.packet_id middle.ack_buffer ≡ none
    → contains h.packet_id middle.received_packet_ids ≡ false
    → length message ≤ 215
    → (transmit_packet h (user_msg_header_bytes umh) message sender).1.transmitted
      ≡ bytes ∷ sender.transmitted
    → handle_packet (received bytes stale) middle
      ≡ transmit_packet
          (relayed h middle.my_node_id route.next_hop)
          (user_msg_header_bytes umh)
          message
          (record middle { received_packet_ids = add h.packet_id middle.received_packet_ids })
unfolding handle_packet methods
handle_packet-relayed sender middle h umh route message bytes stale gcm same v uv ty fl dest away
      known prev pending fresh l queued =
    let (p, opens, body, size) =
      open_packet-transmit_packet sender middle h (user_msg_header_bytes umh) message bytes stale
        gcm same v (omega (arith, fl)) queued in
    let (head, text) = opened_bytes umh message p uv l body size in
    rw (opens, methods)
      (process_new h p middle pending fresh prev dest
        ∙ dispatch_user_msg h (drop 20 p.bytes) (p.len - 20) _ ty
        ∙ handle_user_message_elsewhere h umh (drop 20 p.bytes) message (p.len - 20) route _ head fl
            away known text)

relayed-InRange :
    (h : BaseHeader) (me hop : ℕ)
    → BaseHeaderInRange h
    → me < 4294967296
    → hop < 4294967296
    → BaseHeaderInRange (relayed h me hop)
unfolding forwarded
relayed-InRange h me hop v m n = record {
  dest_node_id = n;
  prev_hop_id = m;
  origin_node_id = v.origin_node_id;
  packet_id = v.packet_id;
  packet_type = omega arith;
  flags = v.flags;
  hop_count = omega arith;
  reserved = v.reserved;
}

pub user_packet_size :
    (umh : UserMsgHeader) (message : List ℕ)
    → length message ≤ 215
    → length (user_msg_header_bytes umh ++ message) ≤ 227
unfolding user_msg_header_bytes
user_packet_size umh message l = omega (arith, l)

-- A user's message reaches its receiver over a node between. The node that gets it from the sender,
-- and is not the user's home, queues one packet for the radio; the user's home node, the next hop of
-- its route, tells the phone the message when it gets this packet, whole and once, with the id that
-- the sender gave it, and else only notes the id. The message has 215 bytes at most and no flags.
-- On both nodes the id is new and waits for no ACK, and neither was itself the previous hop; at the
-- node between the encryption succeeds and the radio's queue has room; the receiver is online. The
-- fields fit their types, the three nodes share a library that does what GCM promises, and any stale
-- bytes may stand behind either packet in the buffers.
pub handle_packet-handle_packet :
    (sender middle receiver : Router) (h : BaseHeader) (umh : UserMsgHeader) (route : RouteEntry)
    (message bytes stale stale' cipher tag : List ℕ)
    → IsGcm receiver.env.lib
    → sender.env.lib ≡ receiver.env.lib
    → middle.env.lib ≡ receiver.env.lib
    → BaseHeaderInRange h
    → UserMsgHeaderInRange umh
    → h.packet_type ≡ pkt_user_msg
    → h.flags ≡ 0
    → length message ≤ 215
    → h.dest_node_id ≡ middle.my_node_id
    → h.prev_hop_id ≢ middle.my_node_id
    → lookup h.packet_id middle.ack_buffer ≡ none
    → contains h.packet_id middle.received_packet_ids ≡ false
    → lookup umh.to_node_id middle.route_table ≡ some route
    → umh.to_node_id ≡ receiver.my_node_id
    → route.next_hop ≡ receiver.my_node_id
    → middle.my_node_id ≢ receiver.my_node_id
    → middle.my_node_id < 4294967296
    → encrypt_packet
        (header_out (relayed h middle.my_node_id route.next_hop))
        (user_msg_header_bytes umh ++ message)
        middle
      ≡ some (cipher, tag)
    → middle.env.accepts middle.attempts ≡ true
    → lookup h.packet_id receiver.ack_buffer ≡ none
    → contains h.packet_id receiver.received_packet_ids ≡ false
    → is_online umh.to_user_id receiver.usm ≡ true
    → (transmit_packet h (user_msg_header_bytes umh) message sender).1.transmitted
      ≡ bytes ∷ sender.transmitted
    → (onward : List ℕ) × ((handle_packet (received bytes stale) middle).1.transmitted
        ≡ onward ∷ middle.transmitted)
      × (handle_packet (received onward stale') receiver
          ≡ notify (notice_of h umh message) (record receiver {
            received_packet_ids = add h.packet_id receiver.received_packet_ids;
          }))
unfolding encrypt_packet notice_of forwarded
handle_packet-handle_packet sender middle receiver h umh route message bytes stale stale' cipher tag
      gcm same same' v uv ty fl l dest prev pending fresh known home hop apart vm seals room
      pending' fresh' on queued =
    let noted = record middle {
      received_packet_ids = add h.packet_id middle.received_packet_ids;
    } in
    let onward_header = relayed h middle.my_node_id route.next_hop in
    let away : umh.to_node_id ≢ middle.my_node_id = λ z. apart (sym z ∙ home) in
    let vr : route.next_hop < 4294967296 = rw (hop, sym home) uv.to_node_id in
    let sends =
      transmit_packet_lem onward_header (user_msg_header_bytes umh) message cipher tag noted
        (user_packet_size umh message l) seals room in
    (
      sealed_bytes onward_header cipher tag,
      ap (λ s. s.1.transmitted)
            (handle_packet-relayed sender middle h umh route message bytes stale
              (subst IsGcm (sym same') gcm) (same ∙ sym same') v uv ty fl dest away known prev
              pending fresh l queued)
          ∙ sends,
      handle_packet-transmit_packet noted receiver onward_header umh message
          (sealed_bytes onward_header cipher tag) stale' gcm same'
          (relayed-InRange h middle.my_node_id route.next_hop v vm vr) uv refl fl hop home apart
          pending' fresh' on l sends,
    )
