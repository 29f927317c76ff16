-- ===== src/Delivers.antt =====
-- From the phone of one user to the phone of another, over two nodes: src/bluetoothManager.cpp,
-- src/networkMessageHandler.cpp and src/aodvRouter.cpp together.
use eie4_mesh_network.Bluetooth.Transmit
use eie4_mesh_network.Prelude.{
  ==_ne, List, [], add, ap, arith, contains, false, length-take, lookup, none, refl, some, subst,
  sym, take, true, ℕ, ◌++◌, ◌<◌, ◌∙◌, ◌∷◌, ◌≡◌, ◌≢◌,
}
use eie4_mesh_network.Bluetooth.{PhoneMessage, parse, user_msg}
use eie4_mesh_network.Bluetooth.Delivery.{as_user_msg, parse-ble_tx_worker}
use eie4_mesh_network.Bluetooth.Requests.{
  IsRequest, after_request, after_request-ask_router, ask_router,
}
use eie4_mesh_network.Bluetooth.Transmit.{ble_tx_worker}
use eie4_mesh_network.Client.{Outgoing}
use eie4_mesh_network.Crypto.{IsGcm}
use eie4_mesh_network.Exec.{methods}
use eie4_mesh_network.Node.{Node, to_one}
use eie4_mesh_network.Packet.{BaseHeader, UserMsgHeader, pkt_user_msg}
use eie4_mesh_network.Packet.Serialise.{user_msg_header_bytes}
use eie4_mesh_network.Router.Buffers.{get_gut_entry}
use eie4_mesh_network.Router.Receive.{handle_packet}
use eie4_mesh_network.Router.Receive.Accept.{received}
use eie4_mesh_network.Router.Receive.EndToEnd.{handle_packet-transmit_packet, notice_of}
use eie4_mesh_network.Router.Receive.Relay.{user_packet_size}
use eie4_mesh_network.Router.Send.{packet_id_or_fresh}
use eie4_mesh_network.Router.Send.Users.{route_user_message, send_user_message, send_user_packet}
use eie4_mesh_network.Router.State.{GutEntry, RouteEntry, Router, notify}
use eie4_mesh_network.Router.Table.{get_route}
use eie4_mesh_network.Router.Transmit.{encrypt_packet, header_out, transmit_packet}
use eie4_mesh_network.Router.Transmit.Succeeds.{transmit_packet_lem}
use eie4_mesh_network.Router.Transmit.Wire.{sealed_bytes}
use eie4_mesh_network.Sessions.{get_ble_handle, is_online, knows_user}

-- The header that `sendUserMessage` builds.
abbrev pub header_of : ℕ → ℕ → ℕ → BaseHeader
header_of next_hop me id = record {
  dest_node_id = next_hop;
  prev_hop_id = me;
  origin_node_id = me;
  packet_id = id;
  packet_type = pkt_user_msg;
  flags = 0;
  hop_count = 0;
  reserved = 0;
}

abbrev pub addresses_of : PhoneMessage → ℕ → UserMsgHeader
addresses_of i node = record { from_user_id = i.sender; to_user_id = i.dest; to_node_id = node }

send_user_packet_known :
    (node : ℕ) (i : PhoneMessage) (message : List ℕ) (hop : ℕ) (r : Router)
    → node ≢ 0
    → hop ≢ 0
    → send_user_packet hop node i.sender i.dest message i.pkt_id 0 r
      ≡ transmit_packet
          (header_of hop r.my_node_id i.pkt_id)
          (user_msg_header_bytes (addresses_of i node))
          message
          r
unfolding send_user_packet methods
send_user_packet_known node i message hop r n h = rw (==_ne hop 0 h) (rw (==_ne node 0 n) refl)

send_user_message_known :
    (i : PhoneMessage) (message : List ℕ) (entry : GutEntry) (route : RouteEntry) (r : Router)
    → i.pkt_id ≢ 0
    → lookup i.dest r.gut ≡ some entry
    → lookup entry.node_id r.route_table ≡ some route
    → entry.node_id ≢ 0
    → route.next_hop ≢ 0
    → send_user_message i.sender i.dest message i.pkt_id 0 r
      ≡ transmit_packet
          (header_of route.next_hop r.my_node_id i.pkt_id)
          (user_msg_header_bytes (addresses_of i entry.node_id))
          message
          r
unfolding send_user_message route_user_message packet_id_or_fresh get_gut_entry get_route methods
send_user_message_known i message entry route r id e re n h = rw (==_ne i.pkt_id 0 id) (
    rw (e, methods)
      (rw (re, methods) (send_user_packet_known entry.node_id i message route.next_hop r n h)))

-- A known sender's message becomes a packet of the router.
user_msg_transmits :
    (handle : ℕ) (msg : List ℕ) (i : PhoneMessage) (a : Node) (entry : GutEntry)
    (route : RouteEntry)
    → parse msg ≡ some i
    → i.kind ≡ user_msg
    → a.send_queue ≡ []
    → i.pkt_id ≢ 0
    → knows_user i.sender a.router.usm ≡ true
    → lookup i.dest a.router.gut ≡ some entry
    → lookup entry.node_id a.router.route_table ≡ some route
    → entry.node_id ≢ 0
    → route.next_hop ≢ 0
    → after_request handle msg a
      ≡ (transmit_packet
          (header_of route.next_hop a.router.my_node_id i.pkt_id)
          (user_msg_header_bytes (addresses_of i entry.node_id))
          (take 200 i.body)
          a.router).1
unfolding ask_router methods
user_msg_transmits handle msg i a entry route p kind empty id known e re n h =
    after_request-ask_router handle msg i a p (subst IsRequest (sym kind) tt) empty
    ∙ ap (λ t. (ask_router a.has_gateway_manager i t a.router).1) kind
    ∙ rw known (
        ap (λ s. s.1)
          (send_user_message_known i (take 200 i.body) entry route a.router id e re n h))

-- What a phone writes to its node as a message to a user reaches the phone of that user, whose node
-- is the next hop. The first node queues one packet for the radio. When its bytes arrive, whatever
-- stale bytes stand behind them in the buffer, the second node makes exactly one notice of them and
-- notes the id, and a round of its sending task turns this notice into one notification to the
-- connection of that user, which reads as the message that was written, with its id, its two users
-- and the first 200 bytes of its body. The first node's queue to the router and the second node's
-- queue to the phones are empty; the first node knows the sender, the home node of the user and the
-- route, its encryption succeeds and the radio's queue has room; the second node has not seen the
-- id, waits for no ACK of it, has its Bluetooth characteristic, and has the user online. The id and the second node's number are not
-- 0, ids and addresses are 32-bit numbers, the nodes differ and share a library that does what GCM
-- promises.
pub handle_packet-after_request :
    (handle : ℕ) (msg : List ℕ) (i : PhoneMessage) (a b : Node) (entry : GutEntry)
    (route : RouteEntry) (cipher tag stale : List ℕ)
    → parse msg ≡ some i
    → i.kind ≡ user_msg
    → a.send_queue ≡ []
    → i.pkt_id ≢ 0
    → knows_user i.sender a.router.usm ≡ true
    → lookup i.dest a.router.gut ≡ some entry
    → lookup entry.node_id a.router.route_table ≡ some route
    → entry.node_id ≡ b.router.my_node_id
    → route.next_hop ≡ b.router.my_node_id
    → b.router.my_node_id ≢ 0
    → a.router.my_node_id ≢ b.router.my_node_id
    → a.router.my_node_id < 4294967296
    → b.router.my_node_id < 4294967296
    → i.pkt_id < 4294967296
    → i.dest < 4294967296
    → i.sender < 4294967296
    → IsGcm b.router.env.lib
    → a.router.env.lib ≡ b.router.env.lib
    → lookup i.pkt_id b.router.ack_buffer ≡ none
    → contains i.pkt_id b.router.received_packet_ids ≡ false
    → is_online i.dest b.router.usm ≡ true
    → b.ble_tx_queue ≡ []
    → b.has_rx_characteristic ≡ true
    → encrypt_packet
        (header_out (header_of route.next_hop a.router.my_node_id i.pkt_id))
        (user_msg_header_bytes (addresses_of i entry.node_id) ++ take 200 i.body)
        a.router
      ≡ some (cipher, tag)
    → a.router.env.accepts a.router.attempts ≡ true
    → (bytes : List ℕ) × (o : Outgoing) × (raw : List ℕ) × ((after_request handle msg a).transmitted
        ≡ bytes ∷ a.router.transmitted)
      × (handle_packet (received bytes stale) b.router
          ≡ notify o (record (b.router) {
            received_packet_ids = add i.pkt_id b.router.received_packet_ids;
          }))
      × ((ble_tx_worker (Transmit.notify o b).1).1.sent
          ≡ to_one (get_ble_handle i.dest b.router.usm) raw ∷ b.sent)
      × (parse raw
          ≡ some (record {
            kind = user_msg;
            pkt_id = i.pkt_id;
            dest = i.dest;
            sender = i.sender;
            body = take 200 i.body;
          }))
unfolding notice_of
handle_packet-after_request handle msg i a b entry route cipher tag stale p kind empty id known e re
      home hop some_node other va vb vi vd vs gcm same pending fresh on quiet there seals room =
    let h = header_of route.next_hop a.router.my_node_id i.pkt_id in
    let umh = addresses_of i entry.node_id in
    let n : entry.node_id ≢ 0 = λ z. some_node (sym home ∙ z) in
    let g : route.next_hop ≢ 0 = λ z. some_node (sym hop ∙ z) in
    let sends = user_msg_transmits handle msg i a entry route p kind empty id known e re n g in
    let (raw, arrives, reads) =
      parse-ble_tx_worker as_user_msg i.dest i.sender (take 200 i.body) i.pkt_id b quiet there vd vs
        vi in
    let cut = length-take 200 i.body in
    let size = user_packet_size umh (take 200 i.body) (omega (arith, cut)) in
    let queued =
      transmit_packet_lem h (user_msg_header_bytes umh) (take 200 i.body) cipher tag a.router size
        seals room in
    (
      sealed_bytes h cipher tag,
      notice_of h umh (take 200 i.body),
      raw,
      ap (λ r. r.transmitted) sends ∙ queued,
      handle_packet-transmit_packet a.router b.router h umh (take 200 i.body)
          (sealed_bytes h cipher tag) stale gcm same
          (record {
            dest_node_id = rw hop vb;
            prev_hop_id = va;
            origin_node_id = va;
            packet_id = vi;
            packet_type = omega arith;
            flags = omega arith;
            hop_count = omega arith;
            reserved = omega arith;
          })
          (record { from_user_id = vs; to_user_id = vd; to_node_id = rw home vb }) refl refl hop
          home other pending fresh on (omega (arith, cut)) queued,
      arrives,
      reads,
    )
