-- ===== src/Router/Receive/EndToEnd.antt =====
-- src/aodvRouter.cpp: a user's message from one node's `transmitPacket` to another node's phone.
use eie4_mesh_network.Prelude.{
  ==_ne, Bool-cases, List, add, ap, arith, contains, drop, false, inl, inr, length, length-append,
  lookup, none, refl, some, sym, take, take-append-drop, take-append_self, true, ℕ, ◌%◌, ◌++◌, ◌+◌,
  ◌-◌, ◌==◌, ◌||◌, ◌∙◌, ◌∷◌, ◌≡◌, ◌≢◌, ◌≤◌,
}
use eie4_mesh_network.Client.{Outgoing, ble_unicast_user}
use eie4_mesh_network.Crypto.{IsGcm}
use eie4_mesh_network.Exec.{methods, skip, when}
use eie4_mesh_network.Packet.{
  BaseHeader, UserMsgHeader, broadcast_addr, enc_ack, pkt_user_msg, req_ack,
}
use eie4_mesh_network.Packet.RoundTrip.{BaseHeaderInRange}
use eie4_mesh_network.Packet.Serialise.{deserialise_user_msg_header, user_msg_header_bytes}
use eie4_mesh_network.Packet.UserRoundTrip.{UserMsgHeaderInRange, deserialise-user_msg_header_bytes}
use eie4_mesh_network.Router.Acks.{try_implicit_ack}
use eie4_mesh_network.Router.Buffers.{is_duplicate_packet_id, store_packet_id}
use eie4_mesh_network.Router.Handle.Users.{
  deliver, handle_user_message, kind_of, message_of, receive_user_message,
}
use eie4_mesh_network.Router.Receive.{RadioPacket, accept, dispatch, handle_packet, process}
use eie4_mesh_network.Router.Receive.Accept.{open_packet-transmit_packet, received}
use eie4_mesh_network.Router.Send.{send_ack}
use eie4_mesh_network.Router.Send.Chunks.{size}
use eie4_mesh_network.Router.State.{Router, notify}
use eie4_mesh_network.Router.Transmit.{transmit_packet}
use eie4_mesh_network.Sessions.{Sessions, is_online, knows_user}

pub take_eq : (n : ℕ) (xs ys : List ℕ) → take n xs ≡ ys → xs ≡ ys ++ drop n xs
take_eq n xs ys e = sym (take-append-drop n xs) ∙ ap (λ l. l ++ drop n xs) e

-- The message behind the header.
message_of-bytes :
    (umh : UserMsgHeader) (message rest : List ℕ) (len : ℕ)
    → len ≡ 12 + length message
    → length message ≤ 215
    → message_of ((user_msg_header_bytes umh ++ message) ++ rest) len ≡ some message
unfolding message_of user_msg_header_bytes
message_of-bytes umh message rest len e l =
    let n : (len + 4294967296 - 12) % 4294967296 ≡ length message = omega arith in
    rw n (rw (take-append_self message rest) (ground (arith, length-append message rest)))

knows_user_of : (user : ℕ) (s : Sessions) → is_online user s ≡ true → knows_user user s ≡ true
unfolding is_online knows_user
knows_user_of user s h = ground arith

unfoldable pub notice_of : BaseHeader → UserMsgHeader → List ℕ → Outgoing
notice_of base umh message = record {
  kind = ble_unicast_user;
  to = umh.to_user_id;
  from = umh.from_user_id;
  bytes = message;
  pkt_id = base.packet_id;
}

receive_user_message_online :
    (base : BaseHeader) (umh : UserMsgHeader) (payload message : List ℕ) (len : ℕ) (r : Router)
    → base.flags ≡ 0
    → is_online umh.to_user_id r.usm ≡ true
    → message_of payload len ≡ some message
    → receive_user_message base umh payload len r ≡ notify (notice_of base umh message) r
unfolding receive_user_message deliver notice_of kind_of methods
receive_user_message_online base umh payload message len r f on m =
    simp (f, knows_user_of umh.to_user_id r.usm on, m, on) refl

handle_user_message_here :
    (base : BaseHeader) (umh : UserMsgHeader) (payload message : List ℕ) (len : ℕ) (r : Router)
    → (deserialise_user_msg_header payload 0).0 ≡ umh
    → base.flags ≡ 0
    → umh.to_node_id ≡ r.my_node_id
    → is_online umh.to_user_id r.usm ≡ true
    → message_of payload len ≡ some message
    → handle_user_message base payload len r ≡ notify (notice_of base umh message) r
unfolding handle_user_message methods
handle_user_message_here base umh payload message len r d f t on m =
    let quiet : when (base.flags == req_ack || base.flags == enc_ack)
          (send_ack base.prev_hop_id base.packet_id)
        ≡ skip =
      ap (λ n. when (n == req_ack || n == enc_ack) (send_ack base.prev_hop_id base.packet_id)) f in
    let here : (r.my_node_id == umh.to_node_id) ≡ true = ground (arith, t) in
    rw (d, quiet) (rw here (receive_user_message_online base umh payload message len r f on m))

pub dispatch_user_msg :
    (bh : BaseHeader) (payload : List ℕ) (len : ℕ) (r : Router)
    → bh.packet_type ≡ pkt_user_msg
    → dispatch bh payload len r ≡ handle_user_message bh payload len r
unfolding dispatch
dispatch_user_msg bh payload len r e = simp e refl

pub process_new :
    (bh : BaseHeader) (p : RadioPacket) (r : Router)
    → lookup bh.packet_id r.ack_buffer ≡ none
    → contains bh.packet_id r.received_packet_ids ≡ false
    → bh.prev_hop_id ≢ r.my_node_id
    → bh.dest_node_id ≡ r.my_node_id
    → process bh p r
      ≡ dispatch bh
          (drop 20 p.bytes)
          (p.len - 20)
          (record r { received_packet_ids = add bh.packet_id r.received_packet_ids })
unfolding process accept try_implicit_ack is_duplicate_packet_id store_packet_id methods
process_new bh p r a d prev dest =
    rw (a, methods)
      (rw (d, ==_ne bh.prev_hop_id r.my_node_id prev)
        (let here : (bh.dest_node_id == r.my_node_id) ≡ true = ground (arith, dest) in
          rw here (elim (Bool-cases (bh.dest_node_id == broadcast_addr)) [
            | inl e ↦ rw e refl
            | inr e ↦ rw e refl
          ])))

-- The bytes behind the header of an opened packet start with what was sealed.
pub opened_bytes :
    (umh : UserMsgHeader) (message : List ℕ) (p : RadioPacket)
    → UserMsgHeaderInRange umh
    → length message ≤ 215
    → take (p.len - 20) (drop 20 p.bytes) ≡ user_msg_header_bytes umh ++ message
    → p.len ≡ 20 + length (user_msg_header_bytes umh ++ message)
    → ((deserialise_user_msg_header (drop 20 p.bytes) 0).0 ≡ umh)
      × (message_of (drop 20 p.bytes) (p.len - 20) ≡ some message)
unfolding user_msg_header_bytes
opened_bytes umh message p v l e n =
    let rest = drop (p.len - 20) (drop 20 p.bytes) in
    let split = take_eq (p.len - 20) (drop 20 p.bytes) (user_msg_header_bytes umh ++ message) e in
    (
      ap (λ b. (deserialise_user_msg_header b 0).0) split
          ∙ ap (λ q. q.0) (deserialise-user_msg_header_bytes umh (message ++ rest) v),
      ap (λ b. message_of b (p.len - 20)) split
          ∙ message_of-bytes umh message rest (p.len - 20) (omega arith) l,
    )

-- A user's message that one node queues for the radio with `transmitPacket`, of 215 bytes at most
-- and with no flags, reaches the phone of its receiver: a node with the same library that is the
-- next hop and the receiver's home node tells the phone the message, whole and once, when it gets
-- these bytes, whatever stale bytes stand behind them in its buffer; else it only notes the id. The
-- id is new to it and waits for no ACK, it was not itself the previous hop, and the receiver is
-- online. The fields fit their types and the library does what GCM promises.
pub handle_packet-transmit_packet :
    (sender receiver : Router) (h : BaseHeader) (umh : UserMsgHeader) (message bytes stale : List ℕ)
    → IsGcm receiver.env.lib
    → sender.env.lib ≡ receiver.env.lib
    → BaseHeaderInRange h
    → UserMsgHeaderInRange umh
    → h.packet_type ≡ pkt_user_msg
    → h.flags ≡ 0
    → h.dest_node_id ≡ receiver.my_node_id
    → umh.to_node_id ≡ receiver.my_node_id
    → h.prev_hop_id ≢ receiver.my_node_id
    → lookup h.packet_id receiver.ack_buffer ≡ none
    → contains h.packet_id receiver.received_packet_ids ≡ false
    → is_online umh.to_user_id receiver.usm ≡ true
    → length message ≤ 215
    → (transmit_packet h (user_msg_header_bytes umh) message sender).1.transmitted
      ≡ bytes ∷ sender.transmitted
    → handle_packet (received bytes stale) receiver
      ≡ notify
          (notice_of h umh message)
          (record receiver { received_packet_ids = add h.packet_id receiver.received_packet_ids })
unfolding handle_packet methods
handle_packet-transmit_packet sender receiver h umh message bytes stale gcm same v uv ty fl dest
      home prev pending fresh on l queued =
    let (p, opens, body, size) =
      open_packet-transmit_packet sender receiver h (user_msg_header_bytes umh) message bytes stale
        gcm same v (omega (arith, fl)) queued in
    let (head, text) = opened_bytes umh message p uv l body size in
    rw (opens, methods)
      (process_new h p receiver pending fresh prev dest
        ∙ dispatch_user_msg h (drop 20 p.bytes) (p.len - 20) _ ty
        ∙ handle_user_message_here h umh (drop 20 p.bytes) message (p.len - 20) _ head fl home on
            text)
