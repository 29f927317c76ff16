-- ===== src/Router/Handle/Users.antt =====
-- src/aodvRouter.cpp: messages between users, and the search for a user's node.
pub mod Delivery
use eie4_mesh_network.Prelude.{
  List, Option, [], drop, if◌then◌else◌, leb, length, lookup, min, none, some, take, ℕ, ◌%◌, ◌+◌,
  ◌-◌, ◌==◌, ◌||◌,
}
use eie4_mesh_network.Client.{BleType, ble_enc_unicast_user, ble_unicast_user, ble_user_gateway}
use eie4_mesh_network.Exec.{for_each, gets, match_option, skip, when, ◌>>=◌, ◌>>◌}
use eie4_mesh_network.Packet.{
  BaseHeader, UerrHeader, UreqHeader, UserMsgHeader, enc_ack, enc_msg, from_gateway, pkt_user_msg,
  req_ack, to_gateway,
}
use eie4_mesh_network.Packet.Serialise.{
  deserialise_uerr_header, deserialise_urep_header, deserialise_ureq_header,
  deserialise_user_msg_header, uerr_header_bytes, ureq_header_bytes, user_msg_header_bytes,
}
use eie4_mesh_network.Router.Buffers.{
  get_gut_entry, pop_buffered_user_messages, remove_gut_entry, update_gut_entry,
}
use eie4_mesh_network.Router.Handle.{forward_to, forwarded}
use eie4_mesh_network.Router.Send.{send_ack, send_rerr, send_uerr, send_urep, urep_struct}
use eie4_mesh_network.Router.Send.Users.{send_user_message}
use eie4_mesh_network.Router.State.{
  Method, RouteEntry, Router, change_sessions, fault, notify, u8, uplink,
}
use eie4_mesh_network.Router.Table.{get_route, update_route_entry}
use eie4_mesh_network.Router.Transmit.{transmit_packet}
use eie4_mesh_network.Sessions.{is_online, knows_user, queue_offline}

abbrev user_reply_threshold : ℕ
user_reply_threshold = 2

-- `message` and `messageLen`; `none` where the length wraps and runs past the packet's buffer.
unfoldable pub message_of : List ℕ → ℕ → Option (List ℕ)
message_of payload len =
    let message_len = (len + 4294967296 - 12) % 4294967296 in
    if leb message_len (length (drop 12 payload))
    then some (take message_len (drop 12 payload))
    else none

-- `uplink` copies at most 200 bytes.
unfoldable pub uplink_body : List ℕ → ℕ → List ℕ
uplink_body payload len = take (min 200 ((len + 4294967296 - 12) % 4294967296)) (drop 12 payload)

-- A message for a user of this node: to the phone, or into the inbox.
unfoldable pub deliver : BleType → UserMsgHeader → ℕ → Option (List ℕ) → Method (Unit {0})
deliver kind umh id none = fault
deliver kind umh id (some bytes) = do
  is_up ← gets (λ r. is_online umh.to_user_id r.usm)
  now ← gets (λ r. r.now)
  if is_up
      then notify (record {
        kind = kind;
        to = umh.to_user_id;
        from = umh.from_user_id;
        bytes = bytes;
        pkt_id = id;
      })
      else change_sessions (
          queue_offline umh.to_user_id
            (record {
              kind = kind;
              packet_id = id;
              to = umh.to_user_id;
              from = umh.from_user_id;
              bytes = bytes;
            })
            now)

-- The kind of message that the flags ask for.
unfoldable pub kind_of : ℕ → BleType
kind_of flags =
    if flags == from_gateway
    then ble_user_gateway
    else if flags == enc_msg || flags == enc_ack
    then ble_enc_unicast_user
    else ble_unicast_user

-- A message for another node: passed on, or its route is reported broken.
unfoldable pub forward_user_message :
    BaseHeader → UserMsgHeader → Option (List ℕ) → Method (Unit {0})
forward_user_message base umh message = do
  me ← gets (λ r. r.my_node_id)
  o ← get_route umh.to_node_id
  match_option o (send_rerr me base.origin_node_id umh.to_node_id base.packet_id) (λ re.
      match_option message fault (
        transmit_packet (record (forwarded base me re.next_hop) { packet_type = pkt_user_msg })
          (user_msg_header_bytes umh)))

-- The home node of the receiver.
unfoldable pub receive_user_message : BaseHeader → UserMsgHeader → List ℕ → ℕ → Method (Unit {0})
receive_user_message base umh payload len =
    if base.flags == to_gateway
    then (do
      is_gw ← gets (λ r. r.gateway_online)
      when is_gw (
          uplink (record {
            from = umh.from_user_id;
            to = umh.to_user_id;
            body = uplink_body payload len;
          })))
    else do
      known ← gets (λ r. knows_user umh.to_user_id r.usm)
      me ← gets (λ r. r.my_node_id)
      if known
          then deliver (kind_of base.flags) umh base.packet_id (message_of payload len)
          else send_uerr umh.to_user_id me base.origin_node_id base.packet_id base.prev_hop_id

-- The payload's length is not tested against the header's size.
unfoldable pub handle_user_message : BaseHeader → List ℕ → ℕ → Method (Unit {0})
handle_user_message base payload len = do
  let umh = (deserialise_user_msg_header payload 0).0
  when (base.flags == req_ack || base.flags == enc_ack) (send_ack base.prev_hop_id base.packet_id)
  me ← gets (λ r. r.my_node_id)
  if me == umh.to_node_id
      then receive_user_message base umh payload len
      else forward_user_message base umh (message_of payload len)

unfoldable pub forward_ureq : BaseHeader → UreqHeader → Method (Unit {0})
forward_ureq base ureq = do
  me ← gets (λ r. r.my_node_id)
  transmit_packet (forwarded base me base.dest_node_id) (ureq_header_bytes ureq) []

-- The length of the route to a user's node, if it is known and long enough to be offered.
unfoldable pub offered_route : ℕ → Router → Option RouteEntry
offered_route user r = elim (lookup user r.gut) [
  | none ↦ none
  | some ge ↦ elim (lookup ge.node_id r.route_table) [
    | none ↦ none
    | some re ↦ if leb user_reply_threshold re.hopcount then some re else none
  ]
]

unfoldable pub handle_ureq : BaseHeader → List ℕ → ℕ → Method (Unit {0})
handle_ureq base payload len = do
  let ureq = (deserialise_ureq_header payload 0).0
  update_route_entry base.prev_hop_id base.prev_hop_id 1
  update_route_entry base.origin_node_id base.prev_hop_id (u8 (base.hop_count + 1))
  me ← gets (λ r. r.my_node_id)
  is_local ← gets (λ r. knows_user ureq.user_id r.usm)
  if is_local
      then send_urep base.origin_node_id me ureq.user_id base.prev_hop_id 0
          (u8 (base.hop_count + 1))
      else do
        o ← gets (offered_route ureq.user_id)
        match_option o (forward_ureq base ureq) (λ re.
            send_urep base.origin_node_id me ureq.user_id base.prev_hop_id 0
              (u8 (base.hop_count + 1 + re.hopcount)))

unfoldable pub resend_user_messages : ℕ → Method (Unit {0})
resend_user_messages user = do
  pending ← pop_buffered_user_messages user
  for_each pending (λ m. send_user_message m.sender_id user m.message m.packet_id 0)

unfoldable pub handle_urep : BaseHeader → List ℕ → ℕ → Method (Unit {0})
handle_urep base payload len = do
  let urep = (deserialise_urep_header payload 0).0
  update_route_entry base.prev_hop_id base.prev_hop_id 1
  update_route_entry urep.dest_node_id base.prev_hop_id (u8 (base.hop_count + 1))
  update_gut_entry urep.user_id (record { node_id = urep.dest_node_id; seq = 0; ts = 0 })
  me ← gets (λ r. r.my_node_id)
  if me == base.origin_node_id
      then resend_user_messages urep.user_id
      else do ext ← gets (urep_struct urep); forward_to base.origin_node_id base ext []

-- The user has left that node.
unfoldable pub forget_user : UerrHeader → Method (Unit {0})
forget_user uerr = do
  o ← get_gut_entry uerr.user_id
  match_option o skip (λ ge. when (ge.node_id == uerr.node_id) (remove_gut_entry uerr.user_id))

unfoldable pub handle_uerr : BaseHeader → List ℕ → ℕ → Method (Unit {0})
handle_uerr base payload len = do
  let uerr = (deserialise_uerr_header payload 0).0
  update_route_entry base.prev_hop_id base.prev_hop_id 1
  forget_user uerr
  me ← gets (λ r. r.my_node_id)
  if me == base.origin_node_id
      then skip
      else forward_to base.origin_node_id base (uerr_header_bytes uerr) []
