-- ===== src/Bluetooth/Rejects.antt =====
-- src/bluetoothManager.cpp: the messages of phones that the node drops.
use eie4_mesh_network.Prelude.{
  ==_ne, Bool-cases, List, false, inl, inr, length, ltb, lt→ltb, none, some, true, ℕ, ◌<◌, ◌≡◌, ◌≢◌,
}
use eie4_mesh_network.Bluetooth.{
  BleMessageType, PhoneMessage, ble_announce_key, ble_request_pubkey, has_pkt, parse, parse_as,
  type_of, user_msg, user_msg_gateway, user_msg_req_ack,
}
use eie4_mesh_network.Bluetooth.Process.{
  handle_announce_key, process_incoming_message, react, when_known,
}
use eie4_mesh_network.Exec.{methods, skip}
use eie4_mesh_network.Node.{Node}
use eie4_mesh_network.Packet.Bytes.{read8}
use eie4_mesh_network.Sessions.{knows_user}

-- The types that only a user of this node may send.
pub data IsForUsers : BleMessageType → Type 0 where
  plain_user : IsForUsers user_msg
  plain_user_req_ack : IsForUsers user_msg_req_ack
  gateway_user : IsForUsers user_msg_gateway

-- Why a message is dropped: it has no room for the header, or none for the header with a packet id,
-- its type is not one of the protocol, its sender is not known, a key has not 32 bytes, or a key is
-- asked for by nobody.
pub data IsIgnored (n : Node) (msg : List ℕ) : Type 0 where
  too_short : length msg < 9 → IsIgnored n msg
  no_packet_id :
      (t : BleMessageType)
      → type_of (read8 msg 0) ≡ some t
      → has_pkt t ≡ true
      → length msg < 13
      → IsIgnored n msg
  unknown_type : type_of (read8 msg 0) ≡ none → IsIgnored n msg
  unknown_sender :
      (i : PhoneMessage)
      → parse msg ≡ some i
      → IsForUsers i.kind
      → knows_user i.sender n.router.usm ≡ false
      → IsIgnored n msg
  wrong_key_length :
      (i : PhoneMessage)
      → parse msg ≡ some i
      → i.kind ≡ ble_announce_key
      → length i.body ≢ 32
      → IsIgnored n msg
  nobody_asks :
      (i : PhoneMessage)
      → parse msg ≡ some i
      → i.kind ≡ ble_request_pubkey
      → i.sender ≡ 0
      → IsIgnored n msg

parse_short : (msg : List ℕ) → length msg < 9 → parse msg ≡ none
unfolding parse
parse_short msg h = rw (lt→ltb (length msg) 9 h, parse)

parse_no_packet_id :
    (msg : List ℕ) (t : BleMessageType)
    → type_of (read8 msg 0) ≡ some t
    → has_pkt t ≡ true
    → length msg < 13
    → parse msg ≡ none
unfolding parse parse_as
parse_no_packet_id msg t e p h = elim (Bool-cases (ltb (length msg) 9)) [
  | inl s ↦ rw (s, parse)
  | inr s ↦ rw (s, parse) (rw (e, parse) (rw (p, parse_as) (rw (lt→ltb (length msg) 13 h))))
]

parse_unknown_type : (msg : List ℕ) → type_of (read8 msg 0) ≡ none → parse msg ≡ none
unfolding parse
parse_unknown_type msg e = elim (Bool-cases (ltb (length msg) 9)) [
  | inl s ↦ rw (s, parse)
  | inr s ↦ rw (s, parse) (rw (e, parse))
]

unparsed :
    (handle : ℕ) (msg : List ℕ) (n : Node)
    → parse msg ≡ none
    → process_incoming_message handle msg n ≡ (tt, n)
unfolding process_incoming_message skip
unparsed handle msg n e = rw (e, process_incoming_message)

parsed :
    (handle : ℕ) (msg : List ℕ) (i : PhoneMessage) (n : Node)
    → parse msg ≡ some i
    → react handle i i.kind n ≡ (tt, n)
    → process_incoming_message handle msg n ≡ (tt, n)
unfolding process_incoming_message
parsed handle msg i n e h = rw (e, process_incoming_message) h

unknown :
    {t : BleMessageType} (handle : ℕ) (i : PhoneMessage) (n : Node)
    → IsForUsers t
    → knows_user i.sender n.router.usm ≡ false
    → react handle i t n ≡ (tt, n)
unfolding react when_known methods
unknown handle i n plain_user e = rw (e, react, when_known)
unknown handle i n plain_user_req_ack e = rw (e, react, when_known)
unknown handle i n gateway_user e = rw (e, react, when_known)

wrong_key :
    (handle : ℕ) (i : PhoneMessage) (t : BleMessageType) (n : Node)
    → t ≡ ble_announce_key
    → length i.body ≢ 32
    → react handle i t n ≡ (tt, n)
unfolding react handle_announce_key methods
wrong_key handle i t n e h = rw e (rw (==_ne (length i.body) 32 h, handle_announce_key))

asked_by_nobody :
    (handle : ℕ) (i : PhoneMessage) (t : BleMessageType) (n : Node)
    → t ≡ ble_request_pubkey
    → i.sender ≡ 0
    → react handle i t n ≡ (tt, n)
unfolding react methods
asked_by_nobody handle i t n e z = rw e (rw (z, react))

-- A message that is too short for its header, has a type outside the protocol, comes from a user
-- whom the node does not know although its type is for users, carries a key that has not 32 bytes,
-- or asks for a key in nobody's name leaves the node exactly as it was.
pub process_incoming_message_ignored :
    (handle : ℕ) (msg : List ℕ) (n : Node)
    → IsIgnored n msg
    → process_incoming_message handle msg n ≡ (tt, n)
process_incoming_message_ignored handle msg n (too_short h) =
    unparsed handle msg n (parse_short msg h)
process_incoming_message_ignored handle msg n (no_packet_id t e p h) =
    unparsed handle msg n (parse_no_packet_id msg t e p h)
process_incoming_message_ignored handle msg n (unknown_type e) =
    unparsed handle msg n (parse_unknown_type msg e)
process_incoming_message_ignored handle msg n (unknown_sender i e u k) =
    parsed handle msg i n e (unknown handle i n u k)
process_incoming_message_ignored handle msg n (wrong_key_length i e k h) =
    parsed handle msg i n e (wrong_key handle i i.kind n k h)
process_incoming_message_ignored handle msg n (nobody_asks i e k z) =
    parsed handle msg i n e (asked_by_nobody handle i i.kind n k z)
