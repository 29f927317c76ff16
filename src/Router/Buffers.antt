-- ===== src/Router/Buffers.antt =====
-- src/aodvRouter.h and .cpp: the buffers of waiting messages, the sets of seen packets and nodes,
-- the user table and the public keys.
pub mod Pop
use eie4_mesh_network.Prelude.{
  Bool, List, Map, Option, [], add, contains, erase, false, insert, lookup, map, none, some, true,
  ℕ, ◌++◌, ◌∷◌,
}
use eie4_mesh_network.Exec.{modify}
use eie4_mesh_network.Packet.{MoveUserReqHeader}
use eie4_mesh_network.Router.State.{
  DataBufferEntry, GutEntry, Method, PendingUserRouteEntry, Router, UserMessageBufferEntry,
}

module _ {ℓ} {A : Type ℓ} where
  -- `m[k].push_back(a)`
  unfoldable pub push_back : ℕ → A → Map (List A) → Map (List A)
  push_back k a m = elim (lookup k m) [
    | none ↦ insert k (a ∷ []) m
    | some v ↦ insert k (v ++ a ∷ []) m
  ]

  -- The list at a key, or the empty list.
  unfoldable pub entries_at : ℕ → Map (List A) → List A
  entries_at k m = elim (lookup k m) [ none ↦ [] | some v ↦ v ]

unfoldable pub insert_data_buffer : ℕ → DataBufferEntry → Method (Unit {0})
insert_data_buffer dest e = modify (λ r. record r { data_buffer = push_back dest e r.data_buffer })

unfoldable pub pop_data_buffer : ℕ → Method (List DataBufferEntry)
pop_data_buffer dest r =
    (entries_at dest r.data_buffer, record r { data_buffer = erase dest r.data_buffer })

unfoldable pub add_user_message : ℕ → UserMessageBufferEntry → Method (Unit {0})
add_user_message user e =
    modify (λ r. record r { user_msg_buffer = push_back user e r.user_msg_buffer })

unfoldable pub pop_buffered_user_messages : ℕ → Method (List UserMessageBufferEntry)
pop_buffered_user_messages user r =
    (entries_at user r.user_msg_buffer, record r { user_msg_buffer = erase user r.user_msg_buffer })

unfoldable pub add_pending_user_route_message : ℕ → PendingUserRouteEntry → Method (Unit {0})
add_pending_user_route_message node e =
    modify (λ r. record r { user_route_buffer = push_back node e r.user_route_buffer })

unfoldable pub pop_pending_user_route_messages : ℕ → Method (List PendingUserRouteEntry)
pop_pending_user_route_messages node r = (
  entries_at node r.user_route_buffer,
  record r { user_route_buffer = erase node r.user_route_buffer },
)

unfoldable pub add_move_req : ℕ → MoveUserReqHeader → Method (Unit {0})
add_move_req node h =
    modify (λ r. record r { move_req_buffer = push_back node h r.move_req_buffer })

unfoldable pub pop_move_req : ℕ → Method (List MoveUserReqHeader)
pop_move_req node r =
    (entries_at node r.move_req_buffer, record r { move_req_buffer = erase node r.move_req_buffer })

unfoldable pub is_duplicate_packet_id : ℕ → Method Bool
is_duplicate_packet_id id r = (contains id r.received_packet_ids, r)

unfoldable pub store_packet_id : ℕ → Method (Unit {0})
store_packet_id id = modify (λ r. record r { received_packet_ids = add id r.received_packet_ids })

unfoldable pub is_node_id_known : ℕ → Method Bool
is_node_id_known node r = (contains node r.discovered_nodes, r)

unfoldable pub save_node_id : ℕ → Method (Unit {0})
save_node_id node = modify (λ r. record r { discovered_nodes = add node r.discovered_nodes })

unfoldable pub get_gut_entry : ℕ → Method (Option GutEntry)
get_gut_entry user r = (lookup user r.gut, r)

unfoldable pub update_gut_entry : ℕ → GutEntry → Method (Unit {0})
update_gut_entry user e = modify (λ r. record r { gut = insert user e r.gut })

unfoldable pub remove_gut_entry : ℕ → Method (Unit {0})
remove_gut_entry user = modify (λ r. record r { gut = erase user r.gut })

unfoldable pub get_pub_key : ℕ → Method (Option (List ℕ))
get_pub_key user r = (lookup user r.user_keys, r)

unfoldable pub add_pub_key : ℕ → List ℕ → Method (Unit {0})
add_pub_key user key = modify (λ r. record r { user_keys = insert user key r.user_keys })

holds_any {ℓ} : {A : Type ℓ} → List A → Bool
holds_any [] = false
holds_any (a ∷ rest) = true

unfoldable pub has_pub_key : ℕ → Router → Bool
has_pub_key user r = elim (lookup user r.user_keys) [ some key ↦ true | none ↦ false ]

unfoldable pub has_gut_entry : ℕ → Router → Bool
has_gut_entry user r = elim (lookup user r.gut) [ some e ↦ true | none ↦ false ]

unfoldable pub has_buffered_user_messages : ℕ → Router → Bool
unfolding holds_any
has_buffered_user_messages user r = elim (lookup user r.user_msg_buffer) [
  | some v ↦ holds_any v
  | none ↦ false
]

unfoldable pub has_pending_user_route_messages : ℕ → Router → Bool
unfolding holds_any
has_pending_user_route_messages node r = holds_any (entries_at node r.user_route_buffer)

-- `findAckPacket` and `ackBufferHasPacketID`
unfoldable pub ack_buffer_has_packet_id : ℕ → Router → Bool
ack_buffer_has_packet_id id r = elim (lookup id r.ack_buffer) [ some e ↦ true | none ↦ false ]

unfoldable pub get_known_node_ids : Router → List ℕ
get_known_node_ids r = r.discovered_nodes

unfoldable pub get_known_user_ids : Router → List ℕ
get_known_user_ids r = map (λ kv. kv.0) r.gut
