-- ===== src/Router/Keeping.antt =====
-- src/aodvRouter.cpp: every method that a handler calls keeps every invariant.
pub mod Sends
pub mod Handlers
pub mod UserHandlers
pub mod Receive
pub mod Instances
pub mod Gateways
pub mod Life
use eie4_mesh_network.Prelude.{Bool, List, add, erase, insert, ℕ}
use eie4_mesh_network.Client.{Outgoing}
use eie4_mesh_network.Exec.{for_each, gets, methods, modify, ◌>>=◌}
use eie4_mesh_network.Exec.Keeps.{Keeps, Keeps-for, Keeps-modify, keeps_rules}
use eie4_mesh_network.Packet.{MoveUserReqHeader}
use eie4_mesh_network.Router.Buffers.{
  add_move_req, add_pending_user_route_message, add_pub_key, add_user_message, get_gut_entry,
  get_pub_key, insert_data_buffer, is_duplicate_packet_id, is_node_id_known,
  pop_buffered_user_messages, pop_data_buffer, pop_move_req, pop_pending_user_route_messages,
  push_back, remove_gut_entry, save_node_id, store_packet_id, update_gut_entry,
}
use eie4_mesh_network.Router.Gateways.{add_gateway, have_gateway, remove_gateway}
use eie4_mesh_network.Router.Invariant.{Invariant}
use eie4_mesh_network.Router.State.{
  DataBufferEntry, GutEntry, PendingUserRouteEntry, Publication, Router, Uplink,
  UserMessageBufferEntry, change_sessions, fault, invalidate_route, malloc, next_random, notify,
  publish, set_gateway_state, update_route, uplink,
}
use eie4_mesh_network.Router.Table.{
  dests_via, get_route, has_route, invalidate_route_entry, keep_routes, remove_item_routing_table,
  set_route, update_route_entry,
}
use eie4_mesh_network.Sessions.{Sessions}

module _ {P : Router → Type 0} (inv : Invariant P) where
  pub Keeps-fault : Keeps P fault
  Keeps-fault = record { at = inv.faults }

  pub Keeps-next_random : Keeps P next_random
  Keeps-next_random = record { at = inv.draws }

  pub Keeps-malloc : Keeps P malloc
  Keeps-malloc = record { at = inv.allocates }

  pub Keeps-publish : (p : Publication) → Keeps P (publish p)
  Keeps-publish p = record { at = inv.publishes p }

  pub Keeps-notify : (o : Outgoing) → Keeps P (notify o)
  Keeps-notify o = record { at = inv.notifies o }

  pub Keeps-set_gateway_state : (b : Bool) → Keeps P (set_gateway_state b)
  Keeps-set_gateway_state b = record { at = inv.tells_state b }

  pub Keeps-uplink : (u : Uplink) → Keeps P (uplink u)
  Keeps-uplink u = record { at = inv.uplinks u }

  pub Keeps-change_sessions : (f : Sessions → Sessions) → Keeps P (change_sessions f)
  unfolding change_sessions
  Keeps-change_sessions f = record { at = λ r. inv.sessions (f r.usm) r }

  pub Keeps-get_route : (d : ℕ) → Keeps P (get_route d)
  unfolding get_route
  Keeps-get_route d = record { at = λ r h. h }

  pub Keeps-has_route : (d : ℕ) → Keeps P (has_route d)
  unfolding has_route
  Keeps-has_route d = record { at = λ r h. h }

  pub Keeps-set_route : (d n h : ℕ) → Keeps P (set_route d n h)
  unfolding set_route methods
  Keeps-set_route d n k = record {
    at = λ r h.
        inv.publishes (update_route d n k) _
          (inv.routes (insert d (record { next_hop = n; hopcount = k }) r.route_table) r h);
  }

  pub Keeps-update_route_entry : (d n h : ℕ) → Keeps P (update_route_entry d n h)
  unfolding update_route_entry
  Keeps-update_route_entry d n k = search (keeps_rules, Keeps-get_route, Keeps-set_route)

  pub Keeps-publish_each : (ds : List ℕ) → Keeps P (for_each ds (λ d. publish (invalidate_route d)))
  Keeps-publish_each ds = Keeps-for ds _ (λ d. Keeps-publish (invalidate_route d))

  pub Keeps-invalidate_route_entry : (b f : ℕ) → Keeps P (invalidate_route_entry b f)
  unfolding invalidate_route_entry gets modify ◌>>=◌
  Keeps-invalidate_route_entry b f = record {
    at = λ r h.
        (Keeps-publish_each (add b (add f (dests_via b (erase f (erase b r.route_table)))))).at _
          (inv.routes (keep_routes b (erase f (erase b r.route_table))) r h);
  }

  pub Keeps-remove_item_routing_table : (d : ℕ) → Keeps P (remove_item_routing_table d)
  unfolding remove_item_routing_table
  Keeps-remove_item_routing_table d = Keeps-modify _ (λ r. inv.routes (erase d r.route_table) r)

  pub Keeps-insert_data_buffer : (d : ℕ) (e : DataBufferEntry) → Keeps P (insert_data_buffer d e)
  unfolding insert_data_buffer
  Keeps-insert_data_buffer d e =
      Keeps-modify _ (λ r. inv.data_buffers (push_back d e r.data_buffer) r)

  pub Keeps-pop_data_buffer : (d : ℕ) → Keeps P (pop_data_buffer d)
  unfolding pop_data_buffer
  Keeps-pop_data_buffer d = record { at = λ r. inv.data_buffers (erase d r.data_buffer) r }

  pub Keeps-add_user_message : (u : ℕ) (e : UserMessageBufferEntry) → Keeps P (add_user_message u e)
  unfolding add_user_message
  Keeps-add_user_message u e =
      Keeps-modify _ (λ r. inv.user_msg_buffers (push_back u e r.user_msg_buffer) r)

  pub Keeps-pop_buffered_user_messages : (u : ℕ) → Keeps P (pop_buffered_user_messages u)
  unfolding pop_buffered_user_messages
  Keeps-pop_buffered_user_messages u = record {
    at = λ r. inv.user_msg_buffers (erase u r.user_msg_buffer) r;
  }

  pub Keeps-add_pending_user_route_message :
      (n : ℕ) (e : PendingUserRouteEntry) → Keeps P (add_pending_user_route_message n e)
  unfolding add_pending_user_route_message
  Keeps-add_pending_user_route_message n e =
      Keeps-modify _ (λ r. inv.user_route_buffers (push_back n e r.user_route_buffer) r)

  pub Keeps-pop_pending_user_route_messages : (n : ℕ) → Keeps P (pop_pending_user_route_messages n)
  unfolding pop_pending_user_route_messages
  Keeps-pop_pending_user_route_messages n = record {
    at = λ r. inv.user_route_buffers (erase n r.user_route_buffer) r;
  }

  pub Keeps-add_move_req : (n : ℕ) (h : MoveUserReqHeader) → Keeps P (add_move_req n h)
  unfolding add_move_req
  Keeps-add_move_req n e =
      Keeps-modify _ (λ r. inv.move_req_buffers (push_back n e r.move_req_buffer) r)

  pub Keeps-pop_move_req : (n : ℕ) → Keeps P (pop_move_req n)
  unfolding pop_move_req
  Keeps-pop_move_req n = record { at = λ r. inv.move_req_buffers (erase n r.move_req_buffer) r }

  pub Keeps-is_duplicate_packet_id : (id : ℕ) → Keeps P (is_duplicate_packet_id id)
  unfolding is_duplicate_packet_id
  Keeps-is_duplicate_packet_id id = record { at = λ r h. h }

  pub Keeps-store_packet_id : (id : ℕ) → Keeps P (store_packet_id id)
  unfolding store_packet_id
  Keeps-store_packet_id id = Keeps-modify _ (inv.remembers id)

  pub Keeps-is_node_id_known : (n : ℕ) → Keeps P (is_node_id_known n)
  unfolding is_node_id_known
  Keeps-is_node_id_known n = record { at = λ r h. h }

  pub Keeps-save_node_id : (n : ℕ) → Keeps P (save_node_id n)
  unfolding save_node_id
  Keeps-save_node_id n = Keeps-modify _ (λ r. inv.discovers (add n r.discovered_nodes) r)

  pub Keeps-get_gut_entry : (u : ℕ) → Keeps P (get_gut_entry u)
  unfolding get_gut_entry
  Keeps-get_gut_entry u = record { at = λ r h. h }

  pub Keeps-update_gut_entry : (u : ℕ) (e : GutEntry) → Keeps P (update_gut_entry u e)
  unfolding update_gut_entry
  Keeps-update_gut_entry u e = Keeps-modify _ (λ r. inv.guts (insert u e r.gut) r)

  pub Keeps-remove_gut_entry : (u : ℕ) → Keeps P (remove_gut_entry u)
  unfolding remove_gut_entry
  Keeps-remove_gut_entry u = Keeps-modify _ (λ r. inv.guts (erase u r.gut) r)

  pub Keeps-get_pub_key : (u : ℕ) → Keeps P (get_pub_key u)
  unfolding get_pub_key
  Keeps-get_pub_key u = record { at = λ r h. h }

  pub Keeps-add_pub_key : (u : ℕ) (k : List ℕ) → Keeps P (add_pub_key u k)
  unfolding add_pub_key
  Keeps-add_pub_key u k = Keeps-modify _ (λ r. inv.keys (insert u k r.user_keys) r)

  pub Keeps-add_gateway : (n : ℕ) → Keeps P (add_gateway n)
  Keeps-add_gateway n = record { at = inv.adds_gateway n }

  pub Keeps-remove_gateway : (n : ℕ) → Keeps P (remove_gateway n)
  Keeps-remove_gateway n = record { at = inv.removes_gateway n }

  pub Keeps-have_gateway : Keeps P have_gateway
  unfolding have_gateway
  Keeps-have_gateway = record { at = λ r h. h }
