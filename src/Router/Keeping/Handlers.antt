-- ===== src/Router/Keeping/Handlers.antt =====
-- src/aodvRouter.cpp: the handlers of routes, data, ACKs and broadcasts keep every invariant.
use eie4_mesh_network.Prelude.{List, erase, ℕ}
use eie4_mesh_network.Exec.{modify}
use eie4_mesh_network.Exec.Keeps.{Keeps, Keeps-modify, keeps_rules}
use eie4_mesh_network.Packet.{BaseHeader, DataHeader, DiffBroadcastInfoHeader, RreqHeader}
use eie4_mesh_network.Router.Acks.{remove_from_ack_buffer, report_ack, try_implicit_ack}
use eie4_mesh_network.Router.Handle.{forward_to}
use eie4_mesh_network.Router.Handle.Info.{
  forward_info, handle_broadcast_info, note_gateway, note_node, note_users,
}
use eie4_mesh_network.Router.Handle.Routes.{
  answer_rreq, forward_data, forward_rreq, handle_ack, handle_data, handle_rerr, handle_rrep,
  handle_rreq, publish_unguarded, route_data,
}
use eie4_mesh_network.Router.Invariant.{Invariant}
use eie4_mesh_network.Router.Keeping.{
  Keeps-add_gateway, Keeps-fault, Keeps-get_route, Keeps-has_route, Keeps-have_gateway,
  Keeps-invalidate_route_entry, Keeps-is_node_id_known, Keeps-notify, Keeps-publish,
  Keeps-remove_gateway, Keeps-remove_gut_entry, Keeps-remove_item_routing_table, Keeps-save_node_id,
  Keeps-set_gateway_state, Keeps-update_gut_entry, Keeps-update_route_entry,
}
use eie4_mesh_network.Router.Keeping.Sends.{
  Keeps-flush_data_queue, Keeps-flush_move_req_buffer, Keeps-flush_user_route_buffer,
  Keeps-send_ack, Keeps-send_rerr, Keeps-send_rrep, Keeps-transmit_packet,
}
use eie4_mesh_network.Router.State.{AckBufferEntry, Publication, Router}

module _ {P : Router → Type 0} (inv : Invariant P) where
  pub Keeps-forward_to : (n : ℕ) (b : BaseHeader) (e p : List ℕ) → Keeps P (forward_to n b e p)
  unfolding forward_to
  Keeps-forward_to n b e p = search (keeps_rules, Keeps-get_route, Keeps-transmit_packet)

  Keeps-report_ack : (id : ℕ) (e : AckBufferEntry) → Keeps P (report_ack id e)
  unfolding report_ack
  Keeps-report_ack id e = search (keeps_rules, Keeps-notify)

  Keeps-erase_ack :
      (id : ℕ) → Keeps P (modify (λ r. record r { ack_buffer = erase id r.ack_buffer }))
  Keeps-erase_ack id = Keeps-modify _ (inv.erases_ack id)

  Keeps-remove_from_ack_buffer : (id : ℕ) → Keeps P (remove_from_ack_buffer id)
  unfolding remove_from_ack_buffer
  Keeps-remove_from_ack_buffer id = search (keeps_rules, Keeps-erase_ack, Keeps-report_ack)

  pub Keeps-try_implicit_ack : (id : ℕ) → Keeps P (try_implicit_ack id)
  unfolding try_implicit_ack
  Keeps-try_implicit_ack id = search (keeps_rules, Keeps-erase_ack)

  Keeps-forward_rreq : (b : BaseHeader) (q : RreqHeader) → Keeps P (forward_rreq b q)
  unfolding forward_rreq
  Keeps-forward_rreq b q = search (keeps_rules, Keeps-transmit_packet)

  Keeps-answer_rreq : (b : BaseHeader) (q : RreqHeader) (me : ℕ) → Keeps P (answer_rreq b q me)
  unfolding answer_rreq
  Keeps-answer_rreq b q me =
      search (keeps_rules, Keeps-get_route, Keeps-send_rrep, Keeps-forward_rreq) depth 8

  pub Keeps-handle_rreq : (b : BaseHeader) (p : List ℕ) (l : ℕ) → Keeps P (handle_rreq b p l)
  unfolding handle_rreq
  Keeps-handle_rreq b p l =
      search (keeps_rules, Keeps-update_route_entry, Keeps-answer_rreq) depth 8

  pub Keeps-handle_rrep : (b : BaseHeader) (p : List ℕ) (l : ℕ) → Keeps P (handle_rrep b p l)
  unfolding handle_rrep
  Keeps-handle_rrep b p l =
      search
        (
          keeps_rules, Keeps-update_route_entry, Keeps-has_route, Keeps-flush_data_queue,
          Keeps-flush_move_req_buffer, Keeps-flush_user_route_buffer, Keeps-forward_to,
        )
        depth 12

  Keeps-publish_unguarded : (p : Publication) → Keeps P (publish_unguarded p)
  unfolding publish_unguarded
  Keeps-publish_unguarded p = search (keeps_rules, Keeps-fault, Keeps-publish)

  pub Keeps-handle_rerr : (b : BaseHeader) (p : List ℕ) (l : ℕ) → Keeps P (handle_rerr b p l)
  unfolding handle_rerr
  Keeps-handle_rerr b p l =
      search
        (
          keeps_rules, Keeps-remove_item_routing_table, Keeps-publish_unguarded,
          Keeps-invalidate_route_entry, Keeps-forward_to,
        )
        depth 10

  Keeps-forward_data : (b : BaseHeader) (d : DataHeader) (p : List ℕ) → Keeps P (forward_data b d p)
  unfolding forward_data
  Keeps-forward_data b d p =
      search (keeps_rules, Keeps-get_route, Keeps-send_rerr, Keeps-transmit_packet) depth 8

  Keeps-route_data :
      (b : BaseHeader) (d : DataHeader) (p : List ℕ) (me : ℕ) → Keeps P (route_data b d p me)
  unfolding route_data
  Keeps-route_data b d p me =
      search (keeps_rules, Keeps-notify, Keeps-transmit_packet, Keeps-forward_data) depth 8

  pub Keeps-handle_data : (b : BaseHeader) (p : List ℕ) (l : ℕ) → Keeps P (handle_data b p l)
  unfolding handle_data
  Keeps-handle_data b p l = search (keeps_rules, Keeps-send_ack, Keeps-route_data) depth 8

  pub Keeps-handle_ack : (b : BaseHeader) (p : List ℕ) (l : ℕ) → Keeps P (handle_ack b p l)
  unfolding handle_ack
  Keeps-handle_ack b p l = search (keeps_rules, Keeps-remove_from_ack_buffer)

  Keeps-note_node : (n : ℕ) → Keeps P (note_node n)
  unfolding note_node
  Keeps-note_node n = search (keeps_rules, Keeps-is_node_id_known, Keeps-save_node_id)

  Keeps-note_gateway : (b : BaseHeader) → Keeps P (note_gateway b)
  unfolding note_gateway
  Keeps-note_gateway b =
      search
        (
          keeps_rules, Keeps-add_gateway, Keeps-remove_gateway, Keeps-have_gateway,
          Keeps-set_gateway_state,
        )
        depth 8

  Keeps-note_users :
      (o : ℕ) (d : DiffBroadcastInfoHeader) (p : List ℕ) (l : ℕ) → Keeps P (note_users o d p l)
  unfolding note_users
  Keeps-note_users o d p l =
      search (keeps_rules, Keeps-update_gut_entry, Keeps-remove_gut_entry) depth 8

  Keeps-forward_info :
      (b : BaseHeader) (d : DiffBroadcastInfoHeader) (p : List ℕ) (l : ℕ)
      → Keeps P (forward_info b d p l)
  unfolding forward_info
  Keeps-forward_info b d p l = search (keeps_rules, Keeps-transmit_packet) depth 8

  pub Keeps-handle_broadcast_info :
      (b : BaseHeader) (p : List ℕ) (l : ℕ) → Keeps P (handle_broadcast_info b p l)
  unfolding handle_broadcast_info
  Keeps-handle_broadcast_info b p l =
      search
        (
          keeps_rules, Keeps-note_node, Keeps-note_gateway, Keeps-update_route_entry,
          Keeps-note_users, Keeps-forward_info,
        )
        depth 14
