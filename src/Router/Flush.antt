-- ===== src/Router/Flush.antt =====
-- src/aodvRouter.cpp: sending what waited for a route.
use eie4_mesh_network.Prelude.{ℕ}
use eie4_mesh_network.Exec.{for_each, match_option, ◌>>=◌}
use eie4_mesh_network.Router.Buffers.{
  insert_data_buffer, pop_data_buffer, pop_move_req, pop_pending_user_route_messages,
}
use eie4_mesh_network.Router.Send.{packet_id_or_fresh, send_data_to}
use eie4_mesh_network.Router.Send.Users.{send_move_user_req, send_user_message}
use eie4_mesh_network.Router.State.{DataBufferEntry, Method}
use eie4_mesh_network.Router.Table.{get_route}

unfoldable pub flush_data_entry : ℕ → DataBufferEntry → Method (Unit {0})
flush_data_entry dest pending = do
  o ← get_route dest
  match_option o (insert_data_buffer dest pending) (λ re. do
    id ← packet_id_or_fresh pending.packet_id
    send_data_to re.next_hop dest pending.bytes id 0)

unfoldable pub flush_data_queue : ℕ → Method (Unit {0})
flush_data_queue dest = do pending ← pop_data_buffer dest; for_each pending (flush_data_entry dest)

unfoldable pub flush_move_req_buffer : ℕ → Method (Unit {0})
flush_move_req_buffer node = do
  waiting ← pop_move_req node
  for_each waiting (λ h. send_move_user_req h.user_id h.dest_node_id)

-- `sendUserMessage` with its default flags.
unfoldable pub flush_user_route_buffer : ℕ → Method (Unit {0})
flush_user_route_buffer node = do
  pending ← pop_pending_user_route_messages node
  for_each pending (λ e. send_user_message e.sender_id e.dest_user_id e.message e.packet_id 0)
