-- ===== src/Router/Keeping/Receive.antt =====
-- src/aodvRouter.cpp: `handlePacket` and invariants.
use eie4_mesh_network.Prelude.{List, drop, if◌then◌else◌, not, ℕ, ◌&&◌, ◌-◌, ◌==◌}
use eie4_mesh_network.Exec.{gets, skip, ◌>>=◌}
use eie4_mesh_network.Exec.Keeps.{Keeps, keeps_rules}
use eie4_mesh_network.Packet.{BaseHeader, broadcast_addr}
use eie4_mesh_network.Router.Invariant.{Invariant}
use eie4_mesh_network.Router.Keeping.{Keeps-is_duplicate_packet_id, Keeps-store_packet_id}
use eie4_mesh_network.Router.Keeping.Handlers.{
  Keeps-handle_ack, Keeps-handle_broadcast_info, Keeps-handle_data, Keeps-handle_rerr,
  Keeps-handle_rrep, Keeps-handle_rreq, Keeps-try_implicit_ack,
}
use eie4_mesh_network.Router.Keeping.UserHandlers.{
  Keeps-handle_move_user_req, Keeps-handle_pub_key_req, Keeps-handle_pub_key_resp,
  Keeps-handle_uerr, Keeps-handle_urep, Keeps-handle_ureq, Keeps-handle_user_message,
}
use eie4_mesh_network.Router.Receive.{RadioPacket, accept, dispatch, handle_packet, process}
use eie4_mesh_network.Router.State.{Router}

module _ {P : Router → Type 0} (inv : Invariant P) where
  Keeps-dispatch : (b : BaseHeader) (p : List ℕ) (l : ℕ) → Keeps P (dispatch b p l)
  unfolding dispatch
  Keeps-dispatch b p l =
      search
        (
          keeps_rules, Keeps-handle_rreq, Keeps-handle_rrep, Keeps-handle_rerr, Keeps-handle_data,
          Keeps-handle_broadcast_info, Keeps-handle_ack, Keeps-handle_uerr, Keeps-handle_urep,
          Keeps-handle_ureq, Keeps-handle_user_message, Keeps-handle_pub_key_req,
          Keeps-handle_pub_key_resp, Keeps-handle_move_user_req,
        )
        depth 20

  -- The part of `handlePacket` behind the test for duplicates.
  pub Keeps-dispatch_if :
      (b : BaseHeader) (p : RadioPacket)
      → Keeps P (do
        me ← gets (λ r. r.my_node_id)
        if b.prev_hop_id == me
            then skip
            else if not (b.dest_node_id == broadcast_addr) && not (b.dest_node_id == me)
            then skip
            else dispatch b (drop 20 p.bytes) (p.len - 20))
  Keeps-dispatch_if b p = search (keeps_rules, Keeps-dispatch) depth 10

  Keeps-accept : (b : BaseHeader) (p : RadioPacket) → Keeps P (accept b p)
  unfolding accept
  Keeps-accept b p = search (keeps_rules, Keeps-store_packet_id, Keeps-dispatch_if) depth 10

  Keeps-process : (b : BaseHeader) (p : RadioPacket) → Keeps P (process b p)
  unfolding process
  Keeps-process b p =
      search (keeps_rules, Keeps-try_implicit_ack, Keeps-is_duplicate_packet_id, Keeps-accept) depth
        10

  pub Keeps-handle_packet : (p : RadioPacket) → Keeps P (handle_packet p)
  unfolding handle_packet
  Keeps-handle_packet p = search (keeps_rules, Keeps-process) depth 8
