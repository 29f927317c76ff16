-- ===== src/Router/Keeping/Life.antt =====
-- src/aodvRouter.cpp: invariants over the whole life of a router.
use eie4_mesh_network.Prelude.{Bool, List, false, true, ℕ}
use eie4_mesh_network.Exec.{methods}
use eie4_mesh_network.Exec.Keeps.{Keeps, keeps_rules}
use eie4_mesh_network.Router.Acks.Cleanup.{cleanup_ack_buffer-IsSound}
use eie4_mesh_network.Router.Invariant.{Invariant}
use eie4_mesh_network.Router.Keeping.{
  Keeps-add_pub_key, Keeps-get_gut_entry, Keeps-get_pub_key, Keeps-get_route,
  Keeps-insert_data_buffer, Keeps-malloc, Keeps-notify,
}
use eie4_mesh_network.Router.Keeping.Instances.{IsSound, IsSound-Invariant, handle_packet-IsSound}
use eie4_mesh_network.Router.Keeping.Sends.{
  Keeps-fresh_header, Keeps-packet_id_or_fresh, Keeps-send_data_to, Keeps-send_move_user_req,
  Keeps-send_rreq, Keeps-send_user_message, Keeps-transmit_packet,
}
use eie4_mesh_network.Router.Send.{send_data, send_pub_key_req}
use eie4_mesh_network.Router.Send.Info.{send_broadcast_info, send_chunk, take_diff}
use eie4_mesh_network.Router.State.{Router}
use eie4_mesh_network.Router.Tasks.{
  Happens, Lives, RouterCall, Tasks, ack_cleanup_callback, adds_key, asks_key, begin, broadcast_due,
  broadcast_timer_callback, cleanup_due, goes_on, is_called, moves_user, perform, receives,
  router_task, sends_data, sends_user_message, starts, timer_runs, timer_work, timer_worker_task,
}

module _ {P : Router → Type 0} (inv : Invariant P) where
  Keeps-take_diff : Keeps P take_diff
  unfolding take_diff
  Keeps-take_diff = record { at = λ r h. inv.sessions _ r h }

  pub Keeps-send_broadcast_info : Keeps P send_broadcast_info
  unfolding send_broadcast_info send_chunk
  Keeps-send_broadcast_info =
      search (keeps_rules, Keeps-fresh_header inv, Keeps-take_diff, Keeps-transmit_packet inv) depth
        9

  Keeps-send_data : (d : ℕ) (b : List ℕ) (id f : ℕ) → Keeps P (send_data d b id f)
  unfolding send_data
  Keeps-send_data d b id f =
      search
        (
          keeps_rules,
          Keeps-packet_id_or_fresh inv,
          Keeps-send_data_to inv,
          Keeps-get_route inv,
          Keeps-malloc,
          Keeps-insert_data_buffer inv,
          Keeps-send_rreq inv,
        )
        depth 10

  Keeps-send_pub_key_req : (target sender : ℕ) → Keeps P (send_pub_key_req target sender)
  unfolding send_pub_key_req
  Keeps-send_pub_key_req target sender =
      search
        (
          keeps_rules,
          Keeps-get_pub_key inv,
          Keeps-get_gut_entry inv,
          Keeps-fresh_header inv,
          Keeps-transmit_packet inv,
          Keeps-notify inv,
        )
        depth 9

  pub Keeps-perform : (c : RouterCall) → Keeps P (perform c)
  unfolding perform
  Keeps-perform (sends_data dest bytes id flags) = Keeps-send_data dest bytes id flags
  Keeps-perform (sends_user_message from to bytes id flags) =
      Keeps-send_user_message inv from to bytes id flags
  Keeps-perform (asks_key target sender) = Keeps-send_pub_key_req target sender
  Keeps-perform (moves_user user old_node) = Keeps-send_move_user_req inv user old_node
  Keeps-perform (adds_key user key) = Keeps-add_pub_key inv user key

timer_work-IsSound :
    (info cleanup : Bool) (r : Router) → IsSound r → IsSound (timer_work info cleanup r).1
unfolding timer_work methods
timer_work-IsSound true true r h =
    cleanup_ack_buffer-IsSound (send_broadcast_info r).1
      ((Keeps-send_broadcast_info IsSound-Invariant).at r h)
timer_work-IsSound true false r h = (Keeps-send_broadcast_info IsSound-Invariant).at r h
timer_work-IsSound false true r h = cleanup_ack_buffer-IsSound r h
timer_work-IsSound false false r h = h

Happens-IsSound : {t u : Tasks} → Happens t u → IsSound t.router → IsSound u.router
unfolding router_task broadcast_timer_callback ack_cleanup_callback timer_worker_task
Happens-IsSound (receives t p) h = handle_packet-IsSound p t.router h
Happens-IsSound (is_called t c) h = (Keeps-perform IsSound-Invariant c).at t.router h
Happens-IsSound (broadcast_due t) h = h
Happens-IsSound (cleanup_due t) h = h
Happens-IsSound (timer_runs t) h = timer_work-IsSound t.broadcast_bit t.cleanup_bit t.router h

-- From the start of a router on, through any packets received, calls of the other parts, timers and
-- rounds of the timer task: what goes to the radio's queue has 255 bytes at most, and so has every
-- packet kept for its ACK, whose count of attempts stays at 3 or below, if this holds before the
-- start. The library does what GCM promises.
pub Lives-IsSound : (r : Router) {t : Tasks} → IsSound r → Lives r t → IsSound t.router
unfolding begin
Lives-IsSound r h starts = (Keeps-send_broadcast_info IsSound-Invariant).at r h
Lives-IsSound r h (goes_on life event) = Happens-IsSound event (Lives-IsSound r h life)
