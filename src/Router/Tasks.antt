-- ===== src/Router/Tasks.antt =====
-- src/aodvRouter.cpp: the tasks of the router, the timers that wake them, and the calls of the
-- other parts of the program.
use eie4_mesh_network.Prelude.{Bool, List, false, true, ℕ}
use eie4_mesh_network.Exec.{when, ◌>>◌}
use eie4_mesh_network.Router.Acks.{cleanup_ack_buffer}
use eie4_mesh_network.Router.Buffers.{add_pub_key}
use eie4_mesh_network.Router.Receive.{RadioPacket, handle_packet}
use eie4_mesh_network.Router.Send.{send_data, send_pub_key_req}
use eie4_mesh_network.Router.Send.Info.{send_broadcast_info}
use eie4_mesh_network.Router.Send.Users.{send_move_user_req, send_user_message}
use eie4_mesh_network.Router.State.{Method, Router}

-- `broadcast_bit` and `cleanup_bit` are the notification of the timer task.
pub record Tasks : Type 0 where
  pub router : Router
  pub broadcast_bit : Bool
  pub cleanup_bit : Bool

-- `broadcastTimerCallback`
unfoldable pub broadcast_timer_callback : Tasks → Tasks
broadcast_timer_callback t = record t { broadcast_bit = true }

unfoldable pub ack_cleanup_callback : Tasks → Tasks
ack_cleanup_callback t = record t { cleanup_bit = true }

-- What a round of the timer task does for the bits of its notification.
unfoldable pub timer_work : Bool → Bool → Method (Unit {0})
timer_work info cleanup = do when info send_broadcast_info; when cleanup cleanup_ack_buffer

-- A round of `timerWorkerTask`, which clears the notification.
unfoldable pub timer_worker_task : Tasks → Tasks
timer_worker_task t = record {
  router = (timer_work t.broadcast_bit t.cleanup_bit t.router).1;
  broadcast_bit = false;
  cleanup_bit = false;
}

-- A round of `routerTask`, for the packet that it has dequeued.
unfoldable pub router_task : RadioPacket → Tasks → Tasks
router_task p t = record t { router = (handle_packet p t.router).1 }

-- After `begin`: the first broadcast is made at once.
unfoldable pub begin : Router → Tasks
begin r = record { router = (send_broadcast_info r).1; broadcast_bit = false; cleanup_bit = false }

-- The calls of the network message handler.
pub data RouterCall : Type 0 where
  sends_data : ℕ → List ℕ → ℕ → ℕ → RouterCall
  sends_user_message : ℕ → ℕ → List ℕ → ℕ → ℕ → RouterCall
  asks_key : ℕ → ℕ → RouterCall
  moves_user : ℕ → ℕ → RouterCall
  adds_key : ℕ → List ℕ → RouterCall

unfoldable pub perform : RouterCall → Method (Unit {0})
perform (sends_data dest bytes id flags) = send_data dest bytes id flags
perform (sends_user_message from to bytes id flags) = send_user_message from to bytes id flags
perform (asks_key target sender) = send_pub_key_req target sender
perform (moves_user user old_node) = send_move_user_req user old_node
perform (adds_key user key) = add_pub_key user key

-- What happens to the router, in any order.
pub data Happens : Tasks → Tasks → Type 0 where
  receives : (t : Tasks) (p : RadioPacket) → Happens t (router_task p t)
  is_called :
      (t : Tasks) (c : RouterCall) → Happens t (record t { router = (perform c t.router).1 })
  broadcast_due : (t : Tasks) → Happens t (broadcast_timer_callback t)
  cleanup_due : (t : Tasks) → Happens t (ack_cleanup_callback t)
  timer_runs : (t : Tasks) → Happens t (timer_worker_task t)

pub data Lives (r : Router) : Tasks → Type 0 where
  starts : Lives r (begin r)
  goes_on : {t u : Tasks} → Lives r t → Happens t u → Lives r u
