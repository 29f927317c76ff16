-- ===== src/Router/Keeping/UserHandlers.antt =====
-- src/aodvRouter.cpp: the handlers of user messages and keys keep every invariant.
use eie4_mesh_network.Prelude.{List, Option, none, some, ℕ}
use eie4_mesh_network.Client.{BleType}
use eie4_mesh_network.Exec.Keeps.{Keeps, keeps_rules}
use eie4_mesh_network.Packet.{BaseHeader, UerrHeader, UreqHeader, UserMsgHeader}
use eie4_mesh_network.Router.Handle.Keys.{
  forward_key_req, hand_over_user, handle_move_user_req, handle_pub_key_req, handle_pub_key_resp,
  take_inbox_of,
}
use eie4_mesh_network.Router.Handle.Users.{
  deliver, forget_user, forward_ureq, forward_user_message, handle_uerr, handle_urep, handle_ureq,
  handle_user_message, receive_user_message, resend_user_messages,
}
use eie4_mesh_network.Router.Invariant.{Invariant}
use eie4_mesh_network.Router.Keeping.{
  Keeps-add_pub_key, Keeps-change_sessions, Keeps-fault, Keeps-get_gut_entry, Keeps-get_pub_key,
  Keeps-get_route, Keeps-notify, Keeps-pop_buffered_user_messages, Keeps-remove_gut_entry,
  Keeps-update_gut_entry, Keeps-update_route_entry, Keeps-uplink,
}
use eie4_mesh_network.Router.Keeping.Handlers.{Keeps-forward_to}
use eie4_mesh_network.Router.Keeping.Sends.{
  Keeps-send_ack, Keeps-send_pub_key_resp, Keeps-send_rerr, Keeps-send_uerr, Keeps-send_urep,
  Keeps-send_user_message, Keeps-transmit_packet,
}
use eie4_mesh_network.Router.State.{Router}
use eie4_mesh_network.Sessions.{pop_inbox}

module _ {P : Router → Type 0} (inv : Invariant P) where
  Keeps-deliver :
      (k : BleType) (u : UserMsgHeader) (id : ℕ) (o : Option (List ℕ)) → Keeps P (deliver k u id o)
  unfolding deliver
  Keeps-deliver k u id none = Keeps-fault inv
  Keeps-deliver k u id (some bytes) =
      search (keeps_rules, Keeps-notify, Keeps-change_sessions) depth 8

  Keeps-forward_user_message :
      (b : BaseHeader) (u : UserMsgHeader) (m : Option (List ℕ))
      → Keeps P (forward_user_message b u m)
  unfolding forward_user_message
  Keeps-forward_user_message b u m =
      search (keeps_rules, Keeps-get_route, Keeps-send_rerr, Keeps-fault, Keeps-transmit_packet)
        depth 10

  Keeps-receive_user_message :
      (b : BaseHeader) (u : UserMsgHeader) (p : List ℕ) (l : ℕ)
      → Keeps P (receive_user_message b u p l)
  unfolding receive_user_message
  Keeps-receive_user_message b u p l =
      search (keeps_rules, Keeps-uplink, Keeps-deliver, Keeps-send_uerr) depth 10

  pub Keeps-handle_user_message :
      (b : BaseHeader) (p : List ℕ) (l : ℕ) → Keeps P (handle_user_message b p l)
  unfolding handle_user_message
  Keeps-handle_user_message b p l =
      search (keeps_rules, Keeps-send_ack, Keeps-receive_user_message, Keeps-forward_user_message)
        depth 10

  Keeps-forward_ureq : (b : BaseHeader) (q : UreqHeader) → Keeps P (forward_ureq b q)
  unfolding forward_ureq
  Keeps-forward_ureq b q = search (keeps_rules, Keeps-transmit_packet)

  pub Keeps-handle_ureq : (b : BaseHeader) (p : List ℕ) (l : ℕ) → Keeps P (handle_ureq b p l)
  unfolding handle_ureq
  Keeps-handle_ureq b p l =
      search (keeps_rules, Keeps-update_route_entry, Keeps-send_urep, Keeps-forward_ureq) depth 14

  Keeps-resend_user_messages : (u : ℕ) → Keeps P (resend_user_messages u)
  unfolding resend_user_messages
  Keeps-resend_user_messages u =
      search (keeps_rules, Keeps-pop_buffered_user_messages, Keeps-send_user_message) depth 8

  pub Keeps-handle_urep : (b : BaseHeader) (p : List ℕ) (l : ℕ) → Keeps P (handle_urep b p l)
  unfolding handle_urep
  Keeps-handle_urep b p l =
      search
        (
          keeps_rules, Keeps-update_route_entry, Keeps-update_gut_entry, Keeps-resend_user_messages,
          Keeps-forward_to,
        )
        depth 14

  Keeps-forget_user : (u : UerrHeader) → Keeps P (forget_user u)
  unfolding forget_user
  Keeps-forget_user u = search (keeps_rules, Keeps-get_gut_entry, Keeps-remove_gut_entry) depth 8

  pub Keeps-handle_uerr : (b : BaseHeader) (p : List ℕ) (l : ℕ) → Keeps P (handle_uerr b p l)
  unfolding handle_uerr
  Keeps-handle_uerr b p l =
      search (keeps_rules, Keeps-update_route_entry, Keeps-forget_user, Keeps-forward_to) depth 12

  Keeps-forward_key_req : (b : BaseHeader) (p : List ℕ) (l : ℕ) → Keeps P (forward_key_req b p l)
  unfolding forward_key_req
  Keeps-forward_key_req b p l = search (keeps_rules, Keeps-transmit_packet) depth 8

  pub Keeps-handle_pub_key_req :
      (b : BaseHeader) (p : List ℕ) (l : ℕ) → Keeps P (handle_pub_key_req b p l)
  unfolding handle_pub_key_req
  Keeps-handle_pub_key_req b p l =
      search
        (
          keeps_rules, Keeps-get_pub_key, Keeps-forward_key_req, Keeps-add_pub_key, Keeps-notify,
          Keeps-send_pub_key_resp,
        )
        depth 12

  pub Keeps-handle_pub_key_resp :
      (b : BaseHeader) (p : List ℕ) (l : ℕ) → Keeps P (handle_pub_key_resp b p l)
  unfolding handle_pub_key_resp
  Keeps-handle_pub_key_resp b p l =
      search (keeps_rules, Keeps-add_pub_key, Keeps-notify, Keeps-forward_to) depth 10

  Keeps-take_inbox_of : (u : ℕ) → Keeps P (take_inbox_of u)
  unfolding take_inbox_of
  Keeps-take_inbox_of u = record { at = λ r. inv.sessions (pop_inbox u r.usm).1 r }

  Keeps-hand_over_user : (u : ℕ) → Keeps P (hand_over_user u)
  unfolding hand_over_user
  Keeps-hand_over_user u =
      search (keeps_rules, Keeps-take_inbox_of, Keeps-send_user_message, Keeps-change_sessions)
        depth 10

  pub Keeps-handle_move_user_req :
      (b : BaseHeader) (p : List ℕ) (l : ℕ) → Keeps P (handle_move_user_req b p l)
  unfolding handle_move_user_req
  Keeps-handle_move_user_req b p l =
      search
        (
          keeps_rules, Keeps-update_route_entry, Keeps-update_gut_entry, Keeps-hand_over_user,
          Keeps-forward_to,
        )
        depth 12
