-- ===== src/Router/Handle/Keys.antt =====
-- src/aodvRouter.cpp: public keys, and users that move to another node.
use eie4_mesh_network.Sessions
use eie4_mesh_network.Prelude.{
  Bool, List, [], false, if◌then◌else◌, leb, ltb, none, some, take, true, ℕ, ◌==◌,
}
use eie4_mesh_network.Client.{BleType, ble_enc_unicast_user}
use eie4_mesh_network.Exec.{for_each, gets, match_option, skip, ◌>>=◌, ◌>>◌}
use eie4_mesh_network.Packet.{BaseHeader, enc_msg}
use eie4_mesh_network.Packet.Serialise.{
  deserialise_move_user_req, deserialise_pub_key_req, deserialise_pub_key_resp,
}
use eie4_mesh_network.Router.Buffers.{add_pub_key, get_pub_key, update_gut_entry}
use eie4_mesh_network.Router.Handle.{forward_to, forwarded}
use eie4_mesh_network.Router.Handle.Info.{max_hops}
use eie4_mesh_network.Router.Send.{pub_key_notice, send_pub_key_resp}
use eie4_mesh_network.Router.Send.Users.{send_user_message}
use eie4_mesh_network.Router.State.{Method, change_sessions, notify}
use eie4_mesh_network.Router.Table.{update_route_entry}
use eie4_mesh_network.Router.Transmit.{transmit_packet}
use eie4_mesh_network.Sessions.{OfflineMsg, Sessions, pop_inbox}

unfoldable pub forward_key_req : BaseHeader → List ℕ → ℕ → Method (Unit {0})
forward_key_req base payload len = do
  me ← gets (λ r. r.my_node_id)
  let fwd = forwarded base me base.dest_node_id
  if leb max_hops fwd.hop_count then skip else transmit_packet fwd (take len payload) []

-- The key found is a pointer into the table, so it is read after the sender's key was put there.
unfoldable pub handle_pub_key_req : BaseHeader → List ℕ → ℕ → Method (Unit {0})
handle_pub_key_req base payload len = if ltb len 40 then skip else do
  let rq = (deserialise_pub_key_req payload 0).0
  o ← get_pub_key rq.target_user_id
  match_option o (forward_key_req base payload len) (λ key. do
    add_pub_key rq.sender_user_id rq.public_key
    notify (pub_key_notice rq.sender_user_id rq.public_key)
    send_pub_key_resp base.prev_hop_id rq.target_user_id base.origin_node_id
        (if rq.sender_user_id == rq.target_user_id then rq.public_key else key))

unfoldable pub handle_pub_key_resp : BaseHeader → List ℕ → ℕ → Method (Unit {0})
handle_pub_key_resp base payload len = if ltb len 36 then skip else do
  let rp = (deserialise_pub_key_resp payload 0).0
  add_pub_key rp.user_id rp.public_key
  me ← gets (λ r. r.my_node_id)
  if me == base.origin_node_id
      then notify (pub_key_notice rp.user_id rp.public_key)
      else forward_to base.origin_node_id base (take len payload) []

unfoldable pub is_encrypted_kind : BleType → Bool
is_encrypted_kind ble_enc_unicast_user = true
is_encrypted_kind _ = false

unfoldable pub take_inbox_of : ℕ → Method (List OfflineMsg)
take_inbox_of user r = (
  elim (pop_inbox user r.usm).0 [ none ↦ [] | some box ↦ box ],
  record r { usm = (pop_inbox user r.usm).1 },
)

-- The old home node sends the inbox after the user and forgets the user.
unfoldable pub hand_over_user : ℕ → Method (Unit {0})
hand_over_user user = do
  box ← take_inbox_of user
  for_each box (λ om.
      send_user_message om.from om.to om.bytes om.packet_id
        (if is_encrypted_kind om.kind then enc_msg else 0))
  change_sessions (Sessions.remove user)

unfoldable pub handle_move_user_req : BaseHeader → List ℕ → ℕ → Method (Unit {0})
handle_move_user_req base payload len = if ltb len 8 then skip else do
  let mvr = (deserialise_move_user_req payload 0).0
  update_route_entry base.prev_hop_id base.prev_hop_id 1
  update_gut_entry mvr.user_id (record { node_id = base.origin_node_id; seq = 0; ts = 0 })
  me ← gets (λ r. r.my_node_id)
  if me == mvr.dest_node_id
      then hand_over_user mvr.user_id
      else forward_to mvr.dest_node_id base (take len payload) []
