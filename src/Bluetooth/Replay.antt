-- ===== src/Bluetooth/Replay.antt =====
-- src/bluetoothManager.cpp: a phone that logs on gets the messages that waited for it.
use mathlib.Core.List.{append_assoc}
use eie4_mesh_network.Prelude.{
  All, List, Option, [], arith, length, length-append, length-map, lookup, map, none, refl, some, ℕ,
  ◌++◌, ◌+◌, ◌<◌, ◌∷◌, ◌≡◌,
}
use eie4_mesh_network.Bluetooth.{PhoneMessage}
use eie4_mesh_network.Bluetooth.Process.{
  handle_announce_key, ignore, node_id_pkt, refresh_session, replay, take_waiting, waiting_notice,
}
use eie4_mesh_network.Bluetooth.Transmit.{
  addressing, ble_out_of, ble_queue_length, by_user, enqueue_ble_out, notify, push_ble_out,
}
use eie4_mesh_network.Exec.{gets, methods, ◌>>=◌, ◌>>◌}
use eie4_mesh_network.Messages.{announce_pub_key}
use eie4_mesh_network.Node.{BleOut, Node, NodeMethod, on_router}
use eie4_mesh_network.Queues.{offer_all}
use eie4_mesh_network.Queues.Bounds.{offer_all_room, offer_room}
use eie4_mesh_network.Router.Buffers.{add_pub_key}
use eie4_mesh_network.Router.Handle.Keys.{take_inbox_of}
use eie4_mesh_network.Sessions.{OfflineMsg, Sessions, UserInfo, get_ble_handle}
use eie4_mesh_network.Sessions.Login.{logged_on, logs_on}

-- The entry that a waiting message becomes.
abbrev waiting_out : (OfflineMsg → ℕ) → Sessions → OfflineMsg → BleOut
waiting_out id_of s q = ble_out_of (addressing q.kind) (waiting_notice id_of q) s

replay_lem :
    (id_of : OfflineMsg → ℕ) (waiting : List OfflineMsg) (n : Node)
    → replay id_of waiting n ≡ (
      tt,
      record n {
        ble_tx_queue =
            offer_all ble_queue_length
              (map (waiting_out id_of n.router.usm) waiting)
              n.ble_tx_queue;
      },
    )
unfolding replay methods ignore notify enqueue_ble_out offer_all waiting_notice
replay_lem id_of [] n = refl
replay_lem id_of (q ∷ waiting) n = replay_lem id_of waiting _

-- The entry for a message that waited for the user on the connection.
abbrev pub to_connection : ℕ → OfflineMsg → BleOut
to_connection handle q = record {
  kind = q.kind;
  conn_handle = handle;
  to = q.to;
  from = q.from;
  bytes = q.bytes;
  pkt_id = q.packet_id;
}

-- A message for the user, of a kind that goes to one connection.
abbrev pub IsFor : ℕ → OfflineMsg → Type 0
IsFor user q = (q.to ≡ user) × (addressing q.kind ≡ by_user)

map-waiting_out :
    (user handle : ℕ) (s : Sessions) (waiting : List OfflineMsg)
    → get_ble_handle user s ≡ handle
    → All (IsFor user) waiting
    → map (waiting_out (λ q. q.packet_id) s) waiting ≡ map (to_connection handle) waiting
unfolding ble_out_of waiting_notice
map-waiting_out user handle s [] e h = refl
map-waiting_out user handle s (q ∷ waiting) e h =
    let rest = map-waiting_out user handle s waiting e h.1 in
    rw (h.0.1, ble_out_of) (rw (h.0.0) (rw e (rw rest refl)))

-- What follows the inbox in the handler.
abbrev finish : ℕ → List OfflineMsg → NodeMethod (Unit {0})
finish handle waiting = do
  replay (λ q. q.packet_id) waiting
  me ← gets (λ n. n.node_id)
  push_ble_out (node_id_pkt me handle [])

finish_lem :
    (handle user : ℕ) (waiting : List OfflineMsg) (n : Node)
    → get_ble_handle user n.router.usm ≡ handle
    → All (IsFor user) waiting
    → length n.ble_tx_queue + length waiting < 20
    → (finish handle waiting n).1.ble_tx_queue
      ≡ n.ble_tx_queue
        ++ (map (to_connection handle) waiting ++ node_id_pkt n.node_id handle [] ∷ [])
unfolding push_ble_out enqueue_ble_out methods
finish_lem handle user waiting n e mine room =
    let outs = map (to_connection handle) waiting in
    let same : length outs ≡ length waiting = length-map (to_connection handle) waiting in
    let kept : offer_all 20 outs n.ble_tx_queue ≡ n.ble_tx_queue ++ outs =
      offer_all_room 20 outs n.ble_tx_queue (omega (arith, same)) in
    rw (replay_lem (λ q. q.packet_id) waiting n) (
      rw (map-waiting_out user handle n.router.usm waiting e mine) (
        rw kept (
          rw
            (offer_room 20 (node_id_pkt n.node_id handle []) (n.ble_tx_queue ++ outs)
              (omega (arith, same, length-append n.ble_tx_queue outs)))
            (append_assoc n.ble_tx_queue outs _))))

finish-some :
    (handle user : ℕ) (o : Option (List OfflineMsg)) (waiting : List OfflineMsg) (n : Node)
    → o ≡ some waiting
    → get_ble_handle user n.router.usm ≡ handle
    → All (IsFor user) waiting
    → length n.ble_tx_queue + length waiting < 20
    → (finish handle (elim o [ none ↦ [] | some box ↦ box ]) n).1.ble_tx_queue
      ≡ n.ble_tx_queue
        ++ (map (to_connection handle) waiting ++ node_id_pkt n.node_id handle [] ∷ [])
finish-some handle user o waiting n found e mine room =
    rw found (finish_lem handle user waiting n e mine room)

-- When a known user logs on with a key of 32 bytes, every message that waited is for this user and
-- of a kind that goes to one user,
-- and the queue to the phones has room, the messages that waited go to the connection of the phone,
-- in their order and with their packet ids, followed by the id of the node.
pub handle_announce_key-replays :
    (handle : ℕ) (i : PhoneMessage) (n : Node) (info : UserInfo) (m : OfflineMsg)
    (ms : List OfflineMsg)
    → length i.body ≡ 32
    → lookup i.sender n.router.usm.users ≡ some info
    → info.inbox ≡ m ∷ ms
    → All (IsFor i.sender) (m ∷ ms)
    → length n.ble_tx_queue + length (m ∷ ms) < 20
    → (handle_announce_key handle i n).1.ble_tx_queue
      ≡ n.ble_tx_queue
        ++ (map (to_connection handle) (m ∷ ms) ++ node_id_pkt n.node_id handle [] ∷ [])
unfolding handle_announce_key methods announce_pub_key add_pub_key on_router refresh_session
    take_waiting take_inbox_of push_ble_out enqueue_ble_out
handle_announce_key-replays handle i n info m ms long e box mine room =
    let l = logs_on i.sender handle n.router.now n.router.usm info m ms e box in
    rw (long, handle_announce_key)
      (finish-some handle i.sender (logged_on i.sender handle n.router.now n.router.usm).0 (m ∷ ms)
        _ l.0 l.1 mine room)
