-- ===== src/Bluetooth/Runs.antt =====
-- src/bluetoothManager.cpp and src/networkMessageHandler.cpp: the queues of the node over any run.
use eie4_mesh_network.Client
use eie4_mesh_network.Prelude.{
  All, Bool, List, [], ap, arith, length, none, refl, some, subst, ℕ, ◌∷◌, ◌≡◌,
}
use eie4_mesh_network.Bluetooth.{
  BleMessageType, PhoneMessage, ble_announce_key, ble_request_pubkey, broadcast, enc_user_msg,
  enc_user_msg_req_ack, list_nodes_req, list_users_req, node_msg, node_msg_req_ack, parse,
  request_node_id, user_id_update, user_moved, user_msg, user_msg_gateway, user_msg_req_ack,
}
use eie4_mesh_network.Bluetooth.Bounds.{
  IsBounded, IsShort, Keeps-ignore, Keeps-notify, Keeps-on_router, Keeps-queue_gateway_status,
  Keeps-unchanged, node_rules,
}
use eie4_mesh_network.Bluetooth.Process.{
  ble_rx_worker, echo, enqueue, handle_announce_key, handle_request_node_id, handle_user_id_update,
  ignore, on_connect, on_disconnect, on_write, process_incoming_message, react, replay,
  take_waiting,
}
use eie4_mesh_network.Bluetooth.Transmit.{
  ble_tx_worker, notify, send_ack_bytes, send_ble_out, set_gateway_state,
}
use eie4_mesh_network.Client.{BleType, ble_ack, ble_ack_failure, ble_gateway_status}
use eie4_mesh_network.Exec.{for_each, skip}
use eie4_mesh_network.Exec.Keeps.{Keeps, Keeps-for, Keeps-skip}
use eie4_mesh_network.Messages.{announce_pub_key, dispatch_message, process_queue}
use eie4_mesh_network.Node.{BleIn, BleOut, Node, NodeMethod, OutgoingMessage, on_router}
use eie4_mesh_network.Queues.{receive}
use eie4_mesh_network.Queues.Bounds.{length-offer-le}
use eie4_mesh_network.Router.State.{Method}

-- What can happen to the node, in any order: a phone writes, connects or leaves, the router or the
-- uplink has news for the phones, the router works, and each of the three tasks makes a round.
pub data Event : Type 0 where
  writes : ℕ → List ℕ → Event
  connects : ℕ → Event
  disconnects : ℕ → Event
  tells : Client.Outgoing → Event
  uplink_is : Bool → Event
  routes : Method (Unit {0}) → Event
  receiver_runs transmitter_runs sender_runs : Event

unfoldable pub happen : Event → NodeMethod (Unit {0})
unfolding ignore
happen (writes handle msg) = on_write handle msg
happen (connects handle) = on_connect handle
happen (disconnects handle) = on_disconnect handle
happen (tells o) = ignore (notify o)
happen (uplink_is b) = ignore (set_gateway_state b)
happen (routes m) = on_router m
happen receiver_runs = ble_rx_worker
happen transmitter_runs = ble_tx_worker
happen sender_runs = process_queue

unfoldable pub happen_all : List Event → NodeMethod (Unit {0})
happen_all events = for_each events happen

Keeps-react :
    (handle : ℕ) (i : PhoneMessage) (t : BleMessageType) → Keeps IsBounded (react handle i t)
unfolding react handle_request_node_id enqueue echo handle_user_id_update handle_announce_key
    announce_pub_key take_waiting replay
Keeps-react handle i broadcast = search node_rules depth 12
Keeps-react handle i node_msg = search node_rules depth 12
Keeps-react handle i user_msg = search node_rules depth 12
Keeps-react handle i user_id_update = search node_rules depth 12
Keeps-react handle i list_nodes_req = search node_rules depth 12
Keeps-react handle i list_users_req = search node_rules depth 12
Keeps-react handle i user_msg_gateway = search node_rules depth 12
Keeps-react handle i ble_announce_key = search node_rules depth 12
Keeps-react handle i ble_request_pubkey = search node_rules depth 12
Keeps-react handle i enc_user_msg = search node_rules depth 12
Keeps-react handle i user_moved = search node_rules depth 12
Keeps-react handle i request_node_id = search node_rules depth 12
Keeps-react handle i user_msg_req_ack = search node_rules depth 12
Keeps-react handle i node_msg_req_ack = search node_rules depth 12
Keeps-react handle i enc_user_msg_req_ack = search node_rules depth 12
Keeps-react handle i _ = search node_rules depth 12

Keeps-process_incoming_message :
    (handle : ℕ) (msg : List ℕ) → Keeps IsBounded (process_incoming_message handle msg)
unfolding process_incoming_message
Keeps-process_incoming_message handle msg =
    elim (parse msg)
      as (λ o. Keeps IsBounded (elim o [ none ↦ skip | some i ↦ react handle i i.kind ])) [
        | none ↦ Keeps-skip
        | some i ↦ Keeps-react handle i i.kind
      ]

Keeps-send_ble_out : (pkt : BleOut) (k : BleType) → Keeps IsBounded (send_ble_out pkt k)
unfolding send_ble_out send_ack_bytes
Keeps-send_ble_out pkt ble_ack = search node_rules depth 8
Keeps-send_ble_out pkt ble_ack_failure = search node_rules depth 8
Keeps-send_ble_out pkt ble_gateway_status = search node_rules depth 8
Keeps-send_ble_out pkt _ = search node_rules depth 8

Keeps-on_write : (handle : ℕ) (msg : List ℕ) → Keeps IsBounded (on_write handle msg)
unfolding on_write
Keeps-on_write handle msg = record {
  at = λ n b. record {
    sends = b.sends;
    shorts = b.shorts;
    receives = length-offer-le 20 _ n.ble_rx_queue b.receives;
    transmits = b.transmits;
  };
}

-- A round of a task: nothing on an empty queue, and otherwise the method for its oldest entry.
Keeps-ble_rx_worker : Keeps IsBounded ble_rx_worker
unfolding ble_rx_worker receive
Keeps-ble_rx_worker = record { at = λ n b. round n n.ble_rx_queue refl b }
  where
    round :
        (n : Node) (q : List BleIn)
        → n.ble_rx_queue ≡ q
        → IsBounded n
        → IsBounded (ble_rx_worker n).1
    round n [] e b = rw (e, ble_rx_worker) b
    round n (pkt ∷ rest) e b =
        rw (e, ble_rx_worker)
          ((Keeps-process_incoming_message pkt.conn_handle pkt.bytes).at
            (record n { ble_rx_queue = rest })
            (record {
              sends = b.sends;
              shorts = b.shorts;
              receives = omega (arith, b.receives, ap length e);
              transmits = b.transmits;
            }))

Keeps-ble_tx_worker : Keeps IsBounded ble_tx_worker
unfolding ble_tx_worker receive
Keeps-ble_tx_worker = record { at = λ n b. round n n.ble_tx_queue refl b }
  where
    round :
        (n : Node) (q : List BleOut)
        → n.ble_tx_queue ≡ q
        → IsBounded n
        → IsBounded (ble_tx_worker n).1
    round n [] e b = rw (e, ble_tx_worker) b
    round n (pkt ∷ rest) e b =
        rw (e, ble_tx_worker)
          ((Keeps-send_ble_out pkt pkt.kind).at (record n { ble_tx_queue = rest })
            (record {
              sends = b.sends;
              shorts = b.shorts;
              receives = b.receives;
              transmits = omega (arith, b.transmits, ap length e);
            }))

Keeps-process_queue : Keeps IsBounded process_queue
unfolding process_queue receive
Keeps-process_queue = record { at = λ n b. round n n.send_queue refl b }
  where
    round :
        (n : Node) (q : List OutgoingMessage)
        → n.send_queue ≡ q
        → IsBounded n
        → IsBounded (process_queue n).1
    round n [] e b = rw (e, process_queue) b
    round n (msg ∷ rest) e b =
        rw (e, process_queue)
          ((Keeps-on_router (dispatch_message n.has_gateway_manager msg msg.kind)).at
            (record n { send_queue = rest })
            (record {
              sends = omega (arith, b.sends, ap length e);
              shorts = (subst (All IsShort) e b.shorts).1;
              receives = b.receives;
              transmits = b.transmits;
            }))

Keeps-happen : (event : Event) → Keeps IsBounded (happen event)
unfolding happen on_connect on_disconnect set_gateway_state
Keeps-happen (writes handle msg) = Keeps-on_write handle msg
Keeps-happen (connects handle) =
    Keeps-unchanged (on_connect handle) (λ n. refl) (λ n. refl) (λ n. refl)
Keeps-happen (disconnects handle) =
    Keeps-unchanged (on_disconnect handle) (λ n. refl) (λ n. refl) (λ n. refl)
Keeps-happen (tells o) = Keeps-ignore (notify o) (Keeps-notify o)
Keeps-happen (uplink_is b) = record {
  at = λ n kept.
      (Keeps-queue_gateway_status b).at (record n { gateway_state = b })
        (record {
          sends = kept.sends;
          shorts = kept.shorts;
          receives = kept.receives;
          transmits = kept.transmits;
        });
}
Keeps-happen (routes m) = Keeps-on_router m
Keeps-happen receiver_runs = Keeps-ble_rx_worker
Keeps-happen transmitter_runs = Keeps-ble_tx_worker
Keeps-happen sender_runs = Keeps-process_queue

-- Whatever the phones, the router and the uplink do and in whatever order the three tasks run, from
-- a node with empty queues the queue to the router holds at most ten messages of at most 200 bytes
-- each, and the two queues of the phones hold at most twenty entries each.
pub happen_all-IsBounded :
    (events : List Event) (n : Node)
    → n.send_queue ≡ []
    → n.ble_rx_queue ≡ []
    → n.ble_tx_queue ≡ []
    → IsBounded (happen_all events n).1
unfolding happen_all
happen_all-IsBounded events n s r t = (Keeps-for events happen Keeps-happen).at n (record {
  sends = rw s (omega arith);
  shorts = rw s tt;
  receives = rw r (omega arith);
  transmits = rw t (omega arith);
})
