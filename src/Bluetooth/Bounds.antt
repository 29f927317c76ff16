-- ===== src/Bluetooth/Bounds.antt =====
-- src/bluetoothManager.cpp and src/networkMessageHandler.cpp: what the queues of the node hold.
use eie4_mesh_network.Client
use eie4_mesh_network.Prelude.{All, Bool, List, arith, length, length-take, true, ℕ, ◌≡◌, ◌≤◌}
use eie4_mesh_network.Bluetooth.Process.{announce_uplink, ignore, refresh_session, when_known}
use eie4_mesh_network.Bluetooth.Transmit.{
  addressing, ble_out_of, enqueue_ble_out, gateway_pkt, notify, push_ble_out, queue_gateway_status,
  send_broadcast, send_to_client,
}
use eie4_mesh_network.Exec.{for_each, when}
use eie4_mesh_network.Exec.Keeps.{Keeps, Keeps-for, Keeps-when, keeps_rules}
use eie4_mesh_network.Messages.{enqueue_message}
use eie4_mesh_network.Node.{BleOut, MsgKind, Node, NodeMethod, OutgoingMessage, on_router}
use eie4_mesh_network.Queues.Bounds.{All-offer, length-offer-le}
use eie4_mesh_network.Router.State.{Method}
use eie4_mesh_network.Sessions.{knows_user}

-- A message fits the array of `OutgoingMessage`.
abbrev pub IsShort : OutgoingMessage → Type 0
IsShort msg = length msg.message ≤ 200

-- The queues have at most the entries that they were created for, and the messages fit.
pub record IsBounded (n : Node) : Type 0 where
  pub sends : length n.send_queue ≤ 10
  pub shorts : All IsShort n.send_queue
  pub receives : length n.ble_rx_queue ≤ 20
  pub transmits : length n.ble_tx_queue ≤ 20

pub Keeps-on_router : {A : Type 0} (m : Method A) → Keeps IsBounded (on_router m)
unfolding on_router
Keeps-on_router m = record {
  at = λ n b. record {
    sends = b.sends;
    shorts = b.shorts;
    receives = b.receives;
    transmits = b.transmits;
  };
}

pub Keeps-enqueue_ble_out : (pkt : BleOut) → Keeps IsBounded (enqueue_ble_out pkt)
unfolding enqueue_ble_out
Keeps-enqueue_ble_out pkt = record {
  at = λ n b. record {
    sends = b.sends;
    shorts = b.shorts;
    receives = b.receives;
    transmits = length-offer-le 20 pkt n.ble_tx_queue b.transmits;
  };
}

pub Keeps-ignore : {A : Type 0} (m : NodeMethod A) → Keeps IsBounded m → Keeps IsBounded (ignore m)
unfolding ignore
Keeps-ignore m k = record { at = k.at }

pub Keeps-push_ble_out : (pkt : BleOut) → Keeps IsBounded (push_ble_out pkt)
unfolding push_ble_out
Keeps-push_ble_out pkt = record { at = (Keeps-enqueue_ble_out pkt).at }

pub Keeps-enqueue_message :
    (k : MsgKind) (dest : ℕ) (message : List ℕ) (id user flags : ℕ)
    → Keeps IsBounded (enqueue_message k dest message id user flags)
unfolding enqueue_message
Keeps-enqueue_message k dest message id user flags = record {
  at = λ n b. record {
    sends = length-offer-le 10 _ n.send_queue b.sends;
    shorts = All-offer IsShort 10 _ n.send_queue (omega (arith, length-take 200 message)) b.shorts;
    receives = b.receives;
    transmits = b.transmits;
  };
}

pub Keeps-unchanged :
    {A : Type 0} (m : NodeMethod A)
    → ((n : Node) → (m n).1.send_queue ≡ n.send_queue)
    → ((n : Node) → (m n).1.ble_rx_queue ≡ n.ble_rx_queue)
    → ((n : Node) → (m n).1.ble_tx_queue ≡ n.ble_tx_queue)
    → Keeps IsBounded m
Keeps-unchanged m s r t = record {
  at = λ n b. record {
    sends = rw (s n) b.sends;
    shorts = rw (s n) b.shorts;
    receives = rw (r n) b.receives;
    transmits = rw (t n) b.transmits;
  };
}

pub Keeps-send_broadcast : (raw : List ℕ) → Keeps IsBounded (send_broadcast raw)
unfolding send_broadcast
Keeps-send_broadcast raw =
    Keeps-unchanged (send_broadcast raw) (λ n. ground arith) (λ n. ground arith) (λ n. ground arith)

pub Keeps-send_to_client : (handle : ℕ) (raw : List ℕ) → Keeps IsBounded (send_to_client handle raw)
unfolding send_to_client
Keeps-send_to_client handle raw =
    Keeps-unchanged (send_to_client handle raw) (λ n. ground arith) (λ n. ground arith)
      (λ n. ground arith)

-- A method that reads the node to choose what to do.
pub Keeps-chosen :
    {A : Type 0} (m : Node → NodeMethod A)
    → ((n : Node) → Keeps IsBounded (m n))
    → Keeps IsBounded (λ n. m n n)
Keeps-chosen m k = record { at = λ n b. (k n).at n b }

pub Keeps-notify : (o : Client.Outgoing) → Keeps IsBounded (notify o)
unfolding notify
Keeps-notify o =
    Keeps-chosen (λ n. enqueue_ble_out (ble_out_of (addressing o.kind) o n.router.usm))
      (λ n. Keeps-enqueue_ble_out _)

pub Keeps-queue_gateway_status : (b : Bool) → Keeps IsBounded (queue_gateway_status b)
unfolding queue_gateway_status
Keeps-queue_gateway_status b =
    Keeps-chosen (λ n. for_each n.connected_devices (λ h. push_ble_out (gateway_pkt n.node_id b h)))
      (λ n. Keeps-for n.connected_devices _ (λ h. Keeps-push_ble_out _))

pub Keeps-when_known :
    (user : ℕ) (m : NodeMethod (Unit {0})) → Keeps IsBounded m → Keeps IsBounded (when_known user m)
unfolding when_known
Keeps-when_known user m k =
    Keeps-chosen (λ n. when (knows_user user n.router.usm) m) (λ n. Keeps-when _ m k)

pub Keeps-announce_uplink : (handle : ℕ) → Keeps IsBounded (announce_uplink handle)
unfolding announce_uplink
Keeps-announce_uplink handle =
    Keeps-chosen (λ n. when n.gateway_state (push_ble_out (gateway_pkt n.node_id true handle)))
      (λ n. Keeps-when _ _ (Keeps-push_ble_out _))

pub Keeps-refresh_session : (user handle : ℕ) → Keeps IsBounded (refresh_session user handle)
unfolding refresh_session
Keeps-refresh_session user handle = Keeps-chosen _ (λ n. Keeps-on_router _)

pub ruleset node_rules = (
  keeps_rules, Keeps-on_router, Keeps-push_ble_out, Keeps-enqueue_message, Keeps-ignore,
  Keeps-send_broadcast, Keeps-send_to_client, Keeps-notify, Keeps-queue_gateway_status,
  Keeps-when_known, Keeps-announce_uplink, Keeps-refresh_session,
)
