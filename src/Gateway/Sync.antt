-- ===== src/Gateway/Sync.antt =====
-- src/gatewayManager.cpp: the exchange with the server, and the broadcast of the time.
use eie4_mesh_network.Gateway
use eie4_mesh_network.Prelude.{
  Bool, List, Option, [], decimal, drop, false, if◌then◌else◌, ltb, none, not, some, take, true, ℕ,
  ◌%◌, ◌*◌, ◌++◌, ◌+◌, ◌-◌, ◌/◌, ◌∷◌,
}
use eie4_mesh_network.Bluetooth.Process.{ignore}
use eie4_mesh_network.Bluetooth.Transmit.{push_ble_out}
use eie4_mesh_network.Client.{ble_user_gateway}
use eie4_mesh_network.Exec.{when}
use eie4_mesh_network.Gateway.{Gateway, UplinkMsg}
use eie4_mesh_network.Messages.{enqueue_message}
use eie4_mesh_network.Node.{Node, NodeMethod, from_gateway_kind, on_router}
use eie4_mesh_network.Packet.{broadcast_addr, from_gateway}
use eie4_mesh_network.Router.Buffers.{get_known_user_ids}
use eie4_mesh_network.Router.Send.{send_data}
use eie4_mesh_network.Sessions.{get_ble_handle, get_connected_users, is_online, knows_user}

-- An entry of `down` in the server's answer.
pub record Downlink : Type 0 where
  pub src : ℕ
  pub dst : ℕ
  pub text : List ℕ

-- What is posted: the users that the node reaches, and the messages of the batch.
pub record Request : Type 0 where
  pub seen : List ℕ
  pub batch : List UplinkMsg

-- A node with its gateway manager. `posted` is newest first; `server` is the HTTP exchange with the
-- server, whose answer is `none` where the code is not 200 or the JSON cannot be read.
pub record Station : Type 0 where
  pub node : Node
  pub gateway : Gateway
  pub server : Request → Option (List Downlink)
  pub posted : List Request

unfoldable pub build_seen : Node → List ℕ
build_seen n = get_connected_users n.router.usm ++ get_known_user_ids n.router

abbrev pub max_batch : ℕ
max_batch = 10

-- A message from the Internet: to a phone of this node if it is there, and otherwise to the mesh.
unfoldable pub deliver_downlink : Downlink → ℕ → NodeMethod (Unit {0})
unfolding ignore
deliver_downlink d id n =
    if knows_user d.dst n.router.usm
    then when (is_online d.dst n.router.usm)
        (push_ble_out (record {
          kind = ble_user_gateway;
          conn_handle = get_ble_handle d.dst n.router.usm;
          to = d.dst;
          from = d.src;
          bytes = d.text;
          pkt_id = id;
        }))
        n
    else ignore (enqueue_message from_gateway_kind d.dst d.text id d.src from_gateway) n

-- Each message gets a random packet id.
unfoldable pub deliver_all : List Downlink → Station → Station
deliver_all [] s = s
deliver_all (d ∷ ds) s =
    let g = s.gateway in
    deliver_all ds (record s {
      node = (deliver_downlink d (g.random g.randoms % 4294967296) s.node).1;
      gateway = record g { randoms = g.randoms + 1 };
    })

unfoldable pub request_of : Station → Request
request_of s = record { seen = build_seen s.node; batch = take max_batch s.gateway.tx_q }

-- The batch has left the queue, whatever the server answers.
unfoldable pub post : Station → Station
post s =
    let g = s.gateway in
    record s {
      gateway = record g { tx_q = drop max_batch g.tx_q };
      posted = request_of s ∷ s.posted;
    }

unfoldable pub one_sync : Station → Bool × Station
one_sync s = elim (s.server (request_of s)) [
  | none ↦ (false, post s)
  | some down ↦ (true, deliver_all down (post s))
]

-- A round of `syncTask`, which waits for Wi-Fi.
unfoldable pub sync_task : Station → Station
sync_task s =
    if not s.gateway.wifi_ready then s else if not s.gateway.registered then s else (one_sync s).1

-- "UTC:" and the seconds.
unfoldable pub utc_payload : ℕ → List ℕ
utc_payload utc_ms = 85 ∷ 84 ∷ 67 ∷ 58 ∷ decimal (utc_ms / 1000)

-- The time to broadcast, for the seconds that were fetched, if any, and the gateway after.
unfoldable pub utc_now : ℕ → Option ℕ → Gateway → Option ℕ × Gateway
utc_now now (some sec) g =
    (some (sec * 1000), record g { utc_base_ms = sec * 1000; millis_base = now; have_utc = true })
utc_now now none g =
    if g.have_utc
    then (some (g.utc_base_ms + (now + 4294967296 - g.millis_base) % 4294967296), g)
    else (none, g)

-- Milliseconds since the last attempt, as `uint32_t`.
unfoldable pub since_attempt : ℕ → Gateway → ℕ
since_attempt now g = (now + 4294967296 - g.last_attempt) % 4294967296

send_utc : Option ℕ → Node → Node
unfolding on_router
send_utc none n = n
send_utc (some utc_ms) n = (on_router (send_data broadcast_addr (utc_payload utc_ms) 0 0) n).1

unfoldable pub broadcast_utc : ℕ → Option ℕ → Station → Station
unfolding send_utc
broadcast_utc now fetched s =
    let g = record (s.gateway) { last_attempt = now } in
    if not (Gateway.is_online s.gateway)
    then s
    else if ltb (since_attempt now s.gateway) 5000
    then s
    else record s {
      node = send_utc (utc_now now fetched g).0 s.node;
      gateway = (utc_now now fetched g).1;
    }
