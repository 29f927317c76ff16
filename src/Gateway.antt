-- ===== src/Gateway.antt =====
-- src/gatewayManager.h and .cpp: the link of a node to the server on the Internet. Its exchange with
-- the router, the phones and the server is in Sync.
pub mod Sync
pub mod Uplinks
pub mod Wifi
pub mod Events
pub mod Batches
use eie4_mesh_network.Prelude.{
  Bool, List, [], false, if◌then◌else◌, length, ltb, min, not, replicate, suc, take, true, zero, ℕ,
  ◌%◌, ◌&&◌, ◌++◌, ◌+◌, ◌-◌, ◌==◌, ◌||◌, ◌∷◌,
}
use eie4_mesh_network.Packet.Bytes.{write}
use eie4_mesh_network.Queues.{offer}

-- `id` and `body` are the bytes of the two arrays.
pub record UplinkMsg : Type 0 where
  pub id : List ℕ
  pub from : ℕ
  pub to : ℕ
  pub len : ℕ
  pub body : List ℕ

-- Where `wifiEventTask` stands: blocked on the event group, or with the bits that it was woken with
-- and has not yet announced.
pub data EventTask : Type 0 where
  blocked : EventTask
  woken : Bool → EventTask

-- `wifi_ready`, `evt_on` and `evt_off` are the bits of the event group, `random` is `esp_random`, of
-- which `randoms` counts the calls, `registrations` the tasks that were started to register the
-- node, and `announced` the calls of `setGatewayState`, newest first.
pub record Gateway : Type 0 where
  pub me : ℕ
  pub registered : Bool
  pub wifi_ready : Bool
  pub evt_on : Bool
  pub evt_off : Bool
  pub event_task : EventTask
  pub tx_q : List UplinkMsg
  pub random : ℕ → ℕ
  pub randoms : ℕ
  pub registrations : ℕ
  pub announced : List Bool
  pub utc_base_ms : ℕ
  pub millis_base : ℕ
  pub have_utc : Bool
  pub last_attempt : ℕ

abbrev pub uplink_queue_length : ℕ
uplink_queue_length = 30

abbrev pub max_body : ℕ
max_body = 200

-- A letter or a digit, for a number below 36.
unfoldable pub id_char : ℕ → ℕ
id_char v = if ltb v 10 then 48 + v else 97 + v - 10

-- The characters for the random numbers from the `i`-th on.
unfoldable pub random_id : ℕ → (ℕ → ℕ) → ℕ → List ℕ
random_id zero random i = []
random_id (suc k) random i = id_char (random i % 36) ∷ random_id k random (i + 1)

-- The array after the copy and the terminator, which takes the last place of a full array.
unfoldable pub body_array : List ℕ → List ℕ
unfolding write
body_array bytes =
    let len = min (length bytes) max_body in
    write (write (replicate max_body 0) 0 (take max_body bytes))
      (if ltb len max_body then len else max_body - 1) (0 ∷ [])

unfoldable pub uplink_msg : ℕ → ℕ → List ℕ → Gateway → UplinkMsg
uplink_msg src dst bytes g = record {
  id = random_id 12 g.random g.randoms ++ 0 ∷ [];
  from = src;
  to = dst;
  len = min (length bytes) max_body;
  body = body_array bytes;
}

unfoldable pub uplink : ℕ → ℕ → List ℕ → Gateway → Gateway
unfolding offer
uplink src dst bytes g = record g {
  randoms = g.randoms + 12;
  tx_q = (offer uplink_queue_length (uplink_msg src dst bytes g) g.tx_q).1;
}

unfoldable pub is_online : Gateway → Bool
is_online g = g.registered && g.wifi_ready

-- A bit of the two is set. The event group wakes a task that is blocked on it at once, with the bits
-- of this moment, which it clears; for a task that is not blocked the bits stay. Of the bits the task
-- asks for `GW_EVT_ON` first.
unfoldable pub wake : EventTask → Gateway → Gateway
wake blocked g =
    if g.evt_on || g.evt_off
    then record g { evt_on = false; evt_off = false; event_task = woken g.evt_on }
    else g
wake (woken on) g = g

unfoldable pub on_wifi_up : Gateway → Gateway
unfolding wake
on_wifi_up g =
    let up = wake g.event_task (record g { wifi_ready = true; evt_on = true }) in
    if not g.registered then record up { registrations = g.registrations + 1 } else up

unfoldable pub on_wifi_down : Gateway → Gateway
unfolding wake
on_wifi_down g = wake g.event_task (record g { wifi_ready = false; evt_off = true })

-- `registerNode`, for the code that the server answers.
unfoldable pub register_node : ℕ → Gateway → Bool × Gateway
register_node rc g = if rc == 200 then (true, record g { registered = true }) else (false, g)

-- A round of the task that `onWifiUp` starts.
unfoldable pub registration_round : ℕ → Gateway → Gateway
unfolding register_node
registration_round rc g = if g.registered then g else (register_node rc g).1

-- A round of `wifiEventTask`: it announces what it was woken with, and asks for bits again.
unfoldable pub announce_event : EventTask → Gateway → Gateway
unfolding wake
announce_event blocked g = g
announce_event (woken on) g =
    wake blocked (record g { announced = on ∷ g.announced; event_task = blocked })

unfoldable pub wifi_event_task : Gateway → Gateway
unfolding announce_event
wifi_event_task g = announce_event g.event_task g
