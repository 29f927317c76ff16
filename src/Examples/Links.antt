-- ===== src/Examples/Links.antt =====
-- The theorems on the links to the Internet and to the simulation, at node 1.
use eie4_mesh_network.Prelude.{List, [], arith, false, none, refl, true, ◌*◌, ◌∷◌, ◌≡◌}
use eie4_mesh_network.Examples.{bob, hello}
use eie4_mesh_network.Gateway.{
  Gateway, announce_event, blocked, on_wifi_down, on_wifi_up, uplink, wake, wifi_event_task,
}
use eie4_mesh_network.Gateway.Batches.{history, sync_rounds, sync_rounds-history}
use eie4_mesh_network.Gateway.Events.{
  WifiEvent, comes_up, goes_down, happens, happens-TellsTruth, task_runs,
}
use eie4_mesh_network.Gateway.Sync.{Station}
use eie4_mesh_network.Gateway.Wifi.{TellsTruth, changes, changes-TellsTruth}
use eie4_mesh_network.Mqtt.{Mqtt, process_message, process_word, topic_of}
use eie4_mesh_network.Mqtt.Topics.{process_message_elsewhere}
use eie4_mesh_network.Node.{Node}
use eie4_mesh_network.Radio.{default_csma}
use eie4_mesh_network.Radio.Tasks.{begun}

abbrev fresh_gateway : Gateway
fresh_gateway = record {
  me = 1;
  registered = true;
  wifi_ready = false;
  evt_on = false;
  evt_off = false;
  event_task = blocked;
  tx_q = [];
  random = λ i. i * 7919;
  randoms = 0;
  registrations = 0;
  announced = [];
  utc_base_ms = 0;
  millis_base = 0;
  have_utc = false;
  last_attempt = 0;
}

changes-TellsTruth_example : TellsTruth (changes (true ∷ false ∷ true ∷ []) fresh_gateway)
changes-TellsTruth_example =
    changes-TellsTruth true (false ∷ true ∷ []) fresh_gateway (refl, refl, refl)

-- Wi-Fi goes down and comes up again before the task has its rounds.
abbrev flicker : List WifiEvent
flicker = goes_down ∷ comes_up ∷ task_runs ∷ task_runs ∷ []

abbrev online_gateway : Gateway
online_gateway = record fresh_gateway { wifi_ready = true; announced = true ∷ [] }

happens-TellsTruth_example : TellsTruth (happens flicker online_gateway)
unfolding happens on_wifi_up on_wifi_down wake wifi_event_task announce_event
happens-TellsTruth_example =
    happens-TellsTruth flicker online_gateway (refl, refl, refl) ([], refl) (refl, refl, refl) refl

abbrev link_node : Node
link_node = record {
  router = bob;
  has_gateway_manager = true;
  send_queue = [];
  node_id = 2;
  has_rx_characteristic = true;
  gateway_state = false;
  connected_devices = [];
  ble_rx_queue = [];
  ble_tx_queue = [];
  takes = λ handle raw. true;
  sent = [];
}

-- A server that always fails, and two messages for it.
abbrev failing : Station
failing = record {
  node = link_node;
  gateway = record (uplink 70 80 hello (uplink 70 81 hello fresh_gateway)) { wifi_ready = true };
  server = λ request. none;
  posted = [];
}

sync_rounds-history_example : history (sync_rounds 3 failing) ≡ history failing
sync_rounds-history_example = sync_rounds-history 3 failing

abbrev link_mqtt : Mqtt
link_mqtt = record {
  node_id = 1;
  is_up = true;
  received = [];
  outgoing = [];
  client_published = [];
  subscribed = [];
  render = λ doc. [];
  parse = λ text. none;
  radio = begun default_csma 1000;
  node = link_node;
  faulted = false;
}

-- Node 12 has a number that begins with that of node 1.
process_message_elsewhere_example :
    process_message true (record { topic = topic_of 12 process_word; payload = hello }) link_mqtt
    ≡ link_mqtt
process_message_elsewhere_example =
    process_message_elsewhere true 12 process_word hello link_mqtt (omega arith) (omega arith)
      (omega arith)
