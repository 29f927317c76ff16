-- ===== src/Mqtt.antt =====
-- src/mqttManager.h and .cpp: the link of a node to the simulation, over an MQTT broker.
pub mod Topics
use eie4_mesh_network.Prelude.{
  Bool, List, Option, [], decimal, false, if◌then◌else◌, leb, length, none, some, take, true, ℕ,
  ◌&&◌, ◌++◌, ◌-◌, ◌==◌, ◌||◌, ◌∷◌,
}
use eie4_mesh_network.Messages.{enqueue_message}
use eie4_mesh_network.Node.{Node, node_kind}
use eie4_mesh_network.Queues.{offer, receive}
use eie4_mesh_network.Radio.{Radio, enqueue_rx_packet}
use eie4_mesh_network.Router.Receive.Accept.{received}

-- `mqtt_message_t`: the topic up to its zero byte, and the payload that `payload_len` delimits.
pub record MqttMessage : Type 0 where
  pub topic : List ℕ
  pub payload : List ℕ

-- What the manager tells the broker of.
pub data Document : Type 0 where
  update_route_doc : ℕ → ℕ → ℕ → Document
  invalidate_route_doc : ℕ → Document
  packet_doc : ℕ → List ℕ → Document
  user_added_doc : ℕ → Document
  register_doc : ℕ → Document

-- `render` is the serialiser of ArduinoJson into the buffer of the caller, `parse` its parser for the
-- fields `destination` and `message`. `client_published` is what the MQTT client was given, newest
-- first, and `faulted` is set where the source writes outside an array.
pub record Mqtt : Type 0 where
  pub node_id : ℕ
  pub is_up : Bool
  pub received : List MqttMessage
  pub outgoing : List MqttMessage
  pub client_published : List (List ℕ × List ℕ)
  pub subscribed : List (List ℕ)
  pub render : Document → List ℕ
  pub parse : List ℕ → Option (ℕ × List ℕ)
  pub radio : Radio
  pub node : Node
  pub faulted : Bool

abbrev pub mqtt_topic_max_len : ℕ
mqtt_topic_max_len = 128

abbrev pub mqtt_payload_max_len : ℕ
mqtt_payload_max_len = 512

abbrev pub mqtt_queue_length : ℕ
mqtt_queue_length = 10

-- "physical/node"
abbrev pub topic_prefix : List ℕ
topic_prefix = 112 ∷ 104 ∷ 121 ∷ 115 ∷ 105 ∷ 99 ∷ 97 ∷ 108 ∷ 47 ∷ 110 ∷ 111 ∷ 100 ∷ 101 ∷ []

-- "command", "process_message" and "send_message"
abbrev pub command_word : List ℕ
command_word = 99 ∷ 111 ∷ 109 ∷ 109 ∷ 97 ∷ 110 ∷ 100 ∷ []

abbrev pub process_word : List ℕ
process_word =
    112 ∷ 114 ∷ 111 ∷ 99 ∷ 101 ∷ 115 ∷ 115 ∷ 95 ∷ 109 ∷ 101 ∷ 115 ∷ 115 ∷ 97 ∷ 103 ∷ 101 ∷ []

abbrev pub send_word : List ℕ
send_word = 115 ∷ 101 ∷ 110 ∷ 100 ∷ 95 ∷ 109 ∷ 101 ∷ 115 ∷ 115 ∷ 97 ∷ 103 ∷ 101 ∷ []

-- `snprintf(…, "physical/node%u/…", nodeId)`
unfoldable pub topic_of : ℕ → List ℕ → List ℕ
topic_of node word = topic_prefix ++ (decimal node ++ 47 ∷ word)

-- `strncmp(text, prefix, strlen(prefix)) == 0`
unfoldable pub starts_with : List ℕ → List ℕ → Bool
starts_with [] text = true
starts_with (c ∷ cs) [] = false
starts_with (c ∷ cs) (d ∷ ds) = c == d && starts_with cs ds

-- `enqueueSendMQTTQueue`: the terminator of a payload that fills the array goes behind the array.
unfoldable pub enqueue_send_mqtt_queue : List ℕ → Mqtt → Mqtt
unfolding offer
enqueue_send_mqtt_queue payload m = record m {
  outgoing =
      (offer mqtt_queue_length (record { topic = []; payload = take mqtt_payload_max_len payload })
        m.outgoing).1;
  faulted = m.faulted || leb mqtt_payload_max_len (length payload);
}

-- `publishUpdateRoute`, `publishInvalidateRoute`, `publishPacket` and `publishUserAdded`
unfoldable pub publish_document : Document → Mqtt → Mqtt
publish_document doc m = if m.is_up then enqueue_send_mqtt_queue (m.render doc) m else m

unfoldable pub publish_message : List ℕ → List ℕ → Mqtt → Mqtt
publish_message topic payload m = record m {
  client_published = (topic, payload) ∷ m.client_published;
}

-- "simulation/register"
abbrev pub registration_topic : List ℕ
registration_topic =
    115 ∷ 105 ∷ 109 ∷ 117 ∷ 108 ∷ 97 ∷ 116 ∷ 105 ∷ 111 ∷ 110 ∷ 47 ∷ 114 ∷ 101 ∷ 103 ∷ 105 ∷ 115
    ∷ 116 ∷ 101 ∷ 114 ∷ []

-- The events of the MQTT client that the handler knows.
pub data MqttEvent : Type 0 where
  event_connected event_disconnected : MqttEvent
  event_data : List ℕ → List ℕ → MqttEvent

unfoldable pub mqtt_event_handler : MqttEvent → Mqtt → Mqtt
unfolding publish_message offer
mqtt_event_handler event_connected m =
    publish_message registration_topic (m.render (register_doc m.node_id)) (record m {
      is_up = true;
      subscribed = topic_of m.node_id send_word ∷ topic_of m.node_id process_word ∷ m.subscribed;
    })
mqtt_event_handler event_disconnected m = record m { is_up = false }
mqtt_event_handler (event_data topic payload) m = record m {
  received =
      (offer mqtt_queue_length
        (record {
          topic = take (mqtt_topic_max_len - 1) topic;
          payload = take (mqtt_payload_max_len - 1) payload;
        })
        m.received).1;
}

-- A message for the node of the network handler. The result of the queue is only logged.
send_to_mesh : Option (ℕ × List ℕ) → Mqtt → Mqtt
send_to_mesh none m = m
send_to_mesh (some (dest, text)) m = record m {
  node = (enqueue_message node_kind dest text 0 0 0 m.node).1;
}

-- `processMessage`; `allocated` is whether `enqueueRxPacket` gets memory.
unfoldable pub process_message : Bool → MqttMessage → Mqtt → Mqtt
unfolding send_to_mesh
process_message allocated msg m =
    if starts_with (topic_of m.node_id process_word) msg.topic
    then record m { radio = (enqueue_rx_packet allocated msg.payload m.radio).1 }
    else if starts_with (topic_of m.node_id send_word) msg.topic
    then send_to_mesh (m.parse msg.payload) m
    else m

-- A round of `receivedMQTTQueueTask`, and of `sendMQTTQueueTask`.
unfoldable pub received_mqtt_queue_task : Bool → Mqtt → Mqtt
unfolding receive
received_mqtt_queue_task allocated m = elim (receive m.received) [
  | none ↦ m
  | some (msg, rest) ↦ process_message allocated msg (record m { received = rest })
]

unfoldable pub send_mqtt_queue_task : Mqtt → Mqtt
unfolding receive publish_message
send_mqtt_queue_task m = elim (receive m.outgoing) [
  | none ↦ m
  | some (msg, rest) ↦
      publish_message (topic_of m.node_id command_word) msg.payload (record m { outgoing = rest })
]
