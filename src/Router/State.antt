-- ===== src/Router/State.antt =====
-- src/aodvRouter.h: the state of the router, and the calls that it makes to its surroundings.
-- Random numbers, free memory and the room in the radio's queue are streams of the environment, of
-- which the state counts what was read. A handler runs as one step.
use eie4_mesh_network.Prelude.{Bool, List, Map, false, if◌then◌else◌, true, ℕ, ◌%◌, ◌+◌, ◌∷◌}
use eie4_mesh_network.Client.{Outgoing}
use eie4_mesh_network.Crypto.{Mbedtls}
use eie4_mesh_network.Exec.{Exec}
use eie4_mesh_network.Packet.{MoveUserReqHeader}
use eie4_mesh_network.Sessions.{Sessions}

pub record RouteEntry : Type 0 where
  pub next_hop : ℕ
  pub hopcount : ℕ

pub record DataBufferEntry : Type 0 where
  pub packet_id : ℕ
  pub bytes : List ℕ

pub record UserMessageBufferEntry : Type 0 where
  pub packet_id : ℕ
  pub sender_id : ℕ
  pub message : List ℕ

pub record PendingUserRouteEntry : Type 0 where
  pub packet_id : ℕ
  pub sender_id : ℕ
  pub dest_user_id : ℕ
  pub message : List ℕ

pub record AckBufferEntry : Type 0 where
  pub packet : List ℕ
  pub expected_next_hop : ℕ
  pub timestamp : ℕ
  pub attempts : ℕ

pub record GutEntry : Type 0 where
  pub node_id : ℕ
  pub seq : ℕ
  pub ts : ℕ

-- Messages to the MQTT broker.
pub data Publication : Type 0 where
  update_route : ℕ → ℕ → ℕ → Publication
  invalidate_route : ℕ → Publication
  packet : ℕ → List ℕ → Publication

-- `_mqttManager` is a null pointer, or is not connected, or is.
pub data MqttLink : Type 0 where
  absent disconnected connected : MqttLink

pub record Uplink : Type 0 where
  pub from : ℕ
  pub to : ℕ
  pub body : List ℕ

-- `random` is `esp_random`, `accepts` the result of `enqueueTxPacket`, `allocates` whether
-- `pvPortMalloc` succeeds, each by the number of the call; `padding` is the byte that the compiler
-- puts behind `UREPHeader::numHops`, and `tick_rate` the ticks in a second.
pub record Env : Type 0 where
  pub lib : Mbedtls
  pub random : ℕ → ℕ
  pub accepts : ℕ → Bool
  pub allocates : ℕ → Bool
  pub padding : ℕ
  pub tick_rate : ℕ

-- The logs `transmitted`, `published`, `notices`, `gateway_states` and `uplinks` are newest first.
-- `faulted` is set where the source would read or write outside an object.
pub record Router : Type 0 where
  pub env : Env
  pub my_node_id : ℕ
  pub mqtt : MqttLink
  pub gateway_online : Bool
  pub now : ℕ
  pub route_table : Map RouteEntry
  pub data_buffer : Map (List DataBufferEntry)
  pub user_msg_buffer : Map (List UserMessageBufferEntry)
  pub user_route_buffer : Map (List PendingUserRouteEntry)
  pub move_req_buffer : Map (List MoveUserReqHeader)
  pub received_packet_ids : List ℕ
  pub discovered_nodes : List ℕ
  pub ack_buffer : Map AckBufferEntry
  pub gut : Map GutEntry
  pub gateways : List ℕ
  pub closest_gw : ℕ
  pub closest_hops : ℕ
  pub user_keys : Map (List ℕ)
  pub usm : Sessions
  pub randoms : ℕ
  pub attempts : ℕ
  pub allocations : ℕ
  pub transmitted : List (List ℕ)
  pub published : List Publication
  pub notices : List Outgoing
  pub gateway_states : List Bool
  pub uplinks : List Uplink
  pub faulted : Bool

abbrev pub Method : Type 0 → Type 0
Method A = Exec Router A

-- A `uint8_t`.
abbrev pub u8 : ℕ → ℕ
u8 n = n % 256

unfoldable pub fault : Method (Unit {0})
fault r = (tt, record r { faulted = true })

unfoldable pub next_random : Method ℕ
next_random r = (r.env.random r.randoms % 4294967296, record r { randoms = r.randoms + 1 })

unfoldable pub malloc : Method Bool
malloc r = (r.env.allocates r.allocations, record r { allocations = r.allocations + 1 })

unfoldable pub enqueue_tx_packet : List ℕ → Method Bool
enqueue_tx_packet bytes r =
    if r.env.accepts r.attempts
    then (true, record r { attempts = r.attempts + 1; transmitted = bytes ∷ r.transmitted })
    else (false, record r { attempts = r.attempts + 1 })

-- `if (_mqttManager && _mqttManager->connected) …`
unfoldable pub publish : Publication → Method (Unit {0})
publish p r = elim r.mqtt [
  | connected ↦ (tt, record r { published = p ∷ r.published })
  | _ ↦ (tt, r)
]

unfoldable pub notify : Outgoing → Method (Unit {0})
notify o r = (tt, record r { notices = o ∷ r.notices })

unfoldable pub set_gateway_state : Bool → Method (Unit {0})
set_gateway_state b r = (tt, record r { gateway_states = b ∷ r.gateway_states })

unfoldable pub uplink : Uplink → Method (Unit {0})
uplink u r = (tt, record r { uplinks = u ∷ r.uplinks })

unfoldable pub change_sessions : (Sessions → Sessions) → Method (Unit {0})
change_sessions f r = (tt, record r { usm = f r.usm })
