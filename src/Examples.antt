-- ===== src/Examples.antt =====
-- Concrete nodes and packets at which the theorems are applied.
mod Receiving
mod Routing
mod Keeping
mod Users
mod Phones
mod Radios
mod Links
mod Delivering
-- A cipher that copies, with a tag of zeros.
use eie4_mesh_network.Prelude.{
  Bool, List, Map, [], arith, false, length-replicate, refl, replicate, true, ℕ, ◌++◌, ◌+◌, ◌∷◌,
}
use eie4_mesh_network.Crypto.{IsGcm, Mbedtls}
use eie4_mesh_network.Packet.{BaseHeader, UserMsgHeader, pkt_user_msg}
use eie4_mesh_network.Packet.RoundTrip.{BaseHeaderInRange}
use eie4_mesh_network.Packet.UserRoundTrip.{UserMsgHeaderInRange}
use eie4_mesh_network.Router.Receive.{RadioPacket}
use eie4_mesh_network.Router.State.{Env, RouteEntry, Router, absent}
use eie4_mesh_network.Router.Transmit.{is_connected}
use eie4_mesh_network.Sessions.{Sessions, UserInfo}

abbrev pub copying : Mbedtls
copying = record {
  gcm_setkey = λ key. 0;
  gcm_crypt_and_tag = λ key nonce aad plain n. (0, plain, replicate n 0);
  gcm_auth_decrypt = λ key nonce aad cipher tag. (0, cipher);
}

pub copying-IsGcm : IsGcm copying
copying-IsGcm = record {
  cipher_length = λ key nonce aad plain n. refl;
  tag_length = λ key nonce aad plain n. length-replicate n 0;
  decrypts = λ key nonce aad plain n e. refl;
}

abbrev pub quiet_env : Env
quiet_env = record {
  lib = copying;
  random = λ n. 1000 + n;
  accepts = λ n. true;
  allocates = λ n. true;
  padding = 0;
  tick_rate = 1000;
}

-- A node with a number, routes and a session manager.
abbrev pub node : ℕ → Map RouteEntry → Sessions → Router
node id routes sessions = record {
  env = quiet_env;
  my_node_id = id;
  mqtt = absent;
  gateway_online = false;
  now = 5000;
  route_table = routes;
  data_buffer = [];
  user_msg_buffer = [];
  user_route_buffer = [];
  move_req_buffer = [];
  received_packet_ids = [];
  discovered_nodes = [];
  ack_buffer = [];
  gut = [];
  gateways = [];
  closest_gw = 0;
  closest_hops = 0xff;
  user_keys = [];
  usm = sessions;
  randoms = 0;
  attempts = 0;
  allocations = 0;
  transmitted = [];
  published = [];
  notices = [];
  gateway_states = [];
  uplinks = [];
  faulted = false;
}

abbrev pub user_info : ℕ → Bool → UserInfo
user_info user up = record {
  user_id = user;
  ble_conn_handle = 1;
  is_connected = up;
  last_seen = 10;
  inbox = [];
}

-- A session manager that knows user 70, who is online or not.
abbrev pub with_user : Bool → Sessions
with_user up = record {
  users = (70, user_info 70 up) ∷ [];
  diff_added = [];
  diff_removed = [];
  has_mqtt = false;
  announced = [];
}

abbrev pub alice : Router
alice = node 1 ((2, record { next_hop = 2; hopcount = 1 }) ∷ []) (with_user false)

abbrev pub bob : Router
bob = node 2 ((1, record { next_hop = 1; hopcount = 1 }) ∷ []) (with_user true)

-- A user message from node 1 to node 2.
abbrev pub to_bob : BaseHeader
to_bob = record {
  dest_node_id = 2;
  prev_hop_id = 1;
  origin_node_id = 1;
  packet_id = 77;
  packet_type = pkt_user_msg;
  flags = 0;
  hop_count = 0;
  reserved = 0;
}

abbrev pub to_user : UserMsgHeader
to_user = record { from_user_id = 60; to_user_id = 70; to_node_id = 2 }

abbrev pub hello : List ℕ
hello = 104 ∷ 105 ∷ []

pub to_bob-InRange : BaseHeaderInRange to_bob
to_bob-InRange = record {
  dest_node_id = omega arith;
  prev_hop_id = omega arith;
  origin_node_id = omega arith;
  packet_id = omega arith;
  packet_type = omega arith;
  flags = omega arith;
  hop_count = omega arith;
  reserved = omega arith;
}

pub to_user-InRange : UserMsgHeaderInRange to_user
to_user-InRange = record {
  from_user_id = omega arith;
  to_user_id = omega arith;
  to_node_id = omega arith;
}

abbrev pub user_bytes : List ℕ
user_bytes = 60 ∷ 0 ∷ 0 ∷ 0 ∷ 70 ∷ 0 ∷ 0 ∷ 0 ∷ 2 ∷ 0 ∷ 0 ∷ 0 ∷ []

-- The same packet in plain, as the radio's buffer holds it.
abbrev pub plain_packet : RadioPacket
plain_packet = record {
  bytes =
      2 ∷ 0 ∷ 0 ∷ 0 ∷ 1 ∷ 0 ∷ 0 ∷ 0 ∷ 1 ∷ 0 ∷ 0 ∷ 0 ∷ 77 ∷ 0 ∷ 0 ∷ 0 ∷ pkt_user_msg ∷ 0 ∷ 0 ∷ 0
        ∷ user_bytes
      ++ hello;
  len = 34;
}
