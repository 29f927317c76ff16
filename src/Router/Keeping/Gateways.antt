-- ===== src/Router/Keeping/Gateways.antt =====
-- src/aodvRouter.cpp: the closest gateway and the packet handlers.
use eie4_mesh_network.Prelude.{contains, true, ◌≡◌, ◌⊎◌}
use eie4_mesh_network.Crypto.{IsGcm}
use eie4_mesh_network.Router.Gateways.Closest.{
  add_gateway-IsKnown, gateway-cases, remove_gateway-IsKnown,
}
use eie4_mesh_network.Router.Invariant.{Invariant}
use eie4_mesh_network.Router.Keeping.Instances.{enqueue_keeps, publish_keeps}
use eie4_mesh_network.Router.Keeping.Receive.{Keeps-handle_packet}
use eie4_mesh_network.Router.Receive.{RadioPacket, handle_packet}
use eie4_mesh_network.Router.State.{
  Router, fault, malloc, next_random, notify, set_gateway_state, uplink,
}

-- The library is GCM, and the stored gateway is unset or a known one.
abbrev pub HasKnownGateway : Router → Type 0
HasKnownGateway r =
    IsGcm r.env.lib × ((r.closest_gw ≡ 0) ⊎ (contains r.closest_gw r.gateways ≡ true))

HasKnownGateway-Invariant : Invariant HasKnownGateway
unfolding fault next_random malloc notify set_gateway_state uplink
HasKnownGateway-Invariant = record {
  gcm = λ r h. h.0;
  faults = λ r h. h;
  draws = λ r h. h;
  allocates = λ r h. h;
  enqueues = λ bytes r l h. enqueue_keeps HasKnownGateway bytes r h h;
  publishes = λ p r h. publish_keeps HasKnownGateway p r h h;
  notifies = λ o r h. h;
  tells_state = λ b r h. h;
  uplinks = λ u r h. h;
  routes = λ m r h. h;
  data_buffers = λ m r h. h;
  user_msg_buffers = λ m r h. h;
  user_route_buffers = λ m r h. h;
  move_req_buffers = λ m r h. h;
  remembers = λ id r h. h;
  discovers = λ ns r h. h;
  guts = λ m r h. h;
  keys = λ m r h. h;
  sessions = λ s r h. h;
  adds_gateway = λ node r h. (
    (gateway-cases (λ s. IsGcm s.env.lib) r (λ gs gw hops. h.0) node).0,
    (add_gateway-IsKnown node r (record { known = h.1 })).known,
  );
  removes_gateway = λ node r h. (
    (gateway-cases (λ s. IsGcm s.env.lib) r (λ gs gw hops. h.0) node).1,
    (remove_gateway-IsKnown node r (record { known = h.1 })).known,
  );
  stores_ack = λ id hop bytes r l h. h;
  erases_ack = λ id r h. h;
}

-- After any packet the node's closest gateway is unset or one of the gateways that it knows, if it
-- was so before: a gateway that is taken out of the set is not used any more. The library does what
-- GCM promises.
pub handle_packet-HasKnownGateway :
    (p : RadioPacket) (r : Router) → HasKnownGateway r → HasKnownGateway (handle_packet p r).1
handle_packet-HasKnownGateway p r h = (Keeps-handle_packet HasKnownGateway-Invariant p).at r h
