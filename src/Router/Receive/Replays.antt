-- ===== src/Router/Receive/Replays.antt =====
-- src/aodvRouter.cpp: a packet that comes again.
use eie4_mesh_network.Prelude.{List, [], lookup, none, refl, some, ◌∙◌, ◌∷◌, ◌≡◌}
use eie4_mesh_network.Crypto.{IsGcm}
use eie4_mesh_network.Packet.{BaseHeader}
use eie4_mesh_network.Router.Gateways.Closest.{gateway-cases}
use eie4_mesh_network.Router.Invariant.{Invariant}
use eie4_mesh_network.Router.Keeping.Instances.{
  enqueue_keeps, handle_all, handle_all-Remembers, publish_keeps,
}
use eie4_mesh_network.Router.Keeping.Receive.{Keeps-handle_packet}
use eie4_mesh_network.Router.Receive.{RadioPacket, decrypt_packet, handle_packet, open_packet}
use eie4_mesh_network.Router.Receive.Duplicates.{handle_packet-Remembers, handle_packet_duplicate}
use eie4_mesh_network.Router.State.{
  Env, Router, fault, malloc, next_random, notify, set_gateway_state, uplink,
}

-- The library and the streams of results never change, and stay GCM.
abbrev HasEnv : Env → Router → Type 0
HasEnv e r = IsGcm r.env.lib × (r.env ≡ e)

HasEnv-Invariant : (e : Env) → Invariant (HasEnv e)
unfolding fault next_random malloc notify set_gateway_state uplink
HasEnv-Invariant e = record {
  gcm = λ r h. h.0;
  faults = λ r h. h;
  draws = λ r h. h;
  allocates = λ r h. h;
  enqueues = λ bytes r l h. enqueue_keeps (HasEnv e) bytes r h h;
  publishes = λ p r h. publish_keeps (HasEnv e) p r h h;
  notifies = λ o r h. h;
  tells_state = λ b r h. h;
  uplinks = λ u r h. h;
  routes = λ m r h. h;
  data_buffers = λ m r h. h;
  user_msg_buffers = λ m r h. h;
  user_route_buffers = λ m r h. h;
  move_req_buffers = λ m r h. h;
  remembers = λ id r h. h;
  discovers = λ ns r h. h;
  guts = λ m r h. h;
  keys = λ m r h. h;
  sessions = λ s r h. h;
  adds_gateway = λ node r h. (gateway-cases (HasEnv e) r (λ gs gw hops. h) node).0;
  removes_gateway = λ node r h. (gateway-cases (HasEnv e) r (λ gs gw hops. h) node).1;
  stores_ack = λ id hop bytes r l h. h;
  erases_ack = λ id r h. h;
}

handle_all-HasEnv :
    (e : Env) (ps : List RadioPacket) (r : Router) → HasEnv e r → HasEnv e (handle_all ps r)
handle_all-HasEnv e [] r h = h
handle_all-HasEnv e (p ∷ ps) r h =
    handle_all-HasEnv e ps (handle_packet p r).1
      ((Keeps-handle_packet (HasEnv-Invariant e) p).at r h)

-- What a packet opens to is up to the library.
open_packet-env :
    (p : RadioPacket) (r s : Router) → r.env ≡ s.env → open_packet p r ≡ open_packet p s
unfolding open_packet decrypt_packet
open_packet-env p r s e = rw e refl

-- Whatever packets a node gets after a packet that it opened, and for whose id no ACK was pending:
-- when the same packet comes again, and no ACK is pending for its id then, nothing at all changes.
-- The library does what GCM promises.
pub handle_packet_again :
    (p q : RadioPacket) (bh : BaseHeader) (ps : List RadioPacket) (r : Router)
    → IsGcm r.env.lib
    → open_packet p r ≡ some (bh, q)
    → lookup bh.packet_id r.ack_buffer ≡ none
    → lookup bh.packet_id (handle_all ps (handle_packet p r).1).ack_buffer ≡ none
    → handle_packet p (handle_all ps (handle_packet p r).1)
      ≡ (tt, handle_all ps (handle_packet p r).1)
handle_packet_again p q bh ps r g o a a' =
    let after = handle_all ps (handle_packet p r).1 in
    let kept = handle_all-HasEnv r.env (p ∷ ps) r (g, refl) in
    let knows = handle_packet-Remembers p q bh r g o a in
    let first = (Keeps-handle_packet (HasEnv-Invariant r.env) p).at r (g, refl) in
    handle_packet_duplicate p q bh after (open_packet-env p after r kept.1 ∙ o) a'
      ((handle_all-Remembers bh.packet_id ps (handle_packet p r).1 (first.0, knows)).1)
