-- ===== src/Router/Keeping/Instances.antt =====
-- src/aodvRouter.cpp: invariants of the router.
use eie4_mesh_network.Prelude.{
  All, AllEntries, AllEntries-erase, AllEntries-insert, List, [], arith, contains, contains-add,
  inl, inr, length, subst, sym, true, ℕ, ◌+◌, ◌∷◌, ◌≡◌, ◌≤◌, ◌⊎◌,
}
use eie4_mesh_network.Crypto.{IsGcm}
use eie4_mesh_network.Router.Gateways.Closest.{gateway-cases}
use eie4_mesh_network.Router.Invariant.{Invariant}
use eie4_mesh_network.Router.Keeping.Receive.{Keeps-handle_packet}
use eie4_mesh_network.Router.Receive.{RadioPacket, handle_packet}
use eie4_mesh_network.Router.State.{
  AckBufferEntry, Publication, Router, enqueue_tx_packet, fault, malloc, next_random, notify,
  publish, set_gateway_state, uplink,
}

publish-cases :
    (p : Publication) (r : Router)
    → ((publish p r).1 ≡ record r { published = p ∷ r.published }) ⊎ ((publish p r).1 ≡ r)
unfolding publish
publish-cases p r = ground arith

pub publish_keeps :
    (P : Router → Type 0) (p : Publication) (r : Router)
    → P r
    → P (record r { published = p ∷ r.published })
    → P (publish p r).1
publish_keeps P p r h k = elim (publish-cases p r) [
  | inl e ↦ subst P (sym e) k
  | inr e ↦ subst P (sym e) h
]

enqueue-cases :
    (bytes : List ℕ) (r : Router)
    → ((enqueue_tx_packet bytes r).1
        ≡ record r { attempts = r.attempts + 1; transmitted = bytes ∷ r.transmitted })
      ⊎ ((enqueue_tx_packet bytes r).1 ≡ record r { attempts = r.attempts + 1 })
unfolding enqueue_tx_packet
enqueue-cases bytes r = ground arith

pub enqueue_keeps :
    (P : Router → Type 0) (bytes : List ℕ) (r : Router)
    → P (record r { attempts = r.attempts + 1 })
    → P (record r { attempts = r.attempts + 1; transmitted = bytes ∷ r.transmitted })
    → P (enqueue_tx_packet bytes r).1
enqueue_keeps P bytes r h k = elim (enqueue-cases bytes r) [
  | inl e ↦ subst P (sym e) k
  | inr e ↦ subst P (sym e) h
]

-- The library is GCM, everything that was queued for the radio fits a packet, and so does every
-- packet that waits for its ACK, which was repeated three times at most.
abbrev pub IsSound : Router → Type 0
IsSound r =
    IsGcm r.env.lib
    × All (λ bytes. length bytes ≤ 255) r.transmitted
    × AllEntries (λ id ent. (length ent.packet ≤ 255) × (ent.attempts ≤ 3)) r.ack_buffer

abbrev SoundEntry : ℕ → AckBufferEntry → Type 0
SoundEntry id ent = (length ent.packet ≤ 255) × (ent.attempts ≤ 3)

pub IsSound-Invariant : Invariant IsSound
unfolding fault next_random malloc notify set_gateway_state uplink
IsSound-Invariant = record {
  gcm = λ r h. h.0;
  faults = λ r h. h;
  draws = λ r h. h;
  allocates = λ r h. h;
  enqueues = λ bytes r l h. enqueue_keeps IsSound bytes r h (h.0, (l, h.1), h.2);
  publishes = λ p r h. publish_keeps IsSound p r h h;
  notifies = λ o r h. h;
  tells_state = λ b r h. h;
  uplinks = λ u r h. h;
  routes = λ m r h. h;
  data_buffers = λ m r h. h;
  user_msg_buffers = λ m r h. h;
  user_route_buffers = λ m r h. h;
  move_req_buffers = λ m r h. h;
  remembers = λ id r h. h;
  discovers = λ ns r h. h;
  guts = λ m r h. h;
  keys = λ m r h. h;
  sessions = λ s r h. h;
  adds_gateway = λ node r h. (gateway-cases IsSound r (λ gs gw hops. h) node).0;
  removes_gateway = λ node r h. (gateway-cases IsSound r (λ gs gw hops. h) node).1;
  stores_ack = λ id hop bytes r l h.
      (h.0, h.1, AllEntries-insert SoundEntry id _ r.ack_buffer (l, omega arith) h.2);
  erases_ack = λ id r h. (h.0, h.1, AllEntries-erase SoundEntry id r.ack_buffer h.2);
}

-- `handlePacket` keeps, for every packet and every state of the node: what goes to the radio's
-- queue has 255 bytes at most, and so has every packet kept for its ACK, whose count of attempts
-- stays at 3 or below. The library does what GCM promises.
pub handle_packet-IsSound :
    (p : RadioPacket) (r : Router) → IsSound r → IsSound (handle_packet p r).1
handle_packet-IsSound p r h = (Keeps-handle_packet IsSound-Invariant p).at r h

-- The library is GCM, and the node has seen a packet with that id.
abbrev pub Remembers : ℕ → Router → Type 0
Remembers seen r = IsGcm r.env.lib × (contains seen r.received_packet_ids ≡ true)

pub Remembers-Invariant : (seen : ℕ) → Invariant (Remembers seen)
unfolding fault next_random malloc notify set_gateway_state uplink
Remembers-Invariant seen = record {
  gcm = λ r h. h.0;
  faults = λ r h. h;
  draws = λ r h. h;
  allocates = λ r h. h;
  enqueues = λ bytes r l h. enqueue_keeps (Remembers seen) bytes r h h;
  publishes = λ p r h. publish_keeps (Remembers seen) p r h h;
  notifies = λ o r h. h;
  tells_state = λ b r h. h;
  uplinks = λ u r h. h;
  routes = λ m r h. h;
  data_buffers = λ m r h. h;
  user_msg_buffers = λ m r h. h;
  user_route_buffers = λ m r h. h;
  move_req_buffers = λ m r h. h;
  remembers = λ id r h. (h.0, ground (arith, contains-add id seen r.received_packet_ids));
  discovers = λ ns r h. h;
  guts = λ m r h. h;
  keys = λ m r h. h;
  sessions = λ s r h. h;
  adds_gateway = λ node r h. (gateway-cases (Remembers seen) r (λ gs gw hops. h) node).0;
  removes_gateway = λ node r h. (gateway-cases (Remembers seen) r (λ gs gw hops. h) node).1;
  stores_ack = λ id hop bytes r l h. h;
  erases_ack = λ id r h. h;
}

abbrev pub handle_all : List RadioPacket → Router → Router
handle_all [] r = r
handle_all (p ∷ ps) r = handle_all ps (handle_packet p r).1

-- A node that has seen a packet id still knows it after any sequence of packets: no handler takes
-- an id out of the set. The library does what GCM promises.
pub handle_all-Remembers :
    (seen : ℕ) (ps : List RadioPacket) (r : Router)
    → Remembers seen r
    → Remembers seen (handle_all ps r)
handle_all-Remembers seen [] r h = h
handle_all-Remembers seen (p ∷ ps) r h =
    handle_all-Remembers seen ps (handle_packet p r).1
      ((Keeps-handle_packet (Remembers-Invariant seen) p).at r h)
