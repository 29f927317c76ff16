-- ===== src/Router/Receive/Duplicates.antt =====
-- src/aodvRouter.cpp: duplicates, and packets for other nodes, in `handlePacket`.
use eie4_mesh_network.Prelude.{
  ==_ne, ==_refl, Bool-cases, add, arith, contains, contains-add, false, inl, inr, lookup, none,
  refl, some, true, ◌==◌, ◌≡◌, ◌≢◌, ◌⊎◌,
}
use eie4_mesh_network.Crypto.{IsGcm}
use eie4_mesh_network.Exec.{methods}
use eie4_mesh_network.Packet.{BaseHeader, broadcast_addr}
use eie4_mesh_network.Router.Acks.{try_implicit_ack}
use eie4_mesh_network.Router.Buffers.{is_duplicate_packet_id, store_packet_id}
use eie4_mesh_network.Router.Keeping.Instances.{Remembers, Remembers-Invariant}
use eie4_mesh_network.Router.Keeping.Receive.{Keeps-dispatch_if}
use eie4_mesh_network.Router.Receive.{RadioPacket, accept, handle_packet, open_packet, process}
use eie4_mesh_network.Router.State.{Router}

-- A packet that opens to a header with an id that the node has seen, and for which no ACK is
-- pending, changes nothing at all.
pub handle_packet_duplicate :
    (p q : RadioPacket) (bh : BaseHeader) (r : Router)
    → open_packet p r ≡ some (bh, q)
    → lookup bh.packet_id r.ack_buffer ≡ none
    → contains bh.packet_id r.received_packet_ids ≡ true
    → handle_packet p r ≡ (tt, r)
unfolding handle_packet process try_implicit_ack is_duplicate_packet_id methods
handle_packet_duplicate p q bh r o a d = rw (o, methods) (rw (a, methods) (rw d refl))

-- A packet whose id is new, for which no ACK is pending, and which is for another node, or which
-- this node itself sent last, only adds its id to those that were seen.
pub handle_packet_elsewhere :
    (p q : RadioPacket) (bh : BaseHeader) (r : Router)
    → open_packet p r ≡ some (bh, q)
    → lookup bh.packet_id r.ack_buffer ≡ none
    → contains bh.packet_id r.received_packet_ids ≡ false
    → (bh.prev_hop_id ≡ r.my_node_id)
      ⊎ ((bh.dest_node_id ≢ broadcast_addr) × (bh.dest_node_id ≢ r.my_node_id))
    → handle_packet p r
      ≡ (tt, record r { received_packet_ids = add bh.packet_id r.received_packet_ids })
unfolding handle_packet process accept try_implicit_ack is_duplicate_packet_id store_packet_id
    methods
handle_packet_elsewhere p q bh r o a d (inl own) =
    rw (o, methods) (rw (a, methods) (rw (d, own) (rw (==_refl r.my_node_id) refl)))
handle_packet_elsewhere p q bh r o a d (inr (nb, nm)) =
    rw (o, methods)
      (rw (a, methods)
        (rw (d, ==_ne bh.dest_node_id broadcast_addr nb, ==_ne bh.dest_node_id r.my_node_id nm)
          (elim (Bool-cases (bh.prev_hop_id == r.my_node_id)) [
            | inl e ↦ rw e refl
            | inr e ↦ rw e refl
          ])))

module _ (bh : BaseHeader) (p : RadioPacket) (r : Router) where
  accept-Remembers : IsGcm r.env.lib → Remembers bh.packet_id (accept bh p r).1
  unfolding accept store_packet_id methods
  accept-Remembers g =
      (Keeps-dispatch_if (Remembers-Invariant bh.packet_id) bh p).at
        (record r { received_packet_ids = add bh.packet_id r.received_packet_ids })
        (g, ground (arith, contains-add bh.packet_id bh.packet_id r.received_packet_ids))

  process-Remembers :
      IsGcm r.env.lib
      → lookup bh.packet_id r.ack_buffer ≡ none
      → Remembers bh.packet_id (process bh p r).1
  unfolding process try_implicit_ack is_duplicate_packet_id methods
  process-Remembers g a =
      rw (a, methods)
        (elim (Bool-cases (contains bh.packet_id r.received_packet_ids)) [
          | inl e ↦ rw e (g, e)
          | inr e ↦ rw e (accept-Remembers g)
        ])

-- A packet that opens to a header for whose id no ACK is pending: the node knows the id afterwards,
-- whatever the handlers do. The library does what GCM promises.
pub handle_packet-Remembers :
    (p q : RadioPacket) (bh : BaseHeader) (r : Router)
    → IsGcm r.env.lib
    → open_packet p r ≡ some (bh, q)
    → lookup bh.packet_id r.ack_buffer ≡ none
    → contains bh.packet_id (handle_packet p r).1.received_packet_ids ≡ true
unfolding handle_packet methods
handle_packet-Remembers p q bh r g o a = rw (o, methods) ((process-Remembers bh q r g a).1)
