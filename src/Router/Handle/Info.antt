-- ===== src/Router/Handle/Info.antt =====
-- src/aodvRouter.cpp: the periodic broadcast of a node's users and gateway state.
pub mod Gut
pub mod Reports
use eie4_mesh_network.Prelude.{
  List, [], drop, false, if◌then◌else◌, leb, ltb, not, suc, take, true, zero, ℕ, ◌+◌, ◌-◌, ◌==◌,
  ◌∷◌,
}
use eie4_mesh_network.Exec.{for_each, gets, skip, when, ◌>>=◌, ◌>>◌}
use eie4_mesh_network.Packet.{BaseHeader, DiffBroadcastInfoHeader, i_am_gateway}
use eie4_mesh_network.Packet.Bytes.{read32}
use eie4_mesh_network.Packet.Serialise.{
  broadcast_info_header_bytes, deserialise_broadcast_info_header,
}
use eie4_mesh_network.Router.Buffers.{
  is_node_id_known, remove_gut_entry, save_node_id, update_gut_entry,
}
use eie4_mesh_network.Router.Gateways.{add_gateway, have_gateway, remove_gateway}
use eie4_mesh_network.Router.Handle.{forwarded}
use eie4_mesh_network.Router.State.{Method, set_gateway_state, u8}
use eie4_mesh_network.Router.Table.{update_route_entry}
use eie4_mesh_network.Router.Transmit.{transmit_packet}

abbrev pub max_hops : ℕ
max_hops = 5

-- A loop of `handleBroadcastInfo`: up to `count` ids from the offset on, while they are complete,
-- and the offset reached.
unfoldable pub read_ids : ℕ → ℕ → List ℕ → ℕ → List ℕ × ℕ
read_ids zero offset payload len = ([], offset)
read_ids (suc count) offset payload len = elim (ltb len (offset + 4)) [
  | true ↦ ([], offset)
  | false ↦
      let rest = read_ids count (offset + 4) payload len in
      (read32 (drop offset payload) 0 ∷ rest.0, rest.1)
]

unfoldable pub note_node : ℕ → Method (Unit {0})
note_node node = do known ← is_node_id_known node; when (not known) (save_node_id node)

-- The gateway state that a broadcast reports, and what the phones hear of it.
unfoldable pub note_gateway : BaseHeader → Method (Unit {0})
note_gateway base = do
  if base.flags == i_am_gateway
      then add_gateway base.origin_node_id
      else remove_gateway base.origin_node_id
  have ← have_gateway
  set_gateway_state have

unfoldable pub note_users : ℕ → DiffBroadcastInfoHeader → List ℕ → ℕ → Method (Unit {0})
note_users origin dh payload len = do
  let added = read_ids dh.num_added 4 payload len
  let removed = read_ids dh.num_removed added.1 payload len
  for_each added.0 (λ uid. update_gut_entry uid (record { node_id = origin; seq = 0; ts = 0 }))
  for_each removed.0 remove_gut_entry

unfoldable pub forward_info : BaseHeader → DiffBroadcastInfoHeader → List ℕ → ℕ → Method (Unit {0})
forward_info base dh payload len = do
  me ← gets (λ r. r.my_node_id)
  let fwd = forwarded base me base.dest_node_id
  if leb max_hops fwd.hop_count
      then skip
      else transmit_packet fwd (broadcast_info_header_bytes dh) (take (len - 4) (drop 4 payload))

unfoldable pub handle_broadcast_info : BaseHeader → List ℕ → ℕ → Method (Unit {0})
handle_broadcast_info base payload len = if ltb len 4 then skip else do
  let dh = (deserialise_broadcast_info_header payload 0).0
  note_node base.prev_hop_id
  note_node base.origin_node_id
  note_gateway base
  update_route_entry base.prev_hop_id base.prev_hop_id 1
  me ← gets (λ r. r.my_node_id)
  when (not (base.origin_node_id == me))
      (update_route_entry base.origin_node_id base.prev_hop_id (u8 (base.hop_count + 1)))
  note_users base.origin_node_id dh payload len
  forward_info base dh payload len
