-- ===== src/Router/Send/Info.antt =====
-- src/aodvRouter.cpp: `sendBroadcastInfo`.
use eie4_mesh_network.Prelude.{
  List, [], drop, if◌then◌else◌, length, min, suc, take, zero, ℕ, ◌%◌, ◌++◌, ◌+◌, ◌-◌, ◌/◌, ◌==◌,
  ◌∷◌,
}
use eie4_mesh_network.Exec.{for_each, gets, ◌>>=◌}
use eie4_mesh_network.Packet.{BaseHeader, broadcast_addr, i_am_gateway, pkt_broadcast_info}
use eie4_mesh_network.Packet.Bytes.{bytes32}
use eie4_mesh_network.Packet.Serialise.{broadcast_info_header_bytes}
use eie4_mesh_network.Router.Send.{fresh_header}
use eie4_mesh_network.Router.State.{Method}
use eie4_mesh_network.Router.Transmit.{transmit_packet}
use eie4_mesh_network.Sessions.{get_and_clear_diff}

-- How many ids fit a packet, by the source's count, which leaves out the tag.
abbrev pub ids_per_pkt : ℕ
ids_per_pkt = (255 - 20 - 4) / 4

-- The loop of `sendBroadcastInfo`: the ids that each packet carries. A round takes an id at least.
unfoldable pub chunks : ℕ → List ℕ → List ℕ → List (List ℕ × List ℕ)
chunks zero added removed = []
chunks (suc fuel) added removed =
    let num_a = min ids_per_pkt (length added) in
    let num_r = min (ids_per_pkt - num_a) (length removed) in
    let rest = chunks fuel (drop num_a added) (drop num_r removed) in
    if length added + length removed == 0 then [] else (take num_a added, take num_r removed) ∷ rest

unfoldable pub ids_bytes : List ℕ → List ℕ
ids_bytes [] = []
ids_bytes (id ∷ ids) = bytes32 id ++ ids_bytes ids

unfoldable pub send_chunk : BaseHeader → List ℕ × List ℕ → Method (Unit {0})
send_chunk bh (added, removed) =
    transmit_packet bh
      (broadcast_info_header_bytes
        (record { num_added = length added % 65536; num_removed = length removed % 65536 }))
      (ids_bytes added ++ ids_bytes removed)

unfoldable pub take_diff : Method (List ℕ × List ℕ)
take_diff r = ((get_and_clear_diff r.usm).0, record r { usm = (get_and_clear_diff r.usm).1 })

unfoldable pub send_broadcast_info : Method (Unit {0})
send_broadcast_info = do
  me ← gets (λ r. r.my_node_id)
  fresh ← fresh_header broadcast_addr me pkt_broadcast_info
  is_gw ← gets (λ r. r.gateway_online)
  diff ← take_diff
  let bh = record fresh { flags = if is_gw then i_am_gateway else 0 }
  if length diff.0 + length diff.1 == 0
      then send_chunk bh ([], [])
      else for_each (chunks (length diff.0 + length diff.1) diff.0 diff.1) (send_chunk bh)
