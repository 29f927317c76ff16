-- ===== src/Examples/Routing.antt =====
-- The theorems on routes, gateways and broadcasts, at concrete nodes.
use eie4_mesh_network.Prelude.{
  All, AllEntries, Map, [], arith, contains, false, lookup, refl, replicate, some, ℕ, ◌++◌, ◌<◌,
  ◌∷◌, ◌≡◌, ◌≤◌, ◌⊎◌,
}
use eie4_mesh_network.Examples.{alice, bob, node, to_bob, with_user}
use eie4_mesh_network.Router.Gateways.{recompute_closest_gateway}
use eie4_mesh_network.Router.Gateways.Closest.{IsClosest, recompute_closest_gateway-IsClosest}
use eie4_mesh_network.Router.Handle.Info.{note_users}
use eie4_mesh_network.Router.Handle.Info.Gut.{lookup-note_users}
use eie4_mesh_network.Router.Send.Chunks.{
  added_of, chunks_lem, removed_of, send_chunk_oversize, sent_ids, size,
}
use eie4_mesh_network.Router.Send.Info.{chunks, ids_bytes, ids_per_pkt, send_chunk}
use eie4_mesh_network.Router.State.{RouteEntry, Router}
use eie4_mesh_network.Router.Table.{invalidate_route_entry}
use eie4_mesh_network.Router.Table.Invalidate.{
  Avoids, invalidate_route_entry-Avoids, invalidate_route_entry_keeps,
}
use eie4_mesh_network.Router.Table.Routes.{Among, update_all, update_all_lem}

-- Node 5 hears of node 9 by three ways.
update_all_lem_example :
    (re : RouteEntry) × (lookup 9 (update_all 9 ((2, 4) ∷ (3, 2) ∷ (4, 3) ∷ []) alice).1.route_table
      ≡ some re)
    × eie4_mesh_network.Router.Table.Routes.Within re (lookup 9 alice.route_table)
    × All (λ (o : ℕ × ℕ). re.hopcount ≤ o.1) ((2, 4) ∷ (3, 2) ∷ (4, 3) ∷ [])
    × ((lookup 9 alice.route_table ≡ some re) ⊎ Among re ((2, 4) ∷ (3, 2) ∷ (4, 3) ∷ []))
update_all_lem_example = update_all_lem 9 (2, 4) ((3, 2) ∷ (4, 3) ∷ []) alice

abbrev three_routes : Map RouteEntry
three_routes =
    (2, record { next_hop = 2; hopcount = 1 })
    ∷ (3, record { next_hop = 2; hopcount = 2 })
    ∷ (4, record { next_hop = 4; hopcount = 1 })
    ∷ []

abbrev carol : Router
carol = record (node 5 three_routes (with_user false)) { gateways = 3 ∷ 4 ∷ [] }

invalidate_route_entry-Avoids_example :
    AllEntries (Avoids 2 9) (invalidate_route_entry 2 9 carol).1.route_table
invalidate_route_entry-Avoids_example = invalidate_route_entry-Avoids 2 9 carol

invalidate_route_entry_keeps_example :
    lookup 4 (invalidate_route_entry 2 9 carol).1.route_table
    ≡ some (record { next_hop = 4; hopcount = 1 })
unfolding lookup
invalidate_route_entry_keeps_example =
    invalidate_route_entry_keeps 2 9 carol 4 (record { next_hop = 4; hopcount = 1 }) refl
      (omega arith) (omega arith) (omega arith)

recompute_closest_gateway-IsClosest_example :
    IsClosest
      (recompute_closest_gateway carol).1.route_table
      (0, 0xff)
      (recompute_closest_gateway carol).1.gateways
      (
        (recompute_closest_gateway carol).1.closest_gw,
        (recompute_closest_gateway carol).1.closest_hops,
      )
recompute_closest_gateway-IsClosest_example = recompute_closest_gateway-IsClosest carol

-- A node whose two users came and whose one user left.
lookup-note_users_example :
    lookup 80
      (note_users 1
        (record { num_added = 2; num_removed = 1 })
        (2 ∷ 0 ∷ 1 ∷ 0 ∷ ids_bytes (80 ∷ 81 ∷ []) ++ (ids_bytes (82 ∷ []) ++ (7 ∷ [])))
        16
        bob).1.gut
    ≡ some (record { node_id = 1; seq = 0; ts = 0 })
unfolding ids_bytes contains
lookup-note_users_example =
    lookup-note_users 1 16 80 (80 ∷ 81 ∷ []) (82 ∷ [])
      (2 ∷ 0 ∷ 1 ∷ 0 ∷ ids_bytes (80 ∷ 81 ∷ []) ++ (ids_bytes (82 ∷ []) ++ (7 ∷ []))) (7 ∷ []) bob
      (omega arith, (omega arith, tt)) (omega arith, tt) refl (omega arith)

chunks_lem_example :
    (added_of (chunks 3 (80 ∷ 81 ∷ []) (82 ∷ [])) ≡ 80 ∷ 81 ∷ [])
    × (removed_of (chunks 3 (80 ∷ 81 ∷ []) (82 ∷ [])) ≡ 82 ∷ [])
    × (sent_ids (chunks 3 (80 ∷ 81 ∷ []) (82 ∷ [])) ≡ 80 ∷ 81 ∷ 82 ∷ [])
    × All (λ c. (0 < size c) × (size c ≤ ids_per_pkt)) (chunks 3 (80 ∷ 81 ∷ []) (82 ∷ []))
chunks_lem_example = chunks_lem 3 (80 ∷ 81 ∷ []) (82 ∷ []) (omega arith)

send_chunk_oversize_example :
    (send_chunk to_bob (replicate 56 80, []) alice).1.transmitted ≡ alice.transmitted
send_chunk_oversize_example = send_chunk_oversize to_bob (replicate 56 80, []) alice (omega arith)
