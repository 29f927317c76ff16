-- ===== src/Router/Table.antt =====
-- src/aodvRouter.cpp: the routing table.
pub mod Routes
pub mod Invalidate
use eie4_mesh_network.Prelude.{
  Bool, List, Map, Option, [], add, erase, false, if◌then◌else◌, insert, lookup, ltb, none, some,
  true, ℕ, ◌==◌, ◌∷◌,
}
use eie4_mesh_network.Exec.{for_each, gets, match_option, modify, skip, ◌>>=◌, ◌>>◌}
use eie4_mesh_network.Router.State.{Method, RouteEntry, invalidate_route, publish, update_route}

unfoldable pub get_route : ℕ → Method (Option RouteEntry)
get_route dest r = (lookup dest r.route_table, r)

unfoldable pub has_route : ℕ → Method Bool
has_route dest r = (elim (lookup dest r.route_table) [ none ↦ false | some re ↦ true ], r)

-- The entry is written and published.
unfoldable pub set_route : ℕ → ℕ → ℕ → Method (Unit {0})
set_route dest next_hop hop_count = do
  modify (λ r. record r {
    route_table = insert dest (record { next_hop = next_hop; hopcount = hop_count }) r.route_table;
  })
  publish (update_route dest next_hop hop_count)

-- A new destination is entered; a known one is changed only if the new route is shorter.
unfoldable pub update_route_entry : ℕ → ℕ → ℕ → Method (Unit {0})
update_route_entry dest next_hop hop_count = do
  o ← get_route dest
  match_option o (set_route dest next_hop hop_count)
      (λ re. if ltb hop_count re.hopcount then set_route dest next_hop hop_count else skip)

-- The loop of `invalidateRoute`: the entries that stay, and the destinations of the others.
unfoldable pub keep_routes : ℕ → Map RouteEntry → Map RouteEntry
keep_routes broken [] = []
keep_routes broken ((k, re) ∷ m) =
    let rest = keep_routes broken m in if re.next_hop == broken then rest else (k, re) ∷ rest

unfoldable pub dests_via : ℕ → Map RouteEntry → List ℕ
dests_via broken [] = []
dests_via broken ((k, re) ∷ m) =
    let rest = dests_via broken m in if re.next_hop == broken then add k rest else rest

unfoldable pub invalidate_route_entry : ℕ → ℕ → Method (Unit {0})
invalidate_route_entry broken final_dest = do
  kept ← gets (λ r. erase final_dest (erase broken r.route_table))
  modify (λ r. record r { route_table = keep_routes broken kept })
  for_each (add broken (add final_dest (dests_via broken kept)))
      (λ dest. publish (invalidate_route dest))

unfoldable pub remove_item_routing_table : ℕ → Method (Unit {0})
remove_item_routing_table dest = modify (λ r. record r { route_table = erase dest r.route_table })
