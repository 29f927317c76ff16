-- ===== src/Router/Gateways.antt =====
-- src/aodvRouter.h and .cpp: the known gateways and the closest of them. The source iterates over
-- an unordered set; the list of the model stands for one such order.
pub mod Closest
use eie4_mesh_network.Prelude.{
  Bool, List, Map, [], add, contains, discard, false, if◌then◌else◌, lookup, ltb, none, some, true,
  ℕ, ◌&&◌, ◌==◌, ◌∷◌,
}
use eie4_mesh_network.Router.State.{Method, RouteEntry, Router}

-- The loop of `recomputeClosestGateway`, from the best so far.
unfoldable pub closest_from : Map RouteEntry → ℕ → ℕ → List ℕ → ℕ × ℕ
closest_from routes best_gw best_hops [] = (best_gw, best_hops)
closest_from routes best_gw best_hops (gw ∷ rest) = elim (lookup gw routes) [
  | none ↦ closest_from routes best_gw best_hops rest
  | some re ↦
      let closer = ltb re.hopcount best_hops in
      closest_from routes (if closer then gw else best_gw)
        (if closer then re.hopcount else best_hops) rest
]

recompute : Router → Router
unfolding closest_from
recompute r =
    let (gw, hops) = closest_from r.route_table 0 0xff r.gateways in
    record r { closest_gw = gw; closest_hops = hops }

unfoldable pub recompute_closest_gateway : Method (Unit {0})
unfolding recompute
recompute_closest_gateway r = (tt, recompute r)

unfoldable pub add_gateway : ℕ → Method (Unit {0})
unfolding recompute
add_gateway node r =
    if contains node r.gateways
    then (tt, r)
    else (tt, recompute (record r { gateways = add node r.gateways }))

unfoldable pub remove_gateway : ℕ → Method (Unit {0})
unfolding recompute
remove_gateway node r =
    let erased = record r { gateways = discard node r.gateways } in
    if contains node r.gateways && node == r.closest_gw
    then (tt, recompute erased)
    else (tt, erased)

unfoldable pub have_gateway : Method Bool
have_gateway r = (elim r.gateways [ [] ↦ false | g ∷ gs ↦ true ], r)

unfoldable pub is_gateway : ℕ → Method Bool
is_gateway node r = (contains node r.gateways, r)
