-- ===== src/Router/Table/Invalidate.antt =====
-- src/aodvRouter.cpp: the routes after `invalidateRoute`.
use eie4_mesh_network.Prelude.{
  AllEntries, Bool-cases, List, Map, [], arith, erase, inl, inr, lookup, lookup-erase, refl, some,
  ℕ, ◌==◌, ◌∙◌, ◌∷◌, ◌≡◌, ◌≢◌,
}
use eie4_mesh_network.Exec.{for_each, gets, methods, modify, ◌>>=◌}
use eie4_mesh_network.Router.State.{Publication, RouteEntry, Router, invalidate_route, publish}
use eie4_mesh_network.Router.Table.{invalidate_route_entry, keep_routes}

AllEntries-keep_routes :
    (P : ℕ → RouteEntry → Type 0) (broken : ℕ) (m : Map RouteEntry)
    → AllEntries P m
    → AllEntries (λ k re. P k re × (re.next_hop ≢ broken)) (keep_routes broken m)
unfolding keep_routes
AllEntries-keep_routes P broken [] h = tt
AllEntries-keep_routes P broken ((k, re) ∷ m) h = elim (Bool-cases (re.next_hop == broken)) [
  | inl e ↦ rw e (AllEntries-keep_routes P broken m h.1)
  | inr e ↦ rw e ((h.0, λ p. ground arith), AllEntries-keep_routes P broken m h.1)
]

AllEntries-erase_ne :
    (P : ℕ → RouteEntry → Type 0) (k : ℕ) (m : Map RouteEntry)
    → AllEntries P m
    → AllEntries (λ j v. P j v × (j ≢ k)) (erase k m)
unfolding erase
AllEntries-erase_ne P k [] h = tt
AllEntries-erase_ne P k ((j, v) ∷ m) h = elim (Bool-cases (j == k)) [
  | inl e ↦ rw e (AllEntries-erase_ne P k m h.1)
  | inr e ↦ rw e ((h.0, λ p. ground arith), AllEntries-erase_ne P k m h.1)
]

AllEntries-imp :
    (P Q : ℕ → RouteEntry → Type 0) (m : Map RouteEntry)
    → ((k : ℕ) (re : RouteEntry) → P k re → Q k re)
    → AllEntries P m
    → AllEntries Q m
AllEntries-imp P Q [] f h = tt
AllEntries-imp P Q ((k, re) ∷ m) f h = (f k re h.0, AllEntries-imp P Q m f h.1)

AllEntries-any : (m : Map RouteEntry) → AllEntries (λ k re. Unit {0}) m
AllEntries-any [] = tt
AllEntries-any ((k, re) ∷ m) = (tt, AllEntries-any m)

lookup-keep_routes :
    (broken e : ℕ) (re : RouteEntry) (m : Map RouteEntry)
    → lookup e m ≡ some re
    → re.next_hop ≢ broken
    → lookup e (keep_routes broken m) ≡ some re
unfolding lookup keep_routes
lookup-keep_routes broken e re [] h n = h
lookup-keep_routes broken e re ((k, x) ∷ m) h n = ground (arith, lookup-keep_routes broken e re m)

pub route_table-publish :
    (p : Publication) (r : Router) → (publish p r).1.route_table ≡ r.route_table
unfolding publish
route_table-publish p r = ground arith

route_table-publish_each :
    (ds : List ℕ) (r : Router)
    → (for_each ds (λ d. publish (invalidate_route d)) r).1.route_table ≡ r.route_table
unfolding methods
route_table-publish_each [] r = refl
route_table-publish_each (d ∷ ds) r =
    route_table-publish_each ds (publish (invalidate_route d) r).1
    ∙ route_table-publish (invalidate_route d) r

invalidate_table :
    (broken final_dest : ℕ) (r : Router)
    → (invalidate_route_entry broken final_dest r).1.route_table
      ≡ keep_routes broken (erase final_dest (erase broken r.route_table))
unfolding invalidate_route_entry ◌>>=◌ gets modify
invalidate_table broken final_dest r = route_table-publish_each _ _

-- A route that has nothing to do with two nodes of which the first is broken.
abbrev pub Avoids : ℕ → ℕ → ℕ → RouteEntry → Type 0
Avoids broken final_dest dest re = (dest ≢ broken) × (dest ≢ final_dest) × (re.next_hop ≢ broken)

Avoids-table :
    (broken final_dest : ℕ) (m : Map RouteEntry)
    → AllEntries (Avoids broken final_dest) (keep_routes broken (erase final_dest (erase broken m)))
Avoids-table broken final_dest m =
    AllEntries-imp (λ k re. ((Unit {0} × (k ≢ broken)) × (k ≢ final_dest)) × (re.next_hop ≢ broken))
      (Avoids broken final_dest) (keep_routes broken (erase final_dest (erase broken m)))
      (λ k re h. (h.0.0.1, h.0.1, h.1))
      (AllEntries-keep_routes (λ k re. (Unit {0} × (k ≢ broken)) × (k ≢ final_dest)) broken
        (erase final_dest (erase broken m))
        (AllEntries-erase_ne (λ k re. Unit {0} × (k ≢ broken)) final_dest (erase broken m)
          (AllEntries-erase_ne (λ k re. Unit {0}) broken m (AllEntries-any m))))

-- After `invalidateRoute` no entry of the table is for the broken node or for the final
-- destination, and none goes through the broken node.
pub invalidate_route_entry-Avoids :
    (broken final_dest : ℕ) (r : Router)
    → AllEntries
        (Avoids broken final_dest)
        (invalidate_route_entry broken final_dest r).1.route_table
invalidate_route_entry-Avoids broken final_dest r =
    rw (invalidate_table broken final_dest r) (Avoids-table broken final_dest r.route_table)

-- A route that is neither to the broken node nor to the final destination, and does not go through
-- the broken node, is found as before after `invalidateRoute`.
pub invalidate_route_entry_keeps :
    (broken final_dest : ℕ) (r : Router) (dest : ℕ) (re : RouteEntry)
    → lookup dest r.route_table ≡ some re
    → dest ≢ broken
    → dest ≢ final_dest
    → re.next_hop ≢ broken
    → lookup dest (invalidate_route_entry broken final_dest r).1.route_table ≡ some re
invalidate_route_entry_keeps broken final_dest r dest re h nb nf nh =
    rw (invalidate_table broken final_dest r) (
      lookup-keep_routes broken dest re (erase final_dest (erase broken r.route_table))
        (ground (
          arith,
          lookup-erase final_dest dest (erase broken r.route_table),
          lookup-erase broken dest r.route_table,
        ))
        nh)
