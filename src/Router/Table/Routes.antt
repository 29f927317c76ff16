-- ===== src/Router/Table/Routes.antt =====
-- src/aodvRouter.cpp: offers of routes to the table.
use eie4_mesh_network.Router.Table.Invalidate.{route_table-publish}
use eie4_mesh_network.Prelude.{
  ==_refl, All, Bool-cases, List, Option, Option-cases, [], ap, arith, if◌then◌else◌, inl, inr,
  insert, lookup, lookup-insert, ltb, none, refl, some, sym, ℕ, ◌==◌, ◌∙◌, ◌∷◌, ◌≡◌, ◌≤◌, ◌⊎◌,
}
use eie4_mesh_network.Exec.{for_each, match_option, methods}
use eie4_mesh_network.Router.State.{Method, RouteEntry, Router}
use eie4_mesh_network.Router.Table.{get_route, set_route, update_route_entry}

-- The entry that one offer leads to.
best_route : Option RouteEntry → ℕ → ℕ → RouteEntry
best_route none next_hop hops = record { next_hop = next_hop; hopcount = hops }
best_route (some re) next_hop hops =
    if ltb hops re.hopcount then record { next_hop = next_hop; hopcount = hops } else re

set_table :
    (dest next_hop hops : ℕ) (r : Router)
    → (set_route dest next_hop hops r).1.route_table
      ≡ insert dest (record { next_hop = next_hop; hopcount = hops }) r.route_table
unfolding set_route methods
set_table dest next_hop hops r = route_table-publish _ _

lookup-update_route_entry :
    (dest next_hop hops e : ℕ) (r : Router)
    → lookup e (update_route_entry dest next_hop hops r).1.route_table ≡ (
        if dest == e
        then some (best_route (lookup dest r.route_table) next_hop hops)
        else lookup e r.route_table)
unfolding update_route_entry methods get_route best_route
lookup-update_route_entry dest next_hop hops e r = elim (Option-cases (lookup dest r.route_table)) [
  | inl h ↦
      rw (h, match_option)
        (ground (
          arith,
          set_table dest next_hop hops r,
          lookup-insert dest e (record { next_hop = next_hop; hopcount = hops }) r.route_table,
        ))
  | inr (re, h) ↦ ground (
    arith,
    set_table dest next_hop hops r,
    lookup-insert dest e (record { next_hop = next_hop; hopcount = hops }) r.route_table,
  )
]

-- Offers of routes to one destination, each a next hop and a hop count, in the order of arrival.
unfoldable pub update_all : ℕ → List (ℕ × ℕ) → Method (Unit {0})
update_all dest offers = for_each offers (λ o. update_route_entry dest o.0 o.1)

-- The entry is one of the offers.
abbrev pub Among : RouteEntry → List (ℕ × ℕ) → Type 0
Among re [] = ⊥
Among re ((next_hop, hops) ∷ offers) =
    (re ≡ record { next_hop = next_hop; hopcount = hops }) ⊎ Among re offers

best_route_le :
    (re : RouteEntry) (next_hop hops : ℕ)
    → ((best_route (some re) next_hop hops).hopcount ≤ re.hopcount)
      × ((best_route (some re) next_hop hops).hopcount ≤ hops)
unfolding best_route
best_route_le re next_hop hops = ground arith

best_route_cases :
    (re : RouteEntry) (next_hop hops : ℕ)
    → (best_route (some re) next_hop hops ≡ re)
      ⊎ (best_route (some re) next_hop hops ≡ record { next_hop = next_hop; hopcount = hops })
unfolding best_route
best_route_cases re next_hop hops = elim (Bool-cases (ltb hops re.hopcount)) [
  | inl e ↦ inr (rw e)
  | inr e ↦ inl (rw e)
]

lookup-update_self :
    (dest next_hop hops : ℕ) (r : Router)
    → lookup dest (update_route_entry dest next_hop hops r).1.route_table
      ≡ some (best_route (lookup dest r.route_table) next_hop hops)
lookup-update_self dest next_hop hops r =
    lookup-update_route_entry dest next_hop hops dest r ∙ rw (==_refl dest)

update_all_known :
    (dest : ℕ) (offers : List (ℕ × ℕ)) (r : Router) (old : RouteEntry)
    → lookup dest r.route_table ≡ some old
    → (re : RouteEntry) × (lookup dest (update_all dest offers r).1.route_table ≡ some re)
      × (re.hopcount ≤ old.hopcount)
      × All (λ o. re.hopcount ≤ o.1) offers
      × ((re ≡ old) ⊎ Among re offers)
unfolding update_all methods
update_all_known dest [] r old h = (old, h, omega arith, tt, inl refl)
update_all_known dest ((n, k) ∷ offers) r old h =
    let (re, found, below, all, from) =
      update_all_known dest offers (update_route_entry dest n k r).1 (best_route (some old) n k)
        (lookup-update_self dest n k r ∙ rw h) in
    (
      re,
      found,
      omega (arith, best_route_le old n k),
      (omega (arith, best_route_le old n k), all),
      elim from [
        | inl e ↦ elim (best_route_cases old n k) [
          | inl same ↦ inl (e ∙ same)
          | inr new ↦ inr (inl (e ∙ new))
        ]
        | inr later ↦ inr (inr later)
      ],
    )

-- The route is no longer than an earlier one.
abbrev pub Within : RouteEntry → Option RouteEntry → Type 0
Within re none = Unit
Within re (some old) = re.hopcount ≤ old.hopcount

-- After any sequence of offers of routes to a destination, at least one, the table holds a route to
-- it that no offer and no earlier entry undercuts, and that is one of the offers or the earlier
-- entry.
pub update_all_lem :
    (dest : ℕ) (o : ℕ × ℕ) (offers : List (ℕ × ℕ)) (r : Router)
    → (re : RouteEntry) × (lookup dest (update_all dest (o ∷ offers) r).1.route_table ≡ some re)
      × Within re (lookup dest r.route_table)
      × All (λ p. re.hopcount ≤ p.1) (o ∷ offers)
      × ((lookup dest r.route_table ≡ some re) ⊎ Among re (o ∷ offers))
unfolding best_route
update_all_lem dest (n, k) offers r = elim (Option-cases (lookup dest r.route_table)) [
  | inl e ↦
      let (re, found, below, all, from) =
        update_all_known dest offers (update_route_entry dest n k r).1
          (record { next_hop = n; hopcount = k }) (lookup-update_self dest n k r ∙ rw e) in
      rw e (
        re,
        unfold update_all methods in found,
        tt,
        (below, all),
        elim from [ inl same ↦ inr (inl same) | inr later ↦ inr (inr later) ],
      )
  | inr (old, e) ↦
      let (re, found, below, all, from) = update_all_known dest ((n, k) ∷ offers) r old e in
      rw e (
        re,
        found,
        below,
        all,
        elim from [ inl same ↦ inl (ap some (sym same)) | inr later ↦ inr later ],
      )
]
