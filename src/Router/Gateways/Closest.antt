-- ===== src/Router/Gateways/Closest.antt =====
-- src/aodvRouter.cpp: the result of `recomputeClosestGateway`.
use eie4_mesh_network.Prelude.{
  All, Bool-cases, List, Map, Option, Option-cases, [], add, ap, arith, contains, contains-discard,
  discard, false, inl, inr, lookup, ltb, ltb→le, ltb→lt, none, refl, some, subst, sym, true, ℕ,
  ◌&&◌, ◌<◌, ◌==◌, ◌∷◌, ◌≡◌, ◌≤◌, ◌⊎◌,
}
use eie4_mesh_network.Router.Gateways.{
  add_gateway, closest_from, recompute, recompute_closest_gateway, remove_gateway,
}
use eie4_mesh_network.Router.State.{RouteEntry, Router}

-- The route, if there is one, has that many hops at least.
abbrev pub Within : ℕ → Option RouteEntry → Type 0
Within hops none = Unit
Within hops (some re) = hops ≤ re.hopcount

-- The route is there and has that many hops.
abbrev pub HasHops : ℕ → Option RouteEntry → Type 0
HasHops hops none = ⊥
HasHops hops (some re) = re.hopcount ≡ hops

-- The result for a list of gateways: no gateway is nearer; and the result is that of the start, or
-- a gateway of the list whose route has that many hops.
abbrev pub IsClosest : Map RouteEntry → ℕ × ℕ → List ℕ → ℕ × ℕ → Type 0
IsClosest routes start gws best =
    (best.1 ≤ start.1)
    × All (λ g. Within best.1 (lookup g routes)) gws
    × ((best ≡ start) ⊎ ((contains best.0 gws ≡ true) × HasHops best.1 (lookup best.0 routes)))

contains-cons_of : (b g : ℕ) (gws : List ℕ) → contains b gws ≡ true → contains b (g ∷ gws) ≡ true
unfolding contains
contains-cons_of b g gws h = ground arith

contains-cons_self : (g : ℕ) (gws : List ℕ) → contains g (g ∷ gws) ≡ true
unfolding contains
contains-cons_self g gws = ground arith

module _ (routes : Map RouteEntry) (gw hops g : ℕ) (gws : List ℕ) where
  closest_none :
      lookup g routes ≡ none
      → closest_from routes gw hops (g ∷ gws) ≡ closest_from routes gw hops gws
  unfolding closest_from
  closest_none e = rw (e, closest_from)

  closest_nearer :
      (re : RouteEntry)
      → lookup g routes ≡ some re
      → ltb re.hopcount hops ≡ true
      → closest_from routes gw hops (g ∷ gws) ≡ closest_from routes g re.hopcount gws
  unfolding closest_from
  closest_nearer re e c = rw (e, closest_from) (rw c)

  closest_farther :
      (re : RouteEntry)
      → lookup g routes ≡ some re
      → ltb re.hopcount hops ≡ false
      → closest_from routes gw hops (g ∷ gws) ≡ closest_from routes gw hops gws
  unfolding closest_from
  closest_farther re e c = rw (e, closest_from) (rw c)

  -- A gateway that does not change the result.
  IsClosest-skip :
      closest_from routes gw hops (g ∷ gws) ≡ closest_from routes gw hops gws
      → Within (closest_from routes gw hops gws).1 (lookup g routes)
      → IsClosest routes (gw, hops) gws (closest_from routes gw hops gws)
      → IsClosest routes (gw, hops) (g ∷ gws) (closest_from routes gw hops (g ∷ gws))
  IsClosest-skip e w (below, near, from) = subst (IsClosest routes (gw, hops) (g ∷ gws)) (sym e) (
    below,
    (w, near),
    elim from [ inl s ↦ inl s | inr (m, h) ↦ inr (contains-cons_of _ g gws m, h) ],
  )

  IsClosest-take :
      (re : RouteEntry)
      → lookup g routes ≡ some re
      → re.hopcount < hops
      → closest_from routes gw hops (g ∷ gws) ≡ closest_from routes g re.hopcount gws
      → IsClosest routes (g, re.hopcount) gws (closest_from routes g re.hopcount gws)
      → IsClosest routes (gw, hops) (g ∷ gws) (closest_from routes gw hops (g ∷ gws))
  IsClosest-take re e c eq (below, near, from) =
      subst (IsClosest routes (gw, hops) (g ∷ gws)) (sym eq) (
        omega arith,
        (subst (Within (closest_from routes g re.hopcount gws).1) (sym e) below, near),
        inr (elim from [
          | inl s ↦
              subst (λ b. (contains b.0 (g ∷ gws) ≡ true) × HasHops b.1 (lookup b.0 routes)) (sym s)
                (contains-cons_self g gws, subst (HasHops re.hopcount) (sym e) refl)
          | inr (m, h) ↦ (contains-cons_of _ g gws m, h)
        ]),
      )

closest_from-IsClosest :
    (routes : Map RouteEntry) (gw hops : ℕ) (gws : List ℕ)
    → IsClosest routes (gw, hops) gws (closest_from routes gw hops gws)
unfolding closest_from
closest_from-IsClosest routes gw hops [] = (omega arith, tt, inl refl)
closest_from-IsClosest routes gw hops (g ∷ gws) =
    let same = closest_from-IsClosest routes gw hops gws in
    elim (Option-cases (lookup g routes)) [
      | inl e ↦
          IsClosest-skip routes gw hops g gws (closest_none routes gw hops g gws e)
            (subst (Within (closest_from routes gw hops gws).1) (sym e) tt) same
      | inr (re, e) ↦
          let closer = closest_from-IsClosest routes g re.hopcount gws in
          elim (Bool-cases (ltb re.hopcount hops)) [
            | inl c ↦
                IsClosest-take routes gw hops g gws re e (ltb→lt re.hopcount hops c)
                  (closest_nearer routes gw hops g gws re e c) closer
            | inr c ↦
                IsClosest-skip routes gw hops g gws (closest_farther routes gw hops g gws re e c)
                  (subst (Within (closest_from routes gw hops gws).1) (sym e)
                    (omega (arith, ltb→le re.hopcount hops c, same.0)))
                  same
          ]
    ]

-- After `recomputeClosestGateway` no known gateway with a route is nearer than the stored distance;
-- and the stored gateway is a known one whose route has that distance, or it is 0 at distance 255.
pub recompute_closest_gateway-IsClosest :
    (r : Router)
    → IsClosest
        (recompute_closest_gateway r).1.route_table
        (0, 0xff)
        (recompute_closest_gateway r).1.gateways
        ((recompute_closest_gateway r).1.closest_gw, (recompute_closest_gateway r).1.closest_hops)
unfolding recompute_closest_gateway
recompute_closest_gateway-IsClosest r = closest_from-IsClosest r.route_table 0 0xff r.gateways

-- A property that does not depend on the gateways.
pub gateway-cases :
    (P : Router → Type 0) (r : Router)
    → ((gs : List ℕ) (gw hops : ℕ)
        → P (record r { gateways = gs; closest_gw = gw; closest_hops = hops }))
    → (node : ℕ) → P (add_gateway node r).1 × P (remove_gateway node r).1
unfolding add_gateway remove_gateway recompute
gateway-cases P r k node = (
  elim (Bool-cases (contains node r.gateways)) [
    | inl e ↦ rw e (k r.gateways r.closest_gw r.closest_hops)
    | inr e ↦ rw e (k _ _ _)
  ],
  elim (Bool-cases (contains node r.gateways && node == r.closest_gw)) [
    | inl e ↦ rw e (k _ _ _)
    | inr e ↦ rw e (k (discard node r.gateways) r.closest_gw r.closest_hops)
  ],
)

-- The stored gateway is unset, or a known one.
pub record IsKnown (r : Router) : Type 0 where
  pub known : (r.closest_gw ≡ 0) ⊎ (contains r.closest_gw r.gateways ≡ true)

recompute-IsKnown : (r : Router) → IsKnown (recompute r)
unfolding recompute
recompute-IsKnown r =
    let (below, near, from) = closest_from-IsClosest r.route_table 0 0xff r.gateways in
    record { known = elim from [ inl s ↦ inl (ap (λ p. p.0) s) | inr (m, h) ↦ inr m ] }

pub add_gateway-IsKnown : (node : ℕ) (r : Router) → IsKnown r → IsKnown (add_gateway node r).1
unfolding add_gateway
add_gateway-IsKnown node r h = elim (Bool-cases (contains node r.gateways)) [
  | inl e ↦ rw e h
  | inr e ↦ rw e (recompute-IsKnown (record r { gateways = add node r.gateways }))
]

pub remove_gateway-IsKnown : (node : ℕ) (r : Router) → IsKnown r → IsKnown (remove_gateway node r).1
unfolding remove_gateway
remove_gateway-IsKnown node r h =
    elim (Bool-cases (contains node r.gateways && node == r.closest_gw)) [
      | inl e ↦ rw e (recompute-IsKnown (record r { gateways = discard node r.gateways }))
      | inr e ↦ rw e (record {
        known = elim h.known [
          | inl z ↦ inl z
          | inr m ↦ inr (ground (arith, contains-discard node r.closest_gw r.gateways))
        ];
      })
    ]
