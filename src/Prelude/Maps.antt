-- ===== src/Prelude/Maps.antt =====
-- Maps with number keys as association lists in the order of their keys, as `std::map` iterates.
use Prim.Native.Nat.{ℕ}
use mathlib.Core.Path.{◌≡◌, refl, subst}
use mathlib.Core.Bool.{true}
use mathlib.Core.Logic.{inl, inr}
use mathlib.Core.Option.{Option, none, some}
use mathlib.Core.List.{List, [], ◌∷◌}
use native.Mathlib.Omega.{arith}
use eie4_mesh_network.Prelude.Tests.{ltb, ◌==◌, ==_iff, if◌then◌else◌, Bool-cases}

abbrev pub Map {ℓ} : Type ℓ → Type ℓ
Map V = List (ℕ × V)

module _ {ℓ} {V : Type ℓ} where
  unfoldable pub lookup : ℕ → Map V → Option V
  lookup key ((other, value) ∷ rest) = if other == key then some value else lookup key rest
  lookup key [] = none

  -- `m[k] = v`
  unfoldable pub insert : ℕ → V → Map V → Map V
  insert key new ((other, value) ∷ rest) =
      let after = insert key new rest in
      if other == key
      then (key, new) ∷ rest
      else if ltb key other
      then (key, new) ∷ (other, value) ∷ rest
      else (other, value) ∷ after
  insert key new [] = (key, new) ∷ []

  -- `m.erase(k)`
  unfoldable pub erase : ℕ → Map V → Map V
  erase k [] = []
  erase k ((j, v) ∷ m) = let rest = erase k m in if j == k then rest else (j, v) ∷ rest

  pub lookup-insert :
      (key at : ℕ) (new : V) (m : Map V)
      → lookup at (insert key new m) ≡ (if key == at then some new else lookup at m)
  unfolding insert lookup
  lookup-insert key at new ((other, value) ∷ m) = ground (arith, lookup-insert key at new m)
  lookup-insert key at new [] = refl

  pub lookup-erase :
      (key at : ℕ) (m : Map V) → lookup at (erase key m) ≡ (if key == at then none else lookup at m)
  unfolding erase lookup
  lookup-erase key at ((other, value) ∷ m) = ground (arith, lookup-erase key at m)
  lookup-erase key at [] = ground arith

  -- Every entry satisfies `P`.
  abbrev pub AllEntries {κ} : (ℕ → V → Type κ) → Map V → Type κ
  AllEntries P [] = Unit
  AllEntries P ((k, v) ∷ m) = P k v × AllEntries P m

  pub AllEntries-insert {κ} :
      (P : ℕ → V → Type κ) (k : ℕ) (v : V) (m : Map V)
      → P k v
      → AllEntries P m
      → AllEntries P (insert k v m)
  unfolding insert
  AllEntries-insert P k v [] p h = (p, tt)
  AllEntries-insert P k v ((j, w) ∷ m) p h =
      let ih = AllEntries-insert P k v m p h.1 in
      elim (j == k)
        as (λ b. AllEntries P (
          if b
          then (k, v) ∷ m
          else if ltb k j
          then (k, v) ∷ (j, w) ∷ m
          else (j, w) ∷ insert k v m)) [
            | true ↦ (p, h.1)
            | _ ↦
                elim (ltb k j)
                  as (λ b.
                    AllEntries P (if b then (k, v) ∷ (j, w) ∷ m else (j, w) ∷ insert k v m)) [
                      | true ↦ (p, h)
                      | _ ↦ (h.0, ih)
                    ]
          ]

  pub AllEntries-erase {κ} :
      (P : ℕ → V → Type κ) (k : ℕ) (m : Map V) → AllEntries P m → AllEntries P (erase k m)
  unfolding erase
  AllEntries-erase P k [] h = tt
  AllEntries-erase P k ((j, w) ∷ m) h =
      let ih = AllEntries-erase P k m h.1 in
      elim (j == k) as (λ b. AllEntries P (if b then erase k m else (j, w) ∷ erase k m)) [
        | true ↦ ih
        | _ ↦ (h.0, ih)
      ]

  pub AllEntries-lookup {κ} :
      (P : ℕ → V → Type κ) (k : ℕ) (v : V) (m : Map V)
      → AllEntries P m
      → lookup k m ≡ some v
      → P k v
  unfolding lookup
  AllEntries-lookup P k v [] h e = cc
  AllEntries-lookup P k v ((j, w) ∷ m) h e = elim (Bool-cases (j == k)) [
    | inl same ↦
        subst (λ i. P i v) ((==_iff j k).0 same)
          (subst (P j) (let eq : w ≡ v = ground arith in eq) h.0)
    | inr other ↦ AllEntries-lookup P k v m h.1 (rw other at e)
  ]
