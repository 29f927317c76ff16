-- ===== src/Prelude/Sets.antt =====
-- Sets of numbers as lists without a second copy of an element.
use Prim.Native.Nat.{ℕ}
use mathlib.Core.Path.{◌≡◌, refl}
use mathlib.Core.Bool.{Bool, false, ◌||◌}
use mathlib.Core.List.{List, [], ◌∷◌}
use native.Mathlib.Omega.{arith}
use eie4_mesh_network.Prelude.Tests.{ltb, ◌==◌, if◌then◌else◌}

unfoldable pub contains : ℕ → List ℕ → Bool
contains a [] = false
contains a (x ∷ xs) = x == a || contains a xs

-- `s.insert(a)`, in ascending order
unfoldable pub add : ℕ → List ℕ → List ℕ
add a [] = a ∷ []
add a (x ∷ xs) =
    let rest = add a xs in if x == a then x ∷ xs else if ltb a x then a ∷ x ∷ xs else x ∷ rest

-- `s.erase(a)`
unfoldable pub discard : ℕ → List ℕ → List ℕ
discard a [] = []
discard a (x ∷ xs) = let rest = discard a xs in if x == a then rest else x ∷ rest

pub contains-add : (a b : ℕ) (xs : List ℕ) → contains b (add a xs) ≡ (a == b || contains b xs)
unfolding contains add
contains-add a b [] = refl
contains-add a b (x ∷ xs) = ground (arith, contains-add a b xs)

pub contains-discard :
    (a b : ℕ) (xs : List ℕ) → contains b (discard a xs) ≡ (if a == b then false else contains b xs)
unfolding contains discard
contains-discard a b [] = ground arith
contains-discard a b (x ∷ xs) = ground (arith, contains-discard a b xs)
