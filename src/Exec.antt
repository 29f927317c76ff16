-- ===== src/Exec.antt =====
-- Methods that change an object and return a value: a state monad. Early returns are branches.
pub mod Keeps
use mathlib.Core.Path.{◌≡◌, refl}
use eie4_mesh_network.Prelude.{Bool, List, Option, [], false, none, some, true, ◌∷◌}

abbrev pub Exec {ℓ κ} : Type ℓ → Type κ → Type (ℓ ⊔ κ)
Exec S A = S → A × S

module _ {ℓ κ} {S : Type ℓ} {A : Type κ} where
  unfoldable pub pure : A → Exec S A
  pure a s = (a, s)

  unfoldable pub gets : (S → A) → Exec S A
  gets f s = (f s, s)

module _ {ℓ} {S : Type ℓ} where
  unfoldable pub modify : (S → S) → Exec S (Unit {0})
  modify f s = (tt, f s)

  unfoldable pub skip : Exec S (Unit {0})
  skip s = (tt, s)

module _ {ℓ κ μ} {S : Type ℓ} {A : Type κ} {B : Type μ} where
  infixl 10 ◌>>=◌ ◌>>◌
  unfoldable pub ◌>>=◌ : Exec S A → (A → Exec S B) → Exec S B
  ◌>>=◌ m f s = let (a, s') = m s in f a s'

  abbrev pub ◌>>◌ : Exec S A → Exec S B → Exec S B
  m >> n = m >>= λ _. n

  -- A branch on whether a value was found.
  unfoldable pub match_option : Option A → Exec S B → (A → Exec S B) → Exec S B
  match_option none m f = m
  match_option (some a) m f = f a

-- `if (b) m;`
module _ {ℓ} {S : Type ℓ} where
  unfoldable pub when : Bool → Exec S (Unit {0}) → Exec S (Unit {0})
  when true m = m
  when false m = skip

-- A loop over a list.
module _ {ℓ κ} {S : Type ℓ} {A : Type κ} where
  unfoldable pub for_each : List A → (A → Exec S (Unit {0})) → Exec S (Unit {0})
  unfolding ◌>>=◌ skip
  for_each [] f = skip
  for_each (x ∷ xs) f = f x >> for_each xs f

-- To unfold this is to unfold every way to build a method.
unfoldable pub methods : Unit {0}
unfolding pure gets modify skip ◌>>=◌ match_option when for_each
methods = tt
