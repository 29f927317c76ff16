-- ===== src/Exec/Keeps.antt =====
-- Invariants of methods: one rule for each way to build a method.
use eie4_mesh_network.Prelude.{Bool, List, Option, [], false, if◌then◌else◌, none, some, true, ◌∷◌}
use eie4_mesh_network.Exec.{Exec, for_each, gets, match_option, modify, pure, skip, when, ◌>>=◌}

-- `m` keeps `P`.
pub record Keeps {ℓ κ μ} {S : Type ℓ} {A : Type κ} (P : S → Type μ) (m : Exec S A)
    : Type (ℓ ⊔ μ) where
  pub at : (s : S) → P s → P (m s).1

module _ {ℓ κ μ} {S : Type ℓ} {A : Type κ} {P : S → Type μ} where
  pub Keeps-gets : (read : S → A) → Keeps P (gets read)
  unfolding gets
  Keeps-gets read = record { at = λ _ kept. kept }

  pub Keeps-pure : (value : A) → Keeps P (pure value)
  unfolding pure
  Keeps-pure value = record { at = λ _ kept. kept }

  pub Keeps-if : (b : Bool) (x y : Exec S A) → Keeps P x → Keeps P y → Keeps P (if b then x else y)
  Keeps-if false x y kx ky = ky
  Keeps-if true x y kx ky = kx

module _ {ℓ μ} {S : Type ℓ} {P : S → Type μ} where
  pub Keeps-skip : Keeps P skip
  unfolding skip
  Keeps-skip = record { at = λ _ kept. kept }

  pub Keeps-modify : (change : S → S) → ((s : S) → P s → P (change s)) → Keeps P (modify change)
  unfolding modify
  Keeps-modify change kept = record { at = kept }

  pub Keeps-when : (b : Bool) (x : Exec S (Unit {0})) → Keeps P x → Keeps P (when b x)
  unfolding when
  Keeps-when false x kx = Keeps-skip
  Keeps-when true x kx = kx

module _ {ℓ κ ν μ} {S : Type ℓ} {A : Type κ} {B : Type ν} {P : S → Type μ} where
  pub Keeps-bind :
      (x : Exec S A) (next : A → Exec S B)
      → Keeps P x
      → ((a : A) → Keeps P (next a))
      → Keeps P (x >>= next)
  unfolding ◌>>=◌
  Keeps-bind x next kx knext = record {
    at = λ s kept. let (a, after) = x s in (knext a).at after (kx.at s kept);
  }

  pub Keeps-match :
      (o : Option A) (x : Exec S B) (next : A → Exec S B)
      → Keeps P x
      → ((a : A) → Keeps P (next a))
      → Keeps P (match_option o x next)
  unfolding match_option
  Keeps-match (some a) x next kx knext = knext a
  Keeps-match none x next kx knext = kx

module _ {ℓ κ μ} {S : Type ℓ} {A : Type κ} {P : S → Type μ} where
  pub Keeps-for :
      (xs : List A) (f : A → Exec S (Unit {0}))
      → ((a : A) → Keeps P (f a))
      → Keeps P (for_each xs f)
  unfolding for_each
  Keeps-for [] f kf = Keeps-skip
  Keeps-for (x ∷ xs) f kf = Keeps-bind (f x) (λ _. for_each xs f) (kf x) (λ _. Keeps-for xs f kf)

pub ruleset keeps_rules =
    (Keeps-pure, Keeps-gets, Keeps-if, Keeps-when, Keeps-skip, Keeps-bind, Keeps-match, Keeps-for)
