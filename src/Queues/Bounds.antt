-- ===== src/Queues/Bounds.antt =====
-- Room in a queue.
use mathlib.Core.List.{append_assoc, append-nil}
use eie4_mesh_network.Prelude.{
  All, All-append, Bool-cases, List, [], arith, inl, inr, length, length-append, ltb, true, ℕ, ◌++◌,
  ◌+◌, ◌<◌, ◌∙◌, ◌∷◌, ◌≡◌, ◌≤◌,
}
use eie4_mesh_network.Queues.{offer, offer_all}

module _ {ℓ} {A : Type ℓ} where
  pub length-offer-le :
      (capacity : ℕ) (a : A) (q : List A)
      → length q ≤ capacity
      → length (offer capacity a q).1 ≤ capacity
  unfolding offer
  length-offer-le capacity a q h = ground (arith, length-append q (a ∷ []))

  pub offer_room :
      (capacity : ℕ) (a : A) (q : List A)
      → length q < capacity
      → offer capacity a q ≡ (true, q ++ a ∷ [])
  unfolding offer
  offer_room capacity a q h = ground arith

  -- With room for all, all go to the end in order.
  pub offer_all_room :
      (capacity : ℕ) (new q : List A)
      → length q + length new ≤ capacity
      → offer_all capacity new q ≡ q ++ new
  unfolding offer_all
  offer_all_room capacity [] q h = rw append-nil
  offer_all_room capacity (a ∷ new) q h = rw (offer_room capacity a q (omega arith)) (
      offer_all_room capacity new (q ++ a ∷ []) (omega (arith, length-append q (a ∷ [])))
      ∙ append_assoc q (a ∷ []) new)

  pub All-offer {κ} :
      (P : A → Type κ) (capacity : ℕ) (a : A) (q : List A)
      → P a
      → All P q
      → All P (offer capacity a q).1
  unfolding offer
  All-offer P capacity a q new old = elim (Bool-cases (ltb (length q) capacity)) [
    | inl e ↦ rw e (All-append P q (a ∷ []) old (new, tt))
    | inr e ↦ rw e old
  ]
