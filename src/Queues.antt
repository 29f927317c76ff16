-- ===== src/Queues.antt =====
-- The queues of FreeRTOS (`xQueueSend`, `xQueueReceive`): the oldest entry stands first. A send that
-- waits for room is the step at which the wait ends, with or without room.
pub mod Bounds
use eie4_mesh_network.Prelude.{
  Bool, List, Option, [], false, if◌then◌else◌, length, ltb, none, some, true, ℕ, ◌++◌, ◌∷◌,
}

module _ {ℓ} {A : Type ℓ} where
  -- Whether the entry was taken, and the queue after.
  unfoldable pub offer : ℕ → A → List A → Bool × List A
  offer capacity a q = if ltb (length q) capacity then (true, q ++ a ∷ []) else (false, q)

  unfoldable pub receive : List A → Option (A × List A)
  receive [] = none
  receive (a ∷ q) = some (a, q)

  -- Entries offered one after the other.
  unfoldable pub offer_all : ℕ → List A → List A → List A
  offer_all capacity [] q = q
  offer_all capacity (a ∷ rest) q = offer_all capacity rest (offer capacity a q).1
