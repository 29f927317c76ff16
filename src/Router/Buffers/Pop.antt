-- ===== src/Router/Buffers/Pop.antt =====
-- src/aodvRouter.cpp: what the buffers give back.
use mathlib.Core.List.{append-nil, append_assoc}
use eie4_mesh_network.Prelude.{
  ==_refl, Bool, Bool-cases, List, Map, Option-cases, [], ap, arith, erase, false, if◌then◌else◌,
  inl, inr, lookup, lookup-erase, lookup-insert, none, refl, sym, true, ℕ, ◌++◌, ◌==◌, ◌∙◌, ◌∷◌,
  ◌≡◌,
}
use eie4_mesh_network.Exec.{methods, skip, ◌>>◌}
use eie4_mesh_network.Router.Buffers.{entries_at, insert_data_buffer, pop_data_buffer, push_back}
use eie4_mesh_network.Router.State.{DataBufferEntry, Method, Router}

module _ {ℓ} {A : Type ℓ} where
  entries_at-push_back :
      (k j : ℕ) (a : A) (m : Map (List A))
      → entries_at j (push_back k a m)
        ≡ (if k == j then entries_at j m ++ (a ∷ []) else entries_at j m)
  unfolding entries_at push_back
  entries_at-push_back k j a m = elim (Bool-cases (k == j)) [
    | inl e ↦ elim (Option-cases (lookup k m)) [
      | inl n ↦ ground (arith, n, lookup-insert k j (a ∷ []) m)
      | inr (v, n) ↦ ground (arith, n, lookup-insert k j (v ++ (a ∷ [])) m)
    ]
    | inr e ↦ elim (Option-cases (lookup k m)) [
      | inl n ↦ ground (arith, n, lookup-insert k j (a ∷ []) m)
      | inr (v, n) ↦ ground (arith, n, lookup-insert k j (v ++ (a ∷ [])) m)
    ]
  ]

  entries_at-erase : (k : ℕ) (m : Map (List A)) → entries_at k (erase k m) ≡ []
  unfolding entries_at
  entries_at-erase k m =
      let e : lookup k (erase k m) ≡ none =
        lookup-erase k k m ∙ ap (λ b. if b then none else lookup k m) (==_refl k) in
      rw (e, entries_at) refl

  append_if :
      (b : Bool) (a : A) (xs ys : List A)
      → (if b then xs ++ (a ∷ []) else xs) ++ ys ≡ xs ++ (if b then a ∷ ys else ys)
  append_if true a xs ys = append_assoc xs (a ∷ []) ys
  append_if false a xs ys = refl

-- Data packets kept for destinations, one after the other.
abbrev pub insert_all : List (ℕ × DataBufferEntry) → Method (Unit {0})
insert_all [] = skip
insert_all ((dest, e) ∷ es) = insert_data_buffer dest e >> insert_all es

-- Those for one destination.
abbrev pub sent_to {ℓ} : {A : Type ℓ} → ℕ → List (ℕ × A) → List A
sent_to dest [] = []
sent_to dest ((d, e) ∷ es) = if d == dest then e ∷ sent_to dest es else sent_to dest es

entries_at-insert_all :
    (dest : ℕ) (es : List (ℕ × DataBufferEntry)) (r : Router)
    → entries_at dest (insert_all es r).1.data_buffer
      ≡ entries_at dest r.data_buffer ++ sent_to dest es
unfolding insert_data_buffer methods
entries_at-insert_all dest [] r = sym (append-nil (entries_at dest r.data_buffer))
entries_at-insert_all dest ((d, e) ∷ es) r =
    entries_at-insert_all dest es (insert_data_buffer d e r).1
    ∙ ap (λ l. l ++ sent_to dest es) (entries_at-push_back d dest e r.data_buffer)
    ∙ append_if (d == dest) e (entries_at dest r.data_buffer) (sent_to dest es)

-- After data for any destinations was buffered, a destination's buffer gives what it held before and
-- then the data for this destination, in the order of its arrival; and it is empty afterwards.
pub pop_data_buffer-insert_all :
    (dest : ℕ) (es : List (ℕ × DataBufferEntry)) (r : Router)
    → ((pop_data_buffer dest (insert_all es r).1).0
        ≡ entries_at dest r.data_buffer ++ sent_to dest es)
      × ((pop_data_buffer dest (pop_data_buffer dest (insert_all es r).1).1).0 ≡ [])
unfolding pop_data_buffer
pop_data_buffer-insert_all dest es r =
    (entries_at-insert_all dest es r, entries_at-erase dest (insert_all es r).1.data_buffer)
