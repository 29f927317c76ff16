-- ===== src/Router/Handle/Info/Gut.antt =====
-- src/aodvRouter.cpp: the table of users after a broadcast.
use eie4_mesh_network.Prelude.{
  All, List, [], ap, arith, contains, drop, drop-append_self, if◌then◌else◌, length, le→ltb, lookup,
  lookup-erase, lookup-insert, none, refl, some, suc, sym, zero, ℕ, ◌++◌, ◌+◌, ◌<◌, ◌∙◌, ◌∷◌, ◌≡◌,
  ◌≤◌,
}
use eie4_mesh_network.Exec.{for_each, methods}
use eie4_mesh_network.Packet.Bytes.{bytes32, read32, word32-bytes32}
use eie4_mesh_network.Router.Buffers.{remove_gut_entry, update_gut_entry}
use eie4_mesh_network.Router.Handle.Info.{note_users, read_ids}
use eie4_mesh_network.Router.Send.Info.{ids_bytes}
use eie4_mesh_network.Router.State.{Router}

lookup-gut_adds :
    (origin : ℕ) (ids : List ℕ) (u : ℕ) (r : Router)
    → lookup u
        (for_each ids
          (λ uid. update_gut_entry uid (record { node_id = origin; seq = 0; ts = 0 }))
          r).1.gut
      ≡ (if contains u ids
          then some (record { node_id = origin; seq = 0; ts = 0 })
          else lookup u r.gut)
unfolding methods update_gut_entry contains
lookup-gut_adds origin [] u r = refl
lookup-gut_adds origin (id ∷ ids) u r =
    lookup-gut_adds origin ids u
      (update_gut_entry id (record { node_id = origin; seq = 0; ts = 0 }) r).1
    ∙ ground (arith, lookup-insert id u (record { node_id = origin; seq = 0; ts = 0 }) r.gut)

lookup-gut_removes :
    (ids : List ℕ) (u : ℕ) (r : Router)
    → lookup u (for_each ids remove_gut_entry r).1.gut
      ≡ (if contains u ids then none else lookup u r.gut)
unfolding methods remove_gut_entry contains
lookup-gut_removes [] u r = refl
lookup-gut_removes (id ∷ ids) u r =
    lookup-gut_removes ids u (remove_gut_entry id r).1 ∙ ground (arith, lookup-erase id u r.gut)

word_bytes : (id : ℕ) (rest : List ℕ) → id < 4294967296 → read32 (bytes32 id ++ rest) 0 ≡ id
word_bytes id rest h = word32-bytes32 id h

drop-nil {ℓ} : {A : Type ℓ} (n : ℕ) → drop {A = A} n [] ≡ []
drop-nil zero = refl
drop-nil (suc n) = refl

drop_add {ℓ} : {A : Type ℓ} (n m : ℕ) (xs : List A) → drop (n + m) xs ≡ drop m (drop n xs)
drop_add n m [] = drop-nil (n + m) ∙ sym (ap (drop m) (drop-nil n) ∙ drop-nil m)
drop_add zero m (x ∷ xs) = let e : 0 + m ≡ m = omega arith in ap (λ k. drop k (x ∷ xs)) e
drop_add (suc n) m (x ∷ xs) =
    let e : suc n + m ≡ suc (n + m) = omega arith in ap (λ k. drop k (x ∷ xs)) e ∙ drop_add n m xs

-- The ids behind an offset.
read_ids_of :
    (ids : List ℕ) (offset len : ℕ) (payload rest : List ℕ)
    → All (λ id. id < 4294967296) ids
    → drop offset payload ≡ ids_bytes ids ++ rest
    → offset + length (ids_bytes ids) ≤ len
    → read_ids (length ids) offset payload len ≡ (ids, offset + length (ids_bytes ids))
unfolding read_ids ids_bytes
read_ids_of [] offset len payload rest v e l = ap (λ n. ([], n)) (omega arith)
read_ids_of (id ∷ ids) offset len payload rest v e l =
    let ih =
      read_ids_of ids (offset + 4) len payload rest v.1 (drop_add offset 4 payload ∙ ap (drop 4) e)
        (omega arith) in
    rw (le→ltb len (offset + 4) (omega arith), read_ids)
      (ap
          (λ p. (
            read32 p 0 ∷ (read_ids (length ids) (offset + 4) payload len).0,
            (read_ids (length ids) (offset + 4) payload len).1,
          ))
          e
        ∙ ap
            (λ w. (
              w ∷ (read_ids (length ids) (offset + 4) payload len).0,
              (read_ids (length ids) (offset + 4) payload len).1,
            ))
            (word_bytes id (ids_bytes ids ++ rest) v.0)
        ∙ ap (λ q. (id ∷ q.0, q.1)) ih
        ∙ ap (λ n. (id ∷ ids, n)) (omega arith))

-- The users table after a broadcast's ids are read, from the bytes that the sender put behind the
-- counts: the removed users are unknown, the added ones, unless they are removed too, live at the
-- sender's node, and nothing is changed for the others. The counts fit 16 bits and the ids 32.
pub lookup-note_users :
    (origin len u : ℕ) (added removed payload stale : List ℕ) (r : Router)
    → All (λ id. id < 4294967296) added
    → All (λ id. id < 4294967296) removed
    → drop 4 payload ≡ ids_bytes added ++ (ids_bytes removed ++ stale)
    → 4 + length (ids_bytes added) + length (ids_bytes removed) ≤ len
    → lookup u
        (note_users origin
          (record { num_added = length added; num_removed = length removed })
          payload
          len
          r).1.gut
      ≡ (if contains u removed
          then none
          else if contains u added
          then some (record { node_id = origin; seq = 0; ts = 0 })
          else lookup u r.gut)
unfolding note_users methods
lookup-note_users origin len u added removed payload stale r va vr e l =
    let readA = read_ids_of added 4 len payload (ids_bytes removed ++ stale) va e (omega arith) in
    let behind : drop (4 + length (ids_bytes added)) payload ≡ ids_bytes removed ++ stale =
      drop_add 4 (length (ids_bytes added)) payload
      ∙ ap (drop (length (ids_bytes added))) e
      ∙ drop-append_self (ids_bytes added) (ids_bytes removed ++ stale) in
    let readR =
      read_ids_of removed (4 + length (ids_bytes added)) len payload stale vr behind
        (omega arith) in
    rw readA (
      rw readR (
        lookup-gut_removes removed u _
        ∙ ap (λ o. if contains u removed then none else o) (lookup-gut_adds origin added u r)))
