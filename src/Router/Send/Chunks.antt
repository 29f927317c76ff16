-- ===== src/Router/Send/Chunks.antt =====
-- src/aodvRouter.cpp: how `sendBroadcastInfo` splits the ids over packets.
use mathlib.Core.List.{append-nil, append_assoc}
use eie4_mesh_network.Prelude.{
  All, Bool-cases, List, [], ap, arith, drop, false, inl, inr, length, length-append, length-drop,
  length-take, ltb, ltb→le, ltb→lt, min, refl, suc, sym, take, take-append-drop, zero, ℕ, ◌*◌, ◌++◌,
  ◌+◌, ◌-◌, ◌<◌, ◌==◌, ◌∙◌, ◌∷◌, ◌≡◌, ◌≤◌, ◌⊎◌,
}
use eie4_mesh_network.Exec.{methods}
use eie4_mesh_network.Packet.{BaseHeader}
use eie4_mesh_network.Packet.Serialise.{base_header_bytes, broadcast_info_header_bytes}
use eie4_mesh_network.Router.Send.Info.{chunks, ids_bytes, ids_per_pkt, send_chunk}
use eie4_mesh_network.Router.State.{Publication, Router, fault, packet, publish}
use eie4_mesh_network.Router.Transmit.{header_out, transmit_packet, transmit_sealed}

unfoldable pub added_of : List (List ℕ × List ℕ) → List ℕ
added_of [] = []
added_of (c ∷ cs) = c.0 ++ added_of cs

unfoldable pub removed_of : List (List ℕ × List ℕ) → List ℕ
removed_of [] = []
removed_of (c ∷ cs) = c.1 ++ removed_of cs

-- The ids in the order in which they are sent: in each packet the added ones come first.
unfoldable pub sent_ids : List (List ℕ × List ℕ) → List ℕ
sent_ids [] = []
sent_ids (c ∷ cs) = (c.0 ++ c.1) ++ sent_ids cs

-- The number of ids in a packet.
abbrev pub size : List ℕ × List ℕ → ℕ
size c = length c.0 + length c.1

empty_of_length : (xs : List ℕ) → length xs ≡ 0 → xs ≡ []
empty_of_length [] h = refl
empty_of_length (x ∷ xs) h = absurd (omega arith)

abbrev taken_a : List ℕ → ℕ
taken_a added = min ids_per_pkt (length added)

abbrev taken_r : List ℕ → List ℕ → ℕ
taken_r added removed = min (ids_per_pkt - taken_a added) (length removed)

rest_fits :
    (fuel : ℕ) (added removed : List ℕ)
    → length added + length removed ≤ suc fuel
    → (length added + length removed == 0) ≡ false
    → length (drop (taken_a added) added) + length (drop (taken_r added removed) removed) ≤ fuel
rest_fits fuel added removed h e =
    ground (arith, length-drop (taken_a added) added, length-drop (taken_r added removed) removed)

size_bounds :
    (added removed : List ℕ)
    → (length added + length removed == 0) ≡ false
    → (0 < length (take (taken_a added) added) + length (take (taken_r added removed) removed))
      × (length (take (taken_a added) added) + length (take (taken_r added removed) removed)
          ≤ ids_per_pkt)
size_bounds added removed e =
    ground (arith, length-take (taken_a added) added, length-take (taken_r added removed) removed)

-- A packet that has room for removed ids has taken all added ones.
added_first :
    (added removed : List ℕ)
    → (taken_r added removed ≡ 0) ⊎ (length (drop (taken_a added) added) ≡ 0)
added_first added removed = elim (Bool-cases (ltb (length added) ids_per_pkt)) [
  | inl e ↦
      inr (omega (arith, length-drop (taken_a added) added, ltb→lt (length added) ids_per_pkt e))
  | inr e ↦ inl (omega (arith, ltb→le (length added) ids_per_pkt e))
]

in_order :
    (a r : ℕ) (added removed : List ℕ)
    → (r ≡ 0) ⊎ (length (drop a added) ≡ 0)
    → (take a added ++ take r removed) ++ (drop a added ++ drop r removed) ≡ added ++ removed
in_order a r added removed (inl e) = rw e (
    ap (λ l. l ++ (drop a added ++ removed)) (append-nil (take a added))
    ∙ sym (append_assoc (take a added) (drop a added) removed)
    ∙ ap (λ l. l ++ removed) (take-append-drop a added))
in_order a r added removed (inr e) =
    let none_left = empty_of_length (drop a added) e in
    let all : take a added ≡ added =
      sym (append-nil (take a added))
      ∙ ap (λ l. take a added ++ l) (sym none_left)
      ∙ take-append-drop a added in
    rw none_left (
      append_assoc (take a added) (take r removed) (drop r removed)
      ∙ ap (λ l. take a added ++ l) (take-append-drop r removed)
      ∙ ap (λ l. l ++ removed) all)

none_sent :
    (added removed : List ℕ)
    → length added ≡ 0
    → length removed ≡ 0
    → ([] ≡ added) × ([] ≡ removed) × ([] ≡ added ++ removed) × Unit {0}
none_sent added removed a r =
    let x = sym (empty_of_length added a) in
    let y = sym (empty_of_length removed r) in (x, y, y ∙ ap (λ l. l ++ removed) x, tt)

-- The packets of a broadcast carry all added ids and all removed ids, each in order; read one
-- after the other, the packets carry the added before the removed; and each packet carries one id at
-- least and 57 at most. The fuel is the number of ids or more.
pub chunks_lem :
    (fuel : ℕ) (added removed : List ℕ)
    → length added + length removed ≤ fuel
    → (added_of (chunks fuel added removed) ≡ added)
      × (removed_of (chunks fuel added removed) ≡ removed)
      × (sent_ids (chunks fuel added removed) ≡ added ++ removed)
      × All (λ c. (0 < size c) × (size c ≤ ids_per_pkt)) (chunks fuel added removed)
unfolding chunks added_of removed_of sent_ids
chunks_lem zero added removed h = none_sent added removed (omega arith) (omega arith)
chunks_lem (suc fuel) added removed h = elim (Bool-cases (length added + length removed == 0)) [
  | inl e ↦ rw e (none_sent added removed (ground arith) (ground arith))
  | inr e ↦
      let ih =
        chunks_lem fuel (drop (taken_a added) added) (drop (taken_r added removed) removed)
          (rest_fits fuel added removed h e) in
      rw e (
        ap (λ l. take (taken_a added) added ++ l) ih.0 ∙ take-append-drop (taken_a added) added,
        ap (λ l. take (taken_r added removed) removed ++ l) ih.1
            ∙ take-append-drop (taken_r added removed) removed,
        ap (λ l. (take (taken_a added) added ++ take (taken_r added removed) removed) ++ l) ih.2
            ∙ in_order (taken_a added) (taken_r added removed) added removed
                (added_first added removed),
        (size_bounds added removed e, ih.3),
      )
]

length-ids_bytes : (ids : List ℕ) → length (ids_bytes ids) ≡ 4 * length ids
unfolding ids_bytes
length-ids_bytes [] = refl
length-ids_bytes (id ∷ ids) = omega (arith, length-ids_bytes ids)

transmitted-sealed_oversize :
    (h : BaseHeader) (text : List ℕ) (r : Router)
    → 228 ≤ length text
    → (transmit_sealed h text r).1.transmitted ≡ r.transmitted
unfolding transmit_sealed methods fault
transmitted-sealed_oversize h text r e = ground arith

transmitted-publish : (p : Publication) (r : Router) → (publish p r).1.transmitted ≡ r.transmitted
unfolding publish
transmitted-publish p r = ground arith

pub transmitted-oversize :
    (h : BaseHeader) (ext payload : List ℕ) (r : Router)
    → 228 ≤ length (ext ++ payload)
    → (transmit_packet h ext payload r).1.transmitted ≡ r.transmitted
unfolding transmit_packet methods
transmitted-oversize h ext payload r e = ground (
  arith,
  transmitted-publish (packet h.packet_id (base_header_bytes h ++ (ext ++ payload))) r,
  transmitted-sealed_oversize (header_out h) (ext ++ payload)
      (publish (packet h.packet_id (base_header_bytes h ++ (ext ++ payload))) r).1 e,
)

-- A broadcast packet with more than 55 ids is never queued for sending, although the split allows
-- 57: the source's count of the room leaves out the tag of the encryption.
pub send_chunk_oversize :
    (bh : BaseHeader) (c : List ℕ × List ℕ) (r : Router)
    → 55 < size c
    → (send_chunk bh c r).1.transmitted ≡ r.transmitted
unfolding send_chunk broadcast_info_header_bytes
send_chunk_oversize bh (added, removed) r h =
    transmitted-oversize bh _ (ids_bytes added ++ ids_bytes removed) r (
      omega (
        arith,
        length-append (ids_bytes added) (ids_bytes removed),
        length-ids_bytes added,
        length-ids_bytes removed,
      ))
