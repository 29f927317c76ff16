-- ===== src/Router/Acks/Cleanup.antt =====
-- src/aodvRouter.cpp: rounds of `cleanupAckBuffer` over the packets that wait for an ACK.
use eie4_mesh_network.Prelude.{
  AllEntries, Bool-cases, Map, Option, [], arith, false, inl, inr, length, ltb, ltb→le, ltb→lt,
  none, refl, some, true, ℕ, ◌+◌, ◌<◌, ◌∷◌, ◌≡◌, ◌≤◌, ◌⊎◌,
}
use eie4_mesh_network.Exec.{methods}
use eie4_mesh_network.Exec.Keeps.{Keeps, Keeps-for, keeps_rules}
use eie4_mesh_network.Router.Acks.{
  cleanup_ack_buffer, is_waiting, max_retrans, report_failure, retry_entries, retry_entry,
  sort_entry,
}
use eie4_mesh_network.Router.Invariant.{Invariant}
use eie4_mesh_network.Router.Keeping.{Keeps-notify}
use eie4_mesh_network.Router.Keeping.Instances.{IsSound, IsSound-Invariant}
use eie4_mesh_network.Router.Keeping.Sends.{Keeps-send_rerr}
use eie4_mesh_network.Router.State.{AckBufferEntry, Router, enqueue_tx_packet}

module _ {P : Router → Type 0} (inv : Invariant P) where
  Keeps-report_failure : (e : ℕ × AckBufferEntry) → Keeps P (report_failure e)
  unfolding report_failure
  Keeps-report_failure e = search (keeps_rules, Keeps-send_rerr, Keeps-notify) depth 10

abbrev SoundEntry : ℕ → AckBufferEntry → Type 0
SoundEntry id ent = (length ent.packet ≤ 255) × (ent.attempts ≤ 3)

abbrev SoundOption : Option AckBufferEntry → Type 0
SoundOption none = Unit
SoundOption (some ent) = (length ent.packet ≤ 255) × (ent.attempts ≤ 3)

retry_entry-IsSound :
    (ent : AckBufferEntry) (r : Router)
    → SoundEntry 0 ent
    → IsSound r
    → IsSound (retry_entry ent r).1 × SoundOption (retry_entry ent r).0
unfolding retry_entry enqueue_tx_packet methods
retry_entry-IsSound ent r (l, a) h = elim (Bool-cases (is_waiting ent r)) [
  | inl e ↦ rw e (h, (l, a))
  | inr e ↦ rw e (elim (Bool-cases (ltb ent.attempts max_retrans)) [
    | inr f ↦ rw f (h, tt)
    | inl f ↦ rw f (elim (Bool-cases (r.env.accepts r.attempts)) [
      | inl g ↦ rw g ((h.0, (l, h.1), h.2), (l, omega (arith, ltb→lt ent.attempts 3 f)))
      | inr g ↦ rw g (h, (l, a))
    ])
  ])
]

sort_entry_sound :
    (k : ℕ) (ent : AckBufferEntry) (o : Option AckBufferEntry)
    (rest : Map AckBufferEntry × Map AckBufferEntry)
    → SoundOption o
    → AllEntries SoundEntry rest.0
    → AllEntries SoundEntry (sort_entry k ent o rest).0
sort_entry_sound k ent none rest s h = h
sort_entry_sound k ent (some kept) rest s h = (s, h)

retry_entries-IsSound :
    (m : Map AckBufferEntry) (r : Router)
    → AllEntries SoundEntry m
    → IsSound r
    → IsSound (retry_entries m r).1 × AllEntries SoundEntry (retry_entries m r).0.0
unfolding retry_entries methods
retry_entries-IsSound [] r hm h = (h, tt)
retry_entries-IsSound ((k, ent) ∷ m) r hm h =
    let (h1, s1) = retry_entry-IsSound ent r hm.0 h in
    let (h2, s2) = retry_entries-IsSound m (retry_entry ent r).1 hm.1 h1 in
    (h2, sort_entry_sound k ent (retry_entry ent r).0 _ s1 s2)

-- `cleanupAckBuffer` keeps: what goes to the radio's queue has 255 bytes at most, and so has every
-- packet kept for its ACK, whose count of attempts stays at 3 or below. The library does what GCM
-- promises.
pub cleanup_ack_buffer-IsSound : (r : Router) → IsSound r → IsSound (cleanup_ack_buffer r).1
unfolding cleanup_ack_buffer methods
cleanup_ack_buffer-IsSound r h =
    let (h', kept) = retry_entries-IsSound r.ack_buffer r h.2 h in
    (Keeps-for (retry_entries r.ack_buffer r).0.1 report_failure
        (Keeps-report_failure IsSound-Invariant)).at
      (record (retry_entries r.ack_buffer r).1 { ack_buffer = (retry_entries r.ack_buffer r).0.0 })
      (h'.0, h'.1, kept)

-- What becomes of an entry in a round of the clean-up: it stays while it waits; once its time is
-- over it is sent again, and counted if the radio's queue takes it, while fewer than three attempts
-- were made, and it is given up after three.
pub retry_entry_lem :
    (ent : AckBufferEntry) (r : Router)
    → ((is_waiting ent r ≡ true) × (retry_entry ent r ≡ (some ent, r)))
      ⊎ ((is_waiting ent r ≡ false)
          × ((ent.attempts < 3)
                × (((retry_entry ent r).0
                        ≡ some (record ent { timestamp = r.now; attempts = ent.attempts + 1 }))
                      × ((retry_entry ent r).1.transmitted ≡ ent.packet ∷ r.transmitted)
                    ⊎ ((retry_entry ent r).0 ≡ some ent)
                      × ((retry_entry ent r).1.transmitted ≡ r.transmitted))
              ⊎ (3 ≤ ent.attempts) × (retry_entry ent r ≡ (none, r))))
unfolding retry_entry enqueue_tx_packet methods
retry_entry_lem ent r = elim (Bool-cases (is_waiting ent r)) [
  | inl e ↦ inl (e, rw e refl)
  | inr e ↦ inr (
    e,
    rw e (elim (Bool-cases (ltb ent.attempts max_retrans)) [
      | inr f ↦ inr (ltb→le ent.attempts 3 f, rw f refl)
      | inl f ↦ inl (
        ltb→lt ent.attempts 3 f,
        rw f (elim (Bool-cases (r.env.accepts r.attempts)) [
          | inl g ↦ inl (rw g (refl, refl))
          | inr g ↦ inr (rw g (refl, refl))
        ]),
      )
    ]),
  )
]
