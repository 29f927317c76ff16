-- ===== src/Router/Acks/GivesUp.antt =====
-- src/aodvRouter.cpp: rounds of `cleanupAckBuffer` over packets that get no ACK.
use eie4_mesh_network.Prelude.{
  AllEntries, Bool-cases, List, Map, Option, [], ap, arith, false, inl, inr, length, le→ltb, ltb,
  ltb→lt, none, refl, some, subst, sym, true, ℕ, ◌+◌, ◌∙◌, ◌∷◌, ◌≡◌, ◌≤◌,
}
use eie4_mesh_network.Exec.{methods}
use eie4_mesh_network.Router.Acks.{
  cleanup_ack_buffer, elapsed, is_waiting, max_retrans, ms_to_ticks, retry_entries, retry_entry,
  sort_entry,
}
use eie4_mesh_network.Router.Acks.Reports.{reports-Same}
use eie4_mesh_network.Router.State.{AckBufferEntry, Env, Router, enqueue_tx_packet}

-- Each time is at least the timeout behind the one before.
abbrev pub AreLate : Env → ℕ → List ℕ → Type 0
AreLate env last [] = Unit
AreLate env last (t ∷ ts) = (ms_to_ticks 3000 env ≤ elapsed t last) × AreLate env t ts

-- Rounds at the given times.
unfoldable pub after_rounds : List ℕ → Router → Router
after_rounds [] r = r
after_rounds (t ∷ ts) r = after_rounds ts (cleanup_ack_buffer (record r { now = t })).1

-- What an entry is before rounds at the given times: `n` attempts or more were made, and every round
-- finds its time over.
abbrev Lasts : Env → ℕ → List ℕ → AckBufferEntry → Type 0
Lasts e n ts ent = (n ≤ ent.attempts) × (ent.attempts ≤ 3) × AreLate e ent.timestamp ts

abbrev KeptLasts : Env → ℕ → List ℕ → Option AckBufferEntry → Type 0
KeptLasts e n ts none = Unit
KeptLasts e n ts (some ent) = (n ≤ ent.attempts) × (ent.attempts ≤ 3) × AreLate e ent.timestamp ts

-- A round of an entry.
retry_entry-Lasts :
    (n t : ℕ) (ts : List ℕ) (ent : AckBufferEntry) (r : Router)
    → ((k : ℕ) → r.env.accepts k ≡ true)
    → r.now ≡ t
    → Lasts r.env n (t ∷ ts) ent
    → ((retry_entry ent r).1.env ≡ r.env)
      × ((retry_entry ent r).1.now ≡ r.now)
      × KeptLasts r.env (n + 1) ts (retry_entry ent r).0
unfolding retry_entry is_waiting enqueue_tx_packet methods
retry_entry-Lasts n t ts ent r takes now (more, few, (due, late)) =
    let over : ltb (elapsed r.now ent.timestamp) (ms_to_ticks 3000 r.env) ≡ false =
      rw now (le→ltb _ _ due) in
    elim (Bool-cases (ltb ent.attempts max_retrans)) [
      | inl a ↦ rw over (
          rw a (
            rw (takes r.attempts) (
              refl,
              refl,
              (
                omega (arith, more),
                omega (arith, ltb→lt ent.attempts 3 a),
                subst (λ k. AreLate r.env k ts) (sym now) late,
              ),
            )))
      | inr a ↦ rw over (rw a (refl, refl, tt))
    ]

abbrev AllLast : Env → ℕ → List ℕ → Map AckBufferEntry → Type 0
AllLast e n ts m = AllEntries (λ id ent. Lasts e n ts ent) m

sort_entry_lasts :
    (e : Env) (n : ℕ) (ts : List ℕ) (k : ℕ) (ent : AckBufferEntry) (o : Option AckBufferEntry)
    (rest : Map AckBufferEntry × Map AckBufferEntry)
    → KeptLasts e n ts o
    → AllLast e n ts rest.0
    → AllLast e n ts (sort_entry k ent o rest).0
sort_entry_lasts e n ts k ent none rest s h = h
sort_entry_lasts e n ts k ent (some kept) rest s h = (s, h)

retry_entries-AllLast :
    (n t : ℕ) (ts : List ℕ) (m : Map AckBufferEntry) (r : Router) (e : Env)
    → ((k : ℕ) → e.accepts k ≡ true)
    → r.env ≡ e
    → r.now ≡ t
    → AllLast e n (t ∷ ts) m
    → ((retry_entries m r).1.env ≡ e) × AllLast e (n + 1) ts (retry_entries m r).0.0
unfolding retry_entries methods
retry_entries-AllLast n t ts [] r e takes v now h = (v, tt)
retry_entries-AllLast n t ts ((k, ent) ∷ m) r e takes v now (h, hs) =
    let (v1, now1, kept) =
      retry_entry-Lasts n t ts ent r (λ k. ap (λ x. x.accepts k) v ∙ takes k) now
        (subst (λ x. Lasts x n (t ∷ ts) ent) (sym v) h) in
    let (v2, rest) =
      retry_entries-AllLast n t ts m (retry_entry ent r).1 e takes (v1 ∙ v) (now1 ∙ now) hs in
    (
      v2,
      sort_entry_lasts e (n + 1) ts k ent (retry_entry ent r).0 _
          (subst (λ x. KeptLasts x (n + 1) ts (retry_entry ent r).0) v kept) rest,
    )

-- A whole round.
cleanup_ack_buffer-AllLast :
    (n t : ℕ) (ts : List ℕ) (r : Router) (e : Env)
    → ((k : ℕ) → e.accepts k ≡ true)
    → r.env ≡ e
    → AllLast e n (t ∷ ts) r.ack_buffer
    → ((cleanup_ack_buffer (record r { now = t })).1.env ≡ e)
      × AllLast e (n + 1) ts (cleanup_ack_buffer (record r { now = t })).1.ack_buffer
unfolding cleanup_ack_buffer methods
cleanup_ack_buffer-AllLast n t ts r e takes v h =
    let now_t = record r { now = t } in
    let sorted = retry_entries r.ack_buffer now_t in
    let (v', kept) = retry_entries-AllLast n t ts r.ack_buffer now_t e takes v refl h in
    let (b, w) = reports-Same sorted.0.1 (record (sorted.1) { ack_buffer = sorted.0.0 }) in
    (w ∙ v', subst (AllLast e (n + 1) ts) (sym b) kept)

none_lasts : (e : Env) (n : ℕ) (m : Map AckBufferEntry) → 4 ≤ n → AllLast e n [] m → m ≡ []
none_lasts e n [] l h = refl
none_lasts e n ((k, ent) ∷ m) l (h, hs) = absurd (omega (arith, l, h.0, h.1))

after_rounds_empty :
    (ts : List ℕ) (n : ℕ) (r : Router) (e : Env)
    → ((k : ℕ) → e.accepts k ≡ true)
    → r.env ≡ e
    → AllLast e n ts r.ack_buffer
    → 4 ≤ length ts + n
    → (after_rounds ts r).ack_buffer ≡ []
unfolding after_rounds
after_rounds_empty [] n r e takes v h l = none_lasts e n r.ack_buffer (omega (arith, l)) h
after_rounds_empty (t ∷ ts) n r e takes v h l =
    let (v', h') = cleanup_ack_buffer-AllLast n t ts r e takes v h in
    after_rounds_empty ts (n + 1) (cleanup_ack_buffer (record r { now = t })).1 e takes v' h'
      (omega (arith, l))

-- The buffer of packets that wait for an ACK is empty after four or more rounds of the clean-up with
-- nothing else between them, if each time is a timeout or more behind the one before, and the first
-- behind the time of each packet, no packet was repeated more than three times before, and the
-- radio's queue takes what it is given.
pub after_rounds_lem :
    (ts : List ℕ) (r : Router)
    → ((k : ℕ) → r.env.accepts k ≡ true)
    → AllEntries (λ id ent. (ent.attempts ≤ 3) × AreLate r.env ent.timestamp ts) r.ack_buffer
    → 4 ≤ length ts
    → (after_rounds ts r).ack_buffer ≡ []
after_rounds_lem ts r takes h l =
    after_rounds_empty ts 0 r r.env takes refl (from_start r.ack_buffer h) (omega (arith, l))
  where
    from_start :
        (m : Map AckBufferEntry)
        → AllEntries (λ id ent. (ent.attempts ≤ 3) × AreLate r.env ent.timestamp ts) m
        → AllLast r.env 0 ts m
    from_start [] h = tt
    from_start ((k, ent) ∷ m) (h, hs) = ((omega arith, h.0, h.1), from_start m hs)
