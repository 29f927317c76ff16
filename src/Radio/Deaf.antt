-- ===== src/Radio/Deaf.antt =====
-- src/radioManager.cpp: a transmission that fails.
use eie4_mesh_network.Prelude.{
  ==_ne, Bool, Bool-cases, List, [], arith, false, inl, inr, length, ltb, not, refl, subst, sym, ℕ,
  ◌||◌, ◌∙◌, ◌∷◌, ◌≡◌, ◌≢◌, ◌⊎◌,
}
use eie4_mesh_network.Queues.{offer, receive}
use eie4_mesh_network.Radio.{
  Radio, dequeue_rx_packet, enqueue_rx_packet, enqueue_tx_packet, guards, idle, max_radio_packet,
  take_tx,
}
use eie4_mesh_network.Radio.Tasks.{
  Chance, Step, fire, injects, interrupts, next_packet, queues, radio_runs, radio_task, routes,
  start_receive, tx_runs, tx_task,
}

-- The radio hears nothing: its callback is not set, no interrupt is pending, and nothing is to be
-- sent, which would set it.
pub record IsDeaf (r : Radio) : Type 0 where
  pub disarmed : r.armed ≡ false
  pub quiet : r.irq ≡ false
  pub resting : r.tx_state ≡ idle
  pub empty : r.tx_queue ≡ []

failed-IsDeaf :
    (c : Chance) (p : List ℕ) (r : Radio)
    → c.code ≢ 0
    → r.armed ≡ false
    → r.irq ≡ false
    → r.tx_queue ≡ []
    → IsDeaf (tx_task c (guards p) r)
unfolding tx_task fire start_receive
failed-IsDeaf c p r bad a i e =
    rw (==_ne c.code 0 bad) (record { disarmed = a; quiet = i; resting = refl; empty = e })

still-IsDeaf :
    (s t : Radio)
    → t.armed ≡ s.armed
    → t.irq ≡ s.irq
    → t.tx_state ≡ s.tx_state
    → t.tx_queue ≡ s.tx_queue
    → IsDeaf s
    → IsDeaf t
still-IsDeaf s t a i st q d = record {
  disarmed = a ∙ d.disarmed;
  quiet = i ∙ d.quiet;
  resting = st ∙ d.resting;
  empty = q ∙ d.empty;
}

-- A packet waits to be sent, the only way out of deafness.
abbrev pub IsWoken : Radio → Type 0
IsWoken t = (q : List ℕ) × (t.tx_queue ≡ q ∷ [])

queues-IsDeaf :
    (allocated : Bool) (p : List ℕ) (s : Radio)
    → IsDeaf s
    → IsDeaf (enqueue_tx_packet allocated p s).1 ⊎ IsWoken (enqueue_tx_packet allocated p s).1
unfolding enqueue_tx_packet take_tx offer
queues-IsDeaf allocated p s d =
    elim (Bool-cases (not allocated || ltb max_radio_packet (length p))) [
      | inl e ↦ rw e (inl d)
      | inr e ↦ rw e (rw (d.empty) (inr (p, refl)))
    ]

idle-IsDeaf : (c : Chance) (s : Radio) → IsDeaf s → tx_task c s.tx_state s ≡ s
unfolding tx_task next_packet receive
idle-IsDeaf c s d =
    subst (λ st. tx_task c st s ≡ s) (sym d.resting) (simp (d.empty, next_packet) refl)

stays-IsDeaf : (s t : Radio) → IsDeaf s → Step s t → IsDeaf t ⊎ IsWoken t
unfolding radio_task enqueue_rx_packet dequeue_rx_packet receive
stays-IsDeaf _ _ d (queues s allocated p) = queues-IsDeaf allocated p s d
stays-IsDeaf _ _ d (injects s allocated p) = inl (
    still-IsDeaf s (enqueue_rx_packet allocated p s).1 (ground arith) (ground arith) (ground arith)
      (ground arith) d)
stays-IsDeaf _ _ d (routes s) = inl (
    still-IsDeaf s (dequeue_rx_packet s).1 (ground arith) (ground arith) (ground arith)
      (ground arith) d)
stays-IsDeaf _ _ d (interrupts s armed) = absurd (cc (d.disarmed, armed))
stays-IsDeaf _ _ d (radio_runs s allocated result p) = simp (d.quiet) (inl d)
stays-IsDeaf _ _ d (tx_runs s c) = inl (subst IsDeaf (sym (idle-IsDeaf c s d)) d)

-- What happens while the router sends nothing: any steps after which no packet waits.
pub data Quiet (start : Radio) : Radio → Type 0 where
  stays : Quiet start start
  silent_step : {r s : Radio} → Quiet start r → Step r s → s.tx_queue ≡ [] → Quiet start s

-- When `startTransmit` fails, after a scan that has taken the callback, while nothing else is to be
-- sent and no interrupt is pending, the radio is deaf from then on: its callback is not set again by
-- anything that happens, packets on the air included, as long as the router sends nothing.
pub tx_task-IsDeaf :
    (c : Chance) (p : List ℕ) (r : Radio) {s : Radio}
    → c.code ≢ 0
    → r.armed ≡ false
    → r.irq ≡ false
    → r.tx_queue ≡ []
    → Quiet (tx_task c (guards p) r) s
    → IsDeaf s
tx_task-IsDeaf c p r bad a i e stays = failed-IsDeaf c p r bad a i e
tx_task-IsDeaf c p r bad a i e (silent_step q event none_waits) =
    elim (stays-IsDeaf _ _ (tx_task-IsDeaf c p r bad a i e q) event) [
      | inl d ↦ d
      | inr (packet, waiting) ↦ absurd (ground (arith, none_waits, waiting))
    ]
