-- ===== src/Radio/Order.antt =====
-- src/radioManager.cpp: no packet is lost, doubled or overtaken between the queue and the radio.
use mathlib.Core.List.{append_assoc, map-append}
use eie4_mesh_network.Prelude.{
  Bool, Bool-cases, List, [], ap, arith, inl, inr, length, ltb, map, not, refl, sym, ℕ, ◌&&◌, ◌++◌,
  ◌==◌, ◌||◌, ◌∙◌, ◌∷◌, ◌≡◌,
}
use eie4_mesh_network.Bluetooth.{code}
use eie4_mesh_network.Queues.{offer, receive}
use eie4_mesh_network.Radio.{
  CsmaOptions, Radio, TxState, awaits, contends, dequeue_rx_packet, enqueue_rx_packet,
  enqueue_tx_packet, guards, idle, max_radio_packet, take_tx,
}
use eie4_mesh_network.Radio.Tasks.{
  Chance, Reach, Step, back_off, begun, contend, dio1_isr, fire, guard_time,
  handle_receive_interrupt, handle_transmission_complete, here, injects, interrupts,
  is_channel_free, next, next_packet, queues, radio_runs, radio_task, routes, sense, start_receive,
  store_rx, tx_runs, tx_task, wait_ms,
}
use eie4_mesh_network.Sessions.{step}

-- The packet that the transmitting task holds.
abbrev pub held : TxState → List (List ℕ)
held idle = []
held (awaits p) = p ∷ []
held (contends p bin exp) = p ∷ []
held (guards p) = p ∷ []

-- Every packet that the queue took was started, is held or waits, in the order in which it came.
abbrev pub InOrder : Radio → Type 0
InOrder r = map (λ s. s.0) r.started ++ (held r.tx_state ++ r.tx_queue) ≡ r.accepted

-- A round that touches none of the four.
abbrev Quiet : Radio → Radio → Type 0
Quiet r s =
    (s.started ≡ r.started)
    × (s.tx_state ≡ r.tx_state)
    × (s.tx_queue ≡ r.tx_queue)
    × (s.accepted ≡ r.accepted)

Quiet-InOrder : (r s : Radio) → Quiet r s → InOrder r → InOrder s
Quiet-InOrder r s q o = rw (q.0, q.1, q.2, q.3) o

radio_task-Quiet :
    (allocated : Bool) (result : ℕ) (bytes : List ℕ) (r : Radio)
    → Quiet r (radio_task allocated result bytes r)
unfolding radio_task handle_transmission_complete handle_receive_interrupt store_rx start_receive
radio_task-Quiet allocated result bytes r = ground arith

enqueue_rx_packet-Quiet :
    (allocated : Bool) (bytes : List ℕ) (r : Radio)
    → Quiet r (enqueue_rx_packet allocated bytes r).1
unfolding enqueue_rx_packet
enqueue_rx_packet-Quiet allocated bytes r = ground arith

dequeue_rx_packet-Quiet : (r : Radio) → Quiet r (dequeue_rx_packet r).1
unfolding dequeue_rx_packet receive
dequeue_rx_packet-Quiet r = ground arith

take_tx-InOrder : (p : List ℕ) (r : Radio) → InOrder r → InOrder (take_tx p r)
unfolding take_tx offer
take_tx-InOrder p r o = elim (Bool-cases (ltb (length r.tx_queue) 10)) [
  | inl e ↦ rw e (
      sym (
        ap (λ xs. map (λ s. s.0) r.started ++ xs)
          (append_assoc (held r.tx_state) r.tx_queue (p ∷ [])))
      ∙ sym (append_assoc (map (λ s. s.0) r.started) (held r.tx_state ++ r.tx_queue) (p ∷ []))
      ∙ ap (λ xs. xs ++ p ∷ []) o)
  | inr e ↦ rw e o
]

enqueue_tx_packet-InOrder :
    (allocated : Bool) (bytes : List ℕ) (r : Radio)
    → InOrder r
    → InOrder (enqueue_tx_packet allocated bytes r).1
unfolding enqueue_tx_packet
enqueue_tx_packet-InOrder allocated bytes r o =
    elim (Bool-cases (not allocated || ltb max_radio_packet (length bytes))) [
      | inl e ↦ rw e o
      | inr e ↦ rw e (take_tx-InOrder bytes r o)
    ]

started_last :
    (code : ℕ) (p : List ℕ) (r : Radio)
    → r.tx_state ≡ guards p
    → InOrder r
    → map (λ s. s.0) (r.started ++ (p, code) ∷ []) ++ r.tx_queue ≡ r.accepted
started_last code p r e o =
    ap (λ xs. xs ++ r.tx_queue) (map-append (λ s. s.0) r.started ((p, code) ∷ []))
    ∙ append_assoc (map (λ s. s.0) r.started) (p ∷ []) r.tx_queue
    ∙ (rw e at o)

fire-InOrder :
    (code : ℕ) (p : List ℕ) (r : Radio)
    → r.tx_state ≡ guards p
    → InOrder r
    → InOrder (fire code p r)
unfolding fire start_receive
fire-InOrder code p r e o = elim (Bool-cases (code == 0)) [
  | inl z ↦ rw z (started_last code p r e o)
  | inr z ↦ rw z (started_last code p r e o)
]

next_packet-InOrder :
    (q : List (List ℕ)) (r : Radio)
    → r.tx_queue ≡ q
    → r.tx_state ≡ idle
    → InOrder r
    → InOrder (next_packet r)
unfolding next_packet receive contend
next_packet-InOrder [] r e i o = rw (e, next_packet) o
next_packet-InOrder (p ∷ rest) r e i o = elim (Bool-cases r.is_transmitting) [
  | inl b ↦ rw (e, next_packet) (rw b (rw (i, e) at o))
  | inr b ↦ rw (e, next_packet) (rw b (rw (i, e) at o))
]

sense-InOrder :
    (c : Chance) (p : List ℕ) (bin exp : ℕ) (r : Radio)
    → r.tx_state ≡ contends p bin exp
    → InOrder r
    → InOrder (sense c p bin exp r)
unfolding sense back_off wait_ms guard_time
sense-InOrder c p bin exp r e o = elim (Bool-cases c.is_free) [
  | inr b ↦ rw b (rw e at o)
  | inl b ↦ elim (Bool-cases (r.csma.pcsma_enabled && c.defers)) [
    | inl d ↦ rw b (rw d o)
    | inr d ↦ rw b (rw d (rw e at o))
  ]
]

tx_task-InOrder :
    (c : Chance) (st : TxState) (r : Radio) → r.tx_state ≡ st → InOrder r → InOrder (tx_task c st r)
unfolding tx_task contend is_channel_free
tx_task-InOrder c idle r e o = next_packet-InOrder r.tx_queue r refl e o
tx_task-InOrder c (awaits p) r e o = elim (Bool-cases r.tx_done) [
  | inl b ↦ rw b (rw e at o)
  | inr b ↦ rw b o
]
tx_task-InOrder c (contends p bin exp) r e o = sense-InOrder c p bin exp (is_channel_free r) e o
tx_task-InOrder c (guards p) r e o = fire-InOrder c.code p r e o

Step-InOrder : {r s : Radio} → Step r s → InOrder r → InOrder s
unfolding dio1_isr
Step-InOrder (queues r allocated bytes) o = enqueue_tx_packet-InOrder allocated bytes r o
Step-InOrder (injects r allocated bytes) o =
    Quiet-InOrder r (enqueue_rx_packet allocated bytes r).1
      (enqueue_rx_packet-Quiet allocated bytes r) o
Step-InOrder (routes r) o = Quiet-InOrder r (dequeue_rx_packet r).1 (dequeue_rx_packet-Quiet r) o
Step-InOrder (interrupts r armed) o = o
Step-InOrder (radio_runs r allocated result bytes) o =
    Quiet-InOrder r (radio_task allocated result bytes r)
      (radio_task-Quiet allocated result bytes r) o
Step-InOrder (tx_runs r c) o = tx_task-InOrder c r.tx_state r refl o

-- In every state that a radio reaches after `begin`, whatever the channel, the interrupts and the
-- router do, the packets that the queue took are, in this order, the packets given to the radio,
-- the one that the transmitting task holds, and those that wait: none is lost before it was given
-- to the radio, given twice, or overtaken.
pub Reach-InOrder : (o : CsmaOptions) (rate : ℕ) {r : Radio} → Reach (begun o rate) r → InOrder r
Reach-InOrder o rate here = refl
Reach-InOrder o rate (next path step) = Step-InOrder step (Reach-InOrder o rate path)
