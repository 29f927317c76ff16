-- ===== src/Radio/Bounds.antt =====
-- src/radioManager.cpp: the queues of the radio and the packets in them stay within their sizes.
use eie4_mesh_network.Prelude.{
  All, Bool, Bool-cases, List, [], ap, arith, false, if◌then◌else◌, inl, inr, length, length-take,
  ltb, not, refl, subst, take, true, ℕ, ◌&&◌, ◌==◌, ◌||◌, ◌∷◌, ◌≡◌, ◌≤◌,
}
use eie4_mesh_network.Bluetooth.{code}
use eie4_mesh_network.Queues.{offer, receive}
use eie4_mesh_network.Queues.Bounds.{All-offer, length-offer-le}
use eie4_mesh_network.Radio.{
  CsmaOptions, Radio, TxState, awaits, contends, dequeue_rx_packet, enqueue_rx_packet,
  enqueue_tx_packet, guards, idle, max_radio_packet, take_tx,
}
use eie4_mesh_network.Radio.Order.{held}
use eie4_mesh_network.Radio.Tasks.{
  Chance, Reach, Step, back_off, begun, contend, dio1_isr, fire, guard_time,
  handle_receive_interrupt, handle_transmission_complete, here, injects, interrupts,
  is_channel_free, next, next_packet, queues, radio_runs, radio_task, routes, sense, start_receive,
  store_rx, tx_runs, tx_task, wait_ms,
}
use eie4_mesh_network.Sessions.{step}

abbrev pub Fits : List ℕ → Type 0
Fits p = length p ≤ 255

pub record IsSized (r : Radio) : Type 0 where
  pub sends : length r.tx_queue ≤ 10
  pub receives : length r.rx_queue ≤ 10
  pub send_fits : All Fits r.tx_queue
  pub receive_fits : All Fits r.rx_queue
  pub held_fits : All Fits (held r.tx_state)

-- A round that changes neither queue nor what is held.
same-IsSized :
    (r s : Radio)
    → s.tx_queue ≡ r.tx_queue
    → s.rx_queue ≡ r.rx_queue
    → held s.tx_state ≡ held r.tx_state
    → IsSized r
    → IsSized s
same-IsSized r s t x h z = record {
  sends = rw t z.sends;
  receives = rw x z.receives;
  send_fits = rw t z.send_fits;
  receive_fits = rw x z.receive_fits;
  held_fits = rw h z.held_fits;
}

take_tx-IsSized : (p : List ℕ) (r : Radio) → Fits p → IsSized r → IsSized (take_tx p r)
unfolding take_tx
take_tx-IsSized p r h z = elim (Bool-cases (offer 10 p r.tx_queue).0) [
  | inl e ↦ rw e (record {
    sends = length-offer-le 10 p r.tx_queue z.sends;
    receives = z.receives;
    send_fits = All-offer Fits 10 p r.tx_queue h z.send_fits;
    receive_fits = z.receive_fits;
    held_fits = z.held_fits;
  })
  | inr e ↦ rw e z
]

offer_rx-IsSized :
    (p : List ℕ) (r : Radio)
    → Fits p
    → IsSized r
    → IsSized (record r { rx_queue = (offer 10 p r.rx_queue).1 })
offer_rx-IsSized p r h z = record {
  sends = z.sends;
  receives = length-offer-le 10 p r.rx_queue z.receives;
  send_fits = z.send_fits;
  receive_fits = All-offer Fits 10 p r.rx_queue h z.receive_fits;
  held_fits = z.held_fits;
}

enqueue_tx_packet-IsSized :
    (allocated : Bool) (p : List ℕ) (r : Radio)
    → IsSized r
    → IsSized (enqueue_tx_packet allocated p r).1
unfolding enqueue_tx_packet
enqueue_tx_packet-IsSized allocated p r z =
    elim (Bool-cases (not allocated || ltb max_radio_packet (length p))) [
      | inl e ↦ rw e z
      | inr e ↦ rw e (take_tx-IsSized p r (ground arith) z)
    ]

enqueue_rx_packet-IsSized :
    (allocated : Bool) (p : List ℕ) (r : Radio)
    → IsSized r
    → IsSized (enqueue_rx_packet allocated p r).1
unfolding enqueue_rx_packet
enqueue_rx_packet-IsSized allocated p r z =
    elim (Bool-cases (not allocated || ltb max_radio_packet (length p))) [
      | inl e ↦ rw e z
      | inr e ↦ rw e (offer_rx-IsSized p r (ground arith) z)
    ]

dequeue-IsSized :
    (q : List (List ℕ)) (r : Radio) → r.rx_queue ≡ q → IsSized r → IsSized (dequeue_rx_packet r).1
unfolding dequeue_rx_packet receive
dequeue-IsSized [] r e z = rw (e, dequeue_rx_packet) z
dequeue-IsSized (p ∷ rest) r e z =
    rw (e, dequeue_rx_packet)
      (record {
        sends = z.sends;
        receives = omega (arith, z.receives, ap length e);
        send_fits = z.send_fits;
        receive_fits = (subst (All Fits) e z.receive_fits).1;
        held_fits = z.held_fits;
      })

handle_receive_interrupt-IsSized :
    (allocated : Bool) (result : ℕ) (p : List ℕ) (r : Radio)
    → IsSized r
    → IsSized (handle_receive_interrupt allocated result p r)
unfolding handle_receive_interrupt start_receive store_rx
handle_receive_interrupt-IsSized allocated result p r z =
    elim (Bool-cases (not allocated || not (result == 0) || length p == 0)) [
      | inl e ↦ rw e (same-IsSized r _ refl refl refl z)
      | inr e ↦ rw e (
          same-IsSized (record r { rx_queue = (offer 10 (take 255 p) r.rx_queue).1 }) _ refl refl
            refl (offer_rx-IsSized (take 255 p) r (omega (arith, length-take 255 p)) z))
    ]

if-IsSized : (b : Bool) (x y : Radio) → IsSized x → IsSized y → IsSized (if b then x else y)
if-IsSized true x y zx zy = zx
if-IsSized false x y zx zy = zy

radio_task-IsSized :
    (allocated : Bool) (result : ℕ) (p : List ℕ) (r : Radio)
    → IsSized r
    → IsSized (radio_task allocated result p r)
unfolding radio_task handle_transmission_complete
radio_task-IsSized allocated result p r z =
    let woken : IsSized (record r { irq = false }) = same-IsSized r _ refl refl refl z in
    if-IsSized (not r.irq) _ _ z (
      if-IsSized r.is_transmitting _ _ (same-IsSized r _ refl refl refl z)
        (handle_receive_interrupt-IsSized allocated result p (record r { irq = false }) woken))

next_packet-IsSized :
    (q : List (List ℕ)) (r : Radio) → r.tx_queue ≡ q → IsSized r → IsSized (next_packet r)
unfolding next_packet receive contend
next_packet-IsSized [] r e z = rw (e, next_packet) z
next_packet-IsSized (p ∷ rest) r e z = elim (Bool-cases r.is_transmitting) [
  | inl b ↦ rw (e, next_packet) (rw b (taken _ refl refl refl))
  | inr b ↦ rw (e, next_packet) (rw b (taken _ refl refl refl))
]
  where
    taken :
        (s : Radio)
        → s.tx_queue ≡ rest
        → s.rx_queue ≡ r.rx_queue
        → held s.tx_state ≡ p ∷ []
        → IsSized s
    taken s t x h = record {
      sends = rw t (omega (arith, z.sends, ap length e));
      receives = rw x z.receives;
      send_fits = rw t ((subst (All Fits) e z.send_fits).1);
      receive_fits = rw x z.receive_fits;
      held_fits = rw h ((subst (All Fits) e z.send_fits).0, tt);
    }

fire-IsSized : (code : ℕ) (p : List ℕ) (r : Radio) → IsSized r → IsSized (fire code p r)
unfolding fire start_receive
fire-IsSized code p r z = elim (Bool-cases (code == 0)) [
  | inl e ↦ rw e (dropped _ refl refl refl)
  | inr e ↦ rw e (dropped _ refl refl refl)
]
  where
    dropped :
        (s : Radio)
        → s.tx_queue ≡ r.tx_queue
        → s.rx_queue ≡ r.rx_queue
        → held s.tx_state ≡ []
        → IsSized s
    dropped s t x h = record {
      sends = rw t z.sends;
      receives = rw x z.receives;
      send_fits = rw t z.send_fits;
      receive_fits = rw x z.receive_fits;
      held_fits = rw h tt;
    }

tx_task-IsSized :
    (c : Chance) (st : TxState) (r : Radio) → r.tx_state ≡ st → IsSized r → IsSized (tx_task c st r)
unfolding tx_task contend is_channel_free sense back_off wait_ms guard_time
tx_task-IsSized c idle r e z = next_packet-IsSized r.tx_queue r refl z
tx_task-IsSized c (awaits p) r e z = elim (Bool-cases r.tx_done) [
  | inl b ↦ rw b (same-IsSized r _ refl refl (rw e refl) z)
  | inr b ↦ simp b z
]
tx_task-IsSized c (contends p bin exp) r e z = elim (Bool-cases c.is_free) [
  | inr b ↦ rw b (same-IsSized r _ refl refl (rw e refl) z)
  | inl b ↦ elim (Bool-cases (r.csma.pcsma_enabled && c.defers)) [
    | inl d ↦ rw b (rw d (same-IsSized r _ refl refl refl z))
    | inr d ↦ rw b (rw d (same-IsSized r _ refl refl (rw e refl) z))
  ]
]
tx_task-IsSized c (guards p) r e z = fire-IsSized c.code p r z

Step-IsSized : {r s : Radio} → Step r s → IsSized r → IsSized s
unfolding dio1_isr
Step-IsSized (queues r allocated p) z = enqueue_tx_packet-IsSized allocated p r z
Step-IsSized (injects r allocated p) z = enqueue_rx_packet-IsSized allocated p r z
Step-IsSized (routes r) z = dequeue-IsSized r.rx_queue r refl z
Step-IsSized (interrupts r armed) z = same-IsSized r _ refl refl refl z
Step-IsSized (radio_runs r allocated result p) z = radio_task-IsSized allocated result p r z
Step-IsSized (tx_runs r c) z = tx_task-IsSized c r.tx_state r refl z

-- In every state that a radio reaches after `begin`, whatever it reads and whatever it is given to
-- send, both queues hold at most ten packets, and every packet in them and the one that is being
-- sent have at most 255 bytes.
pub Reach-IsSized : (o : CsmaOptions) (rate : ℕ) {r : Radio} → Reach (begun o rate) r → IsSized r
Reach-IsSized o rate here = record {
  sends = omega arith;
  receives = omega arith;
  send_fits = tt;
  receive_fits = tt;
  held_fits = tt;
}
Reach-IsSized o rate (next path step) = Step-IsSized step (Reach-IsSized o rate path)
