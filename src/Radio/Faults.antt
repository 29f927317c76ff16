-- ===== src/Radio/Faults.antt =====
-- src/radioManager.cpp: two ways in which the tasks of the radio miss each other.
use eie4_mesh_network.Prelude.{
  List, [], arith, false, length, le→ltb, lt→ltb, refl, subst, true, ℕ, ◌++◌, ◌<◌, ◌∷◌, ◌≡◌, ◌≤◌,
}
use eie4_mesh_network.Queues.{offer, receive}
use eie4_mesh_network.Radio.{
  Radio, awaits, contends, default_csma, enqueue_tx_packet, guards, idle, take_tx,
}
use eie4_mesh_network.Radio.Backoff.{ticks}
use eie4_mesh_network.Radio.Tasks.{
  Chance, Reach, Step, begun, contend, dio1_isr, fire, handle_transmission_complete, here,
  interrupts, is_channel_free, next, next_packet, queues, radio_runs, radio_task, sense, tx_runs,
  tx_task, wait_ms,
}

-- A round in which the channel is free and the radio takes the packet.
abbrev pub clear : Chance
clear = record { is_free = true; random = 0; defers = false; code = 0 }

queued :
    (p : List ℕ) (r : Radio)
    → length p ≤ 255
    → length r.tx_queue < 10
    → (enqueue_tx_packet true p r).1
      ≡ record r { tx_queue = r.tx_queue ++ p ∷ []; accepted = r.accepted ++ p ∷ [] }
unfolding enqueue_tx_packet take_tx offer
queued p r fits room =
    rw (le→ltb 255 (length p) fits, enqueue_tx_packet)
      (rw (lt→ltb (length r.tx_queue) 10 room, take_tx, offer))

-- After `begin`, with three packets in the queue.
abbrev with_three : ℕ → List ℕ → List ℕ → List ℕ → Radio
with_three rate p1 p2 p3 = record (begun default_csma rate) {
  tx_queue = p1 ∷ p2 ∷ p3 ∷ [];
  accepted = p1 ∷ p2 ∷ p3 ∷ [];
}

Reach-with_three :
    (rate : ℕ) (p1 p2 p3 : List ℕ)
    → length p1 ≤ 255
    → length p2 ≤ 255
    → length p3 ≤ 255
    → Reach (begun default_csma rate) (with_three rate p1 p2 p3)
Reach-with_three rate p1 p2 p3 f1 f2 f3 =
    let r0 = begun default_csma rate in
    let r1 = record r0 { tx_queue = p1 ∷ []; accepted = p1 ∷ [] } in
    let r2 = record r0 { tx_queue = p1 ∷ p2 ∷ []; accepted = p1 ∷ p2 ∷ [] } in
    next
      (next (next here (subst (Step r0) (queued p1 r0 f1 (omega arith)) (queues r0 true p1)))
        (subst (Step r1) (queued p2 r1 f2 (omega arith)) (queues r1 true p2)))
      (subst (Step r2) (queued p3 r2 f3 (omega arith)) (queues r2 true p3))

-- The first packet goes out and ends, the second goes out, and the task turns to the third.
then_two :
    (rate : ℕ) (p1 p2 p3 : List ℕ)
    → Reach (begun default_csma rate) (with_three rate p1 p2 p3)
    → (r : Radio) × Reach (begun default_csma rate) r
      × (r.is_transmitting ≡ true)
      × (r.tx_state ≡ contends p3 (ticks rate 10) 2)
unfolding tx_task next_packet contend receive sense is_channel_free fire wait_ms dio1_isr radio_task
    handle_transmission_complete
then_two rate p1 p2 p3 path =
    let r3 = with_three rate p1 p2 p3 in
    let r4 = tx_task clear idle r3 in
    let r5 = tx_task clear (contends p1 (ticks rate 10) 2) r4 in
    let r5' = tx_task clear (guards p1) r5 in
    let r6 = dio1_isr r5' in
    let r7 = radio_task true 0 [] r6 in
    let r8 = tx_task clear idle r7 in
    let r9 = tx_task clear (contends p2 (ticks rate 10) 2) r8 in
    let r9' = tx_task clear (guards p2) r9 in
    let r10 = tx_task clear idle r9' in
    let r11 = tx_task clear (awaits p3) r10 in
    (
      r11,
      next
          (next
            (next
              (next
                (next
                  (next
                    (next
                      (next (next (next path (tx_runs r3 clear)) (tx_runs r4 clear))
                        (tx_runs r5 clear))
                      (interrupts r5' refl))
                    (radio_runs r6 true 0 []))
                  (tx_runs r7 clear))
                (tx_runs r8 clear))
              (tx_runs r9 clear))
            (tx_runs r9' clear))
          (tx_runs r10 clear),
      refl,
      refl,
    )

-- The semaphore for the end of a transmission keeps the token of a transmission that nobody waited
-- for: with the settings of the firmware and any three packets that fit, a state is reached in
-- which a transmission is running although the task, which holds the next packet, is past its wait
-- for the end of it; its next round looks at the channel.
pub Reach-overlap :
    (rate : ℕ) (p1 p2 p3 : List ℕ)
    → length p1 ≤ 255
    → length p2 ≤ 255
    → length p3 ≤ 255
    → (r : Radio) × Reach (begun default_csma rate) r
      × (r.is_transmitting ≡ true)
      × (r.tx_state ≡ contends p3 (ticks rate 10) 2)
Reach-overlap rate p1 p2 p3 f1 f2 f3 =
    then_two rate p1 p2 p3 (Reach-with_three rate p1 p2 p3 f1 f2 f3)
