-- ===== src/Radio/Tasks.antt =====
-- src/radioManager.cpp: the interrupt and the two tasks of the radio; of src/SX1262Config.cpp what
-- `isChannelFree` does to the radio before it scans.
use eie4_mesh_network.Prelude.{
  Bool, List, [], false, if◌then◌else◌, length, none, not, some, take, true, ℕ, ◌&&◌, ◌++◌, ◌==◌,
  ◌||◌, ◌∷◌, ◌≡◌,
}
use eie4_mesh_network.Bluetooth.{code}
use eie4_mesh_network.Exec.{Exec}
use eie4_mesh_network.Queues.{offer, receive}
use eie4_mesh_network.Radio.{
  CsmaOptions, Radio, TxState, awaits, contends, dequeue_rx_packet, enqueue_rx_packet,
  enqueue_tx_packet, guards, idle, max_radio_packet, radio_queue_length,
}
use eie4_mesh_network.Radio.Backoff.{back_off_ms, next_bin, next_exp, ticks}

-- What a round of the transmitting task meets: the scan of the channel, a random number, whether the
-- coin defers it, and the result of `startTransmit`.
pub record Chance : Type 0 where
  pub is_free : Bool
  pub random : ℕ
  pub defers : Bool
  pub code : ℕ

-- `dio1Isr` gives the semaphore.
unfoldable pub dio1_isr : Radio → Radio
dio1_isr r = record r { irq = true }

unfoldable pub start_receive : Radio → Radio
start_receive r = record r { listening = true }

-- `isChannelFree`: the radio goes to standby and loses its callback.
unfoldable pub is_channel_free : Radio → Radio
is_channel_free r = record r { listening = false; armed = false }

unfoldable pub handle_transmission_complete : Radio → Radio
handle_transmission_complete r = record r {
  is_transmitting = false;
  listening = true;
  tx_done = true;
}

-- What the radio has read, cut to the size of a packet, goes to the queue.
unfoldable pub store_rx : List ℕ → Radio → Radio
unfolding offer
store_rx packet r = record r { rx_queue = (offer radio_queue_length packet r.rx_queue).1 }

-- `result` is that of `readData`, `packet` what it read.
unfoldable pub handle_receive_interrupt : Bool → ℕ → List ℕ → Radio → Radio
unfolding store_rx start_receive
handle_receive_interrupt allocated result packet r =
    if not allocated || not (result == 0) || length packet == 0
    then start_receive r
    else start_receive (store_rx (take max_radio_packet packet) r)

-- A round of `radioTask`, which waits for the semaphore.
unfoldable pub radio_task : Bool → ℕ → List ℕ → Radio → Radio
unfolding handle_transmission_complete handle_receive_interrupt
radio_task allocated result packet r =
    let woken = record r { irq = false } in
    if not r.irq
    then r
    else if r.is_transmitting
    then handle_transmission_complete woken
    else handle_receive_interrupt allocated result packet woken

-- The start of the loop for a packet.
unfoldable pub contend : List ℕ → Radio → Radio
contend packet r = record r { tx_state = contends packet (ticks r.tick_rate r.csma.bin_init_ms) 2 }

unfoldable pub wait_ms : ℕ → Radio → Radio
wait_ms ms r = record r { waits = r.waits ++ ms ∷ [] }

unfoldable pub back_off : ℕ → List ℕ → ℕ → ℕ → Radio → Radio
unfolding wait_ms
back_off random packet bin exp r =
    wait_ms (back_off_ms r.csma r.tick_rate random bin exp r.csma.scheme) (record r {
      tx_state =
          contends packet (next_bin r.csma r.tick_rate bin r.csma.scheme)
            (next_exp r.csma exp r.csma.scheme);
    })

unfoldable pub guard_time : List ℕ → Radio → Radio
unfolding wait_ms
guard_time packet r = wait_ms 2 (record r { tx_state = guards packet })

-- The packet goes out; on failure it is dropped.
unfoldable pub fire : ℕ → List ℕ → Radio → Radio
unfolding start_receive
fire code packet r =
    let begun = record r { tx_state = idle; started = r.started ++ (packet, code) ∷ [] } in
    if code == 0
    then record begun { is_transmitting = true; listening = false; armed = true }
    else start_receive (record begun { is_transmitting = false; tx_done = true })

-- A turn of the loop, after the scan.
unfoldable pub sense : Chance → List ℕ → ℕ → ℕ → Radio → Radio
unfolding back_off wait_ms guard_time
sense c packet bin exp r =
    if not c.is_free
    then back_off c.random packet bin exp r
    else if r.csma.pcsma_enabled && c.defers
    then wait_ms r.csma.defer_slot_ms r
    else guard_time packet r

-- `xQueueReceive`, and the test whether a transmission is running.
unfoldable pub next_packet : Radio → Radio
unfolding contend receive
next_packet r = elim (receive r.tx_queue) [
  | none ↦ r
  | some (packet, rest) ↦
      let taken = record r { tx_queue = rest } in
      if r.is_transmitting then record taken { tx_state = awaits packet } else contend packet taken
]

-- A round of `txTask` up to its next wait.
unfoldable pub tx_task : Chance → TxState → Radio → Radio
unfolding next_packet contend sense is_channel_free fire
tx_task c idle r = next_packet r
tx_task c (awaits packet) r = if r.tx_done then contend packet (record r { tx_done = false }) else r
tx_task c (contends packet bin exp) r = sense c packet bin exp (is_channel_free r)
tx_task c (guards packet) r = fire c.code packet r

-- The method sends without a queue and a wait; no part of the program calls it.
unfoldable pub send_packet : Chance → List ℕ → Exec Radio Bool
unfolding is_channel_free
send_packet c packet r =
    let scanned = is_channel_free r in
    if not c.is_free
    then (false, scanned)
    else (c.code == 0, record scanned { started = scanned.started ++ (packet, c.code) ∷ [] })

-- What can happen: a packet is queued, DIO1 fires, or a task makes a round.
pub data Step : Radio → Radio → Type 0 where
  queues :
      (r : Radio) (allocated : Bool) (packet : List ℕ)
      → Step r (enqueue_tx_packet allocated packet r).1
  injects :
      (r : Radio) (allocated : Bool) (packet : List ℕ)
      → Step r (enqueue_rx_packet allocated packet r).1
  routes : (r : Radio) → Step r (dequeue_rx_packet r).1
  interrupts : (r : Radio) → r.armed ≡ true → Step r (dio1_isr r)
  radio_runs :
      (r : Radio) (allocated : Bool) (result : ℕ) (packet : List ℕ)
      → Step r (radio_task allocated result packet r)
  tx_runs : (r : Radio) (c : Chance) → Step r (tx_task c r.tx_state r)

pub data Reach (start : Radio) : Radio → Type 0 where
  here : Reach start start
  next : {r s : Radio} → Reach start r → Step r s → Reach start s

-- After `begin`.
abbrev pub begun : CsmaOptions → ℕ → Radio
begun o rate = record {
  csma = o;
  tick_rate = rate;
  tx_queue = [];
  rx_queue = [];
  is_transmitting = false;
  irq = false;
  tx_done = false;
  armed = true;
  listening = true;
  tx_state = idle;
  accepted = [];
  started = [];
  waits = [];
}
