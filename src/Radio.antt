-- ===== src/Radio.antt =====
-- src/radioManager.h and .cpp: the queues of the radio, the task that waits for a free channel and
-- transmits, and the task that serves the interrupt. A round of a task between two waits is a step.
pub mod Backoff
pub mod Tasks
pub mod Order
pub mod Bounds
pub mod Contention
pub mod Faults
pub mod Deaf
use eie4_mesh_network.Prelude.{
  Bool, List, Option, [], false, if◌then◌else◌, length, ltb, none, not, some, ℕ, ◌++◌, ◌||◌, ◌∷◌,
}
use eie4_mesh_network.Exec.{Exec}
use eie4_mesh_network.Queues.{offer, receive}

pub data BackoffScheme : Type 0 where
  legacy binary be : BackoffScheme

-- `CsmaOptions`, without `pTransmit` and `ifsMs`: the first is compared as a floating-point number, of
-- which a round gets the result, the second is not used.
pub record CsmaOptions : Type 0 where
  pub scheme : BackoffScheme
  pub pcsma_enabled : Bool
  pub legacy_min_ms : ℕ
  pub legacy_max_ms : ℕ
  pub bin_init_ms : ℕ
  pub bin_max_ms : ℕ
  pub be_unit_ms : ℕ
  pub be_max_exp : ℕ
  pub defer_slot_ms : ℕ

abbrev pub default_csma : CsmaOptions
default_csma = record {
  scheme = legacy;
  pcsma_enabled = false;
  legacy_min_ms = 5;
  legacy_max_ms = 50;
  bin_init_ms = 10;
  bin_max_ms = 2000;
  be_unit_ms = 10;
  be_max_exp = 5;
  defer_slot_ms = 300;
}

-- Where the transmitting task stands: before `xQueueReceive`, before the end of the transmission
-- that it waits for, in the loop with its two variables, or in the guard time before it sends.
pub data TxState : Type 0 where
  idle : TxState
  awaits : List ℕ → TxState
  contends : List ℕ → ℕ → ℕ → TxState
  guards : List ℕ → TxState

-- A packet is the list of the bytes that `len` delimits. `armed` is whether the radio has the
-- callback for DIO1, `listening` whether it receives. The logs `accepted` (taken by `_txQueue`),
-- `started` (given to `startTransmit`, with its result) and `waits` (of `vTaskDelay`, in
-- milliseconds) are oldest first.
pub record Radio : Type 0 where
  pub csma : CsmaOptions
  pub tick_rate : ℕ
  pub tx_queue : List (List ℕ)
  pub rx_queue : List (List ℕ)
  pub is_transmitting : Bool
  pub irq : Bool
  pub tx_done : Bool
  pub armed : Bool
  pub listening : Bool
  pub tx_state : TxState
  pub accepted : List (List ℕ)
  pub started : List (List ℕ × ℕ)
  pub waits : List ℕ

abbrev pub radio_queue_length : ℕ
radio_queue_length = 10

abbrev pub max_radio_packet : ℕ
max_radio_packet = 255

unfoldable pub take_tx : List ℕ → Radio → Radio
unfolding offer
take_tx packet r =
    if (offer radio_queue_length packet r.tx_queue).0
    then record r {
      tx_queue = (offer radio_queue_length packet r.tx_queue).1;
      accepted = r.accepted ++ packet ∷ [];
    }
    else r

-- `allocated` is whether `pvPortMalloc` succeeds.
unfoldable pub enqueue_tx_packet : Bool → List ℕ → Exec Radio Bool
unfolding take_tx
enqueue_tx_packet allocated packet r =
    if not allocated || ltb max_radio_packet (length packet)
    then (false, r)
    else ((offer radio_queue_length packet r.tx_queue).0, take_tx packet r)

unfoldable pub enqueue_rx_packet : Bool → List ℕ → Exec Radio Bool
unfolding offer
enqueue_rx_packet allocated packet r =
    if not allocated || ltb max_radio_packet (length packet)
    then (false, r)
    else let (taken, q) = offer radio_queue_length packet r.rx_queue in
      (taken, record r { rx_queue = q })

-- The wait for a packet is the caller's: `none` while the queue is empty.
unfoldable pub dequeue_rx_packet : Exec Radio (Option (List ℕ))
unfolding receive
dequeue_rx_packet r = elim (receive r.rx_queue) [
  | none ↦ (none, r)
  | some (packet, rest) ↦ (some packet, record r { rx_queue = rest })
]
