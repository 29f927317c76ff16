-- ===== src/Examples/Radios.antt =====
-- The theorems on the radio, with the settings of the firmware.
use eie4_mesh_network.Prelude.{[], arith, false, length, refl, true, ◌∷◌, ◌≡◌}
use eie4_mesh_network.Examples.{hello}
use eie4_mesh_network.Radio.{Radio, contends, default_csma, enqueue_tx_packet, guards, idle}
use eie4_mesh_network.Radio.Backoff.{ticks}
use eie4_mesh_network.Radio.Bounds.{IsSized, Reach-IsSized}
use eie4_mesh_network.Radio.Contention.{tx_rounds, tx_rounds_lem}
use eie4_mesh_network.Radio.Deaf.{IsDeaf, silent_step, stays, tx_task-IsDeaf}
use eie4_mesh_network.Radio.Faults.{Reach-overlap, clear}
use eie4_mesh_network.Radio.Order.{InOrder, Reach-InOrder}
use eie4_mesh_network.Radio.Tasks.{Chance, Reach, begun, here, next, queues, tx_runs, tx_task}

-- The channel is in use.
abbrev in_use : Chance
in_use = record { is_free = false; random = 17; defers = false; code = 0 }

abbrev started_radio : Radio
started_radio = begun default_csma 1000

Reach-InOrder_example : InOrder (enqueue_tx_packet true hello started_radio).1
Reach-InOrder_example =
    Reach-InOrder default_csma 1000 (next here (queues started_radio true hello))

Reach-IsSized_example : IsSized (enqueue_tx_packet true hello started_radio).1
Reach-IsSized_example =
    Reach-IsSized default_csma 1000 (next here (queues started_radio true hello))

abbrev sending : Radio
sending = record started_radio { tx_state = contends hello 10 2 }

tx_rounds_lem_example :
    ((tx_rounds (in_use ∷ in_use ∷ clear ∷ clear ∷ []) sending).tx_state ≡ idle)
    × ((tx_rounds (in_use ∷ in_use ∷ clear ∷ clear ∷ []) sending).started ≡ (hello, 0) ∷ [])
    × (length (tx_rounds (in_use ∷ in_use ∷ clear ∷ clear ∷ []) sending).waits ≡ 3)
tx_rounds_lem_example =
    tx_rounds_lem (in_use ∷ in_use ∷ []) clear clear hello 10 2 sending refl (refl, (refl, tt)) refl

Reach-overlap_example :
    (r : Radio) × Reach started_radio r
    × (r.is_transmitting ≡ true)
    × (r.tx_state ≡ contends hello (ticks 1000 10) 2)
Reach-overlap_example =
    Reach-overlap 1000 hello hello hello (omega arith) (omega arith) (omega arith)

abbrev refused : Chance
refused = record clear { code = 1 }

-- The channel has been found free.
abbrev guarding : Radio
guarding = tx_task clear (contends hello 10 2) sending

abbrev failed_radio : Radio
failed_radio = tx_task refused (guards hello) guarding

tx_task-IsDeaf_example : IsDeaf failed_radio
unfolding tx_task
tx_task-IsDeaf_example =
    tx_task-IsDeaf refused hello guarding (omega arith) refl refl refl
      (silent_step stays (tx_runs failed_radio clear) refl)
