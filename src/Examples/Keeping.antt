-- ===== src/Examples/Keeping.antt =====
-- The theorems on invariants and retries, at concrete nodes.
use eie4_mesh_network.Prelude.{List, [], arith, contains, inr, refl, ℕ, ◌∷◌, ◌≡◌}
use eie4_mesh_network.Examples.{alice, bob, copying-IsGcm, hello, plain_packet}
use eie4_mesh_network.Router.Acks.{elapsed, ms_to_ticks}
use eie4_mesh_network.Router.Acks.GivesUp.{after_rounds, after_rounds_lem}
use eie4_mesh_network.Router.Keeping.Gateways.{HasKnownGateway, handle_packet-HasKnownGateway}
use eie4_mesh_network.Router.Keeping.Instances.{
  IsSound, Remembers, handle_all, handle_all-Remembers,
}
use eie4_mesh_network.Router.Keeping.Life.{Lives-IsSound}
use eie4_mesh_network.Router.Receive.{handle_packet}
use eie4_mesh_network.Router.State.{AckBufferEntry, DataBufferEntry, Router}
use eie4_mesh_network.Router.Tasks.{
  ack_cleanup_callback, begin, cleanup_due, goes_on, is_called, perform, receives, router_task,
  sends_data, starts, timer_runs, timer_worker_task,
}

handle_all-Remembers_example :
    Remembers 5
      (handle_all (plain_packet ∷ plain_packet ∷ []) (record bob { received_packet_ids = 5 ∷ [] }))
unfolding contains
handle_all-Remembers_example =
    handle_all-Remembers 5 (plain_packet ∷ plain_packet ∷ [])
      (record bob { received_packet_ids = 5 ∷ [] }) (copying-IsGcm, refl)

handle_packet-HasKnownGateway_example :
    HasKnownGateway
      (handle_packet plain_packet (record bob { gateways = 1 ∷ []; closest_gw = 1 })).1
unfolding contains
handle_packet-HasKnownGateway_example =
    handle_packet-HasKnownGateway plain_packet (record bob { gateways = 1 ∷ []; closest_gw = 1 })
      (copying-IsGcm, inr refl)

abbrev waiting_entry : AckBufferEntry
waiting_entry = record {
  packet = plain_packet.bytes;
  expected_next_hop = 2;
  timestamp = 1000;
  attempts = 2;
}

abbrev waiting : Router
waiting = record alice { ack_buffer = (77, waiting_entry) ∷ [] }

abbrev data_entry : ℕ → DataBufferEntry
data_entry id = record { packet_id = id; bytes = hello }

abbrev some_data : List (ℕ × DataBufferEntry)
some_data = (4, data_entry 1) ∷ (9, data_entry 2) ∷ (4, data_entry 3) ∷ []

after_rounds_lem_example : (after_rounds (5000 ∷ 9000 ∷ 13000 ∷ 17000 ∷ []) waiting).ack_buffer ≡ []
unfolding ms_to_ticks elapsed
after_rounds_lem_example =
    after_rounds_lem (5000 ∷ 9000 ∷ 13000 ∷ 17000 ∷ []) waiting (λ n. refl)
      ((omega arith, (omega arith, (omega arith, (omega arith, (omega arith, tt))))), tt)
      (omega arith)

-- A node that starts, is asked to send, receives a packet, and whose timer task runs.
Lives-IsSound_example :
    IsSound
      (timer_worker_task (
        ack_cleanup_callback (
          router_task plain_packet (record (begin bob) {
            router = (perform (sends_data 1 hello 9 0) (begin bob).router).1;
          })))).router
Lives-IsSound_example =
    Lives-IsSound bob (copying-IsGcm, tt, tt)
      (goes_on
        (goes_on
          (goes_on (goes_on starts (is_called (begin bob) (sends_data 1 hello 9 0)))
            (receives _ plain_packet))
          (cleanup_due _))
        (timer_runs _))
