-- ===== src/Router/Acks.antt =====
-- src/aodvRouter.cpp: the packets that wait for an ACK.
pub mod Cleanup
pub mod GivesUp
pub mod Reports
use eie4_mesh_network.Prelude.{
  Bool, Map, Option, [], drop, erase, false, if◌then◌else◌, lookup, ltb, none, some, true, ℕ, ◌%◌,
  ◌*◌, ◌+◌, ◌-◌, ◌/◌, ◌==◌, ◌∷◌,
}
use eie4_mesh_network.Client.{Outgoing, ble_ack, ble_ack_failure}
use eie4_mesh_network.Exec.{for_each, gets, match_option, modify, pure, skip, when, ◌>>=◌, ◌>>◌}
use eie4_mesh_network.Packet.{pkt_data, pkt_user_msg}
use eie4_mesh_network.Packet.Serialise.{
  deserialise_base_header, deserialise_data_header, deserialise_user_msg_header,
}
use eie4_mesh_network.Router.Send.{send_rerr}
use eie4_mesh_network.Router.State.{AckBufferEntry, Env, Method, Router, enqueue_tx_packet, notify}

abbrev pub max_retrans : ℕ
max_retrans = 3

-- `pdMS_TO_TICKS`
unfoldable pub ms_to_ticks : ℕ → Env → ℕ
ms_to_ticks ms env = ms * env.tick_rate / 1000

-- Ticks are a `uint32_t`; the difference wraps.
unfoldable pub elapsed : ℕ → ℕ → ℕ
elapsed now timestamp = (now + 4294967296 - timestamp) % 4294967296

unfoldable pub is_waiting : AckBufferEntry → Router → Bool
is_waiting ent r = ltb (elapsed r.now ent.timestamp) (ms_to_ticks 3000 r.env)

-- One round of the loop over the buffer: the entry that stays, or `none` if its retries are used.
unfoldable pub retry_entry : AckBufferEntry → Method (Option AckBufferEntry)
retry_entry ent = do
  waiting ← gets (is_waiting ent)
  if waiting
      then pure (some ent)
      else if ltb ent.attempts max_retrans
      then (do
        queued ← enqueue_tx_packet ent.packet
        now ← gets (λ r. r.now)
        pure (
            some (
              if queued then record ent { timestamp = now; attempts = ent.attempts + 1 } else ent)))
      else pure none

-- The entries that stay and those that are expired.
abbrev pub sort_entry :
    ℕ
    → AckBufferEntry
    → Option AckBufferEntry
    → Map AckBufferEntry × Map AckBufferEntry
    → Map AckBufferEntry × Map AckBufferEntry
sort_entry k ent none rest = (rest.0, (k, ent) ∷ rest.1)
sort_entry k ent (some kept) rest = ((k, kept) ∷ rest.0, rest.1)

unfoldable pub retry_entries : Map AckBufferEntry → Method (Map AckBufferEntry × Map AckBufferEntry)
retry_entries [] = pure ([], [])
retry_entries ((k, ent) ∷ m) = do
  o ← retry_entry ent
  rest ← retry_entries m
  pure (sort_entry k ent o rest)

unfoldable pub failure_notice : ℕ → ℕ → Outgoing
failure_notice to id = record { kind = ble_ack_failure; to = to; from = 0; bytes = []; pkt_id = id }

-- The stored packet is read as it went on the air.
unfoldable pub report_failure : ℕ × AckBufferEntry → Method (Unit {0})
report_failure (pid, ent) = do
  let bh = (deserialise_base_header ent.packet).0
  let dh = (deserialise_data_header ent.packet 20).0
  let uh = (deserialise_user_msg_header ent.packet 20).0
  me ← gets (λ r. r.my_node_id)
  if bh.packet_type == pkt_data
      then (do send_rerr me bh.origin_node_id dh.final_dest_id pid; notify (failure_notice 0 pid))
      else when (bh.packet_type == pkt_user_msg) (do
        send_rerr me bh.origin_node_id uh.to_node_id pid
        notify (failure_notice uh.from_user_id pid))

unfoldable pub cleanup_ack_buffer : Method (Unit {0})
cleanup_ack_buffer = do
  buffer ← gets (λ r. r.ack_buffer)
  sorted ← retry_entries buffer
  modify (λ r. record r { ack_buffer = sorted.0 })
  for_each sorted.1 report_failure

unfoldable pub ack_notice : ℕ → ℕ → Outgoing
ack_notice to id = record { kind = ble_ack; to = to; from = 0; bytes = []; pkt_id = id }

-- What the phones hear of an acknowledged packet of this node.
unfoldable pub report_ack : ℕ → AckBufferEntry → Method (Unit {0})
report_ack id ent = do
  let bh = (deserialise_base_header ent.packet).0
  let uh = (deserialise_user_msg_header (drop 20 ent.packet) 0).0
  me ← gets (λ r. r.my_node_id)
  when (bh.origin_node_id == me)
      (notify (ack_notice (if bh.packet_type == pkt_user_msg then uh.from_user_id else 0) id))

unfoldable pub remove_from_ack_buffer : ℕ → Method (Unit {0})
remove_from_ack_buffer id = do
  o ← gets (λ r. lookup id r.ack_buffer)
  match_option o skip
      (λ ent. do modify (λ r. record r { ack_buffer = erase id r.ack_buffer }); report_ack id ent)

unfoldable pub try_implicit_ack : ℕ → Method Bool
try_implicit_ack id = do
  o ← gets (λ r. lookup id r.ack_buffer)
  match_option o (pure false)
      (λ ent. do modify (λ r. record r { ack_buffer = erase id r.ack_buffer }); pure true)
