-- ===== src/Gateway/Batches.antt =====
-- src/gatewayManager.cpp: a message to the server is posted at most once.
use mathlib.Core.List.{append_assoc}
use eie4_mesh_network.Prelude.{
  Bool-cases, List, Option-cases, [], ap, drop, inl, inr, refl, suc, take, take-append-drop, zero,
  ℕ, ◌++◌, ◌∙◌, ◌∷◌, ◌≡◌,
}
use eie4_mesh_network.Gateway.{UplinkMsg}
use eie4_mesh_network.Gateway.Sync.{
  Downlink, Request, Station, deliver_all, one_sync, post, request_of, sync_task,
}

-- All messages that were posted, oldest first.
abbrev pub batches : List Request → List UplinkMsg
batches [] = []
batches (q ∷ qs) = batches qs ++ q.batch

-- Everything that was posted or waits, in order.
abbrev pub history : Station → List UplinkMsg
history s = batches s.posted ++ s.gateway.tx_q

deliver_all-history : (ds : List Downlink) (s : Station) → history (deliver_all ds s) ≡ history s
unfolding deliver_all
deliver_all-history [] s = refl
deliver_all-history (d ∷ ds) s = deliver_all-history ds _

post-history : (s : Station) → history (post s) ≡ history s
unfolding post request_of
post-history s =
    append_assoc (batches s.posted) (take 10 s.gateway.tx_q) (drop 10 s.gateway.tx_q)
    ∙ ap (λ xs. batches s.posted ++ xs) (take-append-drop 10 s.gateway.tx_q)

one_sync-history : (s : Station) → history (one_sync s).1 ≡ history s
unfolding one_sync
one_sync-history s = elim (Option-cases (s.server (request_of s))) [
  | inl e ↦ rw (e, one_sync) (post-history s)
  | inr (down, e) ↦ rw (e, one_sync) (deliver_all-history down (post s) ∙ post-history s)
]

sync_task-history : (s : Station) → history (sync_task s) ≡ history s
unfolding sync_task
sync_task-history s = elim (Bool-cases s.gateway.wifi_ready) [
  | inr w ↦ simp w refl
  | inl w ↦ elim (Bool-cases s.gateway.registered) [
    | inr r ↦ simp (w, r) refl
    | inl r ↦ simp (w, r) (one_sync-history s)
  ]
]

unfoldable pub sync_rounds : ℕ → Station → Station
sync_rounds zero s = s
sync_rounds (suc k) s = sync_rounds k (sync_task s)

-- After any number of rounds of the synchronisation, whatever the server answers, the messages that
-- were posted followed by those that wait are the same, in the same order, as before: each message
-- is posted at most once, also when the post failed.
pub sync_rounds-history : (k : ℕ) (s : Station) → history (sync_rounds k s) ≡ history s
unfolding sync_rounds
sync_rounds-history zero s = refl
sync_rounds-history (suc k) s = sync_rounds-history k (sync_task s) ∙ sync_task-history s
