-- ===== src/Examples/Users.antt =====
-- The theorems on users, their inboxes and what is reported of them, at concrete nodes.
use eie4_mesh_network.Prelude.{
  [], add, arith, discard, false, insert, length, lookup, refl, some, true, ℕ, ◌++◌, ◌∷◌, ◌≡◌, ◌≤◌,
}
use eie4_mesh_network.Client.{ble_unicast_user}
use eie4_mesh_network.Examples.{alice, bob, hello, to_user, user_info, with_user}
use eie4_mesh_network.Router.Buffers.{has_gut_entry}
use eie4_mesh_network.Router.Handle.Info.{note_users}
use eie4_mesh_network.Router.Handle.Info.Reports.{has_gut_entry-get_and_clear_diff}
use eie4_mesh_network.Router.Handle.Users.{deliver}
use eie4_mesh_network.Router.Handle.Users.Delivery.{pop_inbox-deliver}
use eie4_mesh_network.Router.Send.Info.{ids_bytes}
use eie4_mesh_network.Router.State.{Router}
use eie4_mesh_network.Sessions.{
  OfflineMsg, UserInfo, add_or_refresh, adds, announce, get_and_clear_diff, init, knows_user,
  pop_inbox, push_inbox, queue_offline, queues, remove, removes, run, step,
}
use eie4_mesh_network.Sessions.Inbox.{keep_newest, pop_inbox-queue_all, queue_all, run-inbox-le}

abbrev note_of : ℕ → OfflineMsg
note_of id = record { kind = ble_unicast_user; packet_id = id; to = 70; from = 60; bytes = hello }

pop_inbox-queue_all_example :
    (pop_inbox 70 (queue_all 70 (note_of 1 ∷ note_of 2 ∷ []) 9 (with_user false))).0
    ≡ some (keep_newest 10 ([] ++ (note_of 1 ∷ note_of 2 ∷ [])))
unfolding lookup
pop_inbox-queue_all_example =
    pop_inbox-queue_all 70 (note_of 1) (note_of 2 ∷ []) 9 (with_user false) (user_info 70 false)
      refl (omega arith)

abbrev one_note : UserInfo
one_note = record (user_info 70 true) { inbox = note_of 1 ∷ [] }

run-inbox-le_example : length one_note.inbox ≤ 10
unfolding lookup insert run step init add_or_refresh queue_offline push_inbox
run-inbox-le_example =
    run-inbox-le false (adds 70 1 10 ∷ queues 70 (note_of 1) 12 ∷ []) 70 one_note refl

-- Alice's node hears that user 70 left and user 71 came to node 2.
has_gut_entry-get_and_clear_diff_example :
    has_gut_entry 71
      (note_users 2
        (record { num_added = 1; num_removed = 1 })
        (1 ∷ 0 ∷ 1 ∷ 0 ∷ ids_bytes (71 ∷ []) ++ (ids_bytes (70 ∷ []) ++ (7 ∷ [])))
        12
        alice).1
    ≡ knows_user 71 (get_and_clear_diff (run (adds 71 2 5 ∷ removes 70 ∷ []) (with_user true))).1
unfolding has_gut_entry knows_user lookup ids_bytes run step get_and_clear_diff add_or_refresh
    remove announce discard add
has_gut_entry-get_and_clear_diff_example =
    has_gut_entry-get_and_clear_diff (adds 71 2 5 ∷ removes 70 ∷ []) (with_user true) alice 2 12 71
      (71 ∷ []) (70 ∷ []) (1 ∷ 0 ∷ 1 ∷ 0 ∷ ids_bytes (71 ∷ []) ++ (ids_bytes (70 ∷ []) ++ (7 ∷ [])))
      (7 ∷ []) (tt, (tt, tt)) refl refl refl refl (omega arith, tt) (omega arith, tt) refl
      (omega arith)

abbrev bob_alone : Router
bob_alone = record bob { usm = with_user false }

pop_inbox-deliver_example :
    ((pop_inbox 70 (deliver ble_unicast_user to_user 77 (some hello) bob_alone).1.usm).0
      ≡ some (keep_newest 10 ([] ++ (note_of 77 ∷ []))))
    × ((deliver ble_unicast_user to_user 77 (some hello) bob_alone).1.notices ≡ [])
unfolding lookup
pop_inbox-deliver_example =
    pop_inbox-deliver ble_unicast_user to_user 77 hello bob_alone (user_info 70 false) refl refl
      (omega arith)
