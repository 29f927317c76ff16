-- ===== src/Sessions/Inbox.antt =====
-- src/userSessionManager.cpp: the messages in an inbox.
use mathlib.Core.List.{append_assoc, append-nil}
use eie4_mesh_network.Prelude.{
  ==_refl, AllEntries, AllEntries-erase, AllEntries-insert, AllEntries-lookup, Bool, Bool-cases,
  List, Map, Option-cases, [], ap, arith, drop, false, inl, inr, insert, length, length-append,
  length-drop, lookup, lookup-insert, refl, some, suc, sym, true, ℕ, ◌++◌, ◌-◌, ◌<◌, ◌==◌, ◌∙◌, ◌∷◌,
  ◌≡◌, ◌≤◌,
}
use eie4_mesh_network.Sessions.{
  Call, OfflineMsg, Sessions, UserInfo, add_or_refresh, adds, announce, clears, disconnect_first,
  disconnects, get_and_clear_diff, handle_ble_disconnect, init, offline, online, pop_inbox, pops,
  push_inbox, queue_offline, queues, remove, removes, run, set_connected, set_offline, set_online,
  step, take_inbox,
}

abbrev Bounded : Sessions → Type 0
Bounded s = AllEntries (λ k info. length info.inbox ≤ 10) s.users

abbrev BoundedMap : Map UserInfo → Type 0
BoundedMap m = AllEntries (λ k info. length info.inbox ≤ 10) m

insert-Bounded :
    (user : ℕ) (info : UserInfo) (m : Map UserInfo)
    → length info.inbox ≤ 10
    → BoundedMap m
    → BoundedMap (insert user info m)
insert-Bounded user info m = AllEntries-insert (λ k info. length info.inbox ≤ 10) user info m

lookup-Bounded :
    (user : ℕ) (info : UserInfo) (m : Map UserInfo)
    → BoundedMap m
    → lookup user m ≡ some info
    → length info.inbox ≤ 10
lookup-Bounded user info m = AllEntries-lookup (λ k info. length info.inbox ≤ 10) user info m

push_inbox-le :
    (m : OfflineMsg) (box : List OfflineMsg) → length box ≤ 10 → length (push_inbox m box) ≤ 10
unfolding push_inbox
push_inbox-le m box h =
    ground
      (arith, length-append box (m ∷ []), length-append (drop 1 box) (m ∷ []), length-drop 1 box)

pub announce_users : (user : ℕ) (s : Sessions) → (announce user s).users ≡ s.users
unfolding announce
announce_users user s = ground arith

add-Bounded :
    (user handle now : ℕ) (s : Sessions) → Bounded s → Bounded (add_or_refresh user handle now s)
unfolding add_or_refresh
add-Bounded user handle now s h = elim (Option-cases (lookup user s.users)) [
  | inl e ↦
      rw (e, add_or_refresh) (rw announce_users (insert-Bounded user _ s.users (omega arith) h))
  | inr (info, e) ↦
      rw (e, add_or_refresh)
        (rw announce_users (insert-Bounded user _ s.users (lookup-Bounded user info s.users h e) h))
]

disconnect-Bounded :
    (handle now : ℕ) (m : Map UserInfo) → BoundedMap m → BoundedMap (disconnect_first handle now m)
unfolding disconnect_first
disconnect-Bounded handle now [] h = tt
disconnect-Bounded handle now ((k, info) ∷ m) h =
    elim (Bool-cases (info.ble_conn_handle == handle)) [
      | inl e ↦ rw e h
      | inr e ↦ rw e (h.0, disconnect-Bounded handle now m h.1)
    ]

queue-Bounded :
    (user : ℕ) (m : OfflineMsg) (now : ℕ) (s : Sessions)
    → Bounded s
    → Bounded (queue_offline user m now s)
unfolding queue_offline
queue-Bounded user m now s h = elim (Option-cases (lookup user s.users)) [
  | inl e ↦
      rw (e, queue_offline) (insert-Bounded user _ s.users (push_inbox-le m [] (omega arith)) h)
  | inr (info, e) ↦
      rw (e, queue_offline)
        (insert-Bounded user _ s.users
          (push_inbox-le m info.inbox (lookup-Bounded user info s.users h e)) h)
]

take_inbox-Bounded :
    (user : ℕ) (info : UserInfo) (box : List OfflineMsg) (s : Sessions)
    → Bounded s
    → Bounded (take_inbox user info box s).1
unfolding take_inbox
take_inbox-Bounded user info [] s h = h
take_inbox-Bounded user info (m ∷ box) s h = insert-Bounded user _ s.users (omega arith) h

pop-Bounded : (user : ℕ) (s : Sessions) → Bounded s → Bounded (pop_inbox user s).1
unfolding pop_inbox
pop-Bounded user s h = elim (Option-cases (lookup user s.users)) [
  | inl e ↦ rw (e, pop_inbox) h
  | inr (info, e) ↦ rw (e, pop_inbox) (take_inbox-Bounded user info info.inbox s h)
]

set_connected-Bounded :
    (b : Bool) (user : ℕ) (s : Sessions) → Bounded s → Bounded (set_connected b user s)
unfolding set_connected
set_connected-Bounded b user s h = elim (Option-cases (lookup user s.users)) [
  | inl e ↦ rw (e, set_connected) (insert-Bounded user _ s.users (omega arith) h)
  | inr (info, e) ↦
      rw (e, set_connected) (insert-Bounded user _ s.users (lookup-Bounded user info s.users h e) h)
]

step-Bounded : (c : Call) (s : Sessions) → Bounded s → Bounded (step c s)
unfolding step remove get_and_clear_diff set_offline set_online handle_ble_disconnect
step-Bounded (adds user handle now) s h = add-Bounded user handle now s h
step-Bounded (removes user) s h = AllEntries-erase (λ k info. length info.inbox ≤ 10) user s.users h
step-Bounded (disconnects handle now) s h = disconnect-Bounded handle now s.users h
step-Bounded clears s h = h
step-Bounded (queues user m now) s h = queue-Bounded user m now s h
step-Bounded (pops user) s h = pop-Bounded user s h
step-Bounded (offline user) s h = set_connected-Bounded false user s h
step-Bounded (online user) s h = set_connected-Bounded true user s h

run-Bounded : (cs : List Call) (s : Sessions) → Bounded s → Bounded (run cs s)
unfolding run
run-Bounded [] s h = h
run-Bounded (c ∷ cs) s h = run-Bounded cs (step c s) (step-Bounded c s h)

-- After any sequence of calls on a fresh session manager, the inbox of every user holds at most
-- ten messages.
pub run-inbox-le :
    (mqtt : Bool) (cs : List Call) (user : ℕ) (info : UserInfo)
    → lookup user (run cs (init mqtt)).users ≡ some info
    → length info.inbox ≤ 10
unfolding init
run-inbox-le mqtt cs user info e =
    lookup-Bounded user info (run cs (init mqtt)).users (run-Bounded cs (init mqtt) tt) e

-- The last `n` elements.
abbrev pub keep_newest {ℓ} : {A : Type ℓ} → ℕ → List A → List A
keep_newest n xs = drop (length xs - n) xs

keep_newest-cons {ℓ} :
    {A : Type ℓ} (n : ℕ) (x : A) (xs : List A)
    → n ≤ length xs
    → keep_newest n (x ∷ xs) ≡ keep_newest n xs
keep_newest-cons n x xs h = let e : suc (length xs) - n ≡ suc (length xs - n) = omega arith in rw e

keep_newest_all {ℓ} : {A : Type ℓ} (n : ℕ) (xs : List A) → length xs ≤ n → keep_newest n xs ≡ xs
keep_newest_all n xs h = let e : length xs - n ≡ 0 = omega arith in rw e

push_all : List OfflineMsg → List OfflineMsg → List OfflineMsg
push_all [] box = box
push_all (m ∷ ms) box = push_all ms (push_inbox m box)

pushed :
    (m : OfflineMsg) (ms : List OfflineMsg) (b : OfflineMsg) (box : List OfflineMsg)
    → length (b ∷ box) ≤ 10
    → keep_newest 10 (push_inbox m (b ∷ box) ++ ms) ≡ keep_newest 10 ((b ∷ box) ++ (m ∷ ms))
unfolding push_inbox
pushed m ms b box h = elim (Bool-cases (length (b ∷ box) == 10)) [
  | inl full ↦
      rw (full, append_assoc box (m ∷ []) ms)
        (sym (keep_newest-cons 10 b (box ++ (m ∷ ms)) (ground (arith, length-append box (m ∷ ms)))))
  | inr room ↦
      rw room
        (ap (λ (xs : List OfflineMsg). keep_newest 10 xs) (append_assoc (b ∷ box) (m ∷ []) ms))
]

push_all-keep_newest :
    (ms box : List OfflineMsg) → length box ≤ 10 → push_all ms box ≡ keep_newest 10 (box ++ ms)
unfolding push_all
push_all-keep_newest [] box h = rw (append-nil box) (sym (keep_newest_all 10 box h))
push_all-keep_newest (m ∷ ms) [] h =
    push_all-keep_newest ms (push_inbox m []) (push_inbox-le m [] h) ∙ unfold push_inbox in refl
push_all-keep_newest (m ∷ ms) (b ∷ box) h =
    push_all-keep_newest ms (push_inbox m (b ∷ box)) (push_inbox-le m (b ∷ box) h)
    ∙ pushed m ms b box h

-- Messages queued one after the other.
unfoldable pub queue_all : ℕ → List OfflineMsg → ℕ → Sessions → Sessions
queue_all user [] now s = s
queue_all user (m ∷ ms) now s = queue_all user ms now (queue_offline user m now s)

lookup-queue_offline :
    (user : ℕ) (m : OfflineMsg) (now : ℕ) (s : Sessions) (info : UserInfo)
    → lookup user s.users ≡ some info
    → lookup user (queue_offline user m now s).users
      ≡ some (record info { inbox = push_inbox m info.inbox })
unfolding queue_offline
lookup-queue_offline user m now s info e =
    rw (e, queue_offline)
      (lookup-insert user user (record info { inbox = push_inbox m info.inbox }) s.users
        ∙ rw (==_refl user))

lookup-queue_all :
    (user : ℕ) (ms : List OfflineMsg) (now : ℕ) (s : Sessions) (info : UserInfo)
    → lookup user s.users ≡ some info
    → lookup user (queue_all user ms now s).users
      ≡ some (record info { inbox = push_all ms info.inbox })
unfolding queue_all push_all
lookup-queue_all user [] now s info e = e
lookup-queue_all user (m ∷ ms) now s info e =
    lookup-queue_all user ms now (queue_offline user m now s)
      (record info { inbox = push_inbox m info.inbox }) (lookup-queue_offline user m now s info e)

take_inbox-eq_some :
    (user : ℕ) (info : UserInfo) (box : List OfflineMsg) (s : Sessions)
    → 0 < length box
    → (take_inbox user info box s).0 ≡ some box
unfolding take_inbox
take_inbox-eq_some user info [] s h = absurd (omega arith)
take_inbox-eq_some user info (m ∷ box) s h = refl

keep_newest_pos :
    (box ms : List OfflineMsg) (m : OfflineMsg) → 0 < length (keep_newest 10 (box ++ (m ∷ ms)))
keep_newest_pos box ms m = omega (
  arith,
  length-drop (length (box ++ (m ∷ ms)) - 10) (box ++ (m ∷ ms)),
  length-append box (m ∷ ms),
)

-- When messages are queued one after the other for a user with at most ten waiting, the next
-- `popInbox` delivers the newest ten of the old inbox followed by the new messages, in order.
pub pop_inbox-queue_all :
    (user : ℕ) (m : OfflineMsg) (ms : List OfflineMsg) (now : ℕ) (s : Sessions) (info : UserInfo)
    → lookup user s.users ≡ some info
    → length info.inbox ≤ 10
    → (pop_inbox user (queue_all user (m ∷ ms) now s)).0
      ≡ some (keep_newest 10 (info.inbox ++ (m ∷ ms)))
unfolding pop_inbox
pop_inbox-queue_all user m ms now s info e h =
    rw (lookup-queue_all user (m ∷ ms) now s info e, pop_inbox)
      (rw (push_all-keep_newest (m ∷ ms) info.inbox h) (
        take_inbox-eq_some user (record info { inbox = keep_newest 10 (info.inbox ++ (m ∷ ms)) }) _
          _ (keep_newest_pos info.inbox ms m)))
