-- ===== src/Sessions/Login.antt =====
-- src/userSessionManager.cpp: a known user who logs on.
use eie4_mesh_network.Prelude.{
  ==_refl, List, Map, Option, [], insert, lookup, lookup-insert, refl, some, true, ℕ, ◌∙◌, ◌∷◌, ◌≡◌,
}
use eie4_mesh_network.Sessions.{
  OfflineMsg, Sessions, UserInfo, add_or_refresh, get_ble_handle, pop_inbox, take_inbox,
}
use eie4_mesh_network.Sessions.Inbox.{announce_users}

lookup-insert_same :
    (user : ℕ) (info : UserInfo) (m : Map UserInfo) → lookup user (insert user info m) ≡ some info
lookup-insert_same user info m = lookup-insert user user info m ∙ rw (==_refl user)

lookup-add_or_refresh :
    (user handle now : ℕ) (s : Sessions) (info : UserInfo)
    → lookup user s.users ≡ some info
    → lookup user (add_or_refresh user handle now s).users
      ≡ some (record info { ble_conn_handle = handle; is_connected = true; last_seen = now })
unfolding add_or_refresh
lookup-add_or_refresh user handle now s info e =
    rw (e, add_or_refresh) (rw announce_users (lookup-insert_same user _ s.users))

get_ble_handle-of_lookup :
    (user : ℕ) (s : Sessions) (info : UserInfo)
    → lookup user s.users ≡ some info
    → get_ble_handle user s ≡ info.ble_conn_handle
unfolding get_ble_handle
get_ble_handle-of_lookup user s info e = rw (e, get_ble_handle)

-- The sessions after a user has logged on and the inbox was taken.
abbrev pub logged_on : ℕ → ℕ → ℕ → Sessions → Option (List OfflineMsg) × Sessions
logged_on user handle now s = pop_inbox user (add_or_refresh user handle now s)

pub logs_on :
    (user handle now : ℕ) (s : Sessions) (info : UserInfo) (m : OfflineMsg) (ms : List OfflineMsg)
    → lookup user s.users ≡ some info
    → info.inbox ≡ m ∷ ms
    → ((logged_on user handle now s).0 ≡ some (m ∷ ms))
      × (get_ble_handle user (logged_on user handle now s).1 ≡ handle)
unfolding pop_inbox take_inbox
logs_on user handle now s info m ms e box =
    rw (lookup-add_or_refresh user handle now s info e, pop_inbox)
      (rw (box, take_inbox)
        (
          refl,
          get_ble_handle-of_lookup user _
              (record info {
                ble_conn_handle = handle;
                is_connected = true;
                last_seen = now;
                inbox = [];
              })
              (lookup-insert_same user _ _),
        ))
