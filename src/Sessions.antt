-- ===== src/Sessions.antt =====
-- src/userSessionManager.h and .cpp: the users of this node, their inboxes, and the changes since
-- the last broadcast. A method runs under the lock and is one step; `millis()` is an argument.
pub mod Inbox
pub mod Diff
pub mod Login
use eie4_mesh_network.Prelude.{
  ℕ, List, [], ◌∷◌, ◌++◌, Bool, true, false, ◌&&◌, Option, none, some, map, length, drop, ◌==◌,
  if◌then◌else◌, Map, lookup, insert, erase, add, discard,
}
use eie4_mesh_network.Client.{BleType}

abbrev pub invalid_handle : ℕ
invalid_handle = 0xffff

pub record OfflineMsg : Type 0 where
  pub kind : BleType
  pub packet_id : ℕ
  pub to : ℕ
  pub from : ℕ
  pub bytes : List ℕ

pub record UserInfo : Type 0 where
  pub user_id : ℕ
  pub ble_conn_handle : ℕ
  pub is_connected : Bool
  pub last_seen : ℕ
  pub inbox : List OfflineMsg

-- `announced` are the users passed to `publishUserAdded`, newest first.
pub record Sessions : Type 0 where
  pub users : Map UserInfo
  pub diff_added : List ℕ
  pub diff_removed : List ℕ
  pub has_mqtt : Bool
  pub announced : List ℕ

unfoldable pub announce : ℕ → Sessions → Sessions
announce user s = if s.has_mqtt then record s { announced = user ∷ s.announced } else s

unfoldable pub add_or_refresh : ℕ → ℕ → ℕ → Sessions → Sessions
unfolding announce
add_or_refresh user handle now s = elim (lookup user s.users) [
  | some info ↦ announce user (record s {
    users =
        insert user (record info { ble_conn_handle = handle; is_connected = true; last_seen = now })
          s.users;
  })
  | none ↦ announce user (record s {
    users =
        insert user
          (record {
            user_id = user;
            ble_conn_handle = handle;
            is_connected = true;
            last_seen = now;
            inbox = [];
          })
          s.users;
    diff_removed = discard user s.diff_removed;
    diff_added = add user s.diff_added;
  })
]

unfoldable pub remove : ℕ → Sessions → Sessions
remove user s = record s {
  users = erase user s.users;
  diff_added = discard user s.diff_added;
  diff_removed = add user s.diff_removed;
}

-- The loop of `handleBleDisconnect`: the first user on the handle goes offline.
disconnect_first : ℕ → ℕ → Map UserInfo → Map UserInfo
disconnect_first handle now [] = []
disconnect_first handle now ((k, info) ∷ m) =
    let rest = disconnect_first handle now m in
    if info.ble_conn_handle == handle
    then (
      k,
      record info { is_connected = false; ble_conn_handle = invalid_handle; last_seen = now },
    )
      ∷ m
    else (k, info) ∷ rest

unfoldable pub handle_ble_disconnect : ℕ → ℕ → Sessions → Sessions
unfolding disconnect_first
handle_ble_disconnect handle now s = record s { users = disconnect_first handle now s.users }

unfoldable pub knows_user : ℕ → Sessions → Bool
knows_user user s = elim (lookup user s.users) [ some _ ↦ true | none ↦ false ]

unfoldable pub is_online : ℕ → Sessions → Bool
is_online user s = elim (lookup user s.users) [ some info ↦ info.is_connected | none ↦ false ]

unfoldable pub get_ble_handle : ℕ → Sessions → ℕ
get_ble_handle user s = elim (lookup user s.users) [
  | some info ↦ info.ble_conn_handle
  | none ↦ invalid_handle
]

unfoldable pub all_users : Sessions → List UserInfo
all_users s = map (λ kv. kv.1) s.users

unfoldable pub get_connected_users : Sessions → List ℕ
get_connected_users s = map (λ kv. kv.1.user_id) s.users

-- The two differences, which are cleared.
unfoldable pub get_and_clear_diff : Sessions → (List ℕ × List ℕ) × Sessions
get_and_clear_diff s =
    ((s.diff_added, s.diff_removed), record s { diff_added = []; diff_removed = [] })

-- `pop_front` on a full box, then `push_back`.
unfoldable pub push_inbox : OfflineMsg → List OfflineMsg → List OfflineMsg
push_inbox m box = (if length box == 10 then drop 1 box else box) ++ m ∷ []

stub : ℕ → ℕ → UserInfo
stub user now = record {
  user_id = user;
  ble_conn_handle = invalid_handle;
  is_connected = false;
  last_seen = now;
  inbox = [];
}

-- An unknown user gets an offline entry first.
unfoldable pub queue_offline : ℕ → OfflineMsg → ℕ → Sessions → Sessions
unfolding stub push_inbox
queue_offline user m now s = elim (lookup user s.users) [
  | some info ↦ record s {
    users = insert user (record info { inbox = push_inbox m info.inbox }) s.users;
  }
  | none ↦
      let info = stub user now in
      record s { users = insert user (record info { inbox = push_inbox m info.inbox }) s.users }
]

take_inbox : ℕ → UserInfo → List OfflineMsg → Sessions → Option (List OfflineMsg) × Sessions
take_inbox user info [] s = (none, s)
take_inbox user info (m ∷ box) s =
    (some (m ∷ box), record s { users = insert user (record info { inbox = [] }) s.users })

-- `none` where the source returns false.
unfoldable pub pop_inbox : ℕ → Sessions → Option (List OfflineMsg) × Sessions
unfolding take_inbox
pop_inbox user s = elim (lookup user s.users) [
  | none ↦ (none, s)
  | some info ↦ take_inbox user info info.inbox s
]

-- `_users[userID].isConnected = b`: a missing entry is made of zeros.
set_connected : Bool → ℕ → Sessions → Sessions
set_connected b user s = elim (lookup user s.users) [
  | some info ↦ record s { users = insert user (record info { is_connected = b }) s.users }
  | none ↦ record s {
    users =
        insert user
          (record { user_id = 0; ble_conn_handle = 0; is_connected = b; last_seen = 0; inbox = [] })
          s.users;
  }
]

unfoldable pub set_offline : ℕ → Sessions → Sessions
unfolding set_connected
set_offline = set_connected false

unfoldable pub set_online : ℕ → Sessions → Sessions
unfolding set_connected
set_online = set_connected true

-- The calls that change the sessions.
pub data Call : Type 0 where
  adds : ℕ → ℕ → ℕ → Call
  removes : ℕ → Call
  disconnects : ℕ → ℕ → Call
  clears : Call
  queues : ℕ → OfflineMsg → ℕ → Call
  pops : ℕ → Call
  offline : ℕ → Call
  online : ℕ → Call

unfoldable pub step : Call → Sessions → Sessions
step (adds user handle now) s = add_or_refresh user handle now s
step (removes user) s = remove user s
step (disconnects handle now) s = handle_ble_disconnect handle now s
step clears s = (get_and_clear_diff s).1
step (queues user m now) s = queue_offline user m now s
step (pops user) s = (pop_inbox user s).1
step (offline user) s = set_offline user s
step (online user) s = set_online user s

unfoldable pub run : List Call → Sessions → Sessions
run [] s = s
run (c ∷ cs) s = run cs (step c s)

unfoldable pub init : Bool → Sessions
init mqtt = record {
  users = [];
  diff_added = [];
  diff_removed = [];
  has_mqtt = mqtt;
  announced = [];
}
