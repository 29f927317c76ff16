-- ===== src/Router/Handle/Users/Delivery.antt =====
-- src/aodvRouter.cpp: what happens to a message for a user of this node.
use eie4_mesh_network.Prelude.{List, [], false, length, lookup, refl, some, ℕ, ◌++◌, ◌∷◌, ◌≡◌, ◌≤◌}
use eie4_mesh_network.Client.{BleType}
use eie4_mesh_network.Exec.{methods}
use eie4_mesh_network.Packet.{UserMsgHeader}
use eie4_mesh_network.Router.Handle.Users.{deliver}
use eie4_mesh_network.Router.State.{Router, change_sessions}
use eie4_mesh_network.Sessions.{OfflineMsg, Sessions, UserInfo, is_online, pop_inbox}
use eie4_mesh_network.Sessions.Inbox.{keep_newest, pop_inbox-queue_all, queue_all}

offline_msg : BleType → UserMsgHeader → ℕ → List ℕ → OfflineMsg
offline_msg kind umh id bytes = record {
  kind = kind;
  packet_id = id;
  to = umh.to_user_id;
  from = umh.from_user_id;
  bytes = bytes;
}

is_offline :
    (user : ℕ) (s : Sessions) (info : UserInfo)
    → lookup user s.users ≡ some info
    → info.is_connected ≡ false
    → is_online user s ≡ false
unfolding is_online
is_offline user s info e off = rw (e, is_online) off

-- A message for a user who is known and offline is in the user's inbox, which holds the ten newest
-- messages, when the inbox is taken; the phones hear nothing of it. The inbox held ten at most.
pub pop_inbox-deliver :
    (kind : BleType) (umh : UserMsgHeader) (id : ℕ) (bytes : List ℕ) (r : Router) (info : UserInfo)
    → lookup umh.to_user_id r.usm.users ≡ some info
    → info.is_connected ≡ false
    → length info.inbox ≤ 10
    → ((pop_inbox umh.to_user_id (deliver kind umh id (some bytes) r).1.usm).0
        ≡ some (
            keep_newest 10 (
              info.inbox
              ++ (record {
                kind = kind;
                packet_id = id;
                to = umh.to_user_id;
                from = umh.from_user_id;
                bytes = bytes;
              }
                  ∷ []))))
      × ((deliver kind umh id (some bytes) r).1.notices ≡ r.notices)
unfolding deliver methods is_online change_sessions offline_msg queue_all
pop_inbox-deliver kind umh id bytes r info e off l =
    rw (is_offline umh.to_user_id r.usm info e off) (
      pop_inbox-queue_all umh.to_user_id (offline_msg kind umh id bytes) [] r.now r.usm info e l,
      refl,
    )
