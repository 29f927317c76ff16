-- ===== src/Sessions/Diff.antt =====
-- src/userSessionManager.cpp: the differences that the next broadcast reports.
use eie4_mesh_network.Prelude.{
  All, Bool, List, Map, Option, Option-cases, [], arith, contains, contains-add, contains-discard,
  false, if◌then◌else◌, inl, inr, insert, lookup, lookup-erase, lookup-insert, none, refl, some,
  sym, true, ℕ, ◌∙◌, ◌∷◌, ◌≡◌,
}
use eie4_mesh_network.Sessions.{
  Call, OfflineMsg, Sessions, UserInfo, add_or_refresh, adds, announce, disconnect_first,
  disconnects, get_and_clear_diff, handle_ble_disconnect, knows_user, pop_inbox, pops, remove,
  removes, run, step, take_inbox,
}

-- What a receiver that knew `base` knows after it has applied a report: the removals come last.
unfoldable pub apply_diff : (ℕ → Bool) → List ℕ → List ℕ → ℕ → Bool
apply_diff base added removed u =
    if contains u removed then false else if contains u added then true else base u

abbrev Tracks : (ℕ → Bool) → Sessions → Type 0
Tracks base s = (u : ℕ) → knows_user u s ≡ apply_diff base s.diff_added s.diff_removed u

add-Tracks :
    (base : ℕ → Bool) (user handle now : ℕ) (s : Sessions)
    → Tracks base s
    → Tracks base (add_or_refresh user handle now s)
unfolding add_or_refresh knows_user apply_diff announce
add-Tracks base user handle now s t u = elim (Option-cases (lookup user s.users)) [
  | inl e ↦ ground (
    arith,
    t u,
    lookup-insert user u
        (record {
          user_id = user;
          ble_conn_handle = handle;
          is_connected = true;
          last_seen = now;
          inbox = [];
        })
        s.users,
    contains-add user u s.diff_added,
    contains-discard user u s.diff_removed,
  )
  | inr (info, e) ↦ ground (
    arith,
    t u,
    lookup-insert user u
        (record info { ble_conn_handle = handle; is_connected = true; last_seen = now }) s.users,
  )
]

remove-Tracks :
    (base : ℕ → Bool) (user : ℕ) (s : Sessions) → Tracks base s → Tracks base (remove user s)
unfolding remove knows_user apply_diff
remove-Tracks base user s t u = ground (
  arith,
  t u,
  lookup-erase user u s.users,
  contains-discard user u s.diff_added,
  contains-add user u s.diff_removed,
)

-- Whether an entry is there.
abbrev found : Option UserInfo → Bool
found none = false
found (some info) = true

knows_user-found : (u : ℕ) (s : Sessions) → knows_user u s ≡ found (lookup u s.users)
unfolding knows_user
knows_user-found u s =
    elim (lookup u s.users) as (λ o. (elim o [ some _ ↦ true | none ↦ false ]) ≡ found o) [
      | none ↦ refl
      | some info ↦ refl
    ]

found-insert :
    (k u : ℕ) (info v : UserInfo) (m : Map UserInfo)
    → lookup k m ≡ some info
    → found (lookup u (insert k v m)) ≡ found (lookup u m)
found-insert k u info v m e = ground (arith, lookup-insert k u v m)

found-disconnect_first :
    (handle now u : ℕ) (m : Map UserInfo)
    → found (lookup u (disconnect_first handle now m)) ≡ found (lookup u m)
unfolding disconnect_first lookup
found-disconnect_first handle now u [] = refl
found-disconnect_first handle now u ((k, info) ∷ m) =
    ground (arith, found-disconnect_first handle now u m)

Tracks-of_users :
    (base : ℕ → Bool) (s s' : Sessions)
    → s'.diff_added ≡ s.diff_added
    → s'.diff_removed ≡ s.diff_removed
    → ((u : ℕ) → found (lookup u s'.users) ≡ found (lookup u s.users))
    → Tracks base s
    → Tracks base s'
Tracks-of_users base s s' a r same t u =
    knows_user-found u s' ∙ same u ∙ sym (knows_user-found u s) ∙ t u ∙ rw (a, r)

take_inbox-Tracks :
    (base : ℕ → Bool) (user : ℕ) (info : UserInfo) (box : List OfflineMsg) (s : Sessions)
    → lookup user s.users ≡ some info
    → Tracks base s
    → Tracks base (take_inbox user info box s).1
unfolding take_inbox
take_inbox-Tracks base user info [] s e t = t
take_inbox-Tracks base user info (m ∷ box) s e t =
    Tracks-of_users base s _ refl refl
      (λ u. found-insert user u info (record info { inbox = [] }) s.users e) t

pop-Tracks :
    (base : ℕ → Bool) (user : ℕ) (s : Sessions) → Tracks base s → Tracks base (pop_inbox user s).1
unfolding pop_inbox
pop-Tracks base user s t = elim (Option-cases (lookup user s.users)) [
  | inl e ↦ rw (e, pop_inbox) t
  | inr (info, e) ↦ rw (e, pop_inbox) (take_inbox-Tracks base user info info.inbox s e t)
]

-- The calls between two broadcasts, those aside that make an entry without a report.
abbrev pub IsReported : Call → Type 0
IsReported (adds user handle now) = Unit
IsReported (removes user) = Unit
IsReported (disconnects handle now) = Unit
IsReported (pops user) = Unit
IsReported _ = ⊥

step-Tracks :
    (base : ℕ → Bool) (c : Call) (s : Sessions)
    → IsReported c
    → Tracks base s
    → Tracks base (step c s)
unfolding step handle_ble_disconnect
step-Tracks base (adds user handle now) s ok t = add-Tracks base user handle now s t
step-Tracks base (removes user) s ok t = remove-Tracks base user s t
step-Tracks base (disconnects handle now) s ok t =
    Tracks-of_users base s _ refl refl (λ u. found-disconnect_first handle now u s.users) t
step-Tracks base (pops user) s ok t = pop-Tracks base user s t
step-Tracks base _ s ok t = absurd ok

run-Tracks :
    (base : ℕ → Bool) (cs : List Call) (s : Sessions)
    → All IsReported cs
    → Tracks base s
    → Tracks base (run cs s)
unfolding run
run-Tracks base [] s ok t = t
run-Tracks base (c ∷ cs) s ok t = run-Tracks base cs (step c s) ok.1 (step-Tracks base c s ok.0 t)

-- From a session manager whose differences were just collected, after any calls that add, remove
-- or disconnect users or empty inboxes, a receiver that knew the old users and applies the report
-- knows exactly the users of the node now; and the report leaves both differences empty.
pub apply_diff-get_and_clear_diff :
    (cs : List Call) (s : Sessions) (u : ℕ)
    → All IsReported cs
    → s.diff_added ≡ []
    → s.diff_removed ≡ []
    → (apply_diff
          (λ v. knows_user v s)
          (get_and_clear_diff (run cs s)).0.0
          (get_and_clear_diff (run cs s)).0.1
          u
        ≡ knows_user u (get_and_clear_diff (run cs s)).1)
      × ((get_and_clear_diff (run cs s)).1.diff_added ≡ [])
      × ((get_and_clear_diff (run cs s)).1.diff_removed ≡ [])
unfolding get_and_clear_diff
apply_diff-get_and_clear_diff cs s u ok a r = (
  sym (run-Tracks (λ v. knows_user v s) cs s ok start u)
      ∙ knows_user-found u (run cs s)
      ∙ sym (knows_user-found u (get_and_clear_diff (run cs s)).1),
  refl,
  refl,
)
  where
    start : Tracks (λ v. knows_user v s) s
    start v = unfold apply_diff contains in simp (a, r)
