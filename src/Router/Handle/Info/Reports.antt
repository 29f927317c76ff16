-- ===== src/Router/Handle/Info/Reports.antt =====
-- src/aodvRouter.cpp and src/userSessionManager.cpp: what another node knows of a node's users.
use eie4_mesh_network.Prelude.{
  All, Bool, List, Option, [], ap, contains, drop, false, if◌then◌else◌, length, lookup, none, refl,
  some, sym, true, ℕ, ◌++◌, ◌+◌, ◌<◌, ◌∙◌, ◌≡◌, ◌≤◌,
}
use eie4_mesh_network.Router.Buffers.{has_gut_entry}
use eie4_mesh_network.Router.Handle.Info.{note_users}
use eie4_mesh_network.Router.Handle.Info.Gut.{lookup-note_users}
use eie4_mesh_network.Router.Send.Info.{ids_bytes}
use eie4_mesh_network.Router.State.{GutEntry, Router}
use eie4_mesh_network.Sessions.{Call, Sessions, get_and_clear_diff, knows_user, run}
use eie4_mesh_network.Sessions.Diff.{IsReported, apply_diff, apply_diff-get_and_clear_diff}

is_there : Option GutEntry → Bool
is_there none = false
is_there (some e) = true

has_gut_entry-lookup : (u : ℕ) (r : Router) → has_gut_entry u r ≡ is_there (lookup u r.gut)
unfolding has_gut_entry is_there
has_gut_entry-lookup u r =
    elim (lookup u r.gut) as (λ o. (elim o [ some _ ↦ true | none ↦ false ]) ≡ is_there o) [
      | none ↦ refl
      | some e ↦ refl
    ]

is_there-if :
    (gone new : Bool) (e : GutEntry) (o : Option GutEntry)
    → is_there (if gone then none else if new then some e else o)
      ≡ (if gone then false else if new then true else is_there o)
unfolding is_there
is_there-if true new e o = refl
is_there-if false true e o = refl
is_there-if false false e o = refl

has_gut_entry-note_users :
    (origin len u : ℕ) (added removed payload stale : List ℕ) (r : Router)
    → All (λ id. id < 4294967296) added
    → All (λ id. id < 4294967296) removed
    → drop 4 payload ≡ ids_bytes added ++ (ids_bytes removed ++ stale)
    → 4 + length (ids_bytes added) + length (ids_bytes removed) ≤ len
    → has_gut_entry u
        (note_users origin
          (record { num_added = length added; num_removed = length removed })
          payload
          len
          r).1
      ≡ apply_diff (λ v. has_gut_entry v r) added removed u
unfolding apply_diff
has_gut_entry-note_users origin len u added removed payload stale r va vr e l =
    has_gut_entry-lookup u _
    ∙ ap is_there (lookup-note_users origin len u added removed payload stale r va vr e l)
    ∙ is_there-if (contains u removed) (contains u added)
        (record { node_id = origin; seq = 0; ts = 0 }) (lookup u r.gut)
    ∙ ap (λ b. if contains u removed then false else if contains u added then true else b)
        (sym (has_gut_entry-lookup u r))

-- A node that knew whether a user is at home elsewhere, and gets the next report of that home in one
-- packet, knows it again: after any calls at the home that add, remove or disconnect users or empty
-- inboxes since the report before, it has the user in its table exactly if the home knows the user.
-- The ids stand behind the two counts as the home writes them, with any stale bytes behind, the
-- packet is long enough for them, and they are 32-bit numbers.
pub has_gut_entry-get_and_clear_diff :
    (cs : List Call) (home : Sessions) (r : Router) (origin len u : ℕ)
    (added removed payload stale : List ℕ)
    → All IsReported cs
    → home.diff_added ≡ []
    → home.diff_removed ≡ []
    → has_gut_entry u r ≡ knows_user u home
    → (get_and_clear_diff (run cs home)).0 ≡ (added, removed)
    → All (λ id. id < 4294967296) added
    → All (λ id. id < 4294967296) removed
    → drop 4 payload ≡ ids_bytes added ++ (ids_bytes removed ++ stale)
    → 4 + length (ids_bytes added) + length (ids_bytes removed) ≤ len
    → has_gut_entry u
        (note_users origin
          (record { num_added = length added; num_removed = length removed })
          payload
          len
          r).1
      ≡ knows_user u (get_and_clear_diff (run cs home)).1
unfolding apply_diff
has_gut_entry-get_and_clear_diff cs home r origin len u added removed payload stale ok a d knew
      report va vr e l =
    has_gut_entry-note_users origin len u added removed payload stale r va vr e l
    ∙ ap (λ b. if contains u removed then false else if contains u added then true else b) knew
    ∙ ap (λ p. apply_diff (λ v. knows_user v home) p.0 p.1 u) (sym report)
    ∙ (apply_diff-get_and_clear_diff cs home u ok a d).0
