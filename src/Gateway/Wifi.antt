-- ===== src/Gateway/Wifi.antt =====
-- src/gatewayManager.cpp: what the phones are told of the node's link.
use eie4_mesh_network.Prelude.{Bool, Bool-cases, List, [], false, inl, inr, refl, true, ◌∷◌, ◌≡◌}
use eie4_mesh_network.Gateway.{
  Gateway, announce_event, blocked, on_wifi_down, on_wifi_up, wake, wifi_event_task,
}

-- A change of Wi-Fi, with a round of the task for the events before the next one.
abbrev pub change : Bool → Gateway → Gateway
change true g = wifi_event_task (on_wifi_up g)
change false g = wifi_event_task (on_wifi_down g)

unfoldable pub changes : List Bool → Gateway → Gateway
changes [] g = g
changes (b ∷ bs) g = changes bs (change b g)

-- No event waits, and the task is blocked.
abbrev pub IsCalm : Gateway → Type 0
IsCalm g = (g.evt_on ≡ false) × (g.evt_off ≡ false) × (g.event_task ≡ blocked)

-- The newest announcement is the state of Wi-Fi.
abbrev pub TellsTruth : Gateway → Type 0
TellsTruth g = (rest : List Bool) × (g.announced ≡ g.wifi_ready ∷ rest)

change-IsCalm : (b : Bool) (g : Gateway) → IsCalm g → IsCalm (change b g) × TellsTruth (change b g)
unfolding wifi_event_task on_wifi_up on_wifi_down wake announce_event
change-IsCalm true g (on, off, b) = elim (Bool-cases g.registered) [
  | inl r ↦ rw b (rw r ((refl, refl, refl), (_, refl)))
  | inr r ↦ rw b (rw r ((refl, refl, refl), (_, refl)))
]
change-IsCalm false g (on, off, b) = rw b (rw on ((refl, refl, refl), (_, refl)))

-- While the task for the events has its round between two changes of Wi-Fi, the newest announcement
-- to the phones is the state of Wi-Fi after any changes, if the task is blocked and no event waits
-- at the start.
pub changes-TellsTruth :
    (b : Bool) (bs : List Bool) (g : Gateway) → IsCalm g → TellsTruth (changes (b ∷ bs) g)
unfolding changes
changes-TellsTruth b [] g c = (change-IsCalm b g c).1
changes-TellsTruth b (b' ∷ bs) g c = changes-TellsTruth b' bs (change b g) (change-IsCalm b g c).0
