-- ===== src/Gateway/Events.antt =====
-- src/gatewayManager.cpp: changes of Wi-Fi and rounds of the task for the events, in any order.
use eie4_mesh_network.Prelude.{
  Bool, Bool-cases, List, [], ap, false, if◌then◌else◌, inl, inr, refl, sym, true, ◌∙◌, ◌∷◌, ◌≡◌,
}
use eie4_mesh_network.Gateway.{
  EventTask, Gateway, announce_event, blocked, is_online, on_wifi_down, on_wifi_up, wake,
  wifi_event_task, woken,
}
use eie4_mesh_network.Gateway.Wifi.{IsCalm, TellsTruth}

pub data WifiEvent : Type 0 where
  comes_up goes_down task_runs : WifiEvent

abbrev pub happen : WifiEvent → Gateway → Gateway
happen comes_up g = on_wifi_up g
happen goes_down g = on_wifi_down g
happen task_runs g = wifi_event_task g

unfoldable pub happens : List WifiEvent → Gateway → Gateway
happens [] g = g
happens (e ∷ es) g = happens es (happen e g)

-- What the last announcement will be if nothing else happens.
abbrev last_word : EventTask → Bool → Bool → List Bool → Bool
last_word blocked on off [] = false
last_word blocked on off (b ∷ bs) = b
last_word (woken w) on off bs = if on then true else if off then false else w

-- A blocked task has left no bit behind.
abbrev HasNoBits : EventTask → Gateway → Type 0
HasNoBits blocked g = (g.evt_on ≡ false) × (g.evt_off ≡ false)
HasNoBits (woken w) g = Unit

-- While Wi-Fi is up, this is what the phones will have heard last.
abbrev IsHonest : Gateway → Type 0
IsHonest g =
    (g.wifi_ready ≡ true → last_word g.event_task g.evt_on g.evt_off g.announced ≡ true)
    × HasNoBits g.event_task g

up-IsHonest : (t : EventTask) (g : Gateway) → g.event_task ≡ t → IsHonest (on_wifi_up g)
unfolding on_wifi_up wake
up-IsHonest blocked g e = elim (Bool-cases g.registered) [
  | inl r ↦ rw e (rw r ((λ _. refl), tt))
  | inr r ↦ rw e (rw r ((λ _. refl), tt))
]
up-IsHonest (woken w) g e = elim (Bool-cases g.registered) [
  | inl r ↦ rw e (rw r ((λ _. refl), tt))
  | inr r ↦ rw e (rw r ((λ _. refl), tt))
]

down-IsHonest :
    (t : EventTask) (g : Gateway) → g.event_task ≡ t → HasNoBits t g → IsHonest (on_wifi_down g)
unfolding on_wifi_down wake
down-IsHonest blocked g e none_set = rw e (rw (none_set.0) ((λ z. absurd (cc z)), tt))
down-IsHonest (woken w) g e none_set = rw e ((λ z. absurd (cc z)), tt)

round-IsHonest :
    (t : EventTask) (g : Gateway) → g.event_task ≡ t → IsHonest g → IsHonest (wifi_event_task g)
unfolding wifi_event_task announce_event wake
round-IsHonest blocked g e h = rw e (rw e at h)
round-IsHonest (woken w) g e h = elim (Bool-cases g.evt_on) [
  | inl a ↦ rw (e, a) ((λ _. refl), tt)
  | inr a ↦ elim (Bool-cases g.evt_off) [
    | inl b ↦ rw (e, a, b) ((rw (e, a, b) at h).0, tt)
    | inr b ↦ rw (e, a, b) ((rw (e, a, b) at h).0, (refl, refl))
  ]
]

happen-IsHonest : (e : WifiEvent) (g : Gateway) → IsHonest g → IsHonest (happen e g)
happen-IsHonest comes_up g h = up-IsHonest g.event_task g refl
happen-IsHonest goes_down g h = down-IsHonest g.event_task g refl h.1
happen-IsHonest task_runs g h = round-IsHonest g.event_task g refl h

happens-IsHonest : (es : List WifiEvent) (g : Gateway) → IsHonest g → IsHonest (happens es g)
unfolding happens
happens-IsHonest [] g h = h
happens-IsHonest (e ∷ es) g h = happens-IsHonest es (happen e g) (happen-IsHonest e g h)

calm-IsHonest : (g : Gateway) → IsCalm g → TellsTruth g → IsHonest g
calm-IsHonest g (on, off, b) (rest, a) = rw (b, a) ((λ up. up), (on, off))

last_word_heard :
    (xs : List Bool)
    → last_word blocked false false xs ≡ true
    → (rest : List Bool) × (xs ≡ true ∷ rest)
last_word_heard [] h = absurd (cc h)
last_word_heard (x ∷ xs) h = (xs, ap (λ b. b ∷ xs) h)

-- After any changes of Wi-Fi and any rounds of the task for the events, in whatever order, once the
-- task is blocked with no event waiting: if Wi-Fi is up, the newest announcement to the phones is
-- that it is. At the start the task is blocked, no event waits, and the newest announcement is the
-- state of Wi-Fi.
pub happens-TellsTruth :
    (es : List WifiEvent) (g : Gateway)
    → IsCalm g
    → TellsTruth g
    → IsCalm (happens es g)
    → (happens es g).wifi_ready ≡ true
    → TellsTruth (happens es g)
happens-TellsTruth es g c t (on, off, b) up =
    let h = (happens-IsHonest es g (calm-IsHonest g c t)).0 up in
    let (rest, a) = last_word_heard (happens es g).announced (rw (b, on, off) at h) in
    (rest, a ∙ ap (λ w. w ∷ rest) (sym up))

-- The other way round it can be wrong: when Wi-Fi goes down, comes up and goes down again before the
-- task has its rounds, the last announcement is that the gateway is there, and the task is blocked.
blip : Gateway → Gateway
blip g = happens (goes_down ∷ comes_up ∷ goes_down ∷ task_runs ∷ task_runs ∷ []) g

blip_lem :
    (g : Gateway)
    → IsCalm g
    → IsCalm (blip g)
      × (is_online (blip g) ≡ false)
      × ((blip g).announced ≡ true ∷ false ∷ g.announced)
unfolding blip happens wifi_event_task announce_event wake on_wifi_up on_wifi_down is_online
blip_lem g (on, off, b) = elim (Bool-cases g.registered) [
  | inl r ↦ rw (b, on, r) ((refl, refl, refl), refl, refl)
  | inr r ↦ rw (b, on, r) ((refl, refl, refl), refl, refl)
]
