-- ===== src/Mqtt/Topics.antt =====
-- src/mqttManager.cpp: a node takes the messages on its own topics only.
use eie4_mesh_network.Prelude.{
  ==_iff, All, All-append, Bool, Bool-cases, List, [], ap, arith, decimal, digits, false, inl, inr,
  ltb, read-decimal, read_decimal, refl, suc, sym, true, zero, ℕ, ◌%◌, ◌++◌, ◌+◌, ◌/◌, ◌<◌, ◌==◌,
  ◌∙◌, ◌∷◌, ◌≡◌, ◌≢◌, ◌≤◌,
}
use eie4_mesh_network.Mqtt.{Mqtt, process_message, process_word, send_word, starts_with, topic_of}

-- A character that is no slash.
abbrev NoSlash : ℕ → Type 0
NoSlash c = 48 ≤ c

digits-NoSlash : (fuel n : ℕ) → All NoSlash (digits fuel n)
unfolding digits
digits-NoSlash zero n = (omega arith, tt)
digits-NoSlash (suc fuel) n = elim (Bool-cases (ltb n 10)) [
  | inl e ↦ rw e (omega arith, tt)
  | inr e ↦ rw e (
      All-append NoSlash (digits fuel (n / 10)) ((48 + n % 10) ∷ []) (digits-NoSlash fuel (n / 10))
        (omega arith, tt))
]

decimal-NoSlash : (n : ℕ) → All NoSlash (decimal n)
unfolding decimal
decimal-NoSlash n = digits-NoSlash 19 n

-- Up to the first slash, a text and its prefix agree.
before_slash :
    (xs ys u v : List ℕ)
    → All NoSlash xs
    → All NoSlash ys
    → starts_with (xs ++ 47 ∷ u) (ys ++ 47 ∷ v) ≡ true
    → (xs ≡ ys) × (starts_with u v ≡ true)
unfolding starts_with
before_slash [] [] u v hx hy h = (refl, h)
before_slash [] (y ∷ ys) u v hx hy h = absurd (ground (arith, h, hy.0))
before_slash (x ∷ xs) [] u v hx hy h = absurd (ground (arith, h, hx.0))
before_slash (x ∷ xs) (y ∷ ys) u v hx hy h = elim (Bool-cases (x == y)) [
  | inl e ↦
      let rest = before_slash xs ys u v hx.1 hy.1 (rw e at h) in
      let same : x ≡ y = (==_iff x y).0 e in (rw same (ap (◌∷◌ y) rest.0), rest.1)
  | inr e ↦ absurd (ground (arith, e, h))
]

-- The number of a topic.
pub topic_of-injective :
    (a b : ℕ) (u v : List ℕ)
    → a < 4294967296
    → b < 4294967296
    → starts_with (topic_of a u) (topic_of b v) ≡ true
    → (a ≡ b) × (starts_with u v ≡ true)
unfolding topic_of starts_with
topic_of-injective a b u v ha hb h =
    let s = before_slash (decimal a) (decimal b) u v (decimal-NoSlash a) (decimal-NoSlash b) h in
    (
      sym (read-decimal a (omega (arith, ha)))
          ∙ ap read_decimal s.0
          ∙ read-decimal b (omega (arith, hb)),
      s.1,
    )

other_topic :
    (a b : ℕ) (u v : List ℕ)
    → a < 4294967296
    → b < 4294967296
    → a ≢ b
    → starts_with (topic_of a u) (topic_of b v) ≡ false
other_topic a b u v ha hb ne = elim (Bool-cases (starts_with (topic_of a u) (topic_of b v))) [
  | inl e ↦ absurd (ne (topic_of-injective a b u v ha hb e).0)
  | inr e ↦ e
]

-- A message on any topic of another node leaves the manager, its radio and its node as they were,
-- also when the number of the one node begins with that of the other.
pub process_message_elsewhere :
    (allocated : Bool) (b : ℕ) (word payload : List ℕ) (m : Mqtt)
    → m.node_id < 4294967296
    → b < 4294967296
    → m.node_id ≢ b
    → process_message allocated (record { topic = topic_of b word; payload = payload }) m ≡ m
unfolding process_message
process_message_elsewhere allocated b word payload m ha hb ne =
    rw (other_topic m.node_id b process_word word ha hb ne, process_message)
      (rw (other_topic m.node_id b send_word word ha hb ne))
