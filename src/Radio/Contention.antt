-- ===== src/Radio/Contention.antt =====
-- src/radioManager.cpp: how long the transmitting task waits, and that its loop ends.
use native.Mathlib.Nat.{mod-lt, pow-le-pow_right}
use Prim.Native.Nat.{◌^◌}
use eie4_mesh_network.Prelude.{
  All, Bool, Bool-cases, List, [], ap, arith, false, inl, inr, length, length-append, ltb, ltb→le,
  ltb→lt, not, refl, subst, suc, sym, true, zero, ℕ, ◌%◌, ◌&&◌, ◌*◌, ◌++◌, ◌+◌, ◌-◌, ◌/◌, ◌<◌, ◌==◌,
  ◌∙◌, ◌∷◌, ◌≡◌, ◌≤◌,
}
use eie4_mesh_network.Bluetooth.{code}
use eie4_mesh_network.Radio.{
  BackoffScheme, CsmaOptions, Radio, be, binary, contends, guards, idle, legacy,
}
use eie4_mesh_network.Radio.Backoff.{back_off_ms, clamp_exp, next_bin, tick_period, ticks}
use eie4_mesh_network.Radio.Tasks.{
  Chance, back_off, fire, guard_time, is_channel_free, sense, start_receive, tx_task, wait_ms,
}

mod-le : (random n : ℕ) → random % (n + 1) ≤ n
mod-le random n = let h : random % suc n < suc n = mod-lt random (omega arith) in omega (arith, h)

pow_pos : (e : ℕ) → 0 < 2 ^ e
pow_pos zero = omega arith
pow_pos (suc e) = omega (arith, pow_pos e)

-- The window from which a scheme draws its wait, in milliseconds.
abbrev pub InWindow : CsmaOptions → ℕ → ℕ → ℕ → BackoffScheme → ℕ → Type 0
InWindow o rate bin exp legacy wait = (o.legacy_min_ms ≤ wait) × (wait ≤ o.legacy_max_ms)
InWindow o rate bin exp binary wait = wait ≤ bin / tick_period rate
InWindow o rate bin exp be wait =
    (slot : ℕ) × (slot < 2 ^ exp) × (slot < 2 ^ o.be_max_exp) × (wait ≡ slot * o.be_unit_ms)

pow_le : (a b : ℕ) → a ≤ b → 2 ^ a ≤ 2 ^ b
pow_le a b h = pow-le-pow_right (omega arith) h

-- A slot that is drawn below the clamped power.
clamped_slot :
    (random max_exp exp : ℕ)
    → (random % (2 ^ clamp_exp max_exp exp) < 2 ^ exp)
      × (random % (2 ^ clamp_exp max_exp exp) < 2 ^ max_exp)
unfolding clamp_exp
clamped_slot random max_exp exp = elim (Bool-cases (ltb max_exp exp)) [
  | inl e ↦ rw e (
      let h : random % (2 ^ max_exp) < 2 ^ max_exp = mod-lt random (pow_pos max_exp) in
      (omega (arith, h, pow_le max_exp exp (omega (arith, ltb→lt max_exp exp e))), h))
  | inr e ↦ rw e (
      let h : random % (2 ^ exp) < 2 ^ exp = mod-lt random (pow_pos exp) in
      (h, omega (arith, h, pow_le exp max_exp (ltb→le max_exp exp e))))
]

-- Whatever the random number, the wait on a busy channel lies in the window of the scheme: between
-- the two limits for the legacy scheme, up to the current window for the doubling one, and a whole
-- number of slots below both powers of two for the exponential one; and the next window of the
-- doubling scheme stays within its maximum.
pub back_off_ms-InWindow :
    (o : CsmaOptions) (rate random bin exp : ℕ) (scheme : BackoffScheme)
    → o.legacy_min_ms ≤ o.legacy_max_ms
    → InWindow o rate bin exp scheme (back_off_ms o rate random bin exp scheme)
      × (next_bin o rate bin binary ≤ ticks rate o.bin_max_ms)
unfolding back_off_ms next_bin
back_off_ms-InWindow o rate random bin exp legacy h =
    let w = mod-le random (o.legacy_max_ms - o.legacy_min_ms) in
    ((omega arith, omega (arith, w)), omega arith)
back_off_ms-InWindow o rate random bin exp binary h = (mod-le random _, omega arith)
back_off_ms-InWindow o rate random bin exp be h =
    let s = clamped_slot random o.be_max_exp exp in ((_, s.0, s.1, refl), omega arith)

-- A round that ends the loop, and the rounds of the task one after the other.
abbrev pub goes : CsmaOptions → Chance → Bool
goes o c = c.is_free && not (o.pcsma_enabled && c.defers)

unfoldable pub tx_rounds : List Chance → Radio → Radio
tx_rounds [] r = r
tx_rounds (c ∷ cs) r = tx_rounds cs (tx_task c r.tx_state r)

-- A round of the loop that waits and tries again.
abbrev Retries : List ℕ → Radio → Radio → Type 0
Retries p r s =
    (bin : ℕ) × (exp : ℕ) × (s.tx_state ≡ contends p bin exp)
    × (s.csma ≡ r.csma)
    × (s.started ≡ r.started)
    × (length s.waits ≡ length r.waits + 1)

-- The round that finds the channel free.
abbrev Guards : List ℕ → Radio → Radio → Type 0
Guards p r s =
    (s.tx_state ≡ guards p) × (s.started ≡ r.started) × (length s.waits ≡ length r.waits + 1)

-- The round that gives the packet to the radio.
abbrev Starts : List ℕ → ℕ → Radio → Radio → Type 0
Starts p code r s =
    (s.tx_state ≡ idle)
    × (s.started ≡ r.started ++ (p, code) ∷ [])
    × (length s.waits ≡ length r.waits)

sense-Retries :
    (c : Chance) (p : List ℕ) (bin exp : ℕ) (r : Radio)
    → r.tx_state ≡ contends p bin exp
    → goes r.csma c ≡ false
    → Retries p r (tx_task c (contends p bin exp) r)
unfolding tx_task sense is_channel_free back_off wait_ms
sense-Retries c p bin exp r e g = elim (Bool-cases c.is_free) [
  | inr b ↦ rw b (_, _, refl, refl, refl, length-append r.waits _)
  | inl b ↦ elim (Bool-cases (r.csma.pcsma_enabled && c.defers)) [
    | inl d ↦ rw b (rw d (_, _, e, refl, refl, length-append r.waits _))
    | inr d ↦ absurd (ground (arith, b, d, g))
  ]
]

sense-Guards :
    (c : Chance) (p : List ℕ) (bin exp : ℕ) (r : Radio)
    → goes r.csma c ≡ true
    → Guards p r (tx_task c (contends p bin exp) r)
unfolding tx_task sense is_channel_free guard_time wait_ms
sense-Guards c p bin exp r g = elim (Bool-cases c.is_free) [
  | inr b ↦ absurd (ground (arith, b, g))
  | inl b ↦ elim (Bool-cases (r.csma.pcsma_enabled && c.defers)) [
    | inl d ↦ absurd (ground (arith, b, d, g))
    | inr d ↦ rw b (rw d (refl, refl, length-append r.waits _))
  ]
]

fire-Starts : (c : Chance) (p : List ℕ) (r : Radio) → Starts p c.code r (tx_task c (guards p) r)
unfolding tx_task fire start_receive
fire-Starts c p r = elim (Bool-cases (c.code == 0)) [
  | inl z ↦ rw z (refl, refl, refl)
  | inr z ↦ rw z (refl, refl, refl)
]

-- The loop of the transmitting task for a packet ends after the first scan that finds the channel
-- free and that the coin, if there is one, does not defer: after any number of rounds without, this
-- one, and the round behind the guard time, the packet has been given to the radio once, with
-- nothing else, the task is ready for the next packet, and it has waited once for each scan.
pub tx_rounds_lem :
    (cs : List Chance) (go last : Chance) (p : List ℕ) (bin exp : ℕ) (r : Radio)
    → r.tx_state ≡ contends p bin exp
    → All (λ c. goes r.csma c ≡ false) cs
    → goes r.csma go ≡ true
    → ((tx_rounds (cs ++ go ∷ last ∷ []) r).tx_state ≡ idle)
      × ((tx_rounds (cs ++ go ∷ last ∷ []) r).started ≡ r.started ++ (p, last.code) ∷ [])
      × (length (tx_rounds (cs ++ go ∷ last ∷ []) r).waits ≡ length r.waits + length cs + 1)
unfolding tx_rounds
tx_rounds_lem [] go last p bin exp r e waiting ready =
    let s =
      subst (λ st. Guards p r (tx_task go st r)) (sym e) (sense-Guards go p bin exp r ready) in
    let after = tx_task go r.tx_state r in
    let f =
      subst (λ st. Starts p last.code after (tx_task last st after)) (sym s.0)
        (fire-Starts last p after) in
    (f.0, f.1 ∙ ap (λ xs. xs ++ (p, last.code) ∷ []) s.1, omega (arith, s.2, f.2))
tx_rounds_lem (c ∷ cs) go last p bin exp r e waiting ready =
    let s =
      subst (λ st. Retries p r (tx_task c st r)) (sym e)
        (sense-Retries c p bin exp r e waiting.0) in
    let after = tx_task c r.tx_state r in
    let rest =
      tx_rounds_lem cs go last p s.0 s.1 after s.2
        (subst (λ o. All (λ d. goes o d ≡ false) cs) (sym s.3) waiting.1)
        (subst (λ o. goes o go ≡ true) (sym s.3) ready) in
    (rest.0, rest.1 ∙ ap (λ xs. xs ++ (p, last.code) ∷ []) s.4, omega (arith, rest.2, s.5))
