-- ===== src/Gateway/Uplinks.antt =====
-- src/gatewayManager.cpp: the messages in the queue to the server.
use eie4_mesh_network.Prelude.{
  ==_ne, All, Bool-cases, List, [], ap, arith, drop, if◌then◌else◌, inl, inr, length, ltb, ltb→le,
  ltb→lt, min, refl, suc, take, take_of_length-le, zero, ℕ, ◌++◌, ◌+◌, ◌<◌, ◌==◌, ◌∷◌, ◌≡◌, ◌≢◌,
  ◌≤◌, ◌⊎◌,
}
use eie4_mesh_network.Gateway.{Gateway, UplinkMsg, body_array, random_id}
use eie4_mesh_network.Packet.Bytes.{write}

-- A digit or a small letter.
abbrev pub IsIdChar : ℕ → Type 0
IsIdChar c = ((48 ≤ c) × (c ≤ 57)) ⊎ ((97 ≤ c) × (c ≤ 122))

length-random_id : (k : ℕ) (random : ℕ → ℕ) (i : ℕ) → length (random_id k random i) ≡ k
unfolding random_id
length-random_id zero random i = refl
length-random_id (suc k) random i = ap suc (length-random_id k random (i + 1))

-- The text that a reader sees who stops at the first zero byte.
abbrev pub text_of : List ℕ → List ℕ
text_of [] = []
text_of (b ∷ bs) = let rest = text_of bs in if b == 0 then [] else b ∷ rest

text_of-append : (xs ys : List ℕ) → All (λ b. b ≢ 0) xs → text_of (xs ++ 0 ∷ ys) ≡ xs
text_of-append [] ys h = refl
text_of-append (x ∷ xs) ys h = rw (==_ne x 0 h.0) (ap (◌∷◌ x) (text_of-append xs ys h.1))

All-take : (n : ℕ) (xs : List ℕ) → All (λ b. b ≢ 0) xs → All (λ b. b ≢ 0) (take n xs)
All-take zero xs h = tt
All-take (suc n) [] h = tt
All-take (suc n) (x ∷ xs) h = (h.0, All-take n xs h.1)

take-take-append :
    (i n : ℕ) (xs ys : List ℕ) → i ≤ n → i ≤ length xs → take i (take n xs ++ ys) ≡ take i xs
take-take-append zero n xs ys h k = refl
take-take-append (suc i) zero xs ys h k = absurd (omega (arith, h))
take-take-append (suc i) (suc n) [] ys h k = absurd (omega (arith, k))
take-take-append (suc i) (suc n) (x ∷ xs) ys h k =
    ap (◌∷◌ x) (take-take-append i n xs ys (omega (arith, h)) (omega (arith, k)))

-- A text without a zero byte arrives in the array up to its first 199 bytes, with a zero byte
-- behind: of a text of 200 bytes or more the 200th is lost.
pub text_of-body_array :
    (bytes : List ℕ) → All (λ b. b ≢ 0) bytes → text_of (body_array bytes) ≡ take 199 bytes
unfolding body_array write
text_of-body_array bytes h = elim (Bool-cases (ltb (min (length bytes) 200) 200)) [
  | inl e ↦
      let short : length bytes < 200 = omega (arith, ltb→lt (min (length bytes) 200) 200 e) in
      let same : min (length bytes) 200 ≡ length bytes = omega (arith, short) in
      rw e (
        rw same (
          rw (take-take-append (length bytes) 200 bytes _ (omega (arith, short)) (omega arith)) (
            rw (take_of_length-le (length bytes) bytes (omega arith)) (
              rw (take_of_length-le 199 bytes (omega (arith, short))) (text_of-append bytes _ h)))))
  | inr e ↦
      let long : 200 ≤ length bytes = omega (arith, ltb→le (min (length bytes) 200) 200 e) in
      rw e (
        rw (take-take-append 199 200 bytes _ (omega arith) (omega (arith, long)))
          (text_of-append (take 199 bytes) _ (All-take 199 bytes h)))
]

-- A message as the server expects it: twelve letters or digits and a zero byte for the id, and a
-- length and a text that end within the array.
pub record IsUplinkMsg (m : UplinkMsg) : Type 0 where
  pub id_length : length m.id ≡ 13
  pub id_chars : All IsIdChar (take 12 m.id)
  pub id_end : drop 12 m.id ≡ 0 ∷ []
  pub len_le : m.len ≤ 200
  pub text_ends : length (text_of m.body) < 200

pub record IsUplinkQueue (q : List UplinkMsg) : Type 0 where
  pub bounded : length q ≤ 30
  pub messages : All IsUplinkMsg q
