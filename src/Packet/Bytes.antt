-- ===== src/Packet/Bytes.antt =====
-- src/packet.h: `memcpy` between little-endian words and byte buffers.
use eie4_mesh_network.Prelude.{
  ℕ, zero, suc, ◌+◌, ◌*◌, ◌/◌, ◌%◌, ◌≤◌, ◌<◌, ◌≡◌, refl, List, [], ◌∷◌, ◌++◌, arith, length, get_or,
  take, drop,
}

-- The bytes of a `uint16_t` and of a `uint32_t`, and the words of bytes.
abbrev pub bytes16 : ℕ → List ℕ
bytes16 n = n % 256 ∷ n / 256 % 256 ∷ []

abbrev pub bytes32 : ℕ → List ℕ
bytes32 n = n % 256 ∷ n / 256 % 256 ∷ n / 65536 % 256 ∷ n / 16777216 % 256 ∷ []

abbrev pub word16 : ℕ → ℕ → ℕ
word16 a b = a + 256 * b

abbrev pub word32 : ℕ → ℕ → ℕ → ℕ → ℕ
word32 a b c d = a + 256 * b + 65536 * c + 16777216 * d

-- A byte past the list reads as 0.
abbrev pub read8 : List ℕ → ℕ → ℕ
read8 p i = get_or p i 0

abbrev pub read16 : List ℕ → ℕ → ℕ
read16 p i = word16 (read8 p i) (read8 p (i + 1))

abbrev pub read32 : List ℕ → ℕ → ℕ
read32 p i = word32 (read8 p i) (read8 p (i + 1)) (read8 p (i + 2)) (read8 p (i + 3))

-- `memcpy(buffer + offset, bytes, length bytes)`
unfoldable pub write : List ℕ → ℕ → List ℕ → List ℕ
write buffer offset bytes = take offset buffer ++ (bytes ++ drop (offset + length bytes) buffer)

drop-take-append : (n : ℕ) (xs ys : List ℕ) → n ≤ length xs → drop n (take n xs ++ ys) ≡ ys
drop-take-append zero xs ys h = refl
drop-take-append (suc n) [] ys h = absurd (omega arith)
drop-take-append (suc n) (x ∷ xs) ys h = drop-take-append n xs ys (omega arith)

-- What was written at an offset stands there.
pub drop-write :
    (buffer : List ℕ) (offset : ℕ) (bytes : List ℕ)
    → offset ≤ length buffer
    → drop offset (write buffer offset bytes) ≡ bytes ++ drop (offset + length bytes) buffer
unfolding write
drop-write buffer offset bytes h = drop-take-append offset buffer _ h

pub word16-bytes16 : (n : ℕ) → n < 65536 → word16 (n % 256) (n / 256 % 256) ≡ n
word16-bytes16 n h = omega arith

pub word32-bytes32 :
    (n : ℕ)
    → n < 4294967296
    → word32 (n % 256) (n / 256 % 256) (n / 65536 % 256) (n / 16777216 % 256) ≡ n
word32-bytes32 n h = omega arith

pub bytes32-word32 :
    (a b c d : ℕ)
    → a < 256
    → b < 256
    → c < 256
    → d < 256
    → bytes32 (word32 a b c d) ≡ a ∷ b ∷ c ∷ d ∷ []
bytes32-word32 a b c d ha hb hc hd = ground arith
