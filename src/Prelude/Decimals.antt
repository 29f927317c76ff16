-- ===== src/Prelude/Decimals.antt =====
-- Numbers in decimal, as `snprintf` prints them for `%u` and `%llu`: a list of ASCII characters.
use eie4_mesh_network.Prelude.Tests.{ltb, if◌then◌else◌, Bool-cases}
use Prim.Native.Nat.{ℕ, zero, suc, ◌+◌, ◌-◌, ◌*◌, ◌/◌, ◌%◌, ◌<◌, ◌^◌}
use mathlib.Core.Path.{◌≡◌, refl, ◌∙◌}
use mathlib.Core.List.{List, [], ◌∷◌, ◌++◌}
use mathlib.Core.Logic.{inl, inr}
use native.Mathlib.Omega.{arith}

-- With fuel for one digit more than the first argument says.
unfoldable pub digits : ℕ → ℕ → List ℕ
digits zero n = (48 + n % 10) ∷ []
digits (suc fuel) n =
    let front = digits fuel (n / 10) in
    if ltb n 10 then (48 + n) ∷ [] else front ++ (48 + n % 10) ∷ []

-- A number below 2^64 has at most twenty digits.
unfoldable pub decimal : ℕ → List ℕ
unfolding digits
decimal n = digits 19 n

-- The number that a list of digits, read after a number, stands for.
abbrev read_after : ℕ → List ℕ → ℕ
read_after n [] = n
read_after n (d ∷ ds) = read_after (10 * n + (d - 48)) ds

abbrev pub read_decimal : List ℕ → ℕ
read_decimal ds = read_after 0 ds

read_after-append :
    (n : ℕ) (xs : List ℕ) (d : ℕ) → read_after n (xs ++ d ∷ []) ≡ 10 * read_after n xs + (d - 48)
read_after-append n [] d = refl
read_after-append n (x ∷ xs) d = read_after-append (10 * n + (x - 48)) xs d

read-digits : (fuel n : ℕ) → n < 10 ^ (suc fuel) → read_decimal (digits fuel n) ≡ n
unfolding digits
read-digits zero n h = omega (arith, h)
read-digits (suc fuel) n h = elim (Bool-cases (ltb n 10)) [
  | inl e ↦ rw e (omega arith)
  | inr e ↦ rw e (
      read_after-append 0 (digits fuel (n / 10)) (48 + n % 10)
      ∙ (let ih = read-digits fuel (n / 10) (omega (arith, h)) in omega (arith, ih)))
]

-- What is printed for a 64-bit number is read back as the number.
pub read-decimal : (n : ℕ) → n < 18446744073709551616 → read_decimal (decimal n) ≡ n
unfolding decimal
read-decimal n h = read-digits 19 n (omega (arith, h))
