-- ===== src/Prelude/Bits.antt =====
-- The low bits of a number, as a remainder.
use Prim.Native.Nat.{ℕ, zero, suc, ◌/◌, ◌%◌, ◌≤◌, min, bit_and, digits, bit_and-bitwise}
use mathlib.Core.Path.{◌≡◌, refl}
use native.Mathlib.Omega.{arith}

-- The masks of no bit, of one, of two and of three, in the definition that `bit_and` stands for.
low_bits :
    (fuel n : ℕ)
    → n ≤ fuel
    → (digits (λ m. zero) min fuel n 0 ≡ 0)
      × (digits (λ m. zero) min fuel n 1 ≡ n % 2)
      × (digits (λ m. zero) min fuel n 3 ≡ n % 4)
      × (digits (λ m. zero) min fuel n 7 ≡ n % 8)
low_bits zero zero h = (refl, refl, refl, refl)
low_bits (suc fuel) zero h = (refl, refl, refl, refl)
low_bits zero (suc n) h = absurd (omega arith)
low_bits (suc fuel) (suc n) h =
    let (none, one, two, three) = low_bits fuel (suc n / 2) (omega arith) in
    (omega (arith, none), omega (arith, none), omega (arith, one), omega (arith, two))

pub bit_and-three : (n : ℕ) → bit_and n 3 ≡ n % 4
bit_and-three n =
    let (none, one, two, three) = low_bits n n (omega arith) in
    omega (arith, bit_and-bitwise n 3, two)

pub bit_and-seven : (n : ℕ) → bit_and n 7 ≡ n % 8
bit_and-seven n =
    let (none, one, two, three) = low_bits n n (omega arith) in
    omega (arith, bit_and-bitwise n 7, three)
