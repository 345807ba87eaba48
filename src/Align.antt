-- ===== src/Align.antt =====
-- odp/netlink.go: `align`. In `n & -a` the operand `-a` is the complement of `a - 1`, so the result
-- is `n` less its bits in `a - 1`. Lengths stay far below 2^63: `int` does not overflow.
use Prim.Native.Nat.{bit_and}
use go_odp.Prelude.{ℕ, ◌+◌, ◌-◌, ◌*◌, ◌/◌, ◌%◌, ◌≤◌, ◌≡◌, bit_and-three, arith}

-- n &^ m
abbrev and_not : ℕ → ℕ → ℕ
and_not n m = n - bit_and n m

unfoldable pub align : ℕ → ℕ → ℕ
align n a = and_not (n + a - 1) (a - 1)

-- NLMSG_ALIGNTO and NLA_ALIGNTO.
abbrev pub alignto : ℕ
alignto = 4

-- `align n 4` is a multiple of 4, is not below `n`, and is below no multiple of 4 that is not below
-- `n`.
pub align-IsLeast :
    (n m : ℕ)
    → n ≤ m
    → m % 4 ≡ 0
    → (n ≤ align n alignto) × (align n alignto % 4 ≡ 0) × (align n alignto ≤ m)
unfolding align
align-IsLeast n m h k = let low = bit_and-three (n + 4 - 1) in omega (arith, low)

-- The closed form that the proofs compute with.
pub align_four : (n : ℕ) → align n 4 ≡ (n + 3) / 4 * 4
unfolding align
align_four n = omega (arith, bit_and-three (n + 4 - 1))
