-- ===== src/Memory.antt =====
-- odp/unsafe.go: typed access to byte slices, on a little-endian host. A slice is the bytes that it
-- shows and the `tail`, what the backing array holds behind them: an access checks that its first
-- byte lies in the slice, and then reads on into the array.
pub mod Codec
use go_odp.Prelude.{
  ℕ, zero, suc, ◌+◌, ◌*◌, ◌/◌, ◌%◌, ◌^◌, List, [], ◌∷◌, ◌++◌, Result, ok, panic, wild, ltb, length,
  drop, if◌then◌else◌,
}

-- The bytes of a number in memory, lowest first.
abbrev pub u16_bytes : ℕ → List ℕ
u16_bytes v = v % 256 ∷ v / 256 % 256 ∷ []

abbrev pub u32_bytes : ℕ → List ℕ
u32_bytes v = v % 256 ∷ v / 256 % 256 ∷ v / 65536 % 256 ∷ v / 16777216 % 256 ∷ []

-- What an access of that width reads; `wild` where the array ends.
unfoldable pub read_u8 : List ℕ → Result ℕ
read_u8 (a ∷ m) = ok a
read_u8 _ = wild

unfoldable pub read_u16 : List ℕ → Result ℕ
read_u16 (a ∷ b ∷ m) = ok (a + 256 * b)
read_u16 _ = wild

unfoldable pub read_u32 : List ℕ → Result ℕ
read_u32 (a ∷ b ∷ c ∷ d ∷ m) = ok (a + 256 * b + 65536 * c + 16777216 * d)
read_u32 _ = wild

unfoldable pub read_u64 : List ℕ → Result ℕ
read_u64 (a ∷ b ∷ c ∷ d ∷ e ∷ f ∷ g ∷ h ∷ m) =
    ok (
      a
      + 256 * b
      + 65536 * c
      + 16777216 * d
      + 4294967296 * (e + 256 * f + 65536 * g + 16777216 * h))
read_u64 _ = wild

-- `&data[pos]` panics where `pos` is out of range; the pointer then reads the array from there.
abbrev pub at {ℓ} : {A : Type ℓ} → (List ℕ → Result A) → List ℕ → List ℕ → ℕ → Result A
at read data_bytes tail pos =
    if ltb pos (length data_bytes) then read (drop pos (data_bytes ++ tail)) else panic

unfoldable pub uint16_at : List ℕ → List ℕ → ℕ → Result ℕ
uint16_at = at read_u16

unfoldable pub uint32_at : List ℕ → List ℕ → ℕ → Result ℕ
uint32_at = at read_u32

-- An int32 is its bit pattern.
unfoldable pub int32_at : List ℕ → List ℕ → ℕ → Result ℕ
int32_at = at read_u32

unfoldable pub uint64_at : List ℕ → List ℕ → ℕ → Result ℕ
uint64_at = at read_u64

-- syscall.NlAttr, of 4 bytes.
pub record NlAttr : Type 0 where
  pub len : ℕ
  pub typ : ℕ

unfoldable pub read_nl_attr : List ℕ → Result NlAttr
read_nl_attr (a ∷ b ∷ c ∷ d ∷ m) = ok (record { len = a + 256 * b; typ = c + 256 * d })
read_nl_attr _ = wild

unfoldable pub nl_attr_at : List ℕ → List ℕ → ℕ → Result NlAttr
nl_attr_at = at read_nl_attr

-- uint16FromBE and uint16ToBE: the low byte in memory is the high byte of the number.
unfoldable pub uint16_from_be : ℕ → ℕ
uint16_from_be n = (n % 256 * 256 % 65536 + n / 256 % 256) % 65536

unfoldable pub uint16_to_be : ℕ → ℕ
unfolding uint16_from_be
uint16_to_be n = uint16_from_be n
