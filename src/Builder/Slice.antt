-- ===== src/Builder/Slice.antt =====
-- odp/unsafe.go: the allocation of aligned slices; odp/netlink.go: `expand`, and Align, Grow and
-- AlignGrow with the capacity of the buffer. A slice is the address of its first byte, its length,
-- and what the array holds from that byte on, so that the number of those bytes is the capacity.
-- `address_of` stands for the run-time: it says where an array of that size is put. Lengths stay
-- far below 2^63: `int` does not overflow.
pub mod Holds
pub mod Refines
use Prim.Native.Nat.{bit_and, min}
use go_odp.Prelude.{
  ℕ, zero, suc, ◌+◌, ◌-◌, ◌*◌, ◌/◌, List, ◌++◌, Result, ok, panic, out_of_fuel, ◌>>=◌, ltb, leb,
  ◌==◌, ◌&&◌, length, take, drop, replicate, write_at, if◌then◌else◌,
}
use go_odp.Align.{align}

pub record Slice : Type 0 where
  pub address : ℕ
  pub len : ℕ
  pub array : List ℕ

abbrev pub capacity : Slice → ℕ
capacity s = length s.array

-- `s[from:to]`, which may reach up to the capacity and panics beyond it.
abbrev pub reslice : ℕ → ℕ → Slice → Result Slice
reslice from to s =
    if leb from to && leb to (capacity s)
    then ok (record { address = s.address + from; len = to - from; array = drop from s.array })
    else panic

abbrev pub align_buffers : ℕ
align_buffers = 8

-- The loop of `expand`: `c` is enlarged while the length `l` is above it.
unfoldable pub enlarge : ℕ → ℕ → ℕ → Result ℕ
enlarge zero l c = out_of_fuel
enlarge (suc fuel) l c =
    let rest = enlarge fuel l ((c + 1) * 3 / 2) in if ltb c l then rest else ok c

-- `copy(new, buf)`: as many bytes as both slices show.
abbrev pub copy : Slice → Slice → Slice
copy new buf = record new { array = write_at 0 (take (min new.len buf.len) buf.array) new.array }

module _ (address_of : ℕ → ℕ) where
  -- `make([]byte, n)`.
  abbrev pub make : ℕ → Slice
  make n = record { address = address_of n; len = n; array = replicate n 0 }

  unfoldable pub make_aligned_byte_slice_cap : ℕ → ℕ → Result Slice
  make_aligned_byte_slice_cap len cap =
      let b = make (cap + align_buffers - 1) in
      let off = bit_and b.address (align_buffers - 1) in
      if off == 0
      then reslice 0 len b
      else reslice (align_buffers - off) (len + (align_buffers - off)) b

  unfoldable pub make_aligned_byte_slice : ℕ → Result Slice
  make_aligned_byte_slice len = make_aligned_byte_slice_cap len len

  -- The fuel is one round more than the length that is asked for.
  unfoldable pub expand : Slice → ℕ → Result Slice
  expand buf l = do
    c ← enlarge (suc l) l ((capacity buf + 1) * 3 / 2)
    new ← make_aligned_byte_slice_cap buf.len c
    ok (copy new buf)

  -- The lines that Align, Grow and AlignGrow end with.
  unfoldable pub set_length : ℕ → Slice → Result Slice
  set_length l buf = do
    enough ← if ltb (capacity buf) l then expand buf l else ok buf
    reslice 0 l enough

  unfoldable pub align_slice : ℕ → Slice → Result Slice
  align_slice a buf = set_length (align buf.len a) buf

  unfoldable pub grow_slice : ℕ → Slice → Result (ℕ × Slice)
  grow_slice size buf = do grown ← set_length (buf.len + size) buf; ok (buf.len, grown)

  unfoldable pub align_grow_slice : ℕ → ℕ → Slice → Result (ℕ × Slice)
  align_grow_slice a size buf = do
    grown ← set_length (align buf.len a + size) buf
    ok (align buf.len a, grown)
