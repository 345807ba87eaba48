-- ===== src/Tests/Slices.antt =====
-- The theorems about the buffer of a builder, at an allocator that aligns no array.
use go_odp.Prelude.{ℕ, ◌+◌, ◌*◌, ◌/◌, ◌≤◌, ◌≡◌, refl, [], ◌∷◌, ok, arith}
use go_odp.Align.{alignto}
use go_odp.Builder.{NlMsgBuilder, align_buf, grow, align_grow}
use go_odp.Builder.Slice.{Slice, capacity, expand, align_slice, grow_slice, align_grow_slice}
use go_odp.Builder.Slice.Holds.{Holds}
use go_odp.Builder.Slice.Refines.{expand-capacity, grow_slice-grow}

abbrev odd_address : ℕ → ℕ
odd_address n = 1001

-- Three bytes, and room for two more.
abbrev three : Slice
three = record { address = 4096; len = 3; array = 7 ∷ 8 ∷ 9 ∷ 0 ∷ 0 ∷ [] }

abbrev message : NlMsgBuilder
message = record { buf = 7 ∷ 8 ∷ 9 ∷ [] }

three-Holds : Holds three message.buf
three-Holds = record { room = 2; shows = refl; zeros = refl; aligned = refl }

expand-capacity_example :
    (s : Slice) × (expand odd_address three 20 ≡ ok s)
    × Holds s (7 ∷ 8 ∷ 9 ∷ [])
    × (20 ≤ capacity s)
    × ((capacity three + 1) * 3 / 2 ≤ capacity s)
    × (capacity s ≤ 20 * 3 / 2 + 7)
expand-capacity_example =
    expand-capacity odd_address three (7 ∷ 8 ∷ 9 ∷ []) 20 three-Holds (omega arith)

grow_slice-grow_example :
    ((s : Slice) × (align_slice odd_address alignto three ≡ ok s)
      × Holds s (align_buf alignto message).buf)
    × ((s : Slice) × (grow_slice odd_address 20 three ≡ ok ((grow 20 message).0, s))
        × Holds s (grow 20 message).1.buf)
    × ((s : Slice) × (align_grow_slice odd_address alignto 20 three
          ≡ ok ((align_grow alignto 20 message).0, s))
        × Holds s (align_grow alignto 20 message).1.buf)
grow_slice-grow_example = grow_slice-grow odd_address 20 three message three-Holds
