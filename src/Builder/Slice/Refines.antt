-- ===== src/Builder/Slice/Refines.antt =====
-- odp/netlink.go: the buffer with its capacity against the bytes of Builder.antt.
use Prim.Native.Nat.{min}
use native.Mathlib.Decide.{dec_lt}
use go_odp.Prelude.{
  ℕ, ◌+◌, ◌-◌, ◌*◌, ◌/◌, ◌≤◌, ◌<◌, ◌≡◌, refl, sym, ap, ◌∙◌, List, ◌++◌, ok, ◌>>=◌, length, take,
  replicate, ltb-true, ltb-false, arith, replicate-add, length-replicate, length-append,
  take-append, append_assoc, write_at-middle, [], inl, inr, ◌⊎◌,
}
use go_odp.Align.{align, alignto, align_four}
use go_odp.Builder.{NlMsgBuilder, extend, grow, align_buf, align_grow}
use go_odp.Builder.Slice.{
  Slice, capacity, reslice, copy, expand, set_length, align_slice, grow_slice, align_grow_slice,
  make_aligned_byte_slice,
}
use go_odp.Builder.Slice.Holds.{Holds, enlarge_lem, reslice_lem, make_lem, capacity-Holds}

-- What `copy` leaves in a fresh slice.
copy_lem :
    (new buf : Slice) (bytes : List ℕ)
    → Holds buf bytes
    → Holds new (replicate buf.len 0)
    → Holds (copy new buf) bytes × (capacity (copy new buf) ≡ capacity new)
copy_lem new buf bytes held fresh = (
  holds,
  omega (
    arith,
    capacity-Holds _ _ holds,
    capacity-Holds _ _ fresh,
    length-replicate {A = ℕ} buf.len 0,
    held.shows,
  ),
)
  where
    same : new.len ≡ buf.len
    same = fresh.shows ∙ length-replicate buf.len 0

    taken : take (min new.len buf.len) buf.array ≡ bytes
    taken =
        ap (take (min new.len buf.len)) held.zeros
        ∙ take-append (min new.len buf.len) bytes (replicate held.room 0)
            (omega (arith, same, held.shows))

    written : (copy new buf).array ≡ bytes ++ replicate fresh.room 0
    written =
        rw (taken, fresh.zeros)
          (write_at-middle 0 bytes [] (replicate buf.len 0) (replicate fresh.room 0) refl
            (sym (length-replicate buf.len 0 ∙ held.shows)))

    holds : Holds (copy new buf) bytes
    holds = record {
      room = fresh.room;
      shows = same ∙ held.shows;
      zeros = written;
      aligned = fresh.aligned;
    }

-- Wherever the run-time puts its arrays: let a slice start at a multiple of 8, show some bytes and
-- have only zeros behind them, and let `l` be above its capacity. Then `expand` returns, with a
-- slice that shows the same bytes, has only zeros behind them and starts at a multiple of 8; its
-- capacity is at least `l`, at least half as much again as the old one, and at most half as much
-- again as `l`, and 7.
pub expand-capacity :
    (address_of : ℕ → ℕ) (buf : Slice) (bytes : List ℕ) (l : ℕ)
    → Holds buf bytes
    → capacity buf < l
    → (s : Slice) × (expand address_of buf l ≡ ok s)
      × Holds s bytes
      × (l ≤ capacity s)
      × ((capacity buf + 1) * 3 / 2 ≤ capacity s)
      × (capacity s ≤ l * 3 / 2 + 7)
unfolding expand
expand-capacity address_of buf bytes l held h =
    let (c, enlarged, enough, more, bound) =
      enlarge_lem l l ((capacity buf + 1) * 3 / 2) (omega arith) in
    let (new, made, fresh, least, most) =
      make_lem address_of buf.len c (omega (arith, more, capacity-Holds _ _ held, held.shows)) in
    let (holds, same) = copy_lem new buf bytes held fresh in
    (
      copy new buf,
      rw (enlarged, made) refl,
      holds,
      omega arith,
      omega arith,
      omega (arith, bound (omega arith)),
    )

-- `buf[:l]`, where the array has room.
cut_lem :
    (buf : Slice) (bytes : List ℕ) (l : ℕ)
    → Holds buf bytes
    → length bytes ≤ l
    → l ≤ capacity buf
    → (s : Slice) × (reslice 0 l buf ≡ ok s)
      × Holds s (extend bytes l)
      × (capacity s ≡ capacity buf)
cut_lem buf bytes l held h k = (
  record { address = buf.address + 0; len = l - 0; array = buf.array },
  reslice_lem 0 l buf (omega arith) k,
  record {
    room = held.room - (l - length bytes);
    shows = omega (
      arith,
      length-append bytes (replicate (l - length bytes) 0),
      length-replicate {A = ℕ} (l - length bytes) 0,
    );
    zeros =
        held.zeros
        ∙ ap (◌++◌ bytes) (
            ap (λ m. replicate {A = ℕ} m 0) {x = held.room}
              {y = l - length bytes + (held.room - (l - length bytes))}
              (omega (arith, capacity-Holds _ _ held))
            ∙ replicate-add (l - length bytes) (held.room - (l - length bytes)) 0)
        ∙ sym (
            append_assoc bytes (replicate (l - length bytes) 0)
              (replicate (held.room - (l - length bytes)) 0));
    aligned = omega (arith, held.aligned);
  },
  refl,
)

-- The slice that a longer length leaves, and its capacity.
set_length_lem :
    (address_of : ℕ → ℕ) (buf : Slice) (bytes : List ℕ) (l : ℕ)
    → Holds buf bytes
    → length bytes ≤ l
    → (s : Slice) × (set_length address_of l buf ≡ ok s)
      × Holds s (extend bytes l)
      × ((l ≤ capacity buf) × (capacity s ≡ capacity buf)
          ⊎ ((capacity buf + 1) * 3 / 2 ≤ capacity s) × (capacity s ≤ l * 3 / 2 + 7))
unfolding set_length
set_length_lem address_of buf bytes l held h = elim (dec_lt (capacity buf) l) [
  | yes below ↦
      let (more, expanded, holds, enough, least, most) =
        expand-capacity address_of buf bytes l held below in
      let (s, cut, done, same) = cut_lem more bytes l holds h enough in
      (s, rw (ltb-true (capacity buf) l below, expanded) cut, done, inr (omega arith, omega arith))
  | no above ↦
      let (s, cut, done, same) = cut_lem buf bytes l held h (omega arith) in
      (s, rw (ltb-false (capacity buf) l (omega arith)) cut, done, inl (omega arith, same))
]

-- A new builder's buffer.
pub make_aligned_byte_slice-Holds :
    (address_of : ℕ → ℕ) (l : ℕ)
    → (s : Slice) × (make_aligned_byte_slice address_of l ≡ ok s) × Holds s (replicate l 0)
unfolding make_aligned_byte_slice
make_aligned_byte_slice-Holds address_of l =
    let (s, made, fresh, least, most) = make_lem address_of l l (omega arith) in (s, made, fresh)

-- Wherever the run-time puts its arrays: let `buf` be a slice that starts at a multiple of 8, shows
-- the bytes of a builder and has only zeros behind them. Then Align, Grow and AlignGrow, with the
-- capacity and the reallocations of the code, do not panic and their loop ends; each leaves a slice
-- of that kind that shows the bytes which the builder without capacities then has, and Grow and
-- AlignGrow return the same position as there.
pub grow_slice-grow :
    (address_of : ℕ → ℕ) (size : ℕ) (buf : Slice) (msg : NlMsgBuilder)
    → Holds buf msg.buf
    → ((s : Slice) × (align_slice address_of alignto buf ≡ ok s)
        × Holds s (align_buf alignto msg).buf)
      × ((s : Slice) × (grow_slice address_of size buf ≡ ok ((grow size msg).0, s))
          × Holds s (grow size msg).1.buf)
      × ((s : Slice) × (align_grow_slice address_of alignto size buf
            ≡ ok ((align_grow alignto size msg).0, s))
          × Holds s (align_grow alignto size msg).1.buf)
unfolding align_slice grow_slice align_grow_slice grow align_buf align_grow
grow_slice-grow address_of size buf msg held =
    let aligned = align_four (length msg.buf) in
    let (s, set, holds, _) =
      set_length_lem address_of buf msg.buf (align (length msg.buf) alignto) held
        (omega (arith, aligned)) in
    let (t, grown, bigger, _) =
      set_length_lem address_of buf msg.buf (length msg.buf + size) held (omega arith) in
    let (u, both, biggest, _) =
      set_length_lem address_of buf msg.buf (align (length msg.buf) alignto + size) held
        (omega (arith, aligned)) in
    (
      (s, ap (λ l. set_length address_of (align l alignto) buf) held.shows ∙ set, holds),
      (
        t,
        ap (λ l. set_length address_of (l + size) buf >>= λ g. ok (l, g)) held.shows
            ∙ ap (λ r. r >>= λ g. ok (length msg.buf, g)) grown,
        bigger,
      ),
      (
        u,
        ap
              (λ l.
                set_length address_of (align l alignto + size) buf >>= λ g. ok (align l alignto, g))
              held.shows
            ∙ ap (λ r. r >>= λ g. ok (align (length msg.buf) alignto, g)) both,
        biggest,
      ),
    )
