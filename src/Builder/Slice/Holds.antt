-- ===== src/Builder/Slice/Holds.antt =====
-- odp/unsafe.go, and `expand` of odp/netlink.go: what a slice holds, a fresh slice, and the loop
-- that finds a capacity.
use Prim.Native.Nat.{bit_and}
use native.Mathlib.Decide.{dec_lt, ℕ_discrete}
use go_odp.Prelude.{
  ℕ, zero, suc, ◌+◌, ◌-◌, ◌*◌, ◌/◌, ◌%◌, ◌≤◌, ◌≡◌, refl, ap, ◌∙◌, List, ◌++◌, ok, length, drop,
  replicate, ltb-true, ltb-false, leb-true, ==_false, bit_and-seven, arith, replicate-add,
  length-replicate, length-drop, length-append,
}
use go_odp.Builder.Slice.{
  Slice, capacity, reslice, align_buffers, make, make_aligned_byte_slice_cap, enlarge,
}

-- The slice shows these bytes, starts at an aligned address, and has only zeros behind them.
pub record Holds (s : Slice) (bytes : List ℕ) : Type 0 where
  pub room : ℕ
  pub shows : s.len ≡ length bytes
  pub zeros : s.array ≡ bytes ++ replicate room 0
  pub aligned : s.address % align_buffers ≡ 0

pub enlarge_lem :
    (fuel l c : ℕ)
    → l ≤ fuel + c
    → (k : ℕ) × (enlarge (suc fuel) l c ≡ ok k)
      × (l ≤ k)
      × (c ≤ k)
      × (c ≤ l * 3 / 2 → k ≤ l * 3 / 2)
unfolding enlarge
enlarge_lem zero l c h =
    (c, rw (ltb-false c l (omega arith)) refl, omega arith, omega arith, λ b. b)
enlarge_lem (suc fuel) l c h = elim (dec_lt c l) [
  | yes below ↦
      let (k, runs, enough, more, bound) = enlarge_lem fuel l ((c + 1) * 3 / 2) (omega arith) in
      (k, rw (ltb-true c l below) runs, enough, omega arith, λ _. bound (omega arith))
  | no above ↦ (c, rw (ltb-false c l (omega arith)) refl, omega arith, omega arith, λ b. b)
]

pub drop-replicate : (m n : ℕ) → drop m (replicate {A = ℕ} n 0) ≡ replicate (n - m) 0
drop-replicate zero n = ap (λ k. replicate {A = ℕ} k 0) {x = n} {y = n - zero} (omega arith)
drop-replicate (suc m) zero =
    ap (λ k. replicate {A = ℕ} k 0) {x = zero} {y = zero - suc m} (omega arith)
drop-replicate (suc m) (suc n) =
    drop-replicate m n
    ∙ ap (λ k. replicate {A = ℕ} k 0) {x = n - m} {y = suc n - suc m} (omega arith)

pub reslice_lem :
    (from to : ℕ) (s : Slice)
    → from ≤ to
    → to ≤ capacity s
    → reslice from to s
      ≡ ok (record { address = s.address + from; len = to - from; array = drop from s.array })
reslice_lem from to s h k = rw (leb-true from to h, leb-true to (length s.array) k) refl

-- An array of zeros shows zeros.
pub zeros-Holds :
    (s : Slice) (l k : ℕ)
    → s.len ≡ l
    → s.array ≡ replicate k 0
    → l ≤ k
    → s.address % align_buffers ≡ 0
    → Holds s (replicate l 0)
zeros-Holds s l k shows zeros h aligned = record {
  room = k - l;
  shows = omega (arith, length-replicate {A = ℕ} l 0);
  zeros =
      zeros
      ∙ ap (λ m. replicate {A = ℕ} m 0) {x = k} {y = l + (k - l)} (omega arith)
      ∙ replicate-add {A = ℕ} l (k - l) 0;
  aligned = aligned;
}

-- A fresh slice.
pub make_lem :
    (address_of : ℕ → ℕ) (l cap : ℕ)
    → l ≤ cap
    → (s : Slice) × (make_aligned_byte_slice_cap address_of l cap ≡ ok s)
      × Holds s (replicate l 0)
      × (cap ≤ capacity s)
      × (capacity s ≤ cap + 7)
unfolding make_aligned_byte_slice_cap
make_lem address_of l cap h = elim (ℕ_discrete off 0) [
  | yes e ↦ (
    record { address = base.address + 0; len = l - 0; array = base.array },
    rw e (reslice_lem 0 l base (omega arith) (omega (arith, room))),
    zeros-Holds _ l (cap + 8 - 1) (omega arith) refl (omega arith) (omega (arith, low, e)),
    omega (arith, room),
    omega (arith, room),
  )
  | no differs ↦ (
    record {
      address = base.address + (8 - off);
      len = l + (8 - off) - (8 - off);
      array = drop (8 - off) base.array;
    },
    rw (==_false off 0 differs)
        (reslice_lem (8 - off) (l + (8 - off)) base (omega arith) (omega (arith, room, low))),
    zeros-Holds _ l (cap + 8 - 1 - (8 - off)) (omega arith) (drop-replicate (8 - off) (cap + 8 - 1))
        (omega (arith, low, differs)) (omega (arith, low, differs)),
    omega (arith, room, low, differs, length-drop (8 - off) base.array),
    omega (arith, room, low, differs, length-drop (8 - off) base.array),
  )
]
  where
    base : Slice
    base = make address_of (cap + align_buffers - 1)

    off : ℕ
    off = bit_and base.address (align_buffers - 1)

    low : off ≡ base.address % 8
    low = bit_and-seven base.address

    room : length base.array ≡ cap + 8 - 1
    room = length-replicate {A = ℕ} (cap + 8 - 1) 0

pub capacity-Holds :
    (s : Slice) (bytes : List ℕ) (held : Holds s bytes) → capacity s ≡ length bytes + held.room
capacity-Holds s bytes held = omega (
  arith,
  ap length held.zeros,
  length-append bytes (replicate held.room 0),
  length-replicate {A = ℕ} held.room 0,
)
