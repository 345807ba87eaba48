-- ===== src/Memory/Codec.antt =====
-- What is written in memory is read back.
use go_odp.Prelude.{
  ℕ, ◌<◌, ◌%◌, ◌/◌, ◌≡◌, refl, ap, ◌∙◌, List, [], ◌++◌, append_assoc, Result, ok, length,
  drop-append, length-append, ltb-true, arith,
}
use go_odp.Memory.{
  u16_bytes, u32_bytes, read_u16, read_u32, read_u64, at, uint16_at, uint32_at, uint64_at,
  read_nl_attr, nl_attr_at, uint16_from_be, uint16_to_be,
}

-- An access behind `pre` reads what stands there.
pub at-append {ℓ} :
    {A : Type ℓ} (read : List ℕ → Result A) (pre post tail : List ℕ) (pos : ℕ)
    → pos ≡ length pre
    → 0 < length post
    → at read (pre ++ post) tail pos ≡ read (post ++ tail)
at-append read pre post tail pos e h =
    rw (ltb-true pos (length (pre ++ post)) (omega (arith, length-append pre post)))
      (rw (append_assoc pre post tail, drop-append pos pre (post ++ tail) e))

-- An attribute's header.
pub nl_attr_at-append :
    (pre post tail : List ℕ) (pos len typ : ℕ)
    → pos ≡ length pre
    → len < 65536
    → typ < 65536
    → nl_attr_at (pre ++ (u16_bytes len ++ (u16_bytes typ ++ post))) tail pos
      ≡ ok (record { len = len; typ = typ })
unfolding nl_attr_at read_nl_attr
nl_attr_at-append pre post tail pos len typ e hl ht =
    at-append read_nl_attr pre (u16_bytes len ++ (u16_bytes typ ++ post)) tail pos e (omega arith)
    ∙ ground arith

pub uint16_at-bytes : (v : ℕ) → v < 65536 → uint16_at (u16_bytes v) [] 0 ≡ ok v
unfolding uint16_at read_u16
uint16_at-bytes v h = ground arith

pub uint32_at-bytes : (v : ℕ) → v < 4294967296 → uint32_at (u32_bytes v) [] 0 ≡ ok v
unfolding uint32_at read_u32
uint32_at-bytes v h = ground arith

-- The bytes of a uint64.
abbrev pub u64_bytes : ℕ → List ℕ
u64_bytes v = u32_bytes (v % 4294967296) ++ u32_bytes (v / 4294967296)

pub read_u64-bytes :
    (v : ℕ) (behind : List ℕ) → v < 18446744073709551616 → read_u64 (u64_bytes v ++ behind) ≡ ok v
unfolding read_u64
read_u64-bytes v behind h = ap ok (omega (arith, h))

pub uint64_at-pair :
    (v w : ℕ)
    → v < 18446744073709551616
    → w < 18446744073709551616
    → (uint64_at (u64_bytes v ++ u64_bytes w) [] 0 ≡ ok v)
      × (uint64_at (u64_bytes v ++ u64_bytes w) [] 8 ≡ ok w)
unfolding uint64_at
uint64_at-pair v w hv hw = (
  at-append read_u64 [] (u64_bytes v ++ u64_bytes w) [] 0 refl (omega arith)
      ∙ read_u64-bytes v (u64_bytes w ++ []) hv,
  at-append read_u64 (u64_bytes v) (u64_bytes w) [] 8 refl (omega arith) ∙ read_u64-bytes w [] hw,
)

pub uint64_at-bytes : (v : ℕ) → v < 18446744073709551616 → uint64_at (u64_bytes v) [] 0 ≡ ok v
unfolding uint64_at
uint64_at-bytes v h =
    at-append read_u64 [] (u64_bytes v) [] 0 refl (omega arith) ∙ read_u64-bytes v [] h

-- A uint16 is restored from its network order.
pub uint16_from_be-to_be : (n : ℕ) → n < 65536 → uint16_from_be (uint16_to_be n) ≡ n
unfolding uint16_to_be
uint16_from_be-to_be n h = omega arith

pub uint16_to_be-lt : (n : ℕ) → uint16_to_be n < 65536
unfolding uint16_to_be
uint16_to_be-lt n = omega arith
