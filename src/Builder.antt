-- ===== src/Builder.antt =====
-- odp/netlink.go: NlMsgBuilder, as the bytes that its buffer holds. The array behind them, its
-- capacity and the copies that `expand` makes are those of the child module Slice.
pub mod Emits
pub mod Slice
pub mod Values
use go_odp.Prelude.{ℕ, ◌+◌, ◌-◌, ◌%◌, ◌^◌, List, [], ◌∷◌, ◌++◌, length, replicate, write_at}
use go_odp.Align.{align, alignto}
use go_odp.Memory.{u16_bytes, u32_bytes}

pub record NlMsgBuilder : Type 0 where
  pub buf : List ℕ

-- syscall.NlMsghdr is Len (4 bytes), Type (2), Flags (2), Seq (4) and Pid (4).
abbrev pub nlmsg_hdrlen : ℕ
nlmsg_hdrlen = 16

abbrev pub sizeof_nl_attr : ℕ
sizeof_nl_attr = 4

unfoldable pub new_nl_msg_builder : ℕ → ℕ → NlMsgBuilder
new_nl_msg_builder flags typ =
    let zeros = replicate nlmsg_hdrlen 0 in
    record { buf = write_at 4 (u16_bytes typ) (write_at 6 (u16_bytes flags) zeros) }

-- The bytes up to length `l`; those that are new are 0.
abbrev pub extend : List ℕ → ℕ → List ℕ
extend buf l = buf ++ replicate (l - length buf) 0

-- The method Align.
unfoldable pub align_buf : ℕ → NlMsgBuilder → NlMsgBuilder
align_buf a msg = record { buf = extend msg.buf (align (length msg.buf) a) }

unfoldable pub grow : ℕ → NlMsgBuilder → ℕ × NlMsgBuilder
grow size msg = let pos = length msg.buf in (pos, record { buf = extend msg.buf (pos + size) })

unfoldable pub align_grow : ℕ → ℕ → NlMsgBuilder → ℕ × NlMsgBuilder
align_grow a size msg =
    let apos = align (length msg.buf) a in (apos, record { buf = extend msg.buf (apos + size) })

-- The message's bytes and its sequence number; the state is `nextSeqNo`.
unfoldable pub finish : NlMsgBuilder → ℕ → (List ℕ × ℕ) × ℕ
finish msg next_seq_no =
    let buf = write_at 0 (u32_bytes (length msg.buf)) msg.buf in
    let seq = (next_seq_no + 1) % 2 ^ 32 in ((write_at 8 (u32_bytes seq) buf, seq), seq)

-- The header of the attribute at `pos`: Len, which wraps as a uint16, and Type.
abbrev pub set_nl_attr : ℕ → ℕ → List ℕ → List ℕ
set_nl_attr pos typ buf =
    write_at pos (u16_bytes ((length buf - pos) % 65536)) (write_at (pos + 2) (u16_bytes typ) buf)

-- A callback may leave a result behind, in a variable of its caller.
unfoldable pub put_attr_with {ℓ} :
    {R : Type ℓ} → ℕ → (NlMsgBuilder → NlMsgBuilder × R) → NlMsgBuilder → NlMsgBuilder × R
unfolding align_grow
put_attr_with typ gen msg =
    let (pos, grown) = align_grow alignto sizeof_nl_attr msg in
    let (done, r) = gen grown in (record { buf = set_nl_attr pos typ done.buf }, r)

unfoldable pub put_attr : ℕ → (NlMsgBuilder → NlMsgBuilder) → NlMsgBuilder → NlMsgBuilder
unfolding put_attr_with
put_attr typ gen msg = (put_attr_with {R = Unit {0}} typ (λ m. (gen m, tt)) msg).0

unfoldable pub put_nested_attrs_with {ℓ} :
    {R : Type ℓ} → ℕ → (NlMsgBuilder → NlMsgBuilder × R) → NlMsgBuilder → NlMsgBuilder × R
unfolding put_attr_with align_buf
put_nested_attrs_with typ gen =
    put_attr_with typ (λ m. let (done, r) = gen m in (align_buf alignto done, r))

unfoldable pub put_nested_attrs : ℕ → (NlMsgBuilder → NlMsgBuilder) → NlMsgBuilder → NlMsgBuilder
unfolding put_attr align_buf
put_nested_attrs typ gen = put_attr typ (λ m. align_buf alignto (gen m))

unfoldable pub put_empty_attr : ℕ → NlMsgBuilder → NlMsgBuilder
unfolding put_attr
put_empty_attr typ = put_attr typ (λ m. m)

-- `pos := Grow(n)` and a write of `n` bytes at `pos`.
abbrev pub grow_write : List ℕ → NlMsgBuilder → NlMsgBuilder
unfolding grow
grow_write bytes msg =
    let (pos, grown) = grow (length bytes) msg in record { buf = write_at pos bytes grown.buf }

unfoldable pub put_uint8_attr : ℕ → ℕ → NlMsgBuilder → NlMsgBuilder
unfolding put_attr grow
put_uint8_attr typ val = put_attr typ (grow_write (val ∷ []))

unfoldable pub put_uint16_attr : ℕ → ℕ → NlMsgBuilder → NlMsgBuilder
unfolding put_attr grow
put_uint16_attr typ val = put_attr typ (grow_write (u16_bytes val))

unfoldable pub put_uint32_attr : ℕ → ℕ → NlMsgBuilder → NlMsgBuilder
unfolding put_attr grow
put_uint32_attr typ val = put_attr typ (grow_write (u32_bytes val))

-- The text, and a nul byte behind it.
unfoldable pub put_string_z : List ℕ → NlMsgBuilder → NlMsgBuilder
unfolding grow
put_string_z str msg =
    let l = length str in
    let (pos, grown) = grow (l + 1) msg in
    record { buf = write_at (pos + l) (0 ∷ []) (write_at pos str grown.buf) }

unfoldable pub put_string_attr : ℕ → List ℕ → NlMsgBuilder → NlMsgBuilder
unfolding put_attr put_string_z
put_string_attr typ str = put_attr typ (put_string_z str)

unfoldable pub put_slice_attr : ℕ → List ℕ → NlMsgBuilder → NlMsgBuilder
unfolding put_attr grow
put_slice_attr typ bytes = put_attr typ (grow_write bytes)
