-- ===== src/Parser.antt =====
-- odp/netlink.go: NlMsgParser. A method returns its result and the parser that it leaves; a method
-- that fails returns the error alone, since no caller reads a parser after its error.
pub mod RoundTrip
pub mod Rounds
pub mod Safety
use go_odp.Prelude.{
  ℕ, zero, suc, ◌+◌, ◌-◌, ◌*◌, ◌%◌, ◌^◌, List, [], ◌∷◌, ◌++◌, Option, none, some, Bool, true, false,
  Result, ok, err, panic, wild, out_of_fuel, Error, message_truncated, header_truncated,
  length_exceeds, truncated_object, netlink_error, wrong_port_id, wrong_type, ◌>>=◌, ◌>>◌, ltb, leb,
  ◌==◌, not, ◌&&◌, if◌then◌else◌, length, take, drop, slice,
}
use go_odp.Align.{align, alignto}
use go_odp.Memory.{at, int32_at, NlAttr, nl_attr_at}
use go_odp.Builder.{nlmsg_hdrlen, sizeof_nl_attr}
use go_odp.Format.{Attr}

-- `tail` is what the backing array holds behind the slice `data`.
pub record NlMsgParser : Type 0 where
  pub data_bytes : List ℕ
  pub tail : List ℕ
  pub pos : ℕ

-- syscall.NlMsghdr
pub record NlMsghdr : Type 0 where
  pub len : ℕ
  pub typ : ℕ
  pub flags : ℕ
  pub seq : ℕ
  pub pid : ℕ

abbrev pub u16 : ℕ → ℕ → ℕ
u16 a b = a + 256 * b

abbrev pub u32 : ℕ → ℕ → ℕ → ℕ → ℕ
u32 a b c d = a + 256 * b + 65536 * c + 16777216 * d

unfoldable pub read_nl_msghdr : List ℕ → Result NlMsghdr
read_nl_msghdr (a ∷ b ∷ c ∷ d ∷ e ∷ f ∷ g ∷ h ∷ i ∷ j ∷ k ∷ l ∷ m ∷ n ∷ o ∷ p ∷ rest) = ok (record {
  len = u32 a b c d;
  typ = u16 e f;
  flags = u16 g h;
  seq = u32 i j k l;
  pid = u32 m n o p;
})
read_nl_msghdr _ = wild

unfoldable pub nl_msghdr_at : List ℕ → List ℕ → ℕ → Result NlMsghdr
unfolding read_nl_msghdr
nl_msghdr_at = at read_nl_msghdr

-- syscall.NlMsgerr starts with its field Error.
unfoldable pub nl_msgerr_error_at : List ℕ → List ℕ → ℕ → Result ℕ
unfolding int32_at
nl_msgerr_error_at = int32_at

-- syscall.NLMSG_ERROR, NLMSG_DONE and SizeofNlMsghdr.
abbrev pub nlmsg_error : ℕ
nlmsg_error = 2

abbrev pub nlmsg_done : ℕ
nlmsg_done = 3

abbrev pub sizeof_nl_msghdr : ℕ
sizeof_nl_msghdr = 16

unfoldable pub check_available : ℕ → NlMsgParser → Result (Unit {0})
check_available size msg =
    if ltb (length msg.data_bytes) (msg.pos + size) then err message_truncated else ok tt

unfoldable pub advance : ℕ → NlMsgParser → Result NlMsgParser
unfolding check_available
advance size msg = do check_available size msg; ok (record msg { pos = msg.pos + size })

unfoldable pub align_advance : ℕ → ℕ → NlMsgParser → Result (ℕ × NlMsgParser)
unfolding advance
align_advance a size msg = do
  let pos = align msg.pos a
  moved ← advance size (record msg { pos = pos })
  ok (pos, moved)

unfoldable pub nl_msghdr : NlMsgParser → Result NlMsghdr
unfolding nl_msghdr_at
nl_msghdr msg = nl_msghdr_at msg.data_bytes msg.tail msg.pos

-- The next message, or none at the end, and the parser behind it.
unfoldable pub next_nl_msg : NlMsgParser → Result (Option NlMsgParser × NlMsgParser)
unfolding nl_msghdr
next_nl_msg msg =
    let avail = length msg.data_bytes - msg.pos in
    let cut : Result (Option NlMsgParser × NlMsgParser) = do
      h ← nl_msghdr msg
      let end = msg.pos + h.len
      let next : NlMsgParser = record {
        data_bytes = take end msg.data_bytes;
        tail = drop end msg.data_bytes ++ msg.tail;
        pos = msg.pos;
      }
      if ltb avail h.len
          then err (length_exceeds avail h.len)
          else ok (some next, record msg { pos = align end alignto })
    in if leb (length msg.data_bytes) msg.pos
      then ok (none, msg)
      else if ltb avail sizeof_nl_msghdr
      then err header_truncated
      else cut

-- `NetlinkError(-code)`: the int32 is negated, and then converted to a 64-bit Errno.
unfoldable pub errno_of : ℕ → ℕ
errno_of code =
    let negated = (2 ^ 32 - code) % 2 ^ 32 in
    if ltb negated (2 ^ 31) then negated else negated + (2 ^ 64 - 2 ^ 32)

unfoldable pub check_header : NlMsgParser → Result (Unit {0})
unfolding nl_msghdr nl_msgerr_error_at errno_of
check_header msg = do
  h ← nl_msghdr msg
  if h.typ == nlmsg_error
      then (do
        code ← nl_msgerr_error_at msg.data_bytes msg.tail (msg.pos + nlmsg_hdrlen)
        if code == 0 then ok tt else err (netlink_error (errno_of code)))
      else ok tt

-- Whether the message belongs to the request, and the error that comes with that: the code returns
-- `true` with each error.
unfoldable pub check_response_header : ℕ → ℕ → NlMsgParser → Result Bool
unfolding nl_msghdr check_header
check_response_header expected_port_id expected_seq msg = do
  h ← nl_msghdr msg
  if not (h.pid == expected_port_id)
      then err (wrong_port_id h.pid expected_port_id)
      else if not (h.seq == expected_seq)
      then ok false
      else check_header msg >> ok true

unfoldable pub expect_nl_msghdr : ℕ → NlMsgParser → Result (NlMsghdr × NlMsgParser)
unfolding nl_msghdr advance
expect_nl_msghdr typ msg = do
  h ← nl_msghdr msg
  moved ← advance sizeof_nl_msghdr msg
  if h.typ == typ then ok (h, moved) else err (wrong_type h.typ typ)

unfoldable pub check_data : ℕ → NlMsgParser → Result (Unit {0})
check_data l msg =
    if leb (msg.pos + l) (length msg.data_bytes)
    then ok tt
    else err (truncated_object (length msg.data_bytes - msg.pos) l)

-- `data[from:to]`: the bounds are checked against each other and the array.
unfoldable pub data_slice : ℕ → ℕ → NlMsgParser → Result (List ℕ)
data_slice from to msg =
    if leb from to && leb to (length msg.data_bytes + length msg.tail)
    then ok (slice from to (msg.data_bytes ++ msg.tail))
    else panic

-- The body of the loop of parseAttrs behind its `break`: the attribute at `apos`, and the parser
-- behind it.
unfoldable pub parse_attr : ℕ → NlMsgParser → Result (Attr × NlMsgParser)
unfolding check_data nl_attr_at data_slice
parse_attr apos msg = do
  let here = record msg { pos = apos }
  check_data sizeof_nl_attr here
  nla ← nl_attr_at here.data_bytes here.tail here.pos
  check_data nla.len here
  let valpos = align (here.pos + sizeof_nl_attr) alignto
  val ← data_slice valpos (here.pos + nla.len) here
  ok (record { typ = nla.typ; val = val }, record here { pos = here.pos + nla.len })

module _ {ℓ} {S : Type ℓ} (consumer : ℕ → List ℕ → S → S) where
  -- The state is what the consumer closes over. The fuel counts rounds.
  unfoldable pub parse_attrs_loop : ℕ → NlMsgParser → S → Result (S × NlMsgParser)
  parse_attrs_loop zero msg s = out_of_fuel
  parse_attrs_loop (suc fuel) msg s =
      let apos = align msg.pos alignto in
      let round = do
        (attr, moved) ← parse_attr apos msg
        parse_attrs_loop fuel moved (consumer attr.typ attr.val s)
      in if leb (length msg.data_bytes) apos then ok (s, msg) else round

  -- Each round passes a header of four bytes.
  unfoldable pub parse_attrs : NlMsgParser → S → Result (S × NlMsgParser)
  unfolding parse_attrs_loop
  parse_attrs msg s = parse_attrs_loop (length msg.data_bytes + 1) msg s
