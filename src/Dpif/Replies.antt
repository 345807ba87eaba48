-- ===== src/Dpif/Replies.antt =====
-- What the checks of odp/dpif.go and odp/datapath.go, and TakeAttrs, make of a family's message.
use go_odp.Prelude.{
  ℕ, ◌+◌, ◌%◌, ◌<◌, ◌≡◌, refl, sym, ap, ◌∙◌, List, [], ◌∷◌, ◌++◌, append_assoc, true, Option, ok,
  length, length-append, arith, ==_self,
}
use go_odp.Memory.{u16_bytes, u32_bytes, at, read_u8, read_u32, int32_at}
use go_odp.Memory.Codec.{at-append}
use go_odp.Format.{encode}
use go_odp.Format.Laws.{encode-mod}
use go_odp.Parser.{NlMsgParser}
use go_odp.Attrs.{take_attrs}
use go_odp.Attrs.RoundTrip.{attrs_of, take_attrs-encode}
use go_odp.Session.Packets.{message_bytes, parser_at}
use go_odp.Dpif.{
  Dpif, DatapathHandle, cmd_accepted, check_genl_msghdr, take_ovs_header, fallback_cmd,
  check_nl_msg_headers, check_datapath_headers,
}
use go_odp.Dpif.Messages.{
  OvsMessage, message_of, IsOvsMessage, front, behind_headers, message_size, align_advance-within,
  expect_nl_msghdr-message,
}

-- The header of the message alone.
abbrev netlink_header : OvsMessage → List ℕ
netlink_header m =
    u32_bytes (16 + length (message_of m).body)
    ++ (u16_bytes m.typ ++ (u16_bytes m.flags ++ (u32_bytes m.seq ++ u32_bytes m.pid)))

cmd_at :
    (pre : List ℕ) (m : OvsMessage) (behind : List ℕ)
    → at read_u8 (pre ++ message_bytes (message_of m)) behind (length pre + 16) ≡ ok m.cmd
unfolding read_u8
cmd_at pre m behind =
    let rest = m.version ∷ 0 ∷ 0 ∷ (u32_bytes m.ifindex ++ encode 0 m.attrs) in
    rw (← append_assoc pre (netlink_header m) (m.cmd ∷ rest)) (
      at-append read_u8 (pre ++ netlink_header m) (m.cmd ∷ rest) behind (length pre + 16)
        (omega (arith, length-append pre (netlink_header m))) (omega arith))

ifindex_at :
    (pre : List ℕ) (m : OvsMessage) (behind : List ℕ)
    → m.ifindex < 4294967296
    → int32_at (pre ++ message_bytes (message_of m)) behind (length pre + 20) ≡ ok m.ifindex
unfolding int32_at read_u32
ifindex_at pre m behind h =
    let head = netlink_header m ++ (m.cmd ∷ m.version ∷ 0 ∷ 0 ∷ []) in
    let rest = encode 0 m.attrs in
    rw (← append_assoc pre head (u32_bytes m.ifindex ++ rest)) (
      at-append read_u32 (pre ++ head) (u32_bytes m.ifindex ++ rest) behind (length pre + 20)
        (omega (arith, length-append pre head)) (omega arith)
      ∙ ground arith)

take_ovs_header-message :
    (pre : List ℕ) (m : OvsMessage) (behind : List ℕ) (pos : ℕ)
    → m.ifindex < 4294967296
    → length pre % 4 ≡ 0
    → pos ≡ length pre + 20
    → take_ovs_header
        (record { data_bytes = pre ++ message_bytes (message_of m); tail = behind; pos = pos })
      ≡ ok (m.ifindex, behind_headers pre m behind)
unfolding take_ovs_header
take_ovs_header-message pre m behind pos h words e =
    let bytes = pre ++ message_bytes (message_of m) in
    let ends : length pre + 20 + 4 ≡ length pre + 24 = omega arith in
    rw e (
      rw
        (
          align_advance-within 4 (length pre + 20) bytes behind (omega (arith, words))
              (omega (arith, message_size pre m)),
          ifindex_at pre m behind h,
        )
        (ap (λ (n : ℕ). ok (m.ifindex, record { data_bytes = bytes; tail = behind; pos = n }))
          ends))

-- The checks of a family's message, wherever it stands in its datagram, succeed and give the command
-- and the datapath.
pub check_nl_msg_headers-message :
    (dpif : Dpif) (family : ℕ) (cmd : Option ℕ) (pre : List ℕ) (m : OvsMessage) (behind : List ℕ)
    → IsOvsMessage m
    → m.typ ≡ dpif.families family
    → cmd_accepted m.cmd cmd (fallback_cmd family) ≡ true
    → length pre % 4 ≡ 0
    → check_nl_msg_headers dpif family cmd (parser_at pre (message_of m) behind)
      ≡ ok ((m.cmd, m.ifindex), behind_headers pre m behind)
unfolding check_nl_msg_headers check_genl_msghdr
check_nl_msg_headers-message dpif family cmd pre m behind h same accepted words =
    let bytes = pre ++ message_bytes (message_of m) in
    rw (← same, expect_nl_msghdr-message pre m behind h)
      (rw
        (
          align_advance-within 4 (length pre + 16) bytes behind (omega (arith, words))
              (omega (arith, message_size pre m)),
          cmd_at pre m behind,
          accepted,
          take_ovs_header-message pre m behind (length pre + 16 + 4) h.ifindex_fits words
              (omega arith),
        )
        refl)

pub check_datapath_headers-message :
    (dp : DatapathHandle) (family : ℕ) (cmd : Option ℕ) (pre : List ℕ) (m : OvsMessage)
    (behind : List ℕ)
    → IsOvsMessage m
    → m.typ ≡ dp.dpif.families family
    → cmd_accepted m.cmd cmd (fallback_cmd family) ≡ true
    → length pre % 4 ≡ 0
    → m.ifindex ≡ dp.ifindex
    → check_datapath_headers dp family cmd (parser_at pre (message_of m) behind)
      ≡ ok (behind_headers pre m behind)
unfolding check_datapath_headers
check_datapath_headers-message dp family cmd pre m behind h same accepted words own =
    rw (check_nl_msg_headers-message dp.dpif family cmd pre m behind h same accepted words, own)
      (rw (==_self dp.ifindex) refl)

-- And then TakeAttrs gives the message's attributes.
pub take_attrs-message :
    (pre : List ℕ) (m : OvsMessage) (behind : List ℕ)
    → IsOvsMessage m
    → length pre % 4 ≡ 0
    → (end : NlMsgParser) × (take_attrs (behind_headers pre m behind) ≡ ok (attrs_of m.attrs, end))
take_attrs-message pre m behind h words =
    let head = pre ++ front m in
    let start : length head ≡ length pre + 24 = omega (arith, length-append pre (front m)) in
    let (end, e) = take_attrs-encode m.attrs head behind h.attrs_fit in
    let split : head ++ encode (length head) m.attrs ≡ pre ++ message_bytes (message_of m) =
      ap (λ (l : List ℕ). head ++ l)
        (encode-mod m.attrs (length head) 0 (omega (arith, start, words)))
      ∙ append_assoc pre (front m) (encode 0 m.attrs) in
    (
      record { data_bytes = head ++ encode (length head) m.attrs; tail = behind; pos = end },
      ap
            (λ (l : List ℕ).
              take_attrs (record { data_bytes = l; tail = behind; pos = length pre + 24 }))
            (sym split)
          ∙ ap
              (λ (n : ℕ). take_attrs (record {
                data_bytes = head ++ encode (length head) m.attrs;
                tail = behind;
                pos = n;
              }))
              (sym start)
          ∙ e,
    )
