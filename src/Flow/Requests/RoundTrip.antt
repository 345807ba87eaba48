-- ===== src/Flow/Requests/RoundTrip.antt =====
-- The message that CreateFlow sends, read as a flow message of the same datapath.
use go_odp.Prelude.{
  ℕ, ◌+◌, ◌%◌, ◌^◌, ◌<◌, ◌≡◌, refl, ap, List, ◌∷◌, ◌++◌, none, some, Result, ok, ◌>>=◌, length,
  arith,
}
use go_odp.Memory.{u16_bytes, u32_bytes, read_u8, read_u32, int32_at}
use go_odp.Align.{align}
use go_odp.Format.{encode}
use go_odp.Builder.{NlMsgBuilder, new_nl_msg_builder, finish, align_grow}
use go_odp.Parser.{
  nl_msghdr_at, read_nl_msghdr, nl_msghdr, check_available, advance, align_advance,
  expect_nl_msghdr,
}
use go_odp.Attrs.{Attrs}
use go_odp.Attrs.RoundTrip.{take_attrs-encode}
use go_odp.Dpif.{
  DatapathHandle, put_genl_msghdr, put_ovs_header, check_genl_msghdr, take_ovs_header, fallback_cmd,
  check_nl_msg_headers, check_datapath_headers,
}
use go_odp.Flow.Spec.{FlowSpec, parse_flow_spec}
use go_odp.Flow.Spec.RoundTrip.{
  IsFlow, read_spec, flow_attributes, flow_attributes-Fits, spec_to_nl_attrs-lem,
  parse_flow_spec-attributes,
}
use go_odp.Dpif.Exchange.{Socket, exchange, ovs_request}
use go_odp.Flow.Requests.{flow_request, create_flow, parse_flow_msg}

-- The three headers of a request, as bytes.
abbrev header : ℕ → ℕ → ℕ → ℕ → ℕ → ℕ → List ℕ
header len typ flags seq cmd ifindex =
    u32_bytes len
    ++ (u16_bytes typ
        ++ (u16_bytes flags
            ++ (u32_bytes seq ++ (0 ∷ 0 ∷ 0 ∷ 0 ∷ cmd ∷ 1 ∷ 0 ∷ 0 ∷ u32_bytes ifindex))))

abbrev blank_header : ℕ → ℕ → ℕ → ℕ → List ℕ
blank_header typ flags cmd ifindex =
    0
    ∷ 0
    ∷ 0
    ∷ 0
    ∷ (u16_bytes typ
        ++ (u16_bytes flags
            ++ (0 ∷ 0 ∷ 0 ∷ 0 ∷ 0 ∷ 0 ∷ 0 ∷ 0 ∷ cmd ∷ 1 ∷ 0 ∷ 0 ∷ u32_bytes ifindex)))

flow_request-lem :
    (dp : DatapathHandle)
    → flow_request dp 9 1 ≡ record { buf = blank_header (dp.dpif.families 2) 9 1 dp.ifindex }
unfolding flow_request ovs_request new_nl_msg_builder put_genl_msghdr put_ovs_header align_grow
    align
flow_request-lem dp = refl

finish-header :
    (typ flags cmd ifindex seq : ℕ) (rest : List ℕ)
    → finish (record { buf = blank_header typ flags cmd ifindex ++ rest }) seq ≡ (
      (
        header
              (length (blank_header typ flags cmd ifindex ++ rest))
              typ
              flags
              ((seq + 1) % 2 ^ 32)
              cmd
              ifindex
            ++ rest,
        (seq + 1) % 2 ^ 32,
      ),
      (seq + 1) % 2 ^ 32,
    )
unfolding finish
finish-header typ flags cmd ifindex seq rest = refl

check_datapath_headers-header :
    (dp : DatapathHandle) (len seq : ℕ) (rest tail : List ℕ)
    → dp.dpif.families 2 < 65536
    → dp.ifindex < 4294967296
    → check_datapath_headers dp 2 (some 1) (record {
      data_bytes = header len (dp.dpif.families 2) 9 seq 1 dp.ifindex ++ rest;
      tail = tail;
      pos = 0;
    })
      ≡ ok (record {
        data_bytes = header len (dp.dpif.families 2) 9 seq 1 dp.ifindex ++ rest;
        tail = tail;
        pos = 24;
      })
unfolding check_datapath_headers check_nl_msg_headers expect_nl_msghdr nl_msghdr nl_msghdr_at
    read_nl_msghdr check_genl_msghdr take_ovs_header align_advance advance check_available align
    read_u8 read_u32 int32_at fallback_cmd
check_datapath_headers-header dp len seq rest tail hf hi = ground arith

exchange-bytes :
    (sock : Socket) (msg : NlMsgBuilder) {bytes : List ℕ} {seq last : ℕ}
    → finish msg sock.last_seq ≡ ((bytes, seq), last)
    → (exchange sock (msg, none)).0 ≡ some bytes
exchange-bytes sock msg e = ap (λ (p : (List ℕ × ℕ) × ℕ). some (p.0.0)) e

-- A message as parseFlowMsg and parseFlowSpec read it.
abbrev pub parse_sent : DatapathHandle → List ℕ → List ℕ → Result FlowSpec
parse_sent dp bytes tail =
    parse_flow_msg dp 1 (record { data_bytes = bytes; tail = tail; pos = 0 }) >>= λ (attrs : Attrs).
    parse_flow_spec attrs

parse_sent-header :
    (dp : DatapathHandle) (f : FlowSpec) (len seq : ℕ) (tail : List ℕ)
    → dp.dpif.families 2 < 65536
    → dp.ifindex < 4294967296
    → IsFlow f
    → parse_sent dp
        (header len (dp.dpif.families 2) 9 seq 1 dp.ifindex ++ encode 24 (flow_attributes f))
        tail
      ≡ ok (read_spec f)
unfolding parse_flow_msg
parse_sent-header dp f len seq tail hf hi h =
    let pre = header len (dp.dpif.families 2) 9 seq 1 dp.ifindex in
    let (end, e) = take_attrs-encode (flow_attributes f) pre tail (flow_attributes-Fits f h) in
    rw (
      check_datapath_headers-header dp len seq (encode 24 (flow_attributes f)) tail hf hi,
      e,
      parse_flow_spec-attributes f h,
    )

-- Let the family's number be a uint16 and the ifindex have 32 bits. Let a flow's keys that are written
-- be of distinct types, each of a type whose parser makes such keys and with a mask, an in-port key
-- matched exactly and a tunnel key zero where its mask is; let it have no SetUnknownAction, and let its
-- keys, masks and actions fit their attributes. Then CreateFlow sends a message, and the message is
-- read back as a flow message of that datapath with the flow that was created: the keys that are not
-- ignored, an ethernet key if there was none, and the actions in their order, with the attributes of a
-- tunnel that are present.
pub create_flow-parse_sent :
    (dp : DatapathHandle) (f : FlowSpec) (sock : Socket) (tail : List ℕ)
    → dp.dpif.families 2 < 65536
    → dp.ifindex < 4294967296
    → IsFlow f
    → (bytes : List ℕ) × ((create_flow dp f sock).0 ≡ some bytes)
      × (parse_sent dp bytes tail ≡ ok (read_spec f))
unfolding create_flow
create_flow-parse_sent dp f sock tail hf hi h =
    let blank = blank_header (dp.dpif.families 2) 9 1 dp.ifindex in
    let rest = encode 24 (flow_attributes f) in
    let seq = (sock.last_seq + 1) % 2 ^ 32 in
    (
      header (length (blank ++ rest)) (dp.dpif.families 2) 9 seq 1 dp.ifindex ++ rest,
      rw (flow_request-lem dp, spec_to_nl_attrs-lem f h (record { buf = blank }))
          (exchange-bytes sock (record { buf = blank ++ rest })
            (finish-header (dp.dpif.families 2) 9 1 dp.ifindex sock.last_seq rest)),
      parse_sent-header dp f (length (blank ++ rest)) seq tail hf hi h,
    )
