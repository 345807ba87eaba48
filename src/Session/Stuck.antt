-- ===== src/Session/Stuck.antt =====
-- Receive on a datagram whose first message header states the length 0.
use go_odp.Prelude.{
  ℕ, ◌+◌, ◌-◌, ◌%◌, ◌≤◌, ◌≡◌, refl, List, [], ◌++◌, some, ok, length, take, drop, replicate,
  leb-false, ltb-false, arith,
}
use go_odp.Align.{align, align_four}
use go_odp.Parser.{NlMsgParser, NlMsghdr, nl_msghdr, next_nl_msg}

-- nextNlMsg takes such a header for a message, and stays where it is.
pub next_nl_msg-zero_len :
    (resp : NlMsgParser) (h : NlMsghdr)
    → nl_msghdr resp ≡ ok h
    → h.len ≡ 0
    → resp.pos % 4 ≡ 0
    → resp.pos + 16 ≤ length resp.data_bytes
    → next_nl_msg resp
      ≡ ok (
        some (record {
          data_bytes = take resp.pos resp.data_bytes;
          tail = drop resp.pos resp.data_bytes ++ resp.tail;
          pos = resp.pos;
        }),
        resp,
      )
unfolding next_nl_msg
next_nl_msg-zero_len resp h header empty words room =
    let avail = length resp.data_bytes - resp.pos in
    let still : resp.pos + h.len ≡ resp.pos = omega (arith, empty) in
    let aligned : align resp.pos 4 ≡ resp.pos = omega (arith, align_four resp.pos, words) in
    rw
      (
        leb-false (length resp.data_bytes) resp.pos (omega arith),
        ltb-false avail 16 (omega arith),
        header,
        ltb-false avail h.len (omega (arith, empty)),
        still,
        aligned,
      )
      refl

-- The message that the consumer is then called with: its parser stands behind the end of its bytes.
abbrev cut_at_start : List ℕ → ℕ → NlMsgParser
cut_at_start bytes spare = record { data_bytes = []; tail = bytes ++ replicate spare 0; pos = 0 }

-- What Recvfrom left in the buffer.
abbrev pub received_bytes : List ℕ → ℕ → NlMsgParser
received_bytes bytes spare = record { data_bytes = bytes; tail = replicate spare 0; pos = 0 }
