-- ===== src/Session/Responses.antt =====
-- Request: what it returns for the first message that arrives.
use go_odp.Prelude.{
  ℕ, ◌+◌, ◌-◌, ◌%◌, ◌^◌, ◌==◌, ◌<◌, ◌≡◌, ◌≢◌, refl, sym, ap, ◌∙◌, List, [], ◌∷◌, ◌++◌, append-nil,
  append_assoc, Bool, true, Option, none, some, Result, ok, err, length, length-append, arith, All,
  if◌then◌else◌, ==_false, ==_self, wrong_port_id, netlink_error,
}
use go_odp.Memory.{u16_bytes, u32_bytes, read_u32, int32_at}
use go_odp.Memory.Codec.{at-append}
use go_odp.Format.{zeros}
use go_odp.Parser.{
  NlMsgParser, nl_msghdr, nl_msgerr_error_at, errno_of, check_header, check_response_header,
}
use go_odp.Session.{Received, datagram, returned, request, request_consumer}
use go_odp.Session.Packets.{
  Message, IsMessage, message_bytes, pad_of, packed, parser_at, header_of, nl_msghdr-message,
}
use go_odp.Session.Messages.{deliver, receive-deliver}

pub nl_msghdr-parser_at :
    (pre : List ℕ) (m : Message) (behind : List ℕ)
    → IsMessage m
    → nl_msghdr (parser_at pre m behind) ≡ ok (header_of m)
nl_msghdr-parser_at pre m behind h =
    ap
      (λ (l : List ℕ).
        nl_msghdr (record { data_bytes = pre ++ l; tail = behind; pos = length pre }))
      (sym (append-nil (message_bytes m)))
    ∙ nl_msghdr-message pre m [] behind h

-- What checkResponseHeader says of a message that is not an error.
abbrev response_verdict : ℕ → ℕ → Message → Result Bool
response_verdict port_id seq m =
    if m.pid == port_id then ok (m.seq == seq) else err (wrong_port_id m.pid port_id)

pub check_response_header-message :
    (port_id seq : ℕ) (pre : List ℕ) (m : Message) (behind : List ℕ)
    → IsMessage m
    → m.typ ≢ 2
    → check_response_header port_id seq (parser_at pre m behind) ≡ response_verdict port_id seq m
unfolding check_response_header check_header
check_response_header-message port_id seq pre m behind h plain =
    rw (nl_msghdr-parser_at pre m behind h, ==_false m.typ 2 plain) (ground arith)

-- An error message: NLMSG_ERROR with the code -n in two's complement first in its body.
pub record IsErrorMessage (n : ℕ) (m : Message) : Type 0 where
  pub typ_error : m.typ ≡ 2
  pub rest : List ℕ
  pub body_code : m.body ≡ u32_bytes ((2 ^ 32 - n) % 2 ^ 32) ++ rest
  pub code_fits : n < 2 ^ 31

error_code :
    (n : ℕ) (pre : List ℕ) (m : Message) (behind : List ℕ)
    → IsErrorMessage n m
    → nl_msgerr_error_at (pre ++ message_bytes m) behind (length pre + 16)
      ≡ ok ((2 ^ 32 - n) % 2 ^ 32)
unfolding nl_msgerr_error_at int32_at read_u32
error_code n pre m behind h =
    let code = (2 ^ 32 - n) % 2 ^ 32 in
    let front =
      u32_bytes (16 + length m.body)
      ++ (u16_bytes m.typ ++ (u16_bytes m.flags ++ (u32_bytes m.seq ++ u32_bytes m.pid))) in
    let split : pre ++ message_bytes m ≡ (pre ++ front) ++ (u32_bytes code ++ h.rest) =
      ap (λ (l : List ℕ). pre ++ (front ++ l)) h.body_code
      ∙ sym (append_assoc pre front (u32_bytes code ++ h.rest)) in
    rw split (
      at-append read_u32 (pre ++ front) (u32_bytes code ++ h.rest) behind (length pre + 16)
        (omega (arith, length-append pre front)) (omega arith)
      ∙ ground arith)

errno_of-negated : (n : ℕ) → n < 2 ^ 31 → errno_of ((2 ^ 32 - n) % 2 ^ 32) ≡ n
unfolding errno_of
errno_of-negated n h = ground arith

pub check_response_header-error :
    (seq n : ℕ) (pre : List ℕ) (m : Message) (behind : List ℕ)
    → IsMessage m
    → IsErrorMessage n m
    → m.seq ≡ seq
    → 0 < n
    → check_response_header m.pid seq (parser_at pre m behind) ≡ err (netlink_error n)
unfolding check_response_header check_header
check_response_header-error seq n pre m behind h failure same positive =
    let code = (2 ^ 32 - n) % 2 ^ 32 in
    let small = failure.code_fits in
    let same_seq : (m.seq == seq) ≡ true = rw same (==_self seq) in
    let is_error : (m.typ == 2) ≡ true = rw failure.typ_error refl in
    rw (nl_msghdr-parser_at pre m behind h, error_code n pre m behind failure)
      (rw
        (
          ==_self m.pid,
          same_seq,
          is_error,
          ==_false code 0 (λ e. omega arith),
          errno_of-negated n small,
        )
        refl)

-- The state behind the closure of Request.
abbrev reply : ℕ → Message → NlMsgParser → Option NlMsgParser
reply seq m msg = if m.seq == seq then some msg else none

-- Where the first message that arrives is not of the type NLMSG_ERROR, Request ends with it: with an
-- error if the message is for another port; otherwise without an error, and then the response is that
-- message if it has the request's sequence number, and no response at all if it has another one.
pub request-first_message :
    (port_id seq : ℕ) (m : Message) (ms : List Message) (spare : ℕ) (rest : List Received)
    → All IsMessage (m ∷ ms)
    → m.typ ≢ 2
    → request none port_id seq (datagram 0 (packed (m ∷ ms)) spare ∷ rest) ≡ (
        if m.pid == port_id
        then returned
            (ok tt)
            (reply seq m (parser_at [] m ((pad_of m ++ packed ms) ++ zeros spare)))
            rest
        else returned (err (wrong_port_id m.pid port_id)) none rest)
unfolding request deliver request_consumer
request-first_message port_id seq m ms spare rest h plain =
    let behind = (pad_of m ++ packed ms) ++ zeros spare in
    receive-deliver (request_consumer port_id seq) m ms spare rest none h
    ∙ rw (check_response_header-message port_id seq [] m behind h.0 plain) (ground arith)

-- Where the kernel answers a request with the error message of errno n, Request returns the
-- NetlinkError n, and no response.
pub request-error :
    (seq n : ℕ) (m : Message) (ms : List Message) (spare : ℕ) (rest : List Received)
    → All IsMessage (m ∷ ms)
    → IsErrorMessage n m
    → m.seq ≡ seq
    → 0 < n
    → request none m.pid seq (datagram 0 (packed (m ∷ ms)) spare ∷ rest)
      ≡ returned (err (netlink_error n)) none rest
unfolding request deliver request_consumer
request-error seq n m ms spare rest h failure same positive =
    let behind = (pad_of m ++ packed ms) ++ zeros spare in
    receive-deliver (request_consumer m.pid seq) m ms spare rest none h
    ∙ rw (check_response_header-error seq n [] m behind h.0 failure same positive) refl
