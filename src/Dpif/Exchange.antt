-- ===== src/Dpif/Exchange.antt =====
-- The calls that odp/datapath.go, odp/vport.go, odp/flow.go and odp/packet.go have in common: a
-- request with its three headers, sent and answered.
use go_odp.Prelude.{
  ℕ, List, [], ◌∷◌, ◌++◌, Option, none, some, Result, ok, err, panic, wild, out_of_fuel, Error,
  ◌>>=◌,
}
use go_odp.Builder.{NlMsgBuilder, new_nl_msg_builder, finish}
use go_odp.Parser.{NlMsgParser}
use go_odp.Session.{Received, Outcome, returned, waiting, request, request_multi}
use go_odp.Dpif.{Dpif, put_genl_msghdr, put_ovs_header}

-- The socket that a call finds: its port, the last sequence number in use, the errno of Sendto, if
-- any, and what Recvfrom is going to return.
pub record Socket : Type 0 where
  pub port_id : ℕ
  pub last_seq : ℕ
  pub send_failed : Option ℕ
  pub received : List Received

-- NLM_F_REQUEST with NLM_F_ECHO, and with NLM_F_DUMP.
abbrev pub request_flags : ℕ
request_flags = 9

abbrev pub dump_flags : ℕ
dump_flags = 0x301

-- The headers with which a request of a family starts.
unfoldable pub ovs_request : Dpif → ℕ → ℕ → ℕ → ℕ → ℕ → NlMsgBuilder
unfolding new_nl_msg_builder put_genl_msghdr put_ovs_header
ovs_request dpif family flags cmd version ifindex =
    put_ovs_header ifindex
      (put_genl_msghdr cmd version (new_nl_msg_builder flags (dpif.families family)))

-- What was sent, if anything, and how the call ends.
abbrev pub Exchange : Type 0 → Type 0
Exchange S = Option (List ℕ) × Outcome S

abbrev pub exchange : Socket → NlMsgBuilder × Option Error → Exchange (Option NlMsgParser)
exchange sock (msg, some e) = (none, returned (err e) none sock.received)
exchange sock (msg, none) =
    let ((bytes, seq), last) = finish msg sock.last_seq in
    (some bytes, request sock.send_failed sock.port_id seq sock.received)

-- RequestMulti with a consumer that fills a variable of the caller.
abbrev pub dump :
    {S : Type 0}
    → Socket
    → NlMsgBuilder
    → (NlMsgParser → S → Result (Unit {0}) × S)
    → S
    → Exchange S
dump sock msg consumer start =
    let ((bytes, seq), last) = finish msg sock.last_seq in
    (some bytes, request_multi consumer sock.send_failed sock.port_id seq sock.received start)

-- The end of a consumer that appends to a list.
abbrev pub append_result : {A : Type 0} → List A → Result A → Result (Unit {0}) × List A
append_result res (ok a) = (ok tt, res ++ (a ∷ []))
append_result res (err e) = (err e, res)
append_result res panic = (panic, res)
append_result res wild = (wild, res)
append_result res out_of_fuel = (out_of_fuel, res)

-- A caller that reads the response: `parse` is given the message, and a nil response is dereferenced.
abbrev pub parse_response : {A : Type 0} → (NlMsgParser → Result A) → Option NlMsgParser → Result A
parse_response parse none = panic
parse_response parse (some resp) = parse resp

-- How a call ends that parses the response of its request.
pub data Answer (A : Type 0) : Type 0 where
  answered : Result A → List Received → Answer A
  no_answer : Answer A

abbrev pub answer :
    {A : Type 0} → (NlMsgParser → Result A) → Outcome (Option NlMsgParser) → Answer A
answer parse (returned r resp rest) = answered (r >>= λ done. parse_response parse resp) rest
answer parse (waiting resp) = no_answer

-- A request whose response is parsed.
abbrev pub ask :
    {A : Type 0} → Socket → NlMsgBuilder → (NlMsgParser → Result A) → Option (List ℕ) × Answer A
ask sock msg parse = let (sent, ended) = exchange sock (msg, none) in (sent, answer parse ended)
