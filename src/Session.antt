-- ===== src/Session.antt =====
-- odp/netlink.go: recv, Receive, Request, RequestMulti, processNlMsgDone and consume. What Recvfrom
-- returns is a list; a program that has used it up waits for more. A closure's variables are the
-- state `S`.
pub mod Packets
pub mod Messages
pub mod Responses
pub mod Stuck
pub mod Dumps
use go_odp.Prelude.{
  ℕ, zero, suc, ◌+◌, ◌==◌, List, [], ◌∷◌, Bool, true, false, Option, none, some, Result, ok, err,
  panic, wild, out_of_fuel, Error, message_missing, netlink_error, system_error, wrong_peer,
  not_netlink, ◌>>=◌, ◌>>◌, length, replicate, if◌then◌else◌,
}
use go_odp.Memory.{int32_at}
use go_odp.Parser.{
  NlMsgParser, next_nl_msg, nl_msghdr, check_header, check_response_header, check_data, advance,
  errno_of, nlmsg_done, sizeof_nl_msghdr,
}

-- One return of Recvfrom: a datagram with its sender's pid and the spare zeros that
-- MakeAlignedByteSlice leaves behind the copy, an address of another kind, or an errno.
pub data Received : Type 0 where
  datagram : (pid : ℕ) (bytes : List ℕ) (spare : ℕ) → Received
  other_address : Received
  recv_failed : (errno : ℕ) → Received

-- The error that ends a call or none, the state, and what is still to be received; or the wait.
pub data Outcome (S : Type 0) : Type 0 where
  returned : Result (Unit {0}) → S → List Received → Outcome S
  waiting : S → Outcome S

unfoldable pub recv : ℕ → Received → Result NlMsgParser
recv peer (recv_failed errno) = err (system_error errno)
recv peer other_address = err not_netlink
recv peer (datagram pid bytes spare) =
    if pid == peer
    then ok (record { data_bytes = bytes; tail = replicate spare 0; pos = 0 })
    else err (wrong_peer peer pid)

-- A response must hold a message.
abbrev present_message : Option NlMsgParser × NlMsgParser → Result (NlMsgParser × NlMsgParser)
present_message (none, resp) = err message_missing
present_message (some msg, resp) = ok (msg, resp)

unfoldable pub first_message : Received → Result (NlMsgParser × NlMsgParser)
unfolding recv next_nl_msg
first_message d = do resp ← recv 0 d; next ← next_nl_msg resp; present_message next

module _ {S : Type 0} (consumer : NlMsgParser → S → Result Bool × S) where
  -- What follows the consumer's verdict: the next message of the datagram, the end of the datagram,
  -- `ok false`, or the return from Receive.
  abbrev pub continue_with :
      Result Bool
      → Result (Option NlMsgParser × NlMsgParser)
      → (NlMsgParser → NlMsgParser → Result Bool × S)
      → S
      → Result Bool × S
  continue_with (ok false) (ok (some msg, resp)) again s = again resp msg
  continue_with (ok false) (ok (none, resp)) again s = (ok false, s)
  continue_with (ok false) (err e) again s = (err e, s)
  continue_with (ok false) panic again s = (panic, s)
  continue_with (ok false) wild again s = (wild, s)
  continue_with (ok false) out_of_fuel again s = (out_of_fuel, s)
  continue_with (ok true) next again s = (ok true, s)
  continue_with (err e) next again s = (err e, s)
  continue_with panic next again s = (panic, s)
  continue_with wild next again s = (wild, s)
  continue_with out_of_fuel next again s = (out_of_fuel, s)

  -- The inner loop of Receive. The fuel counts messages.
  unfoldable pub each_message : ℕ → NlMsgParser → NlMsgParser → S → Result Bool × S
  each_message zero resp msg s = (out_of_fuel, s)
  each_message (suc fuel) resp msg s =
      let (verdict, after) = consumer msg s in
      continue_with verdict (next_nl_msg resp) (λ r m. each_message fuel r m after) after

  abbrev pub after_datagram : (S → Outcome S) → List Received → Result Bool × S → Outcome S
  after_datagram again rest (ok true, s) = returned (ok tt) s rest
  after_datagram again rest (ok false, s) = again s
  after_datagram again rest (err e, s) = returned (err e) s rest
  after_datagram again rest (panic, s) = returned panic s rest
  after_datagram again rest (wild, s) = returned wild s rest
  after_datagram again rest (out_of_fuel, s) = returned out_of_fuel s rest

  abbrev pub run_datagram : Result (NlMsgParser × NlMsgParser) → S → Result Bool × S
  run_datagram (ok (msg, resp)) s = each_message (length resp.data_bytes + 1) resp msg s
  run_datagram (err e) s = (err e, s)
  run_datagram panic s = (panic, s)
  run_datagram wild s = (wild, s)
  run_datagram out_of_fuel s = (out_of_fuel, s)

  unfoldable pub receive : List Received → S → Outcome S
  unfolding each_message first_message
  receive [] s = waiting s
  receive (d ∷ rest) s =
      after_datagram (λ t. receive rest t) rest (run_datagram (first_message d) s)

-- The closure of Request. The state is the response that the call will return.
abbrev take_response :
    NlMsgParser → Option NlMsgParser → Result Bool → Result Bool × Option NlMsgParser
take_response msg resp (ok true) = (ok true, some msg)
take_response msg resp (ok false) = (ok true, resp)
take_response msg resp failure = (failure, resp)

unfoldable pub request_consumer :
    ℕ → ℕ → NlMsgParser → Option NlMsgParser → Result Bool × Option NlMsgParser
unfolding check_response_header
request_consumer port_id seq msg resp =
    take_response msg resp (check_response_header port_id seq msg)

-- `send_failed` is the errno of Sendto, and `seq` the number that Finish returned.
unfoldable pub request : Option ℕ → ℕ → ℕ → List Received → Outcome (Option NlMsgParser)
unfolding receive
request (some errno) port_id seq received = returned (err (system_error errno)) none received
request none port_id seq received = receive (request_consumer port_id seq) received none

unfoldable pub process_nl_msg_done : NlMsgParser → Result (Unit {0})
unfolding advance check_data int32_at errno_of
process_nl_msg_done msg = do
  moved ← advance sizeof_nl_msghdr msg
  check_data 4 moved
  errno ← int32_at moved.data_bytes moved.tail moved.pos
  if errno == 0 then ok tt else err (netlink_error (errno_of errno))

module _ {S : Type 0} (consumer : NlMsgParser → S → Result (Unit {0}) × S) where
  -- The closure's results: whether it is done, or its error.
  abbrev verdict_of : Bool → Result (Unit {0}) → Result Bool
  verdict_of done r = r >> ok done

  abbrev handle_message : NlMsgParser → S → Result Bool → Result Bool × S
  handle_message msg s (ok true) = let (r, after) = consumer msg s in (verdict_of false r, after)
  handle_message msg s failure = (failure, s)

  -- A message for the request: the last one ends it.
  abbrev handle_done : NlMsgParser → S → Result Bool → Result Bool × S
  handle_done msg s (ok true) = (verdict_of true (process_nl_msg_done msg), s)
  handle_done msg s (ok false) = handle_message msg s (ok true)
  handle_done msg s failure = (failure, s)

  abbrev is_done : NlMsgParser → Result Bool
  is_done msg = nl_msghdr msg >>= λ h. ok (h.typ == nlmsg_done)

  abbrev handle_relevant : NlMsgParser → S → Result Bool → Result Bool × S
  handle_relevant msg s (ok true) = handle_done msg s (is_done msg)
  handle_relevant msg s (ok false) = (ok false, s)
  handle_relevant msg s failure = (failure, s)

  unfoldable pub multi_consumer : ℕ → ℕ → NlMsgParser → S → Result Bool × S
  multi_consumer port_id seq msg s = handle_relevant msg s (check_response_header port_id seq msg)

  unfoldable pub request_multi : Option ℕ → ℕ → ℕ → List Received → S → Outcome S
  unfolding receive multi_consumer
  request_multi (some errno) port_id seq received s = returned (err (system_error errno)) s received
  request_multi none port_id seq received s = receive (multi_consumer port_id seq) received s

-- `on_error` is the method Error of a Consumer.
module _ {S : Type 0} (on_error : Error → Bool → S → S)
    (handler : NlMsgParser → S → Result (Unit {0}) × S) where
  -- An error is reported, and the loop goes on.
  abbrev pub report : Result (Unit {0}) × S → Result Bool × S
  report (ok u, s) = (ok false, s)
  report (err e, s) = (ok false, on_error e false s)
  report (panic, s) = (panic, s)
  report (wild, s) = (wild, s)
  report (out_of_fuel, s) = (out_of_fuel, s)

  abbrev handle_checked : NlMsgParser → S → Result (Unit {0}) → Result Bool × S
  handle_checked msg s (ok u) = report (handler msg s)
  handle_checked msg s failure = report (failure, s)

  unfoldable pub consume_message : NlMsgParser → S → Result Bool × S
  consume_message msg s = handle_checked msg s (check_header msg)

  abbrev pub stop_or_again : (List Received → S → Outcome S) → Outcome S → Outcome S
  stop_or_again again (waiting s) = waiting s
  stop_or_again again (returned (ok u) s rest) = again rest s
  stop_or_again again (returned (err e) s rest) = returned (ok tt) (on_error e true s) rest
  stop_or_again again (returned failure s rest) = returned failure s rest

  -- The fuel counts calls of Receive.
  unfoldable pub consume_loop : ℕ → List Received → S → Outcome S
  unfolding receive consume_message
  consume_loop zero received s = returned out_of_fuel s received
  consume_loop (suc fuel) received s =
      stop_or_again (λ rest t. consume_loop fuel rest t) (receive consume_message received s)

  unfoldable pub consume : List Received → S → Outcome S
  unfolding consume_loop
  consume received s = consume_loop (length received + 1) received s
