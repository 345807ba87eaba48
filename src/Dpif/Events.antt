-- ===== src/Dpif/Events.antt =====
-- odp/netlink.go: consume, over datagrams of messages that a handler takes.
use go_odp.Prelude.{
  ℕ, suc, ◌+◌, ◌%◌, ◌≡◌, ◌≢◌, refl, ap, ◌∙◌, List, [], ◌∷◌, ◌++◌, Bool, false, Option, none, some,
  Result, ok, err, Error, map, length, All, ==_false, arith,
}
use go_odp.Format.{zeros}
use go_odp.Parser.{NlMsgParser, check_header}
use go_odp.Session.{
  Received, datagram, waiting, receive, after_datagram, consume_message, consume_loop,
  stop_or_again, report, consume,
}
use go_odp.Session.Packets.{Message, IsMessage, packed, parser_at, pad_of, filled, filled-words}
use go_odp.Session.Messages.{deliver, receive-deliver}
use go_odp.Session.Responses.{nl_msghdr-parser_at}
use go_odp.Dpif.Messages.{OvsMessage, message_of}

-- The messages of one datagram: the first, the others, and the spare zeros behind them.
pub record Datagram : Type 0 where
  pub first : OvsMessage
  pub others : List OvsMessage
  pub spare : ℕ

abbrev messages : Datagram → List OvsMessage
messages d = d.first ∷ d.others

abbrev pub received_as : Datagram → Received
received_as d = datagram 0 (packed (map message_of (d.first ∷ d.others))) d.spare

abbrev pub result_of : Option Error → Result (Unit {0})
result_of none = ok tt
result_of (some e) = err e

check_header-message :
    (pre : List ℕ) (m : Message) (behind : List ℕ)
    → IsMessage m
    → m.typ ≢ 2
    → check_header (parser_at pre m behind) ≡ ok tt
unfolding check_header
check_header-message pre m behind h plain =
    rw (nl_msghdr-parser_at pre m behind h, ==_false m.typ 2 plain) refl

-- An error is reported as one that does not end the consumption.
abbrev pub reported : {S : Type 0} → (Error → Bool → S → S) → Option Error × S → S
reported on_error (none, s) = s
reported on_error (some e, s) = on_error e false s

module _ {S : Type 0} (on_error : Error → Bool → S → S)
    (step : OvsMessage → S → Option Error × S) where
  abbrev pub after_messages : List OvsMessage → S → S
  after_messages [] s = s
  after_messages (m ∷ ms) s = after_messages ms (reported on_error (step m s))

  abbrev pub after_datagrams : List Datagram → S → S
  after_datagrams [] s = s
  after_datagrams (d ∷ ds) s = after_datagrams ds (after_messages (d.first ∷ d.others) s)

module _ {S : Type 0} (on_error : Error → Bool → S → S)
    (handler : NlMsgParser → S → Result (Unit {0}) × S)
    (step : OvsMessage → S → Option Error × S) where
  -- The handler takes the message, wherever it stands, as a step of the state that may end in an error.
  pub record IsHandled (m : OvsMessage) : Type 0 where
    pub valid : IsMessage (message_of m)
    pub no_error : m.typ ≢ 2
    pub steps :
        (pre behind : List ℕ) (s : S)
        → length pre % 4 ≡ 0
        → handler (parser_at pre (message_of m) behind) s ≡ (result_of (step m s).0, (step m s).1)

  consume_message-step :
      (m : OvsMessage) (pre behind : List ℕ) (s : S)
      → IsHandled m
      → length pre % 4 ≡ 0
      → consume_message on_error handler (parser_at pre (message_of m) behind) s
        ≡ (ok false, reported on_error (step m s))
  unfolding consume_message
  consume_message-step m pre behind s h words =
      rw
        (
          check_header-message pre (message_of m) behind h.valid h.no_error,
          h.steps pre behind s words,
        )
        (report-step (step m s))
    where
      report-step :
          (r : Option Error × S)
          → report on_error handler (result_of r.0, r.1) ≡ (ok false, reported on_error r)
      report-step (none, t) = refl
      report-step (some e, t) = refl

  deliver-after :
      (pre : List ℕ) (ms : List OvsMessage) (tail : List ℕ) (s : S)
      → All IsHandled ms
      → length pre % 4 ≡ 0
      → deliver (consume_message on_error handler) pre (map message_of ms) tail s
        ≡ (ok false, after_messages on_error step ms s)
  unfolding deliver
  deliver-after pre [] tail s h words = refl
  deliver-after pre (m ∷ ms) tail s h words =
      rw
        (consume_message-step m pre ((pad_of (message_of m) ++ packed (map message_of ms)) ++ tail)
          s h.0 words)
        (deliver-after (filled pre (message_of m)) ms tail (reported on_error (step m s)) h.1
          (filled-words pre (message_of m) words))

  All-valid : (ms : List OvsMessage) → All IsHandled ms → All IsMessage (map message_of ms)
  All-valid [] h = tt
  All-valid (m ∷ ms) h = (h.0.valid, All-valid ms h.1)

  receive-after :
      (ds : List Datagram) (s : S)
      → All (λ d. All IsHandled (d.first ∷ d.others)) ds
      → receive (consume_message on_error handler) (map received_as ds) s
        ≡ waiting (after_datagrams on_error step ds s)
  unfolding receive
  receive-after [] s h = refl
  receive-after (d ∷ ds) s h =
      let go = consume_message on_error handler in
      let rest = map received_as ds in
      let now = after_messages on_error step (d.first ∷ d.others) s in
      receive-deliver go (message_of d.first) (map message_of d.others) d.spare rest s
        (All-valid (d.first ∷ d.others) h.0)
      ∙ ap (after_datagram go (λ t. receive go rest t) rest)
          (deliver-after [] (d.first ∷ d.others) (zeros d.spare) s h.0 refl)
      ∙ receive-after ds now h.1

  consume_loop-after :
      (fuel : ℕ) (ds : List Datagram) (s : S)
      → All (λ d. All IsHandled (d.first ∷ d.others)) ds
      → consume_loop on_error handler (suc fuel) (map received_as ds) s
        ≡ waiting (after_datagrams on_error step ds s)
  unfolding consume_loop
  consume_loop-after fuel ds s h =
      ap (stop_or_again on_error handler (λ rest t. consume_loop on_error handler fuel rest t))
        (receive-after ds s h)

  pub consume-after :
      (ds : List Datagram) (s : S)
      → All (λ d. All IsHandled (d.first ∷ d.others)) ds
      → consume on_error handler (map received_as ds) s
        ≡ waiting (after_datagrams on_error step ds s)
  unfolding consume
  consume-after ds s h =
      let n = length (map received_as ds) in
      let one_more : n + 1 ≡ suc n = omega arith in rw one_more (consume_loop-after n ds s h)
