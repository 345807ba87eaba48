-- ===== src/Session/Dumps.antt =====
-- RequestMulti over a dump: replies, and the message that ends them.
use go_odp.Prelude.{
  All-append, ℕ, ◌+◌, ◌≤◌, ◌≡◌, ◌≢◌, refl, sym, ap, ◌∙◌, List, [], ◌∷◌, ◌++◌, append_assoc, Bool,
  true, false, none, Result, ok, err, panic, wild, out_of_fuel, ◌>>◌, ◌==◌, length, length-append,
  arith, All, ==_self, ==_false, ltb-false, leb-true,
}
use go_odp.Memory.{u16_bytes, u32_bytes, read_u32, int32_at}
use go_odp.Memory.Codec.{at-append}
use go_odp.Format.{zeros}
use go_odp.Parser.{NlMsgParser, check_response_header, advance, check_available, check_data}
use go_odp.Session.{
  Received, datagram, Outcome, returned, receive, request_multi, multi_consumer,
  process_nl_msg_done, after_datagram,
}
use go_odp.Session.Packets.{Message, IsMessage, message_bytes, pad_of, packed, parser_at, filled}
use go_odp.Session.Messages.{deliver, deliver_next, receive-deliver}
use go_odp.Session.Responses.{nl_msghdr-parser_at, check_response_header-message}

-- A message that answers the request.
pub record IsReply (port_id seq : ℕ) (m : Message) : Type 0 where
  pub valid : IsMessage m
  pub same_port : m.pid ≡ port_id
  pub same_seq : m.seq ≡ seq
  pub no_error : m.typ ≢ 2

-- NLMSG_DONE with the code 0.
pub record IsDone (m : Message) : Type 0 where
  pub typ_done : m.typ ≡ 3
  pub rest : List ℕ
  pub body_code : m.body ≡ 0 ∷ 0 ∷ 0 ∷ 0 ∷ rest

reply-IsRelevant :
    (port_id seq : ℕ) (pre : List ℕ) (m : Message) (behind : List ℕ)
    → IsReply port_id seq m
    → check_response_header port_id seq (parser_at pre m behind) ≡ ok true
reply-IsRelevant port_id seq pre m behind h =
    check_response_header-message port_id seq pre m behind h.valid h.no_error
    ∙ rw (h.same_port, h.same_seq, ==_self port_id, ==_self seq) refl

done_bytes :
    (pre : List ℕ) (m : Message) (h : IsDone m)
    → (front : List ℕ) × (length front ≡ 16)
      × (pre ++ message_bytes m ≡ (pre ++ front) ++ (0 ∷ 0 ∷ 0 ∷ 0 ∷ h.rest))
done_bytes pre m h =
    let front =
      u32_bytes (16 + length m.body)
      ++ (u16_bytes m.typ ++ (u16_bytes m.flags ++ (u32_bytes m.seq ++ u32_bytes m.pid))) in
    (
      front,
      refl,
      ap (λ (l : List ℕ). pre ++ (front ++ l)) h.body_code
          ∙ sym (append_assoc pre front (0 ∷ 0 ∷ 0 ∷ 0 ∷ h.rest)),
    )

done_code :
    (pre : List ℕ) (m : Message) (behind : List ℕ)
    → IsDone m
    → int32_at (pre ++ message_bytes m) behind (length pre + 16) ≡ ok 0
unfolding int32_at read_u32
done_code pre m behind h =
    let (front, size, split) = done_bytes pre m h in
    rw split (
      at-append read_u32 (pre ++ front) (0 ∷ 0 ∷ 0 ∷ 0 ∷ h.rest) behind (length pre + 16)
        (omega (arith, size, length-append pre front)) (omega arith))

done_size :
    (pre : List ℕ) (m : Message) → IsDone m → length pre + 20 ≤ length (pre ++ message_bytes m)
done_size pre m h = omega (arith, length-append pre (message_bytes m), ap length h.body_code)

process_nl_msg_done-zero :
    (pre : List ℕ) (m : Message) (behind : List ℕ)
    → IsDone m
    → process_nl_msg_done (parser_at pre m behind) ≡ ok tt
unfolding process_nl_msg_done advance check_available check_data
process_nl_msg_done-zero pre m behind h =
    let size = done_size pre m h in
    rw
      (
        ltb-false (length (pre ++ message_bytes m)) (length pre + 16) (omega (arith, size)),
        leb-true (length pre + 16 + 4) (length (pre ++ message_bytes m)) (omega (arith, size)),
        done_code pre m behind h,
      )
      refl

module _ {S : Type 0} (consumer : NlMsgParser → S → Result (Unit {0}) × S) where
  pub multi_consumer-reply :
      (port_id seq : ℕ) (pre : List ℕ) (m : Message) (behind : List ℕ) (s : S)
      → IsReply port_id seq m
      → m.typ ≢ 3
      → multi_consumer consumer port_id seq (parser_at pre m behind) s ≡ (
        (consumer (parser_at pre m behind) s).0 >> ok false,
        (consumer (parser_at pre m behind) s).1,
      )
  unfolding multi_consumer
  multi_consumer-reply port_id seq pre m behind s h more =
      rw
        (
          reply-IsRelevant port_id seq pre m behind h,
          nl_msghdr-parser_at pre m behind h.valid,
          ==_false m.typ 3 more,
        )
        refl

  multi_consumer-done :
      (port_id seq : ℕ) (pre : List ℕ) (m : Message) (behind : List ℕ) (s : S)
      → IsReply port_id seq m
      → IsDone m
      → multi_consumer consumer port_id seq (parser_at pre m behind) s ≡ (ok true, s)
  unfolding multi_consumer
  multi_consumer-done port_id seq pre m behind s h done =
      let is_done : (m.typ == 3) ≡ true = rw done.typ_done refl in
      rw
        (
          reply-IsRelevant port_id seq pre m behind h,
          nl_msghdr-parser_at pre m behind h.valid,
          is_done,
          process_nl_msg_done-zero pre m behind done,
        )
        refl

  -- The reference: the consumer is called with each reply in its turn, until it fails.
  abbrev pub and_then : Result (Unit {0}) → (S → Result (Unit {0}) × S) → S → Result (Unit {0}) × S
  and_then (ok done) next s = next s
  and_then failure next s = (failure, s)

  unfoldable pub gather : List ℕ → List Message → Message → List ℕ → S → Result (Unit {0}) × S
  gather pre [] last tail s = (ok tt, s)
  gather pre (m ∷ ms) last tail s =
      let behind = (pad_of m ++ packed (ms ++ (last ∷ []))) ++ tail in
      let (r, after) = consumer (parser_at pre m behind) s in
      and_then r (λ t. gather (filled pre m) ms last tail t) after

  abbrev pub closing : Result (Unit {0}) × S → Result Bool × S
  closing (r, s) = (r >> ok true, s)

  deliver_next-and_then :
      (r : Result (Unit {0})) (next : S → Result Bool × S) (step : S → Result (Unit {0}) × S)
      (s : S)
      → ((t : S) → next t ≡ closing (step t))
      → deliver_next (λ m t. (ok true, t)) (r >> ok false) next s ≡ closing (and_then r step s)
  deliver_next-and_then (ok done) next step s h = h s
  deliver_next-and_then (err e) next step s h = refl
  deliver_next-and_then panic next step s h = refl
  deliver_next-and_then wild next step s h = refl
  deliver_next-and_then out_of_fuel next step s h = refl

  deliver-gather :
      (port_id seq : ℕ) (pre : List ℕ) (ms : List Message) (last : Message) (tail : List ℕ) (s : S)
      → All (IsReply port_id seq) ms
      → All (λ m. m.typ ≢ 3) ms
      → IsReply port_id seq last
      → IsDone last
      → deliver (multi_consumer consumer port_id seq) pre (ms ++ (last ∷ [])) tail s
        ≡ closing (gather pre ms last tail s)
  unfolding deliver gather
  deliver-gather port_id seq pre [] last tail s replies more h done =
      rw (multi_consumer-done port_id seq pre last ((pad_of last ++ []) ++ tail) s h done) refl
  deliver-gather port_id seq pre (m ∷ ms) last tail s replies more h done =
      let behind = (pad_of m ++ packed (ms ++ (last ∷ []))) ++ tail in
      let called = consumer (parser_at pre m behind) s in
      rw (multi_consumer-reply port_id seq pre m behind s replies.0 more.0) (
        deliver_next-and_then called.0
          (λ t.
            deliver (multi_consumer consumer port_id seq) (filled pre m) (ms ++ (last ∷ [])) tail t)
          (λ t. gather (filled pre m) ms last tail t) called.1
          (λ t. deliver-gather port_id seq (filled pre m) ms last tail t replies.1 more.1 h done))

  -- How RequestMulti ends, by what the calls of the consumer came to.
  abbrev pub outcome : List Received → Result (Unit {0}) × S → Outcome S
  outcome rest (r, s) = returned r s rest

  after_datagram-closing :
      (again : S → Outcome S) (rest : List Received) (g : Result (Unit {0}) × S)
      → after_datagram (multi_consumer consumer 0 0) again rest (closing g) ≡ outcome rest g
  after_datagram-closing again rest (ok done, s) = refl
  after_datagram-closing again rest (err e, s) = refl
  after_datagram-closing again rest (panic, s) = refl
  after_datagram-closing again rest (wild, s) = refl
  after_datagram-closing again rest (out_of_fuel, s) = refl

pub All-valid :
    (port_id seq : ℕ) (ms : List Message) → All (IsReply port_id seq) ms → All IsMessage ms
All-valid port_id seq [] h = tt
All-valid port_id seq (m ∷ ms) h = (h.0.valid, All-valid port_id seq ms h.1)

-- The datagram that ends the dump, with any number of replies before the end.
pub receive-gather :
    {S : Type 0} (consumer : NlMsgParser → S → Result (Unit {0}) × S) (port_id seq : ℕ)
    (ms : List Message) (last : Message) (spare : ℕ) (rest : List Received) (s : S)
    → All (IsReply port_id seq) ms
    → All (λ k. k.typ ≢ 3) ms
    → IsReply port_id seq last
    → IsDone last
    → receive
        (multi_consumer consumer port_id seq)
        (datagram 0 (packed (ms ++ (last ∷ []))) spare ∷ rest)
        s
      ≡ outcome consumer rest (gather consumer [] ms last (zeros spare) s)
receive-gather consumer port_id seq [] last spare rest s replies more h done =
    let multi = multi_consumer consumer port_id seq in
    receive-deliver multi last [] spare rest s (h.valid, tt)
    ∙ rw (deliver-gather consumer port_id seq [] [] last (zeros spare) s replies more h done) (
        after_datagram-closing consumer (λ t. receive multi rest t) rest
          (gather consumer [] [] last (zeros spare) s))
receive-gather consumer port_id seq (m ∷ ms) last spare rest s replies more h done =
    let multi = multi_consumer consumer port_id seq in
    receive-deliver multi m (ms ++ (last ∷ [])) spare rest s (
      replies.0.valid,
      All-append IsMessage ms (last ∷ []) (All-valid port_id seq ms replies.1) (h.valid, tt),
    )
    ∙ rw (deliver-gather consumer port_id seq [] (m ∷ ms) last (zeros spare) s replies more h done)
        (after_datagram-closing consumer (λ t. receive multi rest t) rest
          (gather consumer [] (m ∷ ms) last (zeros spare) s))

-- On a datagram with replies to its request and then the end of the dump with the code 0, RequestMulti
-- calls the consumer with each reply in order, until one call fails, and returns without an error, or
-- with that of the failed call.
pub request_multi-gather :
    {S : Type 0} (consumer : NlMsgParser → S → Result (Unit {0}) × S) (port_id seq : ℕ)
    (m : Message) (ms : List Message) (last : Message) (spare : ℕ) (rest : List Received) (s : S)
    → All (IsReply port_id seq) (m ∷ ms)
    → All (λ k. k.typ ≢ 3) (m ∷ ms)
    → IsReply port_id seq last
    → IsDone last
    → request_multi consumer none port_id seq
        (datagram 0 (packed (m ∷ (ms ++ (last ∷ [])))) spare ∷ rest)
        s
      ≡ outcome consumer rest (gather consumer [] (m ∷ ms) last (zeros spare) s)
unfolding request_multi
request_multi-gather consumer port_id seq m ms last spare rest s replies more h done =
    receive-gather consumer port_id seq (m ∷ ms) last spare rest s replies more h done
