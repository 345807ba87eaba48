-- ===== src/Session/Messages.antt =====
-- Receive over datagrams that hold whole messages.
use go_odp.Prelude.{
  ℕ, zero, suc, ◌+◌, ◌%◌, ◌≤◌, ◌<◌, ◌≡◌, refl, ap, List, [], ◌∷◌, ◌++◌, Bool, true, false, Option,
  Result, ok, err, panic, wild, out_of_fuel, length, length-append, arith, All,
}
use go_odp.Format.{zeros}
use go_odp.Parser.{NlMsgParser, next_nl_msg}
use go_odp.Session.{
  Received, datagram, recv, first_message, each_message, continue_with, after_datagram, receive,
}
use go_odp.Session.Packets.{
  Message, IsMessage, message_bytes, pad_of, packed, parser_at, filled, resp_at, filled-words,
  next_nl_msg-message, next_nl_msg-end,
}

module _ {S : Type 0} (consumer : NlMsgParser → S → Result Bool × S) where
  -- The reference: the consumer is called with each message in its turn, until it is done or fails.
  abbrev pub deliver_next : Result Bool → (S → Result Bool × S) → S → Result Bool × S
  deliver_next (ok false) next s = next s
  deliver_next verdict next s = (verdict, s)

  unfoldable pub deliver : List ℕ → List Message → List ℕ → S → Result Bool × S
  deliver pre [] tail s = (ok false, s)
  deliver pre (m ∷ ms) tail s =
      let (verdict, after) = consumer (parser_at pre m ((pad_of m ++ packed ms) ++ tail)) s in
      deliver_next verdict (λ t. deliver (filled pre m) ms tail t) after

  continue_with-deliver_next :
      (verdict : Result Bool) (next : Result (Option NlMsgParser × NlMsgParser))
      (again : NlMsgParser → NlMsgParser → Result Bool × S) (k : S → Result Bool × S) (s : S)
      → continue_with consumer (ok false) next again s ≡ k s
      → continue_with consumer verdict next again s ≡ deliver_next verdict k s
  continue_with-deliver_next (ok false) next again k s e = e
  continue_with-deliver_next (ok true) next again k s e = refl
  continue_with-deliver_next (err x) next again k s e = refl
  continue_with-deliver_next panic next again k s e = refl
  continue_with-deliver_next wild next again k s e = refl
  continue_with-deliver_next out_of_fuel next again k s e = refl

  each_message-deliver :
      (fuel : ℕ) (pre : List ℕ) (m : Message) (ms : List Message) (tail : List ℕ) (s : S)
      → length ms < fuel
      → All IsMessage ms
      → length (filled pre m) % 4 ≡ 0
      → each_message consumer fuel
          (resp_at (filled pre m) (packed ms) tail)
          (parser_at pre m ((pad_of m ++ packed ms) ++ tail))
          s
        ≡ deliver pre (m ∷ ms) tail s
  unfolding each_message deliver
  each_message-deliver zero pre m ms tail s enough h words = absurd (omega arith)
  each_message-deliver (suc fuel) pre m [] tail s enough h words =
      let called = consumer (parser_at pre m ((pad_of m ++ []) ++ tail)) s in
      continue_with-deliver_next called.0 (next_nl_msg (resp_at (filled pre m) [] tail))
        (λ r n. each_message consumer fuel r n called.1) (λ t. (ok false, t)) called.1
        (rw (next_nl_msg-end (filled pre m) tail) refl)
  each_message-deliver (suc fuel) pre m (n ∷ ms) tail s enough h words =
      let called = consumer (parser_at pre m ((pad_of m ++ packed (n ∷ ms)) ++ tail)) s in
      continue_with-deliver_next called.0
        (next_nl_msg (resp_at (filled pre m) (packed (n ∷ ms)) tail))
        (λ r k. each_message consumer fuel r k called.1)
        (λ t. deliver (filled pre m) (n ∷ ms) tail t) called.1
        (rw (next_nl_msg-message (filled pre m) n (packed ms) tail h.0 words) (
          each_message-deliver fuel (filled pre m) n ms tail called.1 (omega arith) h.1
            (filled-words (filled pre m) n words)))

length-packed : (ms : List Message) → length ms ≤ length (packed ms)
length-packed [] = omega arith
length-packed (m ∷ ms) = omega (
  arith,
  length-packed ms,
  length-append (message_bytes m) (pad_of m ++ packed ms),
  length-append (pad_of m) (packed ms),
)

pub first_message-packed :
    (m : Message) (ms : List Message) (spare : ℕ)
    → IsMessage m
    → first_message (datagram 0 (packed (m ∷ ms)) spare)
      ≡ ok (
        parser_at [] m ((pad_of m ++ packed ms) ++ zeros spare),
        resp_at (filled [] m) (packed ms) (zeros spare),
      )
unfolding first_message recv
first_message-packed m ms spare h =
    rw (next_nl_msg-message [] m (packed ms) (zeros spare) h (omega arith)) refl

pub receive-deliver :
    {S : Type 0} (consumer : NlMsgParser → S → Result Bool × S) (m : Message) (ms : List Message)
    (spare : ℕ) (rest : List Received) (s : S)
    → All IsMessage (m ∷ ms)
    → receive consumer (datagram 0 (packed (m ∷ ms)) spare ∷ rest) s
      ≡ after_datagram consumer
          (λ t. receive consumer rest t)
          rest
          (deliver consumer [] (m ∷ ms) (zeros spare) s)
unfolding receive
receive-deliver consumer m ms spare rest s h =
    let whole = filled [] m ++ packed ms in
    rw (first_message-packed m ms spare h.0) (
      ap (after_datagram consumer (λ t. receive consumer rest t) rest) (
        each_message-deliver consumer (length whole + 1) [] m ms (zeros spare) s
          (omega (arith, length-packed ms, length-append (filled [] m) (packed ms))) h.1
          (filled-words [] m (omega arith))))
