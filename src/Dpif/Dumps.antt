-- ===== src/Dpif/Dumps.antt =====
-- A dump whose consumer takes every reply.
use go_odp.Prelude.{
  false, ℕ, ◌%◌, ◌≡◌, ◌≢◌, refl, sym, ap, ◌∙◌, List, [], ◌∷◌, ◌++◌, append_assoc, append-nil, map,
  none, Result, ok, length, All,
}
use go_odp.Format.{zeros}
use go_odp.Builder.{NlMsgBuilder, finish}
use go_odp.Parser.{NlMsgParser}
use go_odp.Session.{Received, datagram, returned, receive, request_multi, multi_consumer}
use go_odp.Session.Messages.{deliver, receive-deliver}
use go_odp.Session.Packets.{Message, packed, parser_at, pad_of, filled}
use go_odp.Session.Packets.{filled-words}
use go_odp.Session.Dumps.{
  IsReply, IsDone, gather, outcome, multi_consumer-reply, receive-gather, All-valid,
}
use go_odp.Dpif.Exchange.{Socket, dump}
use go_odp.Dpif.Messages.{OvsMessage, message_of}
use go_odp.Dpif.Asks.{sent_seq}
use go_odp.Dpif.Events.{Datagram, received_as}

-- The messages of datagrams, in their order.
abbrev pub all_messages : List Datagram → List OvsMessage → List OvsMessage
all_messages [] ms = ms
all_messages (d ∷ ds) ms = d.first ∷ (d.others ++ all_messages ds ms)

-- The socket gets the replies in any number of datagrams, and the end of the dump in one that may have
-- replies before it.
pub record GetsDump (sock : Socket) (ds : List Datagram) (ms : List OvsMessage) (last : Message)
    (spare : ℕ) (rest : List Received) : Type 0 where
  pub sent : sock.send_failed ≡ none
  pub arrives :
      sock.received
      ≡ map received_as ds ++ (datagram 0 (packed (map message_of ms ++ (last ∷ []))) spare ∷ rest)
  pub replies : All (IsReply sock.port_id (sent_seq sock)) (map message_of (all_messages ds ms))
  pub no_end : All (λ k. k.typ ≢ 3) (map message_of (all_messages ds ms))
  pub last_reply : IsReply sock.port_id (sent_seq sock) last
  pub done : IsDone last

-- A state into which the messages go one after the other.
abbrev pub add_all : {S : Type 0} → (OvsMessage → S → S) → List OvsMessage → S → S
add_all add [] s = s
add_all add (m ∷ ms) s = add_all add ms (add m s)

split_each : {A : Type 0} (P : A → Type 0) (xs ys : List A) → All P (xs ++ ys) → All P xs × All P ys
split_each P [] ys h = (tt, h)
split_each P (x ∷ xs) ys h = let (front, back) = split_each P xs ys h.1 in ((h.0, front), back)

split_mapped :
    {A B : Type 0} (P : B → Type 0) (f : A → B) (xs ys : List A)
    → All P (map f (xs ++ ys))
    → All P (map f xs) × All P (map f ys)
split_mapped P f [] ys h = (tt, h)
split_mapped P f (x ∷ xs) ys h =
    let (front, back) = split_mapped P f xs ys h.1 in ((h.0, front), back)

module _ {S : Type 0} (consumer : NlMsgParser → S → Result (Unit {0}) × S)
    (add : OvsMessage → S → S) where
  -- The consumer takes the message, wherever it stands, into its state.
  abbrev pub Takes : OvsMessage → Type 0
  Takes m =
      (pre behind : List ℕ) (s : S)
      → length pre % 4 ≡ 0
      → consumer (parser_at pre (message_of m) behind) s ≡ (ok tt, add m s)

  gather-add_all :
      (pre : List ℕ) (ms : List OvsMessage) (last : Message) (tail : List ℕ) (s : S)
      → length pre % 4 ≡ 0
      → All Takes ms
      → gather consumer pre (map message_of ms) last tail s ≡ (ok tt, add_all add ms s)
  unfolding gather
  gather-add_all pre [] last tail s words h = refl
  gather-add_all pre (m ∷ ms) last tail s words h =
      let behind = (pad_of (message_of m) ++ packed (map message_of ms ++ (last ∷ []))) ++ tail in
      rw (h.0 pre behind s words) (
        gather-add_all (filled pre (message_of m)) ms last tail (add m s)
          (filled-words pre (message_of m) words) h.1)

  add_all-append :
      (ms ns : List OvsMessage) (s : S)
      → add_all add (ms ++ ns) s ≡ add_all add ns (add_all add ms s)
  add_all-append [] ns s = refl
  add_all-append (m ∷ ms) ns s = add_all-append ms ns (add m s)

  -- A datagram of replies without the end of the dump.
  deliver-add_all :
      (port_id seq : ℕ) (pre : List ℕ) (ms : List OvsMessage) (tail : List ℕ) (s : S)
      → length pre % 4 ≡ 0
      → All (IsReply port_id seq) (map message_of ms)
      → All (λ k. k.typ ≢ 3) (map message_of ms)
      → All Takes ms
      → deliver (multi_consumer consumer port_id seq) pre (map message_of ms) tail s
        ≡ (ok false, add_all add ms s)
  unfolding deliver
  deliver-add_all port_id seq pre [] tail s words replies more h = refl
  deliver-add_all port_id seq pre (m ∷ ms) tail s words replies more h =
      let behind = (pad_of (message_of m) ++ packed (map message_of ms)) ++ tail in
      rw
        (
          multi_consumer-reply consumer port_id seq pre (message_of m) behind s replies.0 more.0,
          h.0 pre behind s words,
        )
        (deliver-add_all port_id seq (filled pre (message_of m)) ms tail (add m s)
          (filled-words pre (message_of m) words) replies.1 more.1 h.1)

  last_datagram-add_all :
      (port_id seq : ℕ) (ms : List OvsMessage) (last : Message) (spare : ℕ) (rest : List Received)
      (s : S)
      → All (IsReply port_id seq) (map message_of ms)
      → All (λ k. k.typ ≢ 3) (map message_of ms)
      → IsReply port_id seq last
      → IsDone last
      → All Takes ms
      → receive
          (multi_consumer consumer port_id seq)
          (datagram 0 (packed (map message_of ms ++ (last ∷ []))) spare ∷ rest)
          s
        ≡ returned (ok tt) (add_all add ms s) rest
  last_datagram-add_all port_id seq ms last spare rest s replies more last_reply done h =
      receive-gather consumer port_id seq (map message_of ms) last spare rest s replies more
        last_reply done
      ∙ ap (outcome consumer rest) (gather-add_all [] ms last (zeros spare) s refl h)

  receive-add_all :
      (port_id seq : ℕ) (ds : List Datagram) (ms : List OvsMessage) (last : Message) (spare : ℕ)
      (rest : List Received) (s : S)
      → All (IsReply port_id seq) (map message_of (all_messages ds ms))
      → All (λ k. k.typ ≢ 3) (map message_of (all_messages ds ms))
      → IsReply port_id seq last
      → IsDone last
      → All Takes (all_messages ds ms)
      → receive
          (multi_consumer consumer port_id seq)
          (map received_as ds
            ++ (datagram 0 (packed (map message_of ms ++ (last ∷ []))) spare ∷ rest))
          s
        ≡ returned (ok tt) (add_all add (all_messages ds ms) s) rest
  receive-add_all port_id seq [] ms last spare rest s replies more last_reply done h =
      last_datagram-add_all port_id seq ms last spare rest s replies more last_reply done h
  receive-add_all port_id seq (d ∷ ds) ms last spare rest s replies more last_reply done h =
      let multi = multi_consumer consumer port_id seq in
      let behind =
        map received_as ds
        ++ (datagram 0 (packed (map message_of ms ++ (last ∷ []))) spare ∷ rest) in
      let here = d.first ∷ d.others in
      let (these, others) =
        split_mapped (IsReply port_id seq) message_of here (all_messages ds ms) replies in
      let (going, going_on) =
        split_mapped (λ k. k.typ ≢ 3) message_of here (all_messages ds ms) more in
      let (taken, takes) = split_each Takes here (all_messages ds ms) h in
      receive-deliver multi (message_of d.first) (map message_of d.others) d.spare behind s
        (All-valid port_id seq (map message_of here) these)
      ∙ rw (deliver-add_all port_id seq [] here (zeros d.spare) s refl these going taken) (
          receive-add_all port_id seq ds ms last spare rest (add_all add here s) others going_on
            last_reply done takes
          ∙ ap (λ (t : S). returned (ok tt) t rest)
              (sym (add_all-append here (all_messages ds ms) s)))

  pub dump-add_all :
      (sock : Socket) (msg : NlMsgBuilder) (ds : List Datagram) (ms : List OvsMessage)
      (last : Message) (spare : ℕ) (rest : List Received) (start : S)
      → GetsDump sock ds ms last spare rest
      → All Takes (all_messages ds ms)
      → (dump sock msg consumer start).1
        ≡ returned (ok tt) (add_all add (all_messages ds ms) start) rest
  unfolding finish request_multi
  dump-add_all sock msg ds ms last spare rest start h reads =
      rw (h.sent, h.arrives)
        (receive-add_all sock.port_id (sent_seq sock) ds ms last spare rest start h.replies h.no_end
          h.last_reply h.done reads)

-- A consumer that appends a value for each message.
module _ {A : Type 0} (value : OvsMessage → A) where
  abbrev pub append_value : OvsMessage → List A → List A
  append_value m res = res ++ (value m ∷ [])

  pub add_all-append_value :
      (ms : List OvsMessage) (res : List A) → add_all append_value ms res ≡ res ++ map value ms
  add_all-append_value [] res = sym (append-nil res)
  add_all-append_value (m ∷ ms) res =
      add_all-append_value ms (res ++ (value m ∷ []))
      ∙ append_assoc res (value m ∷ []) (map value ms)
