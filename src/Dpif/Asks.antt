-- ===== src/Dpif/Asks.antt =====
-- A request that is answered by the first message that arrives.
use go_odp.Prelude.{
  ℕ, ◌+◌, ◌%◌, ◌^◌, ◌<◌, ◌≡◌, ◌≢◌, refl, ◌∙◌, List, [], ◌∷◌, ◌++◌, none, Result, err, All, ==_self,
  netlink_error,
}
use go_odp.Format.{zeros}
use go_odp.Builder.{NlMsgBuilder, finish}
use go_odp.Parser.{NlMsgParser}
use go_odp.Session.{Received, datagram, request}
use go_odp.Session.Packets.{Message, IsMessage, packed, parser_at, pad_of}
use go_odp.Session.Responses.{IsErrorMessage, request-first_message, request-error}
use go_odp.Dpif.Exchange.{Socket, answered, answer, ask}

abbrev pub sent_seq : Socket → ℕ
sent_seq sock = (sock.last_seq + 1) % 2 ^ 32

-- The socket gets this message first, in a datagram with `ms` behind it.
pub record Gets (sock : Socket) (m : Message) (ms : List Message) (spare : ℕ) (rest : List Received)
    : Type 0 where
  pub sent : sock.send_failed ≡ none
  pub arrives : sock.received ≡ datagram 0 (packed (m ∷ ms)) spare ∷ rest
  pub valid : All IsMessage (m ∷ ms)
  pub own_port : m.pid ≡ sock.port_id
  pub own_seq : m.seq ≡ sent_seq sock

-- What lies behind the message in its datagram.
abbrev pub datagram_rest : Message → List Message → ℕ → List ℕ
datagram_rest m ms spare = (pad_of m ++ packed ms) ++ zeros spare

ask-returned :
    {A : Type 0} (sock : Socket) (msg : NlMsgBuilder) (parse : NlMsgParser → Result A)
    → (ask sock msg parse).1
      ≡ answer parse (request sock.send_failed sock.port_id (sent_seq sock) sock.received)
unfolding finish
ask-returned sock msg parse = refl

-- A reply is parsed as it stands in its datagram.
pub ask-reply :
    {A : Type 0} (sock : Socket) (msg : NlMsgBuilder) (parse : NlMsgParser → Result A) (m : Message)
    (ms : List Message) (spare : ℕ) (rest : List Received)
    → Gets sock m ms spare rest
    → m.typ ≢ 2
    → (ask sock msg parse).1 ≡ answered (parse (parser_at [] m (datagram_rest m ms spare))) rest
ask-reply sock msg parse m ms spare rest h plain =
    ask-returned sock msg parse
    ∙ rw (h.sent, h.arrives)
        (rw (request-first_message sock.port_id (sent_seq sock) m ms spare rest h.valid plain)
          (rw (h.own_port, h.own_seq, ==_self sock.port_id, ==_self (sent_seq sock)) refl))

-- The kernel's error n is the caller's.
pub ask-error :
    {A : Type 0} (sock : Socket) (msg : NlMsgBuilder) (parse : NlMsgParser → Result A) (m : Message)
    (ms : List Message) (spare : ℕ) (rest : List Received) (n : ℕ)
    → Gets sock m ms spare rest
    → IsErrorMessage n m
    → 0 < n
    → (ask sock msg parse).1 ≡ answered (err (netlink_error n)) rest
ask-error sock msg parse m ms spare rest n h failure positive =
    ask-returned sock msg parse
    ∙ rw (h.sent, h.arrives, ← h.own_port)
        (rw (request-error (sent_seq sock) n m ms spare rest h.valid failure h.own_seq positive)
          refl)
