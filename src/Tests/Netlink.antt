-- ===== src/Tests/Netlink.antt =====
-- The theorems about the netlink layer at concrete messages and attributes.
use go_odp.Prelude.{
  Error, ℕ, zero, suc, ◌+◌, ◌≡◌, ◌≢◌, refl, List, [], ◌∷◌, ◌++◌, Bool, true, false, none, Result,
  ok, err, panic, wild, out_of_fuel, arith, netlink_error, replicate, All,
}
use go_odp.Align.{align}
use go_odp.Memory.{nl_attr_at, read_nl_attr}
use go_odp.Format.{Attr, Fits, encode, nested}
use go_odp.Parser.{NlMsgParser, NlMsghdr, parse_attrs}
use go_odp.Parser.RoundTrip.{parse_attrs-encode}
use go_odp.Parser.Safety.{returned_at, parse_attrs-Ends, parse_attrs-short_attr}
use go_odp.Attrs.{Attrs}
use go_odp.Session.{datagram, returned, request, Received}
use go_odp.Session.Packets.{Message, IsMessage, packed}
use go_odp.Session.Responses.{IsErrorMessage, request-first_message, request-error}

-- Two attributes, the first with a value that is padded.
abbrev attributes : List Attr
attributes = record { typ = 1; val = 65 ∷ [] } ∷ record { typ = 2; val = 7 ∷ 0 ∷ 0 ∷ 0 ∷ [] } ∷ []

attributes-Fits : All Fits attributes
attributes-Fits = (
  record { len_fits = omega arith; typ_fits = omega arith },
  (record { len_fits = omega arith; typ_fits = omega arith }, tt),
)

abbrev header : List ℕ
header = 9 ∷ 9 ∷ 9 ∷ 9 ∷ []

abbrev parser : List ℕ → NlMsgParser
parser bytes = record { data_bytes = bytes; tail = []; pos = 0 }

abbrev count : ℕ → List ℕ → ℕ → ℕ
count typ val n = n + 1

parse_attrs-encode_example :
    (end : ℕ) × (parse_attrs count
        (record { data_bytes = header ++ (encode 4 attributes ++ []); tail = []; pos = 4 })
        0
      ≡ ok (2, record { data_bytes = header ++ (encode 4 attributes ++ []); tail = []; pos = end }))
unfolding encode align
parse_attrs-encode_example =
    parse_attrs-encode count attributes header [] [] 0 attributes-Fits (omega arith)

-- The second attribute states more bytes than the message has.
abbrev cut_short : NlMsgParser
cut_short = parser (5 ∷ 0 ∷ 1 ∷ 0 ∷ 5 ∷ 0 ∷ 0 ∷ 0 ∷ 8 ∷ 0 ∷ 2 ∷ 0 ∷ 7 ∷ [])

parse_attrs-Ends_example :
    (parse_attrs count cut_short 0 ≢ out_of_fuel)
    × (parse_attrs count cut_short 0 ≢ wild)
    × (returned_at count (parse_attrs count cut_short 0)
        ≡ returned_at count (parse_attrs count (record cut_short { tail = 1 ∷ 2 ∷ 3 ∷ 4 ∷ [] }) 0))
parse_attrs-Ends_example = parse_attrs-Ends count cut_short (1 ∷ 2 ∷ 3 ∷ 4 ∷ []) 0

-- An attribute that states the length 2.
parse_attrs-short_attr_example : parse_attrs count (parser (2 ∷ 0 ∷ 1 ∷ 0 ∷ [])) 0 ≡ panic
unfolding align nl_attr_at read_nl_attr
parse_attrs-short_attr_example =
    parse_attrs-short_attr count (parser (2 ∷ 0 ∷ 1 ∷ 0 ∷ [])) 0 (record { len = 2; typ = 1 })
      (omega arith) refl (omega arith)

abbrev outer : Attrs
outer = (2, nested attributes) ∷ []

-- A reply with the sequence number 1, one with 2, and the error ENOENT.
abbrev first_reply : Message
first_reply = record { typ = 26; flags = 0; seq = 1; pid = 4711; body = 1 ∷ 1 ∷ 0 ∷ 0 ∷ 6 ∷ [] }

abbrev second_reply : Message
second_reply = record first_reply { seq = 2 }

abbrev no_entry : Message
no_entry = record { typ = 2; flags = 0; seq = 1; pid = 4711; body = 254 ∷ 255 ∷ 255 ∷ 255 ∷ [] }

first_reply-IsMessage : IsMessage first_reply
first_reply-IsMessage = record {
  typ_fits = omega arith;
  flags_fits = omega arith;
  seq_fits = omega arith;
  pid_fits = omega arith;
  len_fits = omega arith;
}

no_entry-IsMessage : IsMessage no_entry
no_entry-IsMessage = record {
  typ_fits = omega arith;
  flags_fits = omega arith;
  seq_fits = omega arith;
  pid_fits = omega arith;
  len_fits = omega arith;
}

no_entry-IsErrorMessage : IsErrorMessage 2 no_entry
no_entry-IsErrorMessage = record {
  typ_error = refl;
  rest = [];
  body_code = refl;
  code_fits = omega arith;
}

abbrev until_two : NlMsgParser → ℕ → Result Bool × ℕ
until_two msg zero = (ok false, 1)
until_two msg (suc n) = (ok true, n + 2)

-- A late reply to request 1 is taken for the end of request 2.
request-first_message_example :
    request none 4711 2 (datagram 0 (packed (first_reply ∷ [])) 3 ∷ []) ≡ returned (ok tt) none []
request-first_message_example =
    request-first_message 4711 2 first_reply [] 3 [] (first_reply-IsMessage, tt) (λ e. omega arith)

request-error_example :
    request none 4711 1 (datagram 0 (packed (no_entry ∷ [])) 0 ∷ [])
    ≡ returned (err (netlink_error 2)) none []
request-error_example =
    request-error 1 2 no_entry [] 0 [] (no_entry-IsMessage, tt) no_entry-IsErrorMessage refl
      (omega arith)

abbrev empty_header : NlMsghdr
empty_header = record { len = 0; typ = 0; flags = 0; seq = 0; pid = 0 }

abbrev zeros_received : List Received
zeros_received = datagram 0 (replicate 16 0) 4 ∷ []

abbrev taken : NlMsgParser → ℕ → Result (Unit {0}) × ℕ
taken msg n = (ok tt, n + 1)

abbrev reported : Error → Bool → ℕ → ℕ
reported e stopped n = n
