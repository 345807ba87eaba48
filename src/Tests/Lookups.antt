-- ===== src/Tests/Lookups.antt =====
-- The theorem about looking up a datapath by its number, at concrete messages.
use go_odp.Prelude.{ℕ, ◌≡◌, refl, List, [], ◌∷◌, ◌++◌, Option, none, some, arith}
use go_odp.Prelude.Map.{lookup, insert}
use go_odp.Memory.{u32_bytes}
use go_odp.Format.{encode}
use go_odp.Session.{Received, datagram}
use go_odp.Session.Packets.{Message, IsMessage, packed}
use go_odp.Session.Responses.{IsErrorMessage}
use go_odp.Dpif.Messages.{OvsMessage, message_of, IsOvsMessage}
use go_odp.Dpif.Asks.{Gets}
use go_odp.Family.{socket_behind}
use go_odp.Datapath.Calls.{IsDatapathMessage}
use go_odp.Tool.Talk.{Console, done, behind}
use go_odp.Tool.Handlers.{lookup_datapath_named}
use go_odp.Tool.Handlers.Lookup.{lookup_datapath_named-by_number}
use go_odp.Tests.Messages.{dp, name}

abbrev unknown : Message
unknown = record { typ = 2; flags = 0; seq = 7; pid = 4711; body = u32_bytes 4294967277 }

abbrev numbered : OvsMessage
numbered = record {
  typ = 24;
  flags = 0;
  seq = 8;
  pid = 4711;
  cmd = 1;
  version = 2;
  ifindex = 5;
  attrs = record { typ = 1; val = name ++ (0 ∷ []) } ∷ [];
}

abbrev found : List Received
found = datagram 0 (packed (message_of numbered ∷ [])) 0 ∷ []

abbrev console : Console
console = record {
  sock = record {
    port_id = 4711;
    last_seq = 6;
    send_failed = none;
    received = datagram 0 (packed (unknown ∷ [])) 0 ∷ found;
  };
  out = [];
}

-- The text 5.
abbrev parse_uint : List ℕ → Option ℕ
parse_uint text = some 5

unknown-IsMessage : IsMessage unknown
unknown-IsMessage = record {
  typ_fits = omega arith;
  flags_fits = omega arith;
  seq_fits = omega arith;
  pid_fits = omega arith;
  len_fits = omega arith;
}

unknown-IsErrorMessage : IsErrorMessage 19 unknown
unknown-IsErrorMessage = record {
  typ_error = refl;
  rest = [];
  body_code = refl;
  code_fits = omega arith;
}

numbered-IsOvsMessage : IsOvsMessage numbered
unfolding encode
numbered-IsOvsMessage = record {
  valid = record {
    typ_fits = omega arith;
    flags_fits = omega arith;
    seq_fits = omega arith;
    pid_fits = omega arith;
    len_fits = omega arith;
  };
  ifindex_fits = omega arith;
  attrs_fit = (record { len_fits = omega arith; typ_fits = omega arith }, tt);
}

numbered-IsDatapathMessage : IsDatapathMessage dp.dpif 3 numbered name
unfolding lookup insert
numbered-IsDatapathMessage = record {
  valid = numbered-IsOvsMessage;
  family = refl;
  no_error = λ e. omega arith;
  accepted = refl;
  name_is = refl;
}

first_arrives : Gets console.sock unknown [] 0 found
first_arrives = record {
  sent = refl;
  arrives = refl;
  valid = (unknown-IsMessage, tt);
  own_port = refl;
  own_seq = refl;
}

second_arrives : Gets (socket_behind console.sock found) (message_of numbered) [] 0 []
second_arrives = record {
  sent = refl;
  arrives = refl;
  valid = (numbered-IsOvsMessage.valid, tt);
  own_port = refl;
  own_seq = refl;
}

lookup_datapath_named-by_number_example :
    lookup_datapath_named parse_uint dp.dpif (b'5' ∷ []) console
    ≡ (done (record { dpif = dp.dpif; ifindex = 5 }, name), behind (behind console found) [])
lookup_datapath_named-by_number_example =
    lookup_datapath_named-by_number parse_uint dp.dpif (b'5' ∷ []) console 5 unknown [] 0 found
      numbered [] 0 [] name first_arrives unknown-IsErrorMessage refl second_arrives
      numbered-IsDatapathMessage
