-- ===== src/Tests/Messages.antt =====
-- Concrete messages, sockets that get them, and what holds of them.
use go_odp.Prelude.{ℕ, ◌+◌, refl, List, [], ◌∷◌, ◌++◌, none, inl, arith}
use go_odp.Prelude.Map.{lookup, insert}
use go_odp.Memory.{u16_bytes, u32_bytes}
use go_odp.Format.{Attr, encode, nested}
use go_odp.Attrs.RoundTrip.{attrs_of}
use go_odp.Session.{datagram}
use go_odp.Session.Packets.{Message, packed}
use go_odp.Session.Dumps.{IsReply}
use go_odp.Dpif.{DatapathHandle}
use go_odp.Dpif.Exchange.{Socket}
use go_odp.Dpif.Messages.{OvsMessage, message_of, IsOvsMessage}
use go_odp.Dpif.Asks.{Gets}
use go_odp.Dpif.Dumps.{GetsDump}
use go_odp.Dpif.Events.{Datagram, received_as}
use go_odp.Vport.{VportSpec, vxlan, vport_name, vport_type_id}
use go_odp.Vport.RoundTrip.{Describes}
use go_odp.Vport.Calls.{IsVportMessage}
use go_odp.Vport.Listing.{IsPortless, IsListed}

abbrev pub dp : DatapathHandle
dp = record { dpif = record { families = λ n. n + 24 }; ifindex = 5 }

abbrev pub name : List ℕ
name = 118 ∷ 120 ∷ []

abbrev pub tunnel : VportSpec
tunnel = vxlan (record { name = name; port = 4789 })

abbrev pub port_name_type : List Attr
port_name_type =
    record { typ = 1; val = u32_bytes 3 }
    ∷ record { typ = 3; val = name ++ (0 ∷ []) }
    ∷ record { typ = 2; val = u32_bytes 4 }
    ∷ []

abbrev pub vport_message : List Attr → OvsMessage
vport_message attrs = record {
  typ = 25;
  flags = 0;
  seq = 7;
  pid = 4711;
  cmd = 1;
  version = 1;
  ifindex = 5;
  attrs = attrs;
}

abbrev pub described : OvsMessage
described = vport_message (
    port_name_type
    ++ (record { typ = 4; val = nested (record { typ = 1; val = u16_bytes 4789 } ∷ []) } ∷ []))

abbrev pub portless : OvsMessage
portless = vport_message port_name_type

abbrev pub last : Message
last = record { typ = 3; flags = 2; seq = 7; pid = 4711; body = 0 ∷ 0 ∷ 0 ∷ 0 ∷ [] }

abbrev pub socket : List Message → Socket
socket ms = record {
  port_id = 4711;
  last_seq = 6;
  send_failed = none;
  received = datagram 0 (packed ms) 2 ∷ [];
}

-- A dump whose replies before the last ones come in a datagram of their own.
abbrev pub dumping : OvsMessage → OvsMessage → Socket
dumping m n = record {
  port_id = 4711;
  last_seq = 6;
  send_failed = none;
  received =
      received_as (record { first = m; others = n ∷ []; spare = 0 })
      ∷ datagram 0 (packed (message_of n ∷ last ∷ [])) 2
      ∷ [];
}

abbrev pub first_part : OvsMessage → OvsMessage → List Datagram
first_part m n = record { first = m; others = n ∷ []; spare = 0 } ∷ []

pub described-IsOvsMessage : IsOvsMessage described
unfolding encode
described-IsOvsMessage = record {
  valid = record {
    typ_fits = omega arith;
    flags_fits = omega arith;
    seq_fits = omega arith;
    pid_fits = omega arith;
    len_fits = omega arith;
  };
  ifindex_fits = omega arith;
  attrs_fit = (
    record { len_fits = omega arith; typ_fits = omega arith },
    (
      record { len_fits = omega arith; typ_fits = omega arith },
      (
        record { len_fits = omega arith; typ_fits = omega arith },
        (record { len_fits = omega arith; typ_fits = omega arith }, tt),
      ),
    ),
  );
}

pub portless-IsOvsMessage : IsOvsMessage portless
unfolding encode
portless-IsOvsMessage = record {
  valid = record {
    typ_fits = omega arith;
    flags_fits = omega arith;
    seq_fits = omega arith;
    pid_fits = omega arith;
    len_fits = omega arith;
  };
  ifindex_fits = omega arith;
  attrs_fit = (
    record { len_fits = omega arith; typ_fits = omega arith },
    (
      record { len_fits = omega arith; typ_fits = omega arith },
      (record { len_fits = omega arith; typ_fits = omega arith }, tt),
    ),
  );
}

pub described-Describes : Describes (attrs_of described.attrs) 3 tunnel
unfolding lookup insert vport_type_id vport_name
described-Describes = record {
  port_no = refl;
  type_is = refl;
  name_is = refl;
  options_are = inl refl;
  id_fits = omega arith;
}

pub described-IsVportMessage : IsVportMessage dp.dpif described 3 tunnel
described-IsVportMessage = record {
  valid = described-IsOvsMessage;
  family = refl;
  no_error = λ e. omega arith;
  spec_valid = omega arith;
  described = described-Describes;
}

pub portless-IsPortless : IsPortless dp.dpif portless 3 4 name
unfolding lookup insert
portless-IsPortless = record {
  valid = portless-IsOvsMessage;
  family = refl;
  no_error = λ e. omega arith;
  id_fits = omega arith;
  udp_type = inl refl;
  port_no = refl;
  type_is = refl;
  name_is = refl;
  no_options = refl;
}

pub described_arrives : Gets (socket (message_of described ∷ [])) (message_of described) [] 2 []
described_arrives = record {
  sent = refl;
  arrives = refl;
  valid = (described-IsOvsMessage.valid, tt);
  own_port = refl;
  own_seq = refl;
}

pub portless_arrives : Gets (socket (message_of portless ∷ [])) (message_of portless) [] 2 []
portless_arrives = record {
  sent = refl;
  arrives = refl;
  valid = (portless-IsOvsMessage.valid, tt);
  own_port = refl;
  own_seq = refl;
}

pub last-IsReply : IsReply 4711 7 last
last-IsReply = record {
  valid = record {
    typ_fits = omega arith;
    flags_fits = omega arith;
    seq_fits = omega arith;
    pid_fits = omega arith;
    len_fits = omega arith;
  };
  same_port = refl;
  same_seq = refl;
  no_error = λ e. omega arith;
}

pub described-IsReply : IsReply 4711 7 (message_of described)
described-IsReply = record {
  valid = described-IsOvsMessage.valid;
  same_port = refl;
  same_seq = refl;
  no_error = λ e. omega arith;
}

pub described_dumped :
    GetsDump
      (dumping described described)
      (first_part described described)
      (described ∷ [])
      last
      2
      []
described_dumped = record {
  sent = refl;
  arrives = refl;
  replies = (described-IsReply, (described-IsReply, (described-IsReply, tt)));
  no_end = ((λ e. omega arith), ((λ e. omega arith), ((λ e. omega arith), tt)));
  last_reply = last-IsReply;
  done = record { typ_done = refl; rest = []; body_code = refl };
}

abbrev pub shown_tunnel : OvsMessage → ℕ × VportSpec
shown_tunnel m = (3, tunnel)

pub described-IsListed : IsListed dp shown_tunnel described
described-IsListed = record { vport = described-IsVportMessage; own = refl; accepted = refl }
