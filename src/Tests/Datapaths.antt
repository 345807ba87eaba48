-- ===== src/Tests/Datapaths.antt =====
-- The theorems about datapaths and vport events at concrete messages.
use go_odp.Prelude.{
  ℕ, ◌+◌, ◌≡◌, refl, List, [], ◌∷◌, ◌++◌, none, some, ok, missing_attribute, inl, inr, ◌⊎◌, ◌<◌,
  ◌-◌, ltb, if◌then◌else◌, map, arith,
}
use go_odp.Prelude.Map.{lookup, insert}
use go_odp.Format.{encode}
use go_odp.Session.{returned, waiting}
use go_odp.Session.Dumps.{IsReply}
use go_odp.Dpif.Exchange.{answered}
use go_odp.Dpif.Messages.{OvsMessage, message_of, IsOvsMessage}
use go_odp.Dpif.Asks.{Gets}
use go_odp.Dpif.Dumps.{GetsDump}
use go_odp.Dpif.Events.{Datagram, received_as, after_datagrams}
use go_odp.Datapath.{
  create_datapath, lookup_datapath, lookup_datapath_by_id, Datapaths, named_datapath,
  enumerate_datapaths,
}
use go_odp.Datapath.Calls.{
  IsDatapathMessage, datapath-replies, last_named, enumerate_datapaths-dump,
}
use go_odp.Vport.Events.{consume_vport_events}
use go_odp.Vport.Calls.{IsVportMessage}
use go_odp.Vport.Dispatch.{Reactions, consumer_of, reaction, consume_vport_events-reactions}
use go_odp.Tests.Messages.{
  dp, name, shown_tunnel, described, described-IsOvsMessage, described-IsVportMessage, last,
  last-IsReply, socket, tunnel, dumping, first_part,
}

abbrev shown : ℕ → OvsMessage
shown index = record {
  typ = 24;
  flags = 0;
  seq = 7;
  pid = 4711;
  cmd = 1;
  version = 2;
  ifindex = index;
  attrs = record { typ = 1; val = name ++ (0 ∷ []) } ∷ [];
}

shown-IsOvsMessage : (index : ℕ) → index < 10 → IsOvsMessage (shown index)
unfolding encode
shown-IsOvsMessage index small = record {
  valid = record {
    typ_fits = omega arith;
    flags_fits = omega arith;
    seq_fits = omega arith;
    pid_fits = omega arith;
    len_fits = omega arith;
  };
  ifindex_fits = omega (arith, small);
  attrs_fit = (record { len_fits = omega arith; typ_fits = omega arith }, tt);
}

shown-IsDatapathMessage :
    (index : ℕ)
    → index < 10
    → (cmd : ℕ) → (cmd ≡ 1) ⊎ (cmd ≡ 3)
    → IsDatapathMessage dp.dpif cmd (shown index) name
unfolding lookup insert
shown-IsDatapathMessage index small cmd e = record {
  valid = shown-IsOvsMessage index small;
  family = refl;
  no_error = λ e. omega arith;
  accepted = elim e [ inl new ↦ rw new refl | inr got ↦ rw got refl ];
  name_is = refl;
}

shown-IsReply : (index : ℕ) → index < 10 → IsReply 4711 7 (message_of (shown index))
shown-IsReply index small = record {
  valid = (shown-IsOvsMessage index small).valid;
  same_port = refl;
  same_seq = refl;
  no_error = λ e. omega arith;
}

shown_arrives : Gets (socket (message_of (shown 5) ∷ [])) (message_of (shown 5)) [] 2 []
shown_arrives = record {
  sent = refl;
  arrives = refl;
  valid = ((shown-IsOvsMessage 5 (omega arith)).valid, tt);
  own_port = refl;
  own_seq = refl;
}

-- Three messages of two datapaths with one name.
shown_dumped :
    GetsDump (dumping (shown 5) (shown 9)) (first_part (shown 5) (shown 9)) (shown 9 ∷ []) last 2 []
shown_dumped = record {
  sent = refl;
  arrives = refl;
  replies = (
    shown-IsReply 5 (omega arith),
    (shown-IsReply 9 (omega arith), (shown-IsReply 9 (omega arith), tt)),
  );
  no_end = ((λ e. omega arith), ((λ e. omega arith), ((λ e. omega arith), tt)));
  last_reply = last-IsReply;
  done = record { typ_done = refl; rest = []; body_code = refl };
}

-- The reply of a newer kernel to a lookup, with the command GET.
abbrev got : OvsMessage
got = record (shown 5) { cmd = 3 }

got-IsOvsMessage : IsOvsMessage got
unfolding encode
got-IsOvsMessage = record {
  valid = record {
    typ_fits = omega arith;
    flags_fits = omega arith;
    seq_fits = omega arith;
    pid_fits = omega arith;
    len_fits = omega arith;
  };
  ifindex_fits = omega arith;
  attrs_fit = (record { len_fits = omega arith; typ_fits = omega arith }, tt);
}

got-IsDatapathMessage : IsDatapathMessage dp.dpif 3 got name
unfolding lookup insert
got-IsDatapathMessage = record {
  valid = got-IsOvsMessage;
  family = refl;
  no_error = λ e. omega arith;
  accepted = refl;
  name_is = refl;
}

got_arrives : Gets (socket (message_of got ∷ [])) (message_of got) [] 2 []
got_arrives = record {
  sent = refl;
  arrives = refl;
  valid = (got-IsOvsMessage.valid, tt);
  own_port = refl;
  own_seq = refl;
}

datapath-replies_example :
    ((create_datapath dp.dpif [] (socket (message_of (shown 5) ∷ []))).1
      ≡ answered (ok (record { dpif = dp.dpif; ifindex = 5 })) [])
    × ((lookup_datapath dp.dpif [] (socket (message_of got ∷ []))).1
        ≡ answered (ok (record { dpif = dp.dpif; ifindex = 5 })) [])
    × ((lookup_datapath_by_id dp.dpif 8 (socket (message_of got ∷ []))).1
        ≡ answered
            (ok (record { handle = record { dpif = dp.dpif; ifindex = 8 }; name = name }))
            [])
datapath-replies_example =
    datapath-replies dp.dpif (socket (message_of (shown 5) ∷ [])) (socket (message_of got ∷ []))
      (shown 5) got name name [] [] [] 8
      (record {
        ms = [];
        spare = 2;
        arrives = shown_arrives;
        named = shown-IsDatapathMessage 5 (omega arith) 1 (inl refl);
      })
      (record { ms = []; spare = 2; arrives = got_arrives; named = got-IsDatapathMessage })

abbrev name_of : OvsMessage → List ℕ
name_of m = name

enumerate_datapaths-dump_example :
    (res : Datapaths) × ((enumerate_datapaths dp.dpif (dumping (shown 5) (shown 9))).1
      ≡ returned (ok tt) res [])
    × ((key : List ℕ)
        → named_datapath key res
          ≡ last_named dp.dpif name_of key (shown 5 ∷ shown 9 ∷ shown 9 ∷ []) none)
enumerate_datapaths-dump_example =
    enumerate_datapaths-dump dp.dpif name_of (dumping (shown 5) (shown 9))
      (first_part (shown 5) (shown 9)) (shown 9 ∷ []) last 2 [] shown_dumped
      (
        shown-IsDatapathMessage 5 (omega arith) 3 (inr refl),
        (
          shown-IsDatapathMessage 9 (omega arith) 3 (inr refl),
          (shown-IsDatapathMessage 9 (omega arith) 3 (inr refl), tt),
        ),
      )

-- It counts the vports, and refuses a fourth.
abbrev counter : Reactions ℕ
counter = record {
  created = λ dpid vport n. if ltb 3 n then (some (missing_attribute 0), n) else (none, n + 1);
  deleted = λ dpid vport n. (none, n - 1);
  on_error = λ e stopped n. n;
}

abbrev announcements : List Datagram
announcements =
    record { first = described; others = record described { cmd = 2 } ∷ []; spare = 0 }
    ∷ record { first = described; others = []; spare = 2 }
    ∷ []

gone-IsOvsMessage : IsOvsMessage (record described { cmd = 2 })
unfolding encode
gone-IsOvsMessage = record {
  valid = record {
    typ_fits = omega arith;
    flags_fits = omega arith;
    seq_fits = omega arith;
    pid_fits = omega arith;
    len_fits = omega arith;
  };
  ifindex_fits = omega arith;
  attrs_fit = described-IsOvsMessage.attrs_fit;
}

gone-IsVportMessage : IsVportMessage dp.dpif (record described { cmd = 2 }) 3 tunnel
gone-IsVportMessage = record {
  valid = gone-IsOvsMessage;
  family = refl;
  no_error = λ e. omega arith;
  spec_valid = described-IsVportMessage.spec_valid;
  described = described-IsVportMessage.described;
}

consume_vport_events-reactions_example :
    consume_vport_events (consumer_of counter) dp.dpif 5 (map received_as announcements) 0
    ≡ waiting
        (after_datagrams counter.on_error (reaction dp.dpif 5 shown_tunnel counter) announcements 0)
consume_vport_events-reactions_example =
    consume_vport_events-reactions dp.dpif 5 shown_tunnel counter announcements 0
      ((described-IsVportMessage, (gone-IsVportMessage, tt)), ((described-IsVportMessage, tt), tt))
