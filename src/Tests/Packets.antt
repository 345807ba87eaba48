-- ===== src/Tests/Packets.antt =====
-- The theorems about packets at concrete systems and messages.
use go_odp.Prelude.{
  ℕ, ◌+◌, ◌*◌, ◌≤◌, ◌≡◌, refl, List, [], ◌∷◌, none, some, missing_attribute, length, map, arith,
  ◌⊎◌, replicate,
}
use go_odp.Prelude.Map.{lookup, insert}
use go_odp.Format.{encode, nested, Attr}
use go_odp.Format.Optional.{attribute}
use go_odp.Session.{waiting}
use go_odp.Dpif.Messages.{OvsMessage}
use go_odp.Dpif.Events.{Datagram, received_as, after_datagrams}
use go_odp.Flow.Key.{blob}
use go_odp.Flow.Keys.{FlowKeys}
use go_odp.Flow.Parse.{parse_flow_keys}
use go_odp.Vport.{Vport}
use go_odp.Session.{request}
use go_odp.Builder.{finish}
use go_odp.Vport.Requests.{set_vport_upcall_port_id}
use go_odp.Packet.{
  set_port_once, delete_done, MissConsumer, MissVportConsumer, has_vport, forget_vport,
  miss_vport_consumer, consume_misses,
}
use go_odp.Packet.Runs.{
  removed, refused, deleted, created, MissSystem, MissRun, ends, handles_deleted, handles_created,
  track, MissRun-track,
}
use go_odp.Packet.Echo.{EchoRun, IsWaiting, EchoRun-ends}
use go_odp.Packet.Misses.{IsMiss, MissReactions, miss_consumer_of, missed, consume_misses-missed}
use go_odp.Tests.Messages.{dp}

-- A socket whose requests are refused.
abbrev closed : MissVportConsumer
closed = record {
  dp = dp;
  upcall_port_id = 4712;
  vports_done = 3 ∷ [];
  sock = record { port_id = 4711; last_seq = 6; send_failed = some 9; received = [] };
  requests = [];
}

abbrev vport : ℕ → Vport
vport id = record { id = id; spec = none }

EchoRun-ends_example :
    ((n : ℕ) (d : MissVportConsumer) (left : List Vport)
      → EchoRun n closed (vport 3 ∷ vport 4 ∷ []) d left
      → n ≤ 2 * length (vport 3 ∷ vport 4 ∷ []))
    × ((n : ℕ) × (d : MissVportConsumer) × (left : List Vport) × EchoRun n closed
          (vport 3 ∷ vport 4 ∷ [])
          d
          left
        × ((left ≡ []) ⊎ IsWaiting d left))
EchoRun-ends_example = EchoRun-ends closed (vport 3 ∷ vport 4 ∷ [])

abbrev counter : MissReactions ℕ
counter = record {
  miss = λ packet fks n. (some (missing_attribute n), n + length packet);
  on_error = λ e stopped n. n + 1;
}

abbrev consumer : MissConsumer ℕ
consumer = miss_consumer_of counter

abbrev start : MissSystem consumer
start = record {
  state = (closed, 0);
  to_set = vport 3 ∷ [];
  events = deleted 5 (vport 3) ∷ created 5 (vport 3) ∷ [];
}

abbrev forgotten : MissVportConsumer
forgotten = (forget_vport 3 closed).1

abbrev end : MissSystem consumer
end = record {
  state = ((miss_vport_consumer consumer).vport_created 5 (vport 3) (forgotten, 0)).1;
  to_set = vport 3 ∷ [];
  events = [];
}

-- The vport is deleted, and created anew, before the loop comes to it: the call sends a request, which
-- the socket refuses.
again_created : MissRun consumer start (removed 3 ∷ refused 3 ∷ []) end
unfolding miss_vport_consumer forget_vport set_port_once delete_done has_vport
    set_vport_upcall_port_id request finish
again_created =
    handles_deleted 5 (vport 3) (created 5 (vport 3) ∷ []) closed 0 (vport 3 ∷ []) (refused 3 ∷ [])
      end (handles_created 5 (vport 3) [] forgotten 0 (vport 3 ∷ []) [] end (ends end))

MissRun-track_example :
    track 3 (has_vport 3 closed.vports_done) (removed 3 ∷ refused 3 ∷ [])
    ≡ some (has_vport 3 end.state.0.vports_done)
MissRun-track_example =
    MissRun-track consumer 3 start end (removed 3 ∷ refused 3 ∷ []) again_created

abbrev priority : FlowKeys
priority = (2, blob (record { typ = 2; key_mask = 1 ∷ 0 ∷ 0 ∷ 0 ∷ replicate 4 0xff })) ∷ []

abbrev priority_attr : List Attr
priority_attr = attribute 2 (1 ∷ 0 ∷ 0 ∷ 0 ∷ []) ∷ []

abbrev miss : OvsMessage
miss = record {
  typ = 27;
  flags = 0;
  seq = 0;
  pid = 0;
  cmd = 1;
  version = 1;
  ifindex = 5;
  attrs = attribute 1 (8 ∷ 9 ∷ []) ∷ attribute 2 (nested priority_attr) ∷ [];
}

miss-IsMiss : IsMiss dp miss (8 ∷ 9 ∷ []) priority
unfolding encode lookup insert parse_flow_keys
miss-IsMiss = record {
  valid = record {
    valid = record {
      typ_fits = omega arith;
      flags_fits = omega arith;
      seq_fits = omega arith;
      pid_fits = omega arith;
      len_fits = omega arith;
    };
    ifindex_fits = omega arith;
    attrs_fit = (
      record { len_fits = omega arith; typ_fits = omega arith },
      (record { len_fits = omega arith; typ_fits = omega arith }, tt),
    );
  };
  family = refl;
  no_error = λ e. omega arith;
  own = refl;
  is_miss = refl;
  packet_is = refl;
  keys = priority_attr;
  keys_fit = (record { len_fits = omega arith; typ_fits = omega arith }, tt);
  keys_are = refl;
  keys_parse = refl;
}

abbrev shown : OvsMessage → List ℕ × FlowKeys
shown m = (8 ∷ 9 ∷ [], priority)

abbrev misses : List Datagram
misses =
    record { first = miss; others = miss ∷ []; spare = 0 }
    ∷ record { first = miss; others = []; spare = 3 }
    ∷ []

consume_misses-missed_example :
    consume_misses (miss_consumer_of counter) dp (map received_as misses) 0
    ≡ waiting (after_datagrams counter.on_error (missed dp shown counter) misses 0)
consume_misses-missed_example =
    consume_misses-missed dp shown counter misses 0
      ((miss-IsMiss, (miss-IsMiss, tt)), ((miss-IsMiss, tt), tt))
