-- ===== src/Packet.antt =====
-- odp/packet.go: the packets that the kernel has no flow for, and packets that are sent out. Reopening
-- sockets and cancelling are system calls.
pub mod Runs
pub mod Echo
pub mod Misses
use go_odp.Prelude.{
  ℕ, ◌==◌, List, [], ◌∷◌, ◌++◌, Bool, true, false, Option, none, some, Result, ok, err, panic, wild,
  out_of_fuel, Error, system_error, ◌>>=◌, if◌then◌else◌,
}
use go_odp.Prelude.Map.{lookup}
use go_odp.Builder.{NlMsgBuilder, finish, put_slice_attr, put_nested_attrs}
use go_odp.Parser.{NlMsgParser}
use go_odp.Attrs.{Attrs, take_attrs, get_nested_attrs}
use go_odp.Session.{Received, Outcome, returned, waiting, request, consume}
use go_odp.Dpif.{DatapathHandle, packet_family, check_datapath_headers}
use go_odp.Dpif.Exchange.{Socket, Exchange, ovs_request, request_flags}
use go_odp.Dpif.Asks.{sent_seq}
use go_odp.Flow.Key.{FlowKey, put_key_nl_attr}
use go_odp.Flow.Keys.{FlowKeys}
use go_odp.Flow.Parse.{parse_flow_keys}
use go_odp.Flow.Action.{Action}
use go_odp.Flow.Spec.{put_actions}
use go_odp.Vport.{Vport}
use go_odp.Vport.Requests.{set_vport_upcall_port_id}
use go_odp.Vport.Events.{VportEventsConsumer}

abbrev pub ovs_packet_version : ℕ
ovs_packet_version = 1

abbrev pub ovs_packet_cmd_miss : ℕ
ovs_packet_cmd_miss = 1

abbrev pub ovs_packet_cmd_execute : ℕ
ovs_packet_cmd_execute = 3

abbrev pub ovs_packet_attr_packet : ℕ
ovs_packet_attr_packet = 1

abbrev pub ovs_packet_attr_key : ℕ
ovs_packet_attr_key = 2

abbrev pub ovs_packet_attr_actions : ℕ
ovs_packet_attr_actions = 3

-- A MissConsumer with the state `U`.
pub record MissConsumer (U : Type 0) : Type 0 where
  pub miss : List ℕ → FlowKeys → U → Result (Unit {0}) × U
  pub on_error : Error → Bool → U → U

-- The consumer of vport events, with its socket and the requests that it has sent.
pub record MissVportConsumer : Type 0 where
  pub dp : DatapathHandle
  pub upcall_port_id : ℕ
  pub vports_done : List ℕ
  pub sock : Socket
  pub requests : List (Option (List ℕ))

unfoldable pub has_vport : ℕ → List ℕ → Bool
has_vport vport [] = false
has_vport vport (v ∷ vs) = if v == vport then true else has_vport vport vs

unfoldable pub delete_done : ℕ → List ℕ → List ℕ
delete_done vport [] = []
delete_done vport (v ∷ vs) = if v == vport then delete_done vport vs else v ∷ delete_done vport vs

-- The consumer behind a request.
abbrev pub behind_request :
    MissVportConsumer → Option (List ℕ) → List Received → List ℕ → MissVportConsumer
behind_request c sent rest vports = record c {
  vports_done = vports;
  sock = record c.sock { last_seq = sent_seq c.sock; received = rest };
  requests = c.requests ++ (sent ∷ []);
}

-- A call that waits for a response for ever is `out_of_fuel`: it does not return.
abbrev pub record_done :
    ℕ → MissVportConsumer → Exchange (Option NlMsgParser) → Result (Unit {0}) × MissVportConsumer
record_done vport c (sent, returned (ok u) resp rest) =
    (ok tt, behind_request c sent rest (vport ∷ c.vports_done))
record_done vport c (sent, returned failure resp rest) =
    (failure, behind_request c sent rest c.vports_done)
record_done vport c (sent, waiting resp) = (out_of_fuel, behind_request c sent [] c.vports_done)

-- missVportConsumer.setVportUpcallPortId, under its lock.
unfoldable pub set_port_once : ℕ → MissVportConsumer → Result (Unit {0}) × MissVportConsumer
unfolding set_vport_upcall_port_id has_vport finish request
set_port_once vport c =
    if has_vport vport c.vports_done
    then (ok tt, c)
    else record_done vport c (set_vport_upcall_port_id c.dp vport c.upcall_port_id c.sock)

unfoldable pub forget_vport : ℕ → MissVportConsumer → Result (Unit {0}) × MissVportConsumer
unfolding delete_done
forget_vport vport c = (ok tt, record c { vports_done = delete_done vport c.vports_done })

-- The loop of ConsumeMisses over the vports that it enumerated.
unfoldable pub set_ports : List Vport → MissVportConsumer → Result (Unit {0}) × MissVportConsumer
unfolding set_port_once
set_ports [] c = (ok tt, c)
set_ports (vport ∷ vports) c =
    let (r, after) = set_port_once vport.id c in
    elim r [ ok u ↦ set_ports vports after | failure ↦ (failure, after) ]

-- A missing attribute is a nil slice.
abbrev pub packet_of : Option (List ℕ) → List ℕ
packet_of none = []
packet_of (some bytes) = bytes

-- A required nested attribute that GetNestedAttrs reports no error for.
abbrev pub attrs_or_nil : Option Attrs → Attrs
attrs_or_nil none = []
attrs_or_nil (some attrs) = attrs

-- What a miss message holds: the packet and its keys.
unfoldable pub parse_miss : DatapathHandle → NlMsgParser → Result (List ℕ × FlowKeys)
unfolding check_datapath_headers take_attrs get_nested_attrs parse_flow_keys lookup
parse_miss dp msg = do
  behind ← check_datapath_headers dp packet_family (some ovs_packet_cmd_miss) msg
  (attrs, end) ← take_attrs behind
  fkattrs ← get_nested_attrs ovs_packet_attr_key false attrs
  fks ← parse_flow_keys (attrs_or_nil fkattrs) none
  ok (packet_of (lookup ovs_packet_attr_packet attrs), fks)

module _ {U : Type 0} (consumer : MissConsumer U) where
  abbrev pub with_user :
      U → Result (Unit {0}) × MissVportConsumer → Result (Unit {0}) × (MissVportConsumer × U)
  with_user u (r, c) = (r, (c, u))

  -- The methods of missVportConsumer.
  unfoldable pub miss_vport_consumer : VportEventsConsumer (MissVportConsumer × U)
  unfolding set_port_once forget_vport
  miss_vport_consumer = record {
    vport_created = λ dpid vport s. with_user s.1 (set_port_once vport.id s.0);
    vport_deleted = λ dpid vport s. with_user s.1 (forget_vport vport.id s.0);
    on_error = λ e stopped s. (s.0, consumer.on_error e stopped s.1);
  }

  abbrev pub deliver_miss : Result (List ℕ × FlowKeys) → U → Result (Unit {0}) × U
  deliver_miss (ok (packet, fks)) u = consumer.miss packet fks u
  deliver_miss (err e) u = (err e, u)
  deliver_miss panic u = (panic, u)
  deliver_miss wild u = (wild, u)
  deliver_miss out_of_fuel u = (out_of_fuel, u)

  -- The handler of consumeMisses.
  unfoldable pub handle_miss : DatapathHandle → NlMsgParser → U → Result (Unit {0}) × U
  unfolding parse_miss
  handle_miss dp msg u = deliver_miss (parse_miss dp msg) u

  unfoldable pub consume_misses : DatapathHandle → List Received → U → Outcome U
  unfolding consume handle_miss
  consume_misses dp received u = consume consumer.on_error (handle_miss dp) received u

-- The loop over the keys in Execute, which writes the ignored keys too.
unfoldable pub put_all_keys : FlowKeys → NlMsgBuilder → NlMsgBuilder
unfolding put_key_nl_attr
put_all_keys [] msg = msg
put_all_keys ((id, k) ∷ fks) msg = put_all_keys fks (put_key_nl_attr k msg)

unfoldable pub execute_request : DatapathHandle → List ℕ → FlowKeys → List Action → NlMsgBuilder
unfolding ovs_request put_slice_attr put_nested_attrs put_all_keys put_actions
execute_request dp packet keys actions =
    put_nested_attrs ovs_packet_attr_actions (put_actions actions) (
      put_nested_attrs ovs_packet_attr_key (put_all_keys keys) (
        put_slice_attr ovs_packet_attr_packet packet (
          ovs_request dp.dpif packet_family request_flags ovs_packet_cmd_execute ovs_packet_version
            dp.ifindex)))

-- What is sent, and the error of Sendto. No response is read.
unfoldable pub execute :
    DatapathHandle → List ℕ → FlowKeys → List Action → Socket → List ℕ × Result (Unit {0})
unfolding finish execute_request
execute dp packet keys actions sock =
    let ((bytes, seq), last) = finish (execute_request dp packet keys actions) sock.last_seq in
    (bytes, elim sock.send_failed [ none ↦ ok tt | some errno ↦ err (system_error errno) ])
