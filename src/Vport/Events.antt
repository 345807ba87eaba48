-- ===== src/Vport/Events.antt =====
-- odp/vport.go: consumeVportEvents. Opening the second socket and joining the multicast group are
-- system calls.
use go_odp.Prelude.{
  ℕ, ◌^◌, ◌==◌, ltb, not, ◌&&◌, Bool, none, Option, Result, ok, err, panic, wild, out_of_fuel,
  Error, ◌>>=◌, List, if◌then◌else◌,
}
use go_odp.Parser.{NlMsgParser}
use go_odp.Session.{Received, Outcome, consume}
use go_odp.Dpif.{Dpif, vport_family, check_nl_msg_headers}
use go_odp.Vport.{Vport, parse_vport}
use go_odp.Vport.Requests.{ovs_vport_cmd_new, ovs_vport_cmd_del}

-- A VportEventsConsumer with the state `S`.
pub record VportEventsConsumer (S : Type 0) : Type 0 where
  pub vport_created : ℕ → Vport → S → Result (Unit {0}) × S
  pub vport_deleted : ℕ → Vport → S → Result (Unit {0}) × S
  pub on_error : Error → Bool → S → S

-- What a message is for the consumer: a command, a datapath and a vport, or nothing where the
-- message is about a datapath other than that of `ifindex`. A negative ifindex asks for all.
unfoldable pub vport_event : Dpif → ℕ → NlMsgParser → Result (Option ((ℕ × ℕ) × Vport))
unfolding check_nl_msg_headers parse_vport
vport_event dpif ifindex msg = do
  ((cmd, dpid), behind) ← check_nl_msg_headers dpif vport_family none msg
  let found = do vport ← parse_vport behind; ok (Option.some ((cmd, dpid), vport))
  if ltb ifindex (2 ^ 31) && not (dpid == ifindex) then ok none else found

module _ {S : Type 0} (consumer : VportEventsConsumer S) where
  abbrev pub dispatch_event : Result (Option ((ℕ × ℕ) × Vport)) → S → Result (Unit {0}) × S
  dispatch_event (ok (Option.some ((cmd, dpid), vport))) s =
      if cmd == ovs_vport_cmd_new
      then consumer.vport_created dpid vport s
      else if cmd == ovs_vport_cmd_del
      then consumer.vport_deleted dpid vport s
      else (ok tt, s)
  dispatch_event (ok none) s = (ok tt, s)
  dispatch_event (err e) s = (err e, s)
  dispatch_event panic s = (panic, s)
  dispatch_event wild s = (wild, s)
  dispatch_event out_of_fuel s = (out_of_fuel, s)

  unfoldable pub handle_vport_event : Dpif → ℕ → NlMsgParser → S → Result (Unit {0}) × S
  unfolding vport_event
  handle_vport_event dpif ifindex msg s = dispatch_event (vport_event dpif ifindex msg) s

  unfoldable pub consume_vport_events : Dpif → ℕ → List Received → S → Outcome S
  unfolding consume handle_vport_event
  consume_vport_events dpif ifindex received s =
      consume consumer.on_error (handle_vport_event dpif ifindex) received s
