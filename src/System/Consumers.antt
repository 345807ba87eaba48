-- ===== src/System/Consumers.antt =====
-- odp/vport.go: ConsumeVportEvents, and odp/packet.go: ConsumeMisses and the end of consumeMisses, with
-- the sockets that they open and close. The goroutines that they start are consume_vport_events of
-- Vport/Events.antt and consume_misses of Packet.antt; vport events that arrive while the loop of
-- ConsumeMisses runs are left out here.
use go_odp.Prelude.{ℕ, ◌^◌, ◌-◌, List, [], ◌∷◌, Result, ok, out_of_fuel, ◌>>=◌}
use go_odp.Session.{returned, waiting}
use go_odp.Dpif.{vport_family}
use go_odp.Dpif.Exchange.{Socket, Exchange}
use go_odp.Family.{get_mc_group, socket_behind}
use go_odp.Vport.{Vport}
use go_odp.Vport.Requests.{enumerate_vports}
use go_odp.Packet.{MissVportConsumer, set_ports}
use go_odp.System.{System, Call, give, result_call, then_call, unless_success, done_of}
use go_odp.System.Sockets.{port_id, sol_netlink}
use go_odp.System.Dpifs.{
  OpenDpif, OpenDatapath, handle_behind, reopen, close_dpif, cancel, reopen_datapath,
}

abbrev pub netlink_add_membership : ℕ
netlink_add_membership = 1

-- The bytes of ovs_vport.
abbrev pub vport_group : List ℕ
vport_group = b'o' ∷ b'v' ∷ b's' ∷ b'_' ∷ b'v' ∷ b'p' ∷ b'o' ∷ b'r' ∷ b't' ∷ []

-- What ConsumeMisses leaves running: the dpif that vport events arrive at, the one that misses arrive
-- at, and the consumer with the handle for its requests.
pub record MissSession : Type 0 where
  pub events : OpenDatapath
  pub misses : OpenDatapath
  pub dp : OpenDatapath
  pub consumer : MissVportConsumer

module _ (S : System) where
  abbrev pub close_behind : OpenDpif → S.State → S.State
  close_behind dpif s = (close_dpif S dpif s).1

  -- The dpif that the goroutine consumes from, with the ifindex that it filters by.
  unfoldable pub start_vport_events : OpenDatapath → Call S OpenDatapath
  start_vport_events dp =
      then_call S
        (result_call S (get_mc_group (dp.dpif.families vport_family) vport_family vport_group))
        λ group. then_call S (reopen S dp.dpif) λ dpif. unless_success S (close_behind dpif) (
          then_call S
            (λ s.
              done_of S (S.setsockopt_int dpif.sock.fd sol_netlink netlink_add_membership group s))
            λ _. give S (record { dpif = dpif; ifindex = dp.ifindex }))

  -- Dpif.ConsumeVportEvents: the ifindex is -1.
  unfoldable pub start_all_vport_events : OpenDpif → Call S OpenDatapath
  start_all_vport_events dpif = start_vport_events (record { dpif = dpif; ifindex = 2 ^ 32 - 1 })

  abbrev pub vports_listed :
      OpenDatapath → S.State → Socket → Exchange (List Vport) → Result (List Vport) × S.State
  vports_listed dp s sock (sent, returned r vports rest) =
      (r >>= λ _. ok vports, S.leave dp.dpif.sock.fd (socket_behind sock rest) s)
  vports_listed dp s sock (sent, waiting vports) = (out_of_fuel, s)

  -- EnumerateVports, over the socket of the handle.
  unfoldable pub list_vports : OpenDatapath → Call S (List Vport)
  list_vports dp s =
      let sock = S.socket_of dp.dpif.sock.fd (port_id dp.dpif.sock) s in
      vports_listed dp s sock (enumerate_vports (handle_behind dp) sock)

  -- The consumer that ConsumeMisses makes; its socket is filled in by the call that uses it.
  abbrev pub new_consumer : OpenDatapath → OpenDatapath → Socket → MissVportConsumer
  new_consumer dp miss_dp sock = record {
    dp = handle_behind dp;
    upcall_port_id = port_id miss_dp.dpif.sock;
    vports_done = [];
    sock = sock;
    requests = [];
  }

  -- The loop over the vports.
  unfoldable pub set_all_ports : OpenDatapath → OpenDatapath → List Vport → Call S MissVportConsumer
  set_all_ports dp miss_dp vports s =
      let sock = S.socket_of dp.dpif.sock.fd (port_id dp.dpif.sock) s in
      let (r, c) = set_ports vports (new_consumer dp miss_dp sock) in
      (r >>= λ _. ok c, S.leave dp.dpif.sock.fd c.sock s)

  -- What ConsumeMisses does once its three dpifs are open.
  abbrev pub listen : OpenDatapath → OpenDatapath → OpenDatapath → OpenDatapath → Call S MissSession
  listen orig dp miss_dp events = then_call S (list_vports orig) λ vports.
      then_call S (set_all_ports dp miss_dp vports)
        λ c. give S (record { events = events; misses = miss_dp; dp = dp; consumer = c })

  unfoldable pub start_misses : OpenDatapath → Call S MissSession
  start_misses orig = then_call S (reopen_datapath S orig) λ dp.
      unless_success S (close_behind dp.dpif) (
        then_call S (reopen_datapath S orig) λ miss_dp.
          unless_success S (close_behind miss_dp.dpif) (
            then_call S (start_vport_events orig) λ events.
              unless_success S (λ s. (cancel S events.dpif s).1) (listen orig dp miss_dp events)))

  -- The lines of consumeMisses behind its call of consume.
  unfoldable pub end_misses : MissSession → S.State → S.State
  end_misses m s = close_behind m.dp.dpif (cancel S m.events.dpif s).1

  -- The caller cancels the misses, and consumeMisses then ends.
  abbrev pub cancelled : MissSession → S.State → S.State
  cancelled m s = end_misses m (cancel S m.misses.dpif s).1
