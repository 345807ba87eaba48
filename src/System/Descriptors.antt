-- ===== src/System/Descriptors.antt =====
-- The descriptors that are open behind the calls.
use go_odp.Prelude.{ℕ, ◌≡◌, ◌∙◌, List, ◌∷◌, Option, none, some, ok, ◌>>=◌}
use go_odp.System.{System, IsLawful, Sockaddr, sockaddr_netlink, other_sockaddr}
use go_odp.System.Leaves.{
  Ends, Moves, then_call-Moves, unless_success-Moves, socket-Moves, setsockopt_int-Moves,
  bind-Moves, getsockname-Moves, give-Moves, fail-Moves, close-opened, result_call-Moves,
  result_call-Ends,
}
use go_odp.Vport.Requests.{enumerate_vports}
use go_odp.Packet.{set_ports}
use go_odp.Family.{socket_behind}
use go_odp.Dpif.Exchange.{Socket, Exchange}
use go_odp.Session.{returned, waiting}
use go_odp.Vport.{Vport}
use go_odp.System.Dpifs.{
  OpenDpif, OpenDatapath, handle_behind, reopen, reopen_datapath, close_dpif, netlink_generic,
}
use go_odp.System.Consumers.{
  close_behind, start_vport_events, vports_listed, list_vports, new_consumer, set_all_ports,
  netlink_add_membership,
}
use go_odp.System.Sockets.{
  NetlinkSocket, port_id, socket_at, set_up, open_netlink_socket, close_fd, close_socket,
  af_netlink, sock_raw, sol_netlink, netlink_no_enobufs,
}

-- The descriptor of a socket, in front of others.
abbrev pub with_fd : Option ℕ → List ℕ → List ℕ
with_fd none before = before
with_fd (some fd) before = fd ∷ before

module _ {S : System} (law : IsLawful S) where
  pub socket_at-Moves :
      (fd : ℕ) (addr : Sockaddr) (before : List ℕ)
      → Moves law (fd ∷ before) (fd ∷ before) (λ sock. with_fd sock.fd before) (socket_at S fd addr)
  socket_at-Moves fd (sockaddr_netlink pid) before = give-Moves law _
  socket_at-Moves fd other_sockaddr before = fail-Moves law _

  pub set_up-Moves :
      (fd : ℕ) (before : List ℕ)
      → Moves law (fd ∷ before) (fd ∷ before) (λ sock. with_fd sock.fd before) (set_up S fd)
  set_up-Moves fd before =
      then_call-Moves law (λ _. fd ∷ before)
        (setsockopt_int-Moves law (some fd) sol_netlink netlink_no_enobufs 1)
        λ _.
          then_call-Moves law (λ _. fd ∷ before) (bind-Moves law fd (sockaddr_netlink 0))
            λ _.
              then_call-Moves law (λ _. fd ∷ before) (getsockname-Moves law fd)
                λ addr. socket_at-Moves fd addr before

  pub open_netlink_socket-Moves :
      (protocol : ℕ) (before : List ℕ)
      → Moves law before before (λ sock. with_fd sock.fd before) (open_netlink_socket S protocol)
  unfolding open_netlink_socket
  open_netlink_socket-Moves protocol before =
      then_call-Moves law (λ fd. fd ∷ before) (socket-Moves law af_netlink sock_raw protocol)
        λ fd.
          unless_success-Moves law (fd ∷ before) (close-opened law fd before)
            (set_up-Moves fd before)

  pub close_fd-opened :
      (sock : NetlinkSocket) (fd : Option ℕ) (before : List ℕ) (s : S.State)
      → law.opened s ≡ with_fd fd before
      → law.opened (close_fd S sock fd s).1 ≡ before
  close_fd-opened sock none before s h = h
  close_fd-opened sock (some fd) before s h = close-opened law fd before s h

  pub close_socket-opened :
      (sock : NetlinkSocket) (before : List ℕ) (s : S.State)
      → law.opened s ≡ with_fd sock.fd before
      → law.opened (close_socket S sock s).1 ≡ before
  unfolding close_socket
  close_socket-opened sock before s h = close_fd-opened sock sock.fd before s h

  pub reopen-Moves :
      (dpif : OpenDpif) (before : List ℕ)
      → Moves law before before (λ d. with_fd d.sock.fd before) (reopen S dpif)
  unfolding reopen
  reopen-Moves dpif before =
      then_call-Moves law (λ sock. with_fd sock.fd before)
        (open_netlink_socket-Moves netlink_generic before) λ sock. give-Moves law _

  pub reopen_datapath-Moves :
      (dp : OpenDatapath) (before : List ℕ)
      → Moves law before before (λ d. with_fd d.dpif.sock.fd before) (reopen_datapath S dp)
  unfolding reopen_datapath
  reopen_datapath-Moves dp before =
      then_call-Moves law (λ d. with_fd d.sock.fd before) (reopen-Moves dp.dpif before)
        λ dpif. give-Moves law _

  pub close_behind-opened :
      (dpif : OpenDpif) (before : List ℕ) (s : S.State)
      → law.opened s ≡ with_fd dpif.sock.fd before
      → law.opened (close_behind S dpif s) ≡ before
  unfolding close_dpif
  close_behind-opened dpif before s h = close_socket-opened dpif.sock before s h

  pub start_vport_events-Moves :
      (dp : OpenDatapath) (before : List ℕ)
      → Moves law before before (λ d. with_fd d.dpif.sock.fd before) (start_vport_events S dp)
  unfolding start_vport_events
  start_vport_events-Moves dp before =
      then_call-Moves law (λ _. before) (result_call-Moves law _)
        λ group.
          then_call-Moves law (λ d. with_fd d.sock.fd before) (reopen-Moves dp.dpif before)
            λ d.
              unless_success-Moves law (with_fd d.sock.fd before) (close_behind-opened d before) (
                then_call-Moves law (λ _. with_fd d.sock.fd before)
                  (setsockopt_int-Moves law d.sock.fd sol_netlink netlink_add_membership group)
                  λ _. give-Moves law _)

  vports_listed-Ends :
      (dp : OpenDatapath) (now : List ℕ) (s : S.State) (sock : Socket) (e : Exchange (List Vport))
      → law.opened s ≡ now
      → Ends law now (λ _. now) (vports_listed S dp s sock e)
  vports_listed-Ends dp now s sock (sent, returned r vports rest) h =
      result_call-Ends law now (r >>= λ _. ok vports)
        (S.leave dp.dpif.sock.fd (socket_behind sock rest) s)
        (law.opened-leave dp.dpif.sock.fd (socket_behind sock rest) s ∙ h)
  vports_listed-Ends dp now s sock (sent, waiting vports) h = tt

  pub list_vports-Moves :
      (dp : OpenDatapath) (now : List ℕ) → Moves law now now (λ _. now) (list_vports S dp)
  unfolding list_vports
  list_vports-Moves dp now = record {
    ends = λ s h.
        let sock = S.socket_of dp.dpif.sock.fd (port_id dp.dpif.sock) s in
        vports_listed-Ends dp now s sock (enumerate_vports (handle_behind dp) sock) h;
  }

  pub set_all_ports-Moves :
      (dp miss_dp : OpenDatapath) (vports : List Vport) (now : List ℕ)
      → Moves law now now (λ _. now) (set_all_ports S dp miss_dp vports)
  unfolding set_all_ports
  set_all_ports-Moves dp miss_dp vports now = record {
    ends = λ s h.
        let sock = S.socket_of dp.dpif.sock.fd (port_id dp.dpif.sock) s in
        let (r, c) = set_ports vports (new_consumer S dp miss_dp sock) in
        result_call-Ends law now (r >>= λ _. ok c) (S.leave dp.dpif.sock.fd c.sock s)
          (law.opened-leave dp.dpif.sock.fd c.sock s ∙ h);
  }
