-- ===== src/System/Sockets.antt =====
-- odp/netlink.go: OpenNetlinkSocket, PortId and Close. The receive buffer is that of Session.antt.
use go_odp.Prelude.{ℕ, Option, none, some, not_netlink}
use go_odp.System.{
  System, Call, give, fail, then_call, unless_success, value_of, done_of, Sockaddr,
  sockaddr_netlink, other_sockaddr,
}

pub record NetlinkSocket : Type 0 where
  pub fd : Option ℕ
  pub pid : ℕ

unfoldable pub port_id : NetlinkSocket → ℕ
port_id s = s.pid

abbrev pub af_netlink : ℕ
af_netlink = 16

abbrev pub sock_raw : ℕ
sock_raw = 3

abbrev pub sol_netlink : ℕ
sol_netlink = 270

abbrev pub netlink_no_enobufs : ℕ
netlink_no_enobufs = 5

module _ (S : System) where
  abbrev pub socket_at : ℕ → Sockaddr → Call S NetlinkSocket
  socket_at fd (sockaddr_netlink pid) = give S (record { fd = some fd; pid = pid })
  socket_at fd other_sockaddr = fail S not_netlink

  -- What OpenNetlinkSocket does with the new descriptor.
  abbrev pub set_up : ℕ → Call S NetlinkSocket
  set_up fd =
      then_call S (λ s. done_of S (S.setsockopt_int (some fd) sol_netlink netlink_no_enobufs 1 s))
        (λ _.
          then_call S (λ s. done_of S (S.bind fd (sockaddr_netlink 0) s))
            (λ _. then_call S (λ s. value_of S (S.getsockname fd s)) (socket_at fd)))

  unfoldable pub open_netlink_socket : ℕ → Call S NetlinkSocket
  open_netlink_socket protocol =
      then_call S (λ s. value_of S (S.socket af_netlink sock_raw protocol s))
        (λ fd. unless_success S (λ s. (S.close fd s).1) (set_up fd))

  abbrev pub close_fd : NetlinkSocket → Option ℕ → S.State → (Option ℕ × NetlinkSocket) × S.State
  close_fd sock none s = ((none, sock), s)
  close_fd sock (some fd) s =
      let (errno, after) = S.close fd s in ((errno, record sock { fd = none }), after)

  -- The errno of Close, if any, and the socket and the system behind it.
  unfoldable pub close_socket : NetlinkSocket → S.State → (Option ℕ × NetlinkSocket) × S.State
  close_socket sock s = close_fd sock sock.fd s
