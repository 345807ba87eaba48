-- ===== src/System/Sessions.antt =====
-- The descriptors of the calls that open several sockets: NewDpif of odp/dpif.go and ConsumeMisses of
-- odp/packet.go.
use go_odp.Prelude.{
  Bool, true, false, ◌⊎◌, inl, inr, ℕ, ◌≡◌, refl, ◌∙◌, List, ◌∷◌, Option, none, some, Result, ok,
  err, panic, wild, out_of_fuel,
}
use go_odp.System.{System, IsLawful, released, released}
use go_odp.System.Leaves.{
  Ends, Leaves, Moves, then_call-Moves, unless_success-Moves, close-opened_second, give-Moves,
  close-opened,
}
use go_odp.Family.{Loader, Loaded, ended, no_end, GenlFamily, new_dpif}
use go_odp.System.Dpifs.{
  af_inet, sock_dgram, siocgifindex, module_name, provoke_load, provoke_openvswitch_module, loading,
  OpenDatapath, dpif_found, dpif_with, open_dpif, close_dpif, cancel, netlink_generic,
}
use go_odp.System.Consumers.{close_behind, listen, start_misses, end_misses, cancelled, MissSession}
use go_odp.System.Sockets.{NetlinkSocket, port_id, close_fd, close_socket}
use go_odp.System.Descriptors.{
  with_fd, open_netlink_socket-Moves, close_socket-opened, reopen_datapath-Moves,
  close_behind-opened, start_vport_events-Moves, list_vports-Moves, set_all_ports-Moves,
}

-- The descriptors of a session, the last one first.
abbrev pub of_session : MissSession → List ℕ → List ℕ
of_session m before =
    with_fd m.events.dpif.sock.fd (with_fd m.misses.dpif.sock.fd (with_fd m.dp.dpif.sock.fd before))

module _ {S : System} (law : IsLawful S) where
  listen-Moves :
      (orig dp miss_dp events : OpenDatapath) (before : List ℕ)
      → let now =
          with_fd events.dpif.sock.fd
            (with_fd miss_dp.dpif.sock.fd (with_fd dp.dpif.sock.fd before)) in
        Moves law now now (λ m. of_session m before) (listen S orig dp miss_dp events)
  listen-Moves orig dp miss_dp events before =
      then_call-Moves law (λ _. _) (list_vports-Moves law orig _)
        λ vports.
          then_call-Moves law (λ _. _) (set_all_ports-Moves law dp miss_dp vports _)
            λ c. give-Moves law _

  start_misses-Moves :
      (orig : OpenDatapath) (before : List ℕ)
      → Moves law before before (λ m. of_session m before) (start_misses S orig)
  unfolding start_misses cancel
  start_misses-Moves orig before =
      then_call-Moves law (λ d. with_fd d.dpif.sock.fd before)
        (reopen_datapath-Moves law orig before)
        λ dp.
          let first = with_fd dp.dpif.sock.fd before in
          unless_success-Moves law first (close_behind-opened law dp.dpif before) (
            then_call-Moves law (λ d. with_fd d.dpif.sock.fd first)
              (reopen_datapath-Moves law orig first)
              λ miss_dp.
                let second = with_fd miss_dp.dpif.sock.fd first in
                unless_success-Moves law second (close_behind-opened law miss_dp.dpif first) (
                  then_call-Moves law (λ d. with_fd d.dpif.sock.fd second)
                    (start_vport_events-Moves law orig second)
                    λ events.
                      unless_success-Moves law (with_fd events.dpif.sock.fd second)
                        (close_behind-opened law events.dpif second)
                        (listen-Moves orig dp miss_dp events before)))

  -- The result of a released call is that of the call.
  released-Leaves :
      {A : Type 0} (before : List ℕ) (fine : A → List ℕ) (release : A → S.State → S.State)
      (end : Result A × S.State)
      → Ends law before fine end
      → ((a : A) (t : S.State) → law.opened t ≡ fine a → law.opened (release a t) ≡ before)
      → Leaves before (λ _. before) end.0 (law.opened (released S release end).1)
  released-Leaves before fine release (ok a, t) h takes = takes a t h
  released-Leaves before fine release (err e, t) h takes = h
  released-Leaves before fine release (panic, t) h takes = tt
  released-Leaves before fine release (wild, t) h takes = tt
  released-Leaves before fine release (out_of_fuel, t) h takes = tt

  provoke_load-opened :
      (before : List ℕ) (end : (ℕ ⊎ ℕ) × S.State)
      → ((fd : ℕ) → end.0 ≡ inr fd → law.opened end.1 ≡ fd ∷ before)
      → ((errno : ℕ) → end.0 ≡ inl errno → law.opened end.1 ≡ before)
      → law.opened (provoke_load S end) ≡ before
  provoke_load-opened before (inl errno, s) opens fails = fails errno refl
  provoke_load-opened before (inr fd, s) opens fails =
      close-opened law fd before (S.ioctl fd siocgifindex module_name s)
        (law.opened-ioctl fd siocgifindex module_name s ∙ opens fd refl)

  -- The try to load the kernel module closes the socket that it opens.
  provoke_openvswitch_module-opened :
      (tried : Bool) (s : S.State)
      → law.opened (provoke_openvswitch_module S tried s).1 ≡ law.opened s
  unfolding provoke_openvswitch_module
  provoke_openvswitch_module-opened true s = refl
  provoke_openvswitch_module-opened false s =
      provoke_load-opened (law.opened s) (S.socket af_inet sock_dgram 0 s)
        (law.opened-socket af_inet sock_dgram 0 s) (law.opened-no_socket af_inet sock_dgram 0 s)

  loading-opened :
      (tried after : Bool) (s : S.State) → law.opened (loading S tried after s) ≡ law.opened s
  loading-opened tried true s = provoke_openvswitch_module-opened tried s
  loading-opened tried false s = refl

  dpif_found-Ends :
      (first : Loader) (sock : NetlinkSocket) (before : List ℕ) (s : S.State)
      (end : Loaded (List GenlFamily))
      → law.opened s ≡ with_fd sock.fd before
      → Ends law before (λ d. with_fd d.sock.fd before) (dpif_found S first sock s end).0
  dpif_found-Ends first sock before s (ended (ok families) next l) h =
      law.opened-leave sock.fd next _ ∙ loading-opened first.tried l.tried s ∙ h
  dpif_found-Ends first sock before s (ended (err e) next l) h =
      close_socket-opened law sock before (S.leave sock.fd next (loading S first.tried l.tried s))
        (law.opened-leave sock.fd next _ ∙ loading-opened first.tried l.tried s ∙ h)
  dpif_found-Ends first sock before s (ended panic next l) h = tt
  dpif_found-Ends first sock before s (ended wild next l) h = tt
  dpif_found-Ends first sock before s (ended out_of_fuel next l) h = tt
  dpif_found-Ends first sock before s (no_end l) h = tt

  dpif_with-Ends :
      (l : Loader) (before : List ℕ) (end : Result NetlinkSocket × S.State)
      → Ends law before (λ sock. with_fd sock.fd before) end
      → Ends law before (λ d. with_fd d.sock.fd before) (dpif_with S l end).0
  dpif_with-Ends l before (ok sock, s) h =
      dpif_found-Ends l sock before s (new_dpif (S.socket_of sock.fd (port_id sock) s) l) h
  dpif_with-Ends l before (err e, s) h = h
  dpif_with-Ends l before (panic, s) h = tt
  dpif_with-Ends l before (wild, s) h = tt
  dpif_with-Ends l before (out_of_fuel, s) h = tt

  -- On a system whose calls open and close what they are documented to, and however the calls and
  -- the lookups of the families end: where NewDpif returns an error, the descriptors that were open
  -- before it are open, and no other; where it returns a dpif, that of its socket is open too, and
  -- closing the dpif leaves those that were open before.
  pub open_dpif-Leaves :
      (l : Loader) (s : S.State)
      → Leaves
          (law.opened s)
          (λ d. with_fd d.sock.fd (law.opened s))
          (open_dpif S l s).0.0
          (law.opened (open_dpif S l s).0.1)
        × Leaves
            (law.opened s)
            (λ d. law.opened s)
            (open_dpif S l s).0.0
            (law.opened (released S (close_behind S) (open_dpif S l s).0).1)
  unfolding open_dpif
  open_dpif-Leaves l s = (
    ends,
    released-Leaves (law.opened s) (λ d. with_fd d.sock.fd (law.opened s)) (close_behind S)
        (open_dpif S l s).0 ends (λ d t h. close_behind-opened law d (law.opened s) t h),
  )
    where
      ends : Ends law (law.opened s) (λ d. with_fd d.sock.fd (law.opened s)) (open_dpif S l s).0
      ends =
          dpif_with-Ends l (law.opened s) _
            ((open_netlink_socket-Moves law netlink_generic (law.opened s)).ends s refl)

  close_fd-second :
      (sock : NetlinkSocket) (last fd : Option ℕ) (before : List ℕ) (s : S.State)
      → law.opened s ≡ with_fd last (with_fd fd before)
      → law.opened (close_fd S sock fd s).1 ≡ with_fd last before
  close_fd-second sock last none before s h = h
  close_fd-second sock none (some fd) before s h = close-opened law fd before s h
  close_fd-second sock (some last) (some fd) before s h = close-opened_second law fd last before s h

  -- The end of a session: the caller cancels the misses, and consumeMisses then ends.
  cancelled-opened :
      (m : MissSession) (before : List ℕ) (t : S.State)
      → law.opened t ≡ of_session m before
      → law.opened (cancelled S m t) ≡ before
  unfolding end_misses cancel close_dpif close_socket
  cancelled-opened m before t h =
      let first = with_fd m.dp.dpif.sock.fd before in
      let cancelled =
        close_fd-second m.misses.dpif.sock m.events.dpif.sock.fd m.misses.dpif.sock.fd first t h in
      let events_closed = close_behind-opened law m.events.dpif first _ cancelled in
      close_behind-opened law m.dp.dpif before _ events_closed

  -- On a system whose calls open and close what they are documented to, and however the calls, the
  -- enumeration and the requests of ConsumeMisses end: where it returns an error, the descriptors that
  -- were open before it are open, and no other; where it succeeds, those of its three sockets are open
  -- too, and once the caller has cancelled the misses and consumeMisses has ended, those that were open
  -- before.
  pub start_misses-Leaves :
      (orig : OpenDatapath) (s : S.State)
      → Leaves
          (law.opened s)
          (λ m. of_session m (law.opened s))
          (start_misses S orig s).0
          (law.opened (start_misses S orig s).1)
        × Leaves
            (law.opened s)
            (λ m. law.opened s)
            (start_misses S orig s).0
            (law.opened (released S (cancelled S) (start_misses S orig s)).1)
  start_misses-Leaves orig s = (
    ends,
    released-Leaves (law.opened s) (λ m. of_session m (law.opened s)) (cancelled S)
        (start_misses S orig s) ends (λ m t h. cancelled-opened m (law.opened s) t h),
  )
    where
      ends : Ends law (law.opened s) (λ m. of_session m (law.opened s)) (start_misses S orig s)
      ends = (start_misses-Moves orig (law.opened s)).ends s refl
