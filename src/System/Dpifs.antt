-- ===== src/System/Dpifs.antt =====
-- odp/dpif.go and odp/datapath.go: a dpif and a datapath handle with their socket. What passes over a
-- socket during a call is that of Family.antt and the modules of the requests.
use go_odp.Prelude.{
  ℕ, List, [], ◌∷◌, Bool, true, false, Option, Result, ok, err, panic, wild, out_of_fuel, zero, suc,
  inl, inr, ◌⊎◌, if◌then◌else◌,
}
use go_odp.Dpif.{Dpif, DatapathHandle}
use go_odp.Family.{GenlFamily, Loader, Loaded, ended, no_end, new_dpif}
use go_odp.System.{System, Call, give, then_call}
use go_odp.System.Sockets.{NetlinkSocket, port_id, open_netlink_socket, close_socket}

pub record OpenDpif : Type 0 where
  pub sock : NetlinkSocket
  pub families : ℕ → GenlFamily

pub record OpenDatapath : Type 0 where
  pub dpif : OpenDpif
  pub ifindex : ℕ

-- What a request over the socket needs of the dpif and of the handle.
abbrev pub dpif_of : OpenDpif → Dpif
dpif_of dpif = record { families = λ i. (dpif.families i).id }

abbrev pub handle_behind : OpenDatapath → DatapathHandle
handle_behind dp = record { dpif = dpif_of dp.dpif; ifindex = dp.ifindex }

-- DatapathHandle.ID.
unfoldable pub datapath_id : OpenDatapath → ℕ
datapath_id dp = dp.ifindex

-- The array of the families, where an entry that is not filled in is zero.
unfoldable pub family_at : List GenlFamily → ℕ → GenlFamily
family_at [] i = record { id = 0; mc_groups = [] }
family_at (family ∷ families) zero = family
family_at (family ∷ families) (suc i) = family_at families i

abbrev pub netlink_generic : ℕ
netlink_generic = 16

abbrev pub af_inet : ℕ
af_inet = 2

abbrev pub sock_dgram : ℕ
sock_dgram = 2

abbrev pub siocgifindex : ℕ
siocgifindex = 0x8933

-- The bytes of openvswitch, the name in the request.
abbrev pub module_name : List ℕ
module_name = b'o' ∷ b'p' ∷ b'e' ∷ b'n' ∷ b'v' ∷ b's' ∷ b'w' ∷ b'i' ∷ b't' ∷ b'c' ∷ b'h' ∷ []

module _ (S : System) where
  -- The system calls of loadOpenvswitchModule, and `triedLoadOpenvswitchModule`.
  abbrev pub provoke_load : (ℕ ⊎ ℕ) × S.State → S.State
  provoke_load (inl errno, s) = s
  provoke_load (inr fd, s) = (S.close fd (S.ioctl fd siocgifindex module_name s)).1

  unfoldable pub provoke_openvswitch_module : Bool → S.State → Bool × S.State
  provoke_openvswitch_module tried s =
      if tried then (true, s) else (true, provoke_load (S.socket af_inet sock_dgram 0 s))

  -- What the lookups leave of the system, from `tried` before them and behind them: where they call
  -- loadOpenvswitchModule, its system calls. What they find on the socket is given before.
  abbrev pub loading : Bool → Bool → S.State → S.State
  loading tried true s = (provoke_openvswitch_module tried s).1
  loading tried false s = s

  abbrev pub dpif_found :
      Loader
      → NetlinkSocket
      → S.State
      → Loaded (List GenlFamily)
      → (Result OpenDpif × S.State) × Loader
  dpif_found before sock s (ended (ok families) next l) = (
    (
      ok (record { sock = sock; families = family_at families }),
      S.leave sock.fd next (loading before.tried l.tried s),
    ),
    l,
  )
  dpif_found before sock s (ended (err e) next l) =
      ((err e, (close_socket S sock (S.leave sock.fd next (loading before.tried l.tried s))).1), l)
  dpif_found before sock s (ended panic next l) =
      ((panic, S.leave sock.fd next (loading before.tried l.tried s)), l)
  dpif_found before sock s (ended wild next l) =
      ((wild, S.leave sock.fd next (loading before.tried l.tried s)), l)
  dpif_found before sock s (ended out_of_fuel next l) =
      ((out_of_fuel, S.leave sock.fd next (loading before.tried l.tried s)), l)
  dpif_found before sock s (no_end l) = ((out_of_fuel, loading before.tried l.tried s), l)

  abbrev pub dpif_with :
      Loader → Result NetlinkSocket × S.State → (Result OpenDpif × S.State) × Loader
  dpif_with l (ok sock, s) = dpif_found l sock s (new_dpif (S.socket_of sock.fd (port_id sock) s) l)
  dpif_with l (err e, s) = ((err e, s), l)
  dpif_with l (panic, s) = ((panic, s), l)
  dpif_with l (wild, s) = ((wild, s), l)
  dpif_with l (out_of_fuel, s) = ((out_of_fuel, s), l)

  -- NewDpif: the socket, and the lookups of Family.antt over it.
  unfoldable pub open_dpif : Loader → S.State → (Result OpenDpif × S.State) × Loader
  open_dpif l s = dpif_with l (open_netlink_socket S netlink_generic s)

  unfoldable pub reopen : OpenDpif → Call S OpenDpif
  reopen dpif =
      then_call S (open_netlink_socket S netlink_generic)
        (λ sock. give S (record { sock = sock; families = dpif.families }))

  unfoldable pub close_dpif : OpenDpif → S.State → (Option ℕ × OpenDpif) × S.State
  close_dpif dpif s =
      let ((errno, sock), after) = close_socket S dpif.sock s in
      ((errno, record dpif { sock = sock }), after)

  -- The method Cancel of cancelableDpif.
  unfoldable pub cancel : OpenDpif → S.State → (Option ℕ × OpenDpif) × S.State
  cancel dpif s = close_dpif dpif s

  unfoldable pub reopen_datapath : OpenDatapath → Call S OpenDatapath
  reopen_datapath dp =
      then_call S (reopen dp.dpif) (λ dpif. give S (record { dpif = dpif; ifindex = dp.ifindex }))
