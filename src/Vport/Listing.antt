-- ===== src/Vport/Listing.antt =====
-- The names of vports, and the list of a datapath's vports.
use go_odp.Prelude.{
  ℕ, ◌<◌, ◌≡◌, ◌≢◌, refl, ap, ◌∙◌, List, [], ◌∷◌, ◌++◌, true, none, some, map, ok, panic, ◌⊎◌, inl,
  inr, All, arith,
}
use go_odp.Prelude.Map.{lookup}
use go_odp.Memory.{u32_bytes}
use go_odp.Builder.{put_uint32_attr}
use go_odp.Attrs.{get, get_uint16_opt, get_uint16, get_nested_attrs}
use go_odp.Attrs.RoundTrip.{attrs_of, get-none}
use go_odp.Attrs.Getters.{get_uint32-found, get_string-found}
use go_odp.Session.{Received, returned}
use go_odp.Session.Packets.{Message}
use go_odp.Session.Responses.{IsErrorMessage}
use go_odp.Dpif.{Dpif, DatapathHandle, cmd_accepted}
use go_odp.Dpif.Exchange.{Socket, answered}
use go_odp.Dpif.Messages.{OvsMessage, message_of, IsOvsMessage, behind_headers}
use go_odp.Dpif.Replies.{check_datapath_headers-message}
use go_odp.Dpif.Asks.{Gets, datagram_rest, ask-reply, ask-error}
use go_odp.Dpif.Events.{Datagram}
use go_odp.Dpif.Dumps.{
  GetsDump, all_messages, Takes, append_value, add_all-append_value, dump-add_all,
}
use go_odp.Vport.{
  VportSpec, Vport, vport_name, vport_of, parse_vport, parse_udp_vport_spec, spec_of,
}
use go_odp.Vport.Requests.{
  vport_request, lookup_vport, lookup_vport_name, named, numbered, show_answer,
  is_no_such_vport_error, vport_consumer, enumerate_vports,
}
use go_odp.Vport.RoundTrip.{vport_of-Describes, parse_vport-message}
use go_odp.Vport.Calls.{IsVportMessage, lookup_vport-reply}

-- LookupVportName on a reply that describes a vport of the datapath gives the vport's name.
pub lookup_vport_name-reply :
    (dp : DatapathHandle) (sock : Socket) (m : OvsMessage) (ms : List Message) (spare : ℕ)
    (rest : List Received) (id : ℕ) (spec : VportSpec)
    → Gets sock (message_of m) ms spare rest
    → IsVportMessage dp.dpif m id spec
    → m.ifindex ≡ dp.ifindex
    → cmd_accepted m.cmd (some 3) (some 1) ≡ true
    → (lookup_vport_name dp id sock).1 ≡ answered (ok (named (vport_name spec))) rest
unfolding lookup_vport_name
lookup_vport_name-reply dp sock m ms spare rest id spec arrives h own accepted =
    ap (show_answer dp id)
      (lookup_vport-reply dp sock m ms spare rest id spec arrives h id own accepted)

-- Where the kernel has no such vport, LookupVportName gives the numbers of the datapath and the vport.
pub lookup_vport_name-missing :
    (dp : DatapathHandle) (sock : Socket) (m : Message) (ms : List Message) (spare : ℕ)
    (rest : List Received) (id : ℕ)
    → Gets sock m ms spare rest
    → IsErrorMessage 19 m
    → (lookup_vport_name dp id sock).1 ≡ answered (ok (numbered dp.ifindex id)) rest
unfolding lookup_vport_name lookup_vport is_no_such_vport_error
lookup_vport_name-missing dp sock m ms spare rest id arrives failure = ap (show_answer dp id) (
    ask-error sock (put_uint32_attr 1 id (vport_request dp.dpif 9 3 dp.ifindex)) _ m ms spare rest
      19 arrives failure (omega arith))

-- A reply that names a vxlan or geneve vport and has no options.
pub record IsPortless (dpif : Dpif) (m : OvsMessage) (id typ : ℕ) (name : List ℕ) : Type 0 where
  pub valid : IsOvsMessage m
  pub family : m.typ ≡ dpif.families 1
  pub no_error : m.typ ≢ 2
  pub id_fits : id < 4294967296
  pub udp_type : (typ ≡ 4) ⊎ (typ ≡ 5)
  pub port_no : lookup 1 (attrs_of m.attrs) ≡ some (u32_bytes id)
  pub type_is : lookup 2 (attrs_of m.attrs) ≡ some (u32_bytes typ)
  pub name_is : lookup 3 (attrs_of m.attrs) ≡ some (name ++ (0 ∷ []))
  pub no_options : lookup 4 (attrs_of m.attrs) ≡ none

spec_of-portless : (typ : ℕ) (name : List ℕ) → (typ ≡ 4) ⊎ (typ ≡ 5) → spec_of typ name [] ≡ ok none
unfolding spec_of parse_udp_vport_spec get_uint16 get_uint16_opt get lookup
spec_of-portless typ name (inl e) = rw e refl
spec_of-portless typ name (inr e) = rw e refl

udp_type-fits : (typ : ℕ) → (typ ≡ 4) ⊎ (typ ≡ 5) → typ < 4294967296
udp_type-fits typ (inl e) = omega arith
udp_type-fits typ (inr e) = omega arith

vport_of-portless :
    (dpif : Dpif) (m : OvsMessage) (id typ : ℕ) (name : List ℕ)
    → IsPortless dpif m id typ name
    → vport_of (attrs_of m.attrs) ≡ ok (record { id = id; spec = none })
unfolding vport_of get_nested_attrs
vport_of-portless dpif m id typ name h =
    let attrs = attrs_of m.attrs in
    rw
      (
        get_uint32-found 1 attrs id h.id_fits h.port_no,
        get_uint32-found 2 attrs typ (udp_type-fits typ h.udp_type) h.type_is,
        get_string-found 3 attrs name h.name_is,
        get-none 4 attrs h.no_options,
        spec_of-portless typ name h.udp_type,
      )
      refl

lookup_vport-portless :
    (dp : DatapathHandle) (sock : Socket) (m : OvsMessage) (ms : List Message) (spare : ℕ)
    (rest : List Received) (id typ : ℕ) (name : List ℕ)
    → Gets sock (message_of m) ms spare rest
    → IsPortless dp.dpif m id typ name
    → m.ifindex ≡ dp.ifindex
    → cmd_accepted m.cmd (some 3) (some 1) ≡ true
    → (lookup_vport dp id sock).1 ≡ answered (ok (record { id = id; spec = none })) rest
unfolding lookup_vport
lookup_vport-portless dp sock m ms spare rest id typ name arrives h own accepted =
    let behind = datagram_rest (message_of m) ms spare in
    ask-reply sock (put_uint32_attr 1 id (vport_request dp.dpif 9 3 dp.ifindex)) _ (message_of m) ms
      spare rest arrives h.no_error
    ∙ rw
        (check_datapath_headers-message dp 1 (some 3) [] m behind h.valid h.family accepted refl
          own)
        (rw
          (parse_vport-message [] m behind h.valid refl, vport_of-portless dp.dpif m id typ name h)
          refl)

-- On a reply with a vxlan or geneve vport of the datapath whose options are missing, parseVport
-- reports no error and leaves the spec nil, so that LookupVportName panics.
pub lookup_vport_name-portless :
    (dp : DatapathHandle) (sock : Socket) (m : OvsMessage) (ms : List Message) (spare : ℕ)
    (rest : List Received) (id typ : ℕ) (name : List ℕ)
    → Gets sock (message_of m) ms spare rest
    → IsPortless dp.dpif m id typ name
    → m.ifindex ≡ dp.ifindex
    → cmd_accepted m.cmd (some 3) (some 1) ≡ true
    → (parse_vport (behind_headers [] m (datagram_rest (message_of m) ms spare))
        ≡ ok (record { id = id; spec = none }))
      × ((lookup_vport_name dp id sock).1 ≡ answered panic rest)
unfolding lookup_vport_name
lookup_vport_name-portless dp sock m ms spare rest id typ name arrives h own accepted = (
  parse_vport-message [] m (datagram_rest (message_of m) ms spare) h.valid refl
      ∙ vport_of-portless dp.dpif m id typ name h,
  ap (show_answer dp id)
      (lookup_vport-portless dp sock m ms spare rest id typ name arrives h own accepted),
)

-- A message that describes a vport of the datapath.
pub record IsListed (dp : DatapathHandle) (shown : OvsMessage → ℕ × VportSpec) (m : OvsMessage)
    : Type 0 where
  pub vport : IsVportMessage dp.dpif m (shown m).0 (shown m).1
  pub own : m.ifindex ≡ dp.ifindex
  pub accepted : cmd_accepted m.cmd (some 3) (some 1) ≡ true

abbrev pub vport_at : (OvsMessage → ℕ × VportSpec) → OvsMessage → Vport
vport_at shown m = record { id = (shown m).0; spec = some (shown m).1 }

vport_consumer-Takes :
    (dp : DatapathHandle) (shown : OvsMessage → ℕ × VportSpec) (ms : List OvsMessage)
    → All (IsListed dp shown) ms
    → All (Takes (vport_consumer dp) (append_value (vport_at shown))) ms
unfolding vport_consumer
vport_consumer-Takes dp shown [] h = tt
vport_consumer-Takes dp shown (m ∷ ms) h = (
  λ pre behind res words.
      rw
        (
          check_datapath_headers-message dp 1 (some 3) pre m behind h.0.vport.valid h.0.vport.family
              h.0.accepted words h.0.own,
          parse_vport-message pre m behind h.0.vport.valid words,
          vport_of-Describes (attrs_of m.attrs) (shown m).0 (shown m).1 h.0.vport.spec_valid
              h.0.vport.described,
        )
        refl,
  vport_consumer-Takes dp shown ms h.1,
)

-- EnumerateVports, on a dump of messages that describe vports of the datapath, in any number of
-- datagrams and with the end of the dump in the last one, returns these vports in the order of the
-- dump.
pub enumerate_vports-dump :
    (dp : DatapathHandle) (sock : Socket) (shown : OvsMessage → ℕ × VportSpec) (ds : List Datagram)
    (ms : List OvsMessage) (last : Message) (spare : ℕ) (rest : List Received)
    → GetsDump sock ds ms last spare rest
    → All (IsListed dp shown) (all_messages ds ms)
    → (enumerate_vports dp sock).1
      ≡ returned (ok tt) (map (vport_at shown) (all_messages ds ms)) rest
unfolding enumerate_vports
enumerate_vports-dump dp sock shown ds ms last spare rest dumped h =
    dump-add_all (vport_consumer dp) (append_value (vport_at shown)) sock
      (vport_request dp.dpif 0x301 3 dp.ifindex) ds ms last spare rest [] dumped
      (vport_consumer-Takes dp shown (all_messages ds ms) h)
    ∙ ap (λ (l : List Vport). returned (ok tt) l rest)
        (add_all-append_value (vport_at shown) (all_messages ds ms) [])
