-- ===== src/Vport/Calls.antt =====
-- The calls on vports, answered by the messages that a kernel sends.
use go_odp.Prelude.{
  ℕ, ◌+◌, ◌<◌, ◌≡◌, ◌≢◌, refl, ◌∙◌, List, [], ◌∷◌, ◌++◌, true, some, ok, length, arith,
}
use go_odp.Memory.{u32_bytes}
use go_odp.Format.{Attr, encode, nested}
use go_odp.Builder.{put_uint32_attr}
use go_odp.Builder.Emits.{Emits, Emits-none, Emits-then, append_to, put_nested_attrs-Emits}
use go_odp.Builder.Values.{put_string_attr-Emits, put_uint32_attr-Emits, put_uint16_attr-Emits}
use go_odp.Attrs.RoundTrip.{attrs_of}
use go_odp.Session.{Received}
use go_odp.Session.Packets.{Message}
use go_odp.Dpif.{Dpif, DatapathHandle, cmd_accepted}
use go_odp.Dpif.Exchange.{Socket, answered}
use go_odp.Dpif.Messages.{OvsMessage, message_of, IsOvsMessage}
use go_odp.Dpif.Replies.{check_nl_msg_headers-message, check_datapath_headers-message}
use go_odp.Dpif.Asks.{Gets, datagram_rest, ask-reply}
use go_odp.Vport.{VportSpec, simple, gre, vxlan, geneve, vport_name, vport_type_id, option_nl_attrs}
use go_odp.Vport.Requests.{vport_request, create_vport_request, create_vport, lookup_vport}
use go_odp.Vport.RoundTrip.{
  IsVportSpec, option_attributes, Describes, vport_of-Describes, parse_vport-message,
}

-- What CreateVport asks for.
abbrev pub create_attributes : VportSpec → List Attr
create_attributes spec =
    record { typ = 3; val = vport_name spec ++ (0 ∷ []) }
    ∷ record { typ = 2; val = u32_bytes (vport_type_id spec) }
    ∷ record { typ = 4; val = nested (option_attributes spec) }
    ∷ record { typ = 5; val = u32_bytes 0 }
    ∷ []

option_nl_attrs-Emits : (spec : VportSpec) → Emits (option_nl_attrs spec) (option_attributes spec)
unfolding option_nl_attrs
option_nl_attrs-Emits (simple name typ shown) = Emits-none
option_nl_attrs-Emits (gre name) = Emits-none
option_nl_attrs-Emits (vxlan u) = put_uint16_attr-Emits 1 u.port
option_nl_attrs-Emits (geneve u) = put_uint16_attr-Emits 1 u.port

options-short : (spec : VportSpec) → 4 + length (nested (option_attributes spec)) < 65536
unfolding encode
options-short (simple name typ shown) = omega arith
options-short (gre name) = omega arith
options-short (vxlan u) = omega arith
options-short (geneve u) = omega arith

-- CreateVport's request has the headers of a vport request, and then the attributes of the spec: its
-- name, its type, its options, and the upcall port 0.
pub create_vport_request-lem :
    (dp : DatapathHandle) (spec : VportSpec)
    → 5 + length (vport_name spec) < 65536
    → create_vport_request dp spec
      ≡ append_to
          (vport_request dp.dpif 9 1 dp.ifindex)
          (encode (length (vport_request dp.dpif 9 1 dp.ifindex).buf) (create_attributes spec))
unfolding create_vport_request
create_vport_request-lem dp spec short =
    Emits-then (record { typ = 3; val = vport_name spec ++ (0 ∷ []) } ∷ []) _
      (put_string_attr-Emits 3 (vport_name spec) short)
      (Emits-then (record { typ = 2; val = u32_bytes (vport_type_id spec) } ∷ []) _
        (put_uint32_attr-Emits 2 (vport_type_id spec))
        (Emits-then (record { typ = 4; val = nested (option_attributes spec) } ∷ [])
          (record { typ = 5; val = u32_bytes 0 } ∷ [])
          (put_nested_attrs-Emits 4 (option_nl_attrs spec) (option_attributes spec)
            (options-short spec) (option_nl_attrs-Emits spec))
          (put_uint32_attr-Emits 5 0)))
      (vport_request dp.dpif 9 1 dp.ifindex)

-- A message of the vport family that describes a vport.
pub record IsVportMessage (dpif : Dpif) (m : OvsMessage) (id : ℕ) (spec : VportSpec) : Type 0 where
  pub valid : IsOvsMessage m
  pub family : m.typ ≡ dpif.families 1
  pub no_error : m.typ ≢ 2
  pub spec_valid : IsVportSpec spec
  pub described : Describes (attrs_of m.attrs) id spec

module _ (dp : DatapathHandle) (sock : Socket) (m : OvsMessage) (ms : List Message) (spare : ℕ)
    (rest : List Received) (id : ℕ) (spec : VportSpec)
    (arrives : Gets sock (message_of m) ms spare rest) (h : IsVportMessage dp.dpif m id spec) where
  -- Where the first message that arrives describes the new vport, under the command NEW, CreateVport
  -- returns the vport's number.
  pub create_vport-reply :
      (asked : VportSpec) → m.cmd ≡ 1 → (create_vport dp asked sock).1 ≡ answered (ok id) rest
  unfolding create_vport
  create_vport-reply asked new =
      let behind = datagram_rest (message_of m) ms spare in
      ask-reply sock (create_vport_request dp asked) _ (message_of m) ms spare rest arrives
        h.no_error
      ∙ rw
          (check_nl_msg_headers-message dp.dpif 1 (some 1) [] m behind h.valid h.family
            (rw new refl) refl)
          (rw
            (
              parse_vport-message [] m behind h.valid refl,
              vport_of-Describes (attrs_of m.attrs) id spec h.spec_valid h.described,
            )
            refl)

  -- LookupVport on a reply that describes a vport of the datapath, under the command GET or, as older
  -- kernels have it, NEW, gives that vport.
  pub lookup_vport-reply :
      (asked : ℕ)
      → m.ifindex ≡ dp.ifindex
      → cmd_accepted m.cmd (some 3) (some 1) ≡ true
      → (lookup_vport dp asked sock).1 ≡ answered (ok (record { id = id; spec = some spec })) rest
  unfolding lookup_vport
  lookup_vport-reply asked own accepted =
      let behind = datagram_rest (message_of m) ms spare in
      ask-reply sock (put_uint32_attr 1 asked (vport_request dp.dpif 9 3 dp.ifindex)) _
        (message_of m) ms spare rest arrives h.no_error
      ∙ rw
          (check_datapath_headers-message dp 1 (some 3) [] m behind h.valid h.family accepted refl
            own)
          (rw
            (
              parse_vport-message [] m behind h.valid refl,
              vport_of-Describes (attrs_of m.attrs) id spec h.spec_valid h.described,
            )
            refl)
