-- ===== src/Flow/Action.antt =====
-- odp/flow.go: actions.
pub mod Encoding
pub mod RoundTrip
use go_odp.Prelude.{
  ℕ, ◌==◌, List, [], ◌∷◌, ◌++◌, Bool, true, false, ◌&&◌, Option, none, some, Result, ok, err,
  wrong_length, ◌>>=◌, if◌then◌else◌, ltb, length, bytes_equal,
}
use go_odp.Prelude.Map.{lookup}
use go_odp.Memory.{uint32_at}
use go_odp.Builder.{NlMsgBuilder, put_slice_attr, put_uint32_attr, put_nested_attrs}
use go_odp.Attrs.{Attrs, parse_nested_attrs}
use go_odp.Tunnel.{
  TunnelAttrs, TunnelAttrsPresence, to_nl_attrs, parse_tunnel_attrs, parse_tunnel_attrs_data,
  no_tunnel_attrs, nothing_present,
}
use go_odp.Flow.Key.{ovs_key_attr_tunnel, tunnel_attrs_equal}

pub record SetTunnelAction : Type 0 where
  pub attrs : TunnelAttrs
  pub present : TunnelAttrsPresence

pub record SetUnknownAction : Type 0 where
  pub typ : ℕ
  pub bytes : List ℕ

-- The types that implement the interface Action; an OutputAction is a vport number.
pub data Action : Type 0 where
  output : ℕ → Action
  set_tunnel : SetTunnelAction → Action
  set_unknown : SetUnknownAction → Action

abbrev pub ovs_action_attr_output : ℕ
ovs_action_attr_output = 1

abbrev pub ovs_action_attr_set : ℕ
ovs_action_attr_set = 3

unfoldable pub action_type_id : Action → ℕ
action_type_id (output vport) = ovs_action_attr_output
action_type_id (set_tunnel a) = ovs_action_attr_set
action_type_id (set_unknown a) = a.typ

-- The presence flags of Df and Csum are those attributes themselves.
unfoldable pub action_to_nl_attr : Action → NlMsgBuilder → NlMsgBuilder
unfolding put_uint32_attr put_nested_attrs to_nl_attrs put_slice_attr
action_to_nl_attr (output vport) = put_uint32_attr ovs_action_attr_output vport
action_to_nl_attr (set_tunnel ta) =
    let shown = record ta.present { df = ta.attrs.df; csum = ta.attrs.csum } in
    put_nested_attrs ovs_action_attr_set
      (put_nested_attrs ovs_key_attr_tunnel (to_nl_attrs ta.attrs shown))
action_to_nl_attr (set_unknown a) = put_slice_attr a.typ a.bytes

-- As in the code, Present is not compared.
unfoldable pub action_equals : Action → Action → Bool
unfolding tunnel_attrs_equal bytes_equal
action_equals (output a) (output b) = a == b
action_equals (set_tunnel a) (set_tunnel b) = tunnel_attrs_equal a.attrs b.attrs
action_equals (set_unknown a) (set_unknown b) = a.typ == b.typ && bytes_equal a.bytes b.bytes
action_equals _ _ = false

unfoldable pub parse_output_action : ℕ → List ℕ → Result Action
unfolding uint32_at
parse_output_action typ bytes =
    let read : Result Action = uint32_at bytes [] 0 >>= λ n. ok (output n) in
    if ltb (length bytes) 4 then err (wrong_length typ (length bytes)) else read

abbrev make_set_tunnel_action : Result (TunnelAttrs × TunnelAttrsPresence) → Result Action
make_set_tunnel_action parsed = do
  (ta, present) ← parsed
  ok (set_tunnel (record { attrs = ta; present = present }))

-- The length of the value of a type; a nil slice has length 0.
abbrev len_of : ℕ → Attrs → ℕ
len_of typ attrs = elim (lookup typ attrs) [ none ↦ 0 | some val ↦ length val ]

-- `range` over the map, left in its first round.
abbrev first_attr : Attrs → Action
first_attr [] = set_unknown (record { typ = 0; bytes = [] })
first_attr ((typ, val) ∷ attrs) = set_unknown (record { typ = typ; bytes = val })

-- The types 2 and 13 are OVS_TUNNEL_KEY_ATTR_IPV4_DST and OVS_TUNNEL_KEY_ATTR_IPV6_DST.
unfoldable pub set_action_of : Attrs → Result Action
unfolding lookup parse_tunnel_attrs parse_tunnel_attrs_data
set_action_of attrs =
    if len_of 2 attrs == 4
    then make_set_tunnel_action (parse_tunnel_attrs attrs)
    else if len_of 13 attrs == 16
    then make_set_tunnel_action (parse_tunnel_attrs attrs)
    else elim (lookup ovs_key_attr_tunnel attrs) [
      | some adata ↦ make_set_tunnel_action (parse_tunnel_attrs_data adata)
      | none ↦ ok (first_attr attrs)
    ]

unfoldable pub parse_set_action : ℕ → List ℕ → Result Action
unfolding parse_nested_attrs set_action_of
parse_set_action typ bytes = parse_nested_attrs bytes >>= set_action_of
