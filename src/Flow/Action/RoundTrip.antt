-- ===== src/Flow/Action/RoundTrip.antt =====
-- Actions that are written and parsed again.
use go_odp.Prelude.{ℕ, ◌<◌, ◌≡◌, ◌≢◌, [], ◌∷◌, ok, err, unknown_action, ==_false}
use go_odp.Prelude.Map.{lookup, insert}
use go_odp.Memory.Codec.{uint32_at-bytes}
use go_odp.Attrs.RoundTrip.{parse_nested_attrs-nested}
use go_odp.Tunnel.{IsTunnelAttrs}
use go_odp.Tunnel.RoundTrip.{kept, seen, parse_tunnel_attrs_data-nested}
use go_odp.Flow.Action.{
  output, set_tunnel, set_unknown, SetTunnelAction, SetUnknownAction, parse_output_action,
  parse_set_action,
}
use go_odp.Flow.Action.Encoding.{
  shown, tunnel_attribute, action_attribute, tunnel_attribute-IsWithin,
}
use go_odp.Flow.Spec.{parse_action}

-- What is read of a SetTunnelAction.
abbrev pub read_back : SetTunnelAction → SetTunnelAction
read_back ta = record { attrs = kept ta.attrs (shown ta); present = seen ta.attrs (shown ta) }

pub parse_action-output :
    (vport : ℕ)
    → vport < 4294967296
    → parse_action (action_attribute (output vport)) ≡ ok (output vport)
unfolding parse_action parse_output_action
parse_action-output vport h = rw (uint32_at-bytes vport h)

pub parse_action-set_tunnel :
    (ta : SetTunnelAction)
    → IsTunnelAttrs ta.attrs
    → parse_action (action_attribute (set_tunnel ta)) ≡ ok (set_tunnel (read_back ta))
unfolding parse_action parse_set_action insert lookup
parse_action-set_tunnel ta h =
    rw
      (parse_nested_attrs-nested (tunnel_attribute ta ∷ [])
        (tunnel_attribute-IsWithin ta h).all_fit)
      (rw (parse_tunnel_attrs_data-nested ta.attrs (shown ta) h))

-- A SetUnknownAction is written without the OVS_ACTION_ATTR_SET around it.
pub parse_action-set_unknown_attribute :
    (a : SetUnknownAction)
    → a.typ ≢ 1
    → a.typ ≢ 3
    → parse_action (action_attribute (set_unknown a)) ≡ err (unknown_action a.typ)
unfolding parse_action
parse_action-set_unknown_attribute a h k = rw (==_false a.typ 1 h, ==_false a.typ 3 k)
