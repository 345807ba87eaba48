-- ===== src/Flow/Action/Encoding.antt =====
-- The attribute that an action writes.
use go_odp.Prelude.{◌<◌, [], ◌∷◌, arith}
use go_odp.Memory.{u32_bytes}
use go_odp.Format.{Attr, Fits, nested}
use go_odp.Format.Optional.{attribute, IsWithin, total, length-nested-le, nested-Fits}
use go_odp.Builder.Emits.{Emits, put_nested_attrs-Emits}
use go_odp.Builder.Values.{put_uint32_attr-Emits, put_slice_attr-Emits}
use go_odp.Tunnel.{TunnelAttrsPresence, IsTunnelAttrs}
use go_odp.Tunnel.Encoding.{tunnel_attributes, to_nl_attrs-Emits, tunnel_attributes-IsWithin}
use go_odp.Flow.Key.{ovs_key_attr_tunnel}
use go_odp.Flow.Action.{
  Action, output, set_tunnel, set_unknown, SetTunnelAction, action_to_nl_attr,
  ovs_action_attr_output, ovs_action_attr_set,
}

-- What Go's types give: a uint32, arrays of their lengths, a uint16; and a value that fits.
abbrev pub IsAction : Action → Type 0
IsAction (output vport) = vport < 4294967296
IsAction (set_tunnel ta) = IsTunnelAttrs ta.attrs
IsAction (set_unknown a) = Fits (attribute a.typ a.bytes)

-- Df and Csum are present where they are set.
abbrev pub shown : SetTunnelAction → TunnelAttrsPresence
shown ta = record ta.present { df = ta.attrs.df; csum = ta.attrs.csum }

abbrev pub tunnel_attribute : SetTunnelAction → Attr
tunnel_attribute ta = attribute ovs_key_attr_tunnel (nested (tunnel_attributes ta.attrs (shown ta)))

abbrev pub action_attribute : Action → Attr
action_attribute (output vport) = attribute ovs_action_attr_output (u32_bytes vport)
action_attribute (set_tunnel ta) = attribute ovs_action_attr_set (nested (tunnel_attribute ta ∷ []))
action_attribute (set_unknown a) = attribute a.typ a.bytes

pub tunnel_attribute-IsWithin :
    (ta : SetTunnelAction) → IsTunnelAttrs ta.attrs → IsWithin 95 (tunnel_attribute ta ∷ [])
unfolding total
tunnel_attribute-IsWithin ta h =
    let within = tunnel_attributes-IsWithin ta.attrs (shown ta) h in
    record {
      all_fit = (
        nested-Fits 85 16 (tunnel_attributes ta.attrs (shown ta)) within (omega arith)
            (omega arith),
        tt,
      );
      bounded =
          omega (arith, length-nested-le (tunnel_attributes ta.attrs (shown ta)), within.bounded);
    }

pub action_attribute-Fits : (a : Action) → IsAction a → Fits (action_attribute a)
action_attribute-Fits (output vport) h = omega arith
action_attribute-Fits (set_tunnel ta) h =
    nested-Fits 95 3 (tunnel_attribute ta ∷ []) (tunnel_attribute-IsWithin ta h) (omega arith)
      (omega arith)
action_attribute-Fits (set_unknown a) h = h

pub action_to_nl_attr-Emits :
    (a : Action) → IsAction a → Emits (action_to_nl_attr a) (action_attribute a ∷ [])
unfolding action_to_nl_attr
action_to_nl_attr-Emits (output vport) h = put_uint32_attr-Emits 1 vport
action_to_nl_attr-Emits (set_tunnel ta) h =
    let inner = (tunnel_attribute-IsWithin ta h).all_fit.0 in
    let outer = action_attribute-Fits (set_tunnel ta) h in
    put_nested_attrs-Emits 3 _ (tunnel_attribute ta ∷ []) (omega (arith, outer.len_fits)) (
      put_nested_attrs-Emits 16 _ (tunnel_attributes ta.attrs (shown ta))
        (omega (arith, inner.len_fits)) (to_nl_attrs-Emits ta.attrs (shown ta) h))
action_to_nl_attr-Emits (set_unknown a) h =
    put_slice_attr-Emits a.typ a.bytes (omega (arith, h.len_fits))
