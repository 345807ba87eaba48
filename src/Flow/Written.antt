-- ===== src/Flow/Written.antt =====
-- What the parts of a flow write, and that it is read back.
use go_odp.Prelude.{ℕ, ◌≡◌, ◌≢◌, [], ◌∷◌, none, some, ok, err, unknown_action, length, false, arith}
use go_odp.Format.{encode, nested}
use go_odp.Format.Optional.{attribute, length-nested-le}
use go_odp.Builder.{NlMsgBuilder, put_nested_attrs}
use go_odp.Builder.Emits.{Emits, append_to, put_nested_attrs-Emits}
use go_odp.Tunnel.{
  TunnelAttrs, TunnelAttrsPresence, IsTunnelAttrs, to_nl_attrs, parse_tunnel_attrs_data,
}
use go_odp.Tunnel.Encoding.{tunnel_attributes, to_nl_attrs-Emits, tunnel_attributes-IsWithin}
use go_odp.Tunnel.RoundTrip.{kept, seen, parse_tunnel_attrs_data-nested}
use go_odp.Flow.Key.{FlowKey, type_id, put_key_nl_attr, put_mask_nl_attr}
use go_odp.Flow.Key.Encoding.{
  key_bytes, mask_bytes, IsWritable, put_key_nl_attr-Emits, put_mask_nl_attr-lem,
}
use go_odp.Flow.Key.RoundTrip.{IsParsable, parse-key_bytes}
use go_odp.Flow.Parse.{parser_for}
use go_odp.Flow.Action.{Action, set_unknown, SetUnknownAction, action_to_nl_attr}
use go_odp.Flow.Action.Encoding.{IsAction, action_attribute, action_to_nl_attr-Emits}
use go_odp.Flow.Action.RoundTrip.{parse_action-set_unknown_attribute}
use go_odp.Flow.Spec.{parse_action}
use go_odp.Flow.Spec.RoundTrip.{IsReadable, read_action, parse_action-readable}

-- A nested attribute into which the present tunnel attributes are written holds bytes that
-- parseTunnelAttrsData reads back: the values that are present, zeros for the others, and which are
-- present, where a flag that is false counts as absent.
pub parse_tunnel_attrs_data-to_nl_attrs :
    (typ : ℕ) (ta : TunnelAttrs) (p : TunnelAttrsPresence)
    → IsTunnelAttrs ta
    → Emits
        (put_nested_attrs typ (to_nl_attrs ta p))
        (attribute typ (nested (tunnel_attributes ta p)) ∷ [])
      × (parse_tunnel_attrs_data (nested (tunnel_attributes ta p)) ≡ ok (kept ta p, seen ta p))
parse_tunnel_attrs_data-to_nl_attrs typ ta p h = (
  put_nested_attrs-Emits typ (to_nl_attrs ta p) (tunnel_attributes ta p)
      (omega (
        arith,
        length-nested-le (tunnel_attributes ta p),
        (tunnel_attributes-IsWithin ta p h).bounded,
      ))
      (to_nl_attrs-Emits ta p h),
  parse_tunnel_attrs_data-nested ta p h,
)

-- Let a flow key have a mask, fit its attributes, and be of a type whose parser makes such keys: a blob
-- key of a type and a size of the table, an unknown key of no type of the table that is not marked as
-- exact, an in-port key matched exactly, a tunnel key with zeros where its mask is zero. Then it writes
-- one attribute for its key and one for its mask, without an error, and the parser of its type gives
-- the key back from the two values.
pub parse-put_key_nl_attr :
    (k : FlowKey) (msg : NlMsgBuilder)
    → IsWritable k
    → IsParsable k
    → Emits (put_key_nl_attr k) (attribute (type_id k) (key_bytes k) ∷ [])
      × (put_mask_nl_attr k msg ≡ (
        append_to msg (encode (length msg.buf) (attribute (type_id k) (mask_bytes k) ∷ [])),
        none,
      ))
      × ((parser_for (type_id k)).parse (type_id k) (some (key_bytes k)) (some (mask_bytes k)) false
          ≡ ok k)
parse-put_key_nl_attr k msg w p =
    (put_key_nl_attr-Emits k w, put_mask_nl_attr-lem k w msg, parse-key_bytes k w p)

-- An output or set-tunnel action writes one attribute, and is parsed from it, a tunnel with the
-- attributes that are present.
pub parse_action-action_to_nl_attr :
    (a : Action)
    → IsAction a
    → IsReadable a
    → Emits (action_to_nl_attr a) (action_attribute a ∷ [])
      × (parse_action (action_attribute a) ≡ ok (read_action a))
parse_action-action_to_nl_attr a h r = (action_to_nl_attr-Emits a h, parse_action-readable a h r)

-- A SetUnknownAction writes one attribute of its own type, without the set action around it, so that
-- it is refused as an unknown action when it is parsed, unless its type is that of an output or set
-- action.
pub parse_action-set_unknown :
    (a : SetUnknownAction)
    → IsAction (set_unknown a)
    → a.typ ≢ 1
    → a.typ ≢ 3
    → Emits (action_to_nl_attr (set_unknown a)) (attribute a.typ a.bytes ∷ [])
      × (parse_action (attribute a.typ a.bytes) ≡ err (unknown_action a.typ))
parse_action-set_unknown a h k j =
    (action_to_nl_attr-Emits (set_unknown a) h, parse_action-set_unknown_attribute a k j)
