-- ===== src/Flow/Spec.antt =====
-- odp/flow.go: FlowSpec, the keys and the actions of a flow, and FlowInfo.
pub mod RoundTrip
pub mod DfOnly
use go_odp.Prelude.{
  ℕ, ◌==◌, List, [], ◌∷◌, ◌++◌, Bool, true, false, not, ◌&&◌, Option, none, some, Result, ok, err,
  Error, unknown_action, ◌>>=◌, if◌then◌else◌, length,
}
use go_odp.Prelude.Map.{lookup, insert}
use go_odp.Memory.{read_u64, uint64_at}
use go_odp.Format.{Attr}
use go_odp.Builder.{NlMsgBuilder, put_nested_attrs}
use go_odp.Attrs.{Attrs, get_nested_attrs, get_ordered_attrs, get_fixed_bytes, get_optional_uint64}
use go_odp.Flow.Key.{FlowKey, type_id}
use go_odp.Flow.Keys.{FlowKeys, keys_equal, keys_to_nl_attrs, ovs_flow_attr_key, ovs_flow_attr_mask}
use go_odp.Flow.Parse.{parse_flow_keys}
use go_odp.Flow.Action.{
  Action, action_to_nl_attr, action_equals, parse_output_action, parse_set_action,
  ovs_action_attr_output, ovs_action_attr_set,
}

pub record FlowSpec : Type 0 where
  pub flow_keys : FlowKeys
  pub actions : List Action

unfoldable pub new_flow_spec : FlowSpec
new_flow_spec = record { flow_keys = []; actions = [] }

-- FlowKeys.Add and FlowSpec.AddKey.
unfoldable pub add_key : FlowKey → FlowSpec → FlowSpec
unfolding insert type_id
add_key k f = record f { flow_keys = insert (type_id k) k f.flow_keys }

unfoldable pub add_actions : List Action → FlowSpec → FlowSpec
add_actions more f = record f { actions = f.actions ++ more }

unfoldable pub add_action : Action → FlowSpec → FlowSpec
unfolding add_actions
add_action a f = record f { actions = f.actions ++ (a ∷ []) }

unfoldable pub put_actions : List Action → NlMsgBuilder → NlMsgBuilder
unfolding action_to_nl_attr
put_actions [] msg = msg
put_actions (a ∷ actions) msg = put_actions actions (action_to_nl_attr a msg)

abbrev pub ovs_flow_attr_actions : ℕ
ovs_flow_attr_actions = 2

-- The actions, unless the keys ended in an error.
abbrev put_spec_actions : List Action → NlMsgBuilder × Option Error → NlMsgBuilder × Option Error
put_spec_actions actions (msg, none) =
    (put_nested_attrs ovs_flow_attr_actions (put_actions actions) msg, none)
put_spec_actions actions (msg, some failure) = (msg, some failure)

unfoldable pub spec_to_nl_attrs : FlowSpec → NlMsgBuilder → NlMsgBuilder × Option Error
spec_to_nl_attrs f msg = put_spec_actions f.actions (keys_to_nl_attrs f.flow_keys msg)

-- The lists have one length.
unfoldable pub actions_equal : List Action → List Action → Bool
unfolding action_equals
actions_equal (a ∷ as_rest) (b ∷ bs_rest) = action_equals a b && actions_equal as_rest bs_rest
actions_equal _ _ = true

unfoldable pub spec_equals : FlowSpec → FlowSpec → Bool
unfolding keys_equal actions_equal
spec_equals a b =
    keys_equal a.flow_keys b.flow_keys
    && length a.actions == length b.actions
    && actions_equal a.actions b.actions

-- The table actionParsers.
unfoldable pub parse_action : Attr → Result Action
unfolding parse_output_action parse_set_action
parse_action attr =
    if attr.typ == ovs_action_attr_output
    then parse_output_action attr.typ attr.val
    else if attr.typ == ovs_action_attr_set
    then parse_set_action attr.typ attr.val
    else err (unknown_action attr.typ)

unfoldable pub parse_actions : List Attr → Result (List Action)
unfolding parse_action
parse_actions [] = ok []
parse_actions (attr ∷ attrs) = do
  action ← parse_action attr
  actions ← parse_actions attrs
  ok (action ∷ actions)

-- The key attribute is mandatory, so the first map is never nil.
abbrev or_empty : Option Attrs → Attrs
or_empty none = []
or_empty (some attrs) = attrs

unfoldable pub parse_flow_spec : Attrs → Result FlowSpec
parse_flow_spec attrs = do
  keys ← get_nested_attrs ovs_flow_attr_key false attrs
  masks ← get_nested_attrs ovs_flow_attr_mask true attrs
  flow_keys ← parse_flow_keys (or_empty keys) masks
  actattrs ← get_ordered_attrs ovs_flow_attr_actions attrs
  actions ← parse_actions actattrs
  ok (record { flow_keys = flow_keys; actions = actions })

pub record FlowInfo : Type 0 where
  pub spec : FlowSpec
  pub packets : ℕ
  pub bytes : ℕ
  pub used : ℕ

-- OvsFlowStats is two uint64s.
abbrev pub stats_of : Option (List ℕ) → Result (ℕ × ℕ)
stats_of none = ok (0, 0)
stats_of (some bytes) = do
  packets ← uint64_at bytes [] 0
  count ← uint64_at bytes [] 8
  ok (packets, count)

unfoldable pub parse_flow_info : Attrs → Result FlowInfo
unfolding parse_flow_spec get_fixed_bytes get_optional_uint64 uint64_at
parse_flow_info attrs = do
  spec ← parse_flow_spec attrs
  stats_bytes ← get_fixed_bytes 3 16 true attrs
  (packets, bytes) ← stats_of stats_bytes
  (used, used_present) ← get_optional_uint64 5 attrs
  ok (record {
    spec = spec;
    packets = packets;
    bytes = bytes;
    used = if used_present then used else 0;
  })
