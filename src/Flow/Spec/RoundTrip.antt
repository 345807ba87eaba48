-- ===== src/Flow/Spec/RoundTrip.antt =====
-- A flow that CreateFlow writes, parsed as EnumerateFlows does.
use go_odp.Prelude.{
  some, ℕ, ◌<◌, ◌≡◌, refl, ap, ◌∙◌, List, [], ◌∷◌, ◌++◌, map, true, false, Option, none, Result, ok,
  ◌>>=◌, length, All, arith, Error,
}
use go_odp.Prelude.Map.{lookup, insert}
use go_odp.Format.{Attr, Fits, encode, nested}
use go_odp.Format.Optional.{attribute, total, length-nested-le}
use go_odp.Builder.{NlMsgBuilder}
use go_odp.Builder.Emits.{Emits, Emits-none, Emits-then, append_to, put_nested_attrs-Emits}
use go_odp.Parser.{NlMsgParser}
use go_odp.Attrs.{Attrs, take_attrs}
use go_odp.Attrs.RoundTrip.{
  attrs_of, take_attrs-encode, get_nested_attrs-nested, get_ordered_attrs-nested,
}
use go_odp.Flow.Key.Encoding.{key_bytes, mask_bytes, IsWritable, key_bytes-Fits, mask_bytes-Fits}
use go_odp.Flow.Key.RoundTrip.{IsParsable}
use go_odp.Flow.Keys.Encoding.{
  all_written, key_attribute, mask_attribute, flow_key_attributes, IsEncodable,
  keys_to_nl_attrs-lem,
}
use go_odp.Flow.Keys.RoundTrip.{by_type, Distinct, attrs_of-by_type, parse_flow_keys-by_type}
use go_odp.Flow.Action.{Action, output, set_tunnel, set_unknown, action_to_nl_attr}
use go_odp.Flow.Action.Encoding.{
  IsAction, action_attribute, action_attribute-Fits, action_to_nl_attr-Emits,
}
use go_odp.Flow.Action.RoundTrip.{read_back, parse_action-output, parse_action-set_tunnel}
use go_odp.Flow.Spec.{
  FlowSpec, put_actions, spec_to_nl_attrs, parse_action, parse_actions, parse_flow_spec,
  ovs_flow_attr_actions,
}

-- The actions that parseFlowSpec can read back.
abbrev pub IsReadable : Action → Type 0
IsReadable (output vport) = Unit {0}
IsReadable (set_tunnel ta) = Unit {0}
IsReadable (set_unknown a) = ⊥

abbrev pub read_action : Action → Action
read_action (output vport) = output vport
read_action (set_tunnel ta) = set_tunnel (read_back ta)
read_action (set_unknown a) = set_unknown a

pub record IsFlow (f : FlowSpec) : Type 0 where
  pub encodable : IsEncodable f.flow_keys
  pub writable : All IsWritable (all_written f.flow_keys)
  pub parsable : All IsParsable (all_written f.flow_keys)
  pub distinct : Distinct (all_written f.flow_keys)
  pub actions_valid : All IsAction f.actions
  pub actions_readable : All IsReadable f.actions
  pub actions_fit : total (map action_attribute f.actions) < 65529

abbrev pub actions_attribute : List Action → Attr
actions_attribute actions = attribute ovs_flow_attr_actions (nested (map action_attribute actions))

abbrev pub flow_attributes : FlowSpec → List Attr
flow_attributes f = flow_key_attributes f.flow_keys ++ (actions_attribute f.actions ∷ [])

-- The flow that is read: the keys that are not ignored, with the ethernet key that is mandatory.
abbrev pub read_spec : FlowSpec → FlowSpec
read_spec f = record {
  flow_keys = by_type (λ k. k) (all_written f.flow_keys);
  actions = map read_action f.actions;
}

pub put_actions-Emits :
    (actions : List Action)
    → All IsAction actions
    → Emits (put_actions actions) (map action_attribute actions)
unfolding put_actions
put_actions-Emits [] h = Emits-none
put_actions-Emits (a ∷ actions) h =
    Emits-then {f = action_to_nl_attr a} {g = put_actions actions} (action_attribute a ∷ [])
      (map action_attribute actions) (action_to_nl_attr-Emits a h.0) (put_actions-Emits actions h.1)

pub parse_action-readable :
    (a : Action)
    → IsAction a
    → IsReadable a
    → parse_action (action_attribute a) ≡ ok (read_action a)
parse_action-readable (output vport) h r = parse_action-output vport h
parse_action-readable (set_tunnel ta) h r = parse_action-set_tunnel ta h
parse_action-readable (set_unknown a) h r = absurd r

parse_actions-readable :
    (actions : List Action)
    → All IsAction actions
    → All IsReadable actions
    → parse_actions (map action_attribute actions) ≡ ok (map read_action actions)
unfolding parse_actions
parse_actions-readable [] h r = refl
parse_actions-readable (a ∷ actions) h r =
    rw (parse_action-readable a h.0 r.0, parse_actions-readable actions h.1 r.1)

All-map :
    {A : Type 0} (P : A → Type 0) (f : A → Attr)
    → ((a : A) → P a → Fits (f a))
    → (l : List A) → All P l
    → All Fits (map f l)
All-map P f fits [] h = tt
All-map P f fits (a ∷ l) h = (fits a h.0, All-map P f fits l h.1)

module _ (f : FlowSpec) (h : IsFlow f) where
  pub spec_to_nl_attrs-lem :
      (msg : NlMsgBuilder)
      → spec_to_nl_attrs f msg ≡ (append_to msg (encode (length msg.buf) (flow_attributes f)), none)
  unfolding spec_to_nl_attrs
  spec_to_nl_attrs-lem msg =
      let actions = map action_attribute f.actions in
      let keys = flow_key_attributes f.flow_keys in
      let keyed = append_to msg (encode (length msg.buf) keys) in
      let whole =
        put_nested_attrs-Emits 2 (put_actions f.actions) actions
          (omega (arith, length-nested-le actions, h.actions_fit))
          (put_actions-Emits f.actions h.actions_valid) in
      rw (keys_to_nl_attrs-lem f.flow_keys h.encodable msg) (
        ap {B = NlMsgBuilder × Option Error} (λ m. (m, none))
          (whole keyed
            ∙ Emits-then {f = λ m. append_to m (encode (length m.buf) keys)}
                {g = λ m. append_to m (encode (length m.buf) (actions_attribute f.actions ∷ []))}
                keys (actions_attribute f.actions ∷ []) (λ m. refl) (λ m. refl) msg))

  keys_Fits : All Fits (map key_attribute (all_written f.flow_keys))
  keys_Fits = All-map IsWritable key_attribute key_bytes-Fits (all_written f.flow_keys) h.writable

  masks_Fits : All Fits (map mask_attribute (all_written f.flow_keys))
  masks_Fits =
      All-map IsWritable mask_attribute mask_bytes-Fits (all_written f.flow_keys) h.writable

  actions_Fits : All Fits (map action_attribute f.actions)
  actions_Fits = All-map IsAction action_attribute action_attribute-Fits f.actions h.actions_valid

  -- The attributes of the flow, wherever they stand in the map.
  pub parse_flow_spec-found :
      (attrs : Attrs)
      → lookup 1 attrs ≡ some (nested (map key_attribute (all_written f.flow_keys)))
      → lookup 7 attrs ≡ some (nested (map mask_attribute (all_written f.flow_keys)))
      → lookup 2 attrs ≡ some (nested (map action_attribute f.actions))
      → parse_flow_spec attrs ≡ ok (read_spec f)
  unfolding parse_flow_spec
  parse_flow_spec-found attrs keys_are masks_are actions_are =
      rw
        (
          get_nested_attrs-nested 1 false (map key_attribute (all_written f.flow_keys)) attrs
              keys_Fits keys_are,
          get_nested_attrs-nested 7 true (map mask_attribute (all_written f.flow_keys)) attrs
              masks_Fits masks_are,
          get_ordered_attrs-nested 2 (map action_attribute f.actions) attrs actions_Fits
              actions_are,
        )
        (rw (
          attrs_of-by_type key_bytes (all_written f.flow_keys) h.distinct,
          attrs_of-by_type mask_bytes (all_written f.flow_keys) h.distinct,
          parse_flow_keys-by_type (all_written f.flow_keys) h.writable h.parsable h.distinct,
          parse_actions-readable f.actions h.actions_valid h.actions_readable,
        ))

  pub parse_flow_spec-attributes : parse_flow_spec (attrs_of (flow_attributes f)) ≡ ok (read_spec f)
  unfolding insert lookup
  parse_flow_spec-attributes = parse_flow_spec-found (attrs_of (flow_attributes f)) refl refl refl

attribute-Fits :
    (typ : ℕ) (attrs : List Attr)
    → typ < 65536
    → total attrs < 65529
    → Fits (attribute typ (nested attrs))
attribute-Fits typ attrs ht h = record {
  len_fits = omega (arith, length-nested-le attrs);
  typ_fits = ht;
}

pub flow_attributes-Fits : (f : FlowSpec) → IsFlow f → All Fits (flow_attributes f)
flow_attributes-Fits f h =
    let keys = map key_attribute (all_written f.flow_keys) in
    let masks = map mask_attribute (all_written f.flow_keys) in
    let actions = map action_attribute f.actions in
    (
      attribute-Fits 1 keys (omega arith) h.encodable.keys_fit,
      (
        attribute-Fits 7 masks (omega arith) h.encodable.masks_fit,
        (attribute-Fits 2 actions (omega arith) h.actions_fit, tt),
      ),
    )

-- What parseFlowMsg does behind the headers, and parseFlowSpec, on the bytes from `pos` on.
abbrev pub parse_flow_at : List ℕ → List ℕ → ℕ → Result FlowSpec
parse_flow_at bytes tail pos =
    take_attrs (record { data_bytes = bytes; tail = tail; pos = pos })
    >>= λ (p : Attrs × NlMsgParser). parse_flow_spec p.0

-- Let a flow's keys that are written be of distinct types, each of a type whose parser makes such keys
-- and with a mask, an in-port key matched exactly and a tunnel key zero where its mask is; let it have
-- no SetUnknownAction, and let its keys, masks and actions fit their attributes. Then writing it behind
-- any headers reports no error, and the bytes from there on are parsed to the same flow: the keys that
-- are not ignored, an ethernet key if there was none, and the actions in their order, with the
-- attributes of a tunnel that are present.
pub parse_flow_spec-spec_to_nl_attrs :
    (f : FlowSpec) (msg : NlMsgBuilder) (tail : List ℕ)
    → IsFlow f
    → ((spec_to_nl_attrs f msg).1 ≡ none)
      × (parse_flow_at (spec_to_nl_attrs f msg).0.buf tail (length msg.buf) ≡ ok (read_spec f))
parse_flow_spec-spec_to_nl_attrs f msg tail h =
    let (end, e) = take_attrs-encode (flow_attributes f) msg.buf tail (flow_attributes-Fits f h) in
    rw (spec_to_nl_attrs-lem f h msg) (refl, rw e (parse_flow_spec-attributes f h))
