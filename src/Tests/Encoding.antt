-- ===== src/Tests/Encoding.antt =====
-- The theorems about the encoding of flows, keys, tunnels and actions at the example flow.
use go_odp.Prelude.Map.{lookup}
use go_odp.Prelude.{
  ℕ, ◌+◌, ◌≡◌, refl, List, [], ◌∷◌, true, false, none, some, ok, err, arith, unknown_action,
}
use go_odp.Builder.{NlMsgBuilder, put_nested_attrs}
use go_odp.Builder.Emits.{append_to, Emits}
use go_odp.Format.{encode, nested}
use go_odp.Format.Optional.{attribute}
use go_odp.Tunnel.{present, parse_tunnel_attrs_data, to_nl_attrs}
use go_odp.Tunnel.Encoding.{tunnel_attributes}
use go_odp.Tunnel.RoundTrip.{kept, seen}
use go_odp.Flow.Blob.{new_ethernet_flow_key, set_eth_src}
use go_odp.Flow.Key.{FlowKey, ethernet, unknown, type_id, equals, put_key_nl_attr, put_mask_nl_attr}
use go_odp.Flow.Key.Encoding.{key_bytes, mask_bytes}
use go_odp.Flow.Key.Oddities.{equals-unknown_asymmetric}
use go_odp.Flow.Spec.DfOnly.{df_only, spec_to_nl_attrs-df_only}
use go_odp.Flow.Keys.Encoding.{all_written}
use go_odp.Flow.Keys.RoundTrip.{by_type, parse_flow_keys-by_type}
use go_odp.Flow.Parse.{parser_for, parse_flow_keys}
use go_odp.Flow.Action.{set_tunnel, set_unknown, SetUnknownAction, action_to_nl_attr}
use go_odp.Flow.Action.Encoding.{IsAction, action_attribute}
use go_odp.Flow.Spec.{new_flow_spec, add_key, spec_to_nl_attrs, parse_action}
use go_odp.Flow.Spec.RoundTrip.{
  read_spec, read_action, parse_flow_at, parse_flow_spec-spec_to_nl_attrs,
}
use go_odp.Flow.Written.{
  parse_tunnel_attrs_data-to_nl_attrs, parse-put_key_nl_attr, parse_action-action_to_nl_attr,
  parse_action-set_unknown,
}
use go_odp.Dpif.Exchange.{Socket}
use go_odp.Flow.Requests.{create_flow}
use go_odp.Flow.Requests.RoundTrip.{parse_sent, create_flow-parse_sent}
use go_odp.Dpif.{DatapathHandle}
use go_odp.Tests.Flows.{
  address, flow, tunnel_key, tunnel_action, flow-valid, tunnel_key-valid, tunnel_action-valid,
  ethernet_key-valid,
}

abbrev datapath : DatapathHandle
datapath = record { dpif = record { families = λ family. family + 24 }; ifindex = 6 }

abbrev socket : Socket
socket = record { port_id = 4711; last_seq = 0; send_failed = none; received = [] }

create_flow-parse_sent_example :
    (bytes : List ℕ) × ((create_flow datapath flow socket).0 ≡ some bytes)
    × (parse_sent datapath bytes [] ≡ ok (read_spec flow))
create_flow-parse_sent_example =
    create_flow-parse_sent datapath flow socket [] (omega arith) (omega arith) flow-valid

abbrev headers : NlMsgBuilder
headers = record { buf = 1 ∷ 2 ∷ 3 ∷ 4 ∷ [] }

parse_flow_spec-spec_to_nl_attrs_example :
    ((spec_to_nl_attrs flow headers).1 ≡ none)
    × (parse_flow_at (spec_to_nl_attrs flow headers).0.buf [] 4 ≡ ok (read_spec flow))
parse_flow_spec-spec_to_nl_attrs_example =
    parse_flow_spec-spec_to_nl_attrs flow headers [] flow-valid

parse_flow_keys-by_type_example :
    parse_flow_keys
      (by_type key_bytes (all_written flow.flow_keys))
      (some (by_type mask_bytes (all_written flow.flow_keys)))
    ≡ ok (by_type (λ k. k) (all_written flow.flow_keys))
parse_flow_keys-by_type_example =
    parse_flow_keys-by_type (all_written flow.flow_keys) flow-valid.writable flow-valid.parsable
      flow-valid.distinct

abbrev ethernet_key : FlowKey
ethernet_key = ethernet (set_eth_src address new_ethernet_flow_key)

ethernet_key-IsParsable : type_id ethernet_key ≡ 4
unfolding type_id set_eth_src new_ethernet_flow_key
ethernet_key-IsParsable = refl

parse-put_key_nl_attr_example :
    Emits
      (put_key_nl_attr ethernet_key)
      (attribute (type_id ethernet_key) (key_bytes ethernet_key) ∷ [])
    × (put_mask_nl_attr ethernet_key headers ≡ (
      append_to headers
          (encode 4 (attribute (type_id ethernet_key) (mask_bytes ethernet_key) ∷ [])),
      none,
    ))
    × ((parser_for (type_id ethernet_key)).parse
          (type_id ethernet_key)
          (some (key_bytes ethernet_key))
          (some (mask_bytes ethernet_key))
          false
        ≡ ok ethernet_key)
unfolding type_id
parse-put_key_nl_attr_example =
    parse-put_key_nl_attr ethernet_key headers ethernet_key-valid ethernet_key-IsParsable

parse_tunnel_attrs_data-to_nl_attrs_example :
    Emits
      (put_nested_attrs 16 (to_nl_attrs tunnel_key.key (present tunnel_key.mask)))
      (attribute 16 (nested (tunnel_attributes tunnel_key.key (present tunnel_key.mask))) ∷ [])
    × (parse_tunnel_attrs_data (nested (tunnel_attributes tunnel_key.key (present tunnel_key.mask)))
        ≡ ok (
          kept tunnel_key.key (present tunnel_key.mask),
          seen tunnel_key.key (present tunnel_key.mask),
        ))
parse_tunnel_attrs_data-to_nl_attrs_example =
    parse_tunnel_attrs_data-to_nl_attrs 16 tunnel_key.key (present tunnel_key.mask)
      tunnel_key-valid.key_valid

parse_action-action_to_nl_attr_example :
    Emits
      (action_to_nl_attr (set_tunnel tunnel_action))
      (action_attribute (set_tunnel tunnel_action) ∷ [])
    × (parse_action (action_attribute (set_tunnel tunnel_action))
        ≡ ok (read_action (set_tunnel tunnel_action)))
parse_action-action_to_nl_attr_example =
    parse_action-action_to_nl_attr (set_tunnel tunnel_action) tunnel_action-valid tt

-- A set action on the field 7, as parseSetAction makes it.
abbrev unknown_set : SetUnknownAction
unknown_set = record { typ = 7; bytes = 1 ∷ 2 ∷ [] }

unknown_set-IsAction : IsAction (set_unknown unknown_set)
unknown_set-IsAction = record { len_fits = omega arith; typ_fits = omega arith }

parse_action-set_unknown_example :
    Emits (action_to_nl_attr (set_unknown unknown_set)) (attribute 7 (1 ∷ 2 ∷ []) ∷ [])
    × (parse_action (attribute 7 (1 ∷ 2 ∷ [])) ≡ err (unknown_action 7))
parse_action-set_unknown_example =
    parse_action-set_unknown unknown_set unknown_set-IsAction (λ e. omega arith) (λ e. omega arith)

-- A flow with no keys at all.
spec_to_nl_attrs-df_only_example :
    spec_to_nl_attrs (add_key (df_only true) new_flow_spec) headers
    ≡ spec_to_nl_attrs new_flow_spec headers
unfolding new_flow_spec lookup
spec_to_nl_attrs-df_only_example = spec_to_nl_attrs-df_only true new_flow_spec headers refl

equals-unknown_asymmetric_example :
    (equals
        (unknown (record { typ = 40; key = some (1 ∷ []); mask = none; exact = false }))
        (unknown (record { typ = 40; key = some (1 ∷ []); mask = none; exact = true }))
      ≡ true)
    × (equals
          (unknown (record { typ = 40; key = some (1 ∷ []); mask = none; exact = true }))
          (unknown (record { typ = 40; key = some (1 ∷ []); mask = none; exact = false }))
        ≡ false)
equals-unknown_asymmetric_example = equals-unknown_asymmetric 40 (some (1 ∷ []))
