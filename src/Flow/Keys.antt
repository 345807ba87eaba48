-- ===== src/Flow/Keys.antt =====
-- odp/flow.go: FlowKeys, a map of flow keys by type, and its parsers.
pub mod Encoding
pub mod RoundTrip
use go_odp.Prelude.{
  ℕ, ◌==◌, List, [], ◌∷◌, ◌++◌, Bool, true, false, not, ◌&&◌, Option, none, some, Result, ok, err,
  panic, wild, out_of_fuel, Error, ◌>>=◌, if◌then◌else◌, length, replicate,
}
use go_odp.Prelude.Map.{lookup, insert}
use go_odp.Builder.{NlMsgBuilder, put_nested_attrs, put_nested_attrs_with}
use go_odp.Attrs.{Attrs}
use go_odp.Tunnel.{
  TunnelAttrs, TunnelAttrsPresence, no_tunnel_attrs, nothing_present, mask_of,
  parse_tunnel_attrs_data,
}
use go_odp.Flow.Blob.{
  BlobFlowKey, parse_blob_flow_key, parse_in_port_blob, new_ethernet_flow_key,
  ovs_key_attr_ethernet, ovs_key_attr_in_port, sizeof_ovs_key_ethernet,
}
use go_odp.Flow.Key.{
  FlowKey, unknown, blob, in_port, ethernet, tunnel, TunnelFlowKey, type_id, put_key_nl_attr,
  put_mask_nl_attr, ignored, equals, ovs_key_attr_tunnel,
}

abbrev pub FlowKeys : Type 0
FlowKeys = List (ℕ × FlowKey)

-- The body of the first loop of Equals, and of the second.
abbrev pub key_matches : FlowKeys → ℕ → FlowKey → Bool
key_matches b id ak = elim (lookup id b) [ some bk ↦ equals ak bk | none ↦ ignored ak ]

abbrev pub key_known : FlowKeys → ℕ → FlowKey → Bool
key_known a id bk = elim (lookup id a) [ some ak ↦ true | none ↦ ignored bk ]

unfoldable pub all_entries : (ℕ → FlowKey → Bool) → FlowKeys → Bool
all_entries p [] = true
all_entries p ((id, k) ∷ fks) = p id k && all_entries p fks

unfoldable pub keys_equal : FlowKeys → FlowKeys → Bool
unfolding all_entries lookup equals ignored
keys_equal a b = all_entries (key_matches b) a && all_entries (key_known a) b

unfoldable pub put_keys : FlowKeys → NlMsgBuilder → NlMsgBuilder
unfolding ignored put_key_nl_attr
put_keys [] msg = msg
put_keys ((id, k) ∷ fks) msg = put_keys fks (if ignored k then msg else put_key_nl_attr k msg)

-- A later error takes the place of an earlier one.
abbrev pub later_error : Option Error → Option Error → Option Error
later_error e none = e
later_error e (some f) = some f

abbrev pub put_mask_of : FlowKey → NlMsgBuilder × Option Error → NlMsgBuilder × Option Error
put_mask_of k (msg, e) = let (done, f) = put_mask_nl_attr k msg in (done, later_error e f)

unfoldable pub put_masks : FlowKeys → NlMsgBuilder × Option Error → NlMsgBuilder × Option Error
unfolding ignored put_mask_nl_attr
put_masks [] state = state
put_masks ((id, k) ∷ fks) state = put_masks fks (if ignored k then state else put_mask_of k state)

abbrev pub ovs_flow_attr_key : ℕ
ovs_flow_attr_key = 1

abbrev pub ovs_flow_attr_mask : ℕ
ovs_flow_attr_mask = 7

abbrev pub default_ethernet : FlowKeys → Option FlowKey
default_ethernet fks = elim (lookup ovs_key_attr_ethernet fks) [
  | none ↦ some (ethernet new_ethernet_flow_key)
  | some k ↦ none
]

abbrev pub put_default_key : Option FlowKey → NlMsgBuilder → NlMsgBuilder
put_default_key none msg = msg
put_default_key (some k) msg = put_key_nl_attr k msg

-- The error of this write is not looked at.
abbrev pub put_default_mask :
    Option FlowKey → NlMsgBuilder × Option Error → NlMsgBuilder × Option Error
put_default_mask none state = state
put_default_mask (some k) (msg, e) = ((put_mask_nl_attr k msg).0, e)

-- toNlAttrs: the message, and the error.
unfoldable pub keys_to_nl_attrs : FlowKeys → NlMsgBuilder → NlMsgBuilder × Option Error
unfolding put_nested_attrs put_nested_attrs_with put_keys put_masks put_key_nl_attr put_mask_nl_attr
    lookup new_ethernet_flow_key
keys_to_nl_attrs fks msg =
    let default = default_ethernet fks in
    let keyed =
      put_nested_attrs ovs_flow_attr_key (λ m. put_default_key default (put_keys fks m)) msg in
    put_nested_attrs_with ovs_flow_attr_mask
      (λ m. put_default_mask default (put_masks fks (m, none))) keyed

-- A nil slice of key or mask bytes is `none`.
pub record FlowKeyParser : Type 0 where
  pub parse : ℕ → Option (List ℕ) → Option (List ℕ) → Bool → Result FlowKey
  pub exact_mask : Option (List ℕ)
  pub ignore_mask : Option (List ℕ)

unfoldable pub parse_unknown_flow_key :
    ℕ → Option (List ℕ) → Option (List ℕ) → Bool → Result FlowKey
parse_unknown_flow_key typ key mask exact =
    ok (unknown (record { typ = typ; key = key; mask = mask; exact = exact }))

abbrev pub unknown_parser : FlowKeyParser
unknown_parser = record { parse = parse_unknown_flow_key; exact_mask = none; ignore_mask = none }

abbrev pub blob_flow_key_parser : ℕ → (BlobFlowKey → FlowKey) → FlowKeyParser
blob_flow_key_parser size wrap = record {
  parse = λ typ key mask exact. (do bfk ← parse_blob_flow_key typ key mask size; ok (wrap bfk));
  exact_mask = some (replicate size 0xff);
  ignore_mask = some (replicate size 0);
}

unfoldable pub parse_in_port_flow_key :
    ℕ → Option (List ℕ) → Option (List ℕ) → Bool → Result FlowKey
unfolding parse_in_port_blob
parse_in_port_flow_key typ key mask exact = do fk ← parse_in_port_blob typ key mask; ok (in_port fk)

unfoldable pub parse_tunnel_flow_key : ℕ → Option (List ℕ) → Option (List ℕ) → Bool → Result FlowKey
unfolding parse_tunnel_attrs_data mask_of
parse_tunnel_flow_key typ key mask exact = do
  (k, kp) ← elim key [
    | none ↦ ok (no_tunnel_attrs, nothing_present)
    | some bytes ↦ parse_tunnel_attrs_data bytes
  ]
  m ← elim mask [
    | none ↦ ok (mask_of kp)
    | some bytes ↦ (do (m, mp) ← parse_tunnel_attrs_data bytes; ok m)
  ]
  ok (tunnel (record { key = k; mask = m }))
