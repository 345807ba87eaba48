-- ===== src/Flow/Parse.antt =====
-- odp/flow.go: the table flowKeyParsers, and ParseFlowKeys.
use go_odp.Prelude.{
  ℕ, List, [], ◌∷◌, Bool, true, false, Option, none, some, Result, ok, ◌>>=◌, replicate,
}
use go_odp.Prelude.Map.{lookup, insert}
use go_odp.Attrs.{Attrs}
use go_odp.Flow.Blob.{ovs_key_attr_ethernet, ovs_key_attr_in_port, sizeof_ovs_key_ethernet}
use go_odp.Flow.Key.{blob, ethernet, ovs_key_attr_tunnel}
use go_odp.Flow.Keys.{
  FlowKeys, FlowKeyParser, unknown_parser, blob_flow_key_parser, parse_in_port_flow_key,
  parse_tunnel_flow_key, parse_unknown_flow_key,
}

abbrev pub in_port_parser : FlowKeyParser
in_port_parser = record {
  parse = parse_in_port_flow_key;
  exact_mask = some (replicate 4 0xff);
  ignore_mask = some (replicate 4 0);
}

abbrev pub tunnel_parser : FlowKeyParser
tunnel_parser = record { parse = parse_tunnel_flow_key; exact_mask = none; ignore_mask = some [] }

-- The keys are the OVS_KEY_ATTR numbers of odp/syscall.go, in the order of the source.
unfoldable pub flow_key_parsers : List (ℕ × FlowKeyParser)
flow_key_parsers =
    (2, blob_flow_key_parser 4 blob)
    ∷ (ovs_key_attr_in_port, in_port_parser)
    ∷ (ovs_key_attr_ethernet, blob_flow_key_parser sizeof_ovs_key_ethernet ethernet)
    ∷ (6, blob_flow_key_parser 2 blob)
    ∷ (7, blob_flow_key_parser 12 blob)
    ∷ (8, blob_flow_key_parser 40 blob)
    ∷ (9, blob_flow_key_parser 4 blob)
    ∷ (10, blob_flow_key_parser 4 blob)
    ∷ (11, blob_flow_key_parser 2 blob)
    ∷ (12, blob_flow_key_parser 2 blob)
    ∷ (13, blob_flow_key_parser 24 blob)
    ∷ (14, blob_flow_key_parser 28 blob)
    ∷ (15, blob_flow_key_parser 4 blob)
    ∷ (19, blob_flow_key_parser 4 blob)
    ∷ (18, blob_flow_key_parser 2 blob)
    ∷ (20, blob_flow_key_parser 4 blob)
    ∷ (ovs_key_attr_tunnel, tunnel_parser)
    ∷ []

unfoldable pub parser_for : ℕ → FlowKeyParser
unfolding flow_key_parsers lookup parse_unknown_flow_key parse_in_port_flow_key
    parse_tunnel_flow_key
parser_for typ = elim (lookup typ flow_key_parsers) [ some p ↦ p | none ↦ unknown_parser ]

-- The mask that belongs to a key: without masks every bit is exact, and a mask that is left out
-- wildcards the key.
unfoldable pub mask_for : Option Attrs → ℕ → Option (List ℕ)
mask_for none typ = (parser_for typ).exact_mask
mask_for (some masks) typ = elim (lookup typ masks) [
  | some mask ↦ some mask
  | none ↦ (parser_for typ).ignore_mask
]

abbrev pub is_absent : Option Attrs → Bool
is_absent none = true
is_absent (some masks) = false

-- The first loop.
unfoldable pub parse_keys : Option Attrs → Attrs → FlowKeys → Result FlowKeys
parse_keys masks [] res = ok res
parse_keys masks ((typ, key) ∷ keys) res = do
  fk ← (parser_for typ).parse typ (some key) (mask_for masks typ) (is_absent masks)
  parse_keys masks keys (insert typ fk res)

-- The body of the second loop: a mask that has no key.
unfoldable pub parse_mask : Attrs → ℕ → List ℕ → FlowKeys → Result FlowKeys
parse_mask keys typ mask res =
    let alone : Result FlowKeys = (do
      fk ← (parser_for typ).parse typ none (some mask) false
      ok (insert typ fk res)) in
    elim (lookup typ keys) [ some key ↦ ok res | none ↦ alone ]

-- The second loop.
unfoldable pub parse_masks : Attrs → Attrs → FlowKeys → Result FlowKeys
parse_masks keys [] res = ok res
parse_masks keys ((typ, mask) ∷ masks) res = parse_mask keys typ mask res >>= parse_masks keys masks

unfoldable pub parse_flow_keys : Attrs → Option Attrs → Result FlowKeys
unfolding parse_keys parse_masks parse_mask mask_for parser_for
parse_flow_keys keys masks = do
  res ← parse_keys masks keys []
  elim masks [ none ↦ ok res | some m ↦ parse_masks keys m res ]
