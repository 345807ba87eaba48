-- ===== src/Flow/Key.antt =====
-- odp/flow.go: FlowKey with its implementations, FlowKeys, and their parsers.
pub mod Encoding
pub mod RoundTrip
pub mod Oddities
use go_odp.Prelude.{
  ℕ, ◌==◌, List, [], ◌∷◌, ◌++◌, Bool, true, false, not, ◌&&◌, ◌||◌, Option, none, some, Result, ok,
  err, Error, exact_mask, ◌>>=◌, if◌then◌else◌, length, replicate, bytes_equal,
}
use go_odp.Prelude.Map.{lookup, insert}
use go_odp.Builder.{NlMsgBuilder, put_slice_attr, put_nested_attrs, put_nested_attrs_with}
use go_odp.Attrs.{Attrs}
use go_odp.Tunnel.{
  TunnelAttrs, TunnelAttrsPresence, all_bytes, no_tunnel_attrs, nothing_present, present, mask_of,
  to_nl_attrs, parse_tunnel_attrs_data,
}
use go_odp.Flow.Blob.{
  BlobFlowKey, put_blob_key, put_blob_mask, blob_ignored, blob_equals, parse_blob_flow_key,
  parse_in_port_blob, bytes_of, new_ethernet_flow_key, ovs_key_attr_ethernet,
  sizeof_ovs_key_ethernet,
}

-- A key of a type that the library does not know; a mask of `none` means ignored.
pub record UnknownFlowKey : Type 0 where
  pub typ : ℕ
  pub key : Option (List ℕ)
  pub mask : Option (List ℕ)
  pub exact : Bool

pub record TunnelFlowKey : Type 0 where
  pub key : TunnelAttrs
  pub mask : TunnelAttrs

-- The types that implement the interface FlowKey. InPortFlowKey and EthernetFlowKey embed a
-- BlobFlowKey, and so does any key that blobFlowKeyParser does not wrap.
pub data FlowKey : Type 0 where
  unknown : UnknownFlowKey → FlowKey
  blob : BlobFlowKey → FlowKey
  in_port : BlobFlowKey → FlowKey
  ethernet : BlobFlowKey → FlowKey
  tunnel : TunnelFlowKey → FlowKey

abbrev pub ovs_key_attr_tunnel : ℕ
ovs_key_attr_tunnel = 16

unfoldable pub type_id : FlowKey → ℕ
type_id (unknown k) = k.typ
type_id (blob k) = k.typ
type_id (in_port k) = k.typ
type_id (ethernet k) = k.typ
type_id (tunnel k) = ovs_key_attr_tunnel

unfoldable pub put_key_nl_attr : FlowKey → NlMsgBuilder → NlMsgBuilder
unfolding put_slice_attr put_blob_key put_nested_attrs to_nl_attrs present
put_key_nl_attr (unknown k) = put_slice_attr k.typ (bytes_of k.key)
put_key_nl_attr (blob k) = put_blob_key k
put_key_nl_attr (in_port k) = put_blob_key k
put_key_nl_attr (ethernet k) = put_blob_key k
put_key_nl_attr (tunnel k) =
    put_nested_attrs ovs_key_attr_tunnel (to_nl_attrs k.key (present k.mask))

-- The message, and the error where the mask cannot be written.
unfoldable pub put_mask_nl_attr : FlowKey → NlMsgBuilder → NlMsgBuilder × Option Error
unfolding put_slice_attr put_blob_mask put_nested_attrs to_nl_attrs present
put_mask_nl_attr (unknown k) msg =
    let written : NlMsgBuilder = elim k.mask [
      | none ↦ msg
      | some mask ↦ put_slice_attr k.typ mask msg
    ] in
    if k.exact then (msg, some (exact_mask k.typ)) else (written, none)
put_mask_nl_attr (blob k) msg = (put_blob_mask k msg, none)
put_mask_nl_attr (in_port k) msg = (put_blob_mask k msg, none)
put_mask_nl_attr (ethernet k) msg = (put_blob_mask k msg, none)
put_mask_nl_attr (tunnel k) msg =
    (put_nested_attrs ovs_key_attr_tunnel (to_nl_attrs k.mask (present k.mask)) msg, none)

abbrev pub is_nil : Option (List ℕ) → Bool
is_nil none = true
is_nil (some bytes) = false

-- As in the code, the mask of Df is not looked at.
unfoldable pub tunnel_ignored : TunnelFlowKey → Bool
unfolding all_bytes
tunnel_ignored k =
    let m = k.mask in
    all_bytes m.tunnel_id 0
    && all_bytes m.ipv4_src 0
    && all_bytes m.ipv4_dst 0
    && m.tos == 0
    && m.ttl == 0
    && not m.csum
    && m.tp_src == 0
    && m.tp_dst == 0

unfoldable pub ignored : FlowKey → Bool
unfolding blob_ignored tunnel_ignored
ignored (unknown k) = is_nil k.mask && not k.exact
ignored (blob k) = blob_ignored k
ignored (in_port k) = blob_ignored k
ignored (ethernet k) = false
ignored (tunnel k) = tunnel_ignored k

abbrev pub bool_equal : Bool → Bool → Bool
bool_equal true b = b
bool_equal false b = not b

-- `==` of the struct.
unfoldable pub tunnel_attrs_equal : TunnelAttrs → TunnelAttrs → Bool
unfolding bytes_equal
tunnel_attrs_equal a b =
    bytes_equal a.tunnel_id b.tunnel_id
    && bytes_equal a.ipv4_src b.ipv4_src
    && bytes_equal a.ipv4_dst b.ipv4_dst
    && a.tos == b.tos
    && a.ttl == b.ttl
    && bool_equal a.df b.df
    && bool_equal a.csum b.csum
    && a.tp_src == b.tp_src
    && a.tp_dst == b.tp_dst

-- `bytes.Equal` takes nil for an empty slice.
unfoldable pub unknown_equals : UnknownFlowKey → UnknownFlowKey → Bool
unfolding bytes_equal
unknown_equals a b =
    a.typ == b.typ
    && bytes_equal (bytes_of a.key) (bytes_of b.key)
    && (if a.exact
        then b.exact
        else if is_nil a.mask
        then is_nil b.mask
        else bytes_equal (bytes_of a.mask) (bytes_of b.mask))

-- The method toBlobFlowKey, which every type that embeds a BlobFlowKey has.
abbrev pub to_blob_flow_key : FlowKey → Option BlobFlowKey
to_blob_flow_key (unknown k) = none
to_blob_flow_key (blob k) = some k
to_blob_flow_key (in_port k) = some k
to_blob_flow_key (ethernet k) = some k
to_blob_flow_key (tunnel k) = none

abbrev blob_equals_key : BlobFlowKey → FlowKey → Bool
unfolding blob_equals
blob_equals_key a gb = elim (to_blob_flow_key gb) [ none ↦ false | some b ↦ blob_equals a b ]

unfoldable pub equals : FlowKey → FlowKey → Bool
unfolding unknown_equals blob_equals tunnel_attrs_equal
equals (unknown a) (unknown b) = unknown_equals a b
equals (unknown a) _ = false
equals (blob a) gb = blob_equals_key a gb
equals (in_port a) gb = blob_equals_key a gb
equals (ethernet a) gb = blob_equals_key a gb
equals (tunnel a) (tunnel b) = tunnel_attrs_equal a.key b.key && tunnel_attrs_equal a.mask b.mask
equals (tunnel a) _ = false
