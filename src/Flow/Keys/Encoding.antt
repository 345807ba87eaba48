-- ===== src/Flow/Keys/Encoding.antt =====
-- The attributes that FlowKeys.toNlAttrs writes.
use mathlib.Core.List.{map-append}
use go_odp.Prelude.{
  ◌<◌, ◌≡◌, refl, ap, ◌∙◌, List, [], ◌∷◌, ◌++◌, map, Bool, true, false, Option, none, some,
  Option-cases, inl, inr, length, All, arith, if◌then◌else◌, Error,
}
use go_odp.Prelude.Map.{lookup}
use go_odp.Format.{Attr, encode, nested}
use go_odp.Format.Optional.{attribute, total, length-nested-le}
use go_odp.Builder.{NlMsgBuilder, put_nested_attrs, put_nested_attrs_with}
use go_odp.Builder.Emits.{
  Emits, append_to, Emits-none, Emits-then, put_nested_attrs-Emits, put_nested_attrs_with-lem,
}
use go_odp.Flow.Blob.{new_ethernet_flow_key, new_blob_flow_key, ovs_key_attr_ethernet}
use go_odp.Flow.Key.{FlowKey, ethernet, type_id, ignored, put_key_nl_attr}
use go_odp.Flow.Key.Encoding.{
  key_bytes, mask_bytes, IsWritable, IsBlob, put_key_nl_attr-Emits, put_mask_nl_attr-lem,
}
use go_odp.Flow.Keys.{
  FlowKeys, put_keys, put_masks, default_ethernet, keys_to_nl_attrs, ovs_flow_attr_key,
  ovs_flow_attr_mask, put_mask_of, put_default_key, put_default_mask,
}

-- The keys that are written: those that are not ignored, in the order of the map.
abbrev pub written : FlowKeys → List FlowKey
written [] = []
written ((id, k) ∷ fks) = if ignored k then written fks else k ∷ written fks

abbrev pub default_keys : Option FlowKey → List FlowKey
default_keys none = []
default_keys (some k) = k ∷ []

-- And the ethernet key where the map has none.
abbrev pub all_written : FlowKeys → List FlowKey
all_written fks = written fks ++ default_keys (default_ethernet fks)

abbrev pub key_attribute : FlowKey → Attr
key_attribute k = attribute (type_id k) (key_bytes k)

abbrev pub mask_attribute : FlowKey → Attr
mask_attribute k = attribute (type_id k) (mask_bytes k)

abbrev pub flow_key_attributes : FlowKeys → List Attr
flow_key_attributes fks =
    attribute ovs_flow_attr_key (nested (map key_attribute (all_written fks)))
    ∷ attribute ovs_flow_attr_mask (nested (map mask_attribute (all_written fks)))
    ∷ []

-- One more key, ignored or not.
put_key_step :
    (k : FlowKey) (fks : FlowKeys) (skip : Bool)
    → (All IsWritable (written fks) → Emits (put_keys fks) (map key_attribute (written fks)))
    → All IsWritable (if skip then written fks else k ∷ written fks)
    → Emits
        (λ msg. put_keys fks (if skip then msg else put_key_nl_attr k msg))
        (map key_attribute (if skip then written fks else k ∷ written fks))
put_key_step k fks true rest h = rest h
put_key_step k fks false rest h =
    Emits-then {f = put_key_nl_attr k} {g = put_keys fks} (key_attribute k ∷ [])
      (map key_attribute (written fks)) (put_key_nl_attr-Emits k h.0) (rest h.1)

put_keys-Emits :
    (fks : FlowKeys)
    → All IsWritable (written fks)
    → Emits (put_keys fks) (map key_attribute (written fks))
unfolding put_keys
put_keys-Emits [] h = Emits-none
put_keys-Emits ((id, k) ∷ fks) h = put_key_step k fks (ignored k) (put_keys-Emits fks) h

-- A writer of masks appends attributes, and leaves no error.
abbrev EmitsMasks : (NlMsgBuilder × Option Error → NlMsgBuilder × Option Error) → List Attr → Type 0
EmitsMasks write attrs =
    (msg : NlMsgBuilder) → write (msg, none) ≡ (append_to msg (encode (length msg.buf) attrs), none)

EmitsMasks-none : EmitsMasks (λ s. s) []
EmitsMasks-none msg = ap (λ (m : NlMsgBuilder). (m, none)) (Emits-none msg)

EmitsMasks-then :
    (f g : NlMsgBuilder × Option Error → NlMsgBuilder × Option Error) (xs ys : List Attr)
    → EmitsMasks f xs
    → EmitsMasks g ys
    → EmitsMasks (λ s. g (f s)) (xs ++ ys)
EmitsMasks-then f g xs ys hf hg msg =
    let body = encode (length msg.buf) xs in
    ap g (hf msg)
    ∙ hg (append_to msg body)
    ∙ ap (λ (m : NlMsgBuilder). (m, none))
        (Emits-then {f = λ m. append_to m (encode (length m.buf) xs)}
          {g = λ m. append_to m (encode (length m.buf) ys)} xs ys (λ m. refl) (λ m. refl) msg)

mask-EmitsMasks : (k : FlowKey) → IsWritable k → EmitsMasks (put_mask_of k) (mask_attribute k ∷ [])
mask-EmitsMasks k h msg = rw (put_mask_nl_attr-lem k h msg)

put_mask_step :
    (k : FlowKey) (fks : FlowKeys) (skip : Bool)
    → (All IsWritable (written fks) → EmitsMasks (put_masks fks) (map mask_attribute (written fks)))
    → All IsWritable (if skip then written fks else k ∷ written fks)
    → EmitsMasks
        (λ s. put_masks fks (if skip then s else put_mask_of k s))
        (map mask_attribute (if skip then written fks else k ∷ written fks))
put_mask_step k fks true rest h = rest h
put_mask_step k fks false rest h =
    EmitsMasks-then (put_mask_of k) (put_masks fks) (mask_attribute k ∷ [])
      (map mask_attribute (written fks)) (mask-EmitsMasks k h.0) (rest h.1)

put_masks-EmitsMasks :
    (fks : FlowKeys)
    → All IsWritable (written fks)
    → EmitsMasks (put_masks fks) (map mask_attribute (written fks))
unfolding put_masks
put_masks-EmitsMasks [] h = EmitsMasks-none
put_masks-EmitsMasks ((id, k) ∷ fks) h =
    put_mask_step k fks (ignored k) (put_masks-EmitsMasks fks) h

pub default_ethernet-missing :
    (fks : FlowKeys)
    → lookup ovs_key_attr_ethernet fks ≡ none
    → default_ethernet fks ≡ some (ethernet new_ethernet_flow_key)
default_ethernet-missing fks e = rw (e, default_ethernet)

pub default_ethernet-found :
    (fks : FlowKeys) (k : FlowKey)
    → lookup ovs_key_attr_ethernet fks ≡ some k
    → default_ethernet fks ≡ none
default_ethernet-found fks k e = rw (e, default_ethernet)

new_ethernet_flow_key-IsBlob : IsBlob 12 new_ethernet_flow_key
unfolding new_ethernet_flow_key new_blob_flow_key
new_ethernet_flow_key-IsBlob = omega arith

default-IsWritable : (fks : FlowKeys) → All IsWritable (default_keys (default_ethernet fks))
default-IsWritable fks = elim (Option-cases (lookup ovs_key_attr_ethernet fks)) [
  | inl e ↦ rw (default_ethernet-missing fks e) (new_ethernet_flow_key-IsBlob, tt)
  | inr (k, e) ↦ rw (default_ethernet-found fks k e) tt
]

default-Emits :
    (d : Option FlowKey)
    → All IsWritable (default_keys d)
    → Emits (put_default_key d) (map key_attribute (default_keys d))
default-Emits none h = Emits-none
default-Emits (some k) h = put_key_nl_attr-Emits k h.0

default-EmitsMasks :
    (d : Option FlowKey)
    → All IsWritable (default_keys d)
    → EmitsMasks (put_default_mask d) (map mask_attribute (default_keys d))
default-EmitsMasks none h msg = EmitsMasks-none msg
default-EmitsMasks (some k) h msg = rw (put_mask_nl_attr-lem k h.0 msg)

-- What toNlAttrs may write: keys that can be written, and no more than fits an attribute.
pub record IsEncodable (fks : FlowKeys) : Type 0 where
  pub writable : All IsWritable (written fks)
  pub keys_fit : total (map key_attribute (all_written fks)) < 65529
  pub masks_fit : total (map mask_attribute (all_written fks)) < 65529

-- FlowKeys.toNlAttrs, on keys that can be written and fit into an attribute, appends the nested key
-- attribute and the nested mask attribute, each with the keys that are not ignored and with the
-- ethernet key where there was none, and reports no error.
pub keys_to_nl_attrs-lem :
    (fks : FlowKeys)
    → IsEncodable fks
    → (msg : NlMsgBuilder)
    → keys_to_nl_attrs fks msg
      ≡ (append_to msg (encode (length msg.buf) (flow_key_attributes fks)), none)
unfolding keys_to_nl_attrs
keys_to_nl_attrs-lem fks h msg =
    let d = default_ethernet fks in
    let keys = map key_attribute (all_written fks) in
    let masks = map mask_attribute (all_written fks) in
    let key_gen : NlMsgBuilder → NlMsgBuilder = λ m. put_default_key d (put_keys fks m) in
    let emits_keys : Emits key_gen keys =
      rw (map-append key_attribute (written fks) (default_keys d)) (
        Emits-then {f = put_keys fks} {g = put_default_key d} _ _ (put_keys-Emits fks h.writable)
          (default-Emits d (default-IsWritable fks))) in
    let emits_masks : EmitsMasks (λ s. put_default_mask d (put_masks fks s)) masks =
      rw (map-append mask_attribute (written fks) (default_keys d)) (
        EmitsMasks-then (put_masks fks) (put_default_mask d) _ _
          (put_masks-EmitsMasks fks h.writable) (default-EmitsMasks d (default-IsWritable fks))) in
    let first = attribute ovs_flow_attr_key (nested keys) in
    let second = attribute ovs_flow_attr_mask (nested masks) in
    let keyed : put_nested_attrs ovs_flow_attr_key key_gen msg
        ≡ append_to msg (encode (length msg.buf) (first ∷ [])) =
      put_nested_attrs-Emits 1 key_gen keys (omega (arith, length-nested-le keys, h.keys_fit))
        emits_keys msg in
    ap (put_nested_attrs_with 7 (λ m. put_default_mask d (put_masks fks (m, none)))) keyed
    ∙ put_nested_attrs_with-lem {R = Option Error} 7
        (λ m. put_default_mask d (put_masks fks (m, none))) masks none
        (omega (arith, length-nested-le masks, h.masks_fit)) emits_masks
        (append_to msg (encode (length msg.buf) (first ∷ [])))
    ∙ ap {B = NlMsgBuilder × Option Error} (λ m. (m, none))
        (Emits-then {f = λ m. append_to m (encode (length m.buf) (first ∷ []))}
          {g = λ m. append_to m (encode (length m.buf) (second ∷ []))} (first ∷ []) (second ∷ [])
          (λ m. refl) (λ m. refl) msg)
