-- ===== src/Flow/Key/Encoding.antt =====
-- The attributes that a flow key and its mask write.
use go_odp.Prelude.{
  ℕ, ◌*◌, ◌/◌, ◌<◌, ◌≡◌, ap, List, [], ◌∷◌, false, none, Option-cases, inl, inr, length,
  length-take, length-drop, arith,
}
use go_odp.Format.{Fits, nested, encode}
use go_odp.Format.Optional.{attribute, nested-Fits}
use go_odp.Builder.{NlMsgBuilder, put_slice_attr}
use go_odp.Builder.Emits.{Emits, append_to, put_nested_attrs-Emits}
use go_odp.Builder.Values.{put_slice_attr-Emits}
use go_odp.Tunnel.{IsTunnelAttrs, present}
use go_odp.Tunnel.Encoding.{tunnel_attributes, to_nl_attrs-Emits, tunnel_attributes-IsWithin}
use go_odp.Flow.Blob.{BlobFlowKey, blob_key, blob_mask, bytes_of}
use go_odp.Flow.Key.{
  FlowKey, unknown, blob, in_port, ethernet, tunnel, UnknownFlowKey, TunnelFlowKey, type_id,
  put_key_nl_attr, put_mask_nl_attr, is_nil,
}

-- The bytes that a key writes, and its mask.
abbrev pub key_bytes : FlowKey → List ℕ
key_bytes (unknown k) = bytes_of k.key
key_bytes (blob k) = blob_key k
key_bytes (in_port k) = blob_key k
key_bytes (ethernet k) = blob_key k
key_bytes (tunnel k) = nested (tunnel_attributes k.key (present k.mask))

abbrev pub mask_bytes : FlowKey → List ℕ
mask_bytes (unknown k) = bytes_of k.mask
mask_bytes (blob k) = blob_mask k
mask_bytes (in_port k) = blob_mask k
mask_bytes (ethernet k) = blob_mask k
mask_bytes (tunnel k) = nested (tunnel_attributes k.mask (present k.mask))

-- A key and a mask of `size` bytes each.
pub record IsBlob (size : ℕ) (k : BlobFlowKey) : Type 0 where
  pub both : length k.key_mask ≡ size * 2
  pub small : size < 256
  pub typ_fits : k.typ < 65536

-- A key of an unknown type with a mask that can be written.
pub record IsUnknown (k : UnknownFlowKey) : Type 0 where
  pub has_key : is_nil k.key ≡ false
  pub has_mask : is_nil k.mask ≡ false
  pub not_exact : k.exact ≡ false
  pub key_fits : Fits (attribute k.typ (bytes_of k.key))
  pub mask_fits : Fits (attribute k.typ (bytes_of k.mask))

pub record IsTunnel (k : TunnelFlowKey) : Type 0 where
  pub key_valid : IsTunnelAttrs k.key
  pub mask_valid : IsTunnelAttrs k.mask

-- A key that can be written. (A blob's size is that of its key and of its mask.)
abbrev pub IsWritable : FlowKey → Type 0
IsWritable (unknown k) = IsUnknown k
IsWritable (blob k) = (size : ℕ) × IsBlob size k
IsWritable (in_port k) = IsBlob 4 k
IsWritable (ethernet k) = IsBlob 12 k
IsWritable (tunnel k) = IsTunnel k

module _ (size : ℕ) (k : BlobFlowKey) (h : IsBlob size k) where
  pub length-blob_key : length (blob_key k) ≡ size
  length-blob_key = omega (arith, h.both, length-take (length k.key_mask / 2) k.key_mask)

  pub length-blob_mask : length (blob_mask k) ≡ size
  length-blob_mask = omega (arith, h.both, length-drop (length k.key_mask / 2) k.key_mask)

  blob_key-Fits : Fits (attribute k.typ (blob_key k))
  blob_key-Fits = record {
    len_fits = omega (arith, length-blob_key, h.small);
    typ_fits = h.typ_fits;
  }

  blob_mask-Fits : Fits (attribute k.typ (blob_mask k))
  blob_mask-Fits = record {
    len_fits = omega (arith, length-blob_mask, h.small);
    typ_fits = h.typ_fits;
  }

pub key_bytes-Fits : (k : FlowKey) → IsWritable k → Fits (attribute (type_id k) (key_bytes k))
unfolding type_id
key_bytes-Fits (unknown k) h = h.key_fits
key_bytes-Fits (blob k) (size, h) = blob_key-Fits size k h
key_bytes-Fits (in_port k) h = blob_key-Fits 4 k h
key_bytes-Fits (ethernet k) h = blob_key-Fits 12 k h
key_bytes-Fits (tunnel k) h =
    nested-Fits 85 16 _ (tunnel_attributes-IsWithin k.key (present k.mask) h.key_valid)
      (omega arith) (omega arith)

pub mask_bytes-Fits : (k : FlowKey) → IsWritable k → Fits (attribute (type_id k) (mask_bytes k))
unfolding type_id
mask_bytes-Fits (unknown k) h = h.mask_fits
mask_bytes-Fits (blob k) (size, h) = blob_mask-Fits size k h
mask_bytes-Fits (in_port k) h = blob_mask-Fits 4 k h
mask_bytes-Fits (ethernet k) h = blob_mask-Fits 12 k h
mask_bytes-Fits (tunnel k) h =
    nested-Fits 85 16 _ (tunnel_attributes-IsWithin k.mask (present k.mask) h.mask_valid)
      (omega arith) (omega arith)

-- A slice attribute that fits.
slice-Emits :
    (typ : ℕ) (bytes : List ℕ)
    → Fits (attribute typ bytes)
    → Emits (put_slice_attr typ bytes) (attribute typ bytes ∷ [])
slice-Emits typ bytes fits = put_slice_attr-Emits typ bytes (omega (arith, fits.len_fits))

pub put_key_nl_attr-Emits :
    (k : FlowKey)
    → IsWritable k
    → Emits (put_key_nl_attr k) (attribute (type_id k) (key_bytes k) ∷ [])
unfolding put_key_nl_attr type_id
put_key_nl_attr-Emits (unknown k) h = slice-Emits k.typ _ h.key_fits
put_key_nl_attr-Emits (blob k) (size, h) = slice-Emits k.typ _ (blob_key-Fits size k h)
put_key_nl_attr-Emits (in_port k) h = slice-Emits k.typ _ (blob_key-Fits 4 k h)
put_key_nl_attr-Emits (ethernet k) h = slice-Emits k.typ _ (blob_key-Fits 12 k h)
put_key_nl_attr-Emits (tunnel k) h =
    let fits = key_bytes-Fits (tunnel k) h in
    put_nested_attrs-Emits 16 _ (tunnel_attributes k.key (present k.mask))
      (omega (arith, fits.len_fits)) (to_nl_attrs-Emits k.key (present k.mask) h.key_valid)

-- A mask that is written leaves no error.
pub put_mask_nl_attr-lem :
    (k : FlowKey)
    → IsWritable k
    → (msg : NlMsgBuilder)
    → put_mask_nl_attr k msg
      ≡ (append_to msg (encode (length msg.buf) (attribute (type_id k) (mask_bytes k) ∷ [])), none)
unfolding put_mask_nl_attr type_id
put_mask_nl_attr-lem (unknown k) h msg = elim (Option-cases k.mask) [
  | inl e ↦ cc (h.has_mask, ap is_nil e)
  | inr (mask, e) ↦
      let fits : Fits (attribute k.typ mask) = ground (arith, e, h.mask_fits) in
      rw (h.not_exact, e) (ap (λ (m : NlMsgBuilder). (m, none)) (slice-Emits k.typ mask fits msg))
]
put_mask_nl_attr-lem (blob k) (size, h) msg =
    ap (λ (m : NlMsgBuilder). (m, none)) (slice-Emits k.typ _ (blob_mask-Fits size k h) msg)
put_mask_nl_attr-lem (in_port k) h msg =
    ap (λ (m : NlMsgBuilder). (m, none)) (slice-Emits k.typ _ (blob_mask-Fits 4 k h) msg)
put_mask_nl_attr-lem (ethernet k) h msg =
    ap (λ (m : NlMsgBuilder). (m, none)) (slice-Emits k.typ _ (blob_mask-Fits 12 k h) msg)
put_mask_nl_attr-lem (tunnel k) h msg =
    let fits = mask_bytes-Fits (tunnel k) h in
    ap (λ (m : NlMsgBuilder). (m, none))
      (put_nested_attrs-Emits 16 _ (tunnel_attributes k.mask (present k.mask))
        (omega (arith, fits.len_fits)) (to_nl_attrs-Emits k.mask (present k.mask) h.mask_valid) msg)
