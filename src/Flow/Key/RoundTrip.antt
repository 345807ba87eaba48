-- ===== src/Flow/Key/RoundTrip.antt =====
-- Flow keys that are written and parsed again.
use go_odp.Prelude.{
  ℕ, ◌+◌, ◌*◌, ◌/◌, ◌≡◌, refl, sym, ap, ◌∙◌, List, [], ◌∷◌, ◌++◌, append-nil, true, false, Option,
  none, some, length, replicate, replicate-add, length-replicate, take-append-drop, write_at,
  write_at-middle, ok, arith, ==_self,
}
use go_odp.Prelude.Map.{lookup}
use go_odp.Tunnel.{TunnelAttrs, IsTunnelAttrs, present, all_bytes}
use go_odp.Tunnel.RoundTrip.{kept, parse_tunnel_attrs_data-nested}
use go_odp.Flow.Blob.{
  BlobFlowKey, blob_key, blob_mask, bytes_of, parse_blob_flow_key, parse_in_port_blob,
}
use go_odp.Flow.Key.{
  FlowKey, unknown, blob, in_port, ethernet, tunnel, TunnelFlowKey, type_id, is_nil,
}
use go_odp.Flow.Key.Encoding.{
  key_bytes, mask_bytes, IsBlob, IsTunnel, IsWritable, length-blob_key, length-blob_mask,
}
use go_odp.Flow.Keys.{
  FlowKeyParser, unknown_parser, parse_unknown_flow_key, blob_flow_key_parser,
  parse_tunnel_flow_key, parse_in_port_flow_key,
}
use go_odp.Flow.Parse.{flow_key_parsers, parser_for, in_port_parser, tunnel_parser}

pub all_bytes_zero : (xs : List ℕ) → all_bytes xs 0 ≡ true → xs ≡ replicate (length xs) 0
unfolding all_bytes
all_bytes_zero [] h = refl
all_bytes_zero (x ∷ xs) h = ground (arith, all_bytes_zero xs)

-- Key and mask are copied into the halves of a new slice.
pub parse_blob_flow_key-halves :
    (size : ℕ) (k : BlobFlowKey)
    → IsBlob size k
    → parse_blob_flow_key k.typ (some (blob_key k)) (some (blob_mask k)) size ≡ ok k
unfolding parse_blob_flow_key
parse_blob_flow_key-halves size k h =
    let key = blob_key k in
    let mask = blob_mask k in
    let zero : List ℕ = replicate size 0 in
    let fresh : replicate (size * 2) 0 ≡ zero ++ (zero ++ []) =
      ap (λ (n : ℕ). replicate n 0) {x = size * 2} {y = size + size} (omega arith)
      ∙ replicate-add size size 0
      ∙ ap (λ (l : List ℕ). zero ++ l) (sym (append-nil zero)) in
    let masked : write_at size mask (replicate (size * 2) 0) ≡ zero ++ mask =
      ap (write_at size mask) fresh
      ∙ write_at-middle size mask zero zero [] (sym (length-replicate {A = ℕ} size 0))
          (length-blob_mask size k h ∙ sym (length-replicate {A = ℕ} size 0))
      ∙ ap (λ (l : List ℕ). zero ++ l) (append-nil mask) in
    let keyed : write_at 0 key (zero ++ mask) ≡ key ++ mask =
      write_at-middle 0 key [] zero mask refl
        (length-blob_key size k h ∙ sym (length-replicate {A = ℕ} size 0)) in
    let whole : write_at 0 key (write_at size mask (replicate (size * 2) 0)) ≡ k.key_mask =
      ap (write_at 0 key) masked ∙ keyed ∙ take-append-drop (length k.key_mask / 2) k.key_mask in
    rw (whole, length-blob_mask size k h, length-blob_key size k h) (rw (==_self size))

-- The attributes of a mask are those that it shows.
kept-present : (m : TunnelAttrs) → IsTunnelAttrs m → kept m (present m) ≡ m
unfolding present
kept-present m h = ground (
  arith,
  all_bytes_zero m.tunnel_id,
  all_bytes_zero m.ipv4_src,
  ap (λ (n : ℕ). replicate {A = ℕ} n 0) h.tunnel_id_size,
  ap (λ (n : ℕ). replicate {A = ℕ} n 0) h.ipv4_src_size,
)

-- Attributes that the mask leaves out are zero.
abbrev pub IsSettled : TunnelFlowKey → Type 0
IsSettled k = kept k.key (present k.mask) ≡ k.key

-- The key's type has the parser that makes such keys.
abbrev pub IsParsable : FlowKey → Type 0
IsParsable (unknown k) = lookup k.typ flow_key_parsers ≡ none
IsParsable (blob k) =
    (size : ℕ) × IsBlob size k
    × (lookup k.typ flow_key_parsers ≡ some (blob_flow_key_parser size blob))
IsParsable (in_port k) = (k.typ ≡ 3) × (all_bytes (blob_mask k) 0xff ≡ true)
IsParsable (ethernet k) = k.typ ≡ 4
IsParsable (tunnel k) = IsSettled k

parser_for-known :
    (typ : ℕ) (p : FlowKeyParser) → lookup typ flow_key_parsers ≡ some p → parser_for typ ≡ p
unfolding parser_for
parser_for-known typ p e = rw (e, parser_for)

parser_for-unknown :
    (typ : ℕ) → lookup typ flow_key_parsers ≡ none → parser_for typ ≡ unknown_parser
unfolding parser_for
parser_for-unknown typ e = rw (e, parser_for)

-- The table at the types that have a Go type of their own.
table_in_port : lookup 3 flow_key_parsers ≡ some in_port_parser
unfolding flow_key_parsers lookup
table_in_port = refl

table_ethernet : lookup 4 flow_key_parsers ≡ some (blob_flow_key_parser 12 ethernet)
unfolding flow_key_parsers lookup
table_ethernet = refl

table_tunnel : lookup 16 flow_key_parsers ≡ some tunnel_parser
unfolding flow_key_parsers lookup
table_tunnel = refl

parser_at :
    (typ k : ℕ) (p : FlowKeyParser)
    → typ ≡ k
    → lookup k flow_key_parsers ≡ some p
    → parser_for typ ≡ p
parser_at typ k p e t = parser_for-known typ p (ap (λ (n : ℕ). lookup n flow_key_parsers) e ∙ t)

Option-of : (o : Option (List ℕ)) → is_nil o ≡ false → some (bytes_of o) ≡ o
Option-of none h = cc
Option-of (some bytes) h = refl

-- A mask of ones is taken as it is.
parse_in_port-ones :
    (k : BlobFlowKey)
    → IsBlob 4 k
    → all_bytes (blob_mask k) 0xff ≡ true
    → parse_in_port_flow_key k.typ (some (blob_key k)) (some (blob_mask k)) false ≡ ok (in_port k)
unfolding parse_in_port_flow_key parse_in_port_blob
parse_in_port-ones k h ones = rw ones (rw (parse_blob_flow_key-halves 4 k h))

parse_tunnel-settled :
    (k : TunnelFlowKey)
    → IsTunnel k
    → IsSettled k
    → parse_tunnel_flow_key 16 (some (key_bytes (tunnel k))) (some (mask_bytes (tunnel k))) false
      ≡ ok (tunnel k)
unfolding parse_tunnel_flow_key
parse_tunnel-settled k h settled = rw (
  parse_tunnel_attrs_data-nested k.key (present k.mask) h.key_valid,
  parse_tunnel_attrs_data-nested k.mask (present k.mask) h.mask_valid,
  settled,
  kept-present k.mask h.mask_valid,
)

-- A key is parsed from its bytes and its mask's bytes.
pub parse-key_bytes :
    (k : FlowKey)
    → IsWritable k
    → IsParsable k
    → (parser_for (type_id k)).parse (type_id k) (some (key_bytes k)) (some (mask_bytes k)) false
      ≡ ok k
unfolding type_id
parse-key_bytes (unknown k) h e = rw (parser_for-unknown k.typ e) (
    unfold parse_unknown_flow_key in
    rw (Option-of k.key h.has_key, Option-of k.mask h.has_mask) (rw (sym h.not_exact)))
parse-key_bytes (blob k) h (size, whole, e) =
    rw (parser_for-known k.typ (blob_flow_key_parser size blob) e)
      (rw (parse_blob_flow_key-halves size k whole))
parse-key_bytes (in_port k) h (e, ones) =
    rw (parser_at k.typ 3 in_port_parser e table_in_port) (parse_in_port-ones k h ones)
parse-key_bytes (ethernet k) h e =
    rw (parser_at k.typ 4 (blob_flow_key_parser 12 ethernet) e table_ethernet)
      (rw (parse_blob_flow_key-halves 12 k h))
parse-key_bytes (tunnel k) h settled =
    rw (parser_for-known 16 tunnel_parser table_tunnel) (parse_tunnel-settled k h settled)
