-- ===== src/Tunnel/RoundTrip.antt =====
-- parseTunnelAttrs on what TunnelAttrs.toNlAttrs writes.
use go_odp.Prelude.{
  ℕ, ◌<◌, ◌≡◌, refl, ◌∙◌, [], Bool, true, false, ◌&&◌, none, ok, if◌then◌else◌, replicate,
}
use go_odp.Prelude.Map.{lookup}
use go_odp.Memory.{uint16_to_be, uint16_from_be}
use go_odp.Memory.Codec.{uint16_to_be-lt, uint16_from_be-to_be}
use go_odp.Format.{nested}
use go_odp.Format.Optional.{last_of, lookup-consume_all, last_of-append, last_of-opt}
use go_odp.Attrs.RoundTrip.{attrs_of, parse_nested_attrs-nested}
use go_odp.Attrs.Getters.{
  get_optional_bytes-if, get_optional_uint8-if, get_empty-if, get_optional_uint16-if,
}
use go_odp.Tunnel.{
  TunnelAttrs, TunnelAttrsPresence, IsTunnelAttrs, parse_tunnel_attrs, parse_tunnel_attrs_data,
}
use go_odp.Tunnel.Encoding.{tunnel_attributes, tunnel_attributes-IsWithin}

-- The attributes that are written, with zeros for the rest.
abbrev pub kept : TunnelAttrs → TunnelAttrsPresence → TunnelAttrs
kept ta p = record {
  tunnel_id = if p.tunnel_id then ta.tunnel_id else replicate 8 0;
  ipv4_src = if p.ipv4_src then ta.ipv4_src else replicate 4 0;
  ipv4_dst = if p.ipv4_dst then ta.ipv4_dst else replicate 4 0;
  tos = if p.tos then ta.tos else 0;
  ttl = if p.ttl then ta.ttl else 0;
  df = p.df && ta.df;
  csum = p.csum && ta.csum;
  tp_src = if p.tp_src then ta.tp_src else 0;
  tp_dst = if p.tp_dst then ta.tp_dst else 0;
}

-- A flag that is false is not written, and counts as absent when it is read.
abbrev pub seen : TunnelAttrs → TunnelAttrsPresence → TunnelAttrsPresence
seen ta p = record p { df = p.df && ta.df; csum = p.csum && ta.csum }

if-same {ℓ} : {A : Type ℓ} (b : Bool) (a : A) → (if b then a else a) ≡ a
if-same true a = refl
if-same false a = refl

from_be-if :
    (b : Bool) (n : ℕ)
    → n < 65536
    → uint16_from_be (if b then uint16_to_be n else 0) ≡ (if b then n else 0)
from_be-if true n h = uint16_from_be-to_be n h
from_be-if false n h = unfold uint16_from_be in refl

module _ (ta : TunnelAttrs) (p : TunnelAttrsPresence) (h : IsTunnelAttrs ta) where
  found :
      (k : ℕ)
      → lookup k (attrs_of (tunnel_attributes ta p)) ≡ last_of k (tunnel_attributes ta p) none
  unfolding lookup
  found k = lookup-consume_all k (tunnel_attributes ta p) []

  -- parseTunnelAttrs reads back what is present, and which attributes those are.
  pub parse_tunnel_attrs-attributes :
      parse_tunnel_attrs (attrs_of (tunnel_attributes ta p)) ≡ ok (kept ta p, seen ta p)
  unfolding parse_tunnel_attrs
  parse_tunnel_attrs-attributes =
      let attrs = attrs_of (tunnel_attributes ta p) in
      let src = uint16_to_be ta.tp_src in
      let dst = uint16_to_be ta.tp_dst in
      rw
        (
          get_optional_bytes-if 0 attrs p.tunnel_id ta.tunnel_id (replicate 8 0)
              (found 0 ∙ simp (last_of-append, last_of-opt)) h.tunnel_id_size,
          get_optional_bytes-if 1 attrs p.ipv4_src ta.ipv4_src (replicate 4 0)
              (found 1 ∙ simp (last_of-append, last_of-opt)) h.ipv4_src_size,
          get_optional_bytes-if 2 attrs p.ipv4_dst ta.ipv4_dst (replicate 4 0)
              (found 2 ∙ simp (last_of-append, last_of-opt)) h.ipv4_dst_size,
          get_optional_uint8-if 3 attrs p.tos ta.tos (found 3 ∙ simp (last_of-append, last_of-opt)),
          get_optional_uint8-if 4 attrs p.ttl ta.ttl (found 4 ∙ simp (last_of-append, last_of-opt)),
          get_empty-if 5 attrs (p.df && ta.df) (found 5 ∙ simp (last_of-append, last_of-opt)),
          get_empty-if 6 attrs (p.csum && ta.csum) (found 6 ∙ simp (last_of-append, last_of-opt)),
          get_optional_uint16-if 9 attrs p.tp_src src (uint16_to_be-lt ta.tp_src)
              (found 9 ∙ simp (last_of-append, last_of-opt)),
          get_optional_uint16-if 10 attrs p.tp_dst dst (uint16_to_be-lt ta.tp_dst)
              (found 10 ∙ simp (last_of-append, last_of-opt)),
        )
        (rw (
          from_be-if p.tp_src ta.tp_src h.tp_src_fits,
          from_be-if p.tp_dst ta.tp_dst h.tp_dst_fits,
        ))

  -- The same from the bytes of the nested attribute.
  pub parse_tunnel_attrs_data-nested :
      parse_tunnel_attrs_data (nested (tunnel_attributes ta p)) ≡ ok (kept ta p, seen ta p)
  unfolding parse_tunnel_attrs_data
  parse_tunnel_attrs_data-nested =
      rw
        (parse_nested_attrs-nested (tunnel_attributes ta p)
          (tunnel_attributes-IsWithin ta p h).all_fit)
        parse_tunnel_attrs-attributes
