-- ===== src/Tunnel.antt =====
-- odp/flow.go: TunnelAttrs, the attributes of a tunnel header, and their presence. A fixed array is a
-- list of that length.
pub mod Encoding
pub mod RoundTrip
use go_odp.Prelude.{
  ℕ, ◌<◌, ◌≡◌, ◌==◌, List, [], ◌∷◌, Bool, true, false, not, ◌&&◌, Result, ok, err, panic, wild,
  out_of_fuel, ◌>>=◌, if◌then◌else◌, length, replicate,
}
use go_odp.Memory.{uint16_from_be, uint16_to_be}
use go_odp.Builder.{NlMsgBuilder, put_slice_attr, put_uint8_attr, put_empty_attr, put_uint16_attr}
use go_odp.Attrs.{
  Attrs, get_optional_bytes, get_optional_uint8, get_empty, get_optional_uint16, parse_nested_attrs,
}

unfoldable pub all_bytes : List ℕ → ℕ → Bool
all_bytes [] x = true
all_bytes (y ∷ ys) x = x == y && all_bytes ys x

pub record TunnelAttrs : Type 0 where
  pub tunnel_id : List ℕ
  pub ipv4_src : List ℕ
  pub ipv4_dst : List ℕ
  pub tos : ℕ
  pub ttl : ℕ
  pub df : Bool
  pub csum : Bool
  pub tp_src : ℕ
  pub tp_dst : ℕ

-- The arrays have their lengths, and the ports are uint16s.
pub record IsTunnelAttrs (ta : TunnelAttrs) : Type 0 where
  pub tunnel_id_size : length ta.tunnel_id ≡ 8
  pub ipv4_src_size : length ta.ipv4_src ≡ 4
  pub ipv4_dst_size : length ta.ipv4_dst ≡ 4
  pub tp_src_fits : ta.tp_src < 65536
  pub tp_dst_fits : ta.tp_dst < 65536

pub record TunnelAttrsPresence : Type 0 where
  pub tunnel_id : Bool
  pub ipv4_src : Bool
  pub ipv4_dst : Bool
  pub tos : Bool
  pub ttl : Bool
  pub df : Bool
  pub csum : Bool
  pub tp_src : Bool
  pub tp_dst : Bool

-- The zero value of Go.
abbrev pub no_tunnel_attrs : TunnelAttrs
no_tunnel_attrs = record {
  tunnel_id = replicate 8 0;
  ipv4_src = replicate 4 0;
  ipv4_dst = replicate 4 0;
  tos = 0;
  ttl = 0;
  df = false;
  csum = false;
  tp_src = 0;
  tp_dst = 0;
}

abbrev pub nothing_present : TunnelAttrsPresence
nothing_present = record {
  tunnel_id = false;
  ipv4_src = false;
  ipv4_dst = false;
  tos = false;
  ttl = false;
  df = false;
  csum = false;
  tp_src = false;
  tp_dst = false;
}

unfoldable pub present : TunnelAttrs → TunnelAttrsPresence
unfolding all_bytes
present ta = record {
  tunnel_id = not (all_bytes ta.tunnel_id 0);
  ipv4_src = not (all_bytes ta.ipv4_src 0);
  ipv4_dst = true;
  tos = not (ta.tos == 0);
  ttl = true;
  df = ta.df;
  csum = ta.csum;
  tp_src = not (ta.tp_src == 0);
  tp_dst = not (ta.tp_dst == 0);
}

-- The method `mask` of TunnelAttrsPresence.
unfoldable pub mask_of : TunnelAttrsPresence → TunnelAttrs
mask_of tap = record {
  tunnel_id = if tap.tunnel_id then replicate 8 0xff else replicate 8 0;
  ipv4_src = if tap.ipv4_src then replicate 4 0xff else replicate 4 0;
  ipv4_dst = if tap.ipv4_dst then replicate 4 0xff else replicate 4 0;
  tos = if tap.tos then 0xff else 0;
  ttl = if tap.ttl then 0xff else 0;
  df = tap.df;
  csum = tap.csum;
  tp_src = if tap.tp_src then 0xffff else 0;
  tp_dst = if tap.tp_dst then 0xffff else 0;
}

-- The OVS_TUNNEL_KEY_ATTR numbers of odp/syscall.go.
abbrev pub ovs_tunnel_key_attr_id : ℕ
ovs_tunnel_key_attr_id = 0

abbrev pub ovs_tunnel_key_attr_ipv4_src : ℕ
ovs_tunnel_key_attr_ipv4_src = 1

abbrev pub ovs_tunnel_key_attr_ipv4_dst : ℕ
ovs_tunnel_key_attr_ipv4_dst = 2

abbrev pub ovs_tunnel_key_attr_tos : ℕ
ovs_tunnel_key_attr_tos = 3

abbrev pub ovs_tunnel_key_attr_ttl : ℕ
ovs_tunnel_key_attr_ttl = 4

abbrev pub ovs_tunnel_key_attr_dont_fragment : ℕ
ovs_tunnel_key_attr_dont_fragment = 5

abbrev pub ovs_tunnel_key_attr_csum : ℕ
ovs_tunnel_key_attr_csum = 6

abbrev pub ovs_tunnel_key_attr_tp_src : ℕ
ovs_tunnel_key_attr_tp_src = 9

abbrev pub ovs_tunnel_key_attr_tp_dst : ℕ
ovs_tunnel_key_attr_tp_dst = 10

abbrev pub put_if : Bool → (NlMsgBuilder → NlMsgBuilder) → NlMsgBuilder → NlMsgBuilder
put_if b put msg = if b then put msg else msg

unfoldable pub to_nl_attrs : TunnelAttrs → TunnelAttrsPresence → NlMsgBuilder → NlMsgBuilder
unfolding put_slice_attr put_uint8_attr put_empty_attr put_uint16_attr uint16_to_be
to_nl_attrs ta present msg =
    let msg1 = put_if present.tunnel_id (put_slice_attr ovs_tunnel_key_attr_id ta.tunnel_id) msg in
    let msg2 =
      put_if present.ipv4_src (put_slice_attr ovs_tunnel_key_attr_ipv4_src ta.ipv4_src) msg1 in
    let msg3 =
      put_if present.ipv4_dst (put_slice_attr ovs_tunnel_key_attr_ipv4_dst ta.ipv4_dst) msg2 in
    let msg4 = put_if present.tos (put_uint8_attr ovs_tunnel_key_attr_tos ta.tos) msg3 in
    let msg5 = put_if present.ttl (put_uint8_attr ovs_tunnel_key_attr_ttl ta.ttl) msg4 in
    let msg6 =
      put_if (present.df && ta.df) (put_empty_attr ovs_tunnel_key_attr_dont_fragment) msg5 in
    let msg7 = put_if (present.csum && ta.csum) (put_empty_attr ovs_tunnel_key_attr_csum) msg6 in
    let msg8 =
      put_if present.tp_src (put_uint16_attr ovs_tunnel_key_attr_tp_src (uint16_to_be ta.tp_src))
        msg7 in
    put_if present.tp_dst (put_uint16_attr ovs_tunnel_key_attr_tp_dst (uint16_to_be ta.tp_dst)) msg8

-- An assignment to `err` that nothing reads before the next one.
abbrev ignore_error {ℓ} : {A : Type ℓ} → A → Result A → Result A
ignore_error a (ok b) = ok b
ignore_error a (err e) = ok a
ignore_error a panic = panic
ignore_error a wild = wild
ignore_error a out_of_fuel = out_of_fuel

unfoldable pub parse_tunnel_attrs : Attrs → Result (TunnelAttrs × TunnelAttrsPresence)
unfolding get_optional_bytes get_optional_uint8 get_empty get_optional_uint16 uint16_from_be
parse_tunnel_attrs attrs = do
  let zero4 = replicate 4 0
  (tunnel_id, has_tunnel_id) ← get_optional_bytes ovs_tunnel_key_attr_id (replicate 8 0) attrs
  (ipv4_src, has_ipv4_src) ← get_optional_bytes ovs_tunnel_key_attr_ipv4_src zero4 attrs
  (ipv4_dst, has_ipv4_dst) ←
      ignore_error (zero4, false) (get_optional_bytes ovs_tunnel_key_attr_ipv4_dst zero4 attrs)
  (tos, has_tos) ← get_optional_uint8 ovs_tunnel_key_attr_tos attrs
  (ttl, has_ttl) ← get_optional_uint8 ovs_tunnel_key_attr_ttl attrs
  df ← get_empty ovs_tunnel_key_attr_dont_fragment attrs
  csum ← get_empty ovs_tunnel_key_attr_csum attrs
  (tp_src, has_tp_src) ← get_optional_uint16 ovs_tunnel_key_attr_tp_src attrs
  (tp_dst, has_tp_dst) ← get_optional_uint16 ovs_tunnel_key_attr_tp_dst attrs
  ok (
    record {
      tunnel_id = tunnel_id;
      ipv4_src = ipv4_src;
      ipv4_dst = ipv4_dst;
      tos = tos;
      ttl = ttl;
      df = df;
      csum = csum;
      tp_src = uint16_from_be tp_src;
      tp_dst = uint16_from_be tp_dst;
    },
    record {
      tunnel_id = has_tunnel_id;
      ipv4_src = has_ipv4_src;
      ipv4_dst = has_ipv4_dst;
      tos = has_tos;
      ttl = has_ttl;
      df = df;
      csum = csum;
      tp_src = has_tp_src;
      tp_dst = has_tp_dst;
    },
  )

unfoldable pub parse_tunnel_attrs_data : List ℕ → Result (TunnelAttrs × TunnelAttrsPresence)
unfolding parse_nested_attrs parse_tunnel_attrs
parse_tunnel_attrs_data bytes = parse_nested_attrs bytes >>= parse_tunnel_attrs
