-- ===== src/Tool/Printing/Attributes.antt =====
-- The options that are printed for a tunnel, one by one.
use go_odp.Prelude.{
  ℕ, ◌<◌, ◌≡◌, ◌≢◌, refl, List, [], Bool, true, false, Option, some, ok, bytes_equal, length,
}
use go_odp.Tunnel.{TunnelAttrs, no_tunnel_attrs}
use go_odp.Flow.Key.{TunnelFlowKey}
use go_odp.Tool.Options.{ℤ, pos, parse_bool, bool_of, make_bool_strings, split_at}
use go_odp.Tool.Printing.{bool_text}
use go_odp.Tool.Printing.Reading.{IsWhole, IsWholeNumber, IsWholeBool}

-- Each attribute is matched as a whole, or not at all and then zero.
pub record IsWholeKey (fk : TunnelFlowKey) : Type 0 where
  pub tunnel_id : IsWhole 8 fk.key.tunnel_id fk.mask.tunnel_id
  pub ipv4_src : IsWhole 4 fk.key.ipv4_src fk.mask.ipv4_src
  pub ipv4_dst : IsWhole 4 fk.key.ipv4_dst fk.mask.ipv4_dst
  pub tos : IsWholeNumber 8 fk.key.tos fk.mask.tos
  pub ttl : IsWholeNumber 8 fk.key.ttl fk.mask.ttl
  pub df : IsWholeBool fk.key.df fk.mask.df
  pub csum : IsWholeBool fk.key.csum fk.mask.csum
  pub tp_src : IsWholeNumber 16 fk.key.tp_src fk.mask.tp_src
  pub tp_dst : IsWholeNumber 16 fk.key.tp_dst fk.mask.tp_dst

-- The library's readers read what its printers print, which is not empty. An int has more than 16
-- bits; the numbers of a tunnel have at most 16.
pub record IsReadable (int_of : List ℕ → Option ℤ) (net_ipv4 hex_bytes : List ℕ → Option (List ℕ))
    (decimal : ℕ → List ℕ) (hex_text ipv4_text : List ℕ → List ℕ) : Type 0 where
  pub reads_int : (n : ℕ) → n < 65536 → int_of (decimal n) ≡ some (pos n)
  pub reads_hex : (id : List ℕ) → length id ≡ 8 → hex_bytes (hex_text id) ≡ some id
  pub some_hex : (id : List ℕ) → length id ≡ 8 → hex_text id ≢ []
  pub reads_ipv4 : (ip : List ℕ) → length ip ≡ 4 → net_ipv4 (ipv4_text ip) ≡ some ip
  pub some_ipv4 : (ip : List ℕ) → length ip ≡ 4 → ipv4_text ip ≢ []

pub parse_bool-text : (b : Bool) → parse_bool (bool_text b) ≡ ok b
unfolding parse_bool bool_of make_bool_strings split_at bytes_equal
parse_bool-text true = refl
parse_bool-text false = refl

-- The attributes up to one of them, and zeros behind it.
module _ (a : TunnelAttrs) where
  abbrev pub up_to_id : TunnelAttrs
  up_to_id = record no_tunnel_attrs { tunnel_id = a.tunnel_id }

  abbrev pub up_to_src : TunnelAttrs
  up_to_src = record up_to_id { ipv4_src = a.ipv4_src }

  abbrev pub up_to_dst : TunnelAttrs
  up_to_dst = record up_to_src { ipv4_dst = a.ipv4_dst }

  abbrev pub up_to_tos : TunnelAttrs
  up_to_tos = record up_to_dst { tos = a.tos }

  abbrev pub up_to_ttl : TunnelAttrs
  up_to_ttl = record up_to_tos { ttl = a.ttl }

  abbrev pub up_to_df : TunnelAttrs
  up_to_df = record up_to_ttl { df = a.df }

  abbrev pub up_to_csum : TunnelAttrs
  up_to_csum = record up_to_df { csum = a.csum }

  abbrev pub up_to_tp_src : TunnelAttrs
  up_to_tp_src = record up_to_csum { tp_src = a.tp_src }

abbrev pub of_both : (TunnelAttrs → TunnelAttrs) → TunnelFlowKey → TunnelFlowKey
of_both part fk = record { key = part fk.key; mask = part fk.mask }

-- An attribute of the key and one of the mask replaced.
pub both_equal :
    {A : Type 0} (key mask : A → TunnelAttrs) {k l m n : A}
    → k ≡ l
    → m ≡ n
    → ◌≡◌ {A = TunnelFlowKey}
        (record { key = key k; mask = mask m })
        (record { key = key l; mask = mask n })
both_equal key mask e f = λ i. record { key = key (e i); mask = mask (f i) }

-- One attribute replaced.
abbrev pub id_part : TunnelAttrs → List ℕ → TunnelAttrs
id_part a v = record a { tunnel_id = v }

abbrev pub src_part : TunnelAttrs → List ℕ → TunnelAttrs
src_part a v = record a { ipv4_src = v }

abbrev pub dst_part : TunnelAttrs → List ℕ → TunnelAttrs
dst_part a v = record a { ipv4_dst = v }

abbrev pub tos_part : TunnelAttrs → ℕ → TunnelAttrs
tos_part a v = record a { tos = v }

abbrev pub ttl_part : TunnelAttrs → ℕ → TunnelAttrs
ttl_part a v = record a { ttl = v }

abbrev pub df_part : TunnelAttrs → Bool → TunnelAttrs
df_part a v = record a { df = v }

abbrev pub csum_part : TunnelAttrs → Bool → TunnelAttrs
csum_part a v = record a { csum = v }

abbrev pub tp_src_part : TunnelAttrs → ℕ → TunnelAttrs
tp_src_part a v = record a { tp_src = v }

abbrev pub tp_dst_part : TunnelAttrs → ℕ → TunnelAttrs
tp_dst_part a v = record a { tp_dst = v }
