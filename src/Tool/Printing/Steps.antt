-- ===== src/Tool/Printing/Steps.antt =====
-- What parseTunnelFlags does with each of the options that are printed for a tunnel.
use go_odp.Prelude.{ℕ, ◌≡◌, refl, sym, List, [], Option, ok, length, arith}
use go_odp.Tunnel.{no_tunnel_attrs}
use go_odp.Flow.Key.{TunnelFlowKey}
use go_odp.Flow.Setters.{
  key_set_tunnel_id, key_set_ipv4_src, key_set_ipv4_dst, key_set_tos, key_set_ttl, key_set_df,
  key_set_csum, key_set_tp_src, key_set_tp_dst,
}
use go_odp.Tool.Options.{
  ℤ, TunnelFlags, with_int, with_text, new_tunnel_flow_key, parse_bool, parse_ipv4, parse_tunnel_id,
}
use go_odp.Tool.Printing.{print_bytes_option, print_bool_option}
use go_odp.Tool.Printing.Reading.{
  argument_or, with_text-print_bytes, with_text-print_bool, int_field, with_int-field,
}
use go_odp.Tool.Printing.Attributes.{
  IsWholeKey, IsReadable, parse_bool-text, up_to_id, up_to_src, up_to_dst, up_to_tos, up_to_ttl,
  up_to_df, up_to_csum, up_to_tp_src, of_both, both_equal, id_part, src_part, dst_part, tos_part,
  ttl_part, df_part, csum_part, tp_src_part, tp_dst_part,
}

module _ {int_of : List ℕ → Option ℤ} {net_ipv4 hex_bytes : List ℕ → Option (List ℕ)}
    {decimal : ℕ → List ℕ} {hex_text ipv4_text : List ℕ → List ℕ}
    (readable : IsReadable int_of net_ipv4 hex_bytes decimal hex_text ipv4_text) where
  parse_tunnel_id-text :
      (id : List ℕ) → length id ≡ 8 → parse_tunnel_id net_ipv4 hex_bytes (hex_text id) ≡ ok id
  unfolding parse_tunnel_id
  parse_tunnel_id-text id l = rw (parse_tunnel_id, readable.reads_hex id l, l) refl

  parse_ipv4-text :
      (ip : List ℕ) → length ip ≡ 4 → parse_ipv4 net_ipv4 hex_bytes (ipv4_text ip) ≡ ok ip
  unfolding parse_ipv4
  parse_ipv4-text ip l = rw (parse_ipv4, readable.reads_ipv4 ip l, l) refl

  -- What the flags of a whole key are.
  abbrev pub flags_of : TunnelFlowKey → TunnelFlags
  flags_of fk = record {
    id = argument_or [] (print_bytes_option fk.key.tunnel_id fk.mask.tunnel_id hex_text);
    ipv4_src = argument_or [] (print_bytes_option fk.key.ipv4_src fk.mask.ipv4_src ipv4_text);
    ipv4_dst = argument_or [] (print_bytes_option fk.key.ipv4_dst fk.mask.ipv4_dst ipv4_text);
    tos = int_field fk.key.tos fk.mask.tos;
    ttl = int_field fk.key.ttl fk.mask.ttl;
    df = argument_or [] (print_bool_option fk.key.df fk.mask.df);
    csum = argument_or [] (print_bool_option fk.key.csum fk.mask.csum);
    tp_src = int_field fk.key.tp_src fk.mask.tp_src;
    tp_dst = int_field fk.key.tp_dst fk.mask.tp_dst;
  }

  -- What the code does with each of the flags.
  module _ (fk : TunnelFlowKey) (h : IsWholeKey fk) where
    pub id_read :
        with_text
          (flags_of fk).id
          (parse_tunnel_id net_ipv4 hex_bytes)
          key_set_tunnel_id
          new_tunnel_flow_key
        ≡ ok (of_both up_to_id fk)
    unfolding key_set_tunnel_id
    id_read =
        with_text-print_bytes 7 hex_text (parse_tunnel_id net_ipv4 hex_bytes) key_set_tunnel_id
          fk.key.tunnel_id fk.mask.tunnel_id new_tunnel_flow_key (of_both up_to_id fk) h.tunnel_id
          (readable.some_hex fk.key.tunnel_id) (parse_tunnel_id-text fk.key.tunnel_id)
          (λ e. both_equal (id_part no_tunnel_attrs) (id_part no_tunnel_attrs) refl (sym e))
          (λ z e. both_equal (id_part no_tunnel_attrs) (id_part no_tunnel_attrs) (sym z) (sym e))

    pub src_read :
        with_text
          (flags_of fk).ipv4_src
          (parse_ipv4 net_ipv4 hex_bytes)
          key_set_ipv4_src
          (of_both up_to_id fk)
        ≡ ok (of_both up_to_src fk)
    unfolding key_set_ipv4_src
    src_read =
        with_text-print_bytes 3 ipv4_text (parse_ipv4 net_ipv4 hex_bytes) key_set_ipv4_src
          fk.key.ipv4_src fk.mask.ipv4_src (of_both up_to_id fk) (of_both up_to_src fk) h.ipv4_src
          (readable.some_ipv4 fk.key.ipv4_src) (parse_ipv4-text fk.key.ipv4_src)
          (λ e. both_equal (src_part (up_to_id fk.key)) (src_part (up_to_id fk.mask)) refl (sym e))
          (λ z e.
            both_equal (src_part (up_to_id fk.key)) (src_part (up_to_id fk.mask)) (sym z) (sym e))

    pub dst_read :
        with_text
          (flags_of fk).ipv4_dst
          (parse_ipv4 net_ipv4 hex_bytes)
          key_set_ipv4_dst
          (of_both up_to_src fk)
        ≡ ok (of_both up_to_dst fk)
    unfolding key_set_ipv4_dst
    dst_read =
        with_text-print_bytes 3 ipv4_text (parse_ipv4 net_ipv4 hex_bytes) key_set_ipv4_dst
          fk.key.ipv4_dst fk.mask.ipv4_dst (of_both up_to_src fk) (of_both up_to_dst fk) h.ipv4_dst
          (readable.some_ipv4 fk.key.ipv4_dst) (parse_ipv4-text fk.key.ipv4_dst)
          (λ e.
            both_equal (dst_part (up_to_src fk.key)) (dst_part (up_to_src fk.mask)) refl (sym e))
          (λ z e.
            both_equal (dst_part (up_to_src fk.key)) (dst_part (up_to_src fk.mask)) (sym z) (sym e))

    pub tos_read :
        with_int 8 (flags_of fk).tos key_set_tos (of_both up_to_dst fk) ≡ (of_both up_to_tos fk)
    unfolding key_set_tos
    tos_read =
        with_int-field 8 fk.key.tos fk.mask.tos key_set_tos (of_both up_to_dst fk)
          (of_both up_to_tos fk) (λ e. cc) (λ l. omega (arith, l)) h.tos
          (λ e.
            both_equal (tos_part (up_to_dst fk.key)) (tos_part (up_to_dst fk.mask)) refl (sym e))
          (λ z e.
            both_equal (tos_part (up_to_dst fk.key)) (tos_part (up_to_dst fk.mask)) (sym z) (sym e))

    pub ttl_read :
        with_int 8 (flags_of fk).ttl key_set_ttl (of_both up_to_tos fk) ≡ (of_both up_to_ttl fk)
    unfolding key_set_ttl
    ttl_read =
        with_int-field 8 fk.key.ttl fk.mask.ttl key_set_ttl (of_both up_to_tos fk)
          (of_both up_to_ttl fk) (λ e. cc) (λ l. omega (arith, l)) h.ttl
          (λ e.
            both_equal (ttl_part (up_to_tos fk.key)) (ttl_part (up_to_tos fk.mask)) refl (sym e))
          (λ z e.
            both_equal (ttl_part (up_to_tos fk.key)) (ttl_part (up_to_tos fk.mask)) (sym z) (sym e))

    pub df_read :
        with_text (flags_of fk).df parse_bool key_set_df (of_both up_to_ttl fk)
        ≡ ok (of_both up_to_df fk)
    unfolding key_set_df
    df_read =
        with_text-print_bool parse_bool key_set_df fk.key.df fk.mask.df (of_both up_to_ttl fk)
          (of_both up_to_df fk) h.df parse_bool-text
          (λ e. both_equal (df_part (up_to_ttl fk.key)) (df_part (up_to_ttl fk.mask)) refl (sym e))
          (λ z e.
            both_equal (df_part (up_to_ttl fk.key)) (df_part (up_to_ttl fk.mask)) (sym z) (sym e))

    pub csum_read :
        with_text (flags_of fk).csum parse_bool key_set_csum (of_both up_to_df fk)
        ≡ ok (of_both up_to_csum fk)
    unfolding key_set_csum
    csum_read =
        with_text-print_bool parse_bool key_set_csum fk.key.csum fk.mask.csum (of_both up_to_df fk)
          (of_both up_to_csum fk) h.csum parse_bool-text
          (λ e.
            both_equal (csum_part (up_to_df fk.key)) (csum_part (up_to_df fk.mask)) refl (sym e))
          (λ z e.
            both_equal (csum_part (up_to_df fk.key)) (csum_part (up_to_df fk.mask)) (sym z) (sym e))

    pub tp_src_read :
        with_int 16 (flags_of fk).tp_src key_set_tp_src (of_both up_to_csum fk)
        ≡ (of_both up_to_tp_src fk)
    unfolding key_set_tp_src
    tp_src_read =
        with_int-field 16 fk.key.tp_src fk.mask.tp_src key_set_tp_src (of_both up_to_csum fk)
          (of_both up_to_tp_src fk) (λ e. cc) (λ l. omega (arith, l)) h.tp_src
          (λ e.
            both_equal (tp_src_part (up_to_csum fk.key)) (tp_src_part (up_to_csum fk.mask)) refl
              (sym e))
          (λ z e.
            both_equal (tp_src_part (up_to_csum fk.key)) (tp_src_part (up_to_csum fk.mask)) (sym z)
              (sym e))

    pub tp_dst_read : with_int 16 (flags_of fk).tp_dst key_set_tp_dst (of_both up_to_tp_src fk) ≡ fk
    unfolding key_set_tp_dst
    tp_dst_read =
        with_int-field 16 fk.key.tp_dst fk.mask.tp_dst key_set_tp_dst (of_both up_to_tp_src fk) fk
          (λ e. cc) (λ l. omega (arith, l)) h.tp_dst
          (λ e.
            both_equal (tp_dst_part (up_to_tp_src fk.key)) (tp_dst_part (up_to_tp_src fk.mask)) refl
              (sym e))
          (λ z e.
            both_equal (tp_dst_part (up_to_tp_src fk.key)) (tp_dst_part (up_to_tp_src fk.mask))
              (sym z) (sym e))
