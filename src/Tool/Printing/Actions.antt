-- ===== src/Tool/Printing/Actions.antt =====
-- The options that are printed for a tunnel to set are read back.
use go_odp.Prelude.{
  ℕ, ◌≡◌, refl, sym, ap, ◌∙◌, List, Bool, true, false, Option, none, some, ok, if◌then◌else◌,
  replicate, inl, inr,
}
use go_odp.Tunnel.{TunnelAttrs, TunnelAttrsPresence, no_tunnel_attrs}
use go_odp.Flow.Key.{TunnelFlowKey}
use go_odp.Flow.Action.{SetTunnelAction}
use go_odp.Flow.Setters.{
  key_set_tunnel_id, key_set_ipv4_src, key_set_ipv4_dst, key_set_tos, key_set_ttl, key_set_df,
  key_set_csum, key_set_tp_src, key_set_tp_dst,
}
use go_odp.Tool.Options.{ℤ, TunnelFlags, new_tunnel_flow_key, parse_set_tunnel_flags, any_present}
use go_odp.Tool.Flags.{parse_set_tunnel_flags-presence_of}
use go_odp.Tool.Printing.{
  arguments, add_tunnel_flags, set_if, key_of_action, print_set_tunnel_options,
}
use go_odp.Tool.Printing.Names.{set_tunnel_prefix}
use go_odp.Tool.Printing.Attributes.{
  IsWholeKey, IsReadable, up_to_id, up_to_src, up_to_dst, up_to_tos, up_to_ttl, up_to_df,
  up_to_csum, up_to_tp_src, both_equal, id_part, src_part, dst_part, tos_part, ttl_part, df_part,
  csum_part, tp_src_part, tp_dst_part,
}
use go_odp.Tool.Printing.RoundTrip.{parse_tunnel_flags-print_tunnel_options}
use go_odp.Tool.Printing.Shown.{
  Shows, HasLength, FitsIn, IsShown, exact_mask, if_self, whole_bytes, whole_number8,
  whole_number16, whole_bool, presence_of-exact_mask,
}

-- A setter that is called where the attribute is present: `part` puts a value into the attributes
-- before it.
set_if-Shows :
    {A : Type 0} (Fits : A → Type 0) (zero ones : A) (p : Bool) (v : A)
    (set : A → TunnelFlowKey → TunnelFlowKey) (key mask : A → TunnelAttrs)
    → Shows Fits zero p v
    → ((w : A)
        → set w (record { key = key zero; mask = mask zero })
          ≡ record { key = key w; mask = mask ones })
    → set_if p set v (record { key = key zero; mask = mask zero })
      ≡ record { key = key v; mask = mask (if p then ones else zero) }
set_if-Shows Fits zero ones p v set key mask (inl (e, fits)) sets = rw e (sets v)
set_if-Shows Fits zero ones p v set key mask (inr (e, z)) sets =
    rw e (both_equal key mask (sym z) refl)

abbrev exact_key : SetTunnelAction → TunnelFlowKey
exact_key a = record { key = a.attrs; mask = exact_mask a.present }

-- The steps of key_of_action.
module _ (a : SetTunnelAction) (h : IsShown a) where
  abbrev part_of : (TunnelAttrs → TunnelAttrs) → TunnelFlowKey
  part_of part = record { key = part a.attrs; mask = part (exact_mask a.present) }

  id_set :
      set_if a.present.tunnel_id key_set_tunnel_id a.attrs.tunnel_id new_tunnel_flow_key
      ≡ part_of up_to_id
  unfolding key_set_tunnel_id
  id_set =
      set_if-Shows (HasLength 8) (replicate 8 0) (replicate 8 0xff) a.present.tunnel_id
        a.attrs.tunnel_id key_set_tunnel_id (id_part no_tunnel_attrs) (id_part no_tunnel_attrs)
        h.tunnel_id (λ w. refl)

  src_set :
      set_if a.present.ipv4_src key_set_ipv4_src a.attrs.ipv4_src (part_of up_to_id)
      ≡ part_of up_to_src
  unfolding key_set_ipv4_src
  src_set =
      set_if-Shows (HasLength 4) (replicate 4 0) (replicate 4 0xff) a.present.ipv4_src
        a.attrs.ipv4_src key_set_ipv4_src (src_part (up_to_id a.attrs))
        (src_part (up_to_id (exact_mask a.present))) h.ipv4_src (λ w. refl)

  dst_set :
      set_if a.present.ipv4_dst key_set_ipv4_dst a.attrs.ipv4_dst (part_of up_to_src)
      ≡ part_of up_to_dst
  unfolding key_set_ipv4_dst
  dst_set =
      set_if-Shows (HasLength 4) (replicate 4 0) (replicate 4 0xff) a.present.ipv4_dst
        a.attrs.ipv4_dst key_set_ipv4_dst (dst_part (up_to_src a.attrs))
        (dst_part (up_to_src (exact_mask a.present))) h.ipv4_dst (λ w. refl)

  tos_set : set_if a.present.tos key_set_tos a.attrs.tos (part_of up_to_dst) ≡ part_of up_to_tos
  unfolding key_set_tos
  tos_set =
      set_if-Shows (FitsIn 8) 0 0xff a.present.tos a.attrs.tos key_set_tos
        (tos_part (up_to_dst a.attrs)) (tos_part (up_to_dst (exact_mask a.present))) h.tos
        (λ w. refl)

  ttl_set : set_if a.present.ttl key_set_ttl a.attrs.ttl (part_of up_to_tos) ≡ part_of up_to_ttl
  unfolding key_set_ttl
  ttl_set =
      set_if-Shows (FitsIn 8) 0 0xff a.present.ttl a.attrs.ttl key_set_ttl
        (ttl_part (up_to_tos a.attrs)) (ttl_part (up_to_tos (exact_mask a.present))) h.ttl
        (λ w. refl)

  df_set : set_if a.present.df key_set_df a.attrs.df (part_of up_to_ttl) ≡ part_of up_to_df
  unfolding key_set_df
  df_set =
      set_if-Shows (λ b. Unit {0}) false true a.present.df a.attrs.df key_set_df
        (df_part (up_to_ttl a.attrs)) (df_part (up_to_ttl (exact_mask a.present))) h.df (λ w. refl)
      ∙ both_equal (df_part (up_to_ttl a.attrs)) (df_part (up_to_ttl (exact_mask a.present))) refl
          (if_self a.present.df)

  csum_set : set_if a.present.csum key_set_csum a.attrs.csum (part_of up_to_df) ≡ part_of up_to_csum
  unfolding key_set_csum
  csum_set =
      set_if-Shows (λ b. Unit {0}) false true a.present.csum a.attrs.csum key_set_csum
        (csum_part (up_to_df a.attrs)) (csum_part (up_to_df (exact_mask a.present))) h.csum
        (λ w. refl)
      ∙ both_equal (csum_part (up_to_df a.attrs)) (csum_part (up_to_df (exact_mask a.present))) refl
          (if_self a.present.csum)

  tp_src_set :
      set_if a.present.tp_src key_set_tp_src a.attrs.tp_src (part_of up_to_csum)
      ≡ part_of up_to_tp_src
  unfolding key_set_tp_src
  tp_src_set =
      set_if-Shows (FitsIn 16) 0 0xffff a.present.tp_src a.attrs.tp_src key_set_tp_src
        (tp_src_part (up_to_csum a.attrs)) (tp_src_part (up_to_csum (exact_mask a.present)))
        h.tp_src (λ w. refl)

  tp_dst_set :
      set_if a.present.tp_dst key_set_tp_dst a.attrs.tp_dst (part_of up_to_tp_src) ≡ exact_key a
  unfolding key_set_tp_dst
  tp_dst_set =
      set_if-Shows (FitsIn 16) 0 0xffff a.present.tp_dst a.attrs.tp_dst key_set_tp_dst
        (tp_dst_part (up_to_tp_src a.attrs)) (tp_dst_part (up_to_tp_src (exact_mask a.present)))
        h.tp_dst (λ w. refl)

  key_of_action-Shown : key_of_action a ≡ exact_key a
  unfolding key_of_action
  key_of_action-Shown =
      rw (id_set, src_set, dst_set, tos_set, ttl_set, df_set, csum_set, tp_src_set, tp_dst_set) refl

  exact_key-IsWholeKey : IsWholeKey (exact_key a)
  exact_key-IsWholeKey = record {
    tunnel_id = whole_bytes 8 a.present.tunnel_id a.attrs.tunnel_id h.tunnel_id;
    ipv4_src = whole_bytes 4 a.present.ipv4_src a.attrs.ipv4_src h.ipv4_src;
    ipv4_dst = whole_bytes 4 a.present.ipv4_dst a.attrs.ipv4_dst h.ipv4_dst;
    tos = whole_number8 a.present.tos a.attrs.tos h.tos;
    ttl = whole_number8 a.present.ttl a.attrs.ttl h.ttl;
    df = whole_bool a.present.df a.attrs.df h.df;
    csum = whole_bool a.present.csum a.attrs.csum h.csum;
    tp_src = whole_number16 a.present.tp_src a.attrs.tp_src h.tp_src;
    tp_dst = whole_number16 a.present.tp_dst a.attrs.tp_dst h.tp_dst;
  }

module _ {int_of : List ℕ → Option ℤ} {net_ipv4 hex_bytes : List ℕ → Option (List ℕ)}
    {decimal : ℕ → List ℕ} {hex_text ipv4_text : List ℕ → List ℕ}
    (readable : IsReadable int_of net_ipv4 hex_bytes decimal hex_text ipv4_text) where
  -- Let int_of read the numbers below 2^16 that `%d` prints, let hex.DecodeString and net.ParseIP read
  -- what hex.EncodeToString and net.IP.String print, and let an action to set a tunnel have an attribute
  -- that is present, and zeros for those that are absent. Then the options that printSetTunnelOptions
  -- prints for it, given to the tool, are flags that parseSetTunnelFlags makes that action of.
  pub parse_set_tunnel_flags-print_set_tunnel_options :
      (a : SetTunnelAction)
      → IsShown a
      → any_present a.present ≡ true
      → (tf : TunnelFlags) × (add_tunnel_flags int_of set_tunnel_prefix
            (arguments (print_set_tunnel_options decimal hex_text ipv4_text a))
          ≡ some tf)
        × (parse_set_tunnel_flags net_ipv4 hex_bytes tf ≡ ok (some a))
  unfolding print_set_tunnel_options
  parse_set_tunnel_flags-print_set_tunnel_options a h some_present =
      let (tf, flags, parsed) =
        parse_tunnel_flags-print_tunnel_options readable (exact_key a) set_tunnel_prefix
          (exact_key-IsWholeKey a h) in
      (
        tf,
        rw (key_of_action-Shown a h) flags,
        parse_set_tunnel_flags-presence_of net_ipv4 hex_bytes tf (exact_key a) parsed
            ∙ ap
                (λ (p : TunnelAttrsPresence).
                  ok (
                    if any_present p then some (record { attrs = a.attrs; present = p }) else none))
                (presence_of-exact_mask a.present)
            ∙ rw some_present refl,
      )
