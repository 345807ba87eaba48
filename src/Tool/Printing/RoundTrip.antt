-- ===== src/Tool/Printing/RoundTrip.antt =====
-- The options that are printed for a tunnel are read back.
use go_odp.Prelude.{
  arith, ℕ, ◌≡◌, refl, ap, ◌∙◌, List, [], ◌∷◌, ◌++◌, Option, none, some, ok, bytes_equal, ==_self,
  if◌then◌else◌,
}
use go_odp.Flow.Key.{TunnelFlowKey}
use go_odp.Tool.Options.{ℤ, negsuc, TunnelFlags, parse_tunnel_flags}
use go_odp.Tool.Printing.{
  Printed, print_tunnel_options, arguments, string_var, int_var, when_int, add_tunnel_flags,
}
use go_odp.Tool.Printing.Names.{
  id_name, ipv4_src_name, ipv4_dst_name, tos_name, ttl_name, df_name, csum_name, tp_src_name,
  tp_dst_name,
}
use go_odp.Tool.Printing.Reading.{
  argument_or, string_over, string_var-arguments, chosen_or, int_over, int_var-arguments,
  read_or-print_int,
}
use go_odp.Tool.Printing.Attributes.{IsWholeKey, IsReadable}
use go_odp.Tool.Printing.Steps.{
  flags_of, id_read, src_read, dst_read, tos_read, ttl_read, df_read, csum_read, tp_src_read,
  tp_dst_read,
}

-- A prefix of the names.
abbrev with_prefix : List ℕ → Printed → Printed
with_prefix prefix [] = []
with_prefix prefix ((name, v) ∷ options) = (prefix ++ name, v) ∷ with_prefix prefix options

bytes_equal-prefix :
    (prefix a b : List ℕ) → bytes_equal (prefix ++ a) (prefix ++ b) ≡ bytes_equal a b
unfolding bytes_equal
bytes_equal-prefix [] a b = refl
bytes_equal-prefix (c ∷ prefix) a b = rw (==_self c) (bytes_equal-prefix prefix a b)

string_over-prefix :
    (prefix name value : List ℕ) (options : Printed)
    → string_over (prefix ++ name) value (with_prefix prefix options)
      ≡ string_over name value options
string_over-prefix prefix name value [] = refl
string_over-prefix prefix name value ((other, v) ∷ options) =
    string_over-prefix prefix name
      (if bytes_equal (prefix ++ other) (prefix ++ name) then argument_or value v else value)
      options
    ∙ ap (λ b. string_over name (if b then argument_or value v else value) options)
        (bytes_equal-prefix prefix other name)

module _ (int_of : List ℕ → Option ℤ) where
  int_over-prefix :
      (prefix name : List ℕ) (value : ℤ) (options : Printed)
      → int_over int_of (prefix ++ name) value (with_prefix prefix options)
        ≡ int_over int_of name value options
  int_over-prefix prefix name value [] = refl
  int_over-prefix prefix name value ((other, v) ∷ options) =
      rw (bytes_equal-prefix prefix other name) (
        behind (chosen_or int_of value (bytes_equal other name) v)
          (λ next. int_over-prefix prefix name next options))
    where
      behind :
          (read : Option ℤ)
          → ((next : ℤ)
              → int_over int_of (prefix ++ name) next (with_prefix prefix options)
                ≡ int_over int_of name next options)
          → when_int int_of read
              (λ next. int_over int_of (prefix ++ name) next (with_prefix prefix options))
            ≡ when_int int_of read (λ next. int_over int_of name next options)
      behind none h = refl
      behind (some next) h = h next

module _ {int_of : List ℕ → Option ℤ} {net_ipv4 hex_bytes : List ℕ → Option (List ℕ)}
    {decimal : ℕ → List ℕ} {hex_text ipv4_text : List ℕ → List ℕ}
    (readable : IsReadable int_of net_ipv4 hex_bytes decimal hex_text ipv4_text) where
  add_tunnel_flags-print :
      (fk : TunnelFlowKey) (prefix : List ℕ)
      → IsWholeKey fk
      → add_tunnel_flags int_of prefix
          (arguments (print_tunnel_options decimal hex_text ipv4_text fk prefix))
        ≡ some (flags_of readable fk)
  unfolding add_tunnel_flags print_tunnel_options bytes_equal
  add_tunnel_flags-print fk prefix h =
      rw
        (
          number tos_name,
          number ttl_name,
          number tp_src_name,
          number tp_dst_name,
          read_or-print_int int_of decimal 8 fk.key.tos fk.mask.tos (λ e. cc) h.tos
              (λ l. omega (arith, l)) readable.reads_int,
          read_or-print_int int_of decimal 8 fk.key.ttl fk.mask.ttl (λ e. cc) h.ttl
              (λ l. omega (arith, l)) readable.reads_int,
          read_or-print_int int_of decimal 16 fk.key.tp_src fk.mask.tp_src (λ e. cc) h.tp_src
              (λ l. omega (arith, l)) readable.reads_int,
          read_or-print_int int_of decimal 16 fk.key.tp_dst fk.mask.tp_dst (λ e. cc) h.tp_dst
              (λ l. omega (arith, l)) readable.reads_int,
          text id_name,
          text ipv4_src_name,
          text ipv4_dst_name,
          text df_name,
          text csum_name,
        )
        refl
    where
      options : Printed
      options = print_tunnel_options decimal hex_text ipv4_text fk []

      text :
          (name : List ℕ)
          → string_var (prefix ++ name) [] (arguments (with_prefix prefix options))
            ≡ string_over name [] options
      text name =
          string_var-arguments (prefix ++ name) [] (with_prefix prefix options)
          ∙ string_over-prefix prefix name [] options

      number :
          (name : List ℕ)
          → int_var int_of (prefix ++ name) (negsuc 0) (arguments (with_prefix prefix options))
            ≡ int_over int_of name (negsuc 0) options
      number name =
          int_var-arguments int_of (prefix ++ name) (negsuc 0) (with_prefix prefix options)
          ∙ int_over-prefix int_of prefix name (negsuc 0) options

  -- Let int_of read the numbers below 2^16 that `%d` prints, let hex.DecodeString and net.ParseIP read
  -- what hex.EncodeToString and net.IP.String print, and let every attribute of a tunnel key be matched
  -- as a whole, or not at all and then zero. Then the options that printTunnelOptions prints for the
  -- key, given to the tool under the same prefix, are flags that parseTunnelFlags makes that key of.
  pub parse_tunnel_flags-print_tunnel_options :
      (fk : TunnelFlowKey) (prefix : List ℕ)
      → IsWholeKey fk
      → (tf : TunnelFlags) × (add_tunnel_flags int_of prefix
            (arguments (print_tunnel_options decimal hex_text ipv4_text fk prefix))
          ≡ some tf)
        × (parse_tunnel_flags net_ipv4 hex_bytes tf ≡ ok fk)
  unfolding parse_tunnel_flags
  parse_tunnel_flags-print_tunnel_options fk prefix h = (
    flags_of readable fk,
    add_tunnel_flags-print fk prefix h,
    rw
        (
          id_read readable fk h,
          src_read readable fk h,
          dst_read readable fk h,
          tos_read readable fk h,
          ttl_read readable fk h,
          df_read readable fk h,
          csum_read readable fk h,
          tp_src_read readable fk h,
          tp_dst_read readable fk h,
        )
        refl,
  )
