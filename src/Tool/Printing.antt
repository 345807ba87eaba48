-- ===== src/Tool/Printing.antt =====
-- tool/odp/main.go: how the options of a flow are printed, and how the flag package reads them back. A
-- text is its bytes. `%d` of an unsigned number is `decimal`, hex.EncodeToString is `hex_text`,
-- net.IP.String (of an IPv4 address) is `ipv4_text` and net.HardwareAddr.String is `mac_text`.
pub mod Names
pub mod Reading
pub mod Attributes
pub mod Steps
pub mod RoundTrip
pub mod Shown
pub mod Actions
pub mod Addresses
use go_odp.Prelude.{
  ℕ, ◌==◌, List, [], ◌∷◌, ◌++◌, Bool, true, false, Option, none, some, bytes_equal, if◌then◌else◌,
}
use go_odp.Tunnel.{TunnelAttrs, all_bytes, no_tunnel_attrs}
use go_odp.Flow.Key.{TunnelFlowKey}
use go_odp.Flow.Action.{SetTunnelAction}
use go_odp.Flow.Setters.{
  key_set_tunnel_id, key_set_ipv4_src, key_set_ipv4_dst, key_set_tos, key_set_ttl, key_set_df,
  key_set_csum, key_set_tp_src, key_set_tp_dst,
}
use go_odp.Tool.Options.{ℤ, negsuc, TunnelFlags, new_tunnel_flow_key}
use go_odp.Tool.Printing.Names.{
  id_name, ipv4_src_name, ipv4_dst_name, tos_name, ttl_name, df_name, csum_name, tp_src_name,
  tp_dst_name, set_tunnel_prefix, true_text, false_text,
}

-- The value of an option, and with a mask.
pub data OptionValue : Type 0 where
  exact_value : List ℕ → OptionValue
  masked_value : List ℕ → List ℕ → OptionValue

-- The options in the order of the prints, with those that print nothing.
abbrev pub Printed : Type 0
Printed = List (List ℕ × Option OptionValue)

-- ` --name=value`, and ` --name="value&mask"`.
unfoldable pub option_text : List ℕ → Option OptionValue → List ℕ
option_text name none = []
option_text name (some (exact_value v)) = 32 ∷ b'-' ∷ b'-' ∷ [] ++ (name ++ (b'=' ∷ v))
option_text name (some (masked_value v m)) =
    32 ∷ b'-' ∷ b'-' ∷ [] ++ (name ++ (b'=' ∷ 34 ∷ v ++ (38 ∷ m ++ (34 ∷ []))))

unfoldable pub printed_text : Printed → List ℕ
printed_text [] = []
printed_text ((name, value) ∷ options) = option_text name value ++ printed_text options

unfoldable pub print_bytes_option : List ℕ → List ℕ → (List ℕ → List ℕ) → Option OptionValue
print_bytes_option k m f =
    if all_bytes m 0
    then none
    else if all_bytes m 0xff
    then some (exact_value (f k))
    else some (masked_value (f k) (f m))

abbrev pub bool_text : Bool → List ℕ
bool_text true = true_text
bool_text false = false_text

-- `%t` of the key, where the mask is set.
abbrev pub print_bool_option : Bool → Bool → Option OptionValue
print_bool_option k m = if m then some (exact_value (bool_text k)) else none

-- The key that printSetTunnelOptions makes of an action: a setter for each attribute that is present.
abbrev pub set_if :
    {A : Type 0} → Bool → (A → TunnelFlowKey → TunnelFlowKey) → A → TunnelFlowKey → TunnelFlowKey
set_if true set a fk = set a fk
set_if false set a fk = fk

unfoldable pub key_of_action : SetTunnelAction → TunnelFlowKey
key_of_action a = set_if a.present.tp_dst key_set_tp_dst a.attrs.tp_dst (
    set_if a.present.tp_src key_set_tp_src a.attrs.tp_src (
      set_if a.present.csum key_set_csum a.attrs.csum (
        set_if a.present.df key_set_df a.attrs.df (
          set_if a.present.ttl key_set_ttl a.attrs.ttl (
            set_if a.present.tos key_set_tos a.attrs.tos (
              set_if a.present.ipv4_dst key_set_ipv4_dst a.attrs.ipv4_dst (
                set_if a.present.ipv4_src key_set_ipv4_src a.attrs.ipv4_src (
                  set_if a.present.tunnel_id key_set_tunnel_id a.attrs.tunnel_id
                    new_tunnel_flow_key))))))))

module _ (decimal : ℕ → List ℕ) where
  unfoldable pub print_int_option : ℕ → ℕ → ℕ → Option OptionValue
  print_int_option k m allbits =
      if m == 0
      then none
      else if m == allbits
      then some (exact_value (decimal k))
      else some (masked_value (decimal k) (decimal m))

  module _ (hex_text ipv4_text : List ℕ → List ℕ) where
    unfoldable pub print_tunnel_options : TunnelFlowKey → List ℕ → Printed
    print_tunnel_options fk prefix =
        (prefix ++ id_name, print_bytes_option fk.key.tunnel_id fk.mask.tunnel_id hex_text)
        ∷ (prefix ++ ipv4_src_name, print_bytes_option fk.key.ipv4_src fk.mask.ipv4_src ipv4_text)
        ∷ (prefix ++ ipv4_dst_name, print_bytes_option fk.key.ipv4_dst fk.mask.ipv4_dst ipv4_text)
        ∷ (prefix ++ tos_name, print_int_option fk.key.tos fk.mask.tos 0xff)
        ∷ (prefix ++ ttl_name, print_int_option fk.key.ttl fk.mask.ttl 0xff)
        ∷ (prefix ++ df_name, print_bool_option fk.key.df fk.mask.df)
        ∷ (prefix ++ csum_name, print_bool_option fk.key.csum fk.mask.csum)
        ∷ (prefix ++ tp_src_name, print_int_option fk.key.tp_src fk.mask.tp_src 0xffff)
        ∷ (prefix ++ tp_dst_name, print_int_option fk.key.tp_dst fk.mask.tp_dst 0xffff)
        ∷ []

    unfoldable pub print_set_tunnel_options : SetTunnelAction → Printed
    print_set_tunnel_options a = print_tunnel_options (key_of_action a) set_tunnel_prefix

-- printEthAddrOption; net.HardwareAddr.String is `mac_text`.
unfoldable pub print_eth_addr_option : (List ℕ → List ℕ) → List ℕ → List ℕ → Option OptionValue
print_eth_addr_option mac_text k m = print_bytes_option k m mac_text

-- What a shell hands over of the options: their names and values, without the quotes.
abbrev pub argument_of : OptionValue → List ℕ
argument_of (exact_value v) = v
argument_of (masked_value v m) = v ++ (38 ∷ m)

unfoldable pub arguments : Printed → List (List ℕ × List ℕ)
arguments [] = []
arguments ((name, none) ∷ options) = arguments options
arguments ((name, some value) ∷ options) = (name, argument_of value) ∷ arguments options

-- A StringVar and an IntVar of the flag package: a later option replaces an earlier one. `int_of` is
-- its conversion; where that fails, the tool exits.
unfoldable pub string_var : List ℕ → List ℕ → List (List ℕ × List ℕ) → List ℕ
string_var name value [] = value
string_var name value ((other, v) ∷ args) =
    string_var name (if bytes_equal other name then v else value) args

module _ (int_of : List ℕ → Option ℤ) where
  abbrev pub int_or : ℤ → Bool → List ℕ → Option ℤ
  int_or value true v = int_of v
  int_or value false v = some value

  abbrev pub when_int : {A : Type 0} → Option ℤ → (ℤ → Option A) → Option A
  when_int none next = none
  when_int (some value) next = next value

  unfoldable pub int_var : List ℕ → ℤ → List (List ℕ × List ℕ) → Option ℤ
  int_var name value [] = some value
  int_var name value ((other, v) ∷ args) =
      when_int (int_or value (bytes_equal other name) v) (λ next. int_var name next args)

  -- addTunnelFlags, and the values behind the Parse of the flags.
  unfoldable pub add_tunnel_flags : List ℕ → List (List ℕ × List ℕ) → Option TunnelFlags
  add_tunnel_flags prefix args = when_int (int_var (prefix ++ tos_name) (negsuc 0) args) λ tos.
      when_int (int_var (prefix ++ ttl_name) (negsuc 0) args) λ ttl.
        when_int (int_var (prefix ++ tp_src_name) (negsuc 0) args) λ tp_src.
          when_int (int_var (prefix ++ tp_dst_name) (negsuc 0) args) λ tp_dst. some (record {
            id = string_var (prefix ++ id_name) [] args;
            ipv4_src = string_var (prefix ++ ipv4_src_name) [] args;
            ipv4_dst = string_var (prefix ++ ipv4_dst_name) [] args;
            tos = tos;
            ttl = ttl;
            df = string_var (prefix ++ df_name) [] args;
            csum = string_var (prefix ++ csum_name) [] args;
            tp_src = tp_src;
            tp_dst = tp_dst;
          })
