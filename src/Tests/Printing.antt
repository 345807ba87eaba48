-- ===== src/Tests/Printing.antt =====
-- The theorems about printed options, at readers and printers that take a number for a text.
use go_odp.Prelude.{
  ℕ, ◌+◌, ◌-◌, ◌==◌, ◌≡◌, ◌≢◌, refl, sym, ap, ◌∙◌, List, [], ◌∷◌, Bool, true, false, Option, none,
  some, ok, inl, inr, length, replicate, All, map, if◌then◌else◌, bytes_equal, bytes_equal→eq,
  Bool-cases, ==_false, arith,
}
use go_odp.Tunnel.{no_tunnel_attrs, nothing_present}
use go_odp.Flow.Key.{TunnelFlowKey, ethernet}
use go_odp.Flow.Action.{SetTunnelAction}
use go_odp.Flow.Setters.{key_set_tunnel_id, key_set_tos, key_set_df, action_set_ttl}
use go_odp.Flow.Blob.{new_ethernet_flow_key, set_masked_eth_src, set_masked_eth_dst}
use go_odp.Flow.Spec.{new_flow_spec, add_key}
use go_odp.Tool.Options.{
  ℤ, pos, TunnelFlags, new_tunnel_flow_key, parse_tunnel_flags, parse_set_tunnel_flags,
}
use go_odp.Tool.Ethernet.{exact_mac, handle_ethernet_flow_key_options}
use go_odp.Tool.Printing.{
  add_tunnel_flags, arguments, print_tunnel_options, print_set_tunnel_options,
  print_eth_addr_option,
}
use go_odp.Tool.Printing.Names.{tunnel_prefix, set_tunnel_prefix}
use go_odp.Tool.Printing.Reading.{argument_or}
use go_odp.Tool.Printing.Attributes.{IsWholeKey, IsReadable}
use go_odp.Tool.Printing.RoundTrip.{parse_tunnel_flags-print_tunnel_options}
use go_odp.Tool.Printing.Shown.{IsShown}
use go_odp.Tool.Printing.Actions.{parse_set_tunnel_flags-print_set_tunnel_options}
use go_odp.Tool.Printing.Addresses.{
  IsMacText, IsMasked, handle_ethernet_flow_key_options-print_eth_addr_option,
}

abbrev decimal : ℕ → List ℕ
decimal n = n ∷ []

abbrev int_of : List ℕ → Option ℤ
int_of [] = none
int_of (n ∷ text) = some (pos n)

abbrev same : List ℕ → List ℕ
same bytes = bytes

abbrev some_bytes : List ℕ → Option (List ℕ)
some_bytes bytes = some bytes

no_length : (n : ℕ) (bytes : List ℕ) → n ≢ 0 → length bytes ≡ n → bytes ≢ []
no_length n bytes some_length l e = some_length (omega (arith, l, ap length e))

readable : IsReadable int_of some_bytes some_bytes decimal same same
readable = record {
  reads_int = λ n small. refl;
  reads_hex = λ id l. refl;
  some_hex = λ id l. no_length 8 id (λ e. omega arith) l;
  reads_ipv4 = λ ip l. refl;
  some_ipv4 = λ ip l. no_length 4 ip (λ e. omega arith) l;
}

abbrev tunnel_key : TunnelFlowKey
tunnel_key =
    key_set_tunnel_id (replicate 8 7) (key_set_tos 16 (key_set_df false new_tunnel_flow_key))

tunnel_key-IsWholeKey : IsWholeKey tunnel_key
unfolding key_set_tunnel_id key_set_tos key_set_df
tunnel_key-IsWholeKey = record {
  tunnel_id = inl (refl, refl);
  ipv4_src = inr (refl, refl);
  ipv4_dst = inr (refl, refl);
  tos = inl (omega arith, refl);
  ttl = inr (refl, refl);
  df = inl refl;
  csum = inr (refl, refl);
  tp_src = inr (refl, refl);
  tp_dst = inr (refl, refl);
}

parse_tunnel_flags-print_tunnel_options_example :
    (tf : TunnelFlags) × (add_tunnel_flags int_of tunnel_prefix
        (arguments (print_tunnel_options decimal same same tunnel_key tunnel_prefix))
      ≡ some tf)
    × (parse_tunnel_flags some_bytes some_bytes tf ≡ ok tunnel_key)
parse_tunnel_flags-print_tunnel_options_example =
    parse_tunnel_flags-print_tunnel_options readable tunnel_key tunnel_prefix tunnel_key-IsWholeKey

abbrev ttl_action : SetTunnelAction
ttl_action = action_set_ttl 64 (record { attrs = no_tunnel_attrs; present = nothing_present })

ttl_action-IsShown : IsShown ttl_action
unfolding action_set_ttl
ttl_action-IsShown = record {
  tunnel_id = inr (refl, refl);
  ipv4_src = inr (refl, refl);
  ipv4_dst = inr (refl, refl);
  tos = inr (refl, refl);
  ttl = inl (refl, omega arith);
  df = inr (refl, refl);
  csum = inr (refl, refl);
  tp_src = inr (refl, refl);
  tp_dst = inr (refl, refl);
}

parse_set_tunnel_flags-print_set_tunnel_options_example :
    (tf : TunnelFlags) × (add_tunnel_flags int_of set_tunnel_prefix
        (arguments (print_set_tunnel_options decimal same same ttl_action))
      ≡ some tf)
    × (parse_set_tunnel_flags some_bytes some_bytes tf ≡ ok (some ttl_action))
unfolding action_set_ttl
parse_set_tunnel_flags-print_set_tunnel_options_example =
    parse_set_tunnel_flags-print_set_tunnel_options readable ttl_action ttl_action-IsShown refl

-- The text of an address: all ones as the tool writes them, and other addresses in bytes from 103 on,
-- behind the letter f.
abbrev higher : List ℕ → List ℕ
higher mac = map (λ c. c + 103) mac

abbrev mac_text : List ℕ → List ℕ
mac_text mac = if bytes_equal mac (replicate 6 0xff) then exact_mac else higher mac

abbrev net_mac : List ℕ → Option (List ℕ)
net_mac [] = none
net_mac (c ∷ text) =
    if c == b'f' then some (replicate 6 0xff) else some (map (λ d. d - 103) (c ∷ text))

lower-higher : (mac : List ℕ) → map (λ d. d - 103) (higher mac) ≡ mac
lower-higher [] = refl
lower-higher (c ∷ mac) =
    ap (λ (d : ℕ). d ∷ map (λ d. d - 103) (higher mac)) {x = c + 103 - 103} {y = c} (omega arith)
    ∙ ap (◌∷◌ c) (lower-higher mac)

net_mac-higher : (mac : List ℕ) → mac ≢ [] → net_mac (higher mac) ≡ some mac
net_mac-higher [] some_mac = absurd (some_mac refl)
net_mac-higher (c ∷ mac) some_mac =
    rw (==_false (c + 103) b'f' (λ e. omega (arith, e))) (ap some (lower-higher (c ∷ mac)))

higher-no_ampersand : (mac : List ℕ) → All (λ c. c ≢ 38) (higher mac)
higher-no_ampersand [] = tt
higher-no_ampersand (c ∷ mac) = (λ e. omega (arith, e), higher-no_ampersand mac)

higher-some : (mac : List ℕ) → mac ≢ [] → higher mac ≢ []
higher-some [] some_mac = some_mac
higher-some (c ∷ mac) some_mac = λ no. cc

abbrev free : List ℕ → Bool
free [] = true
free (c ∷ text) = let rest = free text in if c == 38 then false else rest

free-All : (text : List ℕ) → free text ≡ true → All (λ c. c ≢ 38) text
free-All [] h = tt
free-All (c ∷ text) h = elim (Bool-cases (c == 38)) [
  | inl e ↦ absurd (let no : false ≡ true = rw e at h in cc)
  | inr e ↦
      (λ same. absurd (let no : (38 == 38) ≡ false = rw same at e in cc), free-All text (rw e at h))
]

text_of : IsMacText net_mac mac_text
unfolding bytes_equal
text_of = record {
  reads = λ mac l. elim (Bool-cases (bytes_equal mac (replicate 6 0xff))) [
    | inl e ↦ rw e (ap some (sym (bytes_equal→eq mac (replicate 6 0xff) e)))
    | inr e ↦ rw e (net_mac-higher mac (no_length 6 mac (λ e. omega arith) l))
  ];
  ones = refl;
  no_ampersand = λ mac l. elim (Bool-cases (bytes_equal mac (replicate 6 0xff))) [
    | inl e ↦ rw e (free-All exact_mac refl)
    | inr e ↦ rw e (higher-no_ampersand mac)
  ];
  some_text = λ mac l. elim (Bool-cases (bytes_equal mac (replicate 6 0xff))) [
    | inl e ↦ rw e (λ no. cc)
    | inr e ↦ rw e (higher-some mac (no_length 6 mac (λ e. omega arith) l))
  ];
}

abbrev source : List ℕ
source = 2 ∷ 0 ∷ 0 ∷ 0 ∷ 0 ∷ 9 ∷ []

abbrev half : List ℕ
half = 0xff ∷ 0xff ∷ 0xff ∷ 0 ∷ 0 ∷ 0 ∷ []

half-IsMasked : IsMasked source half
half-IsMasked = record { key_length = refl; mask_length = refl; ignored = λ e. absurd cc }

none-IsMasked : IsMasked (replicate 6 0) (replicate 6 0)
none-IsMasked = record { key_length = refl; mask_length = refl; ignored = λ e. refl }

handle_ethernet_flow_key_options-print_eth_addr_option_example :
    handle_ethernet_flow_key_options net_mac new_flow_spec
      (argument_or [] (print_eth_addr_option mac_text source half))
      (argument_or [] (print_eth_addr_option mac_text (replicate 6 0) (replicate 6 0)))
    ≡ ok (
        add_key
          (ethernet (
            set_masked_eth_dst
              (replicate 6 0)
              (replicate 6 0)
              (set_masked_eth_src source half new_ethernet_flow_key)))
          new_flow_spec)
handle_ethernet_flow_key_options-print_eth_addr_option_example =
    handle_ethernet_flow_key_options-print_eth_addr_option text_of new_flow_spec source half
      (replicate 6 0) (replicate 6 0) half-IsMasked none-IsMasked
