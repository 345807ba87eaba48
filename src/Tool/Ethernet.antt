-- ===== src/Tool/Ethernet.antt =====
-- tool/odp/main.go: the options for the ethernet addresses of the flow commands. A text is its bytes.
use go_odp.Prelude.{
  ◌≡◌, refl, ap, ℕ, ◌+◌, ◌==◌, List, [], ◌∷◌, Option, none, some, Result, ok, err, Error,
  if◌then◌else◌, length, replicate, take, drop, invalid_mac,
}
use go_odp.Flow.Blob.{new_ethernet_flow_key, set_masked_eth_src, set_masked_eth_dst}
use go_odp.Flow.Key.{ethernet}
use go_odp.Flow.Spec.{FlowSpec, add_key}

-- strings.Index of one byte; none for -1.
unfoldable pub index_of : ℕ → List ℕ → Option ℕ
index_of sep [] = none
index_of sep (c ∷ text) =
    if c == sep then some 0 else elim (index_of sep text) [ some i ↦ some (i + 1) | none ↦ none ]

-- The bytes of ff:ff:ff:ff:ff:ff.
abbrev pub exact_mac : List ℕ
exact_mac =
    b'f' ∷ b'f' ∷ b':' ∷ b'f' ∷ b'f' ∷ b':' ∷ b'f' ∷ b'f' ∷ b':' ∷ b'f' ∷ b'f' ∷ b':' ∷ b'f' ∷ b'f'
    ∷ b':' ∷ b'f' ∷ b'f' ∷ []

-- The texts of the address and of its mask: an ampersand parts them, but not as the first byte.
abbrev pub parts_at : List ℕ → Option ℕ → List ℕ × List ℕ
parts_at opt none = (opt, exact_mac)
parts_at opt (some i) = if i == 0 then (opt, exact_mac) else (take i opt, drop (i + 1) opt)

unfoldable pub address_and_mask : List ℕ → List ℕ × List ℕ
unfolding index_of
address_and_mask opt = parts_at opt (index_of 38 opt)

-- The address, the mask and the error: what was not parsed is zeros.
pub record EthernetAddr : Type 0 where
  pub key : List ℕ
  pub mask : List ℕ
  pub failure : Option Error

abbrev pub zeros_mac : List ℕ
zeros_mac = replicate 6 0

abbrev pub parsed_mask : List ℕ → Result (List ℕ) → EthernetAddr
parsed_mask key (ok mask) = record { key = key; mask = mask; failure = none }
parsed_mask key (err e) = record { key = key; mask = zeros_mac; failure = some e }
parsed_mask key _ = record { key = key; mask = zeros_mac; failure = none }

-- takeErr keeps the error of the last call alone.
abbrev pub flow_with : FlowSpec → EthernetAddr → EthernetAddr → Result FlowSpec
flow_with flow s d =
    let with_src = set_masked_eth_src s.key s.mask new_ethernet_flow_key in
    let fk = set_masked_eth_dst d.key d.mask with_src in
    elim d.failure [ some e ↦ err e | none ↦ ok (add_key (ethernet fk) flow) ]

-- `net_mac` is net.ParseMAC; none is an error.
module _ (net_mac : List ℕ → Option (List ℕ)) where
  unfoldable pub parse_mac : List ℕ → Result (List ℕ)
  parse_mac text = elim (net_mac text) [
    | some mac ↦ if length mac == 6 then ok mac else err (invalid_mac text)
    | none ↦ err (invalid_mac text)
  ]

  abbrev pub parsed_address : List ℕ → Result (List ℕ) → EthernetAddr
  parsed_address mask_text (ok key) = parsed_mask key (parse_mac mask_text)
  parsed_address mask_text (err e) = record { key = zeros_mac; mask = zeros_mac; failure = some e }
  parsed_address mask_text _ = record { key = zeros_mac; mask = zeros_mac; failure = none }

  unfoldable pub handle_ethernet_addr_option : List ℕ → EthernetAddr
  unfolding address_and_mask parse_mac
  handle_ethernet_addr_option [] = record { key = zeros_mac; mask = zeros_mac; failure = none }
  handle_ethernet_addr_option (c ∷ opt) =
      let (address, mask) = address_and_mask (c ∷ opt) in parsed_address mask (parse_mac address)

  unfoldable pub handle_ethernet_flow_key_options : FlowSpec → List ℕ → List ℕ → Result FlowSpec
  unfolding handle_ethernet_addr_option set_masked_eth_src set_masked_eth_dst new_ethernet_flow_key
      add_key
  handle_ethernet_flow_key_options flow src dst =
      flow_with flow (handle_ethernet_addr_option src) (handle_ethernet_addr_option dst)

  addr_option-refused :
      (c : ℕ) (opt : List ℕ) (e : Error)
      → parse_mac (address_and_mask (c ∷ opt)).0 ≡ err e
      → handle_ethernet_addr_option (c ∷ opt)
        ≡ record { key = zeros_mac; mask = zeros_mac; failure = some e }
  unfolding handle_ethernet_addr_option
  addr_option-refused c opt e refused = rw refused refl

  -- An ethernet source address that is not parsed is as good as none: the error is lost, and the flow
  -- that is made, or the error for the destination, is the one without the option.
  pub handle_ethernet_flow_key_options-bad_source :
      (flow : FlowSpec) (c : ℕ) (src dst : List ℕ) (e : Error)
      → parse_mac (address_and_mask (c ∷ src)).0 ≡ err e
      → ((handle_ethernet_addr_option (c ∷ src)).failure ≡ some e)
        × (handle_ethernet_flow_key_options flow (c ∷ src) dst
            ≡ handle_ethernet_flow_key_options flow [] dst)
  unfolding handle_ethernet_flow_key_options
  handle_ethernet_flow_key_options-bad_source flow c src dst e refused =
      let dest = handle_ethernet_addr_option dst in
      let lost = addr_option-refused c src e refused in
      (
        ap (λ (a : EthernetAddr). a.failure) lost,
        ap (λ (a : EthernetAddr). flow_with flow a dest) lost,
      )
