-- ===== src/Tool/Printing/Addresses.antt =====
-- The options that are printed for ethernet addresses are read back.
use go_odp.Prelude.{
  ℕ, suc, ◌+◌, ◌==◌, ◌≡◌, ◌≢◌, refl, sym, ap, ◌∙◌, List, [], ◌∷◌, ◌++◌, true, false, Option, none,
  some, ok, length, drop, replicate, All, arith, Bool-cases, inl, inr, ==_iff, ==_false,
  take-append, drop-append, length-append, append_assoc,
}
use go_odp.Tunnel.{all_bytes}
use go_odp.Flow.Blob.{new_ethernet_flow_key, set_masked_eth_src, set_masked_eth_dst}
use go_odp.Flow.Key.{ethernet}
use go_odp.Flow.Spec.{FlowSpec, add_key}
use go_odp.Tool.Ethernet.{
  index_of, exact_mac, parts_at, address_and_mask, zeros_mac, parse_mac, parsed_address,
  handle_ethernet_addr_option, handle_ethernet_flow_key_options,
}
use go_odp.Tool.Printing.{print_bytes_option, print_eth_addr_option}
use go_odp.Tool.Printing.Reading.{argument_or}

-- What the library's text of a hardware address is: lower-case, so that the address of all ones is
-- printed as the tool writes it, without an ampersand, not empty, and read back.
pub record IsMacText (net_mac : List ℕ → Option (List ℕ)) (mac_text : List ℕ → List ℕ)
    : Type 0 where
  pub reads : (mac : List ℕ) → length mac ≡ 6 → net_mac (mac_text mac) ≡ some mac
  pub ones : mac_text (replicate 6 0xff) ≡ exact_mac
  pub no_ampersand : (mac : List ℕ) → length mac ≡ 6 → All (λ c. c ≢ 38) (mac_text mac)
  pub some_text : (mac : List ℕ) → length mac ≡ 6 → mac_text mac ≢ []

-- An address that nothing is matched of is zero.
pub record IsMasked (k m : List ℕ) : Type 0 where
  pub key_length : length k ≡ 6
  pub mask_length : length m ≡ 6
  pub ignored : m ≡ zeros_mac → k ≡ zeros_mac

all_bytes-replicate :
    (n x : ℕ) (bytes : List ℕ) → length bytes ≡ n → all_bytes bytes x ≡ true → bytes ≡ replicate n x
unfolding all_bytes
all_bytes-replicate n x [] l e = ap (λ (k : ℕ). replicate k x) {x = 0} {y = n} l
all_bytes-replicate n x (y ∷ bytes) l e = elim (Bool-cases (x == y)) [
  | inl same ↦
      let rest : all_bytes bytes x ≡ true = rw same at e in
      let first = (==_iff x y).0 same in
      ap (λ (z : ℕ). z ∷ bytes) (sym first)
      ∙ ap (◌∷◌ x) (all_bytes-replicate (length bytes) x bytes refl rest)
      ∙ ap (λ (k : ℕ). replicate k x) {x = suc (length bytes)} {y = n} l
  | inr other ↦ absurd (let no : false ≡ true = rw other at e in cc)
]

index_of-first :
    (text rest : List ℕ)
    → All (λ c. c ≢ 38) text
    → index_of 38 (text ++ (38 ∷ rest)) ≡ some (length text)
unfolding index_of
index_of-first [] rest h = refl
index_of-first (c ∷ text) rest h =
    rw (==_false c 38 h.0, index_of-first text rest h.1)
      (ap some {x = length text + 1} {y = suc (length text)} (omega arith))

index_of-none : (text : List ℕ) → All (λ c. c ≢ 38) text → index_of 38 text ≡ none
unfolding index_of
index_of-none [] h = refl
index_of-none (c ∷ text) h = rw (==_false c 38 h.0, index_of-none text h.1) refl

address_and_mask-masked :
    (text rest : List ℕ)
    → text ≢ []
    → All (λ c. c ≢ 38) text
    → address_and_mask (text ++ (38 ∷ rest)) ≡ (text, rest)
unfolding address_and_mask
address_and_mask-masked [] rest some_text h = absurd (some_text refl)
address_and_mask-masked (c ∷ text) rest some_text h =
    ap (parts_at (c ∷ text ++ (38 ∷ rest))) (index_of-first (c ∷ text) rest h)
    ∙ rw (==_false (suc (length text)) 0 (λ e. cc))
        (λ i. (take-append (suc (length text)) (c ∷ text) (38 ∷ rest) refl i, behind i))
  where
    behind : drop (suc (length text) + 1) (c ∷ text ++ (38 ∷ rest)) ≡ rest
    behind =
        ap (drop (suc (length text) + 1)) (sym (append_assoc (c ∷ text) (38 ∷ []) rest))
        ∙ drop-append (suc (length text) + 1) (c ∷ text ++ (38 ∷ [])) rest
            (omega (arith, length-append (c ∷ text) (38 ∷ [])))

append-some : (xs : List ℕ) (c : ℕ) (ys : List ℕ) → xs ++ (c ∷ ys) ≢ []
append-some [] c ys e = cc
append-some (x ∷ xs) c ys e = cc

address_and_mask-exact :
    (text : List ℕ) → All (λ c. c ≢ 38) text → address_and_mask text ≡ (text, exact_mac)
unfolding address_and_mask
address_and_mask-exact text h = ap (parts_at text) (index_of-none text h)

module _ {net_mac : List ℕ → Option (List ℕ)} {mac_text : List ℕ → List ℕ}
    (text_of : IsMacText net_mac mac_text) where
  parse_mac-text : (mac : List ℕ) → length mac ≡ 6 → parse_mac net_mac (mac_text mac) ≡ ok mac
  unfolding parse_mac
  parse_mac-text mac l = rw (parse_mac, text_of.reads mac l, l) refl

  -- An option that parts into the texts of two addresses.
  two_addresses :
      (opt : List ℕ) (k m : List ℕ)
      → opt ≢ []
      → address_and_mask opt ≡ (mac_text k, mac_text m)
      → length k ≡ 6
      → length m ≡ 6
      → handle_ethernet_addr_option net_mac opt ≡ record { key = k; mask = m; failure = none }
  unfolding handle_ethernet_addr_option
  two_addresses [] k m some_text parts l n = absurd (some_text refl)
  two_addresses (c ∷ opt) k m some_text parts l n =
      ap (λ (p : List ℕ × List ℕ). parsed_address net_mac p.1 (parse_mac net_mac p.0)) parts
      ∙ rw (parse_mac-text k l, parse_mac-text m n) refl

  handle-print :
      (k m : List ℕ)
      → IsMasked k m
      → handle_ethernet_addr_option net_mac (argument_or [] (print_eth_addr_option mac_text k m))
        ≡ record { key = k; mask = m; failure = none }
  unfolding print_eth_addr_option print_bytes_option handle_ethernet_addr_option
  handle-print k m h = elim (Bool-cases (all_bytes m 0)) [
    | inl none_matched ↦
        let zeros : m ≡ zeros_mac = all_bytes-replicate 6 0 m h.mask_length none_matched in
        rw none_matched
          (λ i. record { key = sym (h.ignored zeros) i; mask = sym zeros i; failure = none })
    | inr some_matched ↦ rw some_matched (elim (Bool-cases (all_bytes m 0xff)) [
      | inl exact ↦
          let ones : m ≡ replicate 6 0xff = all_bytes-replicate 6 0xff m h.mask_length exact in
          rw exact (
            two_addresses (mac_text k) k m (text_of.some_text k h.key_length)
              (address_and_mask-exact (mac_text k) (text_of.no_ampersand k h.key_length)
                ∙ ap (λ (t : List ℕ). (mac_text k, t)) (sym (ap mac_text ones ∙ text_of.ones)))
              h.key_length h.mask_length)
      | inr masked ↦ rw masked (
          two_addresses (mac_text k ++ (38 ∷ mac_text m)) k m
            (append-some (mac_text k) 38 (mac_text m))
            (address_and_mask-masked (mac_text k) (mac_text m) (text_of.some_text k h.key_length)
              (text_of.no_ampersand k h.key_length))
            h.key_length h.mask_length)
    ])
  ]

  -- Let net.ParseMAC read what net.HardwareAddr.String prints, which is lower-case hexadecimal with
  -- colons, and let an address of an ethernet key be zero where its mask is. Then the options that
  -- printFlowKeys prints for the key, exact or masked, give a flow the key with those addresses and
  -- masks.
  pub handle_ethernet_flow_key_options-print_eth_addr_option :
      (flow : FlowSpec) (src src_mask dst dst_mask : List ℕ)
      → IsMasked src src_mask
      → IsMasked dst dst_mask
      → handle_ethernet_flow_key_options net_mac flow
          (argument_or [] (print_eth_addr_option mac_text src src_mask))
          (argument_or [] (print_eth_addr_option mac_text dst dst_mask))
        ≡ ok (
            add_key
              (ethernet (
                set_masked_eth_dst dst dst_mask
                  (set_masked_eth_src src src_mask new_ethernet_flow_key)))
              flow)
  unfolding handle_ethernet_flow_key_options
  handle_ethernet_flow_key_options-print_eth_addr_option flow src src_mask dst dst_mask hs hd =
      rw (handle-print src src_mask hs, handle-print dst dst_mask hd) refl
