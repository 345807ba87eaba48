-- ===== src/Tests/Tools.antt =====
-- The theorems about the tool at its table of commands and at concrete options.
use go_odp.Prelude.{
  ℕ, true, ◌≡◌, ◌==◌, refl, List, [], ◌∷◌, Option, none, some, err, invalid_mac, replicate,
  if◌then◌else◌, bytes_equal,
}
use go_odp.Flow.Key.{TunnelFlowKey}
use go_odp.Flow.Setters.{key_set_ttl, key_set_df}
use go_odp.Flow.Spec.{new_flow_spec}
use go_odp.Tool.Commands.{
  run, runs, select, subcommands, commands, list_flows, ambiguous_command, has_prefix,
  datapath_commands,
}
use go_odp.Tool.Selection.{exactly, candidates, by_name, select-by_name}
use go_odp.Tool.Options.{pos, negsuc, TunnelFlags, new_tunnel_flow_key}
use go_odp.Tool.Ethernet.{
  parse_mac, address_and_mask, handle_ethernet_addr_option, handle_ethernet_flow_key_options,
  index_of, handle_ethernet_flow_key_options-bad_source,
}

-- odp fl li br0.
flow_list :
    run ((b'f' ∷ b'l' ∷ []) ∷ (b'l' ∷ b'i' ∷ []) ∷ (b'x' ∷ []) ∷ []) (subcommands commands)
    ≡ runs list_flows ((b'x' ∷ []) ∷ [])
unfolding run select bytes_equal has_prefix
flow_list = refl

-- odp datapath li, which list and listen start with.
datapath_li : run ((b'd' ∷ []) ∷ (b'l' ∷ b'i' ∷ []) ∷ []) (subcommands commands) ≡ ambiguous_command
unfolding run select bytes_equal has_prefix
datapath_li = refl

select-by_name_example :
    select (b'l' ∷ b'i' ∷ []) datapath_commands
    ≡ by_name
        (exactly (b'l' ∷ b'i' ∷ []) datapath_commands)
        (candidates (b'l' ∷ b'i' ∷ []) datapath_commands)
select-by_name_example = select-by_name (b'l' ∷ b'i' ∷ []) datapath_commands

-- It takes what starts with an f for the address of all ones, and refuses other texts.
abbrev net_mac : List ℕ → Option (List ℕ)
net_mac [] = none
net_mac (c ∷ text) = if c == b'f' then some (replicate 6 0xff) else none

abbrev refuse : List ℕ → Option (List ℕ)
refuse text = none

abbrev ttl_and_df : TunnelFlags
ttl_and_df = record {
  id = [];
  ipv4_src = [];
  ipv4_dst = [];
  tos = negsuc 0;
  ttl = pos 64;
  df = b't' ∷ [];
  csum = [];
  tp_src = negsuc 0;
  tp_dst = negsuc 0;
}

abbrev ttl_and_df_key : TunnelFlowKey
ttl_and_df_key = key_set_df true (key_set_ttl 64 new_tunnel_flow_key)

bogus-refused : parse_mac net_mac (address_and_mask (b'x' ∷ [])).0 ≡ err (invalid_mac (b'x' ∷ []))
unfolding parse_mac address_and_mask index_of
bogus-refused = refl

handle_ethernet_flow_key_options-bad_source_example :
    ((handle_ethernet_addr_option net_mac (b'x' ∷ [])).failure ≡ some (invalid_mac (b'x' ∷ [])))
    × (handle_ethernet_flow_key_options net_mac new_flow_spec (b'x' ∷ []) []
        ≡ handle_ethernet_flow_key_options net_mac new_flow_spec [] [])
handle_ethernet_flow_key_options-bad_source_example =
    handle_ethernet_flow_key_options-bad_source net_mac new_flow_spec b'x' [] []
      (invalid_mac (b'x' ∷ [])) bogus-refused
