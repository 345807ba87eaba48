-- ===== src/Tool/Listing.antt =====
-- tool/odp/main.go: listFlows and what it prints. `show_key` and `show_action` are the `%T:%v` and `%v`
-- of fmt for the types that have no options; the other texts are those of Tool/Printing.antt.
use go_odp.Prelude.{ℕ, List, [], ◌∷◌, ◌++◌, Bool, Option, if◌then◌else◌, take, slice}
use go_odp.Dpif.{Dpif, DatapathHandle}
use go_odp.Flow.Blob.{BlobFlowKey, blob_key, blob_mask, vport_id}
use go_odp.Flow.Key.{FlowKey, unknown, blob, in_port, ethernet, tunnel, ignored}
use go_odp.Flow.Keys.{FlowKeys}
use go_odp.Flow.Action.{Action, output, set_tunnel, set_unknown}
use go_odp.Flow.Spec.{FlowInfo}
use go_odp.Flow.Requests.{enumerate_flows}
use go_odp.Vport.Requests.{ShownVport, named, numbered, lookup_vport_name}
use go_odp.Tool.Printing.{
  option_text, printed_text, print_eth_addr_option, print_tunnel_options, print_set_tunnel_options,
}
use go_odp.Tool.Printing.Names.{tunnel_prefix}
use go_odp.Tool.Talk.{Talk, say, print, then_talk, asking, exchanging}
use go_odp.Tool.Flows.{told_result}
use go_odp.Tool.Handlers.{print_err, lookup_datapath_named}

pub record Writers : Type 0 where
  pub decimal : ℕ → List ℕ
  pub hex_text : List ℕ → List ℕ
  pub ipv4_text : List ℕ → List ℕ
  pub mac_text : List ℕ → List ℕ
  pub show_key : FlowKey → List ℕ
  pub show_action : Action → List ℕ

-- " --in-port=", "eth-src", "eth-dst" and " --output=".
abbrev pub in_port_text : List ℕ
in_port_text = 32 ∷ b'-' ∷ b'-' ∷ b'i' ∷ b'n' ∷ b'-' ∷ b'p' ∷ b'o' ∷ b'r' ∷ b't' ∷ b'=' ∷ []

abbrev pub eth_src_name : List ℕ
eth_src_name = b'e' ∷ b't' ∷ b'h' ∷ b'-' ∷ b's' ∷ b'r' ∷ b'c' ∷ []

abbrev pub eth_dst_name : List ℕ
eth_dst_name = b'e' ∷ b't' ∷ b'h' ∷ b'-' ∷ b'd' ∷ b's' ∷ b't' ∷ []

abbrev pub output_text : List ℕ
output_text = 32 ∷ b'-' ∷ b'-' ∷ b'o' ∷ b'u' ∷ b't' ∷ b'p' ∷ b'u' ∷ b't' ∷ b'=' ∷ []

-- strings.Join with a comma.
unfoldable pub join_commas : List (List ℕ) → List ℕ
join_commas [] = []
join_commas (text ∷ []) = text
join_commas (text ∷ more ∷ texts) = text ++ (44 ∷ join_commas (more ∷ texts))

module _ (w : Writers) (dp : DatapathHandle) where
  -- LookupVportName's text.
  abbrev pub vport_text : ShownVport → List ℕ
  vport_text (named name) = name
  vport_text (numbered ifindex id) = w.decimal ifindex ++ (b':' ∷ w.decimal id)

  abbrev pub name_of_port : ℕ → Talk (List ℕ)
  name_of_port id = asking (lookup_vport_name dp id) (λ shown. say (vport_text shown)) print_err

  -- Key and Mask of an EthernetFlowKey: the source address, and then the destination.
  abbrev pub print_ethernet : BlobFlowKey → List ℕ
  print_ethernet k =
      option_text eth_src_name
        (print_eth_addr_option w.mac_text (take 6 (blob_key k)) (take 6 (blob_mask k)))
      ++ option_text eth_dst_name
          (print_eth_addr_option w.mac_text (slice 6 12 (blob_key k)) (slice 6 12 (blob_mask k)))

  unfoldable pub print_flow_key : FlowKey → Talk (Unit {0})
  print_flow_key (in_port k) =
      then_talk (told_result (vport_id k))
        λ id. then_talk (name_of_port id) λ name. print (in_port_text ++ name)
  print_flow_key (ethernet k) = print (print_ethernet k)
  print_flow_key (tunnel fk) =
      print (printed_text (print_tunnel_options w.decimal w.hex_text w.ipv4_text fk tunnel_prefix))
  print_flow_key (unknown k) = print (32 ∷ w.show_key (unknown k))
  print_flow_key (blob k) = print (32 ∷ w.show_key (blob k))

  -- The keys in an order in which `range` may visit them.
  unfoldable pub print_flow_keys : FlowKeys → Talk (Unit {0})
  print_flow_keys [] = say tt
  print_flow_keys ((id, k) ∷ fks) =
      if ignored k
      then print_flow_keys fks
      else then_talk (print_flow_key k) (λ _. print_flow_keys fks)

  abbrev pub print_outputs : List (List ℕ) → Talk (Unit {0})
  print_outputs [] = say tt
  print_outputs (name ∷ names) = print (output_text ++ join_commas (name ∷ names))

  -- The loop over the actions, with the names of the outputs that were met.
  unfoldable pub print_actions_from : List (List ℕ) → List Action → Talk (Unit {0})
  print_actions_from outputs [] = print_outputs outputs
  print_actions_from outputs (output id ∷ actions) =
      then_talk (name_of_port id) λ name. print_actions_from (outputs ++ (name ∷ [])) actions
  print_actions_from outputs (set_tunnel a ∷ actions) =
      then_talk (print (printed_text (print_set_tunnel_options w.decimal w.hex_text w.ipv4_text a)))
        λ _. print_actions_from outputs actions
  print_actions_from outputs (set_unknown a ∷ actions) =
      then_talk (print (32 ∷ w.show_action (set_unknown a))) λ _. print_actions_from outputs actions

  unfoldable pub print_flow_actions : List Action → Talk (Unit {0})
  print_flow_actions actions = print_actions_from [] actions

  -- ": %d packets, %d bytes, used %d".
  abbrev pub stats_text : FlowInfo → List ℕ
  stats_text flow =
      b':' ∷ 32 ∷ w.decimal flow.packets
      ++ (32 ∷ b'p' ∷ b'a' ∷ b'c' ∷ b'k' ∷ b'e' ∷ b't' ∷ b's' ∷ b',' ∷ 32 ∷ w.decimal flow.bytes
          ++ (32
              ∷ b'b'
              ∷ b'y'
              ∷ b't'
              ∷ b'e'
              ∷ b's'
              ∷ b','
              ∷ 32
              ∷ b'u'
              ∷ b's'
              ∷ b'e'
              ∷ b'd'
              ∷ 32
              ∷ w.decimal flow.used))

  -- The loop of listFlows.
  unfoldable pub print_flows : List ℕ → Bool → List FlowInfo → Talk (Unit {0})
  print_flows dpname show_stats [] = say tt
  print_flows dpname show_stats (flow ∷ flows) = then_talk (print dpname) λ _.
      then_talk (print_flow_keys flow.spec.flow_keys) λ _.
        then_talk (print_flow_actions flow.spec.actions) λ _.
          then_talk (print ((if show_stats then stats_text flow else []) ++ (10 ∷ [])))
            λ _. print_flows dpname show_stats flows

unfoldable pub list_described_flows :
    Writers → (List ℕ → Option ℕ) → Dpif → List ℕ → Bool → Talk (Unit {0})
list_described_flows w parse_uint dpif name show_stats =
    then_talk (lookup_datapath_named parse_uint dpif name) λ found.
      exchanging (enumerate_flows found.0) (print_flows w found.0 found.1 show_stats) print_err
