-- ===== src/Tool/Flows.antt =====
-- tool/odp/main.go: the commands for flows, on a dpif that is open. What of Go's library they use is
-- that of Tool/Options.antt, Tool/Ethernet.antt and Tool/Printing.antt.
use go_odp.Prelude.{ℕ, List, [], ◌∷◌, Option, none, some, Result, Error, if◌then◌else◌}
use go_odp.Dpif.{Dpif, DatapathHandle}
use go_odp.Flow.Blob.{new_in_port_flow_key}
use go_odp.Flow.Key.{in_port, tunnel, TunnelFlowKey, ignored}
use go_odp.Flow.Action.{output, set_tunnel, SetTunnelAction}
use go_odp.Flow.Spec.{FlowSpec, new_flow_spec, add_key, add_action}
use go_odp.Flow.Requests.{create_flow, delete_flow, clear_flow, is_no_such_flow_error}
use go_odp.Vport.Requests.{lookup_vport_by_name}
use go_odp.Tool.Options.{TunnelFlags, split_at, parse_tunnel_flags, parse_set_tunnel_flags}
use go_odp.Tool.Ethernet.{handle_ethernet_flow_key_options}
use go_odp.Tool.Talk.{no_such_flow, Talk, say, complain, with_result, then_talk, asking, exchanging}
use go_odp.Tool.Handlers.{print_err, lookup_datapath_named}

-- The argument and the options of a flow. A text that is not given is empty.
pub record FlowFlags : Type 0 where
  pub datapath : List ℕ
  pub in_port : List ℕ
  pub eth_src : List ℕ
  pub eth_dst : List ℕ
  pub tun : TunnelFlags
  pub set_tun : TunnelFlags
  pub output : List ℕ

-- What the tool uses of net, encoding/hex and strconv to read texts.
pub record Readers : Type 0 where
  pub parse_uint : List ℕ → Option ℕ
  pub net_mac : List ℕ → Option (List ℕ)
  pub net_ipv4 : List ℕ → Option (List ℕ)
  pub hex_bytes : List ℕ → Option (List ℕ)

abbrev pub told_result : {A : Type 0} → Result A → Talk A
told_result r = with_result say print_err r

-- The number of the vport of this name.
abbrev pub port_of : DatapathHandle → List ℕ → Talk ℕ
port_of dp name =
    asking (lookup_vport_by_name dp.dpif dp.ifindex name) (λ found. say found.1.id) print_err

abbrev pub with_in_port : DatapathHandle → List ℕ → FlowSpec → Talk FlowSpec
with_in_port dp [] flow = say flow
with_in_port dp (c ∷ name) flow =
    then_talk (port_of dp (c ∷ name)) λ id. say (add_key (in_port (new_in_port_flow_key id)) flow)

abbrev pub with_tunnel : TunnelFlowKey → FlowSpec → FlowSpec
with_tunnel fk flow = if ignored (tunnel fk) then flow else add_key (tunnel fk) flow

abbrev pub with_set_tunnel : Option SetTunnelAction → FlowSpec → FlowSpec
with_set_tunnel none flow = flow
with_set_tunnel (some a) flow = add_action (set_tunnel a) flow

-- The loop over the names that `--output` lists.
unfoldable pub with_outputs : DatapathHandle → List (List ℕ) → FlowSpec → Talk FlowSpec
with_outputs dp [] flow = say flow
with_outputs dp (name ∷ names) flow =
    then_talk (port_of dp name) λ id. with_outputs dp names (add_action (output id) flow)

-- strings.Split at the commas.
abbrev pub output_names : List ℕ → List (List ℕ)
output_names [] = []
output_names (c ∷ text) = split_at 44 (c ∷ text)

module _ (readers : Readers) where
  unfoldable pub flags_to_flow_spec : Dpif → FlowFlags → Talk (DatapathHandle × FlowSpec)
  flags_to_flow_spec dpif f =
      then_talk (lookup_datapath_named readers.parse_uint dpif f.datapath) λ found.
        then_talk (with_in_port found.0 f.in_port new_flow_spec) λ ported.
          then_talk
            (told_result
              (handle_ethernet_flow_key_options readers.net_mac ported f.eth_src f.eth_dst))
            λ addressed.
              then_talk (told_result (parse_tunnel_flags readers.net_ipv4 readers.hex_bytes f.tun))
                λ fk.
                  then_talk
                    (told_result
                      (parse_set_tunnel_flags readers.net_ipv4 readers.hex_bytes f.set_tun))
                    λ set.
                      then_talk
                        (with_outputs found.0 (output_names f.output)
                          (with_set_tunnel set (with_tunnel fk addressed)))
                        λ flow. say (found.0, flow)

  unfoldable pub add_described_flow : Dpif → FlowFlags → Talk (Unit {0})
  add_described_flow dpif f =
      then_talk (flags_to_flow_spec dpif f)
        λ described. exchanging (create_flow described.0 described.1) (λ resp. say tt) print_err

  abbrev pub flow_failed : Error → Talk (Unit {0})
  flow_failed e = if is_no_such_flow_error e then complain no_such_flow else print_err e

  unfoldable pub delete_described_flow : Dpif → FlowFlags → Talk (Unit {0})
  delete_described_flow dpif f = then_talk (flags_to_flow_spec dpif f) λ described.
      exchanging (delete_flow described.0 described.1.flow_keys) (λ resp. say tt) flow_failed

  unfoldable pub clear_described_flow : Dpif → FlowFlags → Talk (Unit {0})
  clear_described_flow dpif f =
      then_talk (flags_to_flow_spec dpif f)
        λ described. exchanging (clear_flow described.0 described.1) (λ resp. say tt) flow_failed
