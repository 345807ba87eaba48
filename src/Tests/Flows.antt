-- ===== src/Tests/Flows.antt =====
-- The theorems about flows at a flow with an in port, an ethernet address, a tunnel and two actions.
use go_odp.Prelude.{ℕ, refl, List, [], ◌∷◌, arith}
use go_odp.Prelude.Map.{insert, lookup}
use go_odp.Format.{encode}
use go_odp.Format.Optional.{total}
use go_odp.Tunnel.{IsTunnelAttrs, no_tunnel_attrs, nothing_present, present, all_bytes}
use go_odp.Flow.Blob.{
  new_blob_flow_key, new_in_port_flow_key, new_ethernet_flow_key, set_eth_src, set_masked_eth_src,
  blob_ignored,
}
use go_odp.Flow.Key.{in_port, ethernet, tunnel, TunnelFlowKey, type_id, ignored, tunnel_ignored}
use go_odp.Flow.Key.Encoding.{IsBlob, IsTunnel}
use go_odp.Flow.Action.{output, set_tunnel, SetTunnelAction}
use go_odp.Flow.Setters.{
  key_set_tunnel_id, key_set_ipv4_dst, action_set_tunnel_id, action_set_ipv4_dst, action_set_tos,
}
use go_odp.Flow.Spec.{FlowSpec, new_flow_spec, add_key, add_action}
use go_odp.Flow.Spec.RoundTrip.{IsFlow}

abbrev pub address : List ℕ
address = 2 ∷ 0 ∷ 0 ∷ 0 ∷ 0 ∷ 9 ∷ []

abbrev pub tunnel_id : List ℕ
tunnel_id = 0 ∷ 0 ∷ 0 ∷ 0 ∷ 0 ∷ 0 ∷ 1 ∷ 2 ∷ []

abbrev pub remote : List ℕ
remote = 10 ∷ 0 ∷ 0 ∷ 1 ∷ []

abbrev pub tunnel_key : TunnelFlowKey
tunnel_key =
    key_set_ipv4_dst remote
      (key_set_tunnel_id tunnel_id (record { key = no_tunnel_attrs; mask = no_tunnel_attrs }))

abbrev pub tunnel_action : SetTunnelAction
tunnel_action = action_set_tos 4 (
    action_set_ipv4_dst remote (
      action_set_tunnel_id tunnel_id
        (record { attrs = no_tunnel_attrs; present = nothing_present })))

abbrev pub flow : FlowSpec
flow = add_action (output 5) (
    add_action (set_tunnel tunnel_action) (
      add_key (tunnel tunnel_key) (
        add_key (ethernet (set_eth_src address new_ethernet_flow_key))
          (add_key (in_port (new_in_port_flow_key 7)) new_flow_spec))))

pub in_port_key-valid : IsBlob 4 (new_in_port_flow_key 7)
unfolding new_in_port_flow_key new_blob_flow_key
in_port_key-valid = record { both = refl; small = omega arith; typ_fits = omega arith }

pub ethernet_key-valid : IsBlob 12 (set_eth_src address new_ethernet_flow_key)
unfolding set_eth_src set_masked_eth_src new_ethernet_flow_key new_blob_flow_key
ethernet_key-valid = record { both = refl; small = omega arith; typ_fits = omega arith }

pub tunnel_key-valid : IsTunnel tunnel_key
unfolding key_set_tunnel_id key_set_ipv4_dst
tunnel_key-valid = record {
  key_valid = record {
    tunnel_id_size = refl;
    ipv4_src_size = refl;
    ipv4_dst_size = refl;
    tp_src_fits = omega arith;
    tp_dst_fits = omega arith;
  };
  mask_valid = record {
    tunnel_id_size = refl;
    ipv4_src_size = refl;
    ipv4_dst_size = refl;
    tp_src_fits = omega arith;
    tp_dst_fits = omega arith;
  };
}

pub tunnel_action-valid : IsTunnelAttrs tunnel_action.attrs
unfolding action_set_tunnel_id action_set_ipv4_dst action_set_tos
tunnel_action-valid = record {
  tunnel_id_size = refl;
  ipv4_src_size = refl;
  ipv4_dst_size = refl;
  tp_src_fits = omega arith;
  tp_dst_fits = omega arith;
}

pub flow-valid : IsFlow flow
unfolding add_key add_action new_flow_spec insert lookup type_id ignored blob_ignored tunnel_ignored
    all_bytes new_in_port_flow_key new_blob_flow_key new_ethernet_flow_key set_eth_src
    set_masked_eth_src key_set_tunnel_id key_set_ipv4_dst action_set_tunnel_id action_set_ipv4_dst
    action_set_tos present encode total
flow-valid = record {
  encodable = record {
    writable = (in_port_key-valid, (ethernet_key-valid, (tunnel_key-valid, tt)));
    keys_fit = omega arith;
    masks_fit = omega arith;
  };
  writable = (in_port_key-valid, (ethernet_key-valid, (tunnel_key-valid, tt)));
  parsable = ((refl, refl), (refl, (refl, tt)));
  distinct = (((λ e. omega arith), ((λ e. omega arith), tt)), (((λ e. omega arith), tt), (tt, tt)));
  actions_valid = (tunnel_action-valid, (omega arith, tt));
  actions_readable = (tt, (tt, tt));
  actions_fit = omega arith;
}
