-- ===== src/Flow/Setters.antt =====
-- odp/flow.go: the setters of TunnelFlowKey and SetTunnelAction.
use go_odp.Prelude.{ℕ, List, Bool, true, replicate}
use go_odp.Flow.Key.{TunnelFlowKey}
use go_odp.Flow.Action.{SetTunnelAction}

-- A setter of a flow key makes the attribute an exact match.
unfoldable pub key_set_tunnel_id : List ℕ → TunnelFlowKey → TunnelFlowKey
key_set_tunnel_id id fk = record fk {
  key = record (fk.key) { tunnel_id = id };
  mask = record (fk.mask) { tunnel_id = replicate 8 0xff };
}

unfoldable pub key_set_ipv4_src : List ℕ → TunnelFlowKey → TunnelFlowKey
key_set_ipv4_src addr fk = record fk {
  key = record (fk.key) { ipv4_src = addr };
  mask = record (fk.mask) { ipv4_src = replicate 4 0xff };
}

unfoldable pub key_set_ipv4_dst : List ℕ → TunnelFlowKey → TunnelFlowKey
key_set_ipv4_dst addr fk = record fk {
  key = record (fk.key) { ipv4_dst = addr };
  mask = record (fk.mask) { ipv4_dst = replicate 4 0xff };
}

unfoldable pub key_set_tos : ℕ → TunnelFlowKey → TunnelFlowKey
key_set_tos tos fk = record fk {
  key = record (fk.key) { tos = tos };
  mask = record (fk.mask) { tos = 0xff };
}

unfoldable pub key_set_ttl : ℕ → TunnelFlowKey → TunnelFlowKey
key_set_ttl ttl fk = record fk {
  key = record (fk.key) { ttl = ttl };
  mask = record (fk.mask) { ttl = 0xff };
}

unfoldable pub key_set_df : Bool → TunnelFlowKey → TunnelFlowKey
key_set_df df fk = record fk {
  key = record (fk.key) { df = df };
  mask = record (fk.mask) { df = true };
}

unfoldable pub key_set_csum : Bool → TunnelFlowKey → TunnelFlowKey
key_set_csum csum fk = record fk {
  key = record (fk.key) { csum = csum };
  mask = record (fk.mask) { csum = true };
}

unfoldable pub key_set_tp_src : ℕ → TunnelFlowKey → TunnelFlowKey
key_set_tp_src port fk = record fk {
  key = record (fk.key) { tp_src = port };
  mask = record (fk.mask) { tp_src = 0xffff };
}

unfoldable pub key_set_tp_dst : ℕ → TunnelFlowKey → TunnelFlowKey
key_set_tp_dst port fk = record fk {
  key = record (fk.key) { tp_dst = port };
  mask = record (fk.mask) { tp_dst = 0xffff };
}

-- A setter of an action makes the attribute present.
unfoldable pub action_set_tunnel_id : List ℕ → SetTunnelAction → SetTunnelAction
action_set_tunnel_id id a = record a {
  attrs = record (a.attrs) { tunnel_id = id };
  present = record (a.present) { tunnel_id = true };
}

unfoldable pub action_set_ipv4_src : List ℕ → SetTunnelAction → SetTunnelAction
action_set_ipv4_src addr a = record a {
  attrs = record (a.attrs) { ipv4_src = addr };
  present = record (a.present) { ipv4_src = true };
}

unfoldable pub action_set_ipv4_dst : List ℕ → SetTunnelAction → SetTunnelAction
action_set_ipv4_dst addr a = record a {
  attrs = record (a.attrs) { ipv4_dst = addr };
  present = record (a.present) { ipv4_dst = true };
}

unfoldable pub action_set_tos : ℕ → SetTunnelAction → SetTunnelAction
action_set_tos tos a = record a {
  attrs = record (a.attrs) { tos = tos };
  present = record (a.present) { tos = true };
}

unfoldable pub action_set_ttl : ℕ → SetTunnelAction → SetTunnelAction
action_set_ttl ttl a = record a {
  attrs = record (a.attrs) { ttl = ttl };
  present = record (a.present) { ttl = true };
}

unfoldable pub action_set_df : Bool → SetTunnelAction → SetTunnelAction
action_set_df df a = record a {
  attrs = record (a.attrs) { df = df };
  present = record (a.present) { df = true };
}

unfoldable pub action_set_csum : Bool → SetTunnelAction → SetTunnelAction
action_set_csum csum a = record a {
  attrs = record (a.attrs) { csum = csum };
  present = record (a.present) { csum = true };
}

unfoldable pub action_set_tp_src : ℕ → SetTunnelAction → SetTunnelAction
action_set_tp_src port a = record a {
  attrs = record (a.attrs) { tp_src = port };
  present = record (a.present) { tp_src = true };
}

unfoldable pub action_set_tp_dst : ℕ → SetTunnelAction → SetTunnelAction
action_set_tp_dst port a = record a {
  attrs = record (a.attrs) { tp_dst = port };
  present = record (a.present) { tp_dst = true };
}
