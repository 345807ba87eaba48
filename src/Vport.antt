-- ===== src/Vport.antt =====
-- odp/vport.go: the kinds of vport, their options, and parseVport. A text is its bytes.
pub mod Requests
pub mod Events
pub mod RoundTrip
pub mod Calls
pub mod Listing
pub mod Dispatch
use go_odp.Prelude.{
  ℕ, ◌==◌, List, [], ◌∷◌, Option, none, some, Result, ok, err, panic, wild, out_of_fuel,
  unsupported_vport, ◌>>=◌, true, if◌then◌else◌,
}
use go_odp.Builder.{NlMsgBuilder, put_uint16_attr}
use go_odp.Parser.{NlMsgParser}
use go_odp.Attrs.{Attrs, take_attrs, get_uint16, get_uint32, get_string, get_nested_attrs}

pub record UdpVportSpec : Type 0 where
  pub name : List ℕ
  pub port : ℕ

-- The types that implement the interface VportSpec.
pub data VportSpec : Type 0 where
  simple : (name : List ℕ) (typ : ℕ) (type_name : List ℕ) → VportSpec
  gre : (name : List ℕ) → VportSpec
  vxlan : UdpVportSpec → VportSpec
  geneve : UdpVportSpec → VportSpec

abbrev pub ovs_vport_type_netdev : ℕ
ovs_vport_type_netdev = 1

abbrev pub ovs_vport_type_internal : ℕ
ovs_vport_type_internal = 2

abbrev pub ovs_vport_type_gre : ℕ
ovs_vport_type_gre = 3

abbrev pub ovs_vport_type_vxlan : ℕ
ovs_vport_type_vxlan = 4

abbrev pub ovs_vport_type_geneve : ℕ
ovs_vport_type_geneve = 5

abbrev pub ovs_tunnel_attr_dst_port : ℕ
ovs_tunnel_attr_dst_port = 1

abbrev pub netdev_name : List ℕ
netdev_name = b'n' ∷ b'e' ∷ b't' ∷ b'd' ∷ b'e' ∷ b'v' ∷ []

abbrev pub internal_name : List ℕ
internal_name = b'i' ∷ b'n' ∷ b't' ∷ b'e' ∷ b'r' ∷ b'n' ∷ b'a' ∷ b'l' ∷ []

unfoldable pub new_netdev_vport_spec : List ℕ → VportSpec
new_netdev_vport_spec name = simple name ovs_vport_type_netdev netdev_name

unfoldable pub new_internal_vport_spec : List ℕ → VportSpec
new_internal_vport_spec name = simple name ovs_vport_type_internal internal_name

unfoldable pub new_gre_vport_spec : List ℕ → VportSpec
new_gre_vport_spec name = gre name

unfoldable pub new_vxlan_vport_spec : List ℕ → ℕ → VportSpec
new_vxlan_vport_spec name port = vxlan (record { name = name; port = port })

unfoldable pub new_geneve_vport_spec : List ℕ → ℕ → VportSpec
new_geneve_vport_spec name port = geneve (record { name = name; port = port })

-- The methods of the interface.
unfoldable pub vport_name : VportSpec → List ℕ
vport_name (simple name typ type_name) = name
vport_name (gre name) = name
vport_name (vxlan u) = u.name
vport_name (geneve u) = u.name

unfoldable pub type_name : VportSpec → List ℕ
type_name (simple name typ shown) = shown
type_name (gre name) = b'g' ∷ b'r' ∷ b'e' ∷ []
type_name (vxlan u) = b'v' ∷ b'x' ∷ b'l' ∷ b'a' ∷ b'n' ∷ []
type_name (geneve u) = b'g' ∷ b'e' ∷ b'n' ∷ b'e' ∷ b'v' ∷ b'e' ∷ []

unfoldable pub vport_type_id : VportSpec → ℕ
vport_type_id (simple name typ shown) = typ
vport_type_id (gre name) = ovs_vport_type_gre
vport_type_id (vxlan u) = ovs_vport_type_vxlan
vport_type_id (geneve u) = ovs_vport_type_geneve

unfoldable pub option_nl_attrs : VportSpec → NlMsgBuilder → NlMsgBuilder
unfolding put_uint16_attr
option_nl_attrs (simple name typ shown) req = req
option_nl_attrs (gre name) req = req
option_nl_attrs (vxlan u) req = put_uint16_attr ovs_tunnel_attr_dst_port u.port req
option_nl_attrs (geneve u) req = put_uint16_attr ovs_tunnel_attr_dst_port u.port req

unfoldable pub parse_udp_vport_spec : List ℕ → Attrs → Result UdpVportSpec
unfolding get_uint16
parse_udp_vport_spec name opts = do
  port ← get_uint16 ovs_tunnel_attr_dst_port opts
  ok (record { name = name; port = port })

-- The `err` of these cases is a variable of its own: the spec stays nil, and the error is lost.
abbrev pub if_parsed : (UdpVportSpec → VportSpec) → Result UdpVportSpec → Result (Option VportSpec)
if_parsed make (ok u) = ok (some (make u))
if_parsed make (err e) = ok none
if_parsed make panic = panic
if_parsed make wild = wild
if_parsed make out_of_fuel = out_of_fuel

unfoldable pub spec_of : ℕ → List ℕ → Attrs → Result (Option VportSpec)
unfolding parse_udp_vport_spec new_netdev_vport_spec new_internal_vport_spec new_gre_vport_spec
spec_of typ name opts =
    if typ == ovs_vport_type_netdev
    then ok (some (new_netdev_vport_spec name))
    else if typ == ovs_vport_type_internal
    then ok (some (new_internal_vport_spec name))
    else if typ == ovs_vport_type_gre
    then ok (some (new_gre_vport_spec name))
    else if typ == ovs_vport_type_vxlan
    then if_parsed vxlan (parse_udp_vport_spec name opts)
    else if typ == ovs_vport_type_geneve
    then if_parsed geneve (parse_udp_vport_spec name opts)
    else err (unsupported_vport typ)

abbrev pub ovs_vport_attr_port_no : ℕ
ovs_vport_attr_port_no = 1

abbrev pub ovs_vport_attr_type : ℕ
ovs_vport_attr_type = 2

abbrev pub ovs_vport_attr_name : ℕ
ovs_vport_attr_name = 3

abbrev pub ovs_vport_attr_options : ℕ
ovs_vport_attr_options = 4

abbrev pub ovs_vport_attr_upcall_pid : ℕ
ovs_vport_attr_upcall_pid = 5

-- A missing map of options counts as an empty one.
abbrev pub options_of : Option Attrs → Attrs
options_of none = []
options_of (some opts) = opts

-- A Vport; the spec may be nil.
pub record Vport : Type 0 where
  pub id : ℕ
  pub spec : Option VportSpec

unfoldable pub vport_of : Attrs → Result Vport
unfolding get_uint32 get_string get_nested_attrs spec_of
vport_of attrs = do
  id ← get_uint32 ovs_vport_attr_port_no attrs
  typ ← get_uint32 ovs_vport_attr_type attrs
  name ← get_string ovs_vport_attr_name attrs
  opts ← get_nested_attrs ovs_vport_attr_options true attrs
  spec ← spec_of typ name (options_of opts)
  ok (record { id = id; spec = spec })

unfoldable pub parse_vport : NlMsgParser → Result Vport
unfolding take_attrs vport_of
parse_vport msg = do (attrs, end) ← take_attrs msg; vport_of attrs
