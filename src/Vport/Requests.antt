-- ===== src/Vport/Requests.antt =====
-- odp/vport.go: the operations on vports.
use go_odp.Prelude.{
  ℕ, ◌==◌, List, [], Bool, false, Option, none, some, Result, ok, err, panic, wild, out_of_fuel,
  Error, netlink_error, ◌>>=◌, if◌then◌else◌,
}
use go_odp.Builder.{NlMsgBuilder, finish, put_string_attr, put_uint32_attr, put_nested_attrs}
use go_odp.Parser.{NlMsgParser}
use go_odp.Session.{request, request_multi}
use go_odp.Dpif.{Dpif, DatapathHandle, vport_family, check_nl_msg_headers, check_datapath_headers}
use go_odp.Dpif.Exchange.{
  Socket, Exchange, exchange, dump, append_result, Answer, answered, no_answer, ask, ovs_request,
  request_flags, dump_flags,
}
use go_odp.Vport.{
  VportSpec, Vport, vport_name, vport_type_id, option_nl_attrs, parse_vport, ovs_vport_attr_port_no,
  ovs_vport_attr_type, ovs_vport_attr_name, ovs_vport_attr_options, ovs_vport_attr_upcall_pid,
}

abbrev pub ovs_vport_version : ℕ
ovs_vport_version = 1

abbrev pub ovs_vport_cmd_new : ℕ
ovs_vport_cmd_new = 1

abbrev pub ovs_vport_cmd_del : ℕ
ovs_vport_cmd_del = 2

abbrev pub ovs_vport_cmd_get : ℕ
ovs_vport_cmd_get = 3

abbrev pub ovs_vport_cmd_set : ℕ
ovs_vport_cmd_set = 4

unfoldable pub vport_request : Dpif → ℕ → ℕ → ℕ → NlMsgBuilder
unfolding ovs_request
vport_request dpif flags cmd ifindex =
    ovs_request dpif vport_family flags cmd ovs_vport_version ifindex

unfoldable pub create_vport_request : DatapathHandle → VportSpec → NlMsgBuilder
unfolding vport_request put_string_attr put_uint32_attr put_nested_attrs option_nl_attrs vport_name
    vport_type_id
create_vport_request dp spec = put_uint32_attr ovs_vport_attr_upcall_pid 0 (
    put_nested_attrs ovs_vport_attr_options (option_nl_attrs spec) (
      put_uint32_attr ovs_vport_attr_type (vport_type_id spec) (
        put_string_attr ovs_vport_attr_name (vport_name spec)
          (vport_request dp.dpif request_flags ovs_vport_cmd_new dp.ifindex))))

-- The number of the new vport.
unfoldable pub create_vport : DatapathHandle → VportSpec → Socket → Option (List ℕ) × Answer ℕ
unfolding finish request create_vport_request check_nl_msg_headers parse_vport
create_vport dp spec sock = ask sock (create_vport_request dp spec) (λ resp. do
  (headers, behind) ← check_nl_msg_headers dp.dpif vport_family (some ovs_vport_cmd_new) resp
  vport ← parse_vport behind
  ok vport.id)

-- The vport of a name, with its datapath. This is lookupVport, and with the ifindex 0 the method
-- LookupVportByName of a Dpif.
unfoldable pub lookup_vport_by_name :
    Dpif → ℕ → List ℕ → Socket → Option (List ℕ) × Answer (ℕ × Vport)
unfolding finish request vport_request put_string_attr check_nl_msg_headers parse_vport
lookup_vport_by_name dpif dpifindex name sock =
    ask sock
      (put_string_attr ovs_vport_attr_name name
        (vport_request dpif request_flags ovs_vport_cmd_get dpifindex))
      (λ resp. do
        ((cmd, ifindex), behind) ←
            check_nl_msg_headers dpif vport_family (some ovs_vport_cmd_get) resp
        vport ← parse_vport behind
        ok (ifindex, vport))

unfoldable pub lookup_vport : DatapathHandle → ℕ → Socket → Option (List ℕ) × Answer Vport
unfolding finish request vport_request put_uint32_attr check_datapath_headers parse_vport
lookup_vport dp id sock =
    ask sock
      (put_uint32_attr ovs_vport_attr_port_no id
        (vport_request dp.dpif request_flags ovs_vport_cmd_get dp.ifindex))
      (λ resp. check_datapath_headers dp vport_family (some ovs_vport_cmd_get) resp >>= parse_vport)

-- The text that stands for a vport: its name, or the numbers of datapath and vport with a colon.
pub data ShownVport : Type 0 where
  named : List ℕ → ShownVport
  numbered : (ifindex id : ℕ) → ShownVport

abbrev pub enodev : ℕ
enodev = 19

unfoldable pub is_no_such_vport_error : Error → Bool
is_no_such_vport_error (netlink_error n) = n == enodev
is_no_such_vport_error _ = false

-- `vport.Spec.Name()`, which panics on a nil spec.
abbrev pub name_of : Option VportSpec → Result ShownVport
name_of none = panic
name_of (some spec) = ok (named (vport_name spec))

abbrev pub shown_vport : DatapathHandle → ℕ → Result Vport → Result ShownVport
shown_vport dp id (ok vport) = name_of vport.spec
shown_vport dp id (err e) = if is_no_such_vport_error e then ok (numbered dp.ifindex id) else err e
shown_vport dp id panic = panic
shown_vport dp id wild = wild
shown_vport dp id out_of_fuel = out_of_fuel

abbrev pub show_answer : DatapathHandle → ℕ → Answer Vport → Answer ShownVport
show_answer dp id (answered r rest) = answered (shown_vport dp id r) rest
show_answer dp id no_answer = no_answer

unfoldable pub lookup_vport_name : DatapathHandle → ℕ → Socket → Option (List ℕ) × Answer ShownVport
unfolding lookup_vport is_no_such_vport_error vport_name
lookup_vport_name dp id sock =
    let (sent, ended) = lookup_vport dp id sock in (sent, show_answer dp id ended)

-- The closure of EnumerateVports.
unfoldable pub vport_consumer :
    DatapathHandle → NlMsgParser → List Vport → Result (Unit {0}) × List Vport
unfolding check_datapath_headers parse_vport
vport_consumer dp resp res =
    append_result res
      (check_datapath_headers dp vport_family (some ovs_vport_cmd_get) resp >>= parse_vport)

unfoldable pub enumerate_vports : DatapathHandle → Socket → Exchange (List Vport)
unfolding finish request_multi vport_request vport_consumer
enumerate_vports dp sock =
    dump sock (vport_request dp.dpif dump_flags ovs_vport_cmd_get dp.ifindex) (vport_consumer dp) []

unfoldable pub delete_vport : DatapathHandle → ℕ → Socket → Exchange (Option NlMsgParser)
unfolding finish request vport_request put_uint32_attr
delete_vport dp id sock = exchange sock (
  put_uint32_attr ovs_vport_attr_port_no id
      (vport_request dp.dpif request_flags ovs_vport_cmd_del dp.ifindex),
  none,
)

unfoldable pub set_vport_upcall_port_id :
    DatapathHandle → ℕ → ℕ → Socket → Exchange (Option NlMsgParser)
unfolding finish request vport_request put_uint32_attr
set_vport_upcall_port_id dp id pid sock = exchange sock (
  put_uint32_attr ovs_vport_attr_upcall_pid pid (
      put_uint32_attr ovs_vport_attr_port_no id
        (vport_request dp.dpif request_flags ovs_vport_cmd_set dp.ifindex)),
  none,
)
