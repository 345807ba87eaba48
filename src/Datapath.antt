-- ===== src/Datapath.antt =====
-- odp/datapath.go: the operations on datapaths.
pub mod Calls
use go_odp.Prelude.{
  ℕ, ◌==◌, List, [], ◌∷◌, Bool, true, false, Option, none, some, Result, ok, err, panic, wild,
  out_of_fuel, Error, netlink_error, bytes_equal, ◌>>=◌, if◌then◌else◌,
}
use go_odp.Builder.{NlMsgBuilder, finish, put_string_attr, put_uint32_attr}
use go_odp.Parser.{NlMsgParser}
use go_odp.Attrs.{take_attrs, get_string}
use go_odp.Session.{request, request_multi}
use go_odp.Dpif.{Dpif, DatapathHandle, datapath_family, check_nl_msg_headers}
use go_odp.Dpif.Exchange.{
  Socket, Exchange, exchange, dump, Answer, ask, ovs_request, request_flags, dump_flags,
}

abbrev pub ovs_datapath_version : ℕ
ovs_datapath_version = 2

abbrev pub ovs_dp_cmd_new : ℕ
ovs_dp_cmd_new = 1

abbrev pub ovs_dp_cmd_del : ℕ
ovs_dp_cmd_del = 2

abbrev pub ovs_dp_cmd_get : ℕ
ovs_dp_cmd_get = 3

abbrev pub ovs_dp_attr_name : ℕ
ovs_dp_attr_name = 1

abbrev pub ovs_dp_attr_upcall_pid : ℕ
ovs_dp_attr_upcall_pid = 2

abbrev pub ovs_dp_attr_user_features : ℕ
ovs_dp_attr_user_features = 5

pub record DatapathInfo : Type 0 where
  pub ifindex : ℕ
  pub name : List ℕ

unfoldable pub parse_datapath_info : Dpif → ℕ → NlMsgParser → Result DatapathInfo
unfolding check_nl_msg_headers take_attrs get_string
parse_datapath_info dpif cmd msg = do
  ((got, ifindex), behind) ← check_nl_msg_headers dpif datapath_family (some cmd) msg
  (attrs, end) ← take_attrs behind
  name ← get_string ovs_dp_attr_name attrs
  ok (record { ifindex = ifindex; name = name })

unfoldable pub datapath_request : Dpif → ℕ → ℕ → ℕ → NlMsgBuilder
unfolding ovs_request
datapath_request dpif flags cmd ifindex =
    ovs_request dpif datapath_family flags cmd ovs_datapath_version ifindex

-- OVS_DP_F_UNALIGNED with OVS_DP_F_VPORT_PIDS.
abbrev pub wanted_features : ℕ
wanted_features = 3

abbrev pub handle_of : Dpif → Result DatapathInfo → Result DatapathHandle
handle_of dpif r = r >>= λ (dpi : DatapathInfo). ok (record { dpif = dpif; ifindex = dpi.ifindex })

unfoldable pub create_datapath_request : Dpif → List ℕ → NlMsgBuilder
unfolding datapath_request put_string_attr put_uint32_attr
create_datapath_request dpif name = put_uint32_attr ovs_dp_attr_user_features wanted_features (
    put_uint32_attr ovs_dp_attr_upcall_pid 0 (
      put_string_attr ovs_dp_attr_name name (datapath_request dpif request_flags ovs_dp_cmd_new 0)))

unfoldable pub create_datapath : Dpif → List ℕ → Socket → Option (List ℕ) × Answer DatapathHandle
unfolding finish request create_datapath_request parse_datapath_info
create_datapath dpif name sock =
    ask sock (create_datapath_request dpif name)
      (λ resp. handle_of dpif (parse_datapath_info dpif ovs_dp_cmd_new resp))

abbrev eexist : ℕ
eexist = 17

unfoldable pub is_datapath_name_already_exists_error : Error → Bool
is_datapath_name_already_exists_error (netlink_error n) = n == eexist
is_datapath_name_already_exists_error _ = false

unfoldable pub lookup_datapath : Dpif → List ℕ → Socket → Option (List ℕ) × Answer DatapathHandle
unfolding finish request datapath_request put_string_attr parse_datapath_info
lookup_datapath dpif name sock =
    ask sock
      (put_string_attr ovs_dp_attr_name name (datapath_request dpif request_flags ovs_dp_cmd_get 0))
      (λ resp. handle_of dpif (parse_datapath_info dpif ovs_dp_cmd_get resp))

pub record Datapath : Type 0 where
  pub handle : DatapathHandle
  pub name : List ℕ

-- The handle has the number that was asked for.
unfoldable pub lookup_datapath_by_id : Dpif → ℕ → Socket → Option (List ℕ) × Answer Datapath
unfolding finish request datapath_request parse_datapath_info
lookup_datapath_by_id dpif ifindex sock =
    ask sock (datapath_request dpif request_flags ovs_dp_cmd_get ifindex) (λ resp. do
      dpi ← parse_datapath_info dpif ovs_dp_cmd_get resp
      ok (record { handle = record { dpif = dpif; ifindex = ifindex }; name = dpi.name }))

abbrev enodev : ℕ
enodev = 19

unfoldable pub is_no_such_datapath_error : Error → Bool
is_no_such_datapath_error (netlink_error n) = n == enodev
is_no_such_datapath_error _ = false

-- A map[string]DatapathHandle; the order is one in which `range` may visit it.
abbrev pub Datapaths : Type 0
Datapaths = List (List ℕ × DatapathHandle)

unfoldable pub named_datapath : List ℕ → Datapaths → Option DatapathHandle
unfolding bytes_equal
named_datapath name [] = none
named_datapath name ((key, handle) ∷ entries) =
    if bytes_equal key name then some handle else named_datapath name entries

unfoldable pub put_datapath : List ℕ → DatapathHandle → Datapaths → Datapaths
unfolding bytes_equal
put_datapath name handle [] = (name, handle) ∷ []
put_datapath name handle ((key, old) ∷ entries) =
    if bytes_equal key name
    then (name, handle) ∷ entries
    else (key, old) ∷ put_datapath name handle entries

abbrev pub add_datapath : Dpif → Datapaths → Result DatapathInfo → Result (Unit {0}) × Datapaths
add_datapath dpif res (ok dpi) =
    (ok tt, put_datapath dpi.name (record { dpif = dpif; ifindex = dpi.ifindex }) res)
add_datapath dpif res (err e) = (err e, res)
add_datapath dpif res panic = (panic, res)
add_datapath dpif res wild = (wild, res)
add_datapath dpif res out_of_fuel = (out_of_fuel, res)

-- The closure of EnumerateDatapaths.
unfoldable pub datapath_consumer : Dpif → NlMsgParser → Datapaths → Result (Unit {0}) × Datapaths
unfolding parse_datapath_info put_datapath
datapath_consumer dpif resp res =
    add_datapath dpif res (parse_datapath_info dpif ovs_dp_cmd_get resp)

unfoldable pub enumerate_datapaths : Dpif → Socket → Exchange Datapaths
unfolding finish request_multi datapath_request datapath_consumer
enumerate_datapaths dpif sock =
    dump sock (datapath_request dpif dump_flags ovs_dp_cmd_get 0) (datapath_consumer dpif) []

-- The receiver is a copy of the handle, so that resetting its fields behind a success has no effect.
unfoldable pub delete_datapath : DatapathHandle → Socket → Exchange (Option NlMsgParser)
unfolding finish request datapath_request
delete_datapath dp sock =
    exchange sock (datapath_request dp.dpif request_flags ovs_dp_cmd_del dp.ifindex, none)
