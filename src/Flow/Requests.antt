-- ===== src/Flow/Requests.antt =====
-- odp/flow.go: the operations of a DatapathHandle on flows.
pub mod RoundTrip
pub mod Listing
use go_odp.Prelude.{
  ℕ, List, [], Option, none, some, Result, ok, Error, ◌>>=◌, netlink_error, ◌==◌, Bool, false,
}
use go_odp.Builder.{NlMsgBuilder, finish, put_empty_attr}
use go_odp.Parser.{NlMsgParser}
use go_odp.Attrs.{Attrs, take_attrs}
use go_odp.Session.{request, request_multi}
use go_odp.Dpif.{DatapathHandle, flow_family, check_datapath_headers}
use go_odp.Dpif.Exchange.{
  Socket, Exchange, exchange, dump, append_result, ovs_request, request_flags, dump_flags,
}
use go_odp.Flow.Keys.{FlowKeys, keys_to_nl_attrs}
use go_odp.Flow.Spec.{FlowSpec, FlowInfo, spec_to_nl_attrs, parse_flow_info}

abbrev pub ovs_flow_version : ℕ
ovs_flow_version = 1

abbrev pub ovs_flow_cmd_new : ℕ
ovs_flow_cmd_new = 1

abbrev pub ovs_flow_cmd_del : ℕ
ovs_flow_cmd_del = 2

abbrev pub ovs_flow_cmd_get : ℕ
ovs_flow_cmd_get = 3

abbrev pub ovs_flow_cmd_set : ℕ
ovs_flow_cmd_set = 4

abbrev pub ovs_flow_attr_clear : ℕ
ovs_flow_attr_clear = 6

-- The headers with which each request starts.
unfoldable pub flow_request : DatapathHandle → ℕ → ℕ → NlMsgBuilder
unfolding ovs_request
flow_request dp flags cmd = ovs_request dp.dpif flow_family flags cmd ovs_flow_version dp.ifindex

unfoldable pub create_flow : DatapathHandle → FlowSpec → Socket → Exchange (Option NlMsgParser)
unfolding finish request spec_to_nl_attrs flow_request
create_flow dp f sock =
    exchange sock (spec_to_nl_attrs f (flow_request dp request_flags ovs_flow_cmd_new))

unfoldable pub delete_flow : DatapathHandle → FlowKeys → Socket → Exchange (Option NlMsgParser)
unfolding finish request keys_to_nl_attrs flow_request
delete_flow dp fks sock =
    exchange sock (keys_to_nl_attrs fks (flow_request dp request_flags ovs_flow_cmd_del))

abbrev put_clear : NlMsgBuilder × Option Error → NlMsgBuilder × Option Error
put_clear (msg, some e) = (msg, some e)
put_clear (msg, none) = (put_empty_attr ovs_flow_attr_clear msg, none)

unfoldable pub clear_flow : DatapathHandle → FlowSpec → Socket → Exchange (Option NlMsgParser)
unfolding finish request spec_to_nl_attrs flow_request put_empty_attr
clear_flow dp f sock =
    exchange sock (put_clear (spec_to_nl_attrs f (flow_request dp request_flags ovs_flow_cmd_set)))

-- The parser that TakeAttrs leaves is not used again.
unfoldable pub parse_flow_msg : DatapathHandle → ℕ → NlMsgParser → Result Attrs
unfolding check_datapath_headers take_attrs
parse_flow_msg dp cmd msg = do
  behind ← check_datapath_headers dp flow_family (some cmd) msg
  (attrs, end) ← take_attrs behind
  ok attrs

-- The closure of EnumerateFlows.
unfoldable pub flow_consumer :
    DatapathHandle → NlMsgParser → List FlowInfo → Result (Unit {0}) × List FlowInfo
unfolding parse_flow_msg parse_flow_info
flow_consumer dp resp infos =
    append_result infos
      (parse_flow_msg dp ovs_flow_cmd_get resp >>= λ (attrs : Attrs). parse_flow_info attrs)

unfoldable pub enumerate_flows : DatapathHandle → Socket → Exchange (List FlowInfo)
unfolding finish request_multi flow_request flow_consumer
enumerate_flows dp sock =
    dump sock (flow_request dp dump_flags ovs_flow_cmd_get) (flow_consumer dp) []

abbrev enoent : ℕ
enoent = 2

unfoldable pub is_no_such_flow_error : Error → Bool
is_no_such_flow_error (netlink_error n) = n == enoent
is_no_such_flow_error _ = false
