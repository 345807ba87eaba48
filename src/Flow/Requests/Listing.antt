-- ===== src/Flow/Requests/Listing.antt =====
-- EnumerateFlows over a dump of flows.
use go_odp.Prelude.{
  ℕ, ◌<◌, ◌≡◌, refl, ap, ◌∙◌, List, [], ◌∷◌, ◌++◌, Bool, true, false, Option, none, some, ok, map,
  All, if◌then◌else◌,
}
use go_odp.Prelude.Map.{lookup}
use go_odp.Memory.Codec.{u64_bytes, uint64_at-pair}
use go_odp.Format.{nested}
use go_odp.Attrs.{Attrs}
use go_odp.Attrs.RoundTrip.{attrs_of}
use go_odp.Attrs.Getters.{
  get_fixed_bytes-found, get_fixed_bytes-missing, get_optional_uint64-found,
  get_optional_uint64-missing,
}
use go_odp.Session.{Received, returned}
use go_odp.Session.Packets.{Message}
use go_odp.Dpif.{DatapathHandle, cmd_accepted}
use go_odp.Dpif.Exchange.{Socket}
use go_odp.Dpif.Messages.{OvsMessage, IsOvsMessage}
use go_odp.Dpif.Replies.{check_datapath_headers-message, take_attrs-message}
use go_odp.Dpif.Events.{Datagram}
use go_odp.Dpif.Dumps.{
  GetsDump, all_messages, Takes, append_value, add_all-append_value, dump-add_all,
}
use go_odp.Flow.Keys.Encoding.{all_written, key_attribute, mask_attribute}
use go_odp.Flow.Action.Encoding.{action_attribute}
use go_odp.Flow.Spec.{FlowSpec, FlowInfo, parse_flow_info, stats_of}
use go_odp.Flow.Spec.RoundTrip.{IsFlow, read_spec, parse_flow_spec-found}
use go_odp.Flow.Requests.{flow_request, parse_flow_msg, flow_consumer, enumerate_flows}

-- A flow in the datapath, with its packets and bytes where there are statistics, and the time of its
-- last use where it was used.
pub record ListedFlow : Type 0 where
  pub flow : FlowSpec
  pub stats : Option (ℕ × ℕ)
  pub last_used : Option ℕ

abbrev or_zero : Option ℕ → ℕ
or_zero none = 0
or_zero (some n) = n

abbrev counts : Option (ℕ × ℕ) → ℕ × ℕ
counts none = (0, 0)
counts (some s) = s

-- What EnumerateFlows says of it: zeros for what is missing.
abbrev pub info_of : ListedFlow → FlowInfo
info_of l = record {
  spec = read_spec l.flow;
  packets = (counts l.stats).0;
  bytes = (counts l.stats).1;
  used = or_zero l.last_used;
}

abbrev stats_bytes : Option (ℕ × ℕ) → Option (List ℕ)
stats_bytes none = none
stats_bytes (some (packets, bytes)) = some (u64_bytes packets ++ u64_bytes bytes)

abbrev used_bytes : Option ℕ → Option (List ℕ)
used_bytes none = none
used_bytes (some n) = some (u64_bytes n)

abbrev StatsFit : Option (ℕ × ℕ) → Type 0
StatsFit none = Unit {0}
StatsFit (some (packets, bytes)) = (packets < 18446744073709551616) × (bytes < 18446744073709551616)

abbrev UsedFits : Option ℕ → Type 0
UsedFits none = Unit {0}
UsedFits (some n) = n < 18446744073709551616

-- The attributes, in whatever order and among whatever others, are those of the flow.
pub record Lists (attrs : Attrs) (l : ListedFlow) : Type 0 where
  pub is_flow : IsFlow l.flow
  pub keys_are : lookup 1 attrs ≡ some (nested (map key_attribute (all_written l.flow.flow_keys)))
  pub masks_are : lookup 7 attrs ≡ some (nested (map mask_attribute (all_written l.flow.flow_keys)))
  pub actions_are : lookup 2 attrs ≡ some (nested (map action_attribute l.flow.actions))
  pub stats_are : lookup 3 attrs ≡ stats_bytes l.stats
  pub used_is : lookup 5 attrs ≡ used_bytes l.last_used
  pub stats_fit : StatsFit l.stats
  pub used_fits : UsedFits l.last_used

stats-found :
    (attrs : Attrs) (stats : Option (ℕ × ℕ))
    → lookup 3 attrs ≡ stats_bytes stats
    → StatsFit stats
    → (bytes : Option (List ℕ)) × (go_odp.Attrs.get_fixed_bytes 3 16 true attrs ≡ ok bytes)
      × (stats_of bytes ≡ ok (counts stats))
stats-found attrs none found h = (none, get_fixed_bytes-missing 3 attrs 16 found, refl)
stats-found attrs (some (packets, bytes)) found h =
    let (first, second) = uint64_at-pair packets bytes h.0 h.1 in
    (
      some (u64_bytes packets ++ u64_bytes bytes),
      get_fixed_bytes-found 3 attrs 16 (u64_bytes packets ++ u64_bytes bytes) found refl,
      rw (first, second) refl,
    )

abbrev used_value : ℕ × Bool → ℕ
used_value (used, present) = if present then used else 0

used-found :
    (attrs : Attrs) (last_used : Option ℕ)
    → lookup 5 attrs ≡ used_bytes last_used
    → UsedFits last_used
    → (found : ℕ × Bool) × (go_odp.Attrs.get_optional_uint64 5 attrs ≡ ok found)
      × (used_value found ≡ or_zero last_used)
used-found attrs none found h = ((0, false), get_optional_uint64-missing 5 attrs found, refl)
used-found attrs (some n) found h = ((n, true), get_optional_uint64-found 5 attrs n h found, refl)

parse_flow_info-Lists :
    (attrs : Attrs) (l : ListedFlow) → Lists attrs l → parse_flow_info attrs ≡ ok (info_of l)
unfolding parse_flow_info
parse_flow_info-Lists attrs l h =
    let (bytes, read, are) = stats-found attrs l.stats h.stats_are h.stats_fit in
    let (found, got, is_used) = used-found attrs l.last_used h.used_is h.used_fits in
    rw
      (
        parse_flow_spec-found l.flow h.is_flow attrs h.keys_are h.masks_are h.actions_are,
        read,
        are,
        got,
      )
      (rw is_used refl)

-- A message of the datapath that lists a flow.
pub record IsFlowMessage (dp : DatapathHandle) (shown : OvsMessage → ListedFlow) (m : OvsMessage)
    : Type 0 where
  pub valid : IsOvsMessage m
  pub family : m.typ ≡ dp.dpif.families 2
  pub own : m.ifindex ≡ dp.ifindex
  pub accepted : cmd_accepted m.cmd (some 3) (some 1) ≡ true
  pub listed : Lists (attrs_of m.attrs) (shown m)

abbrev pub info_at : (OvsMessage → ListedFlow) → OvsMessage → FlowInfo
info_at shown m = info_of (shown m)

flow_consumer-Takes :
    (dp : DatapathHandle) (shown : OvsMessage → ListedFlow) (ms : List OvsMessage)
    → All (IsFlowMessage dp shown) ms
    → All (Takes (flow_consumer dp) (append_value (info_at shown))) ms
unfolding flow_consumer parse_flow_msg
flow_consumer-Takes dp shown [] h = tt
flow_consumer-Takes dp shown (m ∷ ms) h = (
  λ pre behind res words.
      let (end, e) = take_attrs-message pre m behind h.0.valid words in
      rw
        (
          check_datapath_headers-message dp 2 (some 3) pre m behind h.0.valid h.0.family
              h.0.accepted words h.0.own,
          e,
          parse_flow_info-Lists (attrs_of m.attrs) (shown m) h.0.listed,
        )
        refl,
  flow_consumer-Takes dp shown ms h.1,
)

-- Let the socket get a dump of messages that list flows of the datapath, in any number of datagrams and
-- with the end of the dump in the last one. Let each flow's keys that are written be of distinct types,
-- each of a type whose parser makes such keys and with a mask, an in-port key matched exactly and a
-- tunnel key zero where its mask is; let it have no SetUnknownAction and fit its attributes, and let its
-- message have the attributes that it is written with. Then EnumerateFlows returns these flows in the
-- order of the dump: the keys that are not ignored, an ethernet key where there is none, the actions in
-- their order, and the statistics and the time of the last use, zero where they are missing.
pub enumerate_flows-dump :
    (dp : DatapathHandle) (sock : Socket) (shown : OvsMessage → ListedFlow) (ds : List Datagram)
    (ms : List OvsMessage) (last : Message) (spare : ℕ) (rest : List Received)
    → GetsDump sock ds ms last spare rest
    → All (IsFlowMessage dp shown) (all_messages ds ms)
    → (enumerate_flows dp sock).1 ≡ returned (ok tt) (map (info_at shown) (all_messages ds ms)) rest
unfolding enumerate_flows
enumerate_flows-dump dp sock shown ds ms last spare rest dumped h =
    dump-add_all (flow_consumer dp) (append_value (info_at shown)) sock (flow_request dp 0x301 3) ds
      ms last spare rest [] dumped (flow_consumer-Takes dp shown (all_messages ds ms) h)
    ∙ ap (λ (l : List FlowInfo). returned (ok tt) l rest)
        (add_all-append_value (info_at shown) (all_messages ds ms) [])
