-- ===== src/Packet/Misses.antt =====
-- What consumeMisses does with the messages of the packet family, and what Execute sends.
use go_odp.Prelude.{
  ℕ, ◌+◌, ◌%◌, ◌<◌, ◌≡◌, ◌≢◌, refl, List, [], ◌∷◌, Bool, false, Option, none, some, ok, Error, map,
  length, All, arith,
}
use go_odp.Prelude.Map.{lookup}
use go_odp.Format.{Attr, Fits, encode, nested}
use go_odp.Format.Optional.{attribute, total, length-nested-le}
use go_odp.Builder.Emits.{Emits, append_to, Emits-none, Emits-then, put_nested_attrs-Emits}
use go_odp.Builder.Values.{put_slice_attr-Emits}
use go_odp.Attrs.RoundTrip.{attrs_of, get_nested_attrs-nested}
use go_odp.Session.{waiting}
use go_odp.Session.Packets.{parser_at}
use go_odp.Dpif.{DatapathHandle}
use go_odp.Dpif.Exchange.{ovs_request}
use go_odp.Dpif.Messages.{OvsMessage, message_of, IsOvsMessage}
use go_odp.Dpif.Replies.{check_datapath_headers-message, take_attrs-message}
use go_odp.Dpif.Events.{Datagram, IsHandled, result_of, received_as, after_datagrams, consume-after}
use go_odp.Flow.Key.{FlowKey, put_key_nl_attr}
use go_odp.Flow.Key.Encoding.{IsWritable, put_key_nl_attr-Emits}
use go_odp.Flow.Keys.{FlowKeys}
use go_odp.Flow.Keys.Encoding.{key_attribute}
use go_odp.Flow.Parse.{parse_flow_keys}
use go_odp.Flow.Action.{Action}
use go_odp.Flow.Action.Encoding.{IsAction, action_attribute}
use go_odp.Flow.Spec.{put_actions}
use go_odp.Flow.Spec.RoundTrip.{put_actions-Emits}
use go_odp.Packet.{
  MissConsumer, packet_of, parse_miss, handle_miss, consume_misses, put_all_keys, execute_request,
}

-- A miss: the packet, or nothing where it is left out, and the keys that its key attributes parse to.
pub record IsMiss (dp : DatapathHandle) (m : OvsMessage) (packet : List ℕ) (fks : FlowKeys)
    : Type 0 where
  pub valid : IsOvsMessage m
  pub family : m.typ ≡ dp.dpif.families 3
  pub no_error : m.typ ≢ 2
  pub own : m.ifindex ≡ dp.ifindex
  pub is_miss : m.cmd ≡ 1
  pub packet_is : packet_of (lookup 1 (attrs_of m.attrs)) ≡ packet
  pub keys : List Attr
  pub keys_fit : All Fits keys
  pub keys_are : lookup 2 (attrs_of m.attrs) ≡ some (nested keys)
  pub keys_parse : parse_flow_keys (attrs_of keys) none ≡ ok fks

parse_miss-message :
    (dp : DatapathHandle) (pre : List ℕ) (m : OvsMessage) (behind packet : List ℕ) (fks : FlowKeys)
    → IsMiss dp m packet fks
    → length pre % 4 ≡ 0
    → parse_miss dp (parser_at pre (message_of m) behind) ≡ ok (packet, fks)
unfolding parse_miss
parse_miss-message dp pre m behind packet fks h words =
    let (end, e) = take_attrs-message pre m behind h.valid words in
    rw
      (
        check_datapath_headers-message dp 3 (some 1) pre m behind h.valid h.family
            (rw (h.is_miss) refl) words h.own,
        e,
        get_nested_attrs-nested 2 false h.keys (attrs_of m.attrs) h.keys_fit h.keys_are,
        h.keys_parse,
        h.packet_is,
      )
      refl

-- A consumer that ends no call in a panic.
pub record MissReactions (U : Type 0) : Type 0 where
  pub miss : List ℕ → FlowKeys → U → Option Error × U
  pub on_error : Error → Bool → U → U

abbrev pub miss_consumer_of : {U : Type 0} → MissReactions U → MissConsumer U
miss_consumer_of r = record {
  miss = λ packet fks u. let (e, after) = r.miss packet fks u in (result_of e, after);
  on_error = r.on_error;
}

module _ {U : Type 0} (dp : DatapathHandle) (shown : OvsMessage → List ℕ × FlowKeys)
    (r : MissReactions U) where
  abbrev pub IsMissed : OvsMessage → Type 0
  IsMissed m = IsMiss dp m (shown m).0 (shown m).1

  abbrev pub missed : OvsMessage → U → Option Error × U
  missed m u = r.miss (shown m).0 (shown m).1 u

  handled :
      (ms : List OvsMessage)
      → All IsMissed ms
      → All (IsHandled r.on_error (handle_miss (miss_consumer_of r) dp) missed) ms
  unfolding handle_miss
  handled [] h = tt
  handled (m ∷ ms) h = (
    record {
      valid = h.0.valid.valid;
      no_error = h.0.no_error;
      steps = λ pre behind u words.
          rw (parse_miss-message dp pre m behind (shown m).0 (shown m).1 h.0 words) refl;
    },
    handled ms h.1,
  )

  All-IsHandled :
      (ds : List Datagram)
      → All (λ d. All IsMissed (d.first ∷ d.others)) ds
      → All
          (λ d.
            All
              (IsHandled r.on_error (handle_miss (miss_consumer_of r) dp) missed)
              (d.first ∷ d.others))
          ds
  All-IsHandled [] h = tt
  All-IsHandled (d ∷ ds) h = (handled (d.first ∷ d.others) h.0, All-IsHandled ds h.1)

  -- The consumption of misses, over any datagrams of miss messages of the datapath, calls the consumer
  -- for each in its turn with the packet, empty where the attribute is missing, and the flow keys that
  -- are parsed with exact masks; an error of the consumer is reported to it as one that does not stop
  -- the consumption, and then it waits for more.
  pub consume_misses-missed :
      (ds : List Datagram) (u : U)
      → All (λ d. All IsMissed (d.first ∷ d.others)) ds
      → consume_misses (miss_consumer_of r) dp (map received_as ds) u
        ≡ waiting (after_datagrams r.on_error missed ds u)
  unfolding consume_misses
  consume_misses-missed ds u h =
      consume-after r.on_error (handle_miss (miss_consumer_of r) dp) missed ds u
        (All-IsHandled ds h)

abbrev pub all_keys : FlowKeys → List FlowKey
all_keys [] = []
all_keys ((id, k) ∷ fks) = k ∷ all_keys fks

put_all_keys-Emits :
    (fks : FlowKeys)
    → All IsWritable (all_keys fks)
    → Emits (put_all_keys fks) (map key_attribute (all_keys fks))
unfolding put_all_keys
put_all_keys-Emits [] h = Emits-none
put_all_keys-Emits ((id, k) ∷ fks) h =
    Emits-then {f = put_key_nl_attr k} {g = put_all_keys fks} (key_attribute k ∷ [])
      (map key_attribute (all_keys fks)) (put_key_nl_attr-Emits k h.0) (put_all_keys-Emits fks h.1)

-- What Execute sends behind the headers.
abbrev pub execute_attributes : List ℕ → FlowKeys → List Action → List Attr
execute_attributes packet fks actions =
    attribute 1 packet
    ∷ attribute 2 (nested (map key_attribute (all_keys fks)))
    ∷ attribute 3 (nested (map action_attribute actions))
    ∷ []

-- Execute's request has the headers of a packet request, and then the packet, all keys without their
-- masks, those that a flow would leave out too, and the actions in their order, where each of the
-- three fits into an attribute.
pub execute_request-lem :
    (dp : DatapathHandle) (packet : List ℕ) (fks : FlowKeys) (actions : List Action)
    → 4 + length packet < 65536
    → All IsWritable (all_keys fks)
    → total (map key_attribute (all_keys fks)) < 65529
    → All IsAction actions
    → total (map action_attribute actions) < 65529
    → execute_request dp packet fks actions
      ≡ append_to (ovs_request dp.dpif 3 9 3 1 dp.ifindex) (
          encode
            (length (ovs_request dp.dpif 3 9 3 1 dp.ifindex).buf)
            (execute_attributes packet fks actions))
unfolding execute_request
execute_request-lem dp packet fks actions short writable keys_fit valid actions_fit =
    let keys = map key_attribute (all_keys fks) in
    let acts = map action_attribute actions in
    Emits-then (attribute 1 packet ∷ []) _ (put_slice_attr-Emits 1 packet short)
      (Emits-then (attribute 2 (nested keys) ∷ []) (attribute 3 (nested acts) ∷ [])
        (put_nested_attrs-Emits 2 (put_all_keys fks) keys
          (omega (arith, length-nested-le keys, keys_fit)) (put_all_keys-Emits fks writable))
        (put_nested_attrs-Emits 3 (put_actions actions) acts
          (omega (arith, length-nested-le acts, actions_fit)) (put_actions-Emits actions valid)))
      (ovs_request dp.dpif 3 9 3 1 dp.ifindex)
