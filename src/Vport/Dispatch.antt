-- ===== src/Vport/Dispatch.antt =====
-- What consumeVportEvents does with the messages of the multicast group.
use go_odp.Prelude.{
  ℕ, ◌%◌, ◌^◌, ◌==◌, ◌≡◌, refl, List, [], ◌∷◌, Bool, not, ◌&&◌, ltb, Option, none, some, Result, ok,
  Error, map, length, All, if◌then◌else◌, Bool-cases, inl, inr,
}
use go_odp.Attrs.RoundTrip.{attrs_of}
use go_odp.Session.{waiting}
use go_odp.Session.Packets.{parser_at}
use go_odp.Dpif.{Dpif}
use go_odp.Dpif.Messages.{OvsMessage, message_of}
use go_odp.Dpif.Replies.{check_nl_msg_headers-message}
use go_odp.Dpif.Events.{Datagram, IsHandled, result_of, received_as, after_datagrams, consume-after}
use go_odp.Vport.{VportSpec, Vport}
use go_odp.Vport.Events.{
  VportEventsConsumer, vport_event, dispatch_event, handle_vport_event, consume_vport_events,
}
use go_odp.Vport.RoundTrip.{vport_of-Describes, parse_vport-message}
use go_odp.Vport.Calls.{IsVportMessage}

-- The messages of other datapaths, where the events of one are asked for.
abbrev pub filtered : ℕ → OvsMessage → Bool
filtered ifindex m = ltb ifindex (2 ^ 31) && not (m.ifindex == ifindex)

abbrev pub shown_event : ℕ → OvsMessage → Vport → Option ((ℕ × ℕ) × Vport)
shown_event ifindex m vport = if filtered ifindex m then none else some ((m.cmd, m.ifindex), vport)

-- The two reactions of a consumer that ends no call in a panic.
pub record Reactions (S : Type 0) : Type 0 where
  pub created : ℕ → Vport → S → Option Error × S
  pub deleted : ℕ → Vport → S → Option Error × S
  pub on_error : Error → Bool → S → S

abbrev pub as_result : {S : Type 0} → Option Error × S → Result (Unit {0}) × S
as_result (e, s) = (result_of e, s)

abbrev pub consumer_of : {S : Type 0} → Reactions S → VportEventsConsumer S
consumer_of r = record {
  vport_created = λ dpid vport s. as_result (r.created dpid vport s);
  vport_deleted = λ dpid vport s. as_result (r.deleted dpid vport s);
  on_error = r.on_error;
}

module _ (dpif : Dpif) (ifindex : ℕ) (shown : OvsMessage → ℕ × VportSpec) where
  abbrev pub announced : OvsMessage → Vport
  announced m = record { id = (shown m).0; spec = some (shown m).1 }

  abbrev pub IsAnnounced : OvsMessage → Type 0
  IsAnnounced m = IsVportMessage dpif m (shown m).0 (shown m).1

  vport_event-message :
      (pre : List ℕ) (m : OvsMessage) (behind : List ℕ)
      → IsAnnounced m
      → length pre % 4 ≡ 0
      → vport_event dpif ifindex (parser_at pre (message_of m) behind)
        ≡ ok (shown_event ifindex m (announced m))
  unfolding vport_event
  vport_event-message pre m behind h words =
      rw
        (
          check_nl_msg_headers-message dpif 1 none pre m behind h.valid h.family refl words,
          parse_vport-message pre m behind h.valid words,
          vport_of-Describes (attrs_of m.attrs) (shown m).0 (shown m).1 h.spec_valid h.described,
        )
        (elim (Bool-cases (filtered ifindex m)) [ inl e ↦ rw e refl | inr e ↦ rw e refl ])

  module _ {S : Type 0} (r : Reactions S) where
    -- What a message means to the consumer.
    abbrev pub reaction : OvsMessage → S → Option Error × S
    reaction m s =
        if filtered ifindex m
        then (none, s)
        else if m.cmd == 1
        then r.created m.ifindex (announced m) s
        else if m.cmd == 2
        then r.deleted m.ifindex (announced m) s
        else (none, s)

    dispatch-reaction :
        (m : OvsMessage) (s : S)
        → dispatch_event (consumer_of r) (ok (shown_event ifindex m (announced m))) s
          ≡ as_result (reaction m s)
    dispatch-reaction m s = elim (Bool-cases (filtered ifindex m)) [
      | inl e ↦ rw e refl
      | inr e ↦ rw e (elim (Bool-cases (m.cmd == 1)) [
        | inl new ↦ rw new refl
        | inr old ↦
            rw old (elim (Bool-cases (m.cmd == 2)) [ inl e ↦ rw e refl | inr e ↦ rw e refl ])
      ])
    ]

    handled :
        (ms : List OvsMessage)
        → All IsAnnounced ms
        → All (IsHandled r.on_error (handle_vport_event (consumer_of r) dpif ifindex) reaction) ms
    unfolding handle_vport_event
    handled [] h = tt
    handled (m ∷ ms) h = (
      record {
        valid = h.0.valid.valid;
        no_error = h.0.no_error;
        steps = λ pre behind s words.
            rw (vport_event-message pre m behind h.0 words) (dispatch-reaction m s);
      },
      handled ms h.1,
    )

    All-IsHandled :
        (ds : List Datagram)
        → All (λ d. All IsAnnounced (d.first ∷ d.others)) ds
        → All
            (λ d.
              All
                (IsHandled r.on_error (handle_vport_event (consumer_of r) dpif ifindex) reaction)
                (d.first ∷ d.others))
            ds
    All-IsHandled [] h = tt
    All-IsHandled (d ∷ ds) h = (handled (d.first ∷ d.others) h.0, All-IsHandled ds h.1)

    -- The consumption of vport events, over any datagrams of messages that describe vports, calls the
    -- consumer for each message in its turn: VportCreated for the command NEW, VportDeleted for DEL,
    -- with the message's datapath and vport, nothing for other commands or, where one datapath is
    -- asked for, for another datapath. An error of the consumer is reported to it as one that does not
    -- stop the consumption, and then it waits for more.
    pub consume_vport_events-reactions :
        (ds : List Datagram) (s : S)
        → All (λ d. All IsAnnounced (d.first ∷ d.others)) ds
        → consume_vport_events (consumer_of r) dpif ifindex (map received_as ds) s
          ≡ waiting (after_datagrams r.on_error reaction ds s)
    unfolding consume_vport_events
    consume_vport_events-reactions ds s h =
        consume-after r.on_error (handle_vport_event (consumer_of r) dpif ifindex) reaction ds s
          (All-IsHandled ds h)
