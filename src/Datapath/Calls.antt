-- ===== src/Datapath/Calls.antt =====
-- The calls on datapaths, answered by the messages that a kernel sends.
use go_odp.Prelude.{
  ℕ, ◌+◌, ◌%◌, ◌<◌, ◌≡◌, ◌≢◌, refl, ap, ◌∙◌, List, [], ◌∷◌, ◌++◌, inl, inr, true, Option, none,
  some, ok, length, All, bytes_equal, bytes_equal→eq, other_name, Bool-cases, if◌then◌else◌,
}
use go_odp.Prelude.Map.{lookup}
use go_odp.Memory.{u32_bytes}
use go_odp.Format.{Attr, encode}
use go_odp.Builder.{put_string_attr}
use go_odp.Builder.Emits.{Emits-then, append_to}
use go_odp.Builder.Values.{put_string_attr-Emits, put_uint32_attr-Emits}
use go_odp.Attrs.RoundTrip.{attrs_of}
use go_odp.Attrs.Getters.{get_string-found}
use go_odp.Session.{Received, returned}
use go_odp.Session.Packets.{Message, parser_at}
use go_odp.Dpif.{Dpif, DatapathHandle, cmd_accepted}
use go_odp.Dpif.Exchange.{Socket, answered}
use go_odp.Dpif.Messages.{OvsMessage, message_of, IsOvsMessage}
use go_odp.Dpif.Replies.{check_nl_msg_headers-message, take_attrs-message}
use go_odp.Dpif.Asks.{Gets, datagram_rest, ask-reply}
use go_odp.Dpif.Events.{Datagram}
use go_odp.Dpif.Dumps.{GetsDump, all_messages, Takes, add_all, dump-add_all}
use go_odp.Datapath.{
  parse_datapath_info, datapath_request, create_datapath_request, create_datapath, lookup_datapath,
  lookup_datapath_by_id, Datapaths, named_datapath, put_datapath, datapath_consumer,
  enumerate_datapaths,
}

-- What CreateDatapath asks for.
abbrev pub create_attributes : List ℕ → List Attr
create_attributes name =
    record { typ = 1; val = name ++ (0 ∷ []) }
    ∷ record { typ = 2; val = u32_bytes 0 }
    ∷ record { typ = 5; val = u32_bytes 3 }
    ∷ []

-- CreateDatapath's request has the headers of a datapath request, and then the name, the upcall port 0
-- and the features OVS_DP_F_UNALIGNED and OVS_DP_F_VPORT_PIDS.
pub create_datapath_request-lem :
    (dpif : Dpif) (name : List ℕ)
    → 5 + length name < 65536
    → create_datapath_request dpif name
      ≡ append_to
          (datapath_request dpif 9 1 0)
          (encode (length (datapath_request dpif 9 1 0).buf) (create_attributes name))
unfolding create_datapath_request
create_datapath_request-lem dpif name short =
    Emits-then (record { typ = 1; val = name ++ (0 ∷ []) } ∷ []) _
      (put_string_attr-Emits 1 name short)
      (Emits-then (record { typ = 2; val = u32_bytes 0 } ∷ [])
        (record { typ = 5; val = u32_bytes 3 } ∷ []) (put_uint32_attr-Emits 2 0)
        (put_uint32_attr-Emits 5 3))
      (datapath_request dpif 9 1 0)

-- A message of the datapath family that names its datapath.
pub record IsDatapathMessage (dpif : Dpif) (cmd : ℕ) (m : OvsMessage) (name : List ℕ) : Type 0 where
  pub valid : IsOvsMessage m
  pub family : m.typ ≡ dpif.families 0
  pub no_error : m.typ ≢ 2
  pub accepted : cmd_accepted m.cmd (some cmd) (some 1) ≡ true
  pub name_is : lookup 1 (attrs_of m.attrs) ≡ some (name ++ (0 ∷ []))

pub parse_datapath_info-message :
    (dpif : Dpif) (cmd : ℕ) (pre : List ℕ) (m : OvsMessage) (behind name : List ℕ)
    → IsDatapathMessage dpif cmd m name
    → length pre % 4 ≡ 0
    → parse_datapath_info dpif cmd (parser_at pre (message_of m) behind)
      ≡ ok (record { ifindex = m.ifindex; name = name })
unfolding parse_datapath_info
parse_datapath_info-message dpif cmd pre m behind name h words =
    let (end, e) = take_attrs-message pre m behind h.valid words in
    rw
      (check_nl_msg_headers-message dpif 0 (some cmd) pre m behind h.valid h.family h.accepted
        words)
      (rw e (rw (get_string-found 1 (attrs_of m.attrs) name h.name_is) refl))

-- A socket gets a reply that names a datapath, and is one to a request with the command `cmd`.
pub record GetsDatapath (dpif : Dpif) (cmd : ℕ) (sock : Socket) (m : OvsMessage) (name : List ℕ)
    (rest : List Received) : Type 0 where
  pub ms : List Message
  pub spare : ℕ
  pub arrives : Gets sock (message_of m) ms spare rest
  pub named : IsDatapathMessage dpif cmd m name

-- Where the reply names a datapath and has the command of the request, or NEW, CreateDatapath and
-- LookupDatapath return a handle of the datapath that the reply is about, whatever name was asked for,
-- and LookupDatapathByID returns the reply's name with the number that was asked for.
pub datapath-replies :
    (dpif : Dpif) (sock other : Socket) (m n : OvsMessage) (name shown : List ℕ)
    (rest left : List Received) (asked : List ℕ) (id : ℕ)
    → GetsDatapath dpif 1 sock m name rest
    → GetsDatapath dpif 3 other n shown left
    → ((create_datapath dpif asked sock).1
        ≡ answered (ok (record { dpif = dpif; ifindex = m.ifindex })) rest)
      × ((lookup_datapath dpif asked other).1
          ≡ answered (ok (record { dpif = dpif; ifindex = n.ifindex })) left)
      × ((lookup_datapath_by_id dpif id other).1
          ≡ answered
              (ok (record { handle = record { dpif = dpif; ifindex = id }; name = shown }))
              left)
unfolding create_datapath lookup_datapath lookup_datapath_by_id
datapath-replies dpif sock other m n name shown rest left asked id new got =
    let in_new = datagram_rest (message_of m) new.ms new.spare in
    let in_got = datagram_rest (message_of n) got.ms got.spare in
    (
      ask-reply sock (create_datapath_request dpif asked) _ (message_of m) new.ms new.spare rest
            new.arrives new.named.no_error
          ∙ rw (parse_datapath_info-message dpif 1 [] m in_new name new.named refl) refl,
      ask-reply other (put_string_attr 1 asked (datapath_request dpif 9 3 0)) _ (message_of n)
            got.ms got.spare left got.arrives got.named.no_error
          ∙ rw (parse_datapath_info-message dpif 3 [] n in_got shown got.named refl) refl,
      ask-reply other (datapath_request dpif 9 3 id) _ (message_of n) got.ms got.spare left
            got.arrives got.named.no_error
          ∙ rw (parse_datapath_info-message dpif 3 [] n in_got shown got.named refl) refl,
    )

module _ (dpif : Dpif) (name_of : OvsMessage → List ℕ) where
  abbrev pub handle_from : OvsMessage → DatapathHandle
  handle_from m = record { dpif = dpif; ifindex = m.ifindex }

  abbrev pub put_from : OvsMessage → Datapaths → Datapaths
  put_from m = put_datapath (name_of m) (handle_from m)

  abbrev pub IsNamed : OvsMessage → Type 0
  IsNamed m = IsDatapathMessage dpif 3 m (name_of m)

  datapath_consumer-Takes :
      (ms : List OvsMessage) → All IsNamed ms → All (Takes (datapath_consumer dpif) put_from) ms
  unfolding datapath_consumer
  datapath_consumer-Takes [] h = tt
  datapath_consumer-Takes (m ∷ ms) h = (
    λ pre behind res words.
        rw (parse_datapath_info-message dpif 3 pre m behind (name_of m) h.0 words) refl,
    datapath_consumer-Takes ms h.1,
  )

  named-put :
      (name key : List ℕ) (handle : DatapathHandle) (entries : Datapaths)
      → named_datapath name (put_datapath key handle entries)
        ≡ (if bytes_equal key name then some handle else named_datapath name entries)
  unfolding named_datapath put_datapath
  named-put name key handle [] = refl
  named-put name key handle ((other, old) ∷ entries) = elim (Bool-cases (bytes_equal other key)) [
    | inl e ↦ rw e (elim (Bool-cases (bytes_equal key name)) [
      | inl y ↦ rw y refl
      | inr n ↦ rw (n, bytes_equal→eq other key e) (rw n refl)
    ])
    | inr e ↦ rw e (elim (Bool-cases (bytes_equal other name)) [
      | inl y ↦ rw (y, other_name name key other e y) refl
      | inr n ↦ rw n (named-put name key handle entries)
    ])
  ]

  -- The datapath of a name among the messages of a dump: the last one that has the name.
  abbrev pub last_named : List ℕ → List OvsMessage → Option DatapathHandle → Option DatapathHandle
  last_named name [] found = found
  last_named name (m ∷ ms) found =
      last_named name ms (if bytes_equal (name_of m) name then some (handle_from m) else found)

  named-put_all :
      (name : List ℕ) (ms : List OvsMessage) (entries : Datapaths)
      → named_datapath name (add_all put_from ms entries)
        ≡ last_named name ms (named_datapath name entries)
  named-put_all name [] entries = refl
  named-put_all name (m ∷ ms) entries =
      named-put_all name ms (put_from m entries)
      ∙ ap (last_named name ms) (named-put name (name_of m) (handle_from m) entries)

  -- EnumerateDatapaths, on a dump of messages that name datapaths, in any number of datagrams and with
  -- the end of the dump in the last one, returns a map that has, under each name, the handle of the last
  -- message with that name, and nothing else.
  pub enumerate_datapaths-dump :
      (sock : Socket) (ds : List Datagram) (ms : List OvsMessage) (last : Message) (spare : ℕ)
      (rest : List Received)
      → GetsDump sock ds ms last spare rest
      → All IsNamed (all_messages ds ms)
      → (res : Datapaths) × ((enumerate_datapaths dpif sock).1 ≡ returned (ok tt) res rest)
        × ((name : List ℕ) → named_datapath name res ≡ last_named name (all_messages ds ms) none)
  unfolding enumerate_datapaths named_datapath
  enumerate_datapaths-dump sock ds ms last spare rest dumped h = (
    add_all put_from (all_messages ds ms) [],
    dump-add_all (datapath_consumer dpif) put_from sock (datapath_request dpif 0x301 3 0) ds ms last
        spare rest [] dumped (datapath_consumer-Takes (all_messages ds ms) h),
    λ name. named-put_all name (all_messages ds ms) [],
  )
