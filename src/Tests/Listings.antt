-- ===== src/Tests/Listings.antt =====
-- EnumerateFlows at a dump of two messages that list the example flow.
use go_odp.Prelude.{◌≡◌, ◌<◌, refl, List, [], ◌∷◌, ◌++◌, none, some, ok, length, All, map, arith}
use go_odp.Prelude.Map.{lookup, insert}
use go_odp.Memory.Codec.{u64_bytes}
use go_odp.Format.{Attr, Fits, encode}
use go_odp.Format.Optional.{attribute, length-encode-le, total}
use go_odp.Session.{returned}
use go_odp.Session.Dumps.{IsReply}
use go_odp.Dpif.Messages.{OvsMessage, message_of, IsOvsMessage}
use go_odp.Dpif.Dumps.{GetsDump}
use go_odp.Attrs.RoundTrip.{attrs_of}
use go_odp.Flow.Spec.RoundTrip.{flow_attributes, flow_attributes-Fits}
use go_odp.Flow.Requests.{enumerate_flows}
use go_odp.Flow.Requests.Listing.{ListedFlow, Lists, IsFlowMessage, info_at, enumerate_flows-dump}
use go_odp.Tests.Flows.{flow, flow-valid}
use go_odp.Tests.Messages.{dp, last, last-IsReply, dumping, first_part}

abbrev listed : ListedFlow
listed = record { flow = flow; stats = some (3, 180); last_used = none }

abbrev listing_attrs : List Attr
listing_attrs = attribute 3 (u64_bytes 3 ++ u64_bytes 180) ∷ flow_attributes flow

abbrev listing : OvsMessage
listing = record {
  typ = 26;
  flags = 2;
  seq = 7;
  pid = 4711;
  cmd = 1;
  version = 1;
  ifindex = 5;
  attrs = listing_attrs;
}

listing_attrs-Fits : All Fits listing_attrs
listing_attrs-Fits = (
  record { len_fits = omega arith; typ_fits = omega arith },
  flow_attributes-Fits flow flow-valid,
)

listing-small : length (encode 0 listing_attrs) < 1000000
unfolding total
listing-small =
    let fits = flow_attributes-Fits flow flow-valid in
    omega (
      arith,
      length-encode-le 0 listing_attrs,
      fits.0.len_fits,
      fits.1.0.len_fits,
      fits.1.1.0.len_fits,
    )

listing-IsOvsMessage : IsOvsMessage listing
listing-IsOvsMessage = record {
  valid = record {
    typ_fits = omega arith;
    flags_fits = omega arith;
    seq_fits = omega arith;
    pid_fits = omega arith;
    len_fits = omega (arith, listing-small);
  };
  ifindex_fits = omega arith;
  attrs_fit = listing_attrs-Fits;
}

listing-Lists : Lists (attrs_of listing.attrs) listed
unfolding lookup insert
listing-Lists = record {
  is_flow = flow-valid;
  keys_are = refl;
  masks_are = refl;
  actions_are = refl;
  stats_are = refl;
  used_is = refl;
  stats_fit = (omega arith, omega arith);
  used_fits = tt;
}

abbrev shown : OvsMessage → ListedFlow
shown m = listed

listing-IsFlowMessage : IsFlowMessage dp shown listing
listing-IsFlowMessage = record {
  valid = listing-IsOvsMessage;
  family = refl;
  own = refl;
  accepted = refl;
  listed = listing-Lists;
}

listing-IsReply : IsReply 4711 7 (message_of listing)
listing-IsReply = record {
  valid = listing-IsOvsMessage.valid;
  same_port = refl;
  same_seq = refl;
  no_error = λ e. omega arith;
}

listings_dumped :
    GetsDump (dumping listing listing) (first_part listing listing) (listing ∷ []) last 2 []
listings_dumped = record {
  sent = refl;
  arrives = refl;
  replies = (listing-IsReply, (listing-IsReply, (listing-IsReply, tt)));
  no_end = ((λ e. omega arith), ((λ e. omega arith), ((λ e. omega arith), tt)));
  last_reply = last-IsReply;
  done = record { typ_done = refl; rest = []; body_code = refl };
}

enumerate_flows-dump_example :
    (enumerate_flows dp (dumping listing listing)).1
    ≡ returned (ok tt) (map (info_at shown) (listing ∷ listing ∷ listing ∷ [])) []
enumerate_flows-dump_example =
    enumerate_flows-dump dp (dumping listing listing) shown (first_part listing listing)
      (listing ∷ []) last 2 [] listings_dumped
      (listing-IsFlowMessage, (listing-IsFlowMessage, (listing-IsFlowMessage, tt)))
