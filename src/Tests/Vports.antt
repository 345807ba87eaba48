-- ===== src/Tests/Vports.antt =====
-- The theorems about vports at concrete messages.
use go_odp.Prelude.{◌≡◌, refl, [], ◌∷◌, none, ok, panic, map}
use go_odp.Session.{returned}
use go_odp.Dpif.Exchange.{answered}
use go_odp.Dpif.Messages.{message_of, behind_headers}
use go_odp.Dpif.Asks.{datagram_rest}
use go_odp.Vport.{parse_vport}
use go_odp.Vport.Requests.{lookup_vport_name, enumerate_vports}
use go_odp.Vport.Listing.{lookup_vport_name-portless, vport_at, enumerate_vports-dump}
use go_odp.Tests.Messages.{
  dp, name, described, portless, last, socket, portless-IsPortless, portless_arrives,
  described_dumped, dumping, first_part, shown_tunnel, described-IsListed,
}

lookup_vport_name-portless_example :
    (parse_vport (behind_headers [] portless (datagram_rest (message_of portless) [] 2))
      ≡ ok (record { id = 3; spec = none }))
    × ((lookup_vport_name dp 3 (socket (message_of portless ∷ []))).1 ≡ answered panic [])
lookup_vport_name-portless_example =
    lookup_vport_name-portless dp (socket (message_of portless ∷ [])) portless [] 2 [] 3 4 name
      portless_arrives portless-IsPortless refl refl

enumerate_vports-dump_example :
    (enumerate_vports dp (dumping described described)).1
    ≡ returned (ok tt) (map (vport_at shown_tunnel) (described ∷ described ∷ described ∷ [])) []
enumerate_vports-dump_example =
    enumerate_vports-dump dp (dumping described described) shown_tunnel
      (first_part described described) (described ∷ []) last 2 [] described_dumped
      (described-IsListed, (described-IsListed, (described-IsListed, tt)))
