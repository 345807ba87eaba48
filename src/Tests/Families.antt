-- ===== src/Tests/Families.antt =====
-- The theorems about the families of a Dpif, at a kernel that does not know them.
use go_odp.Prelude.{
  ℕ, ◌≡◌, ◌≤◌, refl, List, [], ◌∷◌, false, none, ok, err, family_unavailable, arith,
}
use go_odp.Prelude.Map.{lookup, insert}
use go_odp.Memory.{u16_bytes, u32_bytes}
use go_odp.Format.{Attr, nested, encode}
use go_odp.Attrs.{Attrs}
use go_odp.Session.{Received, datagram}
use go_odp.Session.Packets.{Message, IsMessage, packed}
use go_odp.Session.Responses.{IsErrorMessage}
use go_odp.Dpif.Exchange.{Socket}
use go_odp.Dpif.Asks.{Gets}
use go_odp.Family.Groups.{Group, group_attrs, last_group, genl_family_of-groups}
use go_odp.Family.{
  GenlFamily, group_of, genl_family_of, Loader, load_openvswitch_module, ended, socket_behind,
  lookup_family, new_dpif,
}
use go_odp.Family.Calls.{lookup_family-unavailable, loader_of, IsLoader, new_dpif-IsLoader}

abbrev unknown : ℕ → Message
unknown seq = record { typ = 2; flags = 0; seq = seq; pid = 4711; body = u32_bytes 4294967294 }

abbrev refusals : List Received
refusals = datagram 0 (packed (unknown 8 ∷ [])) 0 ∷ []

abbrev pub socket : Socket
socket = record {
  port_id = 4711;
  last_seq = 6;
  send_failed = none;
  received = datagram 0 (packed (unknown 7 ∷ [])) 0 ∷ refusals;
}

unknown-IsMessage : (seq : ℕ) → seq ≤ 8 → IsMessage (unknown seq)
unknown-IsMessage seq small = record {
  typ_fits = omega arith;
  flags_fits = omega arith;
  seq_fits = omega (arith, small);
  pid_fits = omega arith;
  len_fits = omega arith;
}

unknown-IsErrorMessage : (seq : ℕ) → IsErrorMessage 2 (unknown seq)
unknown-IsErrorMessage seq = record {
  typ_error = refl;
  rest = [];
  body_code = refl;
  code_fits = omega arith;
}

first_arrives : Gets socket (unknown 7) [] 0 refusals
first_arrives = record {
  sent = refl;
  arrives = refl;
  valid = (unknown-IsMessage 7 (omega arith), tt);
  own_port = refl;
  own_seq = refl;
}

second_arrives : Gets (socket_behind socket refusals) (unknown 8) [] 0 []
second_arrives = record {
  sent = refl;
  arrives = refl;
  valid = (unknown-IsMessage 8 (omega arith), tt);
  own_port = refl;
  own_seq = refl;
}

abbrev pub untried : Loader
untried = record { tried = false; attempts = 0 }

lookup_family-unavailable_example :
    lookup_family (b'o' ∷ []) socket untried
    ≡ ended
        (err (family_unavailable (b'o' ∷ [])))
        (socket_behind (socket_behind socket refusals) [])
        (load_openvswitch_module untried)
lookup_family-unavailable_example =
    lookup_family-unavailable (b'o' ∷ []) socket untried (unknown 7) (unknown 8) [] [] 0 0 refusals
      [] first_arrives (unknown-IsErrorMessage 7) second_arrives (unknown-IsErrorMessage 8)

new_dpif-IsLoader_example : IsLoader (loader_of (new_dpif socket untried))
new_dpif-IsLoader_example = new_dpif-IsLoader socket untried (omega arith)

abbrev vport_group : Group
vport_group = record { name = b'v' ∷ b'p' ∷ []; id = 4 }

abbrev described : List Attr
described = record { typ = 1; val = nested (group_attrs vport_group) } ∷ []

abbrev family_attrs : Attrs
family_attrs = (1, u16_bytes 25) ∷ (7, nested described) ∷ []

genl_family_of-groups_example :
    (family : GenlFamily) × (genl_family_of family_attrs ≡ ok family)
    × (family.id ≡ 25)
    × ((name : List ℕ)
        → group_of name family.mc_groups ≡ last_group name ((1, vport_group) ∷ []) none)
unfolding lookup insert encode
genl_family_of-groups_example =
    genl_family_of-groups family_attrs 25 described ((1, vport_group) ∷ []) (omega arith) refl
      (record { len_fits = omega arith; typ_fits = omega arith }, tt) refl refl
      (record { id_fits = omega arith; name_fits = omega arith }, tt)
