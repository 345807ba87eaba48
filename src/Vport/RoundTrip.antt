-- ===== src/Vport/RoundTrip.antt =====
-- A vport that is created or listed, as parseVport reads it.
use go_odp.Prelude.{
  ℕ, ◌%◌, ◌<◌, ◌≡◌, refl, List, [], ◌∷◌, ◌++◌, ◌⊎◌, inl, inr, true, Option, none, some, ok, length,
  All, arith,
}
use go_odp.Prelude.Map.{lookup, insert}
use go_odp.Memory.{u16_bytes, u32_bytes}
use go_odp.Format.{Attr, Fits, nested}
use go_odp.Attrs.{Attrs, get_nested_attrs}
use go_odp.Attrs.RoundTrip.{attrs_of, get-none, get_nested_attrs-nested}
use go_odp.Attrs.Getters.{get_uint16-found, get_uint32-found, get_string-found}
use go_odp.Dpif.Messages.{OvsMessage, IsOvsMessage, behind_headers}
use go_odp.Dpif.Replies.{take_attrs-message}
use go_odp.Vport.{
  VportSpec, simple, gre, vxlan, geneve, vport_name, vport_type_id, spec_of, new_netdev_vport_spec,
  new_internal_vport_spec, new_gre_vport_spec, netdev_name, internal_name, parse_udp_vport_spec,
  vport_of, options_of, parse_vport,
}

-- The specs that the constructors of the library make, with a port of 16 bits.
abbrev pub IsVportSpec : VportSpec → Type 0
IsVportSpec (simple name typ shown) =
    ((typ ≡ 1) × (shown ≡ netdev_name)) ⊎ ((typ ≡ 2) × (shown ≡ internal_name))
IsVportSpec (gre name) = Unit {0}
IsVportSpec (vxlan u) = u.port < 65536
IsVportSpec (geneve u) = u.port < 65536

abbrev port_attributes : ℕ → List Attr
port_attributes port = record { typ = 1; val = u16_bytes port } ∷ []

-- The attributes that optionNlAttrs writes.
abbrev pub option_attributes : VportSpec → List Attr
option_attributes (simple name typ shown) = []
option_attributes (gre name) = []
option_attributes (vxlan u) = port_attributes u.port
option_attributes (geneve u) = port_attributes u.port

-- The attributes, in whatever order and among whatever others, say that the vport has this number and
-- this spec; where it has no options, their attribute may be left out.
pub record Describes (attrs : Attrs) (id : ℕ) (spec : VportSpec) : Type 0 where
  pub port_no : lookup 1 attrs ≡ some (u32_bytes id)
  pub type_is : lookup 2 attrs ≡ some (u32_bytes (vport_type_id spec))
  pub name_is : lookup 3 attrs ≡ some (vport_name spec ++ (0 ∷ []))
  pub options_are :
      (lookup 4 attrs ≡ some (nested (option_attributes spec)))
      ⊎ ((lookup 4 attrs ≡ none) × (option_attributes spec ≡ []))
  pub id_fits : id < 4294967296

option_attributes-Fits : (spec : VportSpec) → All Fits (option_attributes spec)
option_attributes-Fits (simple name typ shown) = tt
option_attributes-Fits (gre name) = tt
option_attributes-Fits (vxlan u) = (record { len_fits = omega arith; typ_fits = omega arith }, tt)
option_attributes-Fits (geneve u) = (record { len_fits = omega arith; typ_fits = omega arith }, tt)

parse_udp-port :
    (name : List ℕ) (port : ℕ)
    → port < 65536
    → parse_udp_vport_spec name (attrs_of (port_attributes port))
      ≡ ok (record { name = name; port = port })
unfolding parse_udp_vport_spec
parse_udp-port name port h =
    rw (get_uint16-found 1 (attrs_of (port_attributes port)) port h (unfold insert lookup in refl))
      refl

pub spec_of-options :
    (spec : VportSpec)
    → IsVportSpec spec
    → spec_of (vport_type_id spec) (vport_name spec) (attrs_of (option_attributes spec))
      ≡ ok (some spec)
unfolding spec_of vport_type_id vport_name new_netdev_vport_spec new_internal_vport_spec
    new_gre_vport_spec
spec_of-options (simple name typ shown) (inl (t, s)) = rw (t, s) refl
spec_of-options (simple name typ shown) (inr (t, s)) = rw (t, s) refl
spec_of-options (gre name) h = refl
spec_of-options (vxlan u) h = rw (parse_udp-port u.name u.port h) refl
spec_of-options (geneve u) h = rw (parse_udp-port u.name u.port h) refl

type_id-fits : (spec : VportSpec) → IsVportSpec spec → vport_type_id spec < 4294967296
unfolding vport_type_id
type_id-fits (simple name typ shown) (inl (t, s)) = omega (arith, t)
type_id-fits (simple name typ shown) (inr (t, s)) = omega (arith, t)
type_id-fits (gre name) h = omega arith
type_id-fits (vxlan u) h = omega arith
type_id-fits (geneve u) h = omega arith

get_nested_attrs-absent :
    (typ : ℕ) (attrs : Attrs) → lookup typ attrs ≡ none → get_nested_attrs typ true attrs ≡ ok none
unfolding get_nested_attrs
get_nested_attrs-absent typ attrs missing = rw (get-none typ attrs missing) refl

options_of-found :
    (attrs : Attrs) (options : List Attr)
    → All Fits options
    → (lookup 4 attrs ≡ some (nested options)) ⊎ ((lookup 4 attrs ≡ none) × (options ≡ []))
    → (opts : Option Attrs) × (get_nested_attrs 4 true attrs ≡ ok opts)
      × (options_of opts ≡ attrs_of options)
options_of-found attrs options fits (inl found) =
    (some (attrs_of options), get_nested_attrs-nested 4 true options attrs fits found, refl)
options_of-found attrs options fits (inr (missing, empty)) =
    (none, get_nested_attrs-absent 4 attrs missing, rw empty refl)

pub vport_of-Describes :
    (attrs : Attrs) (id : ℕ) (spec : VportSpec)
    → IsVportSpec spec
    → Describes attrs id spec
    → vport_of attrs ≡ ok (record { id = id; spec = some spec })
unfolding vport_of
vport_of-Describes attrs id spec h d =
    let (opts, read, are) =
      options_of-found attrs (option_attributes spec) (option_attributes-Fits spec) d.options_are in
    rw
      (
        get_uint32-found 1 attrs id d.id_fits d.port_no,
        get_uint32-found 2 attrs (vport_type_id spec) (type_id-fits spec h) d.type_is,
        get_string-found 3 attrs (vport_name spec) d.name_is,
        read,
        are,
        spec_of-options spec h,
      )
      refl

-- parseVport behind the headers of a message is vport_of on its attributes.
pub parse_vport-message :
    (pre : List ℕ) (m : OvsMessage) (behind : List ℕ)
    → IsOvsMessage m
    → length pre % 4 ≡ 0
    → parse_vport (behind_headers pre m behind) ≡ vport_of (attrs_of m.attrs)
unfolding parse_vport
parse_vport-message pre m behind h words =
    let (end, e) = take_attrs-message pre m behind h words in rw e refl
