-- ===== src/Attrs.antt =====
-- odp/netlink.go: Attrs, the attributes of a message as a map, and its typed getters. A nil slice
-- is `none`; an attribute of the map always has a value, which may be empty.
pub mod RoundTrip
pub mod Getters
use go_odp.Prelude.{
  ℕ, ◌-◌, ◌==◌, List, [], ◌∷◌, ◌++◌, Bool, true, false, not, ◌&&◌, Option, none, some, Result, ok,
  err, panic, wild, out_of_fuel, Error, missing_attribute, wrong_length, not_terminated, ◌>>=◌,
  ◌>>◌, if◌then◌else◌, length, take, drop,
}
use go_odp.Prelude.Map.{lookup, insert}
use go_odp.Memory.{read_u8, uint16_at, uint32_at, uint64_at}
use go_odp.Format.{Attr}
use go_odp.Parser.{NlMsgParser, parse_attrs}

abbrev pub Attrs : Type 0
Attrs = List (ℕ × List ℕ)

unfoldable pub get : ℕ → Bool → Attrs → Result (Option (List ℕ))
get typ optional attrs = elim (lookup typ attrs) [
  | some val ↦ ok (some val)
  | none ↦ if optional then ok none else err (missing_attribute typ)
]

-- What a getter does with a value, and with none.
abbrev with_val {ℓ} : {A : Type ℓ} → Result A → (List ℕ → Result A) → Option (List ℕ) → Result A
with_val absent f none = absent
with_val absent f (some val) = f val

-- The value, if it has the length that is expected.
abbrev of_length {ℓ} : {A : Type ℓ} → ℕ → ℕ → Result A → List ℕ → Result A
of_length typ expect result val =
    if length val == expect then result else err (wrong_length typ (length val))

unfoldable pub get_fixed_bytes : ℕ → ℕ → Bool → Attrs → Result (Option (List ℕ))
unfolding get
get_fixed_bytes typ expect optional attrs =
    get typ optional attrs >>= with_val (ok none) (λ val. of_length typ expect (ok (some val)) val)

-- The bytes of `dest` afterwards, and whether the attribute is there.
unfoldable pub get_optional_bytes : ℕ → List ℕ → Attrs → Result (List ℕ × Bool)
unfolding get_fixed_bytes
get_optional_bytes typ dest attrs =
    get_fixed_bytes typ (length dest) true attrs
    >>= with_val (ok (dest, false)) (λ val. ok (val, true))

unfoldable pub get_empty : ℕ → Attrs → Result Bool
unfolding get
get_empty typ attrs =
    get typ true attrs >>= with_val (ok false) (λ val. of_length typ 0 (ok true) val)

-- A number, and whether the attribute is there; 0 where it is not.
abbrev get_number : (List ℕ → Result ℕ) → ℕ → ℕ → Bool → Attrs → Result (ℕ × Bool)
unfolding get
get_number read size typ optional attrs =
    get typ optional attrs
    >>= with_val (ok (0, false)) (λ val. of_length typ size (do n ← read val; ok (n, true)) val)

unfoldable pub get_optional_uint8 : ℕ → Attrs → Result (ℕ × Bool)
unfolding get read_u8
get_optional_uint8 typ = get_number read_u8 1 typ true

unfoldable pub get_uint16_opt : ℕ → Bool → Attrs → Result (ℕ × Bool)
unfolding get uint16_at
get_uint16_opt = get_number (λ val. uint16_at val [] 0) 2

unfoldable pub get_uint16 : ℕ → Attrs → Result ℕ
unfolding get_uint16_opt
get_uint16 typ attrs = do (res, present) ← get_uint16_opt typ false attrs; ok res

unfoldable pub get_optional_uint16 : ℕ → Attrs → Result (ℕ × Bool)
unfolding get_uint16_opt
get_optional_uint16 typ = get_uint16_opt typ true

unfoldable pub get_uint32 : ℕ → Attrs → Result ℕ
unfolding get uint32_at
get_uint32 typ attrs =
    get typ false attrs
    >>= with_val (err (wrong_length typ 0)) (λ val. of_length typ 4 (uint32_at val [] 0) val)

unfoldable pub get_uint64_opt : ℕ → Bool → Attrs → Result (ℕ × Bool)
unfolding get uint64_at
get_uint64_opt = get_number (λ val. uint64_at val [] 0) 8

unfoldable pub get_uint64 : ℕ → Attrs → Result ℕ
unfolding get_uint64_opt
get_uint64 typ attrs = do (res, present) ← get_uint64_opt typ false attrs; ok res

unfoldable pub get_optional_uint64 : ℕ → Attrs → Result (ℕ × Bool)
unfolding get_uint64_opt
get_optional_uint64 typ = get_uint64_opt typ true

-- The bytes of the text, without the nul byte at the end.
unfoldable pub string_of : ℕ → List ℕ → Result (List ℕ)
string_of typ val = elim (drop (length val - 1) val) [
  | [] ↦ err (wrong_length typ 0)
  | last ∷ rest ↦ if last == 0 then ok (take (length val - 1) val) else err (not_terminated typ)
]

unfoldable pub get_string : ℕ → Attrs → Result (List ℕ)
unfolding get string_of
get_string typ attrs = get typ false attrs >>= with_val (err (wrong_length typ 0)) (string_of typ)

unfoldable pub take_attrs : NlMsgParser → Result (Attrs × NlMsgParser)
take_attrs msg = parse_attrs insert msg []

-- The slice starts a parser of its own.
abbrev pub parser_of : List ℕ → NlMsgParser
parser_of bytes = record { data_bytes = bytes; tail = []; pos = 0 }

unfoldable pub parse_nested_attrs : List ℕ → Result Attrs
unfolding take_attrs
parse_nested_attrs bytes = do (attrs, parser) ← take_attrs (parser_of bytes); ok attrs

unfoldable pub get_nested_attrs : ℕ → Bool → Attrs → Result (Option Attrs)
unfolding get parse_nested_attrs
get_nested_attrs typ optional attrs =
    get typ optional attrs
    >>= with_val (ok none) (λ val. do nested ← parse_nested_attrs val; ok (some nested))

unfoldable pub get_ordered_attrs : ℕ → Attrs → Result (List Attr)
unfolding get parse_attrs
get_ordered_attrs typ attrs =
    get typ false attrs
    >>= with_val (ok []) (λ val. do
      (res, parser) ←
          parse_attrs (λ t v res. res ++ (record { typ = t; val = v } ∷ [])) (parser_of val) []
      ok res)
