-- ===== src/Family/Groups.antt =====
-- What LookupGenlFamily makes of the attributes of a family.
use go_odp.Prelude.{
  ℕ, ◌<◌, ◌≡◌, refl, ap, ◌∙◌, List, [], ◌∷◌, ◌++◌, true, Option, none, some, ok, length,
  length-append, All, bytes_equal, bytes_equal→eq, other_name, Bool-cases, inl, inr, if◌then◌else◌,
  arith,
}
use go_odp.Prelude.Map.{lookup, insert}
use go_odp.Memory.{u16_bytes, u32_bytes}
use go_odp.Format.{Attr, Fits, nested}
use go_odp.Attrs.{Attrs}
use go_odp.Attrs.RoundTrip.{attrs_of, parse_nested_attrs-nested, get_nested_attrs-nested}
use go_odp.Attrs.Getters.{get_uint16-found, get_uint32-found, get_string-found}
use go_odp.Family.{
  GenlFamily, McGroups, group_of, put_group, parse_group, parse_groups, genl_family_of,
}

-- A multicast group as the kernel describes it.
pub record Group : Type 0 where
  pub name : List ℕ
  pub id : ℕ

pub record IsGroup (g : Group) : Type 0 where
  pub id_fits : g.id < 4294967296
  pub name_fits : length g.name < 65530

abbrev pub group_attrs : Group → List Attr
group_attrs g =
    record { typ = 2; val = u32_bytes g.id } ∷ record { typ = 1; val = g.name ++ (0 ∷ []) } ∷ []

-- The groups, each under the number that the kernel gives it.
abbrev pub entries_of : List (ℕ × Group) → Attrs
entries_of [] = []
entries_of ((n, g) ∷ gs) = (n, nested (group_attrs g)) ∷ entries_of gs

abbrev pub AreGroups : List (ℕ × Group) → Type 0
AreGroups gs = All (λ (g : ℕ × Group). IsGroup g.1) gs

abbrev put_groups : List (ℕ × Group) → McGroups → McGroups
put_groups [] groups = groups
put_groups ((n, g) ∷ gs) groups = put_groups gs (put_group g.name g.id groups)

-- The number of the last group that has the name.
abbrev pub last_group : List ℕ → List (ℕ × Group) → Option ℕ → Option ℕ
last_group name [] found = found
last_group name ((n, g) ∷ gs) found =
    last_group name gs (if bytes_equal g.name name then some g.id else found)

parse_group-nested :
    (g : Group) → IsGroup g → parse_group (nested (group_attrs g)) ≡ ok (g.name, g.id)
unfolding parse_group lookup insert
parse_group-nested g h =
    rw
      (
        parse_nested_attrs-nested (group_attrs g) (
          record { len_fits = omega arith; typ_fits = omega arith },
          (
            record {
              len_fits = omega (arith, h.name_fits, length-append g.name (0 ∷ []));
              typ_fits = omega arith;
            },
            tt,
          ),
        ),
        get_uint32-found 2 (attrs_of (group_attrs g)) g.id h.id_fits refl,
        get_string-found 1 (attrs_of (group_attrs g)) g.name refl,
      )
      refl

parse_groups-entries :
    (gs : List (ℕ × Group)) (groups : McGroups)
    → AreGroups gs
    → parse_groups (entries_of gs) groups ≡ ok (put_groups gs groups)
unfolding parse_groups
parse_groups-entries [] groups h = refl
parse_groups-entries ((n, g) ∷ gs) groups h =
    rw (parse_group-nested g h.0) (parse_groups-entries gs (put_group g.name g.id groups) h.1)

group_of-put :
    (name key : List ℕ) (id : ℕ) (groups : McGroups)
    → group_of name (put_group key id groups)
      ≡ (if bytes_equal key name then some id else group_of name groups)
unfolding group_of put_group
group_of-put name key id [] = refl
group_of-put name key id ((other, old) ∷ groups) = elim (Bool-cases (bytes_equal other key)) [
  | inl e ↦ rw e (elim (Bool-cases (bytes_equal key name)) [
    | inl y ↦ rw y refl
    | inr n ↦ rw (n, bytes_equal→eq other key e) (rw n refl)
  ])
  | inr e ↦ rw e (elim (Bool-cases (bytes_equal other name)) [
    | inl y ↦ rw (y, other_name name key other e y) refl
    | inr n ↦ rw n (group_of-put name key id groups)
  ])
]

group_of-put_groups :
    (name : List ℕ) (gs : List (ℕ × Group)) (groups : McGroups)
    → group_of name (put_groups gs groups) ≡ last_group name gs (group_of name groups)
group_of-put_groups name [] groups = refl
group_of-put_groups name ((n, g) ∷ gs) groups =
    group_of-put_groups name gs (put_group g.name g.id groups)
    ∙ ap (last_group name gs) (group_of-put name g.name g.id groups)

-- Let the attributes of a response have the family's number, and let its groups be described by
-- attributes that are visited in the order of `gs`. Then LookupGenlFamily's family has that number,
-- and under each name the number of the last group with that name, and no other group.
pub genl_family_of-groups :
    (attrs : Attrs) (id : ℕ) (outer : List Attr) (gs : List (ℕ × Group))
    → id < 65536
    → lookup 1 attrs ≡ some (u16_bytes id)
    → All Fits outer
    → lookup 7 attrs ≡ some (nested outer)
    → attrs_of outer ≡ entries_of gs
    → AreGroups gs
    → (family : GenlFamily) × (genl_family_of attrs ≡ ok family)
      × (family.id ≡ id)
      × ((name : List ℕ) → group_of name family.mc_groups ≡ last_group name gs none)
unfolding genl_family_of group_of
genl_family_of-groups attrs id outer gs fits id_is outer_fits groups_are described are_groups = (
  record { id = id; mc_groups = put_groups gs [] },
  rw
      (
        get_uint16-found 1 attrs id fits id_is,
        get_nested_attrs-nested 7 true outer attrs outer_fits groups_are,
        described,
        parse_groups-entries gs [] are_groups,
      )
      refl,
  refl,
  λ name. group_of-put_groups name gs [],
)
