-- ===== src/Attrs/Getters.antt =====
-- The getters on an attribute that is there under a condition.
use go_odp.Prelude.{
  ℕ, ◌<◌, ◌-◌, ◌≡◌, refl, ◌++◌, length-append, drop, drop-append, take-append, ap, arith, List, [],
  ◌∷◌, Bool, true, false, none, some, ok, if◌then◌else◌, length, ==_self,
}
use go_odp.Prelude.Map.{lookup}
use go_odp.Memory.{u16_bytes, u32_bytes}
use go_odp.Memory.Codec.{u64_bytes, uint16_at-bytes, uint32_at-bytes, uint64_at-bytes}
use go_odp.Attrs.{
  Attrs, get_fixed_bytes, get_optional_uint64, get_uint64_opt, get_optional_bytes,
  get_optional_uint8, get_empty, get_optional_uint16, get_uint16_opt, get_uint16, get_uint32,
  get_string, string_of,
}
use go_odp.Attrs.RoundTrip.{get-some, get-none}

module _ (typ : ℕ) (attrs : Attrs) where
  pub get_optional_bytes-if :
      (b : Bool) (val dest : List ℕ)
      → lookup typ attrs ≡ (if b then some val else none)
      → length val ≡ length dest
      → get_optional_bytes typ dest attrs ≡ ok (if b then val else dest, b)
  unfolding get_optional_bytes
  get_optional_bytes-if true val dest found size =
      rw (get-some typ true attrs val found, size) (rw (==_self (length dest)))
  get_optional_bytes-if false val dest found size = rw (get-none typ attrs found)

  pub get_optional_uint8-if :
      (b : Bool) (v : ℕ)
      → lookup typ attrs ≡ (if b then some (v ∷ []) else none)
      → get_optional_uint8 typ attrs ≡ ok (if b then v else 0, b)
  unfolding get_optional_uint8
  get_optional_uint8-if true v found = rw (get-some typ true attrs (v ∷ []) found)
  get_optional_uint8-if false v found = rw (get-none typ attrs found)

  pub get_empty-if :
      (b : Bool) → lookup typ attrs ≡ (if b then some [] else none) → get_empty typ attrs ≡ ok b
  unfolding get_empty
  get_empty-if true found = rw (get-some typ true attrs [] found)
  get_empty-if false found = rw (get-none typ attrs found)

  pub get_optional_uint16-if :
      (b : Bool) (v : ℕ)
      → v < 65536
      → lookup typ attrs ≡ (if b then some (u16_bytes v) else none)
      → get_optional_uint16 typ attrs ≡ ok (if b then v else 0, b)
  unfolding get_optional_uint16
  get_optional_uint16-if true v h found =
      rw (get-some typ true attrs (u16_bytes v) found) (rw (uint16_at-bytes v h))
  get_optional_uint16-if false v h found = rw (get-none typ attrs found)

  -- A value that must be there.
  pub get_uint16-found :
      (v : ℕ) → v < 65536 → lookup typ attrs ≡ some (u16_bytes v) → get_uint16 typ attrs ≡ ok v
  unfolding get_uint16 get_uint16_opt
  get_uint16-found v h found =
      rw (get-some typ false attrs (u16_bytes v) found) (rw (uint16_at-bytes v h))

  pub get_uint32-found :
      (v : ℕ) → v < 4294967296 → lookup typ attrs ≡ some (u32_bytes v) → get_uint32 typ attrs ≡ ok v
  unfolding get_uint32
  get_uint32-found v h found =
      rw (get-some typ false attrs (u32_bytes v) found) (rw (uint32_at-bytes v h))

  string_of-text : (str : List ℕ) → string_of typ (str ++ (0 ∷ [])) ≡ ok str
  unfolding string_of
  string_of-text str =
      let last : length (str ++ (0 ∷ [])) - 1 ≡ length str =
        omega (arith, length-append str (0 ∷ [])) in
      let nul : drop (length (str ++ (0 ∷ [])) - 1) (str ++ (0 ∷ [])) ≡ 0 ∷ [] =
        drop-append (length (str ++ (0 ∷ [])) - 1) str (0 ∷ []) last in
      rw (nul, string_of) (ap ok (take-append (length (str ++ (0 ∷ [])) - 1) str (0 ∷ []) last))

  pub get_string-found :
      (str : List ℕ) → lookup typ attrs ≡ some (str ++ (0 ∷ [])) → get_string typ attrs ≡ ok str
  unfolding get_string
  get_string-found str found =
      rw (get-some typ false attrs (str ++ (0 ∷ [])) found) (string_of-text str)

  pub get_optional_uint64-found :
      (v : ℕ)
      → v < 18446744073709551616
      → lookup typ attrs ≡ some (u64_bytes v)
      → get_optional_uint64 typ attrs ≡ ok (v, true)
  unfolding get_optional_uint64 get_uint64_opt
  get_optional_uint64-found v h found =
      rw (get-some typ true attrs (u64_bytes v) found) (rw (uint64_at-bytes v h) refl)

  pub get_optional_uint64-missing :
      lookup typ attrs ≡ none → get_optional_uint64 typ attrs ≡ ok (0, false)
  unfolding get_optional_uint64 get_uint64_opt
  get_optional_uint64-missing missing = rw (get-none typ attrs missing) refl

  pub get_fixed_bytes-found :
      (size : ℕ) (val : List ℕ)
      → lookup typ attrs ≡ some val
      → length val ≡ size
      → get_fixed_bytes typ size true attrs ≡ ok (some val)
  unfolding get_fixed_bytes
  get_fixed_bytes-found size val found e =
      rw (get-some typ true attrs val found, e) (rw (==_self size) refl)

  pub get_fixed_bytes-missing :
      (size : ℕ) → lookup typ attrs ≡ none → get_fixed_bytes typ size true attrs ≡ ok none
  unfolding get_fixed_bytes
  get_fixed_bytes-missing size missing = rw (get-none typ attrs missing) refl
