-- ===== src/Flow/Keys/RoundTrip.antt =====
-- Flow keys that FlowKeys.toNlAttrs writes and ParseFlowKeys parses again.
use go_odp.Prelude.{
  ℕ, ◌≡◌, ◌≢◌, refl, sym, ap, ◌∙◌, List, [], ◌∷◌, ◌++◌, append-nil, append_assoc, map, none, some,
  ok, All, arith, ==_self, ==_false,
}
use go_odp.Prelude.Map.{lookup, insert, lookup-insert}
use go_odp.Format.Optional.{attribute}
use go_odp.Parser.RoundTrip.{consume_all}
use go_odp.Attrs.{Attrs}
use go_odp.Attrs.RoundTrip.{attrs_of}
use go_odp.Flow.Key.{FlowKey, type_id}
use go_odp.Flow.Key.Encoding.{key_bytes, mask_bytes, IsWritable}
use go_odp.Flow.Key.RoundTrip.{IsParsable, parse-key_bytes}
use go_odp.Flow.Keys.{FlowKeys}
use go_odp.Flow.Parse.{mask_for, parse_keys, parse_mask, parse_masks, parse_flow_keys}

-- A map of what the keys have, by type.
abbrev pub by_type {ℓ} : {V : Type ℓ} → (FlowKey → V) → List FlowKey → List (ℕ × V)
by_type f ks = map (λ k. (type_id k, f k)) ks

-- No two keys have one type.
abbrev pub Distinct : List FlowKey → Type 0
Distinct [] = Unit {0}
Distinct (k ∷ ks) = All (λ j. type_id k ≢ type_id j) ks × Distinct ks

abbrev Absent {ℓ} : {V : Type ℓ} → List (ℕ × V) → List FlowKey → Type ℓ
Absent m ks = All (λ k. lookup (type_id k) m ≡ none) ks

abbrev Present {ℓ} : {V : Type ℓ} → (FlowKey → V) → List (ℕ × V) → List FlowKey → Type ℓ
Present f m ks = All (λ k. lookup (type_id k) m ≡ some (f k)) ks

module _ {V : Type 0} where
  insert-append :
      (id : ℕ) (v : V) (m : List (ℕ × V)) → lookup id m ≡ none → insert id v m ≡ m ++ ((id, v) ∷ [])
  unfolding lookup insert
  insert-append id v [] h = refl
  insert-append id v ((j, w) ∷ m) h = ground (arith, insert-append id v m)

  -- What is behind a key of another type stays absent.
  Absent-insert :
      (id : ℕ) (v : V) (m : List (ℕ × V)) (ks : List FlowKey)
      → All (λ j. id ≢ type_id j) ks
      → Absent m ks
      → Absent (insert id v m) ks
  Absent-insert id v m [] other h = tt
  Absent-insert id v m (k ∷ ks) other h = (
    lookup-insert id (type_id k) v m ∙ rw (==_false id (type_id k) other.0) h.0,
    Absent-insert id v m ks other.1 h.1,
  )

  Present-cons :
      (f : FlowKey → V) (k : FlowKey) (m : List (ℕ × V)) (ks : List FlowKey)
      → All (λ j. type_id k ≢ type_id j) ks
      → Present f m ks
      → Present f ((type_id k, f k) ∷ m) ks
  unfolding lookup
  Present-cons f k m [] other h = tt
  Present-cons f k m (j ∷ ks) other h =
      (rw (==_false (type_id k) (type_id j) other.0) h.0, Present-cons f k m ks other.1 h.1)

  -- Each key finds its own entry.
  Present-by_type :
      (f : FlowKey → V) (ks : List FlowKey) → Distinct ks → Present f (by_type f ks) ks
  unfolding lookup
  Present-by_type f [] h = tt
  Present-by_type f (k ∷ ks) h =
      (rw (==_self (type_id k)), Present-cons f k (by_type f ks) ks h.0 (Present-by_type f ks h.1))

Absent-nil : (V : Type 0) (ks : List FlowKey) → Absent {V = V} [] ks
unfolding lookup
Absent-nil V [] = tt
Absent-nil V (k ∷ ks) = (refl, Absent-nil V ks)

mask_for-found :
    (typ : ℕ) (masks : Attrs) (mask : List ℕ)
    → lookup typ masks ≡ some mask
    → mask_for (some masks) typ ≡ some mask
unfolding mask_for
mask_for-found typ masks mask e = rw (e, mask_for)

parse_mask-found :
    (typ : ℕ) (keys : Attrs) (key mask : List ℕ) (res : FlowKeys)
    → lookup typ keys ≡ some key
    → parse_mask keys typ mask res ≡ ok res
unfolding parse_mask
parse_mask-found typ keys key mask res e = rw (e, parse_mask)

-- One attribute for each key, as a map.
consume_all-by_type :
    (f : FlowKey → List ℕ) (ks : List FlowKey) (m : Attrs)
    → Absent m ks
    → Distinct ks
    → consume_all insert (map (λ k. attribute (type_id k) (f k)) ks) m ≡ m ++ by_type f ks
consume_all-by_type f [] m h d = sym (append-nil m)
consume_all-by_type f (k ∷ ks) m h d =
    consume_all-by_type f ks (insert (type_id k) (f k) m)
      (Absent-insert (type_id k) (f k) m ks d.0 h.1) d.1
    ∙ ap (λ (l : Attrs). l ++ by_type f ks) (insert-append (type_id k) (f k) m h.0)
    ∙ append_assoc m ((type_id k, f k) ∷ []) (by_type f ks)

pub attrs_of-by_type :
    (f : FlowKey → List ℕ) (ks : List FlowKey)
    → Distinct ks
    → attrs_of (map (λ k. attribute (type_id k) (f k)) ks) ≡ by_type f ks
attrs_of-by_type f ks d = consume_all-by_type f ks [] (Absent-nil (List ℕ) ks) d

-- The first loop of ParseFlowKeys.
parse_keys-by_type :
    (masks : Attrs) (ks : List FlowKey) (res : FlowKeys)
    → All IsWritable ks
    → All IsParsable ks
    → Present mask_bytes masks ks
    → Absent res ks
    → Distinct ks
    → parse_keys (some masks) (by_type key_bytes ks) res ≡ ok (res ++ by_type (λ k. k) ks)
unfolding parse_keys
parse_keys-by_type masks [] res w p m h d = ap ok (sym (append-nil res))
parse_keys-by_type masks (k ∷ ks) res w p m h d =
    rw (mask_for-found (type_id k) masks (mask_bytes k) m.0, parse-key_bytes k w.0 p.0)
      (parse_keys-by_type masks ks (insert (type_id k) k res) w.1 p.1 m.1
          (Absent-insert (type_id k) k res ks d.0 h.1) d.1
        ∙ ap (λ (l : FlowKeys). ok (l ++ by_type (λ j. j) ks)) (insert-append (type_id k) k res h.0)
        ∙ ap ok (append_assoc res ((type_id k, k) ∷ []) (by_type (λ j. j) ks)))

-- The second loop, where each mask has its key.
parse_masks-by_type :
    (keys : Attrs) (ks : List FlowKey) (res : FlowKeys)
    → Present key_bytes keys ks
    → parse_masks keys (by_type mask_bytes ks) res ≡ ok res
unfolding parse_masks
parse_masks-by_type keys [] res h = refl
parse_masks-by_type keys (k ∷ ks) res h =
    rw (parse_mask-found (type_id k) keys (key_bytes k) (mask_bytes k) res h.0)
      (parse_masks-by_type keys ks res h.1)

-- ParseFlowKeys gives back keys of distinct types, each with a mask that is written and of a type
-- that makes such keys, from the maps of their keys' and their masks' bytes.
pub parse_flow_keys-by_type :
    (ks : List FlowKey)
    → All IsWritable ks
    → All IsParsable ks
    → Distinct ks
    → parse_flow_keys (by_type key_bytes ks) (some (by_type mask_bytes ks))
      ≡ ok (by_type (λ k. k) ks)
unfolding parse_flow_keys
parse_flow_keys-by_type ks w p d =
    rw
      (parse_keys-by_type (by_type mask_bytes ks) ks [] w p (Present-by_type mask_bytes ks d)
        (Absent-nil FlowKey ks) d)
      (parse_masks-by_type (by_type key_bytes ks) ks (by_type (λ k. k) ks)
        (Present-by_type key_bytes ks d))
