-- ===== src/Attrs/RoundTrip.antt =====
-- TakeAttrs and GetOrderedAttrs on what PutNestedAttrs writes.
use go_odp.Prelude.{
  ℕ, ◌+◌, ◌≡◌, sym, ap, ◌∙◌, List, [], ◌∷◌, ◌++◌, append-nil, append_assoc, ok, length,
  length-append, length-replicate, All, arith, none, some, Bool, true, false,
}
use go_odp.Prelude.Map.{lookup, insert}
use go_odp.Align.{align_four}
use go_odp.Format.{Attr, Fits, padding, zeros, encode, nested}
use go_odp.Parser.{NlMsgParser, parse_attrs}
use go_odp.Parser.RoundTrip.{parse_attrs-encode, consume_all}
use go_odp.Attrs.{
  Attrs, get, take_attrs, parser_of, parse_nested_attrs, get_nested_attrs, get_ordered_attrs,
}

module _ {S : Type 0} (consumer : ℕ → List ℕ → S → S) where
  parse_attrs-nested :
      (attrs : List Attr) (s : S)
      → All Fits attrs
      → (end : NlMsgParser) × (parse_attrs consumer (parser_of (nested attrs)) s
          ≡ ok (consume_all consumer attrs s, end))
  parse_attrs-nested attrs s fits =
      let body = encode 0 attrs in
      let pad = zeros (padding (length body)) in
      let (end, e) = parse_attrs-encode consumer attrs [] pad [] s fits (
        omega (
          arith,
          length-append body pad,
          length-replicate {A = ℕ} (padding (length body)) 0,
          align_four (0 + length body),
        )) in
      (record { data_bytes = nested attrs; tail = []; pos = end }, e)

-- The attributes as a map: of two with one type the later one stays.
abbrev pub attrs_of : List Attr → Attrs
attrs_of attrs = consume_all insert attrs []

pub parse_nested_attrs-nested :
    (attrs : List Attr) → All Fits attrs → parse_nested_attrs (nested attrs) ≡ ok (attrs_of attrs)
unfolding parse_nested_attrs take_attrs
parse_nested_attrs-nested attrs fits = rw ((parse_attrs-nested insert attrs [] fits).1)

abbrev collect : ℕ → List ℕ → List Attr → List Attr
collect t v res = res ++ (record { typ = t; val = v } ∷ [])

collect_all : (attrs res : List Attr) → consume_all collect attrs res ≡ res ++ attrs
collect_all [] res = sym (append-nil res)
collect_all (a ∷ attrs) res = collect_all attrs (res ++ (a ∷ [])) ∙ append_assoc res (a ∷ []) attrs

pub get-some :
    (typ : ℕ) (optional : Bool) (m : Attrs) (val : List ℕ)
    → lookup typ m ≡ some val
    → get typ optional m ≡ ok (some val)
unfolding get
get-some typ optional m val found = rw (found, get)

pub get-none : (typ : ℕ) (m : Attrs) → lookup typ m ≡ none → get typ true m ≡ ok none
unfolding get
get-none typ m missing = rw (missing, get)

pub get_nested_attrs-nested :
    (typ : ℕ) (optional : Bool) (attrs : List Attr) (m : Attrs)
    → All Fits attrs
    → lookup typ m ≡ some (nested attrs)
    → get_nested_attrs typ optional m ≡ ok (some (attrs_of attrs))
unfolding get_nested_attrs
get_nested_attrs-nested typ optional attrs m fits found =
    rw (get-some typ optional m (nested attrs) found, parse_nested_attrs-nested attrs fits)

-- GetOrderedAttrs of an attribute that nests others gives these in their order, with every repetition
-- of a type.
pub get_ordered_attrs-nested :
    (typ : ℕ) (attrs : List Attr) (m : Attrs)
    → All Fits attrs
    → lookup typ m ≡ some (nested attrs)
    → get_ordered_attrs typ m ≡ ok attrs
unfolding get_ordered_attrs
get_ordered_attrs-nested typ attrs m fits found =
    rw (get-some typ false m (nested attrs) found, (parse_attrs-nested collect attrs [] fits).1)
      (ap ok (collect_all attrs []))

-- TakeAttrs behind any headers gives the map of the attributes from the parser's position on, where a
-- later attribute takes the place of an earlier one of its type.
pub take_attrs-encode :
    (attrs : List Attr) (pre tail : List ℕ)
    → All Fits attrs
    → (end : ℕ) × (take_attrs
          (record { data_bytes = pre ++ encode (length pre) attrs; tail = tail; pos = length pre })
        ≡ ok (
          attrs_of attrs,
          record { data_bytes = pre ++ encode (length pre) attrs; tail = tail; pos = end },
        ))
unfolding take_attrs
take_attrs-encode attrs pre tail fits =
    let body = encode (length pre) attrs in
    rw (append-nil body) at (
      parse_attrs-encode insert attrs pre [] tail [] fits (
        omega (
          arith,
          length-append pre (body ++ []),
          length-append body [],
          align_four (length pre + length body),
        )))
