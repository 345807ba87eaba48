-- ===== src/Parser/RoundTrip.antt =====
-- parseAttrs on what the format prescribes.
use go_odp.Prelude.{
  ℕ, zero, suc, ◌+◌, ◌-◌, ◌%◌, ◌≤◌, ◌<◌, ◌≡◌, refl, sym, ap, ◌∙◌, List, [], ◌∷◌, ◌++◌, append_assoc,
  ok, length, length-append, length-replicate, drop-append, take-append, leb-true, leb-false, arith,
  All,
}
use go_odp.Align.{align, align_four}
use go_odp.Memory.{u16_bytes}
use go_odp.Memory.Codec.{nl_attr_at-append}
use go_odp.Format.{Attr, Fits, padding, zeros, encode_attr, encode}
use go_odp.Format.Laws.{encode_cons, encode_nil, length-encode_cons}
use go_odp.Parser.{NlMsgParser, check_data, data_slice, parse_attr, parse_attrs_loop, parse_attrs}

pub check_data-ok :
    (l : ℕ) (msg : NlMsgParser) → msg.pos + l ≤ length msg.data_bytes → check_data l msg ≡ ok tt
unfolding check_data
check_data-ok l msg h = rw (leb-true (msg.pos + l) (length msg.data_bytes) h)

-- A slice between two parts of the data.
data_slice-ok :
    (from to : ℕ) (pre val rest tail : List ℕ) (pos : ℕ)
    → from ≡ length pre
    → to ≡ from + length val
    → data_slice from to (record { data_bytes = pre ++ (val ++ rest); tail = tail; pos = pos })
      ≡ ok val
unfolding data_slice
data_slice-ok from to pre val rest tail pos e k =
    rw
      (
        leb-true from to (omega arith),
        leb-true to (length (pre ++ (val ++ rest)) + length tail)
            (omega (arith, length-append pre (val ++ rest), length-append val rest)),
      )
      (rw (append_assoc pre (val ++ rest) tail, drop-append from pre ((val ++ rest) ++ tail) e)
        (rw (append_assoc val rest tail)
          (rw (take-append (to - from) val (rest ++ tail) (omega arith)))))

-- One attribute, and the bytes behind it.
parse_attr-encode :
    (pre rest tail : List ℕ) (pos apos : ℕ) (a : Attr)
    → Fits a
    → apos ≡ length pre
    → apos % 4 ≡ 0
    → parse_attr apos
        (record { data_bytes = pre ++ (encode_attr a ++ rest); tail = tail; pos = pos })
      ≡ ok (
        a,
        record {
          data_bytes = pre ++ (encode_attr a ++ rest);
          tail = tail;
          pos = apos + (4 + length a.val);
        },
      )
unfolding parse_attr
parse_attr-encode pre rest tail pos apos a fits e words =
    let bytes = pre ++ (encode_attr a ++ rest) in
    let here : NlMsgParser = record { data_bytes = bytes; tail = tail; pos = apos } in
    let size = length-append pre (encode_attr a ++ rest) in
    let size_val = length-append a.val rest in
    let head = u16_bytes (4 + length a.val) ++ u16_bytes a.typ in
    let valpos : align (apos + 4) 4 ≡ length (pre ++ head) =
      omega (arith, align_four (apos + 4), length-append pre head) in
    let cut : data_slice (align (apos + 4) 4) (apos + (4 + length a.val)) here ≡ ok a.val =
      ap
        (λ (l : List ℕ).
          data_slice (align (apos + 4) 4) (apos + (4 + length a.val))
            (record { data_bytes = l; tail = tail; pos = apos }))
        (sym (append_assoc pre head (a.val ++ rest)))
      ∙ data_slice-ok (align (apos + 4) 4) (apos + (4 + length a.val)) (pre ++ head) a.val rest tail
          apos valpos (omega (arith, align_four (apos + 4))) in
    rw
      (
        check_data-ok 4 here (omega (arith, size)),
        nl_attr_at-append pre (a.val ++ rest) tail apos (4 + length a.val) a.typ e
            (omega (arith, fits.len_fits)) fits.typ_fits,
        check_data-ok (4 + length a.val) here (omega (arith, size, size_val)),
      )
      (rw cut)

abbrev parser_at : List ℕ → List ℕ → ℕ → NlMsgParser
parser_at bytes tail pos = record { data_bytes = bytes; tail = tail; pos = pos }

-- Regrouping the bytes of one attribute behind its padding.
regroup :
    (pre pad head rest back : List ℕ)
    → pre ++ ((pad ++ (head ++ rest)) ++ back) ≡ (pre ++ pad) ++ (head ++ (rest ++ back))
regroup pre pad head rest back = simp append_assoc

ap_align : {n m k : ℕ} → m ≡ k → n ≤ align m 4 → n ≤ align k 4
ap_align e h = rw (← e) h

module _ {S : Type 0} (consumer : ℕ → List ℕ → S → S) where
  -- The consumer's state after these attributes.
  abbrev pub consume_all : List Attr → S → S
  consume_all [] s = s
  consume_all (a ∷ attrs) s = consume_all attrs (consumer a.typ a.val s)

  -- The loop has read all the attributes, and stands behind them.
  abbrev Consumed : ℕ → List Attr → List ℕ → List ℕ → ℕ → S → Type 0
  Consumed fuel attrs bytes tail pos s =
      (end : ℕ) × (parse_attrs_loop consumer fuel (parser_at bytes tail pos) s
        ≡ ok (consume_all attrs s, parser_at bytes tail end))

  -- Behind `pre` stand the attributes, and then at most the padding to a whole word.
  parse_attrs_loop-encode :
      (fuel : ℕ) (attrs : List Attr) (bytes pre back tail : List ℕ) (pos : ℕ) (s : S)
      → All Fits attrs
      → length (encode pos attrs) < fuel
      → bytes ≡ pre ++ (encode pos attrs ++ back)
      → pos ≡ length pre
      → length bytes ≤ align (pos + length (encode pos attrs)) 4
      → Consumed fuel attrs bytes tail pos s
  unfolding parse_attrs_loop
  parse_attrs_loop-encode zero attrs bytes pre back tail pos s fits hf eb ep hb =
      absurd (omega arith)
  parse_attrs_loop-encode (suc fuel) [] bytes pre back tail pos s fits hf eb ep hb =
      let none_left : length (encode pos []) ≡ 0 = ap length (encode_nil pos) in
      let done : length bytes ≤ align pos 4 =
        omega (arith, hb, none_left, align_four pos, align_four (pos + length (encode pos []))) in
      (pos, rw (leb-true (length bytes) (align pos 4) done))
  parse_attrs_loop-encode (suc fuel) (a ∷ attrs) bytes pre back tail pos s fits hf eb ep hb =
      let pad = zeros (padding pos) in
      let apos = align pos 4 in
      let next = apos + (4 + length a.val) in
      let same : next ≡ pos + padding pos + (4 + length a.val) = omega (arith, align_four pos) in
      let rest = encode next attrs in
      let split : bytes ≡ (pre ++ pad) ++ (encode_attr a ++ (rest ++ back)) =
        eb
        ∙ ap (λ (l : List ℕ). pre ++ (l ++ back)) (encode_cons pos a attrs)
        ∙ ap (λ (n : ℕ). pre ++ ((pad ++ (encode_attr a ++ encode n attrs)) ++ back)) (sym same)
        ∙ regroup pre pad (encode_attr a) rest back in
      let starts : apos ≡ length (pre ++ pad) =
        omega (
          arith,
          align_four pos,
          length-append pre pad,
          length-replicate {A = ℕ} (padding pos) 0,
        ) in
      let total = ap length split in
      let longer : apos < length bytes =
        omega (arith, total, length-append (pre ++ pad) (encode_attr a ++ (rest ++ back))) in
      let step : parse_attr apos (parser_at bytes tail pos) ≡ ok (a, parser_at bytes tail next) =
        rw split (
          parse_attr-encode (pre ++ pad) (rest ++ back) tail pos apos a fits.0 starts
            (omega (arith, align_four pos))) in
      let head = encode_attr a in
      let shorter : length (encode pos (a ∷ attrs))
          ≡ padding pos + (4 + length a.val) + length rest =
        length-encode_cons pos a attrs
        ∙ ap (λ (n : ℕ). padding pos + (4 + length a.val) + length (encode n attrs)) (sym same) in
      let (end, ih) =
        parse_attrs_loop-encode fuel attrs bytes ((pre ++ pad) ++ head) back tail next
          (consumer a.typ a.val s) fits.1 (omega (arith, shorter))
          (split ∙ sym (append_assoc (pre ++ pad) head (rest ++ back)))
          (omega (arith, starts, length-append (pre ++ pad) head))
          (ap_align (omega (arith, same, shorter)) hb) in
      (end, rw (leb-false (length bytes) apos longer, step) ih)

  -- parseAttrs, behind any headers and with at most padding behind the attributes, hands each
  -- attribute of an encoding to its consumer, once and in order, and ends without an error.
  pub parse_attrs-encode :
      (attrs : List Attr) (pre back tail : List ℕ) (s : S)
      → All Fits attrs
      → length (pre ++ (encode (length pre) attrs ++ back))
        ≤ align (length pre + length (encode (length pre) attrs)) 4
      → (end : ℕ) × (parse_attrs consumer
            (parser_at (pre ++ (encode (length pre) attrs ++ back)) tail (length pre))
            s
          ≡ ok (
            consume_all attrs s,
            parser_at (pre ++ (encode (length pre) attrs ++ back)) tail end,
          ))
  unfolding parse_attrs
  parse_attrs-encode attrs pre back tail s fits hb =
      let body = encode (length pre) attrs in
      let bytes = pre ++ (body ++ back) in
      parse_attrs_loop-encode (length bytes + 1) attrs bytes pre back tail (length pre) s fits
        (omega (arith, length-append pre (body ++ back), length-append body back)) refl refl hb
