-- ===== src/Builder/Emits.antt =====
-- What the writers of odp/netlink.go append: the format of `Format`, attribute by attribute.
use go_odp.Prelude.{
  Bool, true, false, if◌then◌else◌, ℕ, ◌+◌, ◌-◌, ◌%◌, ◌<◌, ◌≡◌, refl, sym, ap, ◌∙◌, List, [], ◌∷◌,
  ◌++◌, append-nil, append_assoc, length, length-append, replicate, length-replicate, replicate-add,
  write_at, write_at-middle, arith,
}
use go_odp.Align.{align, align_four}
use go_odp.Memory.{u16_bytes}
use go_odp.Format.{Attr, padding, zeros, encode_attr, encode, nested}
use go_odp.Format.Laws.{encode_one, encode_nil, encode-append, encode-mod}
use go_odp.Builder.{
  NlMsgBuilder, extend, align_buf, align_grow, grow, grow_write, set_nl_attr, put_attr_with,
  put_attr, put_nested_attrs_with, put_nested_attrs,
}

-- The message with more bytes behind it.
abbrev pub append_to : NlMsgBuilder → List ℕ → NlMsgBuilder
append_to msg bytes = record { buf = msg.buf ++ bytes }

-- A writer that appends these attributes, wherever it starts.
abbrev pub Emits : (NlMsgBuilder → NlMsgBuilder) → List Attr → Type 0
Emits write attrs = (msg : NlMsgBuilder) → write msg ≡ append_to msg (encode (length msg.buf) attrs)

-- A writer that appends these bytes to a message of whole words.
abbrev pub Fills : (NlMsgBuilder → NlMsgBuilder) → List ℕ → Type 0
Fills write bytes = (msg : NlMsgBuilder) → length msg.buf % 4 ≡ 0 → write msg ≡ append_to msg bytes

-- The header that PutAttr fills in behind its callback.
set_nl_attr_lem :
    (pos typ : ℕ) (pre val : List ℕ)
    → pos ≡ length pre
    → 4 + length val < 65536
    → set_nl_attr pos typ (pre ++ (0 ∷ 0 ∷ 0 ∷ 0 ∷ val))
      ≡ pre ++ (u16_bytes (4 + length val) ++ (u16_bytes typ ++ val))
set_nl_attr_lem pos typ pre val e h =
    let first : List ℕ = 0 ∷ 0 ∷ [] in
    let size : (length (pre ++ (0 ∷ 0 ∷ 0 ∷ 0 ∷ val)) - pos) % 65536 ≡ 4 + length val =
      omega (arith, length-append pre (0 ∷ 0 ∷ 0 ∷ 0 ∷ val)) in
    let typed : write_at (pos + 2) (u16_bytes typ) (pre ++ (0 ∷ 0 ∷ 0 ∷ 0 ∷ val))
        ≡ pre ++ (0 ∷ 0 ∷ (u16_bytes typ ++ val)) =
      ap (write_at (pos + 2) (u16_bytes typ)) (sym (append_assoc pre first (0 ∷ 0 ∷ val)))
      ∙ write_at-middle (pos + 2) (u16_bytes typ) (pre ++ first) first val
          (omega (arith, length-append pre first)) refl
      ∙ append_assoc pre first (u16_bytes typ ++ val) in
    ap
      (λ (n : ℕ).
        write_at pos (u16_bytes n)
          (write_at (pos + 2) (u16_bytes typ) (pre ++ (0 ∷ 0 ∷ 0 ∷ 0 ∷ val))))
      size
    ∙ ap (write_at pos (u16_bytes (4 + length val))) typed
    ∙ write_at-middle pos (u16_bytes (4 + length val)) pre first (u16_bytes typ ++ val) e refl

-- What AlignGrow leaves for a header.
grown :
    (buf : List ℕ)
    → extend buf (align (length buf) 4 + 4) ≡ (buf ++ zeros (padding (length buf))) ++ zeros 4
grown buf =
    ap (λ (k : ℕ). buf ++ replicate k 0) {x = align (length buf) 4 + 4 - length buf}
      {y = padding (length buf) + 4} (omega (arith, align_four (length buf)))
    ∙ ap (λ (l : List ℕ). buf ++ l) (replicate-add (padding (length buf)) 4 0)
    ∙ sym (append_assoc buf (zeros (padding (length buf))) (zeros 4))

-- PutAttr over a callback with a result: the header, and the callback's bytes.
pub put_attr_with-lem {ℓ} :
    {R : Type ℓ} (typ : ℕ) (gen : NlMsgBuilder → NlMsgBuilder × R) (val : List ℕ) (r : R)
    → 4 + length val < 65536
    → ((msg : NlMsgBuilder) → length msg.buf % 4 ≡ 0 → gen msg ≡ (append_to msg val, r))
    → (msg : NlMsgBuilder)
    → put_attr_with typ gen msg
      ≡ (append_to msg (encode (length msg.buf) (record { typ = typ; val = val } ∷ [])), r)
unfolding put_attr_with align_grow
put_attr_with-lem typ gen val r h fills msg =
    let pad = zeros (padding (length msg.buf)) in
    let pre = msg.buf ++ pad in
    let pre_length : align (length msg.buf) 4 ≡ length pre = omega (
      arith,
      align_four (length msg.buf),
      length-append msg.buf pad,
      length-replicate {A = ℕ} (padding (length msg.buf)) 0,
    ) in
    let words : length (pre ++ zeros 4) % 4 ≡ 0 =
      omega (arith, pre_length, align_four (length msg.buf), length-append pre (zeros 4)) in
    rw (grown msg.buf, fills (record { buf = pre ++ zeros 4 }) words)
      (rw (append_assoc pre (zeros 4) val) (
        rw (set_nl_attr_lem (align (length msg.buf) 4) typ pre val pre_length h) (
          rw (encode_one (length msg.buf) (record { typ = typ; val = val }))
            (rw (append_assoc msg.buf pad (encode_attr (record { typ = typ; val = val })))))))

pub put_attr-Emits :
    (typ : ℕ) (gen : NlMsgBuilder → NlMsgBuilder) (val : List ℕ)
    → 4 + length val < 65536
    → Fills gen val
    → Emits (put_attr typ gen) (record { typ = typ; val = val } ∷ [])
unfolding put_attr
put_attr-Emits typ gen val h fills msg =
    ap (λ (p : NlMsgBuilder × Unit {0}). p.0)
      (put_attr_with-lem {R = Unit {0}} typ (λ m. (gen m, tt)) val tt h
        (λ m words. ap (λ (n : NlMsgBuilder). (n, tt)) (fills m words)) msg)

-- Writers in sequence.
pub Emits-none : Emits (λ m. m) []
Emits-none msg = rw (encode_nil (length msg.buf)) (rw append-nil)

pub Emits-then :
    {f g : NlMsgBuilder → NlMsgBuilder} (xs ys : List Attr)
    → Emits f xs
    → Emits g ys
    → Emits (λ m. g (f m)) (xs ++ ys)
Emits-then {f} {g} xs ys hf hg msg =
    let body = encode (length msg.buf) xs in
    ap g (hf msg)
    ∙ hg (append_to msg body)
    ∙ ap (λ (l : List ℕ). record { buf = l })
        (append_assoc msg.buf body (encode (length (msg.buf ++ body)) ys))
    ∙ ap (append_to msg) (
        ap (λ (n : ℕ). body ++ encode n ys) (length-append msg.buf body)
        ∙ sym (encode-append xs ys (length msg.buf)))

pub Emits-if :
    {f : NlMsgBuilder → NlMsgBuilder} (b : Bool) (xs : List Attr)
    → Emits f xs
    → Emits (λ m. if b then f m else m) (if b then xs else [])
Emits-if true xs hf msg = hf msg
Emits-if false xs hf msg = Emits-none msg

-- Grow and a copy append the bytes.
pub grow_write-append :
    (bytes : List ℕ) (msg : NlMsgBuilder) → grow_write bytes msg ≡ append_to msg bytes
unfolding grow
grow_write-append bytes msg =
    let n = length bytes in
    let room : length msg.buf + n - length msg.buf ≡ n = omega arith in
    ap (λ (k : ℕ). record { buf = write_at (length msg.buf) bytes (msg.buf ++ zeros k) }) room
    ∙ ap (λ (l : List ℕ). record { buf = write_at (length msg.buf) bytes (msg.buf ++ l) })
        (sym (append-nil (zeros n)))
    ∙ ap (λ (l : List ℕ). record { buf = l })
        (write_at-middle (length msg.buf) bytes msg.buf (zeros n) [] refl
          (sym (length-replicate {A = ℕ} n 0)))
    ∙ ap (append_to msg) (append-nil bytes)

-- Align at the end of a nested value pads it.
nested-Fills :
    {R : Type 0} (gen : NlMsgBuilder → NlMsgBuilder × R) (attrs : List Attr) (r : R)
    → ((msg : NlMsgBuilder) → gen msg ≡ (append_to msg (encode (length msg.buf) attrs), r))
    → (msg : NlMsgBuilder) → length msg.buf % 4 ≡ 0
    → ◌≡◌ {A = NlMsgBuilder × R}
        (let (done, result) = gen msg in (align_buf 4 done, result))
        (append_to msg (nested attrs), r)
unfolding align_buf
nested-Fills {R} gen attrs r emits msg words =
    let body = encode 0 attrs in
    let same : gen msg ≡ (append_to msg body, r) =
      emits msg
      ∙ ap (λ (l : List ℕ). (append_to msg l, r)) (encode-mod attrs (length msg.buf) 0 words) in
    let pad : align (length (msg.buf ++ body)) 4 - length (msg.buf ++ body)
        ≡ padding (length body) =
      omega (arith, align_four (length (msg.buf ++ body)), length-append msg.buf body) in
    rw same (rw pad (rw (append_assoc msg.buf body (zeros (padding (length body))))))

-- PutNestedAttrs over writers of attributes appends one attribute, at an aligned place, whose value
-- is those attributes with the padding at their end, where that is shorter than 64 kB.
pub put_nested_attrs-Emits :
    (typ : ℕ) (gen : NlMsgBuilder → NlMsgBuilder) (attrs : List Attr)
    → 4 + length (nested attrs) < 65536
    → Emits gen attrs
    → Emits (put_nested_attrs typ gen) (record { typ = typ; val = nested attrs } ∷ [])
unfolding put_nested_attrs
put_nested_attrs-Emits typ gen attrs h emits =
    put_attr-Emits typ (λ m. align_buf 4 (gen m)) (nested attrs) h
      (λ msg words.
        ap (λ (p : NlMsgBuilder × Unit {0}). p.0)
          (nested-Fills {R = Unit {0}} (λ m. (gen m, tt)) attrs tt
            (λ m. ap (λ (n : NlMsgBuilder). (n, tt)) (emits m)) msg words))

pub put_nested_attrs_with-lem :
    {R : Type 0} (typ : ℕ) (gen : NlMsgBuilder → NlMsgBuilder × R) (attrs : List Attr) (r : R)
    → 4 + length (nested attrs) < 65536
    → ((msg : NlMsgBuilder) → gen msg ≡ (append_to msg (encode (length msg.buf) attrs), r))
    → (msg : NlMsgBuilder)
    → put_nested_attrs_with typ gen msg
      ≡ (append_to msg (encode (length msg.buf) (record { typ = typ; val = nested attrs } ∷ [])), r)
unfolding put_nested_attrs_with
put_nested_attrs_with-lem typ gen attrs r h emits msg =
    put_attr_with-lem typ (λ m. let (done, result) = gen m in (align_buf 4 done, result))
      (nested attrs) r h (nested-Fills gen attrs r emits) msg
