-- ===== src/Parser/Rounds.antt =====
-- One round of parseAttrs on any bytes, and on any bytes behind the message.
use go_odp.Prelude.{
  take, ltb-true, leb-true, true, ℕ, zero, suc, ◌+◌, ◌-◌, ◌*◌, ◌≤◌, ◌<◌, ◌≡◌, ◌⊎◌, inl, inr, refl,
  ap, ◌∙◌, List, [], ◌∷◌, ◌++◌, Bool-cases, Result, ok, err, panic, ◌>>=◌, ◌>>◌, length,
  length-drop, drop, leb, arith, Error, truncated_object, slice,
}
use go_odp.Align.{align, alignto, align_four}
use go_odp.Memory.{NlAttr, nl_attr_at, read_nl_attr}
use go_odp.Builder.{sizeof_nl_attr}
use go_odp.Format.{Attr}
use go_odp.Parser.{NlMsgParser, check_data, data_slice, parse_attr}

-- How one round may end, from the position `apos`, for two arrays with the same message: behind a
-- header and with the same attribute, with the same error, or with a panic.
pub data RoundEnds (apos : ℕ) (msg other : NlMsgParser)
    : Result (Attr × NlMsgParser) → Result (Attr × NlMsgParser) → Type 0 where
  moved :
      (a : Attr) (end : ℕ)
      → apos + 4 ≤ end
      → RoundEnds apos msg other
          (ok (a, record msg { pos = end }))
          (ok (a, record other { pos = end }))
  failed : (e : Error) → RoundEnds apos msg other (err e) (err e)
  panicked : RoundEnds apos msg other panic panic

read_nl_attr-ok :
    (bytes : List ℕ)
    → 4 ≤ length bytes
    → (nla : NlAttr) × ((tail : List ℕ) → read_nl_attr (bytes ++ tail) ≡ ok nla)
unfolding read_nl_attr
read_nl_attr-ok (a ∷ b ∷ c ∷ d ∷ rest) h =
    (record { len = a + 256 * b; typ = c + 256 * d }, λ tail. refl)
read_nl_attr-ok (a ∷ b ∷ c ∷ []) h = absurd (omega arith)
read_nl_attr-ok (a ∷ b ∷ []) h = absurd (omega arith)
read_nl_attr-ok (a ∷ []) h = absurd (omega arith)
read_nl_attr-ok [] h = absurd (omega arith)

within : (a b : ℕ) → leb a b ≡ true → a ≤ b
within a b h = ground (arith, h)

-- What is within the first list does not depend on what follows it.
drop-front : (n : ℕ) (xs ys : List ℕ) → n ≤ length xs → drop n (xs ++ ys) ≡ drop n xs ++ ys
drop-front zero xs ys h = refl
drop-front (suc n) [] ys h = absurd (omega (arith, h))
drop-front (suc n) (x ∷ xs) ys h = drop-front n xs ys (omega (arith, h))

take-front : (n : ℕ) (xs ys : List ℕ) → n ≤ length xs → take n (xs ++ ys) ≡ take n xs
take-front zero xs ys h = refl
take-front (suc n) [] ys h = absurd (omega (arith, h))
take-front (suc n) (x ∷ xs) ys h =
    ap (λ (l : List ℕ). x ∷ l) (take-front n xs ys (omega (arith, h)))

nl_attr_at-ok :
    (bytes : List ℕ) (pos : ℕ)
    → pos + 4 ≤ length bytes
    → (nla : NlAttr) × ((tail : List ℕ) → nl_attr_at bytes tail pos ≡ ok nla)
unfolding nl_attr_at
nl_attr_at-ok bytes pos h =
    let (nla, e) = read_nl_attr-ok (drop pos bytes) (omega (arith, length-drop pos bytes)) in
    (
      nla,
      λ tail.
          rw (ltb-true pos (length bytes) (omega (arith, h)))
            (ap read_nl_attr (drop-front pos bytes tail (omega (arith, h))) ∙ e tail),
    )

check_data-cases :
    (l : ℕ) (msg : NlMsgParser)
    → ((check_data l msg ≡ ok tt) × (msg.pos + l ≤ length msg.data_bytes))
      ⊎ ((e : Error) × (check_data l msg ≡ err e) × (length msg.data_bytes < msg.pos + l))
unfolding check_data
check_data-cases l msg = elim (Bool-cases (leb (msg.pos + l) (length msg.data_bytes))) [
  | inl e ↦ inl (rw e, ground arith)
  | inr e ↦ inr (truncated_object (length msg.data_bytes - msg.pos) l, rw e, ground arith)
]

-- The value of an attribute that lies in the message.
data_slice-cases :
    (from to : ℕ) (bytes : List ℕ)
    → to ≤ length bytes
    → ((val : List ℕ) × ((tail : List ℕ) (pos : ℕ)
          → data_slice from to (record { data_bytes = bytes; tail = tail; pos = pos }) ≡ ok val)
        × (from ≤ to))
      ⊎ ((tail : List ℕ) (pos : ℕ)
          → data_slice from to (record { data_bytes = bytes; tail = tail; pos = pos }) ≡ panic)
unfolding data_slice
data_slice-cases from to bytes h = elim (Bool-cases (leb from to)) [
  | inl e ↦ inl (
    slice from to bytes,
    λ tail pos.
        rw (e, leb-true to (length bytes + length tail) (omega (arith, h)))
          (ap ok (
            ap (λ (l : List ℕ). take (to - from) l)
              (drop-front from bytes tail (omega (arith, h, within from to e)))
            ∙ take-front (to - from) (drop from bytes) tail
                (omega (arith, h, length-drop from bytes, within from to e)))),
    within from to e,
  )
  | inr e ↦ inr (λ tail pos. rw e refl)
]

-- The round behind the header.
abbrev parse_value : ℕ → NlMsgParser → NlAttr → Result (Attr × NlMsgParser)
parse_value apos msg nla = do
  let here : NlMsgParser = record msg { pos = apos }
  check_data nla.len here
  let valpos = align (apos + sizeof_nl_attr) alignto
  val ← data_slice valpos (apos + nla.len) here
  ok (record { typ = nla.typ; val = val }, record here { pos = apos + nla.len })

module _ (apos : ℕ) (msg : NlMsgParser) (tail : List ℕ) where
  abbrev beside : NlMsgParser
  beside = record msg { tail = tail }

  parse_value-RoundEnds :
      (nla : NlAttr)
      → RoundEnds apos msg beside (parse_value apos msg nla) (parse_value apos beside nla)
  unfolding check_data
  parse_value-RoundEnds nla = elim (Bool-cases (leb (apos + nla.len) (length msg.data_bytes))) [
    | inr short ↦ rw short (failed (truncated_object (length msg.data_bytes - apos) nla.len))
    | inl fits ↦
        let inside = within (apos + nla.len) (length msg.data_bytes) fits in
        rw fits
          (elim (data_slice-cases (align (apos + 4) 4) (apos + nla.len) msg.data_bytes inside) [
            | inr panicking ↦ rw (panicking msg.tail apos, panicking tail apos) panicked
            | inl (val, cut, order) ↦
                rw (cut msg.tail apos, cut tail apos)
                  (moved (record { typ = nla.typ; val = val }) (apos + nla.len)
                    (omega (arith, align_four (apos + 4), order)))
          ])
  ]

  pub parse_attr-RoundEnds :
      RoundEnds apos msg beside (parse_attr apos msg) (parse_attr apos beside)
  unfolding parse_attr check_data
  parse_attr-RoundEnds = elim (Bool-cases (leb (apos + 4) (length msg.data_bytes))) [
    | inr short ↦ rw short (failed (truncated_object (length msg.data_bytes - apos) 4))
    | inl fits ↦
        let (nla, header) =
          nl_attr_at-ok msg.data_bytes apos (within (apos + 4) (length msg.data_bytes) fits) in
        rw (fits, header msg.tail, header tail) (parse_value-RoundEnds nla)
  ]
