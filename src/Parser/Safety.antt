-- ===== src/Parser/Safety.antt =====
-- parseAttrs on any bytes.
use go_odp.Prelude.{
  ℕ, zero, suc, ◌+◌, ◌-◌, ◌≤◌, ◌<◌, ◌≡◌, ◌≢◌, inl, inr, refl, ap, ◌∙◌, List, Bool-cases, Result, ok,
  panic, wild, out_of_fuel, ◌>>=◌, length, leb, arith, leb-false, leb-false_inv,
}
use go_odp.Align.{align, align_four}
use go_odp.Memory.{NlAttr, nl_attr_at}
use go_odp.Format.{Attr}
use go_odp.Parser.RoundTrip.{check_data-ok}
use go_odp.Parser.{NlMsgParser, data_slice, parse_attr, parse_attrs_loop, parse_attrs}
use go_odp.Parser.Rounds.{RoundEnds, moved, failed, panicked, parse_attr-RoundEnds}

data_slice-crossed : (from to : ℕ) (msg : NlMsgParser) → to < from → data_slice from to msg ≡ panic
unfolding data_slice
data_slice-crossed from to msg h = rw (leb-false from to h)

parse_attr-short :
    (apos : ℕ) (msg : NlMsgParser) (nla : NlAttr)
    → apos + 4 ≤ length msg.data_bytes
    → nl_attr_at msg.data_bytes msg.tail apos ≡ ok nla
    → nla.len < 4
    → parse_attr apos msg ≡ panic
unfolding parse_attr
parse_attr-short apos msg nla h header short =
    let here : NlMsgParser = record msg { pos = apos } in
    rw (
      check_data-ok 4 here h,
      header,
      check_data-ok nla.len here (omega arith),
      data_slice-crossed (align (apos + 4) 4) (apos + nla.len) here
          (omega (arith, align_four (apos + 4))),
    )

module _ {S : Type 0} (consumer : ℕ → List ℕ → S → S) where
  -- The state and the position that a call returns.
  abbrev pub returned_at : Result (S × NlMsgParser) → Result (S × ℕ)
  returned_at r = r >>= λ p. ok (p.0, p.1.pos)

  -- The fuel of parseAttrs is enough, and what lies behind the message is not read: the same call on
  -- an array with the same message has the same result.
  abbrev Ends : Result (S × NlMsgParser) → Result (S × NlMsgParser) → Type 0
  Ends r other = (r ≢ out_of_fuel) × (r ≢ wild) × (returned_at r ≡ returned_at other)

  round_Ends :
      (apos : ℕ) (msg other : NlMsgParser) (rest : Attr × NlMsgParser → Result (S × NlMsgParser))
      {r q : Result (Attr × NlMsgParser)}
      → RoundEnds apos msg other r q
      → ((a : Attr) (end : ℕ)
          → apos + 4 ≤ end
          → Ends (rest (a, record msg { pos = end })) (rest (a, record other { pos = end })))
      → Ends (r >>= rest) (q >>= rest)
  round_Ends apos msg other rest (moved a end behind) k = k a end behind
  round_Ends apos msg other rest (failed e) k = (λ p. cc, λ p. cc, refl)
  round_Ends apos msg other rest panicked k = (λ p. cc, λ p. cc, refl)

  parse_attrs_loop-Ends :
      (fuel : ℕ) (msg : NlMsgParser) (tail : List ℕ) (s : S)
      → length msg.data_bytes - msg.pos < fuel
      → Ends
          (parse_attrs_loop consumer fuel msg s)
          (parse_attrs_loop consumer fuel (record msg { tail = tail }) s)
  unfolding parse_attrs_loop
  parse_attrs_loop-Ends zero msg tail s h = absurd (omega arith)
  parse_attrs_loop-Ends (suc fuel) msg tail s h =
      let apos = align msg.pos 4 in
      elim (Bool-cases (leb (length msg.data_bytes) apos)) [
        | inl e ↦ rw e (λ p. cc, λ p. cc, refl)
        | inr e ↦ rw e (
            round_Ends apos msg (record msg { tail = tail }) _ (parse_attr-RoundEnds apos msg tail)
              (λ a end behind.
                parse_attrs_loop-Ends fuel (record msg { pos = end }) tail (consumer a.typ a.val s)
                  (omega (arith, behind, leb-false_inv _ _ e, align_four msg.pos))))
      ]

  -- parseAttrs ends on every input. It reads no memory outside the array, and nothing in the array
  -- behind the message: what its consumer makes of the attributes, the position and the error or the
  -- panic are the same whatever stands there.
  pub parse_attrs-Ends :
      (msg : NlMsgParser) (tail : List ℕ) (s : S)
      → (parse_attrs consumer msg s ≢ out_of_fuel)
        × (parse_attrs consumer msg s ≢ wild)
        × (returned_at (parse_attrs consumer msg s)
            ≡ returned_at (parse_attrs consumer (record msg { tail = tail }) s))
  unfolding parse_attrs
  parse_attrs-Ends msg tail s =
      parse_attrs_loop-Ends (length msg.data_bytes + 1) msg tail s (omega arith)

  short_round-lem :
      (fuel : ℕ) (msg : NlMsgParser) (s : S) (nla : NlAttr)
      → align msg.pos 4 + 4 ≤ length msg.data_bytes
      → nl_attr_at msg.data_bytes msg.tail (align msg.pos 4) ≡ ok nla
      → nla.len < 4
      → parse_attrs_loop consumer (suc fuel) msg s ≡ panic
  unfolding parse_attrs_loop
  short_round-lem fuel msg s nla h header short = rw (
    leb-false (length msg.data_bytes) (align msg.pos 4) (omega arith),
    parse_attr-short (align msg.pos 4) msg nla h header short,
  )

  -- Where the header of the next attribute lies in the message and states a length below 4,
  -- parseAttrs panics.
  pub parse_attrs-short_attr :
      (msg : NlMsgParser) (s : S) (nla : NlAttr)
      → align msg.pos 4 + 4 ≤ length msg.data_bytes
      → nl_attr_at msg.data_bytes msg.tail (align msg.pos 4) ≡ ok nla
      → nla.len < 4
      → parse_attrs consumer msg s ≡ panic
  unfolding parse_attrs
  parse_attrs-short_attr msg s nla h header short =
      let apos = align msg.pos 4 in
      ap (λ (n : ℕ). parse_attrs_loop consumer n msg s) {x = length msg.data_bytes + 1}
        {y = suc (length msg.data_bytes)} (omega arith)
      ∙ short_round-lem (length msg.data_bytes) msg s nla h header short
