-- ===== src/Format/Laws.antt =====
-- Laws of the format.
use go_odp.Prelude.{
  ℕ, ◌+◌, ◌%◌, ◌≡◌, refl, List, [], ◌∷◌, ◌++◌, append-nil, append_assoc, length, length-append,
  length-replicate, arith,
}
use go_odp.Format.{Attr, padding, zeros, encode_attr, encode}

-- Only the offset's place within a word matters.
pub encode-mod : (attrs : List Attr) (n m : ℕ) → n % 4 ≡ m % 4 → encode n attrs ≡ encode m attrs
unfolding encode
encode-mod [] n m e = refl
encode-mod (a ∷ attrs) n m e =
    let same : padding n ≡ padding m = omega arith in
    rw (
      encode-mod attrs (n + padding n + (4 + length a.val)) (m + padding m + (4 + length a.val))
          (omega arith),
      same,
    )

pub encode_nil : (n : ℕ) → encode n [] ≡ []
unfolding encode
encode_nil n = refl

-- One attribute alone.
pub encode_one : (n : ℕ) (a : Attr) → encode n (a ∷ []) ≡ zeros (padding n) ++ encode_attr a
unfolding encode
encode_one n a = rw append-nil

-- One attribute, and those behind it.
pub encode_cons :
    (n : ℕ) (a : Attr) (attrs : List Attr)
    → encode n (a ∷ attrs)
      ≡ zeros (padding n) ++ (encode_attr a ++ encode (n + padding n + (4 + length a.val)) attrs)
unfolding encode
encode_cons n a attrs = refl

pub length-encode_cons :
    (n : ℕ) (a : Attr) (attrs : List Attr)
    → length (encode n (a ∷ attrs))
      ≡ padding n + (4 + length a.val) + length (encode (n + padding n + (4 + length a.val)) attrs)
unfolding encode
length-encode_cons n a attrs =
    let rest = encode (n + padding n + (4 + length a.val)) attrs in
    omega (
      arith,
      length-append (zeros (padding n)) (encode_attr a ++ rest),
      length-append (encode_attr a) rest,
      length-replicate {A = ℕ} (padding n) 0,
    )

pub encode-append :
    (xs ys : List Attr) (n : ℕ)
    → encode n (xs ++ ys) ≡ encode n xs ++ encode (n + length (encode n xs)) ys
encode-append [] ys n = unfold encode in encode-mod ys n (n + 0) (omega arith)
encode-append (a ∷ xs) ys n =
    let m = n + padding n + (4 + length a.val) in
    let ends : n + length (encode n (a ∷ xs)) ≡ m + length (encode m xs) =
      omega (arith, length-encode_cons n a xs) in
    let rest = encode (m + length (encode m xs)) ys in
    rw (ends, encode_cons n a (xs ++ ys), encode_cons n a xs)
      (rw
        (
          encode-append xs ys m,
          append_assoc (zeros (padding n)) (encode_attr a ++ encode m xs) rest,
        )
        (rw (append_assoc a.val (encode m xs) rest)))
