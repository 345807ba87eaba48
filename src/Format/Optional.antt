-- ===== src/Format/Optional.antt =====
-- Attributes that are there under a condition: what a lookup finds, and how long they are.
use go_odp.Prelude.{
  All-append, ℕ, ◌+◌, ◌≤◌, ◌<◌, ◌≡◌, refl, List, [], ◌∷◌, ◌++◌, Bool, true, false, Option, some,
  ◌==◌, if◌then◌else◌, length, length-append, length-replicate, arith, All,
}
use go_odp.Prelude.Map.{lookup, insert, lookup-insert}
use go_odp.Format.{Attr, Fits, padding, zeros, encode, nested}
use go_odp.Format.Laws.{encode_nil, length-encode_cons}
use go_odp.Parser.RoundTrip.{consume_all}

abbrev pub attribute : ℕ → List ℕ → Attr
attribute typ val = record { typ = typ; val = val }

abbrev pub opt : Bool → ℕ → List ℕ → List Attr
opt present typ val = if present then attribute typ val ∷ [] else []

-- The last value of a type, over what was there before.
unfoldable pub last_of : ℕ → List Attr → Option (List ℕ) → Option (List ℕ)
last_of k [] found = found
last_of k (a ∷ attrs) found = last_of k attrs (if a.typ == k then some a.val else found)

pub lookup-consume_all :
    (k : ℕ) (attrs : List Attr) (m : List (ℕ × List ℕ))
    → lookup k (consume_all insert attrs m) ≡ last_of k attrs (lookup k m)
unfolding last_of
lookup-consume_all k [] m = refl
lookup-consume_all k (a ∷ attrs) m =
    rw (lookup-consume_all k attrs (insert a.typ a.val m), lookup-insert)

pub last_of-append :
    (k : ℕ) (xs ys : List Attr) (found : Option (List ℕ))
    → last_of k (xs ++ ys) found ≡ last_of k ys (last_of k xs found)
unfolding last_of
last_of-append k [] ys found = refl
last_of-append k (a ∷ xs) ys found =
    last_of-append k xs ys (if a.typ == k then some a.val else found)

pub last_of-opt :
    (k : ℕ) (b : Bool) (typ : ℕ) (val : List ℕ) (found : Option (List ℕ))
    → last_of k (opt b typ val) found
      ≡ (if typ == k then (if b then some val else found) else found)
unfolding last_of
last_of-opt k b typ val found = ground arith

-- Bytes that an attribute takes at most: three of padding, and the header.
unfoldable pub total : List Attr → ℕ
total [] = 0
total (a ∷ attrs) = 7 + length a.val + total attrs

pub total-append : (xs ys : List Attr) → total (xs ++ ys) ≡ total xs + total ys
unfolding total
total-append [] ys = omega arith
total-append (a ∷ xs) ys = omega (arith, total-append xs ys)

pub total-opt : (b : Bool) (typ : ℕ) (val : List ℕ) → total (opt b typ val) ≤ 7 + length val
unfolding total
total-opt b typ val = ground arith

pub length-encode-le : (n : ℕ) (attrs : List Attr) → length (encode n attrs) ≤ total attrs
unfolding total
length-encode-le n [] = rw (encode_nil n) (omega arith)
length-encode-le n (a ∷ attrs) = omega (
  arith,
  length-encode_cons n a attrs,
  length-encode-le (n + padding n + (4 + length a.val)) attrs,
)

pub length-nested-le : (attrs : List Attr) → length (nested attrs) ≤ total attrs + 3
length-nested-le attrs =
    let body = encode 0 attrs in
    omega (
      arith,
      length-append body (zeros (padding (length body))),
      length-replicate {A = ℕ} (padding (length body)) 0,
      length-encode-le 0 attrs,
    )

pub opt-Fits :
    (b : Bool) (typ : ℕ) (val : List ℕ)
    → typ < 65536
    → length val + 4 < 65536
    → All Fits (opt b typ val)
opt-Fits true typ val ht hv = (record { len_fits = hv; typ_fits = ht }, tt)
opt-Fits false typ val ht hv = tt

-- The attributes fit, and take `n` bytes at most.
pub record IsWithin (n : ℕ) (attrs : List Attr) : Type 0 where
  pub all_fit : All Fits attrs
  pub bounded : total attrs ≤ n

pub IsWithin-opt :
    (b : Bool) (typ : ℕ) (val : List ℕ) (size : ℕ)
    → length val ≡ size
    → typ < 65536
    → size + 4 < 65536
    → IsWithin (7 + size) (opt b typ val)
IsWithin-opt b typ val size e ht hv = record {
  all_fit = opt-Fits b typ val ht (omega arith);
  bounded = omega (arith, total-opt b typ val);
}

pub IsWithin-append :
    (n m : ℕ) (xs ys : List Attr) → IsWithin n xs → IsWithin m ys → IsWithin (n + m) (xs ++ ys)
IsWithin-append n m xs ys hx hy = record {
  all_fit = All-append Fits xs ys hx.all_fit hy.all_fit;
  bounded = omega (arith, total-append xs ys, hx.bounded, hy.bounded);
}

-- Nested once, such attributes are one that fits.
pub nested-Fits :
    (n typ : ℕ) (attrs : List Attr)
    → IsWithin n attrs
    → n < 65529
    → typ < 65536
    → Fits (attribute typ (nested attrs))
nested-Fits n typ attrs h hn ht = record {
  len_fits = omega (arith, length-nested-le attrs, h.bounded);
  typ_fits = ht;
}
