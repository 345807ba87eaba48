-- ===== src/Format.antt =====
-- The attribute format of netlink, described apart from the code that writes and reads it: each
-- attribute starts on a multiple of 4 and is a length, a type and a value, without padding behind.
pub mod Laws
pub mod Optional
use go_odp.Prelude.{ℕ, ◌+◌, ◌-◌, ◌%◌, ◌<◌, List, [], ◌∷◌, ◌++◌, length, replicate, All}
use go_odp.Memory.{u16_bytes}

-- The type Attr of odp/netlink.go.
pub record Attr : Type 0 where
  pub typ : ℕ
  pub val : List ℕ

abbrev pub padding : ℕ → ℕ
padding n = (4 - n % 4) % 4

abbrev pub zeros : ℕ → List ℕ
zeros n = replicate n 0

-- Length and type are uint16s.
pub record Fits (a : Attr) : Type 0 where
  pub len_fits : length a.val + 4 < 65536
  pub typ_fits : a.typ < 65536

abbrev pub encode_attr : Attr → List ℕ
encode_attr a = u16_bytes (4 + length a.val) ++ (u16_bytes a.typ ++ a.val)

-- The attributes as they stand from offset `n` on.
unfoldable pub encode : ℕ → List Attr → List ℕ
encode n [] = []
encode n (a ∷ attrs) =
    zeros (padding n) ++ (encode_attr a ++ encode (n + padding n + (4 + length a.val)) attrs)

-- The value of an attribute that nests others: padded at its end too.
abbrev pub nested : List Attr → List ℕ
nested attrs = let body = encode 0 attrs in body ++ zeros (padding (length body))
