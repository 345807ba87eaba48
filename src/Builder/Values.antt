-- ===== src/Builder/Values.antt =====
-- What the writers of single values in odp/netlink.go append.
use go_odp.Prelude.{
  ℕ, ◌+◌, ◌-◌, ◌<◌, ◌≡◌, ◌++◌, sym, ap, ◌∙◌, refl, append_assoc, replicate, replicate-add,
  length-append, length-replicate, write_at, write_at-middle, List, [], ◌∷◌, append-nil, length,
  arith,
}
use go_odp.Memory.{u16_bytes, u32_bytes}
use go_odp.Builder.{
  NlMsgBuilder, grow, put_string_z, put_string_attr, grow_write, put_empty_attr, put_uint8_attr,
  put_uint16_attr, put_uint32_attr, put_slice_attr,
}
use go_odp.Builder.Emits.{Emits, append_to, put_attr-Emits, grow_write-append}

pub put_empty_attr-Emits :
    (typ : ℕ) → Emits (put_empty_attr typ) (record { typ = typ; val = [] } ∷ [])
unfolding put_empty_attr
put_empty_attr-Emits typ = put_attr-Emits typ (λ m. m) [] (omega arith) (λ msg words. rw append-nil)

pub put_slice_attr-Emits :
    (typ : ℕ) (bytes : List ℕ)
    → 4 + length bytes < 65536
    → Emits (put_slice_attr typ bytes) (record { typ = typ; val = bytes } ∷ [])
unfolding put_slice_attr
put_slice_attr-Emits typ bytes h =
    put_attr-Emits typ (grow_write bytes) bytes h (λ msg words. grow_write-append bytes msg)

pub put_uint8_attr-Emits :
    (typ val : ℕ) → Emits (put_uint8_attr typ val) (record { typ = typ; val = val ∷ [] } ∷ [])
unfolding put_uint8_attr
put_uint8_attr-Emits typ val =
    put_attr-Emits typ (grow_write (val ∷ [])) (val ∷ []) (omega arith)
      (λ msg words. grow_write-append (val ∷ []) msg)

pub put_uint16_attr-Emits :
    (typ val : ℕ) → Emits (put_uint16_attr typ val) (record { typ = typ; val = u16_bytes val } ∷ [])
unfolding put_uint16_attr
put_uint16_attr-Emits typ val =
    put_attr-Emits typ (grow_write (u16_bytes val)) (u16_bytes val) (omega arith)
      (λ msg words. grow_write-append (u16_bytes val) msg)

pub put_uint32_attr-Emits :
    (typ val : ℕ) → Emits (put_uint32_attr typ val) (record { typ = typ; val = u32_bytes val } ∷ [])
unfolding put_uint32_attr
put_uint32_attr-Emits typ val =
    put_attr-Emits typ (grow_write (u32_bytes val)) (u32_bytes val) (omega arith)
      (λ msg words. grow_write-append (u32_bytes val) msg)

-- A text is written with its nul byte.
put_string_z-append :
    (str : List ℕ) (msg : NlMsgBuilder) → put_string_z str msg ≡ append_to msg (str ++ (0 ∷ []))
unfolding put_string_z grow
put_string_z-append str msg =
    let buf = msg.buf in
    let p = length buf in
    let l = length str in
    let nul : List ℕ = 0 ∷ [] in
    let room : p + (l + 1) - p ≡ l + 1 = omega arith in
    ap (λ (n : ℕ). record { buf = write_at (p + l) nul (write_at p str (buf ++ replicate n 0)) })
      room
    ∙ ap (λ (m : List ℕ). record { buf = write_at (p + l) nul (write_at p str (buf ++ m)) })
        (replicate-add l 1 0)
    ∙ ap (λ (m : List ℕ). record { buf = write_at (p + l) nul m })
        (write_at-middle p str buf (replicate l 0) nul refl (sym (length-replicate {A = ℕ} l 0))
          ∙ sym (append_assoc buf str nul))
    ∙ ap (λ (m : List ℕ). record { buf = m })
        (write_at-middle (p + l) nul (buf ++ str) nul [] (sym (length-append buf str)) refl
          ∙ append_assoc buf str nul)

pub put_string_attr-Emits :
    (typ : ℕ) (str : List ℕ)
    → 5 + length str < 65536
    → Emits (put_string_attr typ str) (record { typ = typ; val = str ++ (0 ∷ []) } ∷ [])
unfolding put_string_attr
put_string_attr-Emits typ str h =
    put_attr-Emits typ (put_string_z str) (str ++ (0 ∷ []))
      (omega (arith, length-append str (0 ∷ []))) (λ msg words. put_string_z-append str msg)
