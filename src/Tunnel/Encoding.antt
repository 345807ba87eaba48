-- ===== src/Tunnel/Encoding.antt =====
-- The attributes that TunnelAttrs.toNlAttrs writes.
use go_odp.Prelude.{
  ℕ, ◌+◌, ◌≤◌, ◌<◌, ◌≡◌, refl, List, [], ◌∷◌, ◌++◌, Bool, ◌&&◌, if◌then◌else◌, length, arith,
}
use go_odp.Memory.{u16_bytes, uint16_to_be}
use go_odp.Format.{Attr}
use go_odp.Format.Optional.{opt, IsWithin, IsWithin-opt, IsWithin-append}
use go_odp.Builder.{NlMsgBuilder}
use go_odp.Builder.Emits.{Emits, Emits-then, Emits-if}
use go_odp.Builder.Values.{
  put_slice_attr-Emits, put_uint8_attr-Emits, put_empty_attr-Emits, put_uint16_attr-Emits,
}
use go_odp.Tunnel.{TunnelAttrs, TunnelAttrsPresence, IsTunnelAttrs, to_nl_attrs, put_if}

-- In the order of the code; each stands under its presence flag, and the two flags without a value
-- only where the attribute is set too.
abbrev pub tunnel_attributes : TunnelAttrs → TunnelAttrsPresence → List Attr
tunnel_attributes ta p =
    opt p.tunnel_id 0 ta.tunnel_id
    ++ opt p.ipv4_src 1 ta.ipv4_src
    ++ opt p.ipv4_dst 2 ta.ipv4_dst
    ++ opt p.tos 3 (ta.tos ∷ [])
    ++ opt p.ttl 4 (ta.ttl ∷ [])
    ++ opt (p.df && ta.df) 5 []
    ++ opt (p.csum && ta.csum) 6 []
    ++ opt p.tp_src 9 (u16_bytes (uint16_to_be ta.tp_src))
    ++ opt p.tp_dst 10 (u16_bytes (uint16_to_be ta.tp_dst))

-- One more conditional write at the end.
then_if :
    {f g : NlMsgBuilder → NlMsgBuilder} (xs ys : List Attr) (b : Bool)
    → Emits f xs
    → Emits g ys
    → Emits (λ m. put_if b g (f m)) (xs ++ (if b then ys else []))
then_if {f} {g} xs ys b hf hg = Emits-then {f = f} {g = put_if b g} xs _ hf (Emits-if b ys hg)

-- One more, of at most 8 bytes.
more :
    (xs : List Attr) (n : ℕ) (b : Bool) (typ : ℕ) (val : List ℕ) (size : ℕ)
    → length val ≡ size
    → (typ < 65536) × (size ≤ 8)
    → IsWithin n xs
    → IsWithin (n + (7 + size)) (xs ++ opt b typ val)
more xs n b typ val size e small hx =
    IsWithin-append n (7 + size) xs (opt b typ val) hx
      (IsWithin-opt b typ val size e small.0 (omega arith))

module _ (ta : TunnelAttrs) (p : TunnelAttrsPresence) (h : IsTunnelAttrs ta) where
  pub to_nl_attrs-Emits : Emits (to_nl_attrs ta p) (tunnel_attributes ta p)
  unfolding to_nl_attrs
  to_nl_attrs-Emits =
      let src = u16_bytes (uint16_to_be ta.tp_src) in
      let dst = u16_bytes (uint16_to_be ta.tp_dst) in
      then_if _ _ p.tp_dst
        (then_if _ _ p.tp_src
          (then_if _ _ (p.csum && ta.csum)
            (then_if _ _ (p.df && ta.df)
              (then_if _ _ p.ttl
                (then_if _ _ p.tos
                  (then_if _ _ p.ipv4_dst
                    (then_if _ _ p.ipv4_src
                      (Emits-if p.tunnel_id _
                        (put_slice_attr-Emits 0 ta.tunnel_id (omega (arith, h.tunnel_id_size))))
                      (put_slice_attr-Emits 1 ta.ipv4_src (omega (arith, h.ipv4_src_size))))
                    (put_slice_attr-Emits 2 ta.ipv4_dst (omega (arith, h.ipv4_dst_size))))
                  (put_uint8_attr-Emits 3 ta.tos))
                (put_uint8_attr-Emits 4 ta.ttl))
              (put_empty_attr-Emits 5))
            (put_empty_attr-Emits 6))
          (put_uint16_attr-Emits 9 (uint16_to_be ta.tp_src)))
        (put_uint16_attr-Emits 10 (uint16_to_be ta.tp_dst))

  -- All nine take 85 bytes at most.
  pub tunnel_attributes-IsWithin : IsWithin 85 (tunnel_attributes ta p)
  tunnel_attributes-IsWithin =
      more _ 76 p.tp_dst 10 (u16_bytes (uint16_to_be ta.tp_dst)) 2 refl (omega arith) (
        more _ 67 p.tp_src 9 (u16_bytes (uint16_to_be ta.tp_src)) 2 refl (omega arith) (
          more _ 60 (p.csum && ta.csum) 6 [] 0 refl (omega arith) (
            more _ 53 (p.df && ta.df) 5 [] 0 refl (omega arith) (
              more _ 45 p.ttl 4 (ta.ttl ∷ []) 1 refl (omega arith) (
                more _ 37 p.tos 3 (ta.tos ∷ []) 1 refl (omega arith) (
                  more _ 26 p.ipv4_dst 2 ta.ipv4_dst 4 h.ipv4_dst_size (omega arith) (
                    more _ 15 p.ipv4_src 1 ta.ipv4_src 4 h.ipv4_src_size (omega arith) (
                      IsWithin-opt p.tunnel_id 0 ta.tunnel_id 8 h.tunnel_id_size (omega arith)
                        (omega arith)))))))))
