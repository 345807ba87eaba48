-- ===== src/Tool/Flags.antt =====
-- What the options for a tunnel to set are taken for.
use go_odp.Prelude.{
  ap, arith, ==_false, suc, true, replicate, ==_self, ℕ, ◌%◌, ◌^◌, ◌==◌, ◌≡◌, refl, List, [], ◌∷◌,
  Bool, false, Option, none, some, Result, ok, err, panic, wild, out_of_fuel, ◌>>=◌, Bool-cases,
  inl, inr, if◌then◌else◌,
}
use go_odp.Tunnel.{TunnelAttrs, TunnelAttrsPresence, nothing_present, all_bytes}
use go_odp.Tool.Printing.Shown.{exact_mask}
use go_odp.Tool.Printing.Reading.{all_bytes-ones, all_bytes-zeros}
use go_odp.Flow.Key.{TunnelFlowKey}
use go_odp.Flow.Setters.{
  key_set_tunnel_id, key_set_ipv4_src, key_set_ipv4_dst, key_set_tos, key_set_ttl, key_set_df,
  key_set_csum, key_set_tp_src, key_set_tp_dst,
}
use go_odp.Tool.Options.{
  ℤ, pos, negsuc, TunnelFlags, with_text, with_int, mask_left, parse_bool, new_tunnel_flow_key,
  parse_tunnel_flags, presence_of, found_mask, any_present, set_tunnel_of, parse_set_tunnel_flags,
}

-- The options that are given: a text that is not empty, a number that is not negative.
abbrev pub given_text : List ℕ → Bool
given_text [] = false
given_text (c ∷ text) = true

abbrev pub given_int : ℤ → Bool
given_int (pos n) = true
given_int (negsuc n) = false

abbrev pub given : TunnelFlags → TunnelAttrsPresence
given tf = record {
  tunnel_id = given_text tf.id;
  ipv4_src = given_text tf.ipv4_src;
  ipv4_dst = given_text tf.ipv4_dst;
  tos = given_int tf.tos;
  ttl = given_int tf.ttl;
  df = given_text tf.df;
  csum = given_text tf.csum;
  tp_src = given_int tf.tp_src;
  tp_dst = given_int tf.tp_dst;
}

-- The mask of a key, with an exact match for the attributes of `p`.
abbrev IsExact : TunnelAttrsPresence → TunnelFlowKey → Type 0
IsExact p fk = fk.mask ≡ exact_mask p

ones_or_zeros :
    (n : ℕ) (b : Bool)
    → let bytes : List ℕ = if b then replicate (suc n) 0xff else replicate (suc n) 0 in
      (all_bytes bytes 0xff ≡ b) × (mask_left (all_bytes bytes 0xff) (all_bytes bytes 0) ≡ false)
unfolding all_bytes
ones_or_zeros n true = rw (all_bytes-ones n) (refl, refl)
ones_or_zeros n false = rw (all_bytes-zeros n) (refl, refl)

all_or_zero :
    (n : ℕ) (b : Bool)
    → let m = if b then suc n else 0 in
      ((m == suc n) ≡ b) × (mask_left (m == suc n) (m == 0) ≡ false)
all_or_zero n true = rw (==_self (suc n)) (refl, refl)
all_or_zero n false = (
  ==_false 0 (suc n) (λ e. omega (arith, e)),
  rw (==_false 0 (suc n) (λ e. omega (arith, e))) refl,
)

found_mask-exact : (p : TunnelAttrsPresence) → found_mask (exact_mask p) ≡ false
found_mask-exact p =
    rw
      (
        (ones_or_zeros 7 p.tunnel_id).1,
        (ones_or_zeros 3 p.ipv4_src).1,
        (ones_or_zeros 3 p.ipv4_dst).1,
        (all_or_zero 254 p.tos).1,
        (all_or_zero 254 p.ttl).1,
        (all_or_zero 65534 p.tp_src).1,
        (all_or_zero 65534 p.tp_dst).1,
      )
      refl

-- What holds of the value of a call that returns one.
abbrev Ends : {A : Type 0} → (A → Type 0) → Result A → Type 0
Ends P (ok a) = P a
Ends P _ = Unit {0}

Ends-then :
    {A : Type 0} {B : Type 0} (P : A → Type 0) (Q : B → Type 0) (r : Result A) (next : A → Result B)
    → Ends P r
    → ((a : A) → P a → Ends Q (next a))
    → Ends Q (r >>= next)
Ends-then P Q (ok a) next h k = k a h
Ends-then P Q (err e) next h k = tt
Ends-then P Q panic next h k = tt
Ends-then P Q wild next h k = tt
Ends-then P Q out_of_fuel next h k = tt

set_parsed :
    {A : Type 0} (r : Result A) (set : A → TunnelFlowKey → TunnelFlowKey) (fk : TunnelFlowKey)
    (p : TunnelAttrsPresence)
    → ((a : A) → IsExact p (set a fk))
    → Ends (IsExact p) (r >>= λ a. ok (set a fk))
set_parsed (ok a) set fk p h = h a
set_parsed (err e) set fk p h = tt
set_parsed panic set fk p h = tt
set_parsed wild set fk p h = tt
set_parsed out_of_fuel set fk p h = tt

with_text-given :
    {A : Type 0} (text : List ℕ) (parse : List ℕ → Result A)
    (set : A → TunnelFlowKey → TunnelFlowKey) (fk : TunnelFlowKey) (p : Bool → TunnelAttrsPresence)
    → ((a : A) → IsExact (p false) fk → IsExact (p true) (set a fk))
    → IsExact (p false) fk
    → Ends (IsExact (p (given_text text))) (with_text text parse set fk)
with_text-given [] parse set fk p sets h = h
with_text-given (c ∷ text) parse set fk p sets h =
    set_parsed (parse (c ∷ text)) set fk (p true) (λ a. sets a h)

with_int-given :
    (w : ℕ) (n : ℤ) (set : ℕ → TunnelFlowKey → TunnelFlowKey) (fk : TunnelFlowKey)
    (p : Bool → TunnelAttrsPresence)
    → ((v : ℕ) → IsExact (p false) fk → IsExact (p true) (set v fk))
    → IsExact (p false) fk
    → IsExact (p (given_int n)) (with_int w n set fk)
with_int-given w (pos n) set fk p sets h = sets (n % 2 ^ w) h
with_int-given w (negsuc n) set fk p sets h = h

ends_ok : {A : Type 0} (P : A → Type 0) (r : Result A) (a : A) → Ends P r → r ≡ ok a → P a
ends_ok P r a h e = rw e at h

module _ (tf : TunnelFlags) where
  -- The attributes that are matched behind the option of `tunnel_id`.
  abbrev p_tunnel_id : Bool → TunnelAttrsPresence
  p_tunnel_id b = record (nothing_present) { tunnel_id = b }

  -- The attributes that are matched behind the option of `ipv4_src`.
  abbrev p_ipv4_src : Bool → TunnelAttrsPresence
  p_ipv4_src b = record (p_tunnel_id (given_text tf.id)) { ipv4_src = b }

  -- The attributes that are matched behind the option of `ipv4_dst`.
  abbrev p_ipv4_dst : Bool → TunnelAttrsPresence
  p_ipv4_dst b = record (p_ipv4_src (given_text tf.ipv4_src)) { ipv4_dst = b }

  -- The attributes that are matched behind the option of `tos`.
  abbrev p_tos : Bool → TunnelAttrsPresence
  p_tos b = record (p_ipv4_dst (given_text tf.ipv4_dst)) { tos = b }

  -- The attributes that are matched behind the option of `ttl`.
  abbrev p_ttl : Bool → TunnelAttrsPresence
  p_ttl b = record (p_tos (given_int tf.tos)) { ttl = b }

  -- The attributes that are matched behind the option of `df`.
  abbrev p_df : Bool → TunnelAttrsPresence
  p_df b = record (p_ttl (given_int tf.ttl)) { df = b }

  -- The attributes that are matched behind the option of `csum`.
  abbrev p_csum : Bool → TunnelAttrsPresence
  p_csum b = record (p_df (given_text tf.df)) { csum = b }

  -- The attributes that are matched behind the option of `tp_src`.
  abbrev p_tp_src : Bool → TunnelAttrsPresence
  p_tp_src b = record (p_csum (given_text tf.csum)) { tp_src = b }

  -- The attributes that are matched behind the option of `tp_dst`.
  abbrev p_tp_dst : Bool → TunnelAttrsPresence
  p_tp_dst b = record (p_tp_src (given_int tf.tp_src)) { tp_dst = b }

module _ (net_ipv4 hex_bytes : List ℕ → Option (List ℕ)) where
  parse_tunnel_flags-given :
      (tf : TunnelFlags) → Ends (IsExact (given tf)) (parse_tunnel_flags net_ipv4 hex_bytes tf)
  unfolding parse_tunnel_flags key_set_tunnel_id key_set_ipv4_src key_set_ipv4_dst key_set_tos
      key_set_ttl key_set_df key_set_csum key_set_tp_src key_set_tp_dst
  parse_tunnel_flags-given tf =
      Ends-then (IsExact (p_tunnel_id tf (given_text tf.id))) (IsExact (given tf)) _ _
        (with_text-given tf.id _ key_set_tunnel_id new_tunnel_flow_key (p_tunnel_id tf)
          (λ v. (ap (λ (m : TunnelAttrs). record m { tunnel_id = replicate 8 0xff }))) refl)
        λ a ha.
          Ends-then (IsExact (p_ipv4_src tf (given_text tf.ipv4_src))) (IsExact (given tf)) _ _
            (with_text-given tf.ipv4_src _ key_set_ipv4_src a (p_ipv4_src tf)
              (λ v. (ap (λ (m : TunnelAttrs). record m { ipv4_src = replicate 4 0xff }))) ha)
            λ b hb.
              Ends-then (IsExact (p_ipv4_dst tf (given_text tf.ipv4_dst))) (IsExact (given tf)) _ _
                (with_text-given tf.ipv4_dst _ key_set_ipv4_dst b (p_ipv4_dst tf)
                  (λ v. (ap (λ (m : TunnelAttrs). record m { ipv4_dst = replicate 4 0xff }))) hb)
                λ c hc.
                  let tos = with_int 8 tf.tos key_set_tos c in
                  let ttl = with_int 8 tf.ttl key_set_ttl tos in
                  let htos =
                    with_int-given 8 tf.tos key_set_tos c (p_tos tf)
                      (λ v. (ap (λ (m : TunnelAttrs). record m { tos = 0xff }))) hc in
                  let httl =
                    with_int-given 8 tf.ttl key_set_ttl tos (p_ttl tf)
                      (λ v. (ap (λ (m : TunnelAttrs). record m { ttl = 0xff }))) htos in
                  Ends-then (IsExact (p_df tf (given_text tf.df))) (IsExact (given tf)) _ _
                    (with_text-given tf.df parse_bool key_set_df ttl (p_df tf)
                      (λ v. (ap (λ (m : TunnelAttrs). record m { df = true }))) httl)
                    λ d hd.
                      Ends-then (IsExact (p_csum tf (given_text tf.csum))) (IsExact (given tf)) _ _
                        (with_text-given tf.csum parse_bool key_set_csum d (p_csum tf)
                          (λ v. (ap (λ (m : TunnelAttrs). record m { csum = true }))) hd)
                        λ e he.
                          let src = with_int 16 tf.tp_src key_set_tp_src e in
                          with_int-given 16 tf.tp_dst key_set_tp_dst src (p_tp_dst tf)
                            (λ v. (ap (λ (m : TunnelAttrs). record m { tp_dst = 0xffff })))
                            (with_int-given 16 tf.tp_src key_set_tp_src e (p_tp_src tf)
                              (λ v. (ap (λ (m : TunnelAttrs). record m { tp_src = 0xffff }))) he)

  pub parse_set_tunnel_flags-presence_of :
      (tf : TunnelFlags) (fk : TunnelFlowKey)
      → parse_tunnel_flags net_ipv4 hex_bytes tf ≡ ok fk
      → parse_set_tunnel_flags net_ipv4 hex_bytes tf
        ≡ ok (
            if any_present (presence_of fk.mask)
            then some (record { attrs = fk.key; present = presence_of fk.mask })
            else none)
  unfolding parse_set_tunnel_flags set_tunnel_of
  parse_set_tunnel_flags-presence_of tf fk e =
      let exact = ends_ok (IsExact (given tf)) _ fk (parse_tunnel_flags-given tf) e in
      let no_mask : found_mask fk.mask ≡ false = rw exact (found_mask-exact (given tf)) in
      rw e (
        rw no_mask (elim (Bool-cases (any_present (presence_of fk.mask))) [
          | inl y ↦ rw y refl
          | inr n ↦ rw n refl
        ]))
