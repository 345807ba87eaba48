-- ===== src/Tool/Printing/Shown.antt =====
-- Actions to set a tunnel, as keys that their options are printed from.
use go_odp.Prelude.{
  ℕ, ◌<◌, ◌^◌, ◌≡◌, refl, List, Bool, true, false, if◌then◌else◌, length, replicate, inl, inr, ◌⊎◌,
  ◌==◌,
}
use go_odp.Tunnel.{TunnelAttrs, TunnelAttrsPresence, all_bytes}
use go_odp.Flow.Action.{SetTunnelAction}
use go_odp.Tool.Options.{presence_of}
use go_odp.Tool.Printing.Reading.{IsWhole, IsWholeNumber, IsWholeBool}

-- An attribute that is present, or absent and then zero.
abbrev pub Shows : {A : Type 0} → (A → Type 0) → A → Bool → A → Type 0
Shows Fits zero p v = (p ≡ true) × Fits v ⊎ (p ≡ false) × (v ≡ zero)

abbrev pub HasLength : ℕ → List ℕ → Type 0
HasLength n bytes = length bytes ≡ n

abbrev pub FitsIn : ℕ → ℕ → Type 0
FitsIn w n = n < 2 ^ w

pub record IsShown (a : SetTunnelAction) : Type 0 where
  pub tunnel_id : Shows (HasLength 8) (replicate 8 0) a.present.tunnel_id a.attrs.tunnel_id
  pub ipv4_src : Shows (HasLength 4) (replicate 4 0) a.present.ipv4_src a.attrs.ipv4_src
  pub ipv4_dst : Shows (HasLength 4) (replicate 4 0) a.present.ipv4_dst a.attrs.ipv4_dst
  pub tos : Shows (FitsIn 8) 0 a.present.tos a.attrs.tos
  pub ttl : Shows (FitsIn 8) 0 a.present.ttl a.attrs.ttl
  pub df : Shows (λ b. Unit {0}) false a.present.df a.attrs.df
  pub csum : Shows (λ b. Unit {0}) false a.present.csum a.attrs.csum
  pub tp_src : Shows (FitsIn 16) 0 a.present.tp_src a.attrs.tp_src
  pub tp_dst : Shows (FitsIn 16) 0 a.present.tp_dst a.attrs.tp_dst

-- The mask of the attributes that are present.
abbrev pub exact_mask : TunnelAttrsPresence → TunnelAttrs
exact_mask p = record {
  tunnel_id = if p.tunnel_id then replicate 8 0xff else replicate 8 0;
  ipv4_src = if p.ipv4_src then replicate 4 0xff else replicate 4 0;
  ipv4_dst = if p.ipv4_dst then replicate 4 0xff else replicate 4 0;
  tos = if p.tos then 0xff else 0;
  ttl = if p.ttl then 0xff else 0;
  df = p.df;
  csum = p.csum;
  tp_src = if p.tp_src then 0xffff else 0;
  tp_dst = if p.tp_dst then 0xffff else 0;
}

pub if_self : (b : Bool) → (if b then true else false) ≡ b
if_self true = refl
if_self false = refl

pub whole_bytes :
    (n : ℕ) (p : Bool) (v : List ℕ)
    → Shows (HasLength n) (replicate n 0) p v
    → IsWhole n v (if p then replicate n 0xff else replicate n 0)
whole_bytes n p v (inl (e, l)) = inl (l, rw e refl)
whole_bytes n p v (inr (e, z)) = inr (z, rw e refl)

pub whole_number8 :
    (p : Bool) (v : ℕ) → Shows (FitsIn 8) 0 p v → IsWholeNumber 8 v (if p then 0xff else 0)
whole_number8 p v (inl (e, l)) = inl (l, rw e refl)
whole_number8 p v (inr (e, z)) = inr (z, rw e refl)

pub whole_number16 :
    (p : Bool) (v : ℕ) → Shows (FitsIn 16) 0 p v → IsWholeNumber 16 v (if p then 0xffff else 0)
whole_number16 p v (inl (e, l)) = inl (l, rw e refl)
whole_number16 p v (inr (e, z)) = inr (z, rw e refl)

pub whole_bool : (p v : Bool) → Shows (λ b. Unit {0}) false p v → IsWholeBool v p
whole_bool p v (inl (e, u)) = inl e
whole_bool p v (inr (e, z)) = inr (z, e)

-- What is present is found again in the mask.
bytes_presence :
    (n : ℕ) (p : Bool)
    → all_bytes (replicate n 0xff) 0xff ≡ true
    → all_bytes (replicate n 0) 0xff ≡ false
    → all_bytes (if p then replicate n 0xff else replicate n 0) 0xff ≡ p
bytes_presence n true ones zeros = ones
bytes_presence n false ones zeros = zeros

presence8 : (p : Bool) → ((if p then 0xff else 0) == 0xff) ≡ p
presence8 true = refl
presence8 false = refl

presence16 : (p : Bool) → ((if p then 0xffff else 0) == 0xffff) ≡ p
presence16 true = refl
presence16 false = refl

pub presence_of-exact_mask : (p : TunnelAttrsPresence) → presence_of (exact_mask p) ≡ p
unfolding all_bytes
presence_of-exact_mask p = λ i. record {
  tunnel_id = bytes_presence 8 p.tunnel_id refl refl i;
  ipv4_src = bytes_presence 4 p.ipv4_src refl refl i;
  ipv4_dst = bytes_presence 4 p.ipv4_dst refl refl i;
  tos = presence8 p.tos i;
  ttl = presence8 p.ttl i;
  df = p.df;
  csum = p.csum;
  tp_src = presence16 p.tp_src i;
  tp_dst = presence16 p.tp_dst i;
}
