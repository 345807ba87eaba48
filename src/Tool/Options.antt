-- ===== src/Tool/Options.antt =====
-- tool/odp/main.go: the options for tunnels of the flow commands. A text is its bytes.
use go_odp.Prelude.{
  ℕ, ◌%◌, ◌^◌, ◌==◌, List, [], ◌∷◌, Bool, true, false, not, ◌&&◌, ◌||◌, Option, none, some, Result,
  ok, err, bytes_equal, ◌>>=◌, if◌then◌else◌, length, invalid_ipv4, invalid_tunnel_id, not_boolean,
  mask_included,
}
use go_odp.Tunnel.{TunnelAttrs, TunnelAttrsPresence, no_tunnel_attrs, all_bytes}
use go_odp.Flow.Key.{TunnelFlowKey}
use go_odp.Flow.Action.{SetTunnelAction}
use go_odp.Flow.Setters.{
  key_set_tunnel_id, key_set_ipv4_src, key_set_ipv4_dst, key_set_tos, key_set_ttl, key_set_df,
  key_set_csum, key_set_tp_src, key_set_tp_dst,
}

-- An int of a flag, of which the code asks first whether it is negative.
pub data ℤ : Type 0 where
  pos : ℕ → ℤ
  negsuc : ℕ → ℤ

-- strings.Split at one byte.
unfoldable pub split_at : ℕ → List ℕ → List (List ℕ)
split_at sep [] = [] ∷ []
split_at sep (c ∷ text) = elim (split_at sep text) [
  | [] ↦ (c ∷ []) ∷ []
  | first ∷ rest ↦ if c == sep then [] ∷ first ∷ rest else (c ∷ first) ∷ rest
]

-- The bytes of a space.
abbrev space : ℕ
space = 32

abbrev set_all : Bool → List (List ℕ) → List (List ℕ × Bool) → List (List ℕ × Bool)
set_all value [] entries = entries
set_all value (text ∷ texts) entries = set_all value texts ((text, value) ∷ entries)

-- The map of makeBoolStrings: a later entry stands before an earlier one and hides it.
unfoldable pub make_bool_strings : List ℕ → List ℕ → List (List ℕ × Bool)
unfolding split_at
make_bool_strings true_strs false_strs =
    set_all false (split_at space false_strs) (set_all true (split_at space true_strs) [])

-- "1 t T true TRUE True" and "0 f F false FALSE False".
abbrev pub true_texts : List ℕ
true_texts =
    b'1' ∷ 32 ∷ b't' ∷ 32 ∷ b'T' ∷ 32 ∷ b't' ∷ b'r' ∷ b'u' ∷ b'e' ∷ 32 ∷ b'T' ∷ b'R' ∷ b'U' ∷ b'E'
    ∷ 32 ∷ b'T' ∷ b'r' ∷ b'u' ∷ b'e' ∷ []

abbrev pub false_texts : List ℕ
false_texts =
    b'0' ∷ 32 ∷ b'f' ∷ 32 ∷ b'F' ∷ 32 ∷ b'f' ∷ b'a' ∷ b'l' ∷ b's' ∷ b'e' ∷ 32 ∷ b'F' ∷ b'A' ∷ b'L'
    ∷ b'S' ∷ b'E' ∷ 32 ∷ b'F' ∷ b'a' ∷ b'l' ∷ b's' ∷ b'e' ∷ []

unfoldable pub bool_of : List ℕ → List (List ℕ × Bool) → Option Bool
unfolding bytes_equal
bool_of text [] = none
bool_of text ((key, value) ∷ entries) =
    if bytes_equal key text then some value else bool_of text entries

unfoldable pub parse_bool : List ℕ → Result Bool
unfolding bool_of make_bool_strings
parse_bool text = elim (bool_of text (make_bool_strings true_texts false_texts)) [
  | some b ↦ ok b
  | none ↦ err (not_boolean text)
]

-- The values of the flags of a tunnel. A text that is not given is empty, and an int is negative.
pub record TunnelFlags : Type 0 where
  pub id : List ℕ
  pub ipv4_src : List ℕ
  pub ipv4_dst : List ℕ
  pub tos : ℤ
  pub ttl : ℤ
  pub df : List ℕ
  pub csum : List ℕ
  pub tp_src : ℤ
  pub tp_dst : ℤ

-- A flag that is given as a text, or as an int of `w` bits.
abbrev pub with_text :
    {A : Type 0}
    → List ℕ
    → (List ℕ → Result A)
    → (A → TunnelFlowKey → TunnelFlowKey)
    → TunnelFlowKey
    → Result TunnelFlowKey
with_text [] parse set fk = ok fk
with_text (c ∷ text) parse set fk = do a ← parse (c ∷ text); ok (set a fk)

abbrev pub with_int : ℕ → ℤ → (ℕ → TunnelFlowKey → TunnelFlowKey) → TunnelFlowKey → TunnelFlowKey
with_int w (pos n) set fk = set (n % 2 ^ w) fk
with_int w (negsuc n) set fk = fk

-- What presence is asked of: whether the mask is exact, else whether it is ignored.
abbrev pub mask_left : Bool → Bool → Bool
mask_left exact ignored = not exact && not ignored

abbrev pub new_tunnel_flow_key : TunnelFlowKey
new_tunnel_flow_key = record { key = no_tunnel_attrs; mask = no_tunnel_attrs }

-- Present, and whether `foundMask` was set.
abbrev pub presence_of : TunnelAttrs → TunnelAttrsPresence
presence_of m = record {
  tunnel_id = all_bytes m.tunnel_id 0xff;
  ipv4_src = all_bytes m.ipv4_src 0xff;
  ipv4_dst = all_bytes m.ipv4_dst 0xff;
  tos = m.tos == 0xff;
  ttl = m.ttl == 0xff;
  df = m.df;
  csum = m.csum;
  tp_src = m.tp_src == 0xffff;
  tp_dst = m.tp_dst == 0xffff;
}

abbrev pub found_mask : TunnelAttrs → Bool
found_mask m =
    mask_left (all_bytes m.tunnel_id 0xff) (all_bytes m.tunnel_id 0)
    || mask_left (all_bytes m.ipv4_src 0xff) (all_bytes m.ipv4_src 0)
    || mask_left (all_bytes m.ipv4_dst 0xff) (all_bytes m.ipv4_dst 0)
    || mask_left (m.tos == 0xff) (m.tos == 0)
    || mask_left (m.ttl == 0xff) (m.ttl == 0)
    || mask_left (m.tp_src == 0xffff) (m.tp_src == 0)
    || mask_left (m.tp_dst == 0xffff) (m.tp_dst == 0)

abbrev pub any_present : TunnelAttrsPresence → Bool
any_present p =
    p.tunnel_id || p.ipv4_src || p.ipv4_dst || p.tos || p.ttl || p.df || p.csum || p.tp_src
    || p.tp_dst

-- A nil action where no option is given.
unfoldable pub set_tunnel_of : TunnelFlowKey → Result (Option SetTunnelAction)
unfolding all_bytes
set_tunnel_of fk =
    let p = presence_of fk.mask in
    if found_mask fk.mask
    then err mask_included
    else if any_present p
    then ok (some (record { attrs = fk.key; present = p }))
    else ok none

-- `net_ipv4` is net.ParseIP with To4, and `hex_bytes` hex.DecodeString; none is a nil address or an
-- error.
module _ (net_ipv4 hex_bytes : List ℕ → Option (List ℕ)) where
  unfoldable pub parse_ipv4 : List ℕ → Result (List ℕ)
  parse_ipv4 text = elim (net_ipv4 text) [
    | some ip ↦ if length ip == 4 then ok ip else err (invalid_ipv4 text)
    | none ↦ err (invalid_ipv4 text)
  ]

  unfoldable pub parse_tunnel_id : List ℕ → Result (List ℕ)
  parse_tunnel_id text = elim (hex_bytes text) [
    | some id ↦ if length id == 8 then ok id else err (invalid_tunnel_id text)
    | none ↦ err (invalid_tunnel_id text)
  ]

  unfoldable pub parse_tunnel_flags : TunnelFlags → Result TunnelFlowKey
  unfolding parse_tunnel_id parse_ipv4 parse_bool key_set_tunnel_id key_set_ipv4_src
      key_set_ipv4_dst key_set_tos key_set_ttl key_set_df key_set_csum key_set_tp_src key_set_tp_dst
  parse_tunnel_flags tf = do
    with_id ← with_text tf.id parse_tunnel_id key_set_tunnel_id new_tunnel_flow_key
    with_src ← with_text tf.ipv4_src parse_ipv4 key_set_ipv4_src with_id
    with_dst ← with_text tf.ipv4_dst parse_ipv4 key_set_ipv4_dst with_src
    let with_ttl = with_int 8 tf.ttl key_set_ttl (with_int 8 tf.tos key_set_tos with_dst)
    with_df ← with_text tf.df parse_bool key_set_df with_ttl
    with_csum ← with_text tf.csum parse_bool key_set_csum with_df
    ok (with_int 16 tf.tp_dst key_set_tp_dst (with_int 16 tf.tp_src key_set_tp_src with_csum))

  unfoldable pub parse_set_tunnel_flags : TunnelFlags → Result (Option SetTunnelAction)
  unfolding parse_tunnel_flags set_tunnel_of
  parse_set_tunnel_flags tf = parse_tunnel_flags tf >>= set_tunnel_of
