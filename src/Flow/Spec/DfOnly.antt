-- ===== src/Flow/Spec/DfOnly.antt =====
-- odp/flow.go: a flow whose tunnel key matches on Df alone, as TunnelFlowKey.Ignored takes it.
use go_odp.Prelude.{
  ℕ, ◌==◌, ◌≡◌, refl, ap, [], ◌∷◌, Bool, true, false, ◌≢◌, Option, some, none, Error, Bool-cases,
  inl, inr,
}
use go_odp.Prelude.Map.{lookup, insert, lookup-insert}
use go_odp.Tunnel.{no_tunnel_attrs, all_bytes}
use go_odp.Builder.{NlMsgBuilder, put_nested_attrs, put_nested_attrs_with}
use go_odp.Flow.Blob.{new_ethernet_flow_key}
use go_odp.Flow.Key.{FlowKey, tunnel, ethernet, type_id, ignored, tunnel_ignored}
use go_odp.Flow.Keys.{
  FlowKeys, put_keys, put_masks, default_ethernet, put_default_key, put_default_mask,
  keys_to_nl_attrs,
}
use go_odp.Flow.Setters.{key_set_df}
use go_odp.Flow.Spec.{FlowSpec, add_key, put_spec_actions, spec_to_nl_attrs}

not_first :
    (id other : ℕ) (old : FlowKey) (fks : FlowKeys)
    → lookup id ((other, old) ∷ fks) ≡ none
    → ((other == id) ≡ false) × (lookup id fks ≡ none)
unfolding lookup
not_first id other old fks h = elim (Bool-cases (other == id)) [
  | inl y ↦ absurd (no_value (rw y at h))
  | inr n ↦ (n, rw n at h)
]
  where
    no_value : some old ≢ none
    no_value e = cc

module _ (k : FlowKey) (skipped : ignored k ≡ true) (id : ℕ) where
  put_keys-skip :
      (fks : FlowKeys) (msg : NlMsgBuilder)
      → lookup id fks ≡ none
      → put_keys (insert id k fks) msg ≡ put_keys fks msg
  unfolding put_keys lookup insert
  put_keys-skip [] msg h = rw skipped refl
  put_keys-skip ((other, old) ∷ fks) msg h =
      let (different, missing) = not_first id other old fks h in
      rw different (put_keys-skip fks _ missing)

  put_masks-skip :
      (fks : FlowKeys) (state : NlMsgBuilder × Option Error)
      → lookup id fks ≡ none
      → put_masks (insert id k fks) state ≡ put_masks fks state
  unfolding put_masks lookup insert
  put_masks-skip [] state h = rw skipped refl
  put_masks-skip ((other, old) ∷ fks) state h =
      let (different, missing) = not_first id other old fks h in
      rw different (put_masks-skip fks _ missing)

-- A tunnel key on which SetDf is the only setter that was called.
abbrev pub df_only : Bool → FlowKey
df_only df = tunnel (key_set_df df (record { key = no_tunnel_attrs; mask = no_tunnel_attrs }))

df_only-ignored : (df : Bool) → ignored (df_only df) ≡ true
unfolding ignored tunnel_ignored key_set_df all_bytes
df_only-ignored df = refl

same_default :
    (k : FlowKey) (fks : FlowKeys) → default_ethernet (insert 16 k fks) ≡ default_ethernet fks
same_default k fks =
    ap
      (λ (found : Option FlowKey). elim found [
        | none ↦ some (ethernet new_ethernet_flow_key)
        | some old ↦ none
      ])
      (lookup-insert 16 4 k fks)

-- Let a flow have no tunnel key. Then with a tunnel key that matches on Df alone it is written exactly
-- as without it: the match is lost.
pub spec_to_nl_attrs-df_only :
    (df : Bool) (f : FlowSpec) (msg : NlMsgBuilder)
    → lookup 16 f.flow_keys ≡ none
    → spec_to_nl_attrs (add_key (df_only df) f) msg ≡ spec_to_nl_attrs f msg
unfolding spec_to_nl_attrs keys_to_nl_attrs add_key type_id
spec_to_nl_attrs-df_only df f msg missing =
    let fks = f.flow_keys in
    let skipped = df_only-ignored df in
    let default = same_default (df_only df) fks in
    λ i. put_spec_actions f.actions (
      put_nested_attrs_with 7
        (λ m.
          put_default_mask (default i)
            (put_masks-skip (df_only df) skipped 16 fks (m, none) missing i))
        (put_nested_attrs 1
          (λ m. put_default_key (default i) (put_keys-skip (df_only df) skipped 16 fks m missing i))
          msg))
