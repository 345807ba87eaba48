-- ===== src/Tool/Selection.antt =====
-- Which subcommand an argument selects.
use go_odp.Prelude.{
  ℕ, ◌+◌, ◌≡◌, refl, ap, ◌∙◌, sym, List, [], ◌∷◌, ◌++◌, append_assoc, append-nil, Option, none,
  some, bytes_equal, if◌then◌else◌, length, length-append, Bool-cases, inl, inr,
}
use go_odp.Tool.Commands.{
  CommandDispatch, Subcommands, no_more, entry, has_prefix, Selected, matched, unknown, ambiguous,
  selected, select_from, select,
}

module _ {C : Type 0} where
  -- The subcommand of exactly this name.
  unfoldable pub exactly : List ℕ → Subcommands C → Option (CommandDispatch C)
  exactly arg no_more = none
  exactly arg (entry name cd cmds) = if bytes_equal name arg then some cd else exactly arg cmds

  -- The subcommands whose names start with the argument.
  unfoldable pub candidates : List ℕ → Subcommands C → List (CommandDispatch C)
  candidates arg no_more = []
  candidates arg (entry name cd cmds) =
      if has_prefix name arg then cd ∷ candidates arg cmds else candidates arg cmds

  abbrev pub only_one : List (CommandDispatch C) → Selected C
  only_one [] = unknown
  only_one (cd ∷ []) = matched cd
  only_one (cd ∷ other ∷ more) = ambiguous

  abbrev pub by_name : Option (CommandDispatch C) → List (CommandDispatch C) → Selected C
  by_name (some cd) found = matched cd
  by_name none found = only_one found

  abbrev last_of : List (CommandDispatch C) → Option (CommandDispatch C)
  last_of [] = none
  last_of (cd ∷ []) = some cd
  last_of (cd ∷ other ∷ more) = last_of (other ∷ more)

  last_of-append :
      (found : List (CommandDispatch C)) (cd : CommandDispatch C)
      → last_of (found ++ (cd ∷ [])) ≡ some cd
  last_of-append [] cd = refl
  last_of-append (first ∷ []) cd = refl
  last_of-append (first ∷ other ∷ more) cd = last_of-append (other ∷ more) cd

  last_of-cons :
      (cd : CommandDispatch C) (more : List (CommandDispatch C))
      → (end : CommandDispatch C) × (last_of (cd ∷ more) ≡ some end)
  last_of-cons cd [] = (cd, refl)
  last_of-cons cd (other ∷ more) = last_of-cons other more

  selected-only_one :
      (found : List (CommandDispatch C)) → selected (last_of found) (length found) ≡ only_one found
  selected-only_one [] = refl
  selected-only_one (cd ∷ []) = refl
  selected-only_one (cd ∷ other ∷ more) = rw ((last_of-cons other more).1) refl

  select_from-by_name :
      (arg : List ℕ) (cmds : Subcommands C) (found : List (CommandDispatch C))
      → select_from arg cmds (last_of found) (length found)
        ≡ by_name (exactly arg cmds) (found ++ candidates arg cmds)
  unfolding select_from exactly candidates
  select_from-by_name arg no_more found =
      selected-only_one found ∙ ap only_one (sym (append-nil found))
  select_from-by_name arg (entry name cd cmds) found = elim (Bool-cases (bytes_equal name arg)) [
    | inl e ↦ rw e refl
    | inr n ↦ rw n (elim (Bool-cases (has_prefix name arg)) [
      | inr missing ↦ rw missing (select_from-by_name arg cmds found)
      | inl starts ↦
          let more = found ++ (cd ∷ []) in
          let counted : length more ≡ length found + 1 = length-append found (cd ∷ []) in
          rw starts (
            ap (λ (o : Option (CommandDispatch C)). select_from arg cmds o (length found + 1))
              (sym (last_of-append found cd))
            ∙ ap (λ (n : ℕ). select_from arg cmds (last_of more) n) (sym counted)
            ∙ select_from-by_name arg cmds more
            ∙ ap (by_name (exactly arg cmds)) (append_assoc found (cd ∷ []) (candidates arg cmds)))
    ])
  ]

  -- In whatever order the map of subcommands is visited, the loop selects the subcommand whose name is
  -- the argument where there is one, else the one whose name starts with the argument where there is
  -- exactly one, and else it tells no candidate from several.
  pub select-by_name :
      (arg : List ℕ) (cmds : Subcommands C)
      → select arg cmds ≡ by_name (exactly arg cmds) (candidates arg cmds)
  unfolding select
  select-by_name arg cmds = select_from-by_name arg cmds []
