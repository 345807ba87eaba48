-- ===== src/Tool/Commands.antt =====
-- tool/odp/main.go: commands, subcommands and how the arguments select one. A command's function has
-- the type `C`; an argument is its bytes.
use go_odp.Prelude.{
  ℕ, zero, suc, ◌+◌, ◌==◌, List, [], ◌∷◌, ◌++◌, Bool, true, false, ◌&&◌, Option, none, some,
  bytes_equal, if◌then◌else◌, ltb, length, take, drop,
}

-- The map of subcommands is an association list, in an order in which `range` may visit it. The command
-- of possibleSubcommands is always one of the type `command`.
mutual
  pub data CommandDispatch (C : Type 0) : Type 0 where
    command : C → CommandDispatch C
    subcommands : Subcommands C → CommandDispatch C
    possible_subcommands : C → Subcommands C → CommandDispatch C

  pub data Subcommands (C : Type 0) : Type 0 where
    no_more : Subcommands C
    entry : List ℕ → CommandDispatch C → Subcommands C → Subcommands C

-- strings.HasPrefix.
unfoldable pub has_prefix : List ℕ → List ℕ → Bool
has_prefix text [] = true
has_prefix [] (p ∷ prefix) = false
has_prefix (t ∷ text) (p ∷ prefix) = t == p && has_prefix text prefix

pub data Selected (C : Type 0) : Type 0 where
  matched : CommandDispatch C → Selected C
  unknown ambiguous : Selected C

-- The bytes of help.
abbrev pub help : List ℕ
help = b'h' ∷ b'e' ∷ b'l' ∷ b'p' ∷ []

-- The end of a run: a command with the arguments that are left, the usage, or a message.
pub data Run (C : Type 0) : Type 0 where
  runs : C → List (List ℕ) → Run C
  usage_shown subcommand_required unknown_command ambiguous_command : Run C

module _ {C : Type 0} where
  -- What the loop leaves in `match` and `matches`.
  abbrev pub selected : Option (CommandDispatch C) → ℕ → Selected C
  selected match zero = unknown
  selected none (suc n) = unknown
  selected (some cd) (suc zero) = matched cd
  selected (some cd) (suc (suc n)) = ambiguous

  -- The loop, which an exact match ends.
  unfoldable pub select_from : List ℕ → Subcommands C → Option (CommandDispatch C) → ℕ → Selected C
  unfolding bytes_equal has_prefix
  select_from arg no_more match matches = selected match matches
  select_from arg (entry name cd cmds) match matches =
      if bytes_equal name arg
      then matched cd
      else if has_prefix name arg
      then select_from arg cmds (some cd) (matches + 1)
      else select_from arg cmds match matches

  unfoldable pub select : List ℕ → Subcommands C → Selected C
  unfolding select_from
  select arg cmds = select_from arg cmds none 0

  -- subcommands.run behind the end of the arguments, and where an argument was looked up.
  abbrev run_selected : (CommandDispatch C → Run C) → List ℕ → Selected C → Run C
  run_selected next arg (matched cd) = if bytes_equal arg help then usage_shown else next cd
  run_selected next arg unknown = if bytes_equal arg help then usage_shown else unknown_command
  run_selected next arg ambiguous = if bytes_equal arg help then usage_shown else ambiguous_command

  -- The arguments are those from `pos` on.
  unfoldable pub run : List (List ℕ) → CommandDispatch C → Run C
  unfolding bytes_equal select
  run args (command c) = runs c args
  run [] (subcommands cmds) = subcommand_required
  run [] (possible_subcommands c cmds) = runs c []
  run (arg ∷ args) (subcommands cmds) = run_selected (λ cd. run args cd) arg (select arg cmds)
  run (arg ∷ args) (possible_subcommands c cmds) =
      run_selected (λ cd. run args cd) arg (select arg cmds)

-- findFirstOpt.
unfoldable pub is_option : List ℕ → Bool
is_option [] = false
is_option (c ∷ arg) = c == 45

unfoldable pub find_first_opt : List (List ℕ) → ℕ
unfolding is_option
find_first_opt [] = 0
find_first_opt (arg ∷ args) = if is_option arg then 0 else suc (find_first_opt args)

-- How Flags.Parse ends, with the arguments that are no options: the process may exit.
pub data Parsed : Type 0 where
  parsed : List (List ℕ) → Parsed
  excess_arguments insufficient_arguments : Parsed

-- `flag_args` is FlagSet.Parse with the arguments that it leaves.
unfoldable pub parse_flags : (List (List ℕ) → List (List ℕ)) → ℕ → ℕ → List (List ℕ) → Parsed
unfolding find_first_opt
parse_flags flag_args min_args max_args args =
    let first_opt = find_first_opt args in
    let left = take first_opt args ++ flag_args (drop first_opt args) in
    if ltb max_args (length left)
    then excess_arguments
    else if ltb (length left) min_args
    then insufficient_arguments
    else parsed left

-- The functions of the commands.
pub data Handler : Type 0 where
  list_datapaths add_datapath delete_datapath listen_on_datapath list_vports add_netdev_vport
        add_internal_vport add_vxlan_vport :
      Handler
  add_gre_vport add_geneve_vport delete_vport listen_for_vports add_flow delete_flow clear_flow
        list_flows :
      Handler

abbrev pub datapath_commands : Subcommands Handler
datapath_commands = entry (b'a' ∷ b'd' ∷ b'd' ∷ []) (command add_datapath) (
    entry (b'd' ∷ b'e' ∷ b'l' ∷ b'e' ∷ b't' ∷ b'e' ∷ []) (command delete_datapath) (
      entry (b'l' ∷ b'i' ∷ b's' ∷ b't' ∷ []) (command list_datapaths) (
        entry (b'l' ∷ b'i' ∷ b's' ∷ b't' ∷ b'e' ∷ b'n' ∷ []) (command listen_on_datapath)
          (no_more))))

abbrev pub vport_kinds : Subcommands Handler
vport_kinds = entry (b'n' ∷ b'e' ∷ b't' ∷ b'd' ∷ b'e' ∷ b'v' ∷ []) (command add_netdev_vport) (
    entry (b'i' ∷ b'n' ∷ b't' ∷ b'e' ∷ b'r' ∷ b'n' ∷ b'a' ∷ b'l' ∷ []) (command add_internal_vport)
      (entry (b'v' ∷ b'x' ∷ b'l' ∷ b'a' ∷ b'n' ∷ []) (command add_vxlan_vport) (
        entry (b'g' ∷ b'r' ∷ b'e' ∷ []) (command add_gre_vport) (
          entry (b'g' ∷ b'e' ∷ b'n' ∷ b'e' ∷ b'v' ∷ b'e' ∷ []) (command add_geneve_vport)
            (no_more)))))

abbrev pub vport_commands : Subcommands Handler
vport_commands = entry (b'a' ∷ b'd' ∷ b'd' ∷ []) (subcommands vport_kinds) (
    entry (b'd' ∷ b'e' ∷ b'l' ∷ b'e' ∷ b't' ∷ b'e' ∷ []) (command delete_vport) (
      entry (b'l' ∷ b'i' ∷ b's' ∷ b't' ∷ []) (command list_vports) (
        entry (b'l' ∷ b'i' ∷ b's' ∷ b't' ∷ b'e' ∷ b'n' ∷ []) (command listen_for_vports)
          (no_more))))

abbrev pub flow_commands : Subcommands Handler
flow_commands = entry (b'a' ∷ b'd' ∷ b'd' ∷ []) (command add_flow) (
    entry (b'd' ∷ b'e' ∷ b'l' ∷ b'e' ∷ b't' ∷ b'e' ∷ []) (command delete_flow) (
      entry (b'c' ∷ b'l' ∷ b'e' ∷ b'a' ∷ b'r' ∷ []) (command clear_flow)
        (entry (b'l' ∷ b'i' ∷ b's' ∷ b't' ∷ []) (command list_flows) (no_more))))

-- The table of the tool.
abbrev pub commands : Subcommands Handler
commands =
    entry (b'd' ∷ b'a' ∷ b't' ∷ b'a' ∷ b'p' ∷ b'a' ∷ b't' ∷ b'h' ∷ [])
      (possible_subcommands list_datapaths datapath_commands)
      (entry (b'v' ∷ b'p' ∷ b'o' ∷ b'r' ∷ b't' ∷ [])
        (possible_subcommands list_vports vport_commands)
        (entry (b'f' ∷ b'l' ∷ b'o' ∷ b'w' ∷ []) (subcommands flow_commands) (no_more)))
