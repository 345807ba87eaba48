-- ===== src/Family.antt =====
-- odp/genetlink.go: LookupGenlFamily; odp/dpif.go: the families of a Dpif. The socket call and the ioctl
-- that may load the kernel module are counted.
pub mod Calls
pub mod Groups
use go_odp.Prelude.{
  ℕ, ◌+◌, ◌==◌, List, [], ◌∷◌, ◌++◌, Bool, true, false, Option, none, some, Result, ok, err, panic,
  wild, out_of_fuel, Error, netlink_error, no_mc_group, family_unavailable, bytes_equal, ◌>>=◌,
  if◌then◌else◌,
}
use go_odp.Builder.{NlMsgBuilder, new_nl_msg_builder, finish, put_string_attr}
use go_odp.Parser.{NlMsgParser, expect_nl_msghdr}
use go_odp.Attrs.{
  Attrs, take_attrs, get_uint16, get_uint32, get_string, get_nested_attrs, parse_nested_attrs,
}
use go_odp.Session.{Received, request}
use go_odp.Dpif.{put_genl_msghdr, check_genl_msghdr}
use go_odp.Dpif.Exchange.{Socket, Answer, answered, no_answer, ask, request_flags}
use go_odp.Dpif.Asks.{sent_seq}

abbrev pub genl_id_ctrl : ℕ
genl_id_ctrl = 16

abbrev pub ctrl_cmd_newfamily : ℕ
ctrl_cmd_newfamily = 1

abbrev pub ctrl_cmd_getfamily : ℕ
ctrl_cmd_getfamily = 3

abbrev pub ctrl_attr_family_id : ℕ
ctrl_attr_family_id = 1

abbrev pub ctrl_attr_family_name : ℕ
ctrl_attr_family_name = 2

abbrev pub ctrl_attr_mcast_groups : ℕ
ctrl_attr_mcast_groups = 7

abbrev pub ctrl_attr_mcast_grp_name : ℕ
ctrl_attr_mcast_grp_name = 1

abbrev pub ctrl_attr_mcast_grp_id : ℕ
ctrl_attr_mcast_grp_id = 2

-- A map[string]uint32. A nil map has no entries.
abbrev pub McGroups : Type 0
McGroups = List (List ℕ × ℕ)

pub record GenlFamily : Type 0 where
  pub id : ℕ
  pub mc_groups : McGroups

unfoldable pub group_of : List ℕ → McGroups → Option ℕ
unfolding bytes_equal
group_of name [] = none
group_of name ((key, id) ∷ groups) = if bytes_equal key name then some id else group_of name groups

unfoldable pub put_group : List ℕ → ℕ → McGroups → McGroups
unfolding bytes_equal
put_group name id [] = (name, id) ∷ []
put_group name id ((key, old) ∷ groups) =
    if bytes_equal key name then (name, id) ∷ groups else (key, old) ∷ put_group name id groups

unfoldable pub parse_group : List ℕ → Result (List ℕ × ℕ)
unfolding parse_nested_attrs get_uint32 get_string
parse_group val = do
  attrs ← parse_nested_attrs val
  id ← get_uint32 ctrl_attr_mcast_grp_id attrs
  name ← get_string ctrl_attr_mcast_grp_name attrs
  ok (name, id)

-- The loop over the groups.
unfoldable pub parse_groups : Attrs → McGroups → Result McGroups
unfolding parse_group put_group
parse_groups [] groups = ok groups
parse_groups ((typ, val) ∷ attrs) groups = do
  (name, id) ← parse_group val
  parse_groups attrs (put_group name id groups)

abbrev groups_or_nil : Option Attrs → Result McGroups
groups_or_nil none = ok []
groups_or_nil (some attrs) = parse_groups attrs []

unfoldable pub genl_family_of : Attrs → Result GenlFamily
unfolding get_uint16 get_nested_attrs parse_groups
genl_family_of attrs = do
  id ← get_uint16 ctrl_attr_family_id attrs
  nested ← get_nested_attrs ctrl_attr_mcast_groups true attrs
  groups ← groups_or_nil nested
  ok (record { id = id; mc_groups = groups })

unfoldable pub parse_genl_family : NlMsgParser → Result GenlFamily
unfolding expect_nl_msghdr check_genl_msghdr take_attrs genl_family_of
parse_genl_family resp = do
  (h, behind) ← expect_nl_msghdr genl_id_ctrl resp
  (cmd, moved) ← check_genl_msghdr (some ctrl_cmd_getfamily) (some ctrl_cmd_newfamily) behind
  (attrs, end) ← take_attrs moved
  genl_family_of attrs

unfoldable pub family_request : List ℕ → NlMsgBuilder
unfolding new_nl_msg_builder put_genl_msghdr put_string_attr
family_request name =
    put_string_attr ctrl_attr_family_name name
      (put_genl_msghdr ctrl_cmd_getfamily 0 (new_nl_msg_builder request_flags genl_id_ctrl))

unfoldable pub lookup_genl_family : List ℕ → Socket → Option (List ℕ) × Answer GenlFamily
unfolding finish request family_request parse_genl_family
lookup_genl_family name sock = ask sock (family_request name) parse_genl_family

unfoldable pub is_kernel_lacks_odp_error : Error → Bool
is_kernel_lacks_odp_error (family_unavailable name) = true
is_kernel_lacks_odp_error _ = false

abbrev enoent : ℕ
enoent = 2

unfoldable pub is_enoent : Error → Bool
is_enoent (netlink_error n) = n == enoent
is_enoent _ = false

-- triedLoadOpvenswitchModule, and how often the loading was tried.
pub record Loader : Type 0 where
  pub tried : Bool
  pub attempts : ℕ

unfoldable pub load_openvswitch_module : Loader → Loader
load_openvswitch_module l =
    if l.tried then l else record { tried = true; attempts = l.attempts + 1 }

-- How a call ends that may load the module: its result, what is still to be received and the loader,
-- or the wait for a response.
pub data Loaded (A : Type 0) : Type 0 where
  ended : Result A → Socket → Loader → Loaded A
  no_end : Loader → Loaded A

abbrev pub socket_behind : Socket → List Received → Socket
socket_behind sock rest = record sock { last_seq = sent_seq sock; received = rest }

abbrev again_failed : List ℕ → Error → Error
again_failed name e = if is_enoent e then family_unavailable name else e

abbrev pub second_try : List ℕ → Socket → Loader → Answer GenlFamily → Loaded GenlFamily
second_try name sock l (answered (err e) rest) =
    ended (err (again_failed name e)) (socket_behind sock rest) l
second_try name sock l (answered r rest) = ended r (socket_behind sock rest) l
second_try name sock l no_answer = no_end l

abbrev pub first_try : List ℕ → Socket → Loader → Answer GenlFamily → Loaded GenlFamily
first_try name sock l (answered (err e) rest) =
    let next = socket_behind sock rest in
    let loaded = load_openvswitch_module l in
    if is_enoent e
    then second_try name next loaded (lookup_genl_family name next).1
    else ended (err e) next l
first_try name sock l (answered r rest) = ended r (socket_behind sock rest) l
first_try name sock l no_answer = no_end l

unfoldable pub lookup_family : List ℕ → Socket → Loader → Loaded GenlFamily
unfolding lookup_genl_family load_openvswitch_module is_enoent
lookup_family name sock l = first_try name sock l (lookup_genl_family name sock).1

-- The bytes of ovs_datapath, ovs_vport, ovs_flow and ovs_packet.
abbrev pub family_names : List (List ℕ)
family_names =
    (b'o' ∷ b'v' ∷ b's' ∷ b'_' ∷ b'd' ∷ b'a' ∷ b't' ∷ b'a' ∷ b'p' ∷ b'a' ∷ b't' ∷ b'h' ∷ [])
    ∷ (b'o' ∷ b'v' ∷ b's' ∷ b'_' ∷ b'v' ∷ b'p' ∷ b'o' ∷ b'r' ∷ b't' ∷ [])
    ∷ (b'o' ∷ b'v' ∷ b's' ∷ b'_' ∷ b'f' ∷ b'l' ∷ b'o' ∷ b'w' ∷ [])
    ∷ (b'o' ∷ b'v' ∷ b's' ∷ b'_' ∷ b'p' ∷ b'a' ∷ b'c' ∷ b'k' ∷ b'e' ∷ b't' ∷ [])
    ∷ []

abbrev pub next_family :
    List GenlFamily
    → (List GenlFamily → Socket → Loader → Loaded (List GenlFamily))
    → Loaded GenlFamily
    → Loaded (List GenlFamily)
next_family families again (ended (ok family) sock l) = again (families ++ (family ∷ [])) sock l
next_family families again (ended (err e) sock l) = ended (err e) sock l
next_family families again (ended panic sock l) = ended panic sock l
next_family families again (ended wild sock l) = ended wild sock l
next_family families again (ended out_of_fuel sock l) = ended out_of_fuel sock l
next_family families again (no_end l) = no_end l

-- The loop of NewDpif over the names; the socket is closed on an error.
unfoldable pub lookup_families :
    List (List ℕ) → List GenlFamily → Socket → Loader → Loaded (List GenlFamily)
unfolding lookup_family
lookup_families [] families sock l = ended (ok families) sock l
lookup_families (name ∷ names) families sock l =
    next_family families (λ found next k. lookup_families names found next k)
      (lookup_family name sock l)

unfoldable pub new_dpif : Socket → Loader → Loaded (List GenlFamily)
unfolding lookup_families
new_dpif sock l = lookup_families family_names [] sock l

-- dpif.families[family].mcGroups[name].
unfoldable pub get_mc_group : GenlFamily → ℕ → List ℕ → Result ℕ
unfolding group_of
get_mc_group family number name = elim (group_of name family.mc_groups) [
  | some id ↦ ok id
  | none ↦ err (no_mc_group number)
]
