-- ===== src/Dpif.antt =====
-- odp/genetlink.go and odp/dpif.go: the generic netlink header and the OVS header behind the netlink
-- header; odp/datapath.go: DatapathHandle and the check of a message against it.
pub mod Exchange
pub mod Messages
pub mod Replies
pub mod Asks
pub mod Dumps
pub mod Events
use go_odp.Prelude.{
  ℕ, ◌%◌, ◌==◌, ltb, [], ◌∷◌, Bool, true, false, Option, none, some, Result, ok, err, wrong_cmd,
  wrong_datapath, ◌>>=◌, ◌||◌, if◌then◌else◌, write_at,
}
use go_odp.Memory.{at, read_u8, int32_at, u32_bytes}
use go_odp.Align.{alignto}
use go_odp.Builder.{NlMsgBuilder, align_grow}
use go_odp.Parser.{NlMsgParser, align_advance, expect_nl_msghdr}

-- The ids of the families, by DATAPATH, VPORT, FLOW and PACKET.
pub record Dpif : Type 0 where
  pub families : ℕ → ℕ

-- A DatapathID is an int32, here its bit pattern.
pub record DatapathHandle : Type 0 where
  pub dpif : Dpif
  pub ifindex : ℕ

abbrev pub datapath_family : ℕ
datapath_family = 0

abbrev pub vport_family : ℕ
vport_family = 1

abbrev pub flow_family : ℕ
flow_family = 2

abbrev pub packet_family : ℕ
packet_family = 3

abbrev pub sizeof_genl_msghdr : ℕ
sizeof_genl_msghdr = 4

abbrev pub sizeof_ovs_header : ℕ
sizeof_ovs_header = 4

-- Cmd and Version are its first two bytes.
unfoldable pub put_genl_msghdr : ℕ → ℕ → NlMsgBuilder → NlMsgBuilder
unfolding align_grow
put_genl_msghdr cmd version msg =
    let (pos, grown) = align_grow alignto sizeof_genl_msghdr msg in
    record { buf = write_at pos (cmd % 256 ∷ version % 256 ∷ []) grown.buf }

unfoldable pub put_ovs_header : ℕ → NlMsgBuilder → NlMsgBuilder
unfolding align_grow
put_ovs_header ifindex msg =
    let (pos, grown) = align_grow alignto sizeof_ovs_header msg in
    record { buf = write_at pos (u32_bytes ifindex) grown.buf }

-- A command of -1 is `none`.
abbrev pub cmd_matches : ℕ → Option ℕ → Bool
cmd_matches got none = false
cmd_matches got (some cmd) = got == cmd % 256

abbrev pub cmd_accepted : ℕ → Option ℕ → Option ℕ → Bool
cmd_accepted got none fallback = true
cmd_accepted got (some cmd) fallback = got == cmd % 256 || cmd_matches got fallback

-- The command of the header, and the parser behind it.
unfoldable pub check_genl_msghdr : Option ℕ → Option ℕ → NlMsgParser → Result (ℕ × NlMsgParser)
unfolding align_advance read_u8
check_genl_msghdr cmd fallback msg = do
  (pos, moved) ← align_advance alignto sizeof_genl_msghdr msg
  got ← at read_u8 moved.data_bytes moved.tail pos
  if cmd_accepted got cmd fallback then ok (got, moved) else err (wrong_cmd got)

unfoldable pub take_ovs_header : NlMsgParser → Result (ℕ × NlMsgParser)
unfolding align_advance int32_at
take_ovs_header msg = do
  (pos, moved) ← align_advance alignto sizeof_ovs_header msg
  ifindex ← int32_at moved.data_bytes moved.tail pos
  ok (ifindex, moved)

-- OVS_DP_CMD_NEW, OVS_VPORT_CMD_NEW and OVS_FLOW_CMD_NEW are 1.
unfoldable pub fallback_cmd : ℕ → Option ℕ
fallback_cmd family = if ltb family packet_family then some 1 else none

-- Dpif.checkNlMsgHeaders: the generic command and the ifindex, and the parser behind the headers.
unfoldable pub check_nl_msg_headers :
    Dpif → ℕ → Option ℕ → NlMsgParser → Result ((ℕ × ℕ) × NlMsgParser)
unfolding expect_nl_msghdr check_genl_msghdr take_ovs_header fallback_cmd
check_nl_msg_headers dpif family cmd msg = do
  (h, behind) ← expect_nl_msghdr (dpif.families family) msg
  (got, behind_genl) ← check_genl_msghdr cmd (fallback_cmd family) behind
  (ifindex, behind_ovs) ← take_ovs_header behind_genl
  ok ((got, ifindex), behind_ovs)

-- DatapathHandle.checkNlMsgHeaders.
unfoldable pub check_datapath_headers :
    DatapathHandle → ℕ → Option ℕ → NlMsgParser → Result NlMsgParser
unfolding check_nl_msg_headers
check_datapath_headers dp family cmd msg = do
  ((got, ifindex), behind) ← check_nl_msg_headers dp.dpif family cmd msg
  if ifindex == dp.ifindex then ok behind else err wrong_datapath
