-- ===== src/Dpif/Messages.antt =====
-- A message of an Open vSwitch family: its three headers and its attributes.
use go_odp.Prelude.{
  ℕ, ◌+◌, ◌%◌, ◌≤◌, ◌<◌, ◌≡◌, refl, List, ◌∷◌, ◌++◌, ok, length, length-append, All, arith, ==_self,
  ltb-false,
}
use go_odp.Align.{align, align_four}
use go_odp.Memory.{u16_bytes, u32_bytes}
use go_odp.Format.{Attr, Fits, encode}
use go_odp.Parser.{NlMsgParser, check_available, advance, align_advance, expect_nl_msghdr}
use go_odp.Session.Packets.{Message, IsMessage, message_bytes, parser_at, header_of}
use go_odp.Session.Responses.{nl_msghdr-parser_at}

-- A message of a family: the fields of its headers, and its attributes.
pub record OvsMessage : Type 0 where
  pub typ : ℕ
  pub flags : ℕ
  pub seq : ℕ
  pub pid : ℕ
  pub cmd : ℕ
  pub version : ℕ
  pub ifindex : ℕ
  pub attrs : List Attr

abbrev pub ovs_headers : OvsMessage → List ℕ
ovs_headers m = m.cmd ∷ m.version ∷ 0 ∷ 0 ∷ u32_bytes m.ifindex

abbrev pub message_of : OvsMessage → Message
message_of m = record {
  typ = m.typ;
  flags = m.flags;
  seq = m.seq;
  pid = m.pid;
  body = ovs_headers m ++ encode 0 m.attrs;
}

pub record IsOvsMessage (m : OvsMessage) : Type 0 where
  pub valid : IsMessage (message_of m)
  pub ifindex_fits : m.ifindex < 4294967296
  pub attrs_fit : All Fits m.attrs

-- The bytes of a message before its attributes.
abbrev pub front : OvsMessage → List ℕ
front m =
    let len = 16 + length (message_of m).body in
    u32_bytes len
    ++ (u16_bytes m.typ
        ++ (u16_bytes m.flags ++ (u32_bytes m.seq ++ (u32_bytes m.pid ++ ovs_headers m))))

-- The parser behind the three headers.
abbrev pub behind_headers : List ℕ → OvsMessage → List ℕ → NlMsgParser
behind_headers pre m behind = record {
  data_bytes = pre ++ message_bytes (message_of m);
  tail = behind;
  pos = length pre + 24;
}

pub message_size :
    (pre : List ℕ) (m : OvsMessage) → length pre + 24 ≤ length (pre ++ message_bytes (message_of m))
message_size pre m = omega (arith, length-append pre (message_bytes (message_of m)))

pub advance-within :
    (size pos : ℕ) (bytes behind : List ℕ)
    → pos + size ≤ length bytes
    → advance size (record { data_bytes = bytes; tail = behind; pos = pos })
      ≡ ok (record { data_bytes = bytes; tail = behind; pos = pos + size })
unfolding advance check_available
advance-within size pos bytes behind h = rw (ltb-false (length bytes) (pos + size) h) refl

pub align_advance-within :
    (size pos : ℕ) (bytes behind : List ℕ)
    → pos % 4 ≡ 0
    → pos + size ≤ length bytes
    → align_advance 4 size (record { data_bytes = bytes; tail = behind; pos = pos })
      ≡ ok (pos, record { data_bytes = bytes; tail = behind; pos = pos + size })
unfolding align_advance
align_advance-within size pos bytes behind words h =
    let aligned : align pos 4 ≡ pos = omega (arith, align_four pos, words) in
    rw aligned (rw (advance-within size pos bytes behind h) refl)

pub expect_nl_msghdr-message :
    (pre : List ℕ) (m : OvsMessage) (behind : List ℕ)
    → IsOvsMessage m
    → expect_nl_msghdr m.typ (parser_at pre (message_of m) behind)
      ≡ ok (
        header_of (message_of m),
        record {
          data_bytes = pre ++ message_bytes (message_of m);
          tail = behind;
          pos = length pre + 16;
        },
      )
unfolding expect_nl_msghdr
expect_nl_msghdr-message pre m behind h =
    rw
      (
        nl_msghdr-parser_at pre (message_of m) behind h.valid,
        advance-within 16 (length pre) (pre ++ message_bytes (message_of m)) behind
            (omega (arith, message_size pre m)),
        ==_self m.typ,
      )
      refl
