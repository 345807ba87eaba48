-- ===== src/Session/Packets.antt =====
-- Netlink messages packed into a datagram, and nextNlMsg over them.
use go_odp.Prelude.{
  ℕ, ◌+◌, ◌-◌, ◌%◌, ◌<◌, ◌≡◌, refl, sym, ap, ◌∙◌, List, [], ◌∷◌, ◌++◌, append_assoc, append-nil,
  none, some, ok, length, length-append, length-replicate, take, drop, take-append, drop-append,
  leb-true, leb-false, ltb-false, arith,
}
use go_odp.Align.{align, align_four}
use go_odp.Memory.{u16_bytes, u32_bytes}
use go_odp.Memory.Codec.{at-append}
use go_odp.Format.{padding, zeros}
use go_odp.Parser.{NlMsgParser, NlMsghdr, nl_msghdr, nl_msghdr_at, read_nl_msghdr, next_nl_msg}

-- A netlink message: the fields of its header, and its body.
pub record Message : Type 0 where
  pub typ : ℕ
  pub flags : ℕ
  pub seq : ℕ
  pub pid : ℕ
  pub body : List ℕ

pub record IsMessage (m : Message) : Type 0 where
  pub typ_fits : m.typ < 65536
  pub flags_fits : m.flags < 65536
  pub seq_fits : m.seq < 4294967296
  pub pid_fits : m.pid < 4294967296
  pub len_fits : 16 + length m.body < 4294967296

abbrev pub message_bytes : Message → List ℕ
message_bytes m =
    u32_bytes (16 + length m.body)
    ++ (u16_bytes m.typ ++ (u16_bytes m.flags ++ (u32_bytes m.seq ++ (u32_bytes m.pid ++ m.body))))

abbrev pub header_of : Message → NlMsghdr
header_of m = record {
  len = 16 + length m.body;
  typ = m.typ;
  flags = m.flags;
  seq = m.seq;
  pid = m.pid;
}

-- What fills a message up to a whole word.
abbrev pub pad_of : Message → List ℕ
pad_of m = zeros (padding (length (message_bytes m)))

-- Messages one behind the other, each filled up.
abbrev pub packed : List Message → List ℕ
packed [] = []
packed (m ∷ ms) = message_bytes m ++ (pad_of m ++ packed ms)

-- The parser with which a consumer is called: the datagram up to the end of the message, at its
-- start.
abbrev pub parser_at : List ℕ → Message → List ℕ → NlMsgParser
parser_at pre m behind = record {
  data_bytes = pre ++ message_bytes m;
  tail = behind;
  pos = length pre;
}

abbrev pub filled : List ℕ → Message → List ℕ
filled pre m = pre ++ (message_bytes m ++ pad_of m)

read_header :
    (m : Message) (rest : List ℕ)
    → IsMessage m
    → read_nl_msghdr (message_bytes m ++ rest) ≡ ok (header_of m)
unfolding read_nl_msghdr
read_header m rest h =
    let a = h.typ_fits in
    let b = h.flags_fits in
    let c = h.seq_fits in let d = h.pid_fits in let e = h.len_fits in ground arith

pub nl_msghdr-message :
    (pre : List ℕ) (m : Message) (post tail : List ℕ)
    → IsMessage m
    → nl_msghdr
        (record { data_bytes = pre ++ (message_bytes m ++ post); tail = tail; pos = length pre })
      ≡ ok (header_of m)
unfolding nl_msghdr nl_msghdr_at
nl_msghdr-message pre m post tail h =
    at-append read_nl_msghdr pre (message_bytes m ++ post) tail (length pre) refl (omega arith)
    ∙ ap read_nl_msghdr (append_assoc (message_bytes m) post tail)
    ∙ read_header m (post ++ tail) h

-- The parser of the datagram, behind what was handed out.
abbrev pub resp_at : List ℕ → List ℕ → List ℕ → NlMsgParser
resp_at pre post tail = record { data_bytes = pre ++ post; tail = tail; pos = length pre }

pub cut_message :
    (pre : List ℕ) (m : Message) (post tail : List ℕ) (end : ℕ)
    → end ≡ length (pre ++ message_bytes m)
    → (take end (pre ++ (message_bytes m ++ post)) ≡ pre ++ message_bytes m)
      × (drop end (pre ++ (message_bytes m ++ post)) ≡ post)
cut_message pre m post tail end e = rw (← append_assoc pre (message_bytes m) post) (
  take-append end (pre ++ message_bytes m) post e,
  drop-append end (pre ++ message_bytes m) post e,
)

pub length-filled :
    (pre : List ℕ) (m : Message)
    → length pre % 4 ≡ 0
    → align (length pre + (16 + length m.body)) 4 ≡ length (filled pre m)
length-filled pre m words = omega (
  arith,
  align_four (length pre + (16 + length m.body)),
  length-append pre (message_bytes m ++ pad_of m),
  length-append (message_bytes m) (pad_of m),
  length-replicate {A = ℕ} (padding (length (message_bytes m))) 0,
)

pub filled-words : (pre : List ℕ) (m : Message) → length pre % 4 ≡ 0 → length (filled pre m) % 4 ≡ 0
filled-words pre m words =
    omega (arith, length-filled pre m words, align_four (length pre + (16 + length m.body)))

pub next_nl_msg-message :
    (pre : List ℕ) (m : Message) (post tail : List ℕ)
    → IsMessage m
    → length pre % 4 ≡ 0
    → next_nl_msg (resp_at pre (message_bytes m ++ (pad_of m ++ post)) tail)
      ≡ ok (some (parser_at pre m ((pad_of m ++ post) ++ tail)), resp_at (filled pre m) post tail)
unfolding next_nl_msg
next_nl_msg-message pre m post tail h words =
    let rest = pad_of m ++ post in
    let whole = pre ++ (message_bytes m ++ rest) in
    let len = 16 + length m.body in
    let size = length-append pre (message_bytes m ++ rest) in
    let size_rest = length-append (message_bytes m) rest in
    let (front, back) =
      cut_message pre m rest tail (length pre + len)
        (omega (arith, length-append pre (message_bytes m))) in
    rw
      (
        leb-false (length whole) (length pre) (omega (arith, size, size_rest)),
        ltb-false (length whole - length pre) 16 (omega (arith, size, size_rest)),
        nl_msghdr-message pre m rest tail h,
        ltb-false (length whole - length pre) len (omega (arith, size, size_rest)),
      )
      (rw (front, back, length-filled pre m words)
        (ap
          (λ (l : List ℕ). ok (
            some (parser_at pre m (rest ++ tail)),
            record { data_bytes = l; tail = tail; pos = length (filled pre m) },
          ))
          (sym (
            append_assoc pre (message_bytes m ++ pad_of m) post
            ∙ ap (λ (l : List ℕ). pre ++ l) (append_assoc (message_bytes m) (pad_of m) post)))))

pub next_nl_msg-end :
    (pre tail : List ℕ) → next_nl_msg (resp_at pre [] tail) ≡ ok (none, resp_at pre [] tail)
unfolding next_nl_msg
next_nl_msg-end pre tail =
    rw (append-nil) (rw (leb-true (length pre) (length pre) (omega arith)) refl)
