-- ===== src/Tests/Dumps.antt =====
-- A dump of two replies, the second of which is the last for the consumer.
use go_odp.Prelude.{
  ℕ, zero, suc, ◌+◌, ◌≡◌, refl, List, [], ◌∷◌, none, Result, ok, err, message_missing, arith,
}
use go_odp.Format.{zeros}
use go_odp.Parser.{NlMsgParser}
use go_odp.Session.{datagram, request_multi}
use go_odp.Session.Packets.{Message, packed}
use go_odp.Session.Dumps.{IsReply, IsDone, gather, outcome, request_multi-gather}

abbrev reply_with : List ℕ → Message
reply_with body = record { typ = 26; flags = 2; seq = 7; pid = 4711; body = body }

abbrev one : Message
one = reply_with (3 ∷ 1 ∷ 0 ∷ 0 ∷ 6 ∷ [])

abbrev two : Message
two = reply_with (3 ∷ 1 ∷ 0 ∷ 0 ∷ [])

abbrev last : Message
last = record { typ = 3; flags = 2; seq = 7; pid = 4711; body = 0 ∷ 0 ∷ 0 ∷ 0 ∷ [] }

one-IsReply : IsReply 4711 7 one
one-IsReply = record {
  valid = record {
    typ_fits = omega arith;
    flags_fits = omega arith;
    seq_fits = omega arith;
    pid_fits = omega arith;
    len_fits = omega arith;
  };
  same_port = refl;
  same_seq = refl;
  no_error = λ e. omega arith;
}

two-IsReply : IsReply 4711 7 two
two-IsReply = record {
  valid = record {
    typ_fits = omega arith;
    flags_fits = omega arith;
    seq_fits = omega arith;
    pid_fits = omega arith;
    len_fits = omega arith;
  };
  same_port = refl;
  same_seq = refl;
  no_error = λ e. omega arith;
}

last-IsReply : IsReply 4711 7 last
last-IsReply = record {
  valid = record {
    typ_fits = omega arith;
    flags_fits = omega arith;
    seq_fits = omega arith;
    pid_fits = omega arith;
    len_fits = omega arith;
  };
  same_port = refl;
  same_seq = refl;
  no_error = λ e. omega arith;
}

last-IsDone : IsDone last
last-IsDone = record { typ_done = refl; rest = []; body_code = refl }

-- It fails on the second message.
abbrev count_one : NlMsgParser → ℕ → Result (Unit {0}) × ℕ
count_one msg zero = (ok tt, 1)
count_one msg (suc n) = (err message_missing, n + 2)

request_multi-gather_example :
    request_multi count_one none 4711 7 (datagram 0 (packed (one ∷ two ∷ last ∷ [])) 0 ∷ []) 0
    ≡ outcome count_one [] (gather count_one [] (one ∷ two ∷ []) last (zeros 0) 0)
request_multi-gather_example =
    request_multi-gather count_one 4711 7 one (two ∷ []) last 0 [] 0
      (one-IsReply, (two-IsReply, tt)) ((λ e. omega arith), ((λ e. omega arith), tt)) last-IsReply
      last-IsDone
