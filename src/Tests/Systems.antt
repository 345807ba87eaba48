-- ===== src/Tests/Systems.antt =====
-- The theorems about open descriptors, at a system that counts descriptors up and fails no call.
use go_odp.Prelude.{ℕ, suc, refl, List, [], ◌∷◌, none, inr}
use go_odp.Dpif.Exchange.{Socket}
use go_odp.Family.{GenlFamily}
use go_odp.System.{System, IsLawful, sockaddr_netlink, remove, released}
use go_odp.System.Leaves.{Leaves}
use go_odp.System.Dpifs.{OpenDatapath, open_dpif}
use go_odp.System.Consumers.{close_behind, cancelled, start_misses}
use go_odp.System.Sessions.{of_session, open_dpif-Leaves, start_misses-Leaves}
use go_odp.System.Descriptors.{with_fd}
use go_odp.Tests.Messages.{socket, last}
use go_odp.Tests.Families

-- The open descriptors, and the next one.
record Descriptors : Type 0 where
  opened : List ℕ
  next : ℕ

-- Every socket gets what `sock` gets.
abbrev counting : Socket → System
counting sock = record {
  State = Descriptors;
  socket = λ domain typ protocol s.
      (inr s.next, record { opened = s.next ∷ s.opened; next = suc s.next });
  setsockopt_int = λ fd level opt value s. (none, s);
  bind = λ fd addr s. (none, s);
  getsockname = λ fd s. (inr (sockaddr_netlink 4711), s);
  close = λ fd s. (none, record s { opened = remove fd s.opened });
  ioctl = λ fd request bytes s. s;
  socket_of = λ fd pid s. sock;
  leave = λ fd behind s. s;
}

abbrev counting-IsLawful : (sock : Socket) → IsLawful (counting sock)
counting-IsLawful sock = record {
  opened = λ s. s.opened;
  opened-socket = λ domain typ protocol s fd e. cc;
  opened-no_socket = λ domain typ protocol s errno e. absurd cc;
  opened-setsockopt_int = λ fd level opt value s. refl;
  opened-bind = λ fd addr s. refl;
  opened-getsockname = λ fd s. refl;
  opened-close = λ fd s. refl;
  opened-ioctl = λ fd request bytes s. refl;
  opened-leave = λ fd behind s. refl;
}

abbrev start : Descriptors
start = record { opened = 2 ∷ 1 ∷ 0 ∷ []; next = 3 }

abbrev family : GenlFamily
family = record {
  id = 25;
  mc_groups = (b'o' ∷ b'v' ∷ b's' ∷ b'_' ∷ b'v' ∷ b'p' ∷ b'o' ∷ b'r' ∷ b't' ∷ [], 4) ∷ [];
}

abbrev handle : OpenDatapath
handle = record {
  dpif = record { sock = record { fd = none; pid = 4711 }; families = λ i. family };
  ifindex = 5;
}

abbrev ending : System
ending = counting (socket (last ∷ []))

abbrev refusing : System
refusing = counting Families.socket

open_dpif-Leaves_example :
    Leaves start.opened
      (λ d. with_fd d.sock.fd start.opened)
      (open_dpif refusing Families.untried start).0.0
      (open_dpif refusing Families.untried start).0.1.opened
    × Leaves start.opened
        (λ d. start.opened)
        (open_dpif refusing Families.untried start).0.0
        (released refusing
          (close_behind refusing)
          (open_dpif refusing Families.untried start).0).1.opened
unfolding open_dpif
open_dpif-Leaves_example =
    open_dpif-Leaves (counting-IsLawful Families.socket) Families.untried start

start_misses-Leaves_example :
    Leaves start.opened
      (λ m. of_session m start.opened)
      (start_misses ending handle start).0
      (start_misses ending handle start).1.opened
    × Leaves start.opened
        (λ m. start.opened)
        (start_misses ending handle start).0
        (released ending (cancelled ending) (start_misses ending handle start)).1.opened
unfolding start_misses
start_misses-Leaves_example =
    start_misses-Leaves (counting-IsLawful (socket (last ∷ []))) handle start
