-- ===== src/System.antt =====
-- The system calls that odp/netlink.go, odp/dpif.go, odp/vport.go and odp/packet.go make to open and
-- close sockets. The kernel is a parameter: its state, and what each call returns and leaves. A call
-- fails with an errno. A descriptor of -1 is `none`.
pub mod Leaves
pub mod Sockets
pub mod Dpifs
pub mod Consumers
pub mod Descriptors
pub mod Sessions
use go_odp.Prelude.{
  ℕ, ◌==◌, ◌≡◌, List, [], ◌∷◌, Option, none, some, Result, ok, err, panic, wild, out_of_fuel, Error,
  system_error, ◌⊎◌, inl, inr, if◌then◌else◌,
}
use go_odp.Dpif.Exchange.{Socket}

-- A socket address: its port id where it is that of a netlink socket.
pub data Sockaddr : Type 0 where
  sockaddr_netlink : ℕ → Sockaddr
  other_sockaddr : Sockaddr

pub record System : Type 1 where
  pub State : Type 0
  pub socket : ℕ → ℕ → ℕ → State → (ℕ ⊎ ℕ) × State
  pub setsockopt_int : Option ℕ → ℕ → ℕ → ℕ → State → Option ℕ × State
  pub bind : ℕ → Sockaddr → State → Option ℕ × State
  pub getsockname : ℕ → State → (ℕ ⊎ Sockaddr) × State
  pub close : ℕ → State → Option ℕ × State
  pub ioctl : ℕ → ℕ → List ℕ → State → State
  -- What a request or a dump over the descriptor finds (its port id is given), and what it leaves.
  pub socket_of : Option ℕ → ℕ → State → Socket
  pub leave : Option ℕ → Socket → State → State

-- The first occurrence taken out.
unfoldable pub remove : ℕ → List ℕ → List ℕ
remove fd [] = []
remove fd (n ∷ ns) = let rest = remove fd ns in if n == fd then ns else n ∷ rest

-- The documented effect of the calls on the open descriptors of the process: Socket opens the one that
-- it returns, and none where it fails; Close releases its descriptor, also where it reports an error
-- (as Linux does); the other calls open and close none.
pub record IsLawful (S : System) : Type 0 where
  pub opened : S.State → List ℕ
  pub opened-socket :
      (domain typ protocol : ℕ) (s : S.State) (fd : ℕ)
      → (S.socket domain typ protocol s).0 ≡ inr fd
      → opened (S.socket domain typ protocol s).1 ≡ fd ∷ opened s
  pub opened-no_socket :
      (domain typ protocol : ℕ) (s : S.State) (errno : ℕ)
      → (S.socket domain typ protocol s).0 ≡ inl errno
      → opened (S.socket domain typ protocol s).1 ≡ opened s
  pub opened-setsockopt_int :
      (fd : Option ℕ) (level opt value : ℕ) (s : S.State)
      → opened (S.setsockopt_int fd level opt value s).1 ≡ opened s
  pub opened-bind :
      (fd : ℕ) (addr : Sockaddr) (s : S.State) → opened (S.bind fd addr s).1 ≡ opened s
  pub opened-getsockname : (fd : ℕ) (s : S.State) → opened (S.getsockname fd s).1 ≡ opened s
  pub opened-close : (fd : ℕ) (s : S.State) → opened (S.close fd s).1 ≡ remove fd (opened s)
  pub opened-ioctl :
      (fd request : ℕ) (bytes : List ℕ) (s : S.State)
      → opened (S.ioctl fd request bytes s) ≡ opened s
  pub opened-leave :
      (fd : Option ℕ) (sock : Socket) (s : S.State) → opened (S.leave fd sock s) ≡ opened s

module _ (S : System) where
  -- A call of the program: its end and the state of the system behind it.
  abbrev pub Call : Type 0 → Type 0
  Call A = S.State → Result A × S.State

  abbrev pub give : {A : Type 0} → A → Call A
  give a s = (ok a, s)

  abbrev pub fail : {A : Type 0} → Error → Call A
  fail e s = (err e, s)

  abbrev pub result_call : {A : Type 0} → Result A → Call A
  result_call r s = (r, s)

  -- The rest of a call, behind a part of it that has ended.
  abbrev pub go_on_with : {A B : Type 0} → (A → Call B) → Result A × S.State → Result B × S.State
  go_on_with k (ok a, s) = k a s
  go_on_with k (err e, s) = (err e, s)
  go_on_with k (panic, s) = (panic, s)
  go_on_with k (wild, s) = (wild, s)
  go_on_with k (out_of_fuel, s) = (out_of_fuel, s)

  unfoldable pub then_call : {A B : Type 0} → Call A → (A → Call B) → Call B
  then_call m k s = go_on_with k (m s)

  -- A deferred function that acts unless the call succeeds: it runs on an error and on a panic, and
  -- what it returns is dropped.
  abbrev pub cleaned : {A : Type 0} → (S.State → S.State) → Result A × S.State → Result A × S.State
  cleaned cleanup (ok a, s) = (ok a, s)
  cleaned cleanup (err e, s) = (err e, cleanup s)
  cleaned cleanup (panic, s) = (panic, cleanup s)
  cleaned cleanup (wild, s) = (wild, s)
  cleaned cleanup (out_of_fuel, s) = (out_of_fuel, s)

  unfoldable pub unless_success : {A : Type 0} → (S.State → S.State) → Call A → Call A
  unless_success cleanup m s = cleaned cleanup (m s)

  -- System calls that return an errno or a value, and an errno or nothing.
  abbrev pub value_of : {A : Type 0} → (ℕ ⊎ A) × S.State → Result A × S.State
  value_of (inl errno, s) = (err (system_error errno), s)
  value_of (inr a, s) = (ok a, s)

  abbrev pub done_of : Option ℕ × S.State → Result (Unit {0}) × S.State
  done_of (none, s) = (ok tt, s)
  done_of (some errno, s) = (err (system_error errno), s)

  -- A call, and what its caller then does with the value that it returned.
  abbrev pub released :
      {A : Type 0} → (A → S.State → S.State) → Result A × S.State → Result A × S.State
  released release (ok a, s) = (ok a, release a s)
  released release (failure, s) = (failure, s)
