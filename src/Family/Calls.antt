-- ===== src/Family/Calls.antt =====
-- The second try of lookupFamily, and how often the kernel module is loaded.
use go_odp.Prelude.{
  ℕ, ◌≤◌, ◌≡◌, ap, ◌∙◌, List, [], ◌∷◌, ◌++◌, ok, err, panic, wild, out_of_fuel, netlink_error,
  family_unavailable, if◌then◌else◌, arith, Bool-cases, inl, inr,
}
use go_odp.Session.{Received}
use go_odp.Session.Packets.{Message}
use go_odp.Session.Responses.{IsErrorMessage}
use go_odp.Dpif.Exchange.{Socket, Answer, answered, no_answer}
use go_odp.Dpif.Asks.{Gets, ask-error}
use go_odp.Family.{
  GenlFamily, parse_genl_family, family_request, lookup_genl_family, is_enoent, Loader,
  load_openvswitch_module, Loaded, ended, no_end, socket_behind, second_try, first_try,
  lookup_family, lookup_families, next_family, new_dpif, family_names,
}

lookup_genl_family-missing :
    (name : List ℕ) (sock : Socket) (m : Message) (ms : List Message) (spare : ℕ)
    (rest : List Received)
    → Gets sock m ms spare rest
    → IsErrorMessage 2 m
    → (lookup_genl_family name sock).1 ≡ answered (err (netlink_error 2)) rest
unfolding lookup_genl_family
lookup_genl_family-missing name sock m ms spare rest arrives failure =
    ask-error sock (family_request name) parse_genl_family m ms spare rest 2 arrives failure
      (omega arith)

-- Where the kernel does not know a family and still does not know it behind the try to load the module,
-- lookupFamily says that the family is unavailable; each try has its own request.
pub lookup_family-unavailable :
    (name : List ℕ) (sock : Socket) (l : Loader) (m n : Message) (ms ns : List Message)
    (spare more : ℕ) (rest others : List Received)
    → Gets sock m ms spare rest
    → IsErrorMessage 2 m
    → Gets (socket_behind sock rest) n ns more others
    → IsErrorMessage 2 n
    → lookup_family name sock l
      ≡ ended
          (err (family_unavailable name))
          (socket_behind (socket_behind sock rest) others)
          (load_openvswitch_module l)
unfolding lookup_family is_enoent
lookup_family-unavailable name sock l m n ms ns spare more rest others first no_first second
      no_second =
    let next = socket_behind sock rest in
    ap (first_try name sock l) (lookup_genl_family-missing name sock m ms spare rest first no_first)
    ∙ ap (second_try name next (load_openvswitch_module l))
        (lookup_genl_family-missing name next n ns more others second no_second)

abbrev pub loader_of : {A : Type 0} → Loaded A → Loader
loader_of (ended r sock l) = l
loader_of (no_end l) = l

-- Once the loading was tried it is not tried again.
abbrev pub IsLoader : Loader → Type 0
IsLoader l = l.attempts ≤ (if l.tried then 1 else 0)

load-IsLoader : (l : Loader) → IsLoader l → IsLoader (load_openvswitch_module l)
unfolding load_openvswitch_module
load-IsLoader l h = elim (Bool-cases l.tried) [
  | inl e ↦ rw e (let once : l.attempts ≤ 1 = rw e at h in once)
  | inr e ↦ rw e (let never : l.attempts ≤ 0 = rw e at h in omega (arith, never))
]

second_try-IsLoader :
    (name : List ℕ) (sock : Socket) (l : Loader) (answer : Answer GenlFamily)
    → IsLoader l
    → IsLoader (loader_of (second_try name sock l answer))
second_try-IsLoader name sock l (answered (err e) rest) h = h
second_try-IsLoader name sock l (answered (ok family) rest) h = h
second_try-IsLoader name sock l (answered panic rest) h = h
second_try-IsLoader name sock l (answered wild rest) h = h
second_try-IsLoader name sock l (answered out_of_fuel rest) h = h
second_try-IsLoader name sock l no_answer h = h

first_try-IsLoader :
    (name : List ℕ) (sock : Socket) (l : Loader) (answer : Answer GenlFamily)
    → IsLoader l
    → IsLoader (loader_of (first_try name sock l answer))
first_try-IsLoader name sock l (answered (err e) rest) h = elim (Bool-cases (is_enoent e)) [
  | inl y ↦ rw y (
      second_try-IsLoader name (socket_behind sock rest) (load_openvswitch_module l)
        (lookup_genl_family name (socket_behind sock rest)).1 (load-IsLoader l h))
  | inr n ↦ rw n h
]
first_try-IsLoader name sock l (answered (ok family) rest) h = h
first_try-IsLoader name sock l (answered panic rest) h = h
first_try-IsLoader name sock l (answered wild rest) h = h
first_try-IsLoader name sock l (answered out_of_fuel rest) h = h
first_try-IsLoader name sock l no_answer h = h

lookup_family-IsLoader :
    (name : List ℕ) (sock : Socket) (l : Loader)
    → IsLoader l
    → IsLoader (loader_of (lookup_family name sock l))
unfolding lookup_family
lookup_family-IsLoader name sock l h =
    first_try-IsLoader name sock l (lookup_genl_family name sock).1 h

next_family-IsLoader :
    (families : List GenlFamily)
    (again : List GenlFamily → Socket → Loader → Loaded (List GenlFamily)) (end : Loaded GenlFamily)
    → ((found : List GenlFamily) (sock : Socket) (l : Loader)
        → IsLoader l
        → IsLoader (loader_of (again found sock l)))
    → IsLoader (loader_of end)
    → IsLoader (loader_of (next_family families again end))
next_family-IsLoader families again (ended (ok family) sock l) kept h =
    kept (families ++ (family ∷ [])) sock l h
next_family-IsLoader families again (ended (err e) sock l) kept h = h
next_family-IsLoader families again (ended panic sock l) kept h = h
next_family-IsLoader families again (ended wild sock l) kept h = h
next_family-IsLoader families again (ended out_of_fuel sock l) kept h = h
next_family-IsLoader families again (no_end l) kept h = h

lookup_families-IsLoader :
    (names : List (List ℕ)) (families : List GenlFamily) (sock : Socket) (l : Loader)
    → IsLoader l
    → IsLoader (loader_of (lookup_families names families sock l))
unfolding lookup_families
lookup_families-IsLoader [] families sock l h = h
lookup_families-IsLoader (name ∷ names) families sock l h =
    next_family-IsLoader families (λ found next k. lookup_families names found next k)
      (lookup_family name sock l) (λ found next k. lookup_families-IsLoader names found next k)
      (lookup_family-IsLoader name sock l h)

-- NewDpif keeps the invariant of the loading: however the kernel answers the lookups of the four
-- families, and whatever calls came before, the loading of the module was tried at most once, and not
-- at all where it is not marked as tried.
pub new_dpif-IsLoader :
    (sock : Socket) (l : Loader) → IsLoader l → IsLoader (loader_of (new_dpif sock l))
unfolding new_dpif
new_dpif-IsLoader sock l h = lookup_families-IsLoader family_names [] sock l h
