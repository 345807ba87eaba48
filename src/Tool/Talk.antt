-- ===== src/Tool/Talk.antt =====
-- tool/odp/main.go: how the functions of the commands use the library. A function has the socket of its
-- dpif and what was printed; it ends with a value, with a message and no success, or not at all.
use go_odp.Prelude.{
  ℕ, List, ◌++◌, Option, none, some, Result, ok, err, panic, wild, out_of_fuel, Error, ◌>>=◌,
}
use go_odp.Session.{Received, returned, waiting}
use go_odp.Dpif.Exchange.{Socket, Exchange, Answer, answered, no_answer}
use go_odp.Family.{socket_behind}

-- The messages of printErr, on which a command fails.
pub data Complaint : Type 0 where
  of_error : Error → Complaint
  name_exists : List ℕ → Complaint
  no_datapath : List ℕ → Complaint
  no_port : List ℕ → Complaint
  no_such_flow port_too_large : Complaint

pub record Console : Type 0 where
  pub sock : Socket
  pub out : List ℕ

pub data Told (A : Type 0) : Type 0 where
  done : A → Told A
  complained : Complaint → Told A
  stopped : Told A

abbrev pub Talk : Type 0 → Type 0
Talk A = Console → Told A × Console

module _ {A : Type 0} where
  abbrev pub say : A → Talk A
  say a c = (done a, c)

  abbrev pub complain : Complaint → Talk A
  complain message c = (complained message, c)

  -- A panic, or a wait that does not end.
  abbrev pub stop : Talk A
  stop c = (stopped, c)

abbrev pub behind : Console → List Received → Console
behind c rest = record { sock = socket_behind c.sock rest; out = c.out }

-- fmt.Printf and os.Stdout.WriteString.
abbrev pub print : List ℕ → Talk (Unit {0})
print text c = (done tt, record c { out = c.out ++ text })

module _ {A : Type 0} {B : Type 0} where
  abbrev pub talk_on : (A → Talk B) → Told A × Console → Told B × Console
  talk_on next (done a, c) = next a c
  talk_on next (complained message, c) = (complained message, c)
  talk_on next (stopped, c) = (stopped, c)

  abbrev pub then_talk : Talk A → (A → Talk B) → Talk B
  then_talk m next c = talk_on next (m c)

  -- The result of a call of the library, and what is done with its value or with its error.
  abbrev pub with_result : (A → Talk B) → (Error → Talk B) → Result A → Talk B
  with_result good bad (ok a) = good a
  with_result good bad (err e) = bad e
  with_result good bad panic = stop
  with_result good bad wild = stop
  with_result good bad out_of_fuel = stop

  abbrev pub with_answer : (A → Talk B) → (Error → Talk B) → Console → Answer A → Told B × Console
  with_answer good bad c (answered r rest) = with_result good bad r (behind c rest)
  with_answer good bad c no_answer = (stopped, c)

  -- A call that parses one response.
  abbrev pub asking :
      (Socket → Option (List ℕ) × Answer A) → (A → Talk B) → (Error → Talk B) → Talk B
  asking call good bad c = with_answer good bad c (call c.sock).1

  abbrev pub with_exchange :
      (A → Talk B) → (Error → Talk B) → Console → Exchange A → Told B × Console
  with_exchange good bad c (none, returned r a rest) = with_result good bad (r >>= λ _. ok a) c
  with_exchange good bad c (some sent, returned r a rest) =
      with_result good bad (r >>= λ _. ok a) (behind c rest)
  with_exchange good bad c (sent, waiting a) = (stopped, c)

  -- A call whose response is not read, and a dump.
  abbrev pub exchanging : (Socket → Exchange A) → (A → Talk B) → (Error → Talk B) → Talk B
  exchanging call good bad c = with_exchange good bad c (call c.sock)
