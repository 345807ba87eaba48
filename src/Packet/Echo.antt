-- ===== src/Packet/Echo.antt =====
-- The events that the requests of a missVportConsumer cause: an accepted OVS_VPORT_CMD_SET is announced
-- as a new vport, which the consumer handles in turn.
use go_odp.Prelude.{
  ℕ, zero, suc, ◌+◌, ◌*◌, ◌≤◌, ◌<◌, ◌≡◌, refl, List, [], ◌∷◌, ◌++◌, Bool, true, false, Result, ok,
  err, panic, wild, out_of_fuel, Option, ==_self, length, arith, if◌then◌else◌, Bool-cases, inl,
  inr, ◌⊎◌,
}
use go_odp.Session.{returned, waiting}
use go_odp.Parser.{NlMsgParser}
use go_odp.Dpif.Exchange.{Exchange}
use go_odp.Vport.{Vport}
use go_odp.Vport.Requests.{set_vport_upcall_port_id}
use go_odp.Packet.{MissVportConsumer, has_vport, set_port_once, record_done}
use go_odp.Packet.Runs.{Act, asked, set_act, act_of, one_more_request}

abbrev pub returns : Result (Unit {0}) → Bool
returns out_of_fuel = false
returns _ = true

-- The announcement of an accepted request.
abbrev pub echoed : Vport → Act → List Vport
echoed vport (asked v) = vport ∷ []
echoed vport _ = []

-- A number of announced vports that are handled, each call returning.
pub data EchoRun
    : ℕ → MissVportConsumer → List Vport → MissVportConsumer → List Vport → Type 0 where
  stops : (c : MissVportConsumer) (vports : List Vport) → EchoRun 0 c vports c vports
  handles :
      (n : ℕ) (c : MissVportConsumer) (vport : Vport) (vports : List Vport) (d : MissVportConsumer)
      (left : List Vport)
      → returns (set_port_once vport.id c).0 ≡ true
      → EchoRun n (set_port_once vport.id c).1 (vports ++ echoed vport (set_act vport.id c)) d left
      → EchoRun (suc n) c (vport ∷ vports) d left

-- The first call waits for a response for ever.
abbrev pub IsWaiting : MissVportConsumer → List Vport → Type 0
IsWaiting c [] = ⊥
IsWaiting c (vport ∷ vports) = returns (set_port_once vport.id c).0 ≡ false

-- How many calls an announcement can still cause.
abbrev weight : List ℕ → List Vport → ℕ
weight vports_done [] = 0
weight vports_done (vport ∷ vports) =
    (if has_vport vport.id vports_done then 1 else 2) + weight vports_done vports

weight-bound :
    (vports_done : List ℕ) (vports : List Vport) → weight vports_done vports ≤ 2 * length vports
weight-bound vports_done [] = omega arith
weight-bound vports_done (vport ∷ vports) = ground (arith, weight-bound vports_done vports)

weight-append :
    (vports_done : List ℕ) (xs ys : List Vport)
    → weight vports_done (xs ++ ys) ≡ weight vports_done xs + weight vports_done ys
weight-append vports_done [] ys = omega arith
weight-append vports_done (x ∷ xs) ys = omega (arith, weight-append vports_done xs ys)

weight-more :
    (v : ℕ) (vports_done : List ℕ) (vports : List Vport)
    → weight (v ∷ vports_done) vports ≤ weight vports_done vports
unfolding has_vport
weight-more v vports_done [] = omega arith
weight-more v vports_done (vport ∷ vports) = ground (arith, weight-more v vports_done vports)

has_self : (v : ℕ) (vports_done : List ℕ) → has_vport v (v ∷ vports_done) ≡ true
unfolding has_vport
has_self v vports_done = ground arith

-- A vport that is not done, and is announced by its request, or not.
accepted-weight :
    (v : ℕ) (vports_done : List ℕ) (vport : Vport) (vports : List Vport)
    → vport.id ≡ v
    → weight (v ∷ vports_done) (vports ++ (vport ∷ [])) < 2 + weight vports_done vports
accepted-weight v vports_done vport vports e =
    let append = weight-append (v ∷ vports_done) vports (vport ∷ []) in
    let less = weight-more v vports_done vports in
    let self : has_vport vport.id (v ∷ vports_done) ≡ true = rw e (has_self v vports_done) in
    rw (append, self) (omega (arith, less))

refused-weight :
    (vports_done : List ℕ) (vports : List Vport)
    → weight vports_done (vports ++ []) < 2 + weight vports_done vports
refused-weight vports_done vports = omega (arith, weight-append vports_done vports [])

request-weight :
    (c : MissVportConsumer) (vport : Vport) (vports : List Vport)
    (answer : Exchange (Option NlMsgParser))
    → weight
        (record_done vport.id c answer).1.vports_done
        (vports ++ echoed vport (act_of vport.id c (record_done vport.id c answer)))
      < 2 + weight c.vports_done vports
request-weight c vport vports (sent, returned (ok u) resp rest) =
    rw (one_more_request c sent) (accepted-weight vport.id c.vports_done vport vports refl)
request-weight c vport vports (sent, returned (err e) resp rest) =
    rw (one_more_request c sent) (refused-weight c.vports_done vports)
request-weight c vport vports (sent, returned panic resp rest) =
    rw (one_more_request c sent) (refused-weight c.vports_done vports)
request-weight c vport vports (sent, returned wild resp rest) =
    rw (one_more_request c sent) (refused-weight c.vports_done vports)
request-weight c vport vports (sent, returned out_of_fuel resp rest) =
    rw (one_more_request c sent) (refused-weight c.vports_done vports)
request-weight c vport vports (sent, waiting resp) =
    rw (one_more_request c sent) (refused-weight c.vports_done vports)

call-weight :
    (c : MissVportConsumer) (vport : Vport) (vports : List Vport)
    → weight (set_port_once vport.id c).1.vports_done (vports ++ echoed vport (set_act vport.id c))
      < weight c.vports_done (vport ∷ vports)
unfolding set_port_once
call-weight c vport vports = elim (Bool-cases (has_vport vport.id c.vports_done)) [
  | inl e ↦
      rw (e, ==_self (length c.requests)) (omega (arith, weight-append c.vports_done vports []))
  | inr e ↦ rw e (
      request-weight c vport vports
        (set_vport_upcall_port_id c.dp vport.id c.upcall_port_id c.sock))
]

run-weight :
    (n : ℕ) (c d : MissVportConsumer) (vports left : List Vport)
    → EchoRun n c vports d left
    → n + weight d.vports_done left ≤ weight c.vports_done vports
run-weight zero c _ vports _ (stops _ _) = omega arith
run-weight (suc n) c d _ left (handles _ _ vport vports _ _ back run) = omega (
  arith,
  call-weight c vport vports,
  run-weight n (set_port_once vport.id c).1 d (vports ++ echoed vport (set_act vport.id c)) left
      run,
)

run-on :
    (fuel : ℕ) (c : MissVportConsumer) (vports : List Vport)
    → weight c.vports_done vports ≤ fuel
    → (n : ℕ) × (d : MissVportConsumer) × (left : List Vport) × EchoRun n c vports d left
      × ((left ≡ []) ⊎ IsWaiting d left)
run-on fuel c [] h = (0, c, [], stops c [], inl refl)
run-on zero c (vport ∷ vports) h = ground (arith, h)
run-on (suc fuel) c (vport ∷ vports) h = elim (Bool-cases (returns (set_port_once vport.id c).0)) [
  | inr stuck ↦ (0, c, vport ∷ vports, stops c (vport ∷ vports), inr stuck)
  | inl back ↦
      let next = set_port_once vport.id c in
      let queue = vports ++ echoed vport (set_act vport.id c) in
      let (n, d, left, run, ended) =
        run-on fuel next.1 queue (omega (arith, h, call-weight c vport vports)) in
      (suc n, d, left, handles n c vport vports d left back run, ended)
]

-- The announcements of accepted requests cause no endless circle: from any queue of created vports the
-- goroutine makes at most two calls for each, and it comes to a state where no announcement waits,
-- unless a request waits for its response for ever.
pub EchoRun-ends :
    (c : MissVportConsumer) (vports : List Vport)
    → ((n : ℕ) (d : MissVportConsumer) (left : List Vport)
        → EchoRun n c vports d left
        → n ≤ 2 * length vports)
      × ((n : ℕ) × (d : MissVportConsumer) × (left : List Vport) × EchoRun n c vports d left
          × ((left ≡ []) ⊎ IsWaiting d left))
EchoRun-ends c vports = (
  λ n d left run.
      omega (arith, run-weight n c d vports left run, weight-bound c.vports_done vports),
  run-on (weight c.vports_done vports) c vports (omega arith),
)
