-- ===== src/Packet/Runs.antt =====
-- The loop of ConsumeMisses and the goroutine of its vport events, which share one missVportConsumer.
use go_odp.Prelude.{
  ℕ, ◌==◌, ◌≡◌, refl, List, [], ◌∷◌, ◌++◌, Bool, true, false, Option, none, some, Result, ok, err,
  panic, wild, out_of_fuel, arith, if◌then◌else◌, Bool-cases, inl, inr, ==_iff, ==_self, ==_false,
  length, length-append,
}
use go_odp.Session.{returned, waiting}
use go_odp.Parser.{NlMsgParser}
use go_odp.Dpif.Exchange.{Exchange}
use go_odp.Vport.{Vport}
use go_odp.Vport.Requests.{set_vport_upcall_port_id}
use go_odp.Packet.{
  MissConsumer, MissVportConsumer, has_vport, delete_done, set_port_once, record_done, forget_vport,
  miss_vport_consumer,
}

-- What a step does for a vport.
pub data Act : Type 0 where
  asked skipped refused removed : ℕ → Act

abbrev pub request_act : ℕ → Result (Unit {0}) → Act
request_act vport (ok u) = asked vport
request_act vport failure = refused vport

-- What a call did, by the requests that the consumer has sent before it and after it.
abbrev pub act_of : ℕ → MissVportConsumer → Result (Unit {0}) × MissVportConsumer → Act
act_of vport c (r, after) =
    if length after.requests == length c.requests then skipped vport else request_act vport r

abbrev pub set_act : ℕ → MissVportConsumer → Act
set_act vport c = act_of vport c (set_port_once vport c)

-- An event that the goroutine has yet to handle.
pub data PendingEvent : Type 0 where
  created deleted : (dpid : ℕ) → Vport → PendingEvent

module _ {U : Type 0} (consumer : MissConsumer U) where
  -- The consumer and the user's state, the rest of the loop, and the events that wait.
  pub record MissSystem : Type 0 where
    pub state : MissVportConsumer × U
    pub to_set : List Vport
    pub events : List PendingEvent

  -- An error ends the loop.
  abbrev pub rest_of_loop : Result (Unit {0}) → List Vport → List Vport
  rest_of_loop (ok u) vports = vports
  rest_of_loop failure vports = []

  abbrev pub loop_step : Vport → List Vport → MissVportConsumer × U → List PendingEvent → MissSystem
  loop_step vport vports (c, u) events =
      let (r, after) = set_port_once vport.id c in
      record { state = (after, u); to_set = rest_of_loop r vports; events = events }

  -- A run of the two goroutines and the kernel, with what it did. The lock makes each call one step.
  pub data MissRun : MissSystem → List Act → MissSystem → Type 0 where
    ends : (s : MissSystem) → MissRun s [] s
    sets :
        (vport : Vport) (vports : List Vport) (c : MissVportConsumer) (u : U)
        (events : List PendingEvent) (acts : List Act) (s : MissSystem)
        → MissRun (loop_step vport vports (c, u) events) acts s
        → MissRun
            (record { state = (c, u); to_set = vport ∷ vports; events = events })
            (set_act vport.id c ∷ acts)
            s
    handles_created :
        (dpid : ℕ) (vport : Vport) (events : List PendingEvent) (c : MissVportConsumer) (u : U)
        (vports : List Vport) (acts : List Act) (s : MissSystem)
        → MissRun
            (record {
              state = ((miss_vport_consumer consumer).vport_created dpid vport (c, u)).1;
              to_set = vports;
              events = events;
            })
            acts
            s
        → MissRun
            (record { state = (c, u); to_set = vports; events = created dpid vport ∷ events })
            (set_act vport.id c ∷ acts)
            s
    handles_deleted :
        (dpid : ℕ) (vport : Vport) (events : List PendingEvent) (c : MissVportConsumer) (u : U)
        (vports : List Vport) (acts : List Act) (s : MissSystem)
        → MissRun
            (record {
              state = ((miss_vport_consumer consumer).vport_deleted dpid vport (c, u)).1;
              to_set = vports;
              events = events;
            })
            acts
            s
        → MissRun
            (record { state = (c, u); to_set = vports; events = deleted dpid vport ∷ events })
            (removed vport.id ∷ acts)
            s
    happens :
        (event : PendingEvent) (c : MissVportConsumer) (u : U) (vports : List Vport)
        (events : List PendingEvent) (acts : List Act) (s : MissSystem)
        → MissRun
            (record { state = (c, u); to_set = vports; events = events ++ (event ∷ []) })
            acts
            s
        → MissRun (record { state = (c, u); to_set = vports; events = events }) acts s

-- The two states of one vport: whether its port is set. A request is only allowed where it is not set,
-- and leaving one out only where it is; `none` for a sequence of acts that breaks these rules.
abbrev pub act_on : ℕ → Bool → Act → Option Bool
act_on v is_set (asked w) = if w == v then (if is_set then none else some true) else some is_set
act_on v is_set (skipped w) = if w == v then (if is_set then some true else none) else some is_set
act_on v is_set (refused w) = if w == v then (if is_set then none else some false) else some is_set
act_on v is_set (removed w) = if w == v then some false else some is_set

abbrev pub track : ℕ → Bool → List Act → Option Bool
track v is_set [] = some is_set
track v is_set (act ∷ acts) = elim (act_on v is_set act) [
  | none ↦ none
  | some now ↦ track v now acts
]

has-delete :
    (v w : ℕ) (vports : List ℕ)
    → has_vport v (delete_done w vports) ≡ (if w == v then false else has_vport v vports)
unfolding has_vport delete_done
has-delete v w [] = ground arith
has-delete v w (x ∷ xs) = ground (arith, has-delete v w xs)

same_vport :
    (v w : ℕ) (b : Bool) (vports : List ℕ)
    → has_vport w vports ≡ b
    → (w == v) ≡ true
    → has_vport v vports ≡ b
same_vport v w b vports has same = rw (← (==_iff w v).0 same) has

asked-act :
    (v w : ℕ) (vports : List ℕ)
    → has_vport w vports ≡ false
    → act_on v (has_vport v vports) (asked w) ≡ some (has_vport v (w ∷ vports))
unfolding has_vport
asked-act v w vports missing = elim (Bool-cases (w == v)) [
  | inl y ↦ rw (y, same_vport v w false vports missing y) refl
  | inr n ↦ rw n refl
]

refused-act :
    (v w : ℕ) (vports : List ℕ)
    → has_vport w vports ≡ false
    → act_on v (has_vport v vports) (refused w) ≡ some (has_vport v vports)
refused-act v w vports missing = elim (Bool-cases (w == v)) [
  | inl y ↦ rw (y, same_vport v w false vports missing y) refl
  | inr n ↦ rw n refl
]

skipped-act :
    (v w : ℕ) (vports : List ℕ)
    → has_vport w vports ≡ true
    → act_on v (has_vport v vports) (skipped w) ≡ some (has_vport v vports)
skipped-act v w vports there = elim (Bool-cases (w == v)) [
  | inl y ↦ rw (y, same_vport v w true vports there y) refl
  | inr n ↦ rw n refl
]

pub one_more_request :
    (c : MissVportConsumer) (sent : Option (List ℕ))
    → (length (c.requests ++ (sent ∷ [])) == length c.requests) ≡ false
one_more_request c sent =
    ==_false (length (c.requests ++ (sent ∷ []))) (length c.requests)
      (λ e. omega (arith, e, length-append c.requests (sent ∷ [])))

record_done-act :
    (v w : ℕ) (c : MissVportConsumer) (answer : Exchange (Option NlMsgParser))
    → has_vport w c.vports_done ≡ false
    → act_on v (has_vport v c.vports_done) (act_of w c (record_done w c answer))
      ≡ some (has_vport v (record_done w c answer).1.vports_done)
record_done-act v w c (sent, returned (ok u) resp rest) h =
    rw (one_more_request c sent) (asked-act v w c.vports_done h)
record_done-act v w c (sent, returned (err e) resp rest) h =
    rw (one_more_request c sent) (refused-act v w c.vports_done h)
record_done-act v w c (sent, returned panic resp rest) h =
    rw (one_more_request c sent) (refused-act v w c.vports_done h)
record_done-act v w c (sent, returned wild resp rest) h =
    rw (one_more_request c sent) (refused-act v w c.vports_done h)
record_done-act v w c (sent, returned out_of_fuel resp rest) h =
    rw (one_more_request c sent) (refused-act v w c.vports_done h)
record_done-act v w c (sent, waiting resp) h =
    rw (one_more_request c sent) (refused-act v w c.vports_done h)

-- The automaton of `v` allows the act, and ends where the list says.
set_port_once-act :
    (v w : ℕ) (c : MissVportConsumer)
    → act_on v (has_vport v c.vports_done) (set_act w c)
      ≡ some (has_vport v (set_port_once w c).1.vports_done)
unfolding set_port_once
set_port_once-act v w c = elim (Bool-cases (has_vport w c.vports_done)) [
  | inl e ↦ rw (e, ==_self (length c.requests)) (skipped-act v w c.vports_done e)
  | inr e ↦ rw e (record_done-act v w c (set_vport_upcall_port_id c.dp w c.upcall_port_id c.sock) e)
]

removed-act :
    (v w : ℕ) (c : MissVportConsumer)
    → act_on v (has_vport v c.vports_done) (removed w)
      ≡ some (has_vport v (forget_vport w c).1.vports_done)
unfolding forget_vport
removed-act v w c = rw (has-delete v w c.vports_done) (ground arith)

track-act :
    (v : ℕ) (is_set now : Bool) (act : Act) (acts : List Act) (end : Option Bool)
    → act_on v is_set act ≡ some now
    → track v now acts ≡ end
    → track v is_set (act ∷ acts) ≡ end
track-act v is_set now act acts end e rest = rw (track, e) rest

module _ {U : Type 0} (consumer : MissConsumer U) where
  -- However the two goroutines' calls and the kernel's events interleave, the acts on each vport are
  -- those of an automaton with two states: a request is sent only while the vport is not done, it is
  -- done from an accepted request to its deletion, and none is sent only in between. What a call has
  -- sent is read off the requests of the consumer before and after it; vportsDone holds the state that
  -- the automaton is in.
  pub MissRun-track :
      (v : ℕ) (s t : MissSystem consumer) (acts : List Act)
      → MissRun consumer s acts t
      → track v (has_vport v s.state.0.vports_done) acts ≡ some (has_vport v t.state.0.vports_done)
  unfolding miss_vport_consumer
  MissRun-track v s _ _ (ends _) = refl
  MissRun-track v _ t _ (sets vport vports c u events acts _ run) =
      track-act v _ _ _ acts _ (set_port_once-act v vport.id c) (MissRun-track v _ t acts run)
  MissRun-track v _ t _ (handles_created dpid vport events c u vports acts _ run) =
      track-act v _ _ _ acts _ (set_port_once-act v vport.id c) (MissRun-track v _ t acts run)
  MissRun-track v _ t _ (handles_deleted dpid vport events c u vports acts _ run) =
      track-act v (has_vport v c.vports_done) _ (removed vport.id) acts _ (removed-act v vport.id c)
        (MissRun-track v _ t acts run)
  MissRun-track v _ t _ (happens event c u vports events acts _ run) = MissRun-track v _ t acts run
