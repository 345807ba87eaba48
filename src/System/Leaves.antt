-- ===== src/System/Leaves.antt =====
-- What a call leaves open, by the rules of its parts.
use native.Mathlib.Decide.{ℕ_discrete}
use go_odp.Prelude.{
  ℕ, ◌≡◌, refl, ap, ◌∙◌, List, ◌∷◌, Option, none, some, Result, ok, err, panic, wild, out_of_fuel,
  Error, ◌⊎◌, inl, inr, ==_self, ==_false,
}
use go_odp.System.{
  System, IsLawful, Call, give, fail, result_call, Sockaddr, then_call, go_on_with, unless_success,
  cleaned, value_of, done_of, remove,
}

-- The open descriptors where a call returns: `fine a` with the value `a`, `failed` with an error.
abbrev pub Leaves : {A : Type 0} → List ℕ → (A → List ℕ) → Result A → List ℕ → Type 0
Leaves failed fine (ok a) now = now ≡ fine a
Leaves failed fine (err e) now = now ≡ failed
Leaves failed fine panic now = Unit {0}
Leaves failed fine wild now = Unit {0}
Leaves failed fine out_of_fuel now = Unit {0}

module _ {S : System} (law : IsLawful S) where
  abbrev pub Ends : {A : Type 0} → List ℕ → (A → List ℕ) → Result A × S.State → Type 0
  Ends failed fine end = Leaves failed fine end.0 (law.opened end.1)

  go_on_with-Ends :
      {A B : Type 0} (k : A → Call S B) (failed : List ℕ) (between : A → List ℕ) (fine : B → List ℕ)
      (end : Result A × S.State)
      → Ends failed between end
      → ((a : A) (s : S.State) → law.opened s ≡ between a → Ends failed fine (k a s))
      → Ends failed fine (go_on_with S k end)
  go_on_with-Ends k failed between fine (ok a, s) h rest = rest a s h
  go_on_with-Ends k failed between fine (err e, s) h rest = h
  go_on_with-Ends k failed between fine (panic, s) h rest = tt
  go_on_with-Ends k failed between fine (wild, s) h rest = tt
  go_on_with-Ends k failed between fine (out_of_fuel, s) h rest = tt

  -- A call that starts with these descriptors open.
  pub record Moves {A : Type 0} (before failed : List ℕ) (fine : A → List ℕ) (m : Call S A)
      : Type 0 where
    pub ends : (s : S.State) → law.opened s ≡ before → Ends failed fine (m s)

  pub then_call-Moves :
      {A B : Type 0} {before failed : List ℕ} {fine : B → List ℕ} {m : Call S A} {k : A → Call S B}
      (between : A → List ℕ)
      → Moves before failed between m
      → ((a : A) → Moves (between a) failed fine (k a))
      → Moves before failed fine (then_call S m k)
  unfolding then_call
  then_call-Moves {failed = failed} {fine = fine} {m = m} {k = k} between h rest = record {
    ends = λ s e.
        go_on_with-Ends k failed between fine (m s) (h.ends s e) (λ a t l. (rest a).ends t l);
  }

  cleaned-Ends :
      {A : Type 0} (cleanup : S.State → S.State) (more failed : List ℕ) (fine : A → List ℕ)
      (end : Result A × S.State)
      → ((s : S.State) → law.opened s ≡ more → law.opened (cleanup s) ≡ failed)
      → Ends more fine end
      → Ends failed fine (cleaned S cleanup end)
  cleaned-Ends cleanup more failed fine (ok a, s) takes h = h
  cleaned-Ends cleanup more failed fine (err e, s) takes h = takes s h
  cleaned-Ends cleanup more failed fine (panic, s) takes h = tt
  cleaned-Ends cleanup more failed fine (wild, s) takes h = tt
  cleaned-Ends cleanup more failed fine (out_of_fuel, s) takes h = tt

  -- A deferred cleanup takes back what was open where the call began to defer it.
  pub unless_success-Moves :
      {A : Type 0} {before failed : List ℕ} {fine : A → List ℕ} {m : Call S A}
      {cleanup : S.State → S.State} (more : List ℕ)
      → ((s : S.State) → law.opened s ≡ more → law.opened (cleanup s) ≡ failed)
      → Moves before more fine m
      → Moves before failed fine (unless_success S cleanup m)
  unfolding unless_success
  unless_success-Moves {failed = failed} {fine = fine} {m = m} {cleanup = cleanup} more takes h =
      record { ends = λ s e. cleaned-Ends cleanup more failed fine (m s) takes (h.ends s e) }

  value_of-Ends :
      {A : Type 0} (failed : List ℕ) (fine : A → List ℕ) (end : (ℕ ⊎ A) × S.State)
      → ((a : A) → end.0 ≡ inr a → law.opened end.1 ≡ fine a)
      → ((errno : ℕ) → end.0 ≡ inl errno → law.opened end.1 ≡ failed)
      → Ends failed fine (value_of S end)
  value_of-Ends failed fine (inl errno, s) yields fails = fails errno refl
  value_of-Ends failed fine (inr a, s) yields fails = yields a refl

  done_of-Ends :
      (now : List ℕ) (end : Option ℕ × S.State)
      → law.opened end.1 ≡ now
      → Ends now (λ u. now) (done_of S end)
  done_of-Ends now (none, s) h = h
  done_of-Ends now (some errno, s) h = h

  -- The system calls.
  pub socket-Moves :
      {before : List ℕ} (domain typ protocol : ℕ)
      → Moves before before (λ fd. fd ∷ before) (λ s. value_of S (S.socket domain typ protocol s))
  socket-Moves {before = before} domain typ protocol = record {
    ends = λ s h.
        value_of-Ends before (λ fd. fd ∷ before) (S.socket domain typ protocol s)
          (λ fd e. law.opened-socket domain typ protocol s fd e ∙ ap (◌∷◌ fd) h)
          (λ errno e. law.opened-no_socket domain typ protocol s errno e ∙ h);
  }

  pub setsockopt_int-Moves :
      {now : List ℕ} (fd : Option ℕ) (level opt value : ℕ)
      → Moves now now (λ _. now) (λ s. done_of S (S.setsockopt_int fd level opt value s))
  setsockopt_int-Moves {now = now} fd level opt value = record {
    ends = λ s h.
        done_of-Ends now (S.setsockopt_int fd level opt value s)
          (law.opened-setsockopt_int fd level opt value s ∙ h);
  }

  pub bind-Moves :
      {now : List ℕ} (fd : ℕ) (addr : Sockaddr)
      → Moves now now (λ _. now) (λ s. done_of S (S.bind fd addr s))
  bind-Moves {now = now} fd addr = record {
    ends = λ s h. done_of-Ends now (S.bind fd addr s) (law.opened-bind fd addr s ∙ h);
  }

  pub getsockname-Moves :
      {now : List ℕ} (fd : ℕ) → Moves now now (λ _. now) (λ s. value_of S (S.getsockname fd s))
  getsockname-Moves {now = now} fd = record {
    ends = λ s h.
        value_of-Ends now (λ _. now) (S.getsockname fd s) (λ _ _. law.opened-getsockname fd s ∙ h)
          (λ _ _. law.opened-getsockname fd s ∙ h);
  }

  pub give-Moves :
      {A : Type 0} {failed : List ℕ} {fine : A → List ℕ} (a : A)
      → Moves (fine a) failed fine (give S a)
  give-Moves a = record { ends = λ s h. h }

  pub fail-Moves :
      {A : Type 0} {failed : List ℕ} {fine : A → List ℕ} (e : Error)
      → Moves failed failed fine (fail S e)
  fail-Moves e = record { ends = λ s h. h }

  -- A call over sockets that are open.
  pub result_call-Ends :
      {A : Type 0} (now : List ℕ) (r : Result A) (s : S.State)
      → law.opened s ≡ now
      → Ends now (λ _. now) (result_call S r s)
  result_call-Ends now (ok a) s h = h
  result_call-Ends now (err e) s h = h
  result_call-Ends now panic s h = tt
  result_call-Ends now wild s h = tt
  result_call-Ends now out_of_fuel s h = tt

  pub result_call-Moves :
      {A : Type 0} {now : List ℕ} (r : Result A) → Moves now now (λ _. now) (result_call S r)
  result_call-Moves {now = now} r = record { ends = λ s h. result_call-Ends now r s h }

  -- The descriptor that was opened last is closed.
  pub close-opened :
      (fd : ℕ) (before : List ℕ) (s : S.State)
      → law.opened s ≡ fd ∷ before
      → law.opened (S.close fd s).1 ≡ before
  unfolding remove
  close-opened fd before s h = law.opened-close fd s ∙ ap (remove fd) h ∙ rw (==_self fd) refl

  -- The descriptor that was opened before the last one is closed.
  pub close-opened_second :
      (fd last : ℕ) (before : List ℕ) (s : S.State)
      → law.opened s ≡ last ∷ fd ∷ before
      → law.opened (S.close fd s).1 ≡ last ∷ before
  unfolding remove
  close-opened_second fd last before s h =
      law.opened-close fd s ∙ ap (remove fd) h ∙ elim (ℕ_discrete last fd) [
        | yes same ↦ rw (same, ==_self fd) refl
        | no differs ↦ rw (==_false last fd differs, ==_self fd) refl
      ]
