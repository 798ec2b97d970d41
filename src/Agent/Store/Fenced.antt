-- ===== src/Agent/Store/Fenced.antt =====
-- What `change` of _backend/apps/api/src/agent-runtime-store.ts found when it returned, and what it
-- left.
use mathlib.Core.Path.{subst}
use enclave_developer.Prelude.{
  ℕ, ◌≡◌, ◌<◌, ◌≤◌, ==_iff, Bool, find_first, refl, some, true, update_where, ◌++◌, ◌∷◌, [], ok,
  Bool-cases, any, ap, ◌∙◌, inl, inr, Option, Result, none, err, ◌&&◌, arith, sym, and-elim, ◌>>=◌,
  ◌>>◌, pure,
}
use enclave_developer.Agent.Store.{
  Process, World, Call, Fence, fence_time, guard, read_clock, runs, Change, AgentFault, has_id,
  fits, fits_version, fits_lease, advanced, is_version, change_row, insert_action, update_run,
  assert_run_fence, equals_token, ends_after, is_running, same_place, change, change_call, settle,
  transaction, time_of,
}
use enclave_developer.Prelude.Text.{Text, same_iff}
use enclave_developer.Agent.Run.{
  Run, Action, RunStatus, running, queued, awaiting_payment, outcome_unknown, completed, cancelled,
  failed, exhausted,
}
use enclave_developer.Prelude.Triples.{
  Triple, if-Triple, pure-Triple, throw-Triple, After-map, >>=-Triple, After, before-Triple,
  >>-Triple, assume-Triple, from_result-Triple,
}

-- The tables are as they were.
abbrev pub Untouched : World → World → Type 0
Untouched before w = (w.runs ≡ before.runs) × (w.actions ≡ before.actions)

-- The time of a fence at a reading of the clock.
abbrev pub time_at : Process → Option ℕ → ℕ → ℕ
time_at process none read = process.time read
time_at process (some now) read = now

-- The row is that of the owner of the fence and has its version, and for a token the run is running
-- and leased under the token beyond the moment. An empty text is as good as none.
pub record IsAdmitted (fence : Fence) (moment : ℕ) (row : Run) : Type 0 where
  pub of_owner : (c : ℕ) (owner : Text) → fence.owner ≡ some (c ∷ owner) → row.owner ≡ c ∷ owner
  pub of_version : (version : ℕ) → fence.version ≡ some version → row.version ≡ version
  pub leased :
      (c : ℕ) (token : Text)
      → fence.token ≡ some (c ∷ token)
      → (row.status ≡ running)
        × (row.lease_token ≡ some (c ∷ token))
        × ((until : ℕ) × (row.lease_until ≡ some until) × (moment < until))

-- The row was admitted by the fence at the time of the call, and it and the ledger have been
-- advanced by one action, at a time of the fence or one that the clock gave during the call.
pub record IsAdvanced (Q : Run → Change → Type 0) (process : Process) (before : World) (id : Text)
    (fence : Fence) (r' : Run) (w : World) : Type 0 where
  pub row : Run
  pub moment : ℕ
  pub now : ℕ
  pub made : Change
  pub suits : Q row made
  pub at_call : moment ≡ time_at process fence.fixed_now before.clock
  pub dated : (read : ℕ) × (before.clock ≤ read) × (now ≡ time_at process fence.fixed_now read)
  pub found : find_first (has_id id) before.runs ≡ some row
  pub admitted : IsAdmitted fence moment row
  pub result : r' ≡ advanced made now row
  pub left : w.runs ≡ update_where (is_version row) (advanced made now) before.runs
  pub logged : w.actions ≡ before.actions ++ made.action ∷ []

-- A call that reads the clock alone, with what it gives.
pub record Reads {A : Type 0} (Q : A → Type 0) (m : Call A) : Type 0 where
  pub same_runs : (w : World) → (m w).1.runs ≡ w.runs
  pub same_actions : (w : World) → (m w).1.actions ≡ w.actions
  pub same_settlements : (w : World) → (m w).1.settlements ≡ w.settlements
  pub onwards : (w : World) → w.clock ≤ (m w).1.clock
  pub gives : (w : World) → After (λ a v. Q a) (λ v. Unit {0}) (m w)

is_running-eq : (s : RunStatus) → is_running s ≡ true → s ≡ running
is_running-eq running e = refl
is_running-eq queued e = cc
is_running-eq awaiting_payment e = cc
is_running-eq outcome_unknown e = cc
is_running-eq completed e = cc
is_running-eq cancelled e = cc
is_running-eq failed e = cc
is_running-eq exhausted e = cc

equals_token-eq : (o : Option Text) (t : Text) → equals_token o t ≡ true → o ≡ some t
equals_token-eq none t e = cc
equals_token-eq (some s) t e = ap some ((same_iff s t).0 e)

ends_after-lt :
    (o : Option ℕ) (now : ℕ)
    → ends_after o now ≡ true
    → (until : ℕ) × (o ≡ some until) × (now < until)
ends_after-lt none now e = cc
ends_after-lt (some until) now e = (until, refl, ground arith)

fits-IsAdmitted :
    (fence : Fence) (moment : ℕ) (r : Run)
    → fits fence.owner r.owner ≡ true
    → fits_version fence.version r.version ≡ true
    → fits_lease fence.token moment r ≡ true
    → IsAdmitted fence moment r
fits-IsAdmitted fence moment r o v l = record {
  of_owner = λ c owner e. (same_iff r.owner (c ∷ owner)).0 (subst (λ x. fits x r.owner ≡ true) e o);
  of_version = λ version e.
      let k = subst (λ x. fits_version x r.version ≡ true) e v in
      sym ((==_iff version r.version).0 k);
  leased = λ c token e.
      let k = subst (λ x. fits_lease x moment r ≡ true) e l in
      let state : is_running r.status ≡ true = ground arith in
      let held : equals_token r.lease_token (c ∷ token) ≡ true = ground arith in
      let in_time : ends_after r.lease_until moment ≡ true = ground arith in
      (
        is_running-eq r.status state,
        equals_token-eq r.lease_token (c ∷ token) held,
        ends_after-lt r.lease_until moment in_time,
      );
}

module _ (Q : Run → Change → Type 0) (process : Process) (id : Text) (fence : Fence)
    (before : World) where
  abbrev Start : World → Type 0
  Start w = (w.runs ≡ before.runs) × (w.actions ≡ before.actions) × (before.clock ≤ w.clock)

  abbrev Any : World → Type 0
  Any w = Unit {0}

  -- A time that the process has read, or that the fence has.
  abbrev IsDated : ℕ → Type 0
  IsDated now = (read : ℕ) × (before.clock ≤ read) × (now ≡ time_at process fence.fixed_now read)

  time_of-Triple :
      (o : Option ℕ)
      → Triple Start
          (time_of process o)
          (λ now w. ((read : ℕ) × (before.clock ≤ read) × (now ≡ time_at process o read)) × Start w)
          Any
  unfolding time_of read_clock
  time_of-Triple none = record {
    run = λ w p. let onward = p.2 in ((w.clock, p.2, refl), (p.0, p.1, omega arith));
  }
  time_of-Triple (some now) = pure-Triple now (λ w p. ((w.clock, p.2, refl), p))

  fence_time-Triple : Triple Start (fence_time process fence) (λ now w. IsDated now × Start w) Any
  unfolding fence_time
  fence_time-Triple = time_of-Triple fence.fixed_now

  -- The first reading, at the call.
  first_time_of-Triple :
      (o : Option ℕ)
      → Triple
          (λ w. Start w × (w.clock ≡ before.clock))
          (time_of process o)
          (λ now w. (now ≡ time_at process o before.clock) × Start w)
          Any
  unfolding time_of read_clock
  first_time_of-Triple none = record {
    run = λ w p. let onward = p.0.2 in (ap process.time p.1, (p.0.0, p.0.1, omega arith));
  }
  first_time_of-Triple (some now) = pure-Triple now (λ w p. (refl, p.0))

  first_time-Triple :
      Triple
        (λ w. Start w × (w.clock ≡ before.clock))
        (fence_time process fence)
        (λ now w. (now ≡ time_at process fence.fixed_now before.clock) × Start w)
        Any
  unfolding fence_time
  first_time-Triple = first_time_of-Triple fence.fixed_now

  pub runs-Triple : {P : World → Type 0} → Triple P runs (λ rows w. P w × (w.runs ≡ rows)) Any
  unfolding runs
  runs-Triple = record { run = λ w p. (p, refl) }

  guard-Triple :
      {P : World → Type 0} (b : Bool) (e : AgentFault) → Triple P (guard b e) (λ u. P) Any
  unfolding guard
  guard-Triple b e = if-Triple b (λ x. pure-Triple tt (λ w p. p)) (λ x. throw-Triple e (λ w p. tt))

  -- The row has been written, and the ledger has not.
  abbrev Written : Run → (Run → Run) → Run → World → Type 0
  Written r f r' w =
      (r' ≡ f r)
      × (w.runs ≡ update_where (is_version r) f before.runs)
      × (w.actions ≡ before.actions)

  update_run-Triple :
      (r : Run) (f : Run → Run) → Triple Start (update_run process r f) (Written r f) Any
  unfolding update_run
  update_run-Triple r f = >>=-Triple (runs-Triple {P = Start}) (λ rows.
      before-Triple {P' = Start} (λ w p. p.0)
        (>>-Triple (guard-Triple _ _) (
          >>-Triple (guard-Triple _ _) (
            >>-Triple
              {Q = λ w.
                (w.runs ≡ update_where (is_version r) f before.runs) × (w.actions ≡ before.actions)}
              (record { run = λ w p. (ap (update_where (is_version r) f) p.0, p.1) })
              (pure-Triple (f r) (λ w p. (refl, p.0, p.1)))))))

  inserted :
      (a : Action) (w : World)
      → w.actions ≡ before.actions
      → After
          (λ u v. (v.runs ≡ w.runs) × (v.actions ≡ before.actions ++ a ∷ []))
          Any
          (insert_action a w)
  unfolding insert_action
  inserted a w e = elim (Bool-cases (any (same_place a) w.actions)) [
    | inl taken ↦ rw taken tt
    | inr free ↦ rw free (refl, ap (λ as_rows. as_rows ++ a ∷ []) e)
  ]

  admit :
      (moment : ℕ) (o : Option Run) (r : Run)
      → assert_run_fence o fence moment ≡ ok r
      → (o ≡ some r) × IsAdmitted fence moment r
  unfolding assert_run_fence
  admit moment none r e = cc
  admit moment (some q) r e = elim (Bool-cases (fits fence.owner q.owner)) [
    | inl owned ↦
        elim (Bool-cases
          (fits_version fence.version q.version && fits_lease fence.token moment q)) [
            | inl fit ↦
                let same_row : q ≡ r = ground arith in
                let (v, l) = and-elim _ _ fit in
                subst (λ x. (some q ≡ some x) × IsAdmitted fence moment x) same_row
                  (refl, fits-IsAdmitted fence moment q owned v l)
            | inr unfit ↦ absurd (ground arith)
          ]
    | inr foreign ↦ absurd (ground arith)
  ]

  gave :
      {A : Type 0} (P : A → Type 0) (r : Result AgentFault A × World)
      → After (λ a v. P a) Any r
      → Start r.1
      → After (λ a v. P a × Start v) Any r
  gave P (ok a, w) g h = (g, h)
  gave P (err e, w) g h = tt

  module _ (mutate : Run → Call Change) (reads : (r : Run) → Reads (Q r) (mutate r)) where
    mutate-Triple : (r : Run) → Triple Start (mutate r) (λ c w. Q r c × Start w) Any
    mutate-Triple r = record {
      run = λ w p. gave (Q r) (mutate r w) ((reads r).gives w) (
        (reads r).same_runs w ∙ p.0,
        (reads r).same_actions w ∙ p.1,
        (let at_first = p.2 in let onward = (reads r).onwards w in omega arith),
      );
    }

    made-Triple :
        (r : Run) (moment : ℕ) (c : Change)
        → find_first (has_id id) before.runs ≡ some r
        → IsAdmitted fence moment r
        → moment ≡ time_at process fence.fixed_now before.clock
        → Q r c
        → Triple Start
            (fence_time process fence >>= λ now.
              update_run process r (advanced c now) >>= λ updated.
              insert_action c.action >> pure updated)
            (IsAdvanced Q process before id fence)
            Any
    made-Triple r moment c found admitted at_call suits = >>=-Triple fence_time-Triple (λ now.
        assume-Triple (λ w p. p.0)
          (λ dated.
            before-Triple {P' = Start} (λ w p. p.1)
              (>>=-Triple (update_run-Triple r (advanced c now)) (λ updated.
                >>-Triple
                  {Q = λ w.
                    (updated ≡ advanced c now r)
                    × (w.runs ≡ update_where (is_version r) (advanced c now) before.runs)
                    × (w.actions ≡ before.actions ++ c.action ∷ [])}
                  (record {
                    run = λ w p.
                        After-map _ _ Any (insert_action c.action w)
                          (λ u v q. (p.0, q.0 ∙ p.1, q.1)) (inserted c.action w p.2);
                  })
                  (pure-Triple updated (λ w p. record {
                    row = r;
                    moment = moment;
                    now = now;
                    made = c;
                    suits = suits;
                    at_call = at_call;
                    dated = dated;
                    found = found;
                    admitted = admitted;
                    result = p.0;
                    left = p.1;
                    logged = p.2;
                  }))))))

    change_row-Triple :
        (r : Run) (moment : ℕ)
        → find_first (has_id id) before.runs ≡ some r
        → IsAdmitted fence moment r
        → moment ≡ time_at process fence.fixed_now before.clock
        → Triple Start
            (change_row process mutate fence r)
            (IsAdvanced Q process before id fence)
            Any
    unfolding change_row
    change_row-Triple r moment found admitted at_call = >>=-Triple (mutate-Triple r) (λ c.
        assume-Triple (λ w p. p.0)
          (λ suits.
            before-Triple {P' = Start} (λ w p. p.1)
              (made-Triple r moment c found admitted at_call suits)))

    change_call-Triple :
        Triple
          (λ w. Start w × (w.clock ≡ before.clock))
          (change_call process id fence mutate)
          (IsAdvanced Q process before id fence)
          Any
    unfolding change_call
    change_call-Triple =
        >>=-Triple (runs-Triple {P = λ w. Start w × (w.clock ≡ before.clock)}) (λ rows.
          assume-Triple (λ w p. let e : before.runs ≡ rows = sym p.0.0.0 ∙ p.1 in e)
            (λ e.
              before-Triple {P' = λ w. Start w × (w.clock ≡ before.clock)} (λ w p. p.0)
                (>>=-Triple first_time-Triple (λ moment.
                  assume-Triple (λ w p. p.0)
                    (λ at_call.
                      before-Triple {P' = Start} (λ w p. p.1)
                        (>>=-Triple
                          (from_result-Triple
                            (assert_run_fence (find_first (has_id id) rows) fence moment)
                            (λ w p. tt))
                          (λ r.
                            assume-Triple (λ w p. admit moment _ r p.1)
                              (λ admitted.
                                before-Triple (λ w p. p.0)
                                  (change_row-Triple r moment
                                    (ap (find_first (has_id id)) e ∙ admitted.0) admitted.1
                                    at_call)))))))))

  settled :
      (r : Result AgentFault Run × World)
      → After (IsAdvanced Q process before id fence) Any r
      → After (IsAdvanced Q process before id fence) (Untouched before) (settle before r)
  unfolding settle
  settled (ok a, w) h = h
  settled (err e, w) h = (refl, refl)

-- If a mutation reads the clock alone and what it gives satisfies a condition, then where `change`
-- returns, the row of the id had the owner and the version of the fence, and for a token that is
-- not empty it was running and leased under that token beyond the time of the call (that which the
-- fence has or the clock gave when the call began), the row is advanced by a change of that
-- condition and nothing else but the new action is written; where it throws, the tables are as
-- they were.
pub change-IsAdvanced :
    (Q : Run → Change → Type 0) (process : Process) (id : Text) (fence : Fence)
    (mutate : Run → Call Change) (w : World)
    → ((r : Run) → Reads (Q r) (mutate r))
    → After (IsAdvanced Q process w id fence) (Untouched w) (change process id fence mutate w)
unfolding change transaction
change-IsAdvanced Q process id fence mutate w reads =
    settled Q process id fence w (change_call process id fence mutate w) (
      (change_call-Triple Q process id fence w mutate reads).run w
        ((refl, refl, (omega arith)), refl))
