-- ===== src/Agent/Host/Dispatched.antt =====
-- `write` of _backend/apps/api/src/agent-runtime.ts for a settlement: the marker is in the ledger, or
-- the run has been stopped.
use enclave_developer.Prelude.{
  ℕ, Bool, Option, Result, ok, err, ◌≡◌, ◌⊎◌, inl, inr, true, false, refl, if◌then◌else◌, [], ◌&&◌,
  ◌+◌, arith, ◌≤◌,
}
use enclave_developer.Prelude.Text.{Text, codes, same_refl, same, same_iff}
use enclave_developer.Prelude.Triples.{After, Triple}
use enclave_developer.Agent.Gateway.{Host}
use enclave_developer.Agent.Run.{Run, Patch, State, Action, cancelled, exhausted}
use enclave_developer.Agent.Store.{World, Change, AgentFault, advanced, is_running, Fence}
use enclave_developer.Agent.Store.Fenced.{Reads, IsAdvanced, Untouched, change-IsAdvanced}
use enclave_developer.Agent.Store.Marked.{marker, markers, asked_for, markers-last, change-Marked}
use enclave_developer.Agent.Host.{
  action, make_change, mutation, write, dispatch_change, ordinary_change, is_dispatch, stopping,
  write_fence,
}
use enclave_developer.Agent.Host.Makes.{
  Anything, >>=-Reads, >>-Reads, pure-Reads, read_clock-Reads, guard-Reads, if-Reads, write-Kept,
}
use enclave_developer.Agent.Leases.Marked.{Journaled}

pub is_dispatch-marker : is_dispatch marker ≡ true
is_dispatch-marker = rw (same_refl marker) refl

-- The change records the dispatch, or it ends the run.
abbrev Dispatches : Run → Change → Type 0
Dispatches r c =
    (c.action.run_id ≡ r.id)
    × ((c.action.kind ≡ marker) ⊎ ((now : ℕ) → is_running (advanced c now r).status ≡ false))

stopped_status : (asked : Bool) → is_running (if asked then cancelled else exhausted) ≡ false
stopped_status true = refl
stopped_status false = refl

module _ (host : Host) where
  abbrev IsOf : Run → Text → Action → Type 0
  IsOf r kind a = (a.run_id ≡ r.id) × (a.kind ≡ kind)

  action-IsOf : (r : Run) (kind event : Text) → Reads (IsOf r kind) (action host r kind event)
  unfolding action
  action-IsOf r kind event = >>=-Reads Anything (read_clock-Reads _) (λ created u.
      >>=-Reads Anything (read_clock-Reads _) (λ payload u'.
        >>=-Reads Anything (read_clock-Reads _) (λ id u''. pure-Reads _ (refl, refl))))

  stopping-Reads :
      (r : Run) (event : Text)
      → Reads
          (Dispatches r)
          (make_change host r (stopping r.cancel_requested) (codes "stopped") event)
  unfolding make_change
  stopping-Reads r event =
      >>=-Reads (IsOf r (codes "stopped")) (action-IsOf r _ event)
        (λ a f. pure-Reads _ (f.0, inr (λ now. stopped_status r.cancel_requested)))

  marking-Reads :
      (r : Run) (event : Text) (state : State) (patch : Patch)
      → Reads (Dispatches r) (ordinary_change host r marker event state patch)
  unfolding ordinary_change make_change
  marking-Reads r event state patch = >>=-Reads Anything (read_clock-Reads _) (λ s u.
      >>=-Reads (IsOf r marker) (action-IsOf r marker event) (λ a f. pure-Reads _ (f.0, inl f.1)))

  dispatch-Reads :
      (event : Text) (state : State) (patch : Patch) (r : Run)
      → Reads (Dispatches r) (dispatch_change host r marker event state patch)
  unfolding dispatch_change
  dispatch-Reads event state patch r = >>=-Reads Anything (read_clock-Reads _) (λ now u.
      >>-Reads Anything (guard-Reads _ _) (
        >>=-Reads Anything (read_clock-Reads _)
          (λ later u'. if-Reads _ (stopping-Reads r []) (marking-Reads r event state patch))))

  marking_mutation-Reads :
      (event : Text) (state : State) (patch : Patch) (r : Run)
      → Reads (Dispatches r) (mutation host marker event state patch r)
  unfolding mutation
  marking_mutation-Reads event state patch r =
      rw is_dispatch-marker (dispatch-Reads event state patch r)

  -- The run goes on only with a marker for one more settlement.
  abbrev pub IsDispatched : Run → World → Type 0
  IsDispatched r w =
      (is_running r.status ≡ false) ⊎ (asked_for r.id w.settlements + 1 ≤ markers r.id w.actions)

  from_advanced :
      (before : World) (id : Text) (fence : Fence) (r : Run) (w : World)
      → Journaled host.zero_hash before
      → w.settlements ≡ before.settlements
      → IsAdvanced Dispatches host.process before id fence r w
      → IsDispatched r w
  from_advanced before id fence r w h e a = elim a.suits.1 [
    | inr stopped ↦ inl (rw a.result (stopped a.now))
    | inl marks ↦
        let own : (same a.made.action.run_id a.row.id && same a.made.action.kind marker) ≡ true =
          ground (arith, (same_iff _ _).1 a.suits.0, (same_iff _ _).1 marks) in
        let few = h.1 a.row.id in
        inr (
          rw (a.result, a.logged, e, markers-last a.row.id before.actions a.made.action own)
            (omega arith))
  ]

  after_write :
      (before : World) (id : Text) (fence : Fence) (r : Result AgentFault Run × World)
      → Journaled host.zero_hash before
      → Journaled host.zero_hash r.1
      → r.1.settlements ≡ before.settlements
      → After (IsAdvanced Dispatches host.process before id fence) (Untouched before) r
      → After (λ q w. Journaled host.zero_hash w × IsDispatched q w) (Journaled host.zero_hash) r
  after_write before id fence (ok q, w) b h e a = (h, from_advanced before id fence q w b e a)
  after_write before id fence (err x, w) b h e a = h

  pub write-IsDispatched :
      (r : Run) (event : Text) (state : State) (patch : Patch) (token : Option Text)
      → Triple
          (Journaled host.zero_hash)
          (write host r marker event state patch token)
          (λ q w. Journaled host.zero_hash w × IsDispatched q w)
          (Journaled host.zero_hash)
  unfolding write
  write-IsDispatched r event state patch token = record {
    run = λ w h.
        after_write w r.id (write_fence host r token) _ h
          ((write-Kept host r marker event state patch token).keep w h)
          ((change-Marked w.settlements host.process r.id _ _ Dispatches
              (marking_mutation-Reads event state patch)).keep
            w (refl, h.1)).0
          (change-IsAdvanced Dispatches host.process r.id (write_fence host r token) _ w
            (marking_mutation-Reads event state patch));
  }
