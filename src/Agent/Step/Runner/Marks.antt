-- ===== src/Agent/Step/Runner/Marks.antt =====
-- The settlement of a step in _backend/apps/api/src/agent-runtime.ts: the gateway is asked only after
-- the marker was committed.
use enclave_developer.Prelude.{
  ℕ, Bool, Keeps, arith, inl, inr, not, ◌&&◌, ◌||◌, keeps, ◌+◌, ◌∷◌, [], ◌++◌, ◌≤◌, Bool-cases,
}
use enclave_developer.Prelude.Text.{Text, same, same_iff}
use enclave_developer.Prelude.Triples.{
  Triple, >>=-Triple, >>-Triple, if-Triple, throw-Triple, pure-Triple, Keeps-Triple, After-both,
}
use enclave_developer.Agent.Gateway.{Host}
use enclave_developer.Agent.Run.{Run, State, Patch, Pending}
use enclave_developer.Agent.Store.{World, read_clock, guard, is_running}
use enclave_developer.Agent.Store.Marked.{marker, markers, asked_for, asked_for-last, AllMarked}
use enclave_developer.Agent.Host.Dispatched.{is_dispatch-marker, IsDispatched, write-IsDispatched}
use enclave_developer.Agent.Host.{is_dispatch}
use enclave_developer.Agent.Host.Makes.{Kept, kept, guard-Kept, Triple-Kept}
use enclave_developer.Agent.Leases.Marked.{Journaled}
use enclave_developer.Agent.Step.{save, admitted, before_deadline}
use enclave_developer.Agent.Step.Runner.{ask_settlement, settle_pending}
use enclave_developer.Agent.Step.Parts.{save-Kept}
use mathlib.Core.Path.{subst}

module _ (host : Host) (lost : ℕ → Bool) where
  -- The ledgers are in order, and the run has a marker for one more settlement.
  abbrev Ready : Text → World → Type 0
  Ready id w = Journaled host.zero_hash w × (asked_for id w.settlements + 1 ≤ markers id w.actions)

  admitted-Triple :
      (r : Run) (gone : Bool)
      → Triple
          (λ w. Journaled host.zero_hash w × IsDispatched host r w)
          (admitted host lost marker r gone)
          (λ q. Ready q.id)
          (Journaled host.zero_hash)
  unfolding admitted
  admitted-Triple r gone =
      if-Triple (is_dispatch marker && (not (is_running r.status) || gone))
        (λ refused. throw-Triple _ (λ w p. p.0))
        (λ going_on. pure-Triple r (λ w p. (
          p.0,
          elim p.1 [
            | inl stopped ↦ absurd (ground (arith, is_dispatch-marker, going_on, stopped))
            | inr marked ↦ marked
          ],
        )))

  clock-Triple :
      {A : Type 0} {P : World → Type 0} (f : ℕ → A)
      → ((w : World) (n : ℕ) → P w → P (record w { clock = n }))
      → {R : World → Type 0} → Triple P (read_clock f) (λ a. P) R
  unfolding read_clock
  clock-Triple f k = record { run = λ w p. k w (w.clock + 1) p }

  save-Ready :
      (token : Text) (r : Run) (state : State) (event : Text) (patch : Patch)
      → Triple
          (Journaled host.zero_hash)
          (save host lost token r state marker event patch)
          (λ q. Ready q.id)
          (Journaled host.zero_hash)
  unfolding save
  save-Ready token r state event patch = >>=-Triple (clock-Triple _ (λ w n p. p)) (λ gone.
      >>-Triple (Keeps-Triple (guard-Kept host _ _) (λ w p. p)) (
        >>=-Triple (write-IsDispatched host r event state patch _) (λ updated.
          >>=-Triple (clock-Triple _ (λ w n p. p)) (λ later. admitted-Triple updated later))))

  clock-Ready : {A : Type 0} (id : Text) (f : ℕ → A) → Keeps (Ready id) (read_clock f)
  unfolding read_clock
  clock-Ready id f = record { keep = λ w p. p }

  before_deadline-Ready : (r : Run) (id : Text) → Keeps (Ready id) (before_deadline host lost r)
  unfolding before_deadline guard
  before_deadline-Ready r id = search (keeps, clock-Ready) depth 6

  asked_once :
      (r : Run) (payment : Text) (w : World)
      → Ready r.id w
      → AllMarked (record w { settlements = w.settlements ++ (r.id, payment) ∷ [] })
  asked_once r payment w h id =
      let last = asked_for-last id w.settlements (r.id, payment) in
      let few = h.0.1 id in
      elim (Bool-cases (same r.id id)) [
        | inl mine ↦
            let free =
              subst (λ x. asked_for x w.settlements + 1 ≤ markers x w.actions)
                ((same_iff r.id id).0 mine) h.1 in
            ground arith
        | inr other ↦ ground arith
      ]

  ask_settlement-Triple :
      (r : Run) (state : State) (p : Pending) (payment : Text)
      → Triple
          (Ready r.id)
          (ask_settlement host lost r state p payment)
          (λ answer. Journaled host.zero_hash)
          (Journaled host.zero_hash)
  unfolding ask_settlement
  ask_settlement-Triple r state p payment = record {
    run = λ w h.
        After-both (Journaled host.zero_hash) (ask_settlement host lost r state p payment w)
          (h.0.0, asked_once r payment w h);
  }

  pub settle_pending-Kept :
      (token : Text) (r : Run) (state : State) (p : Pending) (payment : Text) (amount : ℕ)
      → Kept host (settle_pending host lost token r state p payment amount)
  unfolding settle_pending
  settle_pending-Kept token r state p payment amount = Triple-Kept host (
      >>-Triple (Keeps-Triple (guard-Kept host _ _) (λ w q. q)) (
        >>=-Triple (save-Ready token r _ payment _) (λ marked.
          >>-Triple (Keeps-Triple (before_deadline-Ready marked marked.id) (λ w q. q.0)) (
            >>=-Triple (ask_settlement-Triple marked state p payment)
              (λ answer. Keeps-Triple (search (kept, save-Kept) depth 9) (λ w q. q))))))
