-- ===== src/Agent/Resume/Settled.antt =====
-- `resume` and `complete` in _backend/apps/api/src/agent-runtime.ts against the ledgers.
use enclave_developer.Prelude.{Option, some, throw-Keeps, none, pure-Keeps, ◌∷◌, []}
use enclave_developer.Agent.Gateway.{Host, Response, Payment}
use enclave_developer.Agent.Resume.{
  complete, resume, authorize, check_output, complete_pending, complete_some, reconcile_inference,
  reconcile_payment, reconcile_proof, resume_preparation, resume_settlement, resume_status,
  resume_unknown, resume_valid, resume_waiting, ResumeBody, resume_with, resume_invalid,
}
use enclave_developer.Agent.Run.{
  Run, State, Pending, Phase, RunStatus, outcome_unknown, awaiting_payment, settlement_dispatched,
  inference_dispatched,
}
use enclave_developer.Prelude.Text.{Text}
use enclave_developer.Agent.Host.Makes.{Kept, kept, write-Kept}

module _ (host : Host) where
  check_output-Kept :
      (response : Response) (plain : Option Text) → Kept host (check_output host response plain)
  unfolding check_output
  check_output-Kept response none = throw-Keeps _
  check_output-Kept response (some plain) = search (kept) depth 6

  complete_pending-Kept :
      (r : Run) (state : State) (p : Pending) (response : Response) (token expected : Option Text)
      → Kept host (complete_pending host r state p response token expected)
  unfolding complete_pending
  complete_pending-Kept r state p response token expected = search (kept, check_output-Kept) depth 9

  complete_some-Kept :
      (r : Run) (state : State) (p : Option Pending) (response : Option Response)
      (token expected : Option Text)
      → Kept host (complete_some host r state p response token expected)
  unfolding complete_some
  complete_some-Kept r state (some p) (some response) token expected =
      complete_pending-Kept r state p response token expected
  complete_some-Kept r state (some p) none token expected = throw-Keeps _
  complete_some-Kept r state none response token expected = throw-Keeps _

  pub complete-Kept :
      (r : Run) (state : State) (response : Option Response) (token expected : Option Text)
      → Kept host (complete host r state response token expected)
  unfolding complete
  complete-Kept r state response token expected =
      complete_some-Kept r state state.pending response token expected

  reconcile_inference-Kept :
      (r : Run) (state : State) (proof : Option (Option Response × Text))
      → Kept host (reconcile_inference host r state proof)
  unfolding reconcile_inference
  reconcile_inference-Kept r state none = throw-Keeps _
  reconcile_inference-Kept r state (some (response, hash)) =
      complete-Kept r state response none (some hash)

  reconcile_proof-Kept :
      (r : Run) (state : State) (p : Pending) (proof : Payment) (tx : Option Text)
      → Kept host (reconcile_proof host r state p proof tx)
  unfolding reconcile_proof
  reconcile_proof-Kept r state p proof none = throw-Keeps _
  reconcile_proof-Kept r state p proof (some []) = throw-Keeps _
  reconcile_proof-Kept r state p proof (some (c ∷ tx)) = search (kept) depth 6

  reconcile_payment-Kept :
      (r : Run) (state : State) (p : Pending) (proof : Option Payment)
      → Kept host (reconcile_payment host r state p proof)
  unfolding reconcile_payment
  reconcile_payment-Kept r state p none = throw-Keeps _
  reconcile_payment-Kept r state p (some proof) =
      reconcile_proof-Kept r state p proof proof.settle_tx

  resume_preparation-Kept : (r : Run) (state : State) → Kept host (resume_preparation host r state)
  unfolding resume_preparation
  resume_preparation-Kept r state = write-Kept host r _ _ _ _ none

  resume_settlement-Kept :
      (owner : Text) (r : Run) (state : State) (p : Pending) (payment : Option Text)
      → Kept host (resume_settlement host owner r state p payment)
  unfolding resume_settlement
  resume_settlement-Kept owner r state p none = resume_preparation-Kept r state
  resume_settlement-Kept owner r state p (some []) = resume_preparation-Kept r state
  resume_settlement-Kept owner r state p (some (c ∷ s)) =
      search (kept, reconcile_payment-Kept) depth 6

  resume_unknown-Kept :
      (owner : Text) (r : Run) (state : State) (phase : Phase) (p : Option Pending)
      → Kept host (resume_unknown host owner r state phase p)
  unfolding resume_unknown
  resume_unknown-Kept owner r state inference_dispatched (some p) =
      search (kept, reconcile_inference-Kept) depth 6
  resume_unknown-Kept owner r state settlement_dispatched (some p) =
      resume_settlement-Kept owner r state p p.payment_id
  resume_unknown-Kept owner r state settlement_dispatched none = resume_preparation-Kept r state
  resume_unknown-Kept owner r state inference_dispatched none = resume_preparation-Kept r state
  resume_unknown-Kept owner r state Phase.ready _ = resume_preparation-Kept r state
  resume_unknown-Kept owner r state Phase.challenge _ = resume_preparation-Kept r state
  resume_unknown-Kept owner r state Phase.awaiting_authorization _ = resume_preparation-Kept r state
  resume_unknown-Kept owner r state Phase.payment_ready _ = resume_preparation-Kept r state
  resume_unknown-Kept owner r state Phase.paid_for _ = resume_preparation-Kept r state

  authorize-Kept :
      (r : Run) (state : State) (p : Pending) (auth : Option Text)
      → Kept host (authorize host r state p auth)
  unfolding authorize
  authorize-Kept r state p none = throw-Keeps _
  authorize-Kept r state p (some auth) = write-Kept host r _ _ _ _ none

  resume_waiting-Kept :
      (r : Run) (state : State) (phase : Phase) (p : Option Pending) (auth : Option Text)
      → Kept host (resume_waiting host r state phase p auth)
  unfolding resume_waiting
  resume_waiting-Kept r state Phase.awaiting_authorization (some p) auth =
      authorize-Kept r state p auth
  resume_waiting-Kept r state Phase.awaiting_authorization none auth = throw-Keeps _
  resume_waiting-Kept r state Phase.ready _ auth = throw-Keeps _
  resume_waiting-Kept r state Phase.challenge _ auth = throw-Keeps _
  resume_waiting-Kept r state Phase.payment_ready _ auth = throw-Keeps _
  resume_waiting-Kept r state Phase.settlement_dispatched _ auth = throw-Keeps _
  resume_waiting-Kept r state Phase.paid_for _ auth = throw-Keeps _
  resume_waiting-Kept r state Phase.inference_dispatched _ auth = throw-Keeps _

  resume_status-Kept :
      (owner : Text) (r : Run) (state : State) (auth : Option Text) (status : RunStatus)
      → Kept host (resume_status host owner r state auth status)
  unfolding resume_status
  resume_status-Kept owner r state auth outcome_unknown =
      resume_unknown-Kept owner r state state.phase state.pending
  resume_status-Kept owner r state auth awaiting_payment =
      resume_waiting-Kept r state state.phase state.pending auth
  resume_status-Kept owner r state auth _ = pure-Keeps _

  resume_valid-Kept :
      (owner : Text) (r : Run) (state : State) (body : ResumeBody)
      → Kept host (resume_valid host owner r state body)
  unfolding resume_valid
  resume_valid-Kept owner r state resume_invalid = throw-Keeps _
  resume_valid-Kept owner r state (resume_with auth) =
      resume_status-Kept owner r state auth r.status

  pub resume-Kept :
      (api_key id : Text) (body : ResumeBody) → Kept host (resume host api_key id body)
  unfolding resume
  resume-Kept api_key id body = search (kept, resume_valid-Kept) depth 9
