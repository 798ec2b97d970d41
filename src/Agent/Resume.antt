-- ===== src/Agent/Resume.antt =====
-- `complete` and `resume` of `AgentRuntime` in _backend/apps/api/src/agent-runtime.ts: what a
-- finished inference makes of a run, and how a run goes on after a payment or an unknown outcome.
pub mod Settled
use enclave_developer.Prelude.{
  ℕ, Option, Bool, none, [], false, if◌then◌else◌, some, true, ◌++◌, pure, throw, ◌&&◌, ◌+◌, ◌==◌,
  ◌>>=◌, ◌>>◌, ◌∷◌, from_result, leb,
}
use enclave_developer.Agent.Run.{
  Run, RunStatus, State, Patch, Pending, Phase, PastStep, no_patch, ready, cancelled, exhausted,
  failed, queued, completed, inference_dispatched, paid_for, payment_ready, running,
  outcome_unknown, settlement_dispatched, awaiting_payment, awaiting_authorization,
}
use enclave_developer.Prelude.Text.{Text, codes, same}
use enclave_developer.Agent.Gateway.{Host, PaymentStatus, Response, Payment, settled_payment}
use enclave_developer.Agent.Store.{Call, call_failed, guard, invalid_input, read_clock}
use enclave_developer.Agent.Host.{write, owner_of, open_state}
use enclave_developer.Agent.Requests.{failing}
use enclave_developer.Agent.Leases.{get_run}

-- The body of `resume`, if it is valid: an authorization or none.
pub data ResumeBody : Type 0 where
  resume_invalid : ResumeBody
  resume_with : Option Text → ResumeBody

abbrev no_pending : State → State
no_pending state = record state { pending = none; phase = ready }

abbrev past_step : Text → Text → Pending → PastStep
past_step output receipt p = record {
  output = output;
  receipt_hash = receipt;
  payment_id = p.payment_id;
  settlement_tx = p.settlement_tx;
  amount = p.amount;
}

abbrev decided_output : Option (Bool × Text) → Text
decided_output none = []
decided_output (some (done, output)) = output

abbrev decided_final : Option (Bool × Text) → Option Text → Option Text
decided_final (some (true, output)) final = some output
decided_final _ final = final

-- The state after an inference.
abbrev pub stepped : State → Pending → Text → Option (Bool × Text) → State
stepped state p receipt decision = record (no_pending state) {
  history = state.history ++ past_step (decided_output decision) receipt p ∷ [];
  final = decided_final decision state.final;
}

-- The status after an inference.
abbrev pub next_status : Run → Option (Bool × Text) → RunStatus
next_status r none = if r.cancel_requested then cancelled else failed
next_status r (some (true, output)) = if r.cancel_requested then cancelled else completed
next_status r (some (false, output)) =
    if r.cancel_requested
    then cancelled
    else if leb r.max_steps (r.step + 1)
    then exhausted
    else queued

abbrev is_exhausted : RunStatus → Bool
is_exhausted exhausted = true
is_exhausted _ = false

abbrev error_after : Option (Bool × Text) → RunStatus → Option Text
error_after none status = some (codes "AGENT_DECISION_INVALID")
error_after (some d) status = if is_exhausted status then some (codes "AGENT_STEP_LIMIT") else none

abbrev pub completion_patch : Run → Text → Option (Bool × Text) → Patch
completion_patch r receipt decision = record no_patch {
  status = some (next_status r decision);
  step = some (r.step + 1);
  receipt_hash = some receipt;
  error_code = some (error_after decision (next_status r decision));
  releases_lease = true;
}

abbrev matches_hash : Option Text → Text → Bool
matches_hash none hash = true
matches_hash (some []) hash = true
matches_hash (some (c ∷ s)) hash = same (c ∷ s) hash

abbrev requeued : Run → Option ℕ → Patch
requeued r spent = record no_patch {
  status = some (if r.cancel_requested then cancelled else queued);
  error_code = some none;
  spent = spent;
}

abbrev is_settled : PaymentStatus → Bool
is_settled settled_payment = true
is_settled _ = false

abbrev equals_amount : Option ℕ → ℕ → Bool
equals_amount none n = false
equals_amount (some m) n = m == n

module _ (host : Host) where
  -- `sha256Hex(plain) !== outputHash`, of what was decrypted.
  check_output : Response → Option Text → Call Text
  check_output response none = throw call_failed
  check_output response (some plain) = do
    guard (same (host.sha256 plain) response.output_hash) (failing "AGENT_RESULT_INVALID")
    pure plain

  complete_pending : Run → State → Pending → Response → Option Text → Option Text → Call Run
  unfolding check_output
  complete_pending r state p response token expected = do
    guard (matches_hash expected response.typed_hash) (failing "AGENT_RESULT_INVALID")
    plain ← check_output response (host.decrypt p.wrap_key response.output)
    let decision = host.read_decision plain
    write host r (codes "inference_completed") response.typed_hash
        (stepped state p response.typed_hash decision)
        (completion_patch r response.typed_hash decision) token

  complete_some :
      Run → State → Option Pending → Option Response → Option Text → Option Text → Call Run
  unfolding complete_pending
  complete_some r state (some p) (some response) token expected =
      complete_pending r state p response token expected
  complete_some r state (some p) none token expected = throw (failing "AGENT_RESULT_INVALID")
  complete_some r state none response token expected = throw (failing "AGENT_RESULT_INVALID")

  unfoldable pub complete : Run → State → Option Response → Option Text → Option Text → Call Run
  unfolding complete_some
  complete r state response token expected =
      complete_some r state state.pending response token expected

  reconcile_inference : Run → State → Option (Option Response × Text) → Call Run
  reconcile_inference r state none = throw (failing "AGENT_RECONCILIATION_REQUIRED")
  reconcile_inference r state (some (response, hash)) = complete r state response none (some hash)

  paid_pending : Pending → Text → Pending
  paid_pending p tx = record p { paid = true; settlement_tx = some tx }

  abbrev proves : Pending → Payment → Bool
  proves p proof = is_settled proof.status && equals_amount p.amount proof.amount

  reconcile_proof : Run → State → Pending → Payment → Option Text → Call Run
  unfolding paid_pending
  reconcile_proof r state p proof none = throw (failing "AGENT_RECONCILIATION_REQUIRED")
  reconcile_proof r state p proof (some []) = throw (failing "AGENT_RECONCILIATION_REQUIRED")
  reconcile_proof r state p proof (some (c ∷ tx)) = do
    guard (proves p proof) (failing "AGENT_RECONCILIATION_REQUIRED")
    write host r (codes "settlement_reconciled") (c ∷ tx)
        (record state { pending = some (paid_pending p (c ∷ tx)); phase = paid_for })
        (requeued r (some (r.spent + proof.amount))) none

  reconcile_payment : Run → State → Pending → Option Payment → Call Run
  unfolding reconcile_proof
  reconcile_payment r state p none = throw (failing "AGENT_RECONCILIATION_REQUIRED")
  reconcile_payment r state p (some proof) = reconcile_proof r state p proof proof.settle_tx

  -- No call that is paid for was dispatched.
  resume_preparation : Run → State → Call Run
  resume_preparation r state =
      write host r (codes "preparation_resumed") [] state (requeued r none) none

  resume_settlement : Text → Run → State → Pending → Option Text → Call Run
  unfolding reconcile_payment resume_preparation
  resume_settlement owner r state p none = resume_preparation r state
  resume_settlement owner r state p (some []) = resume_preparation r state
  resume_settlement owner r state p (some (c ∷ s)) = do
    proof ← read_clock (λ n. host.payment n owner (c ∷ s))
    reconcile_payment r state p proof

  -- An outcome that is not known is looked up, never tried again.
  resume_unknown : Text → Run → State → Phase → Option Pending → Call Run
  unfolding resume_settlement reconcile_inference resume_preparation
  resume_unknown owner r state inference_dispatched (some p) = do
    proof ← read_clock (λ n. host.inference n owner p.idempotency_key)
    reconcile_inference r state proof
  resume_unknown owner r state settlement_dispatched (some p) =
      resume_settlement owner r state p p.payment_id
  resume_unknown owner r state _ _ = resume_preparation r state

  authorize : Run → State → Pending → Option Text → Call Run
  authorize r state p none = throw (failing "AGENT_PAYMENT_AUTHORIZATION_REQUIRED")
  authorize r state p (some auth) =
      write host r (codes "payment_authorized") []
        (record state {
          pending = some (record p { authorization = some auth });
          phase = payment_ready;
        })
        (record no_patch { status = some queued; error_code = some none }) none

  resume_waiting : Run → State → Phase → Option Pending → Option Text → Call Run
  unfolding authorize
  resume_waiting r state awaiting_authorization (some p) auth = authorize r state p auth
  resume_waiting r state _ _ auth = throw (failing "AGENT_RUN_NOT_RESUMABLE")

  resume_status : Text → Run → State → Option Text → RunStatus → Call Run
  unfolding resume_unknown resume_waiting
  resume_status owner r state auth queued = pure r
  resume_status owner r state auth running = pure r
  resume_status owner r state auth outcome_unknown =
      resume_unknown owner r state state.phase state.pending
  resume_status owner r state auth awaiting_payment =
      resume_waiting r state state.phase state.pending auth
  resume_status owner r state auth completed = pure r
  resume_status owner r state auth cancelled = pure r
  resume_status owner r state auth failed = pure r
  resume_status owner r state auth exhausted = pure r

  resume_valid : Text → Run → State → ResumeBody → Call Run
  unfolding resume_status
  resume_valid owner r state resume_invalid = throw invalid_input
  resume_valid owner r state (resume_with auth) = resume_status owner r state auth r.status

  unfoldable pub resume : Text → Text → ResumeBody → Call Run
  unfolding resume_valid
  resume api_key id body = do
    owner ← owner_of host api_key
    r ← get_run host.process owner id
    state ← from_result (open_state host r)
    resume_valid owner r state body
