-- ===== src/Agent/Step/Runner.antt =====
-- The end of `runNext` in _backend/apps/api/src/agent-runtime.ts: the challenge, the settlement and
-- the inference of a step, what a fault leaves, and the whole of a call. A settlement is recorded in
-- the trace when the gateway is asked for it, however it answers.
pub mod Whole
pub mod Marks
use enclave_developer.Prelude.{
  ℕ, Bool, Option, true, Result, [], false, some, if◌then◌else◌, none, ok, pure, throw, ◌>>=◌, ◌>>◌,
  catch, err, from_result, leb, ◌+◌, each, ◌++◌, ◌||◌, ◌∷◌, ◌&&◌,
}
use enclave_developer.Agent.Run.{
  Phase, Patch, Pending, Run, State, challenge, outcome_unknown, paid_for, payment_ready, failed,
  inference_dispatched, no_patch, settlement_dispatched,
}
use enclave_developer.Agent.Gateway.{Host, Answer, Response, answered, unpaid, broken}
use enclave_developer.Prelude.Text.{Text, codes, same}
use enclave_developer.Agent.Step.{
  Outcome, ending, finished, before_deadline, going, stop, infer_input, is_conflict, meet_challenge,
  check_session, save, expire_run, with_pending, prepare,
}
use enclave_developer.Agent.Store.{
  AgentFault, Call, Change, call_failed, guard, read_clock, change, payment_required,
}
use enclave_developer.Agent.Requests.{failing}
use enclave_developer.Agent.Leases.{get_run, expired, claim}
use enclave_developer.Agent.Host.{make_change, open_state, uncertain}
use enclave_developer.Agent.Resume.{complete}

abbrev pub is_challenge : Phase → Bool
is_challenge challenge = true
is_challenge _ = false

abbrev is_payment_ready : Phase → Bool
is_payment_ready payment_ready = true
is_payment_ready _ = false

abbrev is_paid_for : Phase → Bool
is_paid_for paid_for = true
is_paid_for _ = false

module _ (host : Host) (lost : ℕ → Bool) where
  answer_challenge : Text → Run → State → Pending → Answer → Call Outcome
  answer_challenge token r state p (answered response) =
      throw (failing "AGENT_UNEXPECTED_CHALLENGE_RESULT")
  answer_challenge token r state p broken = throw call_failed
  answer_challenge token r state p (unpaid none) = throw (failing "AGENT_PAYMENT_CHALLENGE_INVALID")
  answer_challenge token r state p (unpaid (some c)) = meet_challenge host lost token r state p c

  ask_challenge : Text → Run → State → Pending → Call Outcome
  unfolding answer_challenge
  ask_challenge token r state p =
      if is_challenge state.phase
      then (do
        before_deadline host lost r
        answer ← read_clock (λ n. host.infer n (infer_input host lost r state p none))
        answer_challenge token r state p answer)
      else pure (going r state p)

  -- The gateway is asked to settle.
  ask_settlement : Run → State → Pending → Text → Call (Text × Text)
  ask_settlement r state p payment w = (
    elim (host.settle_payment w.clock state.credential payment p.authorization) [
      | none ↦ err call_failed
      | some answer ↦ ok answer
    ],
    record w { clock = w.clock + 1; settlements = w.settlements ++ (r.id, payment) ∷ [] },
  )

  settled_pending : Pending → Text → Pending
  settled_pending p tx = record p { paid = true; settlement_tx = some tx; authorization = none }

  -- The marker is committed before the call, and the amount after it.
  pub settle_pending : Text → Run → State → Pending → Text → ℕ → Call Outcome
  unfolding ask_settlement settled_pending
  settle_pending token r state p payment amount = do
    guard (leb (amount + r.spent) r.max_budget) (failing "AGENT_BUDGET_LIMIT")
    marked ←
        save host lost token r (record state { phase = settlement_dispatched })
          (codes "settlement_dispatched") payment no_patch
    before_deadline host lost marked
    answer ← ask_settlement marked state p payment
    guard (same (answer.0) payment && host.is_hash (answer.1))
        (failing "AGENT_SETTLEMENT_RESULT_INVALID")
    let q = settled_pending p answer.1
    updated ←
        save host lost token marked (with_pending state q paid_for) (codes "settlement_completed")
          payment (record no_patch { spent = some (marked.spent + amount) })
    pure (going updated (with_pending state q paid_for) q)

  settle_known : Text → Run → State → Pending → Option Text → Option ℕ → Call Outcome
  unfolding settle_pending
  settle_known token r state p (some payment) (some amount) =
      settle_pending token r state p payment amount
  settle_known token r state p none amount = throw call_failed
  settle_known token r state p (some payment) none = throw call_failed

  settle_ready : Text → Run → State → Pending → Call Outcome
  unfolding settle_known
  settle_ready token r state p =
      if is_payment_ready state.phase
      then settle_known token r state p p.payment_id p.amount
      else pure (going r state p)

  response_of : Answer → Call (Option Response)
  response_of (answered response) = pure response
  response_of (unpaid c) = throw (payment_required none)
  response_of broken = throw call_failed

  infer_paid : Text → Run → State → Pending → Call Run
  unfolding response_of
  infer_paid token r state p = do
    guard (is_paid_for state.phase) (failing "AGENT_STATE_INVALID")
    let dispatched = record state { phase = inference_dispatched }
    marked ← save host lost token r dispatched (codes "inference_dispatched") [] no_patch
    before_deadline host lost marked
    answer ← read_clock (λ n. host.infer n (infer_input host lost marked state p p.payment_id))
    response ← response_of answer
    fresh ← get_run host.process marked.owner marked.id
    complete host fresh dispatched response (some token) none

  -- What follows a part of the step, unless it ended the step.
  after_part : Outcome → (Run → State → Pending → Call Run) → Call Run
  after_part (finished r) next = pure r
  after_part (going r state p) next = next r state p

  unless_stopped : Text → Run → State → (Run → Call Run) → Call Run
  unless_stopped token r state next = do
    seen ← stop host lost token r state
    if seen.1 then pure seen.0 else next seen.0

  pay_and_infer : Text → Run → State → Pending → Call Run
  unfolding settle_ready infer_paid after_part unless_stopped
  pay_and_infer token r state p = unless_stopped token r state (λ fresh. do
    paid ← settle_ready token fresh state p
    after_part paid (λ r' state' p'.
        unless_stopped token r' state' (λ fresh'. infer_paid token fresh' state' p')))

  -- The step of a run whose state was opened.
  run_step : Text → Run → State → Call Run
  unfolding pay_and_infer ask_challenge after_part unless_stopped
  run_step token r state = unless_stopped token r state (λ fresh. do
    before_deadline host lost fresh
    known ← read_clock (λ n. host.get_agent n state.credential fresh.agent_id)
    guard known call_failed
    ready_step ← prepare host lost token fresh state state.pending
    after_part ready_step (λ r1 s1 p1. do
      checked ← check_session host lost token r1 s1 p1
      after_part checked (λ r2 s2 p2. do
        challenged ← ask_challenge token r2 s2 p2
        after_part challenged (pay_and_infer token))))

  failure_patch : Bool → Patch
  failure_patch true = ending outcome_unknown (some (codes "AGENT_RECONCILIATION_REQUIRED"))
  failure_patch false = ending failed (some (codes "AGENT_STEP_FAILED"))

  -- The committed marker decides whether the outcome of a dispatched call is unknown.
  record_failure : Text → Run → Call Run
  unfolding failure_patch
  record_failure token r = do
    fresh ← get_run host.process r.owner r.id
    state ← from_result (open_state host fresh)
    catch
        (save host lost token fresh state
          (codes (if uncertain state.phase then "outcome_unknown" else "step_failed")) []
          (failure_patch (uncertain state.phase)))
        (λ e. if is_conflict e then get_run host.process r.owner r.id else throw e)

  recover : Text → Run → AgentFault → Call Run
  unfolding record_failure
  recover token r e = do
    gone ← read_clock lost
    if is_conflict e || gone then get_run host.process r.owner r.id else record_failure token r

  unreadable_change : Run → Call Change
  unreadable_change current =
      make_change host current (ending failed (some (codes "AGENT_STATE_UNAVAILABLE")))
        (codes "state_unavailable") []

  run_opened : Text → Run → Result AgentFault State → Call Run
  unfolding run_step recover unreadable_change
  run_opened token r (ok state) = catch (run_step token r state) (recover token r)
  run_opened token r (err e) =
      change host.process r.id
        (record { owner = none; token = some token; version = none; fixed_now = none })
        unreadable_change

  or_empty : Option Text → Text
  or_empty none = []
  or_empty (some t) = t

  run_claimed : Option Run → Call (Option Run)
  unfolding run_opened or_empty
  run_claimed none = pure none
  run_claimed (some r) = do
    ended ← run_opened (or_empty r.lease_token) r (open_state host r)
    pure (some ended)

  run_enabled : Call (Option Run)
  unfolding run_claimed
  run_enabled = do
    now ← read_clock host.process.time
    rows ← expired host.process now
    each (expire_run host lost) rows
    later ← read_clock host.process.time
    claimed_run ← claim host.process later host.lease
    run_claimed claimed_run

  unfoldable pub run_next : Call (Option Run)
  unfolding run_enabled
  run_next = if host.is_enabled then run_enabled else pure none
