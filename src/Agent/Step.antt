-- ===== src/Agent/Step.antt =====
-- `runNext` of `AgentRuntime` in _backend/apps/api/src/agent-runtime.ts: the leases that ran out, and
-- one step of the run that is claimed. The heartbeat's flag `lostLease` is a parameter that is read
-- where the source reads it.
pub mod Parts
pub mod Runner
use enclave_developer.Prelude.{
  ℕ, Bool, Option, true, ◌||◌, false, if◌then◌else◌, leb, some, throw, ◌>>=◌, ◌>>◌, pure, ◌&&◌,
  ◌++◌, [], catch, none, not, ◌+◌, ◌==◌, ltb,
}
use enclave_developer.Agent.Run.{
  Run, RunStatus, State, Pending, Phase, Patch, no_patch, payment_ready, awaiting_authorization,
  awaiting_payment, challenge, failed, exhausted, outcome_unknown,
}
use enclave_developer.Agent.Store.{
  AgentFault, Call, Change, call_failed, conflict, read_clock, guard, change, is_running,
}
use enclave_developer.Agent.Gateway.{
  Host, PaymentStatus, Challenge, InferInput, Payment, open_payment,
}
use enclave_developer.Prelude.Text.{Text, codes}
use enclave_developer.Agent.Host.{is_dispatch, stopping, write, make_change}
use enclave_developer.Agent.Leases.{get_run, ends_by}
use enclave_developer.Prelude.Decimal.{decimal}
use enclave_developer.Agent.Requests.{failing}

-- A part of a step has ended the step, or it goes on.
pub data Outcome : Type 0 where
  finished : Run → Outcome
  going : Run → State → Pending → Outcome

abbrev is_conflict : AgentFault → Bool
is_conflict conflict = true
is_conflict _ = false

abbrev is_open : PaymentStatus → Bool
is_open open_payment = true
is_open _ = false

abbrev ending : RunStatus → Option Text → Patch
ending status code = record no_patch {
  status = some status;
  error_code = some code;
  releases_lease = true;
}

abbrev with_pending : State → Pending → Phase → State
with_pending state p phase = record state { pending = some p; phase = phase }

module _ (host : Host) (lost : ℕ → Bool) where
  expire : Run → Call Change
  expire current = do
    now ← read_clock host.process.time
    guard (is_running current.status && ends_by current.lease_until now) conflict
    make_change host current
        (record no_patch {
          status = some outcome_unknown;
          error_code = some (some (codes "AGENT_LEASE_EXPIRED"));
          releases_lease = true;
        })
        (codes "lease_expired") []

  -- A conflict means that the lease was renewed, or that another runner was first.
  unless_conflict : AgentFault → Call (Unit {0})
  unless_conflict e = if is_conflict e then pure tt else throw e

  unfoldable pub expire_run : Run → Call (Unit {0})
  unfolding expire unless_conflict
  expire_run r = do
    now ← read_clock host.process.time
    catch
        (do
          changed ←
              change host.process r.id
                (record {
                  owner = none;
                  token = none;
                  version = some r.version;
                  fixed_now = some now;
                })
                expire
          pure tt)
        unless_conflict

  admitted : Text → Run → Bool → Call Run
  admitted kind r gone =
      if is_dispatch kind && (not (is_running r.status) || gone) then throw conflict else pure r

  -- `save`
  unfoldable pub save : Text → Run → State → Text → Text → Patch → Call Run
  unfolding admitted
  save token r state kind event patch = do
    gone ← read_clock lost
    guard (not gone) conflict
    updated ← write host r kind event state patch (some token)
    later ← read_clock lost
    admitted kind updated later

  unfoldable pub must_stop : Run → ℕ → Bool
  must_stop r now = r.cancel_requested || leb r.deadline now || leb r.max_steps r.step

  -- `stop`, with the row as it is now.
  unfoldable pub stop : Text → Run → State → Call (Run × Bool)
  stop token r state = do
    fresh ← get_run host.process r.owner r.id
    now ← read_clock host.process.time
    if must_stop fresh now
        then (do
          ended ← save token fresh state (codes "stopped") [] (stopping fresh.cancel_requested)
          pure (ended, true))
        else pure (fresh, false)

  answer_or_fail : {A : Type 0} → Option A → Call A
  answer_or_fail none = throw call_failed
  answer_or_fail (some a) = pure a

  -- `bounded`: a call is made before the deadline alone.
  unfoldable pub before_deadline : Run → Call (Unit {0})
  before_deadline r = do
    now ← read_clock host.process.time
    guard (ltb now r.deadline) (failing "AGENT_DEADLINE_REACHED")

  bounded : {A : Type 0} → Run → (ℕ → Option A) → Call A
  unfolding before_deadline answer_or_fail
  bounded r f = do before_deadline r; answer ← read_clock f; answer_or_fail answer

  prepared : Run → Text → ℕ → Text → Text → Pending
  prepared r session expires key blob = record {
    session_id = session;
    expires_at = expires;
    wrap_key = key;
    idempotency_key = codes "agent-run:" ++ (r.id ++ (codes ":" ++ decimal r.step));
    blob = blob;
    payment_id = none;
    amount = none;
    authorization = none;
    settlement_tx = none;
    paid = false;
  }

  -- The session, the prompt and the challenge's phase of a step that has none.
  unfoldable pub prepare : Text → Run → State → Option Pending → Call Outcome
  unfolding bounded prepared
  prepare token r state (some p) = pure (going r state p)
  prepare token r state none = do
    quote ← bounded r host.quote
    session ← bounded r (λ n. host.open_session n state.credential quote)
    key ← bounded r (λ n. host.wrap_key n state.credential (session.0))
    blob ← read_clock (λ n. host.encrypt n key (host.prompt state (r.step + 1) r.max_steps))
    let p = prepared r session.0 session.1 key blob
    updated ← save token r (with_pending state p challenge) (codes "step_prepared") [] no_patch
    pure (going updated (with_pending state p challenge) p)

  unfoldable pub infer_input : Run → State → Pending → Option Text → InferInput
  infer_input r state p payment = record {
    credential = state.credential;
    agent_id = r.agent_id;
    session_id = p.session_id;
    blob = p.blob;
    payment_id = payment;
    idempotency_key = p.idempotency_key;
  }

  -- An expired session ends the run.
  unfoldable pub check_session : Text → Run → State → Pending → Call Outcome
  check_session token r state p = do
    now ← read_clock host.process.time
    if leb p.expires_at now
        then (do
          ended ←
              save token r state (codes "session_expired") []
                (ending failed (some (codes "AGENT_SESSION_EXPIRED")))
          pure (finished ended))
        else pure (going r state p)

  challenge_phase : Phase
  challenge_phase = if host.is_mock_payment then payment_ready else awaiting_authorization

  -- The payment that is asked for is kept, and the run waits for its authorization unless payments
  -- are mocked.
  require_payment : Text → Run → State → Pending → Challenge → Call Outcome
  unfolding challenge_phase
  require_payment token r state p c = do
    let q = record p { payment_id = some c.payment_id; amount = some c.amount }
    let patch = record no_patch { payment_id = some c.payment_id }
    if host.is_mock_payment
        then (do
          updated ←
              save token r (with_pending state q payment_ready) (codes "payment_required") [] patch
          pure (going updated (with_pending state q payment_ready) q))
        else (do
          updated ←
              save token r (with_pending state q awaiting_authorization) (codes "payment_required")
                [] (record patch { status = some awaiting_payment; releases_lease = true })
          pure (finished updated))

  intended : Challenge → Option Payment → Bool
  intended c none = false
  intended c (some i) = is_open i.status && i.amount == c.amount

  unfoldable pub meet_challenge : Text → Run → State → Pending → Challenge → Call Outcome
  unfolding require_payment intended
  meet_challenge token r state p c = do
    intent ← read_clock (λ n. host.payment n r.owner c.payment_id)
    guard (intended c intent) (failing "AGENT_PAYMENT_CHALLENGE_INVALID")
    if ltb r.max_budget (c.amount + r.spent)
        then (do
          ended ←
              save token r state (codes "budget_exhausted") []
                (ending exhausted (some (codes "AGENT_BUDGET_LIMIT")))
          pure (finished ended))
        else require_payment token r state p c
