-- ===== src/Agent/Run.antt =====
-- The rows of the tables of _backend/packages/db/src/agent-runtime-schema.ts that
-- _backend/apps/api/src/agent-runtime-store.ts works on, and the sealed state of a run, as in
-- agent-runtime.ts. Amounts are numbers, and a moment is its number of milliseconds.
use enclave_developer.Prelude.{ℕ, Option, if◌then◌else◌, none, Bool, List, false, some, ◌||◌}
use enclave_developer.Prelude.Text.{Text}

pub data RunStatus : Type 0 where
  queued running awaiting_payment outcome_unknown completed cancelled failed exhausted : RunStatus

pub record Run : Type 0 where
  pub id : Text
  pub owner : Text
  pub agent_id : Text
  pub idempotency_key : Text
  pub request_hash : Text
  pub status : RunStatus
  pub step : ℕ
  pub max_steps : ℕ
  pub max_budget : ℕ
  pub spent : ℕ
  pub deadline : ℕ
  pub sealed_state : Text
  pub version : ℕ
  pub lease_token : Option Text
  pub lease_until : Option ℕ
  pub cancel_requested : Bool
  pub error_code : Option Text
  pub payment_id : Option Text
  pub receipt_hash : Option Text
  pub ledger_sequence : ℕ
  pub ledger_head : Text
  pub created_at : ℕ
  pub updated_at : ℕ

pub record Action : Type 0 where
  pub id : Text
  pub run_id : Text
  pub sequence : ℕ
  pub kind : Text
  pub previous_hash : Text
  pub action_hash : Text
  pub sealed_payload : Text
  pub created_at : ℕ

-- `Partial<AgentRunRow>`, of the columns that are ever patched.
pub record Patch : Type 0 where
  pub status : Option RunStatus
  pub releases_lease : Bool
  pub error_code : Option (Option Text)
  pub step : Option ℕ
  pub spent : Option ℕ
  pub payment_id : Option Text
  pub receipt_hash : Option Text
  pub requests_cancel : Bool
  pub sealed_state : Option Text

abbrev pub no_patch : Patch
no_patch = record {
  status = none;
  releases_lease = false;
  error_code = none;
  step = none;
  spent = none;
  payment_id = none;
  receipt_hash = none;
  requests_cancel = false;
  sealed_state = none;
}

abbrev pub given : {A : Type 0} → Option A → A → A
given none a = a
given (some b) a = b

abbrev pub or_given : {A : Type 0} → Option A → Option A → Option A
or_given none o = o
or_given (some a) o = some a

abbrev pub apply_patch : Patch → Run → Run
apply_patch p r = record r {
  status = given p.status r.status;
  lease_token = if p.releases_lease then none else r.lease_token;
  lease_until = if p.releases_lease then none else r.lease_until;
  error_code = given p.error_code r.error_code;
  step = given p.step r.step;
  spent = given p.spent r.spent;
  payment_id = or_given p.payment_id r.payment_id;
  receipt_hash = or_given p.receipt_hash r.receipt_hash;
  cancel_requested = p.requests_cancel || r.cancel_requested;
  sealed_state = given p.sealed_state r.sealed_state;
}

pub data Phase : Type 0 where
  ready challenge awaiting_authorization payment_ready settlement_dispatched : Phase
  paid_for inference_dispatched : Phase

pub record Pending : Type 0 where
  pub session_id : Text
  pub expires_at : ℕ
  pub wrap_key : Text
  pub idempotency_key : Text
  pub blob : Text
  pub payment_id : Option Text
  pub amount : Option ℕ
  pub authorization : Option Text
  pub settlement_tx : Option Text
  pub paid : Bool

-- An entry of `history`.
pub record PastStep : Type 0 where
  pub output : Text
  pub receipt_hash : Text
  pub payment_id : Option Text
  pub settlement_tx : Option Text
  pub amount : Option ℕ

pub record State : Type 0 where
  pub credential : Text
  pub goal : Text
  pub phase : Phase
  pub agent_id : Text
  pub max_steps : ℕ
  pub max_budget : ℕ
  pub deadline : ℕ
  pub history : List PastStep
  pub pending : Option Pending
  pub final : Option Text
