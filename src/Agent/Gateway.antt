-- ===== src/Agent/Gateway.antt =====
-- What `AgentRuntime` of _backend/apps/api/src/agent-runtime.ts is given: its options, the gateway,
-- the cipher with JSON.stringify, the hashes, the schemas of answers and the tables that the gateway
-- writes. A function that may answer differently each time gets the number of calls before it;
-- `none` is a call that fails or times out.
use enclave_developer.Prelude.{ℕ, Option, Bool}
use enclave_developer.Prelude.Text.{Text}
use enclave_developer.Agent.Store.{Process}
use enclave_developer.Agent.Run.{State}

pub record CreateBody : Type 0 where
  pub agent_id : Text
  pub goal : Text
  pub max_steps : ℕ
  pub max_budget : ℕ
  pub deadline : ℕ
  pub idempotency_key : Text

pub record Response : Type 0 where
  pub typed_hash : Text
  pub output_hash : Text
  pub output : Text

-- What the payment schema reads of a challenge.
pub record Challenge : Type 0 where
  pub payment_id : Text
  pub amount : ℕ

pub data Answer : Type 0 where
  answered : Option Response → Answer
  unpaid : Option Challenge → Answer
  broken : Answer

pub record InferInput : Type 0 where
  pub credential : Text
  pub agent_id : Text
  pub session_id : Text
  pub blob : Text
  pub payment_id : Option Text
  pub idempotency_key : Text

pub data PaymentStatus : Type 0 where
  open_payment settled_payment other_payment : PaymentStatus

pub record Payment : Type 0 where
  pub status : PaymentStatus
  pub settle_tx : Option Text
  pub amount : ℕ

pub record Host : Type 0 where
  pub process : Process
  pub zero_hash : Text
  pub sha256 : Text → Text
  pub seal : ℕ → Text → Text → State → Text
  pub unseal : Text → Text → Text → Option State
  pub seal_payload : ℕ → Text → Text → ℕ → Text → Text
  pub ledger_hash : Text → Text → ℕ → Text → Text → Text → ℕ → Text
  pub create_hash : Text → CreateBody → Text
  pub is_enabled : Bool
  pub is_mock_payment : Bool
  pub max_steps : ℕ
  pub max_budget : ℕ
  pub max_duration : ℕ
  pub lease : ℕ
  pub get_agent : ℕ → Text → Text → Bool
  pub quote : ℕ → Option Text
  pub open_session : ℕ → Text → Text → Option (Text × ℕ)
  pub wrap_key : ℕ → Text → Text → Option Text
  pub owned_session : ℕ → Text → Text → Bool
  pub encrypt : ℕ → Text → Text → Text
  pub decrypt : Text → Text → Option Text
  pub prompt : State → ℕ → ℕ → Text
  pub infer : ℕ → InferInput → Answer
  pub settle_payment : ℕ → Text → Text → Option Text → Option (Text × Text)
  pub payment : ℕ → Text → Text → Option Payment
  pub inference : ℕ → Text → Text → Option (Option Response × Text)
  pub read_decision : Text → Option (Bool × Text)
  pub is_hash : Text → Bool
