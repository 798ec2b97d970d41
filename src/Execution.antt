-- ===== src/Execution.antt =====
-- _backend/apps/api/src/inference-execution.ts: the claim that is made before a model is run, and
-- its completion. The table has two unique indexes, on the payment and on the owner with the
-- idempotency key, where nulls are distinct; the id of a claim, which the database makes up, is an
-- argument.
pub mod Claims
mod Tests
use enclave_developer.Prelude.{
  ℕ, List, [], ◌∷◌, ◌++◌, Option, none, some, Bool, true, false, ◌&&◌, ◌||◌, not, ◌==◌,
  if◌then◌else◌, any, length, find_first, keep_if, update_where, Result, ok, err, Exec, pure, throw,
  get, put, catch, ◌>>=◌, ◌>>◌,
}
use enclave_developer.Prelude.Text.{Text, same, codes}

pub data Status : Type 0 where
  dispatched completed : Status

pub record Execution : Type 0 where
  pub payment_id : Text
  pub claim_id : Text
  pub key_hash : Text
  pub request_hash : Text
  pub idempotency_key : Option Text
  pub status : Status
  pub receipt_hash : Option Text

pub record ExecutionBinding : Type 0 where
  pub payment_id : Text
  pub key_hash : Text
  pub request_hash : Text
  pub idempotency_key : Option Text

-- `uncertain_inference` is the application error of the code INFERENCE_EXECUTION_UNCERTAIN.
pub data ExecutionFault : Type 0 where
  claim_unconfirmed bound_to_other_request : ExecutionFault
  uncertain_inference : Text → ExecutionFault

abbrev pub Call : Type 0 → Type 0
Call A = Exec (List Execution) ExecutionFault A

-- An SQL `=` on a nullable column, which no null satisfies.
abbrev both_same : Option Text → Option Text → Bool
both_same (some s) (some t) = same s t
both_same s t = false

-- `===` on values that may be null.
abbrev same_option : Option Text → Option Text → Bool
same_option none none = true
same_option (some s) (some t) = same s t
same_option s t = false

-- A row that stands against the insert of a claim.
abbrev pub conflicts : ExecutionBinding → Execution → Bool
conflicts b r =
    same r.payment_id b.payment_id
    || (same r.key_hash b.key_hash && both_same r.idempotency_key b.idempotency_key)

abbrev is_given : Option Text → Bool
is_given none = false
is_given (some []) = false
is_given (some (c ∷ cs)) = true

-- The rows that the claim then looks for; an empty idempotency key is none to it.
abbrev pub looked_for : ExecutionBinding → Execution → Bool
looked_for b r =
    same r.payment_id b.payment_id
    || (is_given b.idempotency_key
        && same r.key_hash b.key_hash
        && both_same r.idempotency_key b.idempotency_key)

abbrev agrees : ExecutionBinding → Execution → Bool
agrees b r =
    same r.key_hash b.key_hash
    && same r.request_hash b.request_hash
    && same r.payment_id b.payment_id
    && same_option r.idempotency_key b.idempotency_key

abbrev pub new_execution : ExecutionBinding → Text → Execution
new_execution b claim = record {
  payment_id = b.payment_id;
  claim_id = claim;
  key_hash = b.key_hash;
  request_hash = b.request_hash;
  idempotency_key = b.idempotency_key;
  status = dispatched;
  receipt_hash = none;
}

-- The error for a claim that was not inserted.
abbrev refusal : ExecutionBinding → Option Execution → ExecutionFault
refusal b none = claim_unconfirmed
refusal b (some r) = if agrees b r then uncertain_inference b.payment_id else bound_to_other_request

unfoldable pub claim_inference_execution : ExecutionBinding → Text → Call Text
claim_inference_execution b claim = do
  rows ← get
  if any (conflicts b) rows
      then throw (refusal b (find_first (looked_for b) rows))
      else (do put (rows ++ new_execution b claim ∷ []); pure claim)

abbrev is_dispatched : Status → Bool
is_dispatched dispatched = true
is_dispatched completed = false

abbrev pub is_open : ExecutionBinding → Text → Execution → Bool
is_open b claim r =
    same r.payment_id b.payment_id
    && same r.claim_id claim
    && same r.key_hash b.key_hash
    && same r.request_hash b.request_hash
    && is_dispatched r.status

abbrev pub completion : Text → Execution → Execution
completion receipt r = record r { status = completed; receipt_hash = some receipt }

-- The update, and the count of the rows that it returns; a throw leaves the rest to the caller's
-- transaction.
unfoldable pub complete_inference_execution : ExecutionBinding → Text → Text → Call (Unit {0})
complete_inference_execution b claim receipt = do
  rows ← get
  put (update_where (is_open b claim) (completion receipt) rows)
  if length (keep_if (is_open b claim) rows) == 1
      then pure tt
      else throw (uncertain_inference b.payment_id)

-- Whatever the execution throws, its caller sees an uncertain inference; the telemetry is left out.
unfoldable pub run_claimed_inference :
    {S E A : Type 0} → (ExecutionFault → E) → Text → Exec S E A → Exec S E A
run_claimed_inference raise payment execute =
    catch execute (λ e. throw (raise (uncertain_inference payment)))
