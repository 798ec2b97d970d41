-- ===== src/Agent/Host.antt =====
-- What the methods of `AgentRuntime` in _backend/apps/api/src/agent-runtime.ts share: the sealed
-- state, the ledger's actions and the fenced write of a run.
pub mod Makes
pub mod Dispatched
use enclave_developer.Prelude.{
  ℕ, Bool, List, Option, Result, false, some, true, err, if◌then◌else◌, none, ◌&&◌, ◌+◌, ◌==◌, ◌>>◌,
  ◌∷◌, [], length, ok, ◌>>=◌, ◌||◌, leb, pure,
}
use enclave_developer.Prelude.Text.{Text, same, codes}
use enclave_developer.Agent.Store.{
  AgentFault, Call, Fence, failure, Change, change, guard, read_clock, ends_after, unauthorized,
  conflict,
}
use enclave_developer.Agent.Run.{
  Phase, Run, RunStatus, State, PastStep, Patch, Pending, Action, completed, no_patch, queued,
  settlement_dispatched, awaiting_payment, cancelled, inference_dispatched, exhausted, failed,
}
use enclave_developer.Agent.Leases.{has_owner}
use enclave_developer.Agent.Gateway.{Host}

abbrev pub terminal : RunStatus → Bool
terminal completed = true
terminal cancelled = true
terminal failed = true
terminal exhausted = true
terminal _ = false

abbrev pub uncertain : Phase → Bool
uncertain settlement_dispatched = true
uncertain inference_dispatched = true
uncertain _ = false

-- The amounts of a history; an amount that is missing makes the sum fail.
abbrev add_amount : Option ℕ → Option ℕ → Option ℕ
add_amount (some a) (some b) = some (a + b)
add_amount a b = none

abbrev pub history_total : List PastStep → Option ℕ
history_total [] = some 0
history_total (s ∷ rest) = add_amount s.amount (history_total rest)

abbrev pub pending_total : Option Pending → Option ℕ
pending_total none = some 0
pending_total (some p) = if p.paid then p.amount else some 0

abbrev pub state_total : State → Option ℕ
state_total state = add_amount (history_total state.history) (pending_total state.pending)

abbrev equals_amount : Option ℕ → ℕ → Bool
equals_amount none n = false
equals_amount (some m) n = m == n

-- The sealed state is of this row.
abbrev pub agrees : Run → State → Bool
agrees r state =
    same state.agent_id r.agent_id
    && state.max_steps == r.max_steps
    && state.max_budget == r.max_budget
    && state.deadline == r.deadline
    && length state.history == r.step
    && equals_amount (state_total state) r.spent

abbrev pub state_unavailable : AgentFault
state_unavailable = failure (codes "AGENT_STATE_UNAVAILABLE")

unfoldable pub opened : Run → Option State → Result AgentFault State
opened r none = err state_unavailable
opened r (some state) = if agrees r state then ok state else err state_unavailable

abbrev pub is_dispatch : Text → Bool
is_dispatch kind =
    same kind (codes "settlement_dispatched") || same kind (codes "inference_dispatched")

abbrev becomes_cancelled : RunStatus → Bool
becomes_cancelled queued = true
becomes_cancelled completed = true
becomes_cancelled awaiting_payment = true
becomes_cancelled _ = false

-- A run whose cancellation was asked for does not go on.
abbrev pub cancelling : Bool → Option RunStatus → Option RunStatus
cancelling asked none = none
cancelling asked (some s) = if asked && becomes_cancelled s then some cancelled else some s

-- The end of a run that was asked to stop, or that has met a limit.
abbrev pub stopping : Bool → Patch
stopping asked = record no_patch {
  status = some (if asked then cancelled else exhausted);
  releases_lease = true;
  error_code = some (if asked then none else some (codes "AGENT_LIMIT_REACHED"));
}

module _ (host : Host) where
  unfoldable pub open_state : Run → Result AgentFault State
  unfolding opened
  open_state r = opened r (host.unseal r.owner r.id r.sealed_state)

  unfoldable pub action : Run → Text → Text → Call Action
  action r kind event = do
    created ← read_clock host.process.time
    payload ← read_clock (λ n. host.seal_payload n r.owner r.id (r.ledger_sequence + 1) event)
    id ← read_clock host.process.uuid
    pure (record {
      id = id;
      run_id = r.id;
      sequence = r.ledger_sequence + 1;
      kind = kind;
      previous_hash = r.ledger_head;
      action_hash =
          host.ledger_hash r.owner r.id (r.ledger_sequence + 1) kind r.ledger_head payload created;
      sealed_payload = payload;
      created_at = created;
    })

  -- `owner`: a key of at most 4096 characters that the database knows.
  unfoldable pub owner_of : Text → Call Text
  owner_of api_key = do
    guard (leb 1 (length api_key) && leb (length api_key) 4096) unauthorized
    known ← has_owner host.process (host.sha256 api_key)
    guard known unauthorized
    pure (host.sha256 api_key)

  unfoldable pub make_change : Run → Patch → Text → Text → Call Change
  make_change current patch kind event = do
    a ← action current kind event
    pure (record { patch = patch; action = a })

  ordinary_change : Run → Text → Text → State → Patch → Call Change
  unfolding make_change
  ordinary_change current kind event state patch = do
    sealed ← read_clock (λ n. host.seal n current.owner current.id state)
    make_change current
        (record patch {
          status = cancelling current.cancel_requested patch.status;
          sealed_state = some sealed;
        })
        kind event

  -- Whether a call may be dispatched is decided under the lock of the row.
  dispatch_change : Run → Text → Text → State → Patch → Call Change
  unfolding ordinary_change
  dispatch_change current kind event state patch = do
    now ← read_clock host.process.time
    guard (ends_after current.lease_until now) conflict
    later ← read_clock host.process.time
    if current.cancel_requested || leb current.deadline later
        then make_change current (stopping current.cancel_requested) (codes "stopped") []
        else ordinary_change current kind event state patch

  unfoldable pub mutation : Text → Text → State → Patch → Run → Call Change
  unfolding dispatch_change
  mutation kind event state patch current =
      if is_dispatch kind
      then dispatch_change current kind event state patch
      else ordinary_change current kind event state patch

  abbrev pub write_fence : Run → Option Text → Fence
  write_fence r none = record {
    owner = some r.owner;
    token = none;
    version = some r.version;
    fixed_now = none;
  }
  write_fence r (some []) = record {
    owner = some r.owner;
    token = none;
    version = some r.version;
    fixed_now = none;
  }
  write_fence r (some (c ∷ s)) = record {
    owner = none;
    token = some (c ∷ s);
    version = none;
    fixed_now = none;
  }

  -- `write`
  unfoldable pub write : Run → Text → Text → State → Patch → Option Text → Call Run
  unfolding mutation
  write r kind event state patch token =
      change host.process r.id (write_fence r token) (mutation kind event state patch)
