-- ===== src/Agent/Requests.antt =====
-- `create`, `list`, `get`, `cancel`, `resume` and `complete` of `AgentRuntime` in
-- _backend/apps/api/src/agent-runtime.ts. A method answers with the row that `view` shows, and
-- `get` also with its ledger; a request is given as its schema reads it. The output of `get` for a
-- session is encrypted for it.
pub mod Kept
use enclave_developer.Prelude.{
  ℕ, List, Option, Bool, leb, none, true, [], false, pure, some, throw, ◌&&◌, ◌>>=◌, ◌>>◌, ltb, suc,
  ◌==◌, from_result, ◌-◌, ◌∷◌, if◌then◌else◌, ◌+◌, zero, ◌||◌,
}
use enclave_developer.Agent.Run.{
  Run, Action, RunStatus, Patch, State, queued, no_patch, ready, cancelled, completed, running,
  outcome_unknown,
}
use enclave_developer.Agent.Gateway.{Host, CreateBody}
use enclave_developer.Prelude.Text.{Text, same, codes}
use enclave_developer.Agent.Store.{
  Call, call_failed, guard, invalid_input, read_clock, conflict, AgentFault, failure,
}
use enclave_developer.Agent.Host.{action, owner_of, open_state, terminal, write}
use enclave_developer.Agent.Leases.{get_run, actions_of, insert}
use Prim.Native.String.{String}

pub record Snapshot : Type 0 where
  pub row : Run
  pub actions : List Action

pub record Details : Type 0 where
  pub row : Run
  pub actions : List Action
  pub output : Option Text

abbrev pub failing : String → AgentFault
failing name = failure (codes name)

module _ (host : Host) where
  unfoldable pub within_limits : CreateBody → ℕ → ℕ → Bool
  within_limits body now later =
      leb body.max_steps host.max_steps
      && leb body.max_budget host.max_budget
      && ltb now body.deadline
      && leb (body.deadline - later) host.max_duration

  first_state : Text → CreateBody → State
  first_state api_key body = record {
    credential = api_key;
    goal = body.goal;
    phase = ready;
    agent_id = body.agent_id;
    max_steps = body.max_steps;
    max_budget = body.max_budget;
    deadline = body.deadline;
    history = [];
    pending = none;
    final = none;
  }

  unfoldable pub first_row : Text → Text → CreateBody → Text → ℕ → Run
  first_row owner id body sealed now = record {
    id = id;
    owner = owner;
    agent_id = body.agent_id;
    idempotency_key = body.idempotency_key;
    request_hash = host.create_hash owner body;
    status = queued;
    step = 0;
    max_steps = body.max_steps;
    max_budget = body.max_budget;
    spent = 0;
    deadline = body.deadline;
    sealed_state = sealed;
    version = 0;
    lease_token = none;
    lease_until = none;
    cancel_requested = false;
    error_code = none;
    payment_id = none;
    receipt_hash = none;
    ledger_sequence = 0;
    ledger_head = host.zero_hash;
    created_at = now;
    updated_at = now;
  }

  abbrev headed : Run → Action → Run
  headed r a = record r { ledger_head = a.action_hash; ledger_sequence = 1 }

  create_row : Text → CreateBody → Run → Call Run
  create_row owner body r = do
    a ← action host r (codes "created") r.request_hash
    saved ← insert host.process (headed r a) a
    guard (same saved.request_hash r.request_hash) conflict
    pure saved

  create_valid : Text → Text → CreateBody → Call Run
  unfolding create_row first_state
  create_valid api_key owner body = do
    now ← read_clock host.process.time
    later ← read_clock host.process.time
    guard (within_limits body now later) invalid_input
    known ← read_clock (λ n. host.get_agent n api_key body.agent_id)
    guard known call_failed
    id ← read_clock host.process.uuid
    created ← read_clock host.process.time
    sealed ← read_clock (λ n. host.seal n owner id (first_state api_key body))
    create_row owner body (first_row owner id body sealed created)

  create_body : Text → Text → Option CreateBody → Call Run
  unfolding create_valid
  create_body api_key owner none = throw invalid_input
  create_body api_key owner (some body) = create_valid api_key owner body

  unfoldable pub create : Text → Option CreateBody → Call Run
  unfolding create_body
  create api_key body = do
    guard host.is_enabled (failing "AGENT_RUNTIME_DISABLED")
    owner ← owner_of host api_key
    create_body api_key owner body

  -- The row and its ledger, read while no other version came between them.
  snapshot : ℕ → Text → Text → Call Snapshot
  snapshot zero owner id = throw (failing "AGENT_STATE_CHANGED")
  snapshot (suc n) owner id = do
    r ← get_run host.process owner id
    actions ← actions_of host.process id
    again ← get_run host.process owner id
    if again.version == r.version
        then pure (record { row = r; actions = actions })
        else snapshot n owner id

  -- The loop over the ledger, with the hash that came before and the number of actions passed.
  unfoldable pub check_ledger : Run → Text → ℕ → List Action → Bool
  check_ledger r previous n [] = same previous r.ledger_head && n == r.ledger_sequence
  check_ledger r previous n (a ∷ rest) =
      a.sequence == n + 1
      && same a.previous_hash previous
      && same a.action_hash
          (host.ledger_hash r.owner r.id a.sequence a.kind previous a.sealed_payload a.created_at)
      && check_ledger r a.action_hash (n + 1) rest

  is_completed : RunStatus → Bool
  is_completed completed = true
  is_completed _ = false

  encrypted : Text → Bool → Option Text → Call (Option Text)
  encrypted key false final = pure none
  encrypted key true none = pure none
  encrypted key true (some text) = do
    blob ← read_clock (λ n. host.encrypt n key text)
    pure (some blob)

  key_or_fail : Option Text → Call Text
  key_or_fail none = throw call_failed
  key_or_fail (some key) = pure key

  output_for : Text → Text → Snapshot → State → Option Text → Call (Option Text)
  unfolding is_completed encrypted key_or_fail
  output_for api_key owner s state none = pure none
  output_for api_key owner s state (some session) = do
    owned ← read_clock (λ n. host.owned_session n owner session)
    guard owned (failing "AGENT_RESULT_SESSION_INVALID")
    answer ← read_clock (λ n. host.wrap_key n api_key session)
    key ← key_or_fail answer
    encrypted key (is_completed s.row.status) state.final

  unfoldable pub get_details : Text → Text → Option Text → Call Details
  unfolding snapshot output_for
  get_details api_key id session = do
    owner ← owner_of host api_key
    s ← snapshot 3 owner id
    state ← from_result (open_state host s.row)
    guard (check_ledger s.row host.zero_hash 0 s.actions) (failing "AGENT_JOURNAL_INVALID")
    output ← output_for api_key owner s state session
    pure (record { row = s.row; actions = s.actions; output = output })

  -- What a cancellation changes: a run that is being worked on ends by itself.
  abbrev cancel_patch : RunStatus → Patch
  cancel_patch running = record no_patch { requests_cancel = true }
  cancel_patch outcome_unknown = record no_patch { requests_cancel = true }
  cancel_patch _ = record no_patch {
    requests_cancel = true;
    status = some cancelled;
    releases_lease = true;
  }

  unfoldable pub cancel : Text → Text → Call Run
  cancel api_key id = do
    owner ← owner_of host api_key
    r ← get_run host.process owner id
    if terminal r.status || r.cancel_requested then pure r else (do
      state ← from_result (open_state host r)
      write host r (codes "cancel_requested") [] state (cancel_patch r.status) none)
