-- ===== src/Agent/Tests.antt =====
-- A run from its creation to its end with made-up hashes, and the theorems of Agent at it.
use enclave_developer.Prelude.{
  ℕ, List, Option, [], none, ◌∷◌, some, ◌++◌, false, true, ◌≡◌, refl, arith,
}
use enclave_developer.Agent.Run.{Run, State, RunStatus, ready, running, completed, no_patch}
use enclave_developer.Agent.Gateway.{
  CreateBody, Host, Response, Answer, unpaid, answered, open_payment,
}
use enclave_developer.Agent.Store.{Fence, World, change}
use enclave_developer.Agent.Ledgers.{
  perform_all, Request, perform, creating, perform_all-Journaled, stepping,
}
use enclave_developer.Agent.Leases.Ledger.{IsLedgered, IsNext}
use enclave_developer.Agent.Leases.Marked.{Journaled}
use enclave_developer.Prelude.Triples.{After}
use enclave_developer.Prelude.Text.{Text, codes, same}
use enclave_developer.Agent.Store.Fenced.{IsAdvanced, Untouched, change-IsAdvanced}
use enclave_developer.Agent.Requests.{create}
use enclave_developer.Agent.Step.Runner.{run_next}
use enclave_developer.Agent.Host.{mutation}
use enclave_developer.Agent.Host.Makes.{mutation-Reads}

abbrev sample_state : State
sample_state = record {
  credential = codes "key";
  goal = codes "goal";
  phase = ready;
  agent_id = codes "agent";
  max_steps = 3;
  max_budget = 50;
  deadline = 900;
  history = [];
  pending = none;
  final = none;
}

abbrev sample_response : Response
sample_response = record {
  typed_hash = codes "receipt";
  output_hash = codes "done";
  output = codes "done";
}

abbrev answer_of : Option Text → Answer
answer_of none = unpaid (some (record { payment_id = codes "pay"; amount = 20 }))
answer_of (some p) = answered (some sample_response)

abbrev sample_host : Host
sample_host = record {
  process = record { time = λ n. n; uuid = λ n. codes "id" ++ (n ∷ []) };
  zero_hash = codes "zero";
  sha256 = λ s. s;
  seal = λ n owner id state. codes "sealed";
  unseal = λ owner id sealed. some sample_state;
  seal_payload = λ n owner id sequence event. event;
  ledger_hash = λ owner id sequence kind previous payload created. kind ++ (created ∷ []);
  create_hash = λ owner body. body.goal;
  is_enabled = true;
  is_mock_payment = true;
  max_steps = 25;
  max_budget = 1000;
  max_duration = 3600;
  lease = 500;
  get_agent = λ n key id. true;
  quote = λ n. some (codes "quote");
  open_session = λ n key quote. some (codes "session", 800);
  wrap_key = λ n key session. some (codes "wrap");
  owned_session = λ n owner session. true;
  encrypt = λ n key plain. plain;
  decrypt = λ key output. some output;
  prompt = λ state step steps. state.goal;
  infer = λ n input. answer_of input.payment_id;
  settle_payment = λ n key payment auth. some (payment, codes "tx");
  payment = λ n owner id. some (record { status = open_payment; settle_tx = none; amount = 20 });
  inference = λ n owner key. none;
  read_decision = λ plain. some (true, plain);
  is_hash = λ s. true;
}

abbrev sample_body : CreateBody
sample_body = record {
  agent_id = codes "agent";
  goal = codes "goal";
  max_steps = 3;
  max_budget = 50;
  deadline = 900;
  idempotency_key = codes "once";
}

abbrev empty_world : World
empty_world = record {
  runs = [];
  actions = [];
  owners = codes "key" ∷ [];
  clock = 0;
  settlements = [];
}

abbrev two_requests : List Request
two_requests = creating (codes "key") (some sample_body) ∷ stepping (λ n. false) ∷ []

abbrev outcomes : List Run → List (RunStatus × ℕ × ℕ)
outcomes [] = []
outcomes (r ∷ rows) = (r.status, r.spent, r.ledger_sequence) ∷ outcomes rows

-- One step pays for the inference and ends the run, with seven actions in its ledger.
ended_run :
    outcomes (perform_all sample_host two_requests empty_world).runs ≡ (completed, 20, 7) ∷ []
unfolding perform_all perform create run_next same enclave_developer.Prelude.◌>>=◌
    enclave_developer.Agent.Store.read_clock enclave_developer.Agent.Leases.expired
    enclave_developer.Prelude.◌>>◌ enclave_developer.Prelude.each
    enclave_developer.Prelude.Sort.sort_by enclave_developer.Agent.Store.guard
    enclave_developer.Prelude.pure enclave_developer.Agent.Host.owner_of
    enclave_developer.Agent.Leases.has_owner enclave_developer.Agent.Requests.within_limits
    enclave_developer.Agent.Host.action enclave_developer.Agent.Leases.insert
    enclave_developer.Agent.Store.transaction enclave_developer.Agent.Store.runs
    enclave_developer.Agent.Requests.first_row enclave_developer.Agent.Store.insert_action
    enclave_developer.Agent.Host.make_change mutation enclave_developer.Agent.Host.open_state
    enclave_developer.Agent.Host.opened enclave_developer.Agent.Host.write
    enclave_developer.Agent.Leases.actions_of enclave_developer.Agent.Leases.claim
    enclave_developer.Agent.Leases.get_run enclave_developer.Agent.Resume.complete
    enclave_developer.Agent.Step.before_deadline enclave_developer.Agent.Step.check_session
    enclave_developer.Agent.Step.expire_run enclave_developer.Agent.Step.infer_input
    enclave_developer.Agent.Step.meet_challenge enclave_developer.Agent.Step.must_stop
    enclave_developer.Agent.Step.prepare enclave_developer.Agent.Step.save
    enclave_developer.Agent.Step.stop enclave_developer.Agent.Store.assert_run_fence change
    enclave_developer.Agent.Store.settle enclave_developer.Prelude.Decimal.decimal
    enclave_developer.Prelude.catch enclave_developer.Prelude.from_result
    enclave_developer.Prelude.throw
ended_run = refl

empty-IsLedgered : IsLedgered (codes "zero") empty_world.runs empty_world.actions
empty-IsLedgered = record { distinct = tt; linked = tt; chained = tt }

perform_all-Journaled_example :
    Journaled (codes "zero") (perform_all sample_host two_requests empty_world)
perform_all-Journaled_example =
    perform_all-Journaled sample_host two_requests empty_world (empty-IsLedgered, λ id. omega arith)

abbrev leased_run : Run
leased_run = record {
  id = codes "r1";
  owner = codes "key";
  agent_id = codes "agent";
  idempotency_key = codes "once";
  request_hash = codes "goal";
  status = running;
  step = 0;
  max_steps = 3;
  max_budget = 50;
  spent = 0;
  deadline = 900;
  sealed_state = codes "sealed";
  version = 1;
  lease_token = some (codes "t1");
  lease_until = some 100;
  cancel_requested = false;
  error_code = none;
  payment_id = none;
  receipt_hash = none;
  ledger_sequence = 1;
  ledger_head = codes "head";
  created_at = 0;
  updated_at = 0;
}

abbrev leased_world : World
leased_world = record empty_world { runs = leased_run ∷ [] }

abbrev sample_fence : Fence
sample_fence = record { owner = none; token = some (codes "t1"); version = none; fixed_now = none }

change-IsAdvanced_example :
    After
      (IsAdvanced IsNext sample_host.process leased_world (codes "r1") sample_fence)
      (Untouched leased_world)
      (change sample_host.process
        (codes "r1")
        sample_fence
        (mutation sample_host (codes "step_prepared") [] sample_state no_patch)
        leased_world)
change-IsAdvanced_example =
    change-IsAdvanced IsNext sample_host.process (codes "r1") sample_fence
      (mutation sample_host (codes "step_prepared") [] sample_state no_patch) leased_world
      (mutation-Reads sample_host (codes "step_prepared") [] sample_state no_patch)
