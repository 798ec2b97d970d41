-- ===== src/Agent/Leases/Marked.antt =====
-- The ledgers and the markers of settlements after the calls of the store in
-- _backend/apps/api/src/agent-runtime-store.ts.
use enclave_developer.Prelude.{ℕ, Option, List, Keeps, none, some, ok, keeps}
use enclave_developer.Prelude.Text.{Text}
use enclave_developer.Agent.Run.{Run, Action}
use enclave_developer.Agent.Store.{World, Call, Process, Fence, Change, change, AgentFault}
use enclave_developer.Agent.Store.Fenced.{Reads}
use enclave_developer.Agent.Store.Marked.{
  AllMarked, Marked, marked, change-Marked, Marked-AllMarked,
}
use enclave_developer.Agent.Leases.{
  claim, heartbeat, insert, claim_call, claim_found, heartbeat_call, heartbeat_found, insert_call,
  prior_run,
}
use enclave_developer.Agent.Leases.Chains.{Ledgered, IsFirst}
use enclave_developer.Agent.Leases.Calls.{
  change-Ledgered, insert-Ledgered, claim-Ledgered, heartbeat-Ledgered,
}
use enclave_developer.Agent.Leases.Ledger.{IsNext}

-- The ledgers are chains of actions, and the settlements have their markers.
abbrev pub Journaled : Text → World → Type 0
Journaled zero_hash w = Ledgered zero_hash w × AllMarked w

module _ (process : Process) (asked : List (Text × Text)) where
  set_rows-Marked :
      (g : World → List Run)
      → Keeps {E = AgentFault} {A = Unit {0}} (Marked asked) (λ w. (ok tt, record w { runs = g w }))
  set_rows-Marked g = record { keep = λ w p. p }

  prior_run-Marked : (o : Option Run) → Keeps (Marked asked) (prior_run process o)
  unfolding prior_run
  prior_run-Marked none = search (keeps)
  prior_run-Marked (some r) = search (keeps)

  insert-Marked : (r : Run) (a : Action) → Keeps (Marked asked) (insert process r a)
  unfolding insert insert_call
  insert-Marked r a = search (marked, prior_run-Marked, set_rows-Marked) depth 12

  claim_found-Marked :
      (now lease : ℕ) (o : Option Run) → Keeps (Marked asked) (claim_found process now lease o)
  unfolding claim_found
  claim_found-Marked now lease none = search (keeps)
  claim_found-Marked now lease (some r) = search (marked, set_rows-Marked) depth 9

  claim-Marked : (now lease : ℕ) → Keeps (Marked asked) (claim process now lease)
  unfolding claim claim_call
  claim-Marked now lease = search (marked, claim_found-Marked) depth 6

  heartbeat_found-Marked :
      (token : Text) (now lease : ℕ) (o : Option Run)
      → Keeps (Marked asked) (heartbeat_found process token now lease o)
  unfolding heartbeat_found
  heartbeat_found-Marked token now lease none = search (keeps)
  heartbeat_found-Marked token now lease (some r) = search (marked, set_rows-Marked) depth 9

  heartbeat-Marked :
      (id token : Text) (lease : ℕ) → Keeps (Marked asked) (heartbeat process id token lease)
  unfolding heartbeat heartbeat_call
  heartbeat-Marked id token lease = search (marked, heartbeat_found-Marked) depth 9

both-Keeps :
    {A : Type 0} {m : Call A} (zero_hash : Text)
    → Keeps (Ledgered zero_hash) m
    → ((asked : List (Text × Text)) → Keeps (Marked asked) m)
    → Keeps (Journaled zero_hash) m
both-Keeps zero_hash h k = record { keep = λ w p. (h.keep w p.0, (Marked-AllMarked k).keep w p.1) }

module _ (zero_hash : Text) (process : Process) where
  pub change-Journaled :
      (id : Text) (fence : Fence) (mutate : Run → Call Change)
      → ((r : Run) → Reads (IsNext r) (mutate r))
      → Keeps (Journaled zero_hash) (change process id fence mutate)
  change-Journaled id fence mutate reads =
      both-Keeps zero_hash (change-Ledgered zero_hash process id fence mutate reads)
        (λ asked. change-Marked asked process id fence mutate IsNext reads)

  pub insert-Journaled :
      (r : Run) (a : Action)
      → IsFirst zero_hash r a
      → Keeps (Journaled zero_hash) (insert process r a)
  insert-Journaled r a f =
      both-Keeps zero_hash (insert-Ledgered zero_hash process r a f)
        (λ asked. insert-Marked process asked r a)

  pub claim-Journaled : (now lease : ℕ) → Keeps (Journaled zero_hash) (claim process now lease)
  claim-Journaled now lease =
      both-Keeps zero_hash (claim-Ledgered zero_hash process now lease)
        (λ asked. claim-Marked process asked now lease)

  pub heartbeat-Journaled :
      (id token : Text) (lease : ℕ) → Keeps (Journaled zero_hash) (heartbeat process id token lease)
  heartbeat-Journaled id token lease =
      both-Keeps zero_hash (heartbeat-Ledgered zero_hash process id token lease)
        (λ asked. heartbeat-Marked process asked id token lease)
