-- ===== src/Agent/Step/Parts.antt =====
-- The first parts of `runNext` in _backend/apps/api/src/agent-runtime.ts against the ledgers.
use enclave_developer.Prelude.{
  ℕ, Bool, Option, throw-Keeps, some, pure-Keeps, none, >>=-Keeps, catch-Keeps,
}
use enclave_developer.Agent.Gateway.{Host, Challenge}
use enclave_developer.Prelude.Text.{Text}
use enclave_developer.Agent.Step.{
  save, admitted, answer_or_fail, before_deadline, bounded, check_session, expire, expire_run,
  meet_challenge, prepare, require_payment, stop, unless_conflict,
}
use enclave_developer.Agent.Store.{Fence, AgentFault, change}
use enclave_developer.Agent.Run.{Run, State, Patch, Pending}
use enclave_developer.Agent.Store.Fenced.{Reads}
use enclave_developer.Agent.Host.Makes.{
  Kept, kept, >>=-Reads, Anything, read_clock-Reads, >>-Reads, guard-Reads, make_change-Reads,
  read_clock-Kept,
}
use enclave_developer.Agent.Leases.Ledger.{IsNext}
use enclave_developer.Agent.Leases.Marked.{change-Journaled}

module _ (host : Host) (lost : ℕ → Bool) where
  expire-Reads : (r : Run) → Reads (IsNext r) (expire host lost r)
  unfolding expire
  expire-Reads r =
      >>=-Reads Anything (read_clock-Reads _)
        (λ now u. >>-Reads Anything (guard-Reads _ _) (make_change-Reads host r _ _ _))

  change_expired-Kept :
      (id : Text) (fence : Fence) → Kept host (change host.process id fence (expire host lost))
  change_expired-Kept id fence =
      change-Journaled host.zero_hash host.process id fence (expire host lost) expire-Reads

  unless_conflict-Kept : (e : AgentFault) → Kept host (unless_conflict host lost e)
  unfolding unless_conflict
  unless_conflict-Kept e = search (kept) depth 4

  pub expire_run-Kept : (r : Run) → Kept host (expire_run host lost r)
  unfolding expire_run
  expire_run-Kept r = >>=-Keeps (read_clock-Kept host _) (λ now.
      catch-Keeps (>>=-Keeps (change_expired-Kept _ _) (λ changed. pure-Keeps _))
        unless_conflict-Kept)

  admitted-Kept : (kind : Text) (r : Run) (gone : Bool) → Kept host (admitted host lost kind r gone)
  unfolding admitted
  admitted-Kept kind r gone = search (kept) depth 4

  pub save-Kept :
      (token : Text) (r : Run) (state : State) (kind event : Text) (patch : Patch)
      → Kept host (save host lost token r state kind event patch)
  unfolding save
  save-Kept token r state kind event patch = search (kept, admitted-Kept) depth 9

  pub stop-Kept :
      (token : Text) (r : Run) (state : State) → Kept host (stop host lost token r state)
  unfolding stop
  stop-Kept token r state = search (kept, save-Kept) depth 9

  answer_or_fail-Kept : {A : Type 0} (o : Option A) → Kept host (answer_or_fail host lost o)
  unfolding answer_or_fail
  answer_or_fail-Kept none = throw-Keeps _
  answer_or_fail-Kept (some a) = pure-Keeps a

  pub before_deadline-Kept : (r : Run) → Kept host (before_deadline host lost r)
  unfolding before_deadline
  before_deadline-Kept r = search (kept) depth 4

  bounded-Kept : {A : Type 0} (r : Run) (f : ℕ → Option A) → Kept host (bounded host lost r f)
  unfolding bounded
  bounded-Kept r f = search (kept, before_deadline-Kept, answer_or_fail-Kept) depth 6

  pub prepare-Kept :
      (token : Text) (r : Run) (state : State) (p : Option Pending)
      → Kept host (prepare host lost token r state p)
  unfolding prepare
  prepare-Kept token r state (some p) = pure-Keeps _
  prepare-Kept token r state none = search (kept, bounded-Kept, save-Kept) depth 12

  pub check_session-Kept :
      (token : Text) (r : Run) (state : State) (p : Pending)
      → Kept host (check_session host lost token r state p)
  unfolding check_session
  check_session-Kept token r state p = search (kept, save-Kept) depth 9

  require_payment-Kept :
      (token : Text) (r : Run) (state : State) (p : Pending) (c : Challenge)
      → Kept host (require_payment host lost token r state p c)
  unfolding require_payment
  require_payment-Kept token r state p c = search (kept, save-Kept) depth 9

  pub meet_challenge-Kept :
      (token : Text) (r : Run) (state : State) (p : Pending) (c : Challenge)
      → Kept host (meet_challenge host lost token r state p c)
  unfolding meet_challenge
  meet_challenge-Kept token r state p c = search (kept, save-Kept, require_payment-Kept) depth 9
