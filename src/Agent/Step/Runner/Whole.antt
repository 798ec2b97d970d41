-- ===== src/Agent/Step/Runner/Whole.antt =====
-- `runNext` in _backend/apps/api/src/agent-runtime.ts against the ledgers.
use enclave_developer.Prelude.{
  ℕ, Bool, >>=-Keeps, Option, if-Keeps, Result, pure-Keeps, >>-Keeps, from_result-Keeps, none, ok,
  some, catch-Keeps, each-Keeps, throw-Keeps, err,
}
use enclave_developer.Agent.Gateway.{Host, Answer, answered, unpaid, broken}
use enclave_developer.Agent.Leases.{expired}
use enclave_developer.Agent.Step.Runner.{
  run_next, after_part, answer_challenge, ask_challenge, infer_paid, pay_and_infer, record_failure,
  recover, response_of, run_claimed, run_enabled, run_opened, run_step, settle_known, settle_ready,
  unless_stopped, unreadable_change,
}
use enclave_developer.Prelude.Text.{Text}
use enclave_developer.Agent.Host.Makes.{
  Kept, get_run-Kept, read_clock-Kept, kept, make_change-Reads, guard-Kept,
}
use enclave_developer.Agent.Run.{Run, State, Pending}
use enclave_developer.Agent.Step.{Outcome, finished, going}
use enclave_developer.Agent.Store.{AgentFault, Call}
use enclave_developer.Agent.Store.Fenced.{Reads}
use enclave_developer.Agent.Leases.Ledger.{IsNext}
use enclave_developer.Agent.Step.Parts.{
  before_deadline-Kept, save-Kept, stop-Kept, expire_run-Kept, meet_challenge-Kept, prepare-Kept,
  check_session-Kept,
}
use enclave_developer.Agent.Step.Runner.Marks.{settle_pending-Kept}
use enclave_developer.Agent.Resume.Settled.{complete-Kept}
use enclave_developer.Agent.Leases.Marked.{change-Journaled, claim-Journaled}

module _ (host : Host) (lost : ℕ → Bool) where
  answer_challenge-Kept :
      (token : Text) (r : Run) (state : State) (p : Pending) (answer : Answer)
      → Kept host (answer_challenge host lost token r state p answer)
  unfolding answer_challenge
  answer_challenge-Kept token r state p (answered response) = throw-Keeps _
  answer_challenge-Kept token r state p broken = throw-Keeps _
  answer_challenge-Kept token r state p (unpaid none) = throw-Keeps _
  answer_challenge-Kept token r state p (unpaid (some c)) =
      meet_challenge-Kept host lost token r state p c

  ask_challenge-Kept :
      (token : Text) (r : Run) (state : State) (p : Pending)
      → Kept host (ask_challenge host lost token r state p)
  unfolding ask_challenge
  ask_challenge-Kept token r state p =
      search (kept, before_deadline-Kept, answer_challenge-Kept) depth 9

  settle_known-Kept :
      (token : Text) (r : Run) (state : State) (p : Pending) (payment : Option Text)
      (amount : Option ℕ)
      → Kept host (settle_known host lost token r state p payment amount)
  unfolding settle_known
  settle_known-Kept token r state p (some payment) (some amount) =
      settle_pending-Kept host lost token r state p payment amount
  settle_known-Kept token r state p none amount = throw-Keeps _
  settle_known-Kept token r state p (some payment) none = throw-Keeps _

  settle_ready-Kept :
      (token : Text) (r : Run) (state : State) (p : Pending)
      → Kept host (settle_ready host lost token r state p)
  unfolding settle_ready
  settle_ready-Kept token r state p = search (kept, settle_known-Kept) depth 6

  response_of-Kept : (answer : Answer) → Kept host (response_of host lost answer)
  unfolding response_of
  response_of-Kept (answered response) = pure-Keeps _
  response_of-Kept (unpaid c) = throw-Keeps _
  response_of-Kept broken = throw-Keeps _

  infer_paid-Kept :
      (token : Text) (r : Run) (state : State) (p : Pending)
      → Kept host (infer_paid host lost token r state p)
  unfolding infer_paid
  infer_paid-Kept token r state p =
      search (kept, save-Kept, before_deadline-Kept, response_of-Kept, complete-Kept) depth 14

  after_part-Kept :
      (o : Outcome) {next : Run → State → Pending → Call Run}
      → ((r : Run) (state : State) (p : Pending) → Kept host (next r state p))
      → Kept host (after_part host lost o next)
  unfolding after_part
  after_part-Kept (finished r) h = pure-Keeps r
  after_part-Kept (going r state p) h = h r state p

  unless_stopped-Kept :
      (token : Text) (r : Run) (state : State) {next : Run → Call Run}
      → ((fresh : Run) → Kept host (next fresh))
      → Kept host (unless_stopped host lost token r state next)
  unfolding unless_stopped
  unless_stopped-Kept token r state h =
      >>=-Keeps (stop-Kept host lost token r state)
        (λ seen. if-Keeps seen.1 (pure-Keeps _) (h seen.0))

  pay_and_infer-Kept :
      (token : Text) (r : Run) (state : State) (p : Pending)
      → Kept host (pay_and_infer host lost token r state p)
  unfolding pay_and_infer
  pay_and_infer-Kept token r state p = unless_stopped-Kept token r state (λ fresh.
      >>=-Keeps (settle_ready-Kept token fresh state p) (λ paid.
        after_part-Kept paid (λ r' state' p'.
          unless_stopped-Kept token r' state' (λ fresh'. infer_paid-Kept token fresh' state' p'))))

  run_step-Kept :
      (token : Text) (r : Run) (state : State) → Kept host (run_step host lost token r state)
  unfolding run_step
  run_step-Kept token r state = unless_stopped-Kept token r state (λ fresh.
      >>-Keeps (before_deadline-Kept host lost fresh) (
        >>=-Keeps (read_clock-Kept host _) (λ known. >>-Keeps (guard-Kept host _ _) (
          >>=-Keeps (prepare-Kept host lost token fresh state state.pending) (λ first.
            after_part-Kept first (λ r1 s1 p1.
              >>=-Keeps (check_session-Kept host lost token r1 s1 p1) (λ checked.
                after_part-Kept checked (λ r2 s2 p2.
                  >>=-Keeps (ask_challenge-Kept token r2 s2 p2)
                    (λ challenged. after_part-Kept challenged (pay_and_infer-Kept token))))))))))

  record_failure-Kept : (token : Text) (r : Run) → Kept host (record_failure host lost token r)
  unfolding record_failure
  record_failure-Kept token r = >>=-Keeps (get_run-Kept host _ _) (λ fresh.
      >>=-Keeps (from_result-Keeps _) (λ state.
        catch-Keeps (save-Kept host lost token fresh state _ _ _)
          (λ e. if-Keeps _ (get_run-Kept host _ _) (throw-Keeps _))))

  recover-Kept : (token : Text) (r : Run) (e : AgentFault) → Kept host (recover host lost token r e)
  unfolding recover
  recover-Kept token r e = search (kept, record_failure-Kept) depth 6

  unreadable-Reads : (r : Run) → Reads (IsNext r) (unreadable_change host lost r)
  unfolding unreadable_change
  unreadable-Reads r = make_change-Reads host r _ _ _

  run_opened-Kept :
      (token : Text) (r : Run) (state : Result AgentFault State)
      → Kept host (run_opened host lost token r state)
  unfolding run_opened
  run_opened-Kept token r (ok state) =
      catch-Keeps (run_step-Kept token r state) (recover-Kept token r)
  run_opened-Kept token r (err e) =
      change-Journaled host.zero_hash host.process r.id _ (unreadable_change host lost)
        unreadable-Reads

  run_claimed-Kept : (r : Option Run) → Kept host (run_claimed host lost r)
  unfolding run_claimed
  run_claimed-Kept none = pure-Keeps _
  run_claimed-Kept (some r) = search (kept, run_opened-Kept) depth 6

  expired-Kept : (now : ℕ) → Kept host (expired host.process now)
  unfolding expired
  expired-Kept now = record { keep = λ w h. h }

  run_enabled-Kept : Kept host (run_enabled host lost)
  unfolding run_enabled
  run_enabled-Kept = >>=-Keeps (read_clock-Kept host _) (λ now.
      >>=-Keeps (expired-Kept now) (λ rows. >>-Keeps (each-Keeps (expire_run-Kept host lost) rows) (
        >>=-Keeps (read_clock-Kept host _) (λ later.
          >>=-Keeps (claim-Journaled host.zero_hash host.process later host.lease)
            run_claimed-Kept))))

  pub run_next-Kept : Kept host (run_next host lost)
  unfolding run_next
  run_next-Kept = if-Keeps host.is_enabled run_enabled-Kept (pure-Keeps none)
