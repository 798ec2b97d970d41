-- ===== src/Agent/Ledgers.antt =====
-- Calls of `AgentRuntime` in _backend/apps/api/src/agent-runtime.ts and of the heartbeat of its
-- store in any order, and the ledgers after them.
use enclave_developer.Prelude.{ℕ, Result, List, Option, ◌∷◌, Bool, []}
use enclave_developer.Prelude.Text.{Text}
use enclave_developer.Agent.Gateway.{Host, CreateBody}
use enclave_developer.Agent.Store.{AgentFault, World}
use enclave_developer.Agent.Requests.{create, get_details, cancel}
use enclave_developer.Agent.Leases.Marked.{Journaled, heartbeat-Journaled}
use enclave_developer.Agent.Resume.{ResumeBody, resume}
use enclave_developer.Agent.Requests.Kept.{create-Kept, get_details-Kept, cancel-Kept}
use enclave_developer.Agent.Step.Runner.{run_next}
use enclave_developer.Agent.Resume.Settled.{resume-Kept}
use enclave_developer.Agent.Leases.{heartbeat}
use enclave_developer.Agent.Step.Runner.Whole.{run_next-Kept}

pub data Request : Type 0 where
  creating : Text → Option CreateBody → Request
  reading : Text → Text → Option Text → Request
  stopping_run : Text → Text → Request
  resuming : Text → Text → ResumeBody → Request
  stepping : (ℕ → Bool) → Request
  beating : Text → Text → Request

-- How the call ended, with what it answered left out.
abbrev ended : {A : Type 0} → Result AgentFault A × World → World
ended (r, w) = w

module _ (host : Host) where
  unfoldable pub perform : Request → World → World
  perform (creating key body) w = ended (create host key body w)
  perform (reading key id session) w = ended (get_details host key id session w)
  perform (stopping_run key id) w = ended (cancel host key id w)
  perform (resuming key id body) w = ended (resume host key id body w)
  perform (stepping lost) w = ended (run_next host lost w)
  perform (beating id token) w = ended (heartbeat host.process id token host.lease w)

  unfoldable pub perform_all : List Request → World → World
  perform_all [] w = w
  perform_all (q ∷ rest) w = perform_all rest (perform q w)

  perform-Journaled :
      (q : Request) (w : World)
      → Journaled host.zero_hash w
      → Journaled host.zero_hash (perform q w)
  unfolding perform
  perform-Journaled (creating key body) w h = (create-Kept host key body).keep w h
  perform-Journaled (reading key id session) w h = (get_details-Kept host key id session).keep w h
  perform-Journaled (stopping_run key id) w h = (cancel-Kept host key id).keep w h
  perform-Journaled (resuming key id body) w h = (resume-Kept host key id body).keep w h
  perform-Journaled (stepping lost) w h = (run_next-Kept host lost).keep w h
  perform-Journaled (beating id token) w h =
      (heartbeat-Journaled host.zero_hash host.process id token host.lease).keep w h

  -- If every run has the chain of its actions as its ledger, ids are unique, every action belongs
  -- to a run, and the gateway was asked to settle for each run at most as often as actions of the
  -- run record a dispatch, then this holds after any sequence of calls to create, read, cancel and
  -- resume runs, to step the runner and to renew a lease, however each of them ends.
  pub perform_all-Journaled :
      (requests : List Request) (w : World)
      → Journaled host.zero_hash w
      → Journaled host.zero_hash (perform_all requests w)
  unfolding perform_all
  perform_all-Journaled [] w h = h
  perform_all-Journaled (q ∷ rest) w h =
      perform_all-Journaled rest (perform q w) (perform-Journaled q w h)
