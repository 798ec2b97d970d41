-- ===== src/Agent.antt =====
-- _backend/apps/api/src/agent-runtime-store.ts and agent-runtime.ts: the runs of an agent, their
-- leases and their ledger. Run is the rows, Store the fenced change of a row, Leases the other
-- statements, Gateway what the runtime is given, Host what the class `AgentRuntime` has in common, Requests and Resume the methods that an
-- owner calls, and Step the step of the runner.
pub mod Run
pub mod Store
pub mod Leases
pub mod Gateway
pub mod Host
pub mod Requests
pub mod Resume
pub mod Step
pub mod Ledgers
mod Tests
