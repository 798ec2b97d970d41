-- ===== src/Lib.antt =====
-- Verification of Enclave's off-chain services: the worker, the shared packages and the software
-- policy of `_backend`.
--
-- The services mirror a chain. The worker indexes the chain's events into a database, from which
-- the gateway learns which models are approved; the signer writes every transaction to a journal
-- before it sends it; the software policy says which version of the serving software is active.
-- They must stay right when the chain reorganises, when a call of the chain's client fails, and
-- when a process stops between two statements.
--
-- The files and the code they model:
--   * Prelude: what the others share. Tests, Lists, Text, Decimal and Sort are data; Effects is the
--     calls that change a state and may throw, with what they keep, and Triples what holds after.
--   * Core.Address and Core.Scope: packages/core/src/addresses.ts (`isConfiguredAddress`) and
--     indexer-scope.ts (`indexerScope`), all under _backend as every path below.
--   * Core.Fees and Core.Mandate: packages/core/src/fees.ts and mandate.ts; a day's requests on one
--     mandate follow each other in `reserve_each`.
--   * Indexer.Reorg: apps/worker/src/reorg.ts. `parse_checkpoints`, `serialize_checkpoints`,
--     `find_common_ancestor` and `checkpoint_tail` are the functions of these names; Window, Chain,
--     Ancestor and Storage hold their theorems.
--   * Indexer.Policy: apps/worker/src/policy-sync.ts, on the table `models` as a list of rows;
--     Catalogue, Approval and Isolation hold the theorems.
--   * Indexer.World, Indexer.Batch and Indexer.Once: apps/worker/src/indexer.ts. World is the
--     database with the clock of the client's calls, Batch is `readBatch`, Once is `indexChainOnce`
--     and `resetChainIndexer` with their statements in Once.Tables and their options in Once.Setup.
--     Once.Guard and Once.Safety hold the theorem.
--   * Signer: packages/db/src/signer.ts and arc-gas-policy.ts. World is the table
--     `chain_transactions`, the clock and the trace of what was sent; Journal is `reconcileJournal`
--     and what it calls; Durable holds the three exported functions.
--   * Tcb: packages/core/src/tcb.ts (Tcb.Policy) and apps/api/src/tcb-lifecycle.ts: Rows are the
--     stored rows and their checks, Store the statements, Lifecycle the methods of `TcbLifecycle`,
--     Lifecycle.Activate its `activate`, and Quote packages/core/src/attestation.ts; Single, Rules,
--     Starts, Proposals, Switch and Forward are proofs.
--   * Agent: apps/api/src/agent-runtime-store.ts (Agent.Store is `assertRunFence` and `change`,
--     Agent.Leases the other statements) and agent-runtime.ts: Gateway is what the class
--     `AgentRuntime` is given, Host its shared parts, Requests and Resume the methods that an owner
--     calls, Step and Step.Runner its `runNext`. Ledgers is calls in any order; Fenced,
--     Marked, Ledger, Chains, Calls, Makes, Dispatched, Kept, Settled, Parts, Marks and Whole are
--     proofs.
--   * Login: apps/api/src/wallet-auth.ts. Limiter is `MemoryWalletLoginLimiter`, Store the tables
--     with `PostgresWalletLoginStore`, Service the class `WalletLogin`, Client the identity of a
--     caller and Routes the handlers; Bounded, Fixed, Steps, Single, Sessions, Opened, Verified,
--     Outage and Closed are proofs.
--   * Anchoring: apps/worker/src/anchorer.ts (`anchor_receipt`), Recovery receipt-recovery.ts and
--     Jobs the recovery of jobs.ts; Proven, Anchored, Recovery.Kept, Jobs.Pages and Jobs.Ended are
--     proofs.
--   * Authorization: apps/api/src/authorization.ts, with its theorem in Accepted.
--   * Receipt: packages/core/src/receipt.ts, Proof provider-proof.ts, with the round trip in Signed.
--   * Cvm: packages/core/src/cvm.ts, the enclave for development: Session is the session of a managed
--     gateway, Infer the method `infer`, Near the check of a transcript in near-inference.ts;
--     Attested, Released and, in Infer, Kept, Reached, Bound and Secrets are proofs.
--   * Execution: apps/api/src/inference-execution.ts, with its theorems in Claims.
--
-- How the code is modelled. An asynchronous function is a function from a state to a result or a
-- thrown fault, and the state in which it ends (Prelude.Effects). A database transaction that
-- throws restores the tables; a call of the chain's client may answer anything or throw, and gets
-- the number of calls before it, so that it may answer differently each time. Advisory locks make
-- the transactions of one scope follow each other, so that interleavings are sequences of such
-- calls. Texts are lists of code points (in Tcb of UTF-16 code units). The loops are over lists, so
-- no fuel is needed; the loop over block numbers counts down the headers that are left, and the one
-- over the pages of receipts has more fuel than there are receipts. Numbers are natural numbers: a
-- height that the source may set to -1 is kept as the height plus one.
--
-- Parameters: the chain's client (viem), the hash of an identity, the encoding, hashing and signing
-- of a transaction, the commit of a new row of the signer's journal, which may fail, AES-GCM, the
-- recovery of a signer, the decoding of an event, SHA-256 and JSON.stringify, the approval of a
-- policy by the chain, the job queue (BullMQ), the shared limiter (Redis), and what the agent's
-- runner is given to reach the gateway. Not modelled: the gateway itself, timestamps, logging,
-- timers and abort signals, the HTTP services other than those of sign-in, the contracts and the
-- user interface.
mod Prelude
pub mod Core
pub mod Indexer
pub mod Signer
pub mod Tcb
pub mod Execution
pub mod Login
pub mod Agent
pub mod Anchoring
pub mod Authorization
pub mod Receipt
pub mod Cvm
