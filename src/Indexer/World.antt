-- ===== src/Indexer/World.antt =====
-- What _backend/apps/worker/src/indexer.ts works on: the three tables that it writes, and the chain
-- client. The client (viem) is a parameter: its answers depend on when it is asked, so each call
-- gets the number of calls made before it, and `none` is a call that throws.
pub mod Keeps
use enclave_developer.Prelude.{
  ℕ, ◌+◌, List, Option, none, some, Bool, ◌==◌, if◌then◌else◌, Result, ok, err, Exec, from_result,
  ◌>>=◌,
}
use enclave_developer.Prelude.Text.{Text}
use enclave_developer.Core.Scope.{Identity}
use enclave_developer.Indexer.Fault.{Fault, rpc_failed, missing_header}
use enclave_developer.Indexer.Reorg.{ChainHeader, Document}
use enclave_developer.Indexer.Policy.{Model, Payload}

pub data Source : Type 0 where
  verified settled buyback_queued registry_listed registry_approved registry_revoked : Source

-- A row of `chain_events`; of the stored JSON payload only the registry event is ever read back.
pub record EventRow : Type 0 where
  pub scope : Text
  pub source : Source
  pub tx_hash : Text
  pub log_index : ℕ
  pub block_number : ℕ
  pub block_hash : Text
  pub payload : Payload

pub data CursorStatus : Type 0 where
  active catching_up rebuild_required : CursorStatus

-- A row of `index_cursors`. The block number is -1 before the first block: `next` is the block
-- number plus one.
pub record CursorRow : Type 0 where
  pub name : Text
  pub next : ℕ
  pub block_hash : Option Text
  pub checkpoints : Document
  pub status : CursorStatus

pub record Db : Type 0 where
  pub events : List EventRow
  pub cursors : List CursorRow
  pub models : List Model

pub record World : Type 0 where
  pub db : Db
  pub clock : ℕ

-- A log as the client decodes it.
pub record Log : Type 0 where
  pub transaction_hash : Option Text
  pub log_index : Option ℕ
  pub block_number : Option ℕ
  pub block_hash : Option Text
  pub removed : Bool
  pub id : Option ℕ
  pub model_hash : Option Text
  pub code_hash : Option Text
  pub provider : Option Text

pub record Block : Type 0 where
  pub number : Option ℕ
  pub hash : Option Text
  pub parent_hash : Text

pub record Client : Type 0 where
  pub chain_id : ℕ → Option ℕ
  pub block_number : ℕ → Option ℕ
  pub block : ℕ → ℕ → Option Block
  pub logs : ℕ → Source → ℕ → ℕ → Option (List Log)
  pub commit : Identity → Text

abbrev pub Call : Type 0 → Type 0
Call A = Exec World Fault A

abbrev answer : {A : Type 0} → Option A → Result Fault A
answer none = err rpc_failed
answer (some a) = ok a

unfoldable pub ask : {A : Type 0} → (ℕ → Option A) → Call A
ask f w = (answer (f w.clock), record w { clock = w.clock + 1 })

-- `db.transaction(async (db) => …)`: a throw restores the tables, and the clock runs on.
settle : {A : Type 0} → Db → Result Fault A × World → Result Fault A × World
settle before (ok a, w) = (ok a, w)
settle before (err e, w) = (err e, record w { db = before })

unfoldable pub transaction : {A : Type 0} → Call A → Call A
unfolding settle
transaction m w = settle w.db (m w)

unfoldable pub write : (Db → Db) → Call (Unit {0})
write f w = (ok tt, record w { db = f w.db })

abbrev checked_header : ℕ → Option ℕ → Option Text → Text → Result Fault ChainHeader
checked_header number (some n) (some h) parent =
    if n == number
    then ok (record { number = number; hash = h; parent_hash = parent })
    else err missing_header
checked_header number n h parent = err missing_header

-- `readHeader`
unfoldable pub read_header : Client → ℕ → Call ChainHeader
read_header client number = do
  block ← ask (λ t. client.block t number)
  from_result (checked_header number block.number block.hash block.parent_hash)
