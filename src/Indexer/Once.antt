-- ===== src/Indexer/Once.antt =====
-- `indexChainOnce` and `resetChainIndexer` of _backend/apps/worker/src/indexer.ts. The advisory
-- lock makes the transactions of one scope follow each other, so a run is one call; timestamps and
-- logging are left out. The cursor's block number plus one is `next`, and so is the confirmed
-- height `limit`.
pub mod Tables
pub mod Setup
pub mod Guard
pub mod Others
pub mod Safety
mod Tests
use enclave_developer.Prelude.{
  ℕ, ◌+◌, ◌-◌, List, [], ◌∷◌, ◌++◌, Option, none, some, Bool, true, false, ◌&&◌, ◌||◌, not, ltb,
  leb, ◌==◌, if◌then◌else◌, last?, keep_if, any, Result, ok, err, pure, throw, from_result, get,
  catch, ◌>>=◌, ◌>>◌,
}
use enclave_developer.Prelude.Text.{Text, same}
use enclave_developer.Core.Address.{is_configured_address}
use enclave_developer.Indexer.Fault.{Fault, no_matching_checkpoint, rebuild_required, fork_too_deep}
use enclave_developer.Indexer.Reorg.{Checkpoint, parse_checkpoints, find_common_ancestor}
use enclave_developer.Indexer.Policy.{quarantine_registry_scope}
use enclave_developer.Indexer.World.{
  CursorRow, CursorStatus, active, catching_up, Db, World, Client, Call, ask, transaction, write,
  read_header,
}
use enclave_developer.Indexer.Batch.{Deployment, Entry, read_batch}
use Tables.{
  find_cursor, set_status, save_cursor, delete_above, apply_events, apply_listings, rebuild, store,
  sort_entries, quarantine, delete_scope,
}
use Setup.{Options, Context, context, any_address}

pub record Range : Type 0 where
  pub from_block : ℕ
  pub to_limit : ℕ

-- `DeferredResult`: an error that is thrown only after the transaction has committed.
pub data Deferred : Type 0 where
  result : Range → Deferred
  error : Fault → Deferred

-- What the saved cursor leaves to do: nothing, or to go on from a height.
pub data Start : Type 0 where
  halt : Fault → Start
  resume : ℕ → List Checkpoint → Bool → Start

-- `checkpoints.at(-1)?.number !== cursor || checkpoints.at(-1)?.hash !== saved?.blockHash`, negated.
abbrev matches : Option Checkpoint → ℕ → Option Text → Bool
matches (some c) next (some hash) = c.number + 1 == next && same c.hash hash
matches c next hash = false

saved_checkpoints : CursorRow → Result Fault (List Checkpoint)
saved_checkpoints row = elim (parse_checkpoints row.checkpoints) [
  | err e ↦ err e
  | ok cs ↦ if matches (last? cs) row.next row.block_hash then ok cs else err no_matching_checkpoint
]

-- `confirmed + 1`
abbrev pub confirmed_limit : Context → ℕ → ℕ
confirmed_limit ctx latest =
    if leb ctx.confirmations latest then latest - ctx.confirmations + 1 else 0

abbrev is_status : CursorStatus → CursorStatus → Bool
is_status active active = true
is_status catching_up catching_up = true
is_status CursorStatus.rebuild_required CursorStatus.rebuild_required = true
is_status _ _ = false

module _ (client : Client) (ctx : Context) where
  -- The quarantine of the scope, with the status that the cursor gets.
  suspend : CursorStatus → Call (Unit {0})
  suspend status = do write (quarantine ctx.scope); write (set_status ctx.scope status)

  -- The branch of a fork: everything above the ancestor is dropped.
  rewind : Checkpoint → List Checkpoint → Call Start
  rewind ancestor cs =
      let kept = keep_if (λ c. leb c.number ancestor.number) cs in
      do
        write (quarantine ctx.scope)
        write (delete_above ctx.scope ancestor.number)
        write (save_cursor ctx.scope (ancestor.number + 1) kept catching_up)
        pure (resume (ancestor.number + 1) kept true)

  -- What follows the search for the ancestor.
  after_search : ℕ → Bool → List Checkpoint → Option Checkpoint → Call Start
  unfolding suspend rewind
  after_search next rebuilding cs none = do
    suspend CursorStatus.rebuild_required
    pure (halt fork_too_deep)
  after_search next rebuilding cs (some ancestor) =
      if ancestor.number + 1 == next then pure (resume next cs rebuilding) else rewind ancestor cs

  -- The search, its result as a value.
  look_back : ℕ → List Checkpoint → Call (Result Fault (Option Checkpoint))
  look_back limit cs = do
    ancestor ← find_common_ancestor cs limit (read_header client)
    pure (ok ancestor)

  -- The `catch` of the search.
  give_up : Fault → Call (Result Fault (Option Checkpoint))
  unfolding suspend
  give_up e = do suspend catching_up; pure (err e)

  after_result : ℕ → Bool → List Checkpoint → Result Fault (Option Checkpoint) → Call Start
  unfolding after_search
  after_result next rebuilding cs (err e) = pure (halt e)
  after_result next rebuilding cs (ok ancestor) = after_search next rebuilding cs ancestor

  check_saved : ℕ → CursorRow → Bool → Result Fault (List Checkpoint) → Call Start
  unfolding after_result suspend look_back give_up
  check_saved limit row rebuilding (err e) = do
    suspend CursorStatus.rebuild_required
    pure (halt rebuild_required)
  check_saved limit row rebuilding (ok cs) = do
    searched ← catch (look_back limit cs) give_up
    after_result row.next rebuilding cs searched

  -- The part under `if (cursor >= 0n)`.
  check_history : ℕ → CursorRow → Bool → Call Start
  unfolding saved_checkpoints check_saved
  check_history limit row rebuilding = check_saved limit row rebuilding (saved_checkpoints row)

  -- `if (fromBlock > confirmed) { … }`
  finish : ℕ → ℕ → List Checkpoint → Bool → Call Deferred
  finish limit next cs rebuilding =
      let range : Deferred = result (record { from_block = next; to_limit = limit }) in
      if rebuilding && next == limit
      then catch
          (do
            transaction (do rebuild ctx.scope; write (save_cursor ctx.scope next cs active))
            pure range)
          (λ e. pure (error e))
      else pure range

  -- The savepoint that stores one batch; `to` is its last block.
  apply_batch : ℕ → ℕ → Bool → List Entry → List Checkpoint → Call (Unit {0})
  apply_batch limit to rebuilding entries cs =
      let events = sort_entries entries in
      let behind = ltb (to + 1) limit in
      do
        write (store ctx.scope entries)
        if behind
            then (do apply_listings ctx.scope events; write (quarantine ctx.scope))
            else if rebuilding
            then rebuild ctx.scope
            else apply_events ctx.scope events
        write (save_cursor ctx.scope (to + 1) cs (if behind then catching_up else active))

  -- The batch from `next` on; the confirmed height is not below it.
  advance : Deployment → ℕ → ℕ → List Checkpoint → Bool → Call Deferred
  unfolding apply_batch
  advance addresses limit next cs rebuilding =
      let to = if ltb (next + ctx.batch_size) limit then next + ctx.batch_size - 1 else limit - 1 in
      let range : Deferred = result (record { from_block = next; to_limit = to + 1 }) in
      catch
        (do
          batch ← read_batch client addresses ctx.window next to cs
          transaction (apply_batch limit to rebuilding batch.0 batch.1)
          pure range)
        (λ e. pure (error e))

  after_start : Deployment → ℕ → Start → Call Deferred
  unfolding finish advance
  after_start addresses limit (halt e) = pure (error e)
  after_start addresses limit (resume next cs rebuilding) =
      if leb limit next
      then finish limit next cs rebuilding
      else advance addresses limit next cs rebuilding

  -- What the saved row says, before the chain is asked for its history.
  from_saved : ℕ → Option CursorRow → Call Start
  unfolding check_history
  from_saved limit none = pure (resume 0 [] false)
  from_saved limit (some row) =
      if is_status CursorStatus.rebuild_required row.status
      then pure (halt rebuild_required)
      else if row.next == 0
      then pure (resume 0 [] (is_status catching_up row.status))
      else check_history limit row (is_status catching_up row.status)

  -- The transaction of `indexChainOnce`.
  index_transaction : Deployment → Call Deferred
  unfolding from_saved after_start
  index_transaction addresses = do
    w ← get
    latest ← ask client.block_number
    start ← from_saved (confirmed_limit ctx latest) (find_cursor ctx.scope w.db)
    after_start addresses (confirmed_limit ctx latest) start

abbrev outcome : Deferred → Call (Option Range)
outcome (result r) = pure (some r)
outcome (error e) = throw e

unfoldable pub index_chain_once : Client → Options → Call (Option Range)
unfolding index_transaction
index_chain_once client opts =
    if any_address opts.addresses
    then (do
      ctx ← context client opts
      deferred ← transaction (index_transaction client ctx opts.addresses)
      outcome deferred)
    else pure none

unfoldable pub reset_chain_indexer : Client → Options → Call Text
reset_chain_indexer client opts = do
  ctx ← context client opts
  transaction (do
    write (quarantine ctx.scope)
    write (delete_scope ctx.scope)
    write (save_cursor ctx.scope 0 [] catching_up))
  pure ctx.scope
