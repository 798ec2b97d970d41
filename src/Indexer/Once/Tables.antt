-- ===== src/Indexer/Once/Tables.antt =====
-- The statements that _backend/apps/worker/src/indexer.ts makes on its tables: the cursor, the
-- journal of events, and the registry events applied to the model catalogue.
use enclave_developer.Prelude.{
  ℕ, List, [], ◌∷◌, ◌++◌, map, Option, none, some, Bool, true, false, ◌&&◌, ◌||◌, not, ltb, ◌==◌,
  if◌then◌else◌, last?, find_first, keep_if, any, update_where, each, Result, ok, err, pure,
}
use enclave_developer.Prelude.Text.{Text, same}
use enclave_developer.Indexer.Fault.{Fault}
use enclave_developer.Indexer.Reorg.{Checkpoint, serialize_checkpoints}
use enclave_developer.Indexer.Policy.{
  Model, RegistryEvent, listed, Payload, apply_registry_sync, quarantine_registry_scope,
  rebuild_registry_policy,
}
use enclave_developer.Indexer.World.{
  Source, registry_listed, registry_approved, registry_revoked, EventRow, CursorRow, CursorStatus,
  Db, World, Call,
}
use enclave_developer.Indexer.Batch.{Entry}

abbrev pub find_cursor : Text → Db → Option CursorRow
find_cursor scope db = find_first (λ c. same c.name scope) db.cursors

abbrev hash_of : Option Checkpoint → Option Text
hash_of none = none
hash_of (some c) = some c.hash

abbrev pub cursor_row : Text → ℕ → List Checkpoint → CursorStatus → CursorRow
cursor_row scope next checkpoints status = record {
  name = scope;
  next = next;
  block_hash = hash_of (last? checkpoints);
  checkpoints = serialize_checkpoints checkpoints;
  status = status;
}

-- `insert … onConflictDoUpdate` on the cursor's name, its primary key.
unfoldable pub put_cursor : CursorRow → List CursorRow → List CursorRow
put_cursor row [] = row ∷ []
put_cursor row (c ∷ cs) = if same c.name row.name then row ∷ cs else c ∷ put_cursor row cs

-- `saveCursor`
unfoldable pub save_cursor : Text → ℕ → List Checkpoint → CursorStatus → Db → Db
unfolding put_cursor
save_cursor scope next checkpoints status db = record db {
  cursors = put_cursor (cursor_row scope next checkpoints status) db.cursors;
}

-- `update(indexCursors).set({ status }).where(eq(indexCursors.name, scope))`
unfoldable pub set_status : Text → CursorStatus → Db → Db
set_status scope status db = record db {
  cursors = update_where (λ c. same c.name scope) (λ c. record c { status = status }) db.cursors;
}

unfoldable pub quarantine : Text → Db → Db
quarantine scope db = record db { models = quarantine_registry_scope scope db.models }

-- The journal above a block is deleted.
unfoldable pub delete_above : Text → ℕ → Db → Db
delete_above scope number db = record db {
  events = keep_if (λ e. not (same e.scope scope && ltb number e.block_number)) db.events;
}

unfoldable pub delete_scope : Text → Db → Db
delete_scope scope db = record db { events = keep_if (λ e. not (same e.scope scope)) db.events }

abbrev same_log : EventRow → EventRow → Bool
same_log a b = same a.scope b.scope && same a.tx_hash b.tx_hash && a.log_index == b.log_index

abbrev pub event_row : Text → Entry → EventRow
event_row scope e = record {
  scope = scope;
  source = e.source;
  tx_hash = e.tx_hash;
  log_index = e.log_index;
  block_number = e.block_number;
  block_hash = e.block_hash;
  payload = e.event;
}

-- `insert … onConflictDoNothing` on (scope, txHash, logIndex).
insert_event : EventRow → List EventRow → List EventRow
insert_event row rows = if any (same_log row) rows then rows else rows ++ row ∷ []

store_all : Text → List Entry → List EventRow → List EventRow
unfolding insert_event
store_all scope [] rows = rows
store_all scope (e ∷ es) rows = store_all scope es (insert_event (event_row scope e) rows)

-- `store`
unfoldable pub store : Text → List Entry → Db → Db
unfolding store_all
store scope entries db = record db { events = store_all scope entries db.events }

-- A stable sort by a test that says which of two comes no later.
module _ {A : Type 0} (before : A → A → Bool) where
  insert_sorted : A → List A → List A
  insert_sorted a [] = a ∷ []
  insert_sorted a (b ∷ bs) = if before a b then a ∷ b ∷ bs else b ∷ insert_sorted a bs

  pub sort : List A → List A
  unfolding insert_sorted
  sort [] = []
  sort (a ∷ as_rest) = insert_sorted a (sort as_rest)

abbrev no_later : ℕ → ℕ → ℕ → ℕ → Bool
no_later block log block' log' = ltb block block' || (block == block' && not (ltb log' log))

-- By block number, then by log index.
unfoldable pub sort_entries : List Entry → List Entry
unfolding sort
sort_entries = sort (λ a b. no_later a.block_number a.log_index b.block_number b.log_index)

sort_rows : List EventRow → List EventRow
unfolding sort
sort_rows = sort (λ a b. no_later a.block_number a.log_index b.block_number b.log_index)

abbrev is_registry : Source → Bool
is_registry registry_listed = true
is_registry registry_approved = true
is_registry registry_revoked = true
is_registry _ = false

-- What `rebuildRegistryPolicy` selects from the journal.
unfoldable pub journal : Text → Db → List Payload
unfolding sort_rows
journal scope db =
    map (λ e. e.payload)
      (sort_rows (keep_if (λ e. same e.scope scope && is_registry e.source) db.events))

abbrev pub with_models : Result Fault (List Model) → World → Result Fault (Unit {0}) × World
with_models (ok ms) w = (ok tt, record w { db = record w.db { models = ms } })
with_models (err e) w = (err e, w)

-- `rebuildRegistryPolicy`. It runs in a savepoint only, so what it wrote before a throw is undone.
unfoldable pub rebuild : Text → Call (Unit {0})
rebuild scope w = with_models (rebuild_registry_policy scope (journal scope w.db) w.db.models) w

unfoldable pub sync : Text → RegistryEvent → Call (Unit {0})
sync scope event w = with_models (apply_registry_sync event scope w.db.models) w

abbrev pub if_event : Text → Option RegistryEvent → Call (Unit {0})
if_event scope none = pure tt
if_event scope (some event) = sync scope event

abbrev pub if_listed : Text → Option RegistryEvent → Call (Unit {0})
if_listed scope (some (listed l)) = sync scope (listed l)
if_listed scope other = pure tt

-- `for (const entry of events) if (entry.registryEvent) await applyRegistrySync(…)`
unfoldable pub apply_events : Text → List Entry → Call (Unit {0})
unfolding each
apply_events scope = each (λ e. if_event scope e.event)

-- The same loop, for the events of type `Listed` alone.
unfoldable pub apply_listings : Text → List Entry → Call (Unit {0})
unfolding each
apply_listings scope = each (λ e. if_listed scope e.event)
