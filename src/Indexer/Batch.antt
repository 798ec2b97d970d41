-- ===== src/Indexer/Batch.antt =====
-- `readBatch` of _backend/apps/worker/src/indexer.ts: the events and the headers of one range of
-- blocks, read through the client and checked against each other. Heights that the source may set
-- below 0 are lower bounds here, where 0 does as well.
pub mod Reads
use enclave_developer.Prelude.{
  ℕ, zero, suc, ◌+◌, ◌-◌, List, [], ◌∷◌, ◌++◌, Option, none, some, Bool, false, ◌||◌, ltb, ◌==◌,
  if◌then◌else◌, find_first, Result, ok, err, pure, throw, from_result, ◌>>=◌, ◌>>◌,
}
use enclave_developer.Prelude.Text.{Text, same_hex}
use enclave_developer.Core.Address.{is_configured_address}
use enclave_developer.Indexer.Fault.{
  Fault, bad_listing_id, malformed_listing, outside_range, noncanonical_block, reorganized_events,
}
use enclave_developer.Indexer.Reorg.{Checkpoint, ChainHeader, checkpoint_tail}
use enclave_developer.Indexer.Policy.{RegistryEvent, listed, approved, revoked, out_of_range}
use enclave_developer.Indexer.World.{
  Source, verified, settled, buyback_queued, registry_listed, registry_approved, registry_revoked,
  Log, Client, Call, ask, read_header,
}

-- The addresses of `IndexerOpts` and the numbers of `context`.
pub record Deployment : Type 0 where
  pub verifier : Option Text
  pub meter : Option Text
  pub fee_vault : Option Text
  pub registry : Option Text

-- A log of a mined transaction, with its registry event if it is one.
pub record Entry : Type 0 where
  pub source : Source
  pub tx_hash : Text
  pub log_index : ℕ
  pub block_number : ℕ
  pub block_hash : Text
  pub event : Option RegistryEvent

abbrev mined_entry :
    Source
    → Option RegistryEvent
    → Option Text
    → Option ℕ
    → Option ℕ
    → Option Text
    → Bool
    → Option Entry
mined_entry source event (some tx) (some index) (some number) (some hash) false = some (record {
  source = source;
  tx_hash = tx;
  log_index = index;
  block_number = number;
  block_hash = hash;
  event = event;
})
mined_entry source event tx index number hash is_removed = none

-- `isMined`, with the fields that it finds set.
mined : Source → Option RegistryEvent → Log → Option Entry
mined source event log =
    mined_entry source event log.transaction_hash log.log_index log.block_number log.block_hash
      log.removed

-- `logs.filter(isMined).map((log) => ({ log }))`
plain_entries : Source → List Log → List Entry
unfolding mined
plain_entries source [] = []
plain_entries source (log ∷ logs) = elim (mined source none log) [
  | none ↦ plain_entries source logs
  | some entry ↦ entry ∷ plain_entries source logs
]

listing_id : Option ℕ → Result Fault ℕ
listing_id none = err bad_listing_id
listing_id (some id) = if out_of_range id then err bad_listing_id else ok id

abbrev listed_event :
    Option Text → Option Text → Option Text → Option ℕ → Result Fault RegistryEvent
listed_event (some m) (some c) (some p) id = elim (listing_id id) [
  | err e ↦ err e
  | ok n ↦ ok (listed (record { listing_id = n; model_hash = m; code_hash = c; provider = p }))
]
listed_event m c p id = err malformed_listing

abbrev with_id : (ℕ → RegistryEvent) → Result Fault ℕ → Result Fault RegistryEvent
with_id make (ok n) = ok (make n)
with_id make (err e) = err e

-- The event that a log of each registry source is mapped to.
registry_event : Source → Log → Result Fault (Option RegistryEvent)
unfolding listing_id
registry_event registry_listed log =
    elim (listed_event log.model_hash log.code_hash log.provider log.id) [
      | ok e ↦ ok (some e)
      | err e ↦ err e
    ]
registry_event registry_approved log = elim (with_id approved (listing_id log.id)) [
  | ok e ↦ ok (some e)
  | err e ↦ err e
]
registry_event registry_revoked log = elim (with_id revoked (listing_id log.id)) [
  | ok e ↦ ok (some e)
  | err e ↦ err e
]
registry_event other log = ok none

-- `filter(isMined).map(…)` of a registry source; a log that is not mined is never mapped.
registry_entries : Source → List Log → Result Fault (List Entry)
unfolding mined registry_event
registry_entries source [] = ok []
registry_entries source (log ∷ logs) =
    let rest = registry_entries source logs in
    elim (mined source none log) [
      | none ↦ rest
      | some entry ↦ elim (registry_event source log) [
        | err e ↦ err e
        | ok event ↦ elim rest [
          | err e ↦ err e
          | ok entries ↦ ok (record entry { event = event } ∷ entries)
        ]
      ]
    ]

module _ (client : Client) where
  get_logs : Source → ℕ → ℕ → Call (List Log)
  get_logs source from to = ask (λ t. client.logs t source from to)

  -- The batch of one contract that only has plain events.
  read_plain : Option Text → Source → ℕ → ℕ → Call (List Entry)
  unfolding plain_entries get_logs
  read_plain address source from to =
      if is_configured_address address
      then (do logs ← get_logs source from to; pure (plain_entries source logs))
      else pure []

  read_registry : Option Text → ℕ → ℕ → Call (List Entry)
  unfolding registry_entries get_logs
  read_registry address from to =
      if is_configured_address address
      then (do
        all_listed ← get_logs registry_listed from to
        all_approved ← get_logs registry_approved from to
        all_revoked ← get_logs registry_revoked from to
        listings ← from_result (registry_entries registry_listed all_listed)
        approvals ← from_result (registry_entries registry_approved all_approved)
        revocations ← from_result (registry_entries registry_revoked all_revoked)
        pure (listings ++ (approvals ++ revocations)))
      else pure []

  -- The batches of all sources, in the order of the source.
  read_entries : Deployment → ℕ → ℕ → Call (List Entry)
  unfolding read_plain read_registry
  read_entries addresses from to = do
    verifications ← read_plain addresses.verifier verified from to
    settlements ← read_plain addresses.meter settled from to
    buybacks ← read_plain addresses.fee_vault buyback_queued from to
    registered ← read_registry addresses.registry from to
    pure (verifications ++ (settlements ++ (buybacks ++ registered)))

  -- `headerCache.get(number) ?? await readHeader(number)`, with the cache that follows.
  cached_header : ℕ → List ChainHeader → Call (ChainHeader × List ChainHeader)
  cached_header number cache = elim (find_first (λ h. h.number == number) cache) [
    | some header ↦ pure (header, cache)
    | none ↦ (do header ← read_header client number; pure (header, header ∷ cache))
  ]

  -- The loop over the headers, `count` of them from `number` on.
  read_headers : ℕ → ℕ → List ChainHeader → Call (List ChainHeader × List ChainHeader)
  unfolding cached_header
  read_headers zero number cache = pure ([], cache)
  read_headers (suc count) number cache = do
    found ← cached_header number cache
    rest ← read_headers count (number + 1) found.1
    pure (found.0 ∷ rest.0, rest.1)

  -- The loop that holds each event against the header of its block.
  check_entries : ℕ → ℕ → List Entry → List ChainHeader → Call (Unit {0})
  unfolding cached_header
  check_entries from to [] cache = pure tt
  check_entries from to (entry ∷ entries) cache =
      if ltb entry.block_number from || ltb to entry.block_number then throw outside_range else (do
        found ← cached_header entry.block_number cache
        if same_hex entry.block_hash found.0.hash
            then check_entries from to entries found.1
            else throw noncanonical_block)

  pub read_batch : Deployment → ℕ → ℕ → ℕ → List Checkpoint → Call (List Entry × List Checkpoint)
  unfolding read_entries read_headers check_entries
  read_batch addresses window from to previous = do
    before ← read_header client to
    entries ← read_entries addresses from to
    let first = if ltb from (to + 1 - window) then to + 1 - window else from
    headers ← read_headers (to + 1 - first) first (before ∷ [])
    check_entries from to entries headers.1
    after ← read_header client to
    if same_hex after.hash before.hash
        then (do
          checkpoints ← from_result (checkpoint_tail previous headers.0 window)
          pure (entries, checkpoints))
        else throw reorganized_events
