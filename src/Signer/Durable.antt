-- ===== src/Signer/Durable.antt =====
-- `sendDurableTransaction`, `confirmDurableTransaction` and `recoverSignerTransactions` of
-- _backend/packages/db/src/signer.ts. The advisory lock makes the transactions of one signer follow
-- each other. The id of a new row, which the database makes up, is the number of rows: none is
-- deleted.
pub mod Records
pub mod Reserve
pub mod Answered
pub mod Confirmed
pub mod Calls
pub mod Unique
pub mod Sent
use enclave_developer.Prelude.{
  ℕ, ◌+◌, ◌-◌, ◌^◌, List, [], ◌∷◌, ◌++◌, Option, none, some, Bool, true, false, ◌&&◌, ◌||◌, not,
  ltb, ◌==◌, if◌then◌else◌, last?, length, update_where, find_first, Result, ok, err, pure, throw,
  from_result, get, catch, each, ◌>>=◌, ◌>>◌,
}
use enclave_developer.Prelude.Text.{Text, same, same_hex, lower}
use enclave_developer.Signer.Gas.{GasFault, enforce_arc_relay_gas}
use enclave_developer.Signer.World.{
  JournalRow, Status, prepared, broadcast, confirmed, reverted, SignerFault, wrong_chain,
  no_genesis, bad_depth, proof_invalid, key_reused, nonce_gap, nonce_unsafe, gas_limit,
  transaction_reverted, Receipt, ContractCall, Wallet, Call, ask, look_up, write, transaction,
}
use enclave_developer.Signer.Journal.{
  set_state, is_row, canonical_receipt, broadcast_row, reconcile_journal,
}

-- `commits` is how the database answers to the commit of what `sendDurableTransaction` has written,
-- `none` if it refuses or is lost; it gets the number of calls before it. The other transactions are
-- taken to be committed.
pub record SignerOptions : Type 0 where
  pub chain_id : ℕ
  pub confirmations : Option ℕ
  pub commits : ℕ → Option (Unit {0})

abbrev pub max_safe_integer : ℕ
max_safe_integer = 2 ^ 53 - 1

abbrev depth_or_default : Option ℕ → ℕ → ℕ
depth_or_default (some n) chain_id = n
depth_or_default none chain_id = if chain_id == 31337 || chain_id == 1337 then 0 else 12

unfoldable pub confirmation_depth : SignerOptions → Result SignerFault ℕ
confirmation_depth opts =
    let value = depth_or_default opts.confirmations opts.chain_id in
    if ltb 100_000 value then err bad_depth else ok value

abbrev after_genesis : {A : Type 0} → Option (Option Text) → (Text → Call A) → Call A
after_genesis (some (some hash)) k = k hash
after_genesis other k = throw no_genesis

-- `scopeFor`; a missing genesis block throws as a failed call does.
unfoldable pub scope_for : Wallet → ℕ → Call Text
scope_for wallet chain_id = do
  chain ← ask wallet.chain_id
  if chain == chain_id
      then (do
        genesis ← look_up (λ t. wallet.block_hash t 0)
        after_genesis genesis (λ hash. pure (wallet.scope_of chain_id hash)))
      else throw wrong_chain

abbrev gas_result : Result GasFault (Unit {0}) → Result SignerFault (Unit {0})
gas_result (ok u) = ok u
gas_result (err e) = err gas_limit

-- `inArray(status, ["prepared", "broadcast"])`
abbrev is_open : Status → Bool
is_open prepared = true
is_open broadcast = true
is_open _ = false

abbrev has_key : Text → Text → JournalRow → Bool
has_key scope key r = same r.scope scope && same r.operation_key key

-- `candidate.find(…) ?? existing`
abbrev row_or : Option JournalRow → JournalRow → JournalRow
row_or none r = r
row_or (some found) r = found

abbrev ends_before : Option JournalRow → ℕ → Bool
ends_before none nonce = true
ends_before (some r) nonce = ltb r.nonce nonce

module _ (wallet : Wallet) (opts : SignerOptions) where
  -- `values({ … })`, with the columns that the table fills in.
  abbrev pub new_row : Text → Text → ContractCall → ℕ → Text → List JournalRow → JournalRow
  new_row scope key call nonce raw journal = record {
    id = length journal;
    scope = scope;
    operation_key = key;
    request_hash = wallet.request_hash call;
    signer = lower wallet.address;
    nonce = nonce;
    raw_transaction = raw;
    tx_hash = wallet.transaction_hash raw;
    status = prepared;
    confirmed_block_number = none;
    confirmed_block_hash = none;
  }

  insert : JournalRow → Call JournalRow
  insert row = do write (λ rows. rows ++ row ∷ []); pure row

  -- The insert, and the signing before it.
  insert_row : Text → Text → ContractCall → ℕ → Call JournalRow
  unfolding insert
  insert_row scope key call nonce = do
    request ← ask (λ t. wallet.prepare t call nonce)
    from_result (gas_result (enforce_arc_relay_gas opts.chain_id request))
    w ← get
    insert (new_row scope key call nonce (wallet.sign call nonce request) w.journal)

  -- A new operation takes the next nonce, if every earlier one entered the pending chain.
  reserve : Text → Text → ContractCall → List JournalRow → Call JournalRow
  unfolding insert_row
  reserve scope key call rows = do
    nonce ← ask wallet.pending_count
    if not (ends_before (last? rows) nonce)
        then throw nonce_gap
        else if ltb max_safe_integer nonce
        then throw nonce_unsafe
        else insert_row scope key call nonce

  -- The transaction's callback, from the row that has the key already.
  record_call : Text → Text → ContractCall → Option JournalRow → Call JournalRow
  unfolding confirmation_depth reserve
  record_call scope key call none = do
    depth ← from_result (confirmation_depth opts)
    reconciled ← reconcile_journal wallet scope (lower wallet.address) depth
    reserve scope key call reconciled.0
  record_call scope key call (some row) =
      if not (same row.request_hash (wallet.request_hash call))
        || not (same row.signer (lower wallet.address))
      then throw key_reused
      else (do
        depth ← from_result (confirmation_depth opts)
        reconciled ← reconcile_journal wallet scope (lower wallet.address) depth
        pure (row_or (find_first (is_row row.id) reconciled.0) row))

  -- The commit that follows the callback.
  committed : JournalRow → Call JournalRow
  committed row = do done ← ask opts.commits; pure row

  unfoldable pub journal_call : Text → Text → ContractCall → Call JournalRow
  unfolding record_call committed
  journal_call scope key call = do
    w ← get
    row ← record_call scope key call (find_first (has_key scope key) w.journal)
    committed row

  -- The row is sent, and marked as sent unless its end is known by then.
  send_open : JournalRow → Call Text
  send_open row = do
    broadcast_row wallet row
    write (
        update_where (λ x. is_row row.id x && is_open x.status)
          (λ x. record x { status = broadcast }))
    pure row.tx_hash

  -- What follows the transaction.
  pub publish : JournalRow → Call Text
  unfolding send_open
  publish row = elim row.status [
    | reverted ↦ throw (transaction_reverted row.tx_hash)
    | confirmed ↦ pure row.tx_hash
    | prepared ↦ send_open row
    | broadcast ↦ send_open row
  ]

  unfoldable pub send_durable_transaction : Text → ContractCall → Call Text
  unfolding confirmation_depth scope_for journal_call publish
  send_durable_transaction key call = do
    checked ← from_result (confirmation_depth opts)
    scope ← scope_for wallet opts.chain_id
    row ← transaction (journal_call scope key call)
    publish row

  -- A canonical receipt that is deep enough is written to the journal.
  record_proof : Text → Text → ℕ → Receipt → Call Receipt
  record_proof scope hash depth receipt = do
    head ← ask wallet.block_number
    if ltb head (receipt.block_number + depth) then throw (proof_invalid hash) else (do
      write (
          update_where
            (λ r. same r.scope scope && same r.signer (lower wallet.address) && same r.tx_hash hash)
            (set_state (if receipt.success then confirmed else reverted) (some receipt.block_number)
              (some receipt.block_hash)))
      pure receipt)

  -- The proof of a receipt, under the lock.
  prove : Text → Text → ℕ → Call Receipt
  unfolding record_proof
  prove scope hash depth = do
    proof ← canonical_receipt wallet hash
    elim proof [
      | none ↦ throw (proof_invalid hash)
      | some receipt ↦ record_proof scope hash depth receipt
    ]

  unfoldable pub confirm_durable_transaction : Text → Call Receipt
  unfolding confirmation_depth scope_for prove
  confirm_durable_transaction hash = do
    checked ← from_result (confirmation_depth opts)
    scope ← scope_for wallet opts.chain_id
    waited ← ask (λ t. wallet.wait_for_receipt t hash (checked + 1))
    if not (same_hex waited hash) then throw (proof_invalid hash) else (do
      receipt ← transaction (prove scope hash checked)
      if receipt.success then pure receipt else throw (transaction_reverted hash))

  abbrev forgive : SignerFault → Call (Unit {0})
  forgive (transaction_reverted hash) = pure tt
  forgive error = throw error

  confirm_row : JournalRow → Call (Unit {0})
  unfolding confirm_durable_transaction
  confirm_row row = catch (do receipt ← confirm_durable_transaction row.tx_hash; pure tt) forgive

  unfoldable pub recover_signer_transactions : Call ℕ
  unfolding confirmation_depth scope_for confirm_row
  recover_signer_transactions = do
    checked ← from_result (confirmation_depth opts)
    scope ← scope_for wallet opts.chain_id
    outcome ← transaction (reconcile_journal wallet scope (lower wallet.address) checked)
    each confirm_row outcome.1
    pure (length outcome.1)
