-- ===== src/Signer/Journal.antt =====
-- `canonicalReceipt`, `broadcast` and `reconcileJournal` of _backend/packages/db/src/signer.ts.
pub mod Steady
pub mod Rows
use enclave_developer.Prelude.{
  ℕ, ◌+◌, List, [], ◌∷◌, Option, none, some, Bool, false, ◌&&◌, ltb, leb, ◌==◌, if◌then◌else◌,
  keep_if, update_where, find_first, pure, throw, get, catch, ◌>>=◌, ◌>>◌,
}
use enclave_developer.Prelude.Text.{Text, same, same_hex}
use enclave_developer.Prelude.Sort.{sort_by}
use enclave_developer.Signer.World.{
  JournalRow, Status, broadcast, confirmed, reverted, SignerFault, proof_invalid, nonce_conflict,
  Receipt, Wallet, Call, ask, look_up, write, send,
}

abbrev or_hex : Option Text → Text → Bool
or_hex none h = false
or_hex (some g) h = same_hex g h

abbrev flatten : Option (Option Text) → Option Text
flatten none = none
flatten (some h) = h

-- `rows` of one signer in one scope, by nonce.
unfoldable pub rows_of : Text → Text → List JournalRow → List JournalRow
rows_of scope signer journal =
    sort_by (λ r. r.nonce) (keep_if (λ r. same r.scope scope && same r.signer signer) journal)

-- The columns that `reconcileJournal` and `confirmDurableTransaction` write.
abbrev pub set_state : Status → Option ℕ → Option Text → JournalRow → JournalRow
set_state status number hash r = record r {
  status = status;
  confirmed_block_number = number;
  confirmed_block_hash = hash;
}

abbrev pub is_row : ℕ → JournalRow → Bool
is_row id r = r.id == id

-- A confirmed or reverted row names the block of its proof.
abbrev proof_of : Status → Option ℕ → Option Text → Option (ℕ × Text)
proof_of confirmed (some n) (some h) = some (n, h)
proof_of reverted (some n) (some h) = some (n, h)
proof_of _ n h = none

abbrev Headers : Type 0
Headers = List (ℕ × Option Text)

module _ (wallet : Wallet) where
  unfoldable pub block_hash : ℕ → Call (Option Text)
  block_hash number = do answer ← look_up (λ t. wallet.block_hash t number); pure (flatten answer)

  -- The part of `canonicalReceipt` for a receipt that the client has.
  unfoldable pub check_receipt : Text → Receipt → Call (Option Receipt)
  unfolding block_hash
  check_receipt hash receipt =
      if same_hex receipt.transaction_hash hash
      then (do
        canonical ← block_hash receipt.block_number
        pure (if or_hex canonical receipt.block_hash then some receipt else none))
      else throw (proof_invalid hash)

  unfoldable pub canonical_receipt : Text → Call (Option Receipt)
  unfolding check_receipt
  canonical_receipt hash = do
    answer ← look_up (λ t. wallet.receipt t hash)
    elim answer [ none ↦ pure none | some receipt ↦ check_receipt hash receipt ]

  -- The `catch` of `broadcast`: only this very transaction, seen on the chain, excuses the error.
  observe : JournalRow → SignerFault → Call (Unit {0})
  observe row error =
      catch
        (do
          seen ← ask (λ t. wallet.get_transaction t row.tx_hash)
          if same_hex seen row.tx_hash then pure tt else throw error)
        (λ e. throw error)

  unfoldable pub broadcast_row : JournalRow → Call (Unit {0})
  unfolding observe
  broadcast_row row =
      catch
        (do
          hash ← send wallet row.raw_transaction
          if same_hex hash row.tx_hash then pure tt else throw (proof_invalid row.tx_hash))
        (observe row)

  -- `headers.get(number)`, read once for each number.
  cached_hash : ℕ → Headers → Call (Option Text × Headers)
  unfolding block_hash
  cached_hash number headers = elim (find_first (λ h. h.0 == number) headers) [
    | some (n, hash) ↦ pure (hash, headers)
    | none ↦ (do hash ← block_hash number; pure (hash, (number, hash) ∷ headers))
  ]

  -- Whether the row's recorded proof still holds, so that the row is left alone.
  pub still_proved : ℕ → ℕ → Option (ℕ × Text) → Headers → Call (Bool × Headers)
  unfolding cached_hash
  still_proved head depth none headers = pure (false, headers)
  still_proved head depth (some (number, hash)) headers = do
    cached ← cached_hash number headers
    pure (or_hex cached.0 hash && leb (number + depth) head, cached.1)

  -- The new state of a row, written and returned.
  save_state : JournalRow → Status → Option ℕ → Option Text → Call JournalRow
  save_state row status number hash = do
    write (update_where (is_row row.id) (set_state status number hash))
    pure (set_state status number hash row)

  settle_receipt : ℕ → ℕ → JournalRow → Receipt → Call JournalRow
  unfolding save_state
  settle_receipt head depth row receipt =
      if leb (receipt.block_number + depth) head
      then save_state row (if receipt.success then confirmed else reverted)
          (some receipt.block_number) (some receipt.block_hash)
      else save_state row broadcast none none

  -- A row with no canonical receipt: it is sent again, unless its nonce is spent.
  replay_row : JournalRow → Call JournalRow
  unfolding save_state
  replay_row row = do
    mined ← ask wallet.latest_count
    if ltb row.nonce mined
        then throw (nonce_conflict row.tx_hash row.nonce)
        else (do broadcast_row row; save_state row broadcast none none)

  recover_row : ℕ → ℕ → JournalRow → Call JournalRow
  unfolding settle_receipt replay_row
  recover_row head depth row = do
    receipt ← canonical_receipt row.tx_hash
    elim receipt [ some r ↦ settle_receipt head depth row r | none ↦ replay_row row ]

  -- The loop: the rows with their new states, and those of them that were not proved any more.
  reconcile_rows : ℕ → ℕ → List JournalRow → Headers → Call (List JournalRow × List JournalRow)
  unfolding still_proved recover_row
  reconcile_rows head depth [] headers = pure ([], [])
  reconcile_rows head depth (row ∷ rows) headers = do
    checked ←
        still_proved head depth
          (proof_of row.status row.confirmed_block_number row.confirmed_block_hash) headers
    if checked.0
        then (do rest ← reconcile_rows head depth rows checked.1; pure (row ∷ rest.0, rest.1))
        else (do
          updated ← recover_row head depth row
          rest ← reconcile_rows head depth rows checked.1
          pure (updated ∷ rest.0, updated ∷ rest.1))

  unfoldable pub reconcile_journal : Text → Text → ℕ → Call (List JournalRow × List JournalRow)
  unfolding reconcile_rows
  reconcile_journal scope signer depth = do
    w ← get
    head ← ask wallet.block_number
    reconcile_rows head depth (rows_of scope signer w.journal) []
