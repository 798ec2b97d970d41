-- ===== src/Signer/World.antt =====
-- What _backend/packages/db/src/signer.ts works on: the table `chain_transactions`, and the chain
-- client with the account's key. The client (viem) and the hashes are parameters; each call of the
-- client gets the number of calls made before it, and `none` is a call that throws. The trace of
-- raw transactions handed to the network is kept for the statements below.
pub mod Settled
use enclave_developer.Prelude.{
  ℕ, ◌+◌, List, [], ◌∷◌, ◌++◌, Option, none, some, Bool, Result, ok, err, Exec,
}
use enclave_developer.Prelude.Text.{Text}
use enclave_developer.Signer.Gas.{Prepared}

pub data Status : Type 0 where
  prepared broadcast confirmed reverted : Status

-- A row of `chain_transactions`, without its timestamps.
pub record JournalRow : Type 0 where
  pub id : ℕ
  pub scope : Text
  pub operation_key : Text
  pub request_hash : Text
  pub signer : Text
  pub nonce : ℕ
  pub raw_transaction : Text
  pub tx_hash : Text
  pub status : Status
  pub confirmed_block_number : Option ℕ
  pub confirmed_block_hash : Option Text

pub record World : Type 0 where
  pub journal : List JournalRow
  pub clock : ℕ
  pub sent : List Text

pub data SignerFault : Type 0 where
  rpc_failed wrong_chain no_genesis bad_depth : SignerFault
  proof_invalid : Text → SignerFault
  nonce_conflict : Text → ℕ → SignerFault
  key_reused nonce_gap nonce_unsafe gas_limit : SignerFault
  transaction_reverted : Text → SignerFault

pub record Log : Type 0 where
  pub address : Text
  pub topics : List Text
  pub content : Text

pub record Receipt : Type 0 where
  pub transaction_hash : Text
  pub block_number : ℕ
  pub block_hash : Text
  pub success : Bool
  pub logs : List Log

-- A call that answers, or says that it did not find what was asked for, or throws.
pub data Lookup (A : Type 0) : Type 0 where
  found : A → Lookup A
  absent : Lookup A
  broken : Lookup A

pub record ContractCall : Type 0 where
  pub address : Text
  pub value : ℕ
  pub encoded : Text

pub record Wallet : Type 0 where
  pub address : Text
  pub chain_id : ℕ → Option ℕ
  pub block_number : ℕ → Option ℕ
  pub block_hash : ℕ → ℕ → Lookup (Option Text)
  pub receipt : ℕ → Text → Lookup Receipt
  pub latest_count : ℕ → Option ℕ
  pub pending_count : ℕ → Option ℕ
  pub send_raw : ℕ → Text → Option Text
  pub get_transaction : ℕ → Text → Option Text
  pub wait_for_receipt : ℕ → Text → ℕ → Option Text
  pub prepare : ℕ → ContractCall → ℕ → Option Prepared
  pub sign : ContractCall → ℕ → Prepared → Text
  pub transaction_hash : Text → Text
  pub request_hash : ContractCall → Text
  pub scope_of : ℕ → Text → Text

abbrev pub Call : Type 0 → Type 0
Call A = Exec World SignerFault A

abbrev answer : {A : Type 0} → Option A → Result SignerFault A
answer none = err rpc_failed
answer (some a) = ok a

unfoldable pub ask : {A : Type 0} → (ℕ → Option A) → Call A
ask f w = (answer (f w.clock), record w { clock = w.clock + 1 })

abbrev pub answer_lookup : {A : Type 0} → Lookup A → Result SignerFault (Option A)
answer_lookup (found a) = ok (some a)
answer_lookup absent = ok none
answer_lookup broken = err rpc_failed

unfoldable pub look_up : {A : Type 0} → (ℕ → Lookup A) → Call (Option A)
look_up f w = (answer_lookup (f w.clock), record w { clock = w.clock + 1 })

unfoldable pub write : (List JournalRow → List JournalRow) → Call (Unit {0})
write f w = (ok tt, record w { journal = f w.journal })

-- A raw transaction is handed to the network, whatever the client then answers.
unfoldable pub send : Wallet → Text → Call Text
send wallet raw w = (
  answer (wallet.send_raw w.clock raw),
  record w { clock = w.clock + 1; sent = w.sent ++ raw ∷ [] },
)

-- `opts.db.transaction(…)`: a throw restores the table; what was sent stays sent.
unfoldable pub settle :
    {A : Type 0} → List JournalRow → Result SignerFault A × World → Result SignerFault A × World
settle before (ok a, w) = (ok a, w)
settle before (err e, w) = (err e, record w { journal = before })

unfoldable pub transaction : {A : Type 0} → Call A → Call A
unfolding settle
transaction m w = settle w.journal (m w)
