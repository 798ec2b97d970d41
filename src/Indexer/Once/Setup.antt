-- ===== src/Indexer/Once/Setup.antt =====
-- `positiveOption` and `context` of _backend/apps/worker/src/indexer.ts: the options with their
-- defaults, the chain's identity, and the scope under which rows are written.
use enclave_developer.Prelude.{
  ℕ, [], ◌∷◌, Option, none, some, Bool, false, ◌||◌, not, ltb, ◌==◌, any, if◌then◌else◌, Result, ok,
  err, pure, throw, from_result, ◌>>=◌,
}
use enclave_developer.Prelude.Text.{Text}
use enclave_developer.Core.Address.{is_configured_address}
use enclave_developer.Core.Scope.{indexer_scope}
use enclave_developer.Indexer.Fault.{Fault, chain_mismatch, bad_option}
use enclave_developer.Indexer.World.{Client, Call, ask, read_header}
use enclave_developer.Indexer.Batch.{Deployment}

pub record Options : Type 0 where
  pub addresses : Deployment
  pub chain_id : Option ℕ
  pub confirmations : Option ℕ
  pub deployment_id : Option Text
  pub reorg_window : Option ℕ
  pub batch_size : Option ℕ

pub record Context : Type 0 where
  pub scope : Text
  pub confirmations : ℕ
  pub window : ℕ
  pub batch_size : ℕ

abbrev or_default : Option ℕ → ℕ → ℕ
or_default none d = d
or_default (some n) d = n

unfoldable pub positive_option : ℕ → ℕ → ℕ → Result Fault ℕ
positive_option value least most =
    if ltb value least || ltb most value then err bad_option else ok value

abbrev mismatched : Option ℕ → ℕ → Bool
mismatched none id = false
mismatched (some n) id = not (n == id)

abbrev is_local : ℕ → Bool
is_local id = id == 31337 || id == 1337

unfoldable pub context : Client → Options → Call Context
context client opts = do
  chain ← ask client.chain_id
  if mismatched opts.chain_id chain then throw chain_mismatch else (do
    confirmations ← from_result (
        positive_option (or_default opts.confirmations (if is_local chain then 0 else 12)) 0
          100_000)
    window ← from_result (positive_option (or_default opts.reorg_window 128) 2 4096)
    batch ← from_result (positive_option (or_default opts.batch_size 2000) 1 2000)
    genesis ← read_header client 0
    pure (record {
      scope = indexer_scope client.commit (record {
        chain_id = chain;
        genesis_hash = genesis.hash;
        deployment_id = opts.deployment_id;
        verifier = opts.addresses.verifier;
        meter = opts.addresses.meter;
        fee_vault = opts.addresses.fee_vault;
        registry = opts.addresses.registry;
      });
      confirmations = confirmations;
      window = window;
      batch_size = batch;
    }))

-- `[opts.verifier, opts.meter, opts.feeVault, opts.registry].some(addressReady)`
unfoldable pub any_address : Deployment → Bool
any_address a = any is_configured_address (a.verifier ∷ a.meter ∷ a.fee_vault ∷ a.registry ∷ [])
