-- ===== src/Signer/Tests.antt =====
-- Runs of the signer on a small chain, and the theorems at them.
use enclave_developer.Prelude.{◌≡◌, ◌↔◌, refl, ℕ, [], ◌∷◌, none, some, ok, inl}
use enclave_developer.Prelude.Text.{codes}
use enclave_developer.Signer.Gas.{
  Prepared, IsAllowed, arc_chain_id, enforce_arc_relay_gas, enforce-IsAllowed,
}
use enclave_developer.Signer.World.{World, JournalRow, Status, ContractCall, Wallet, found, absent}
use enclave_developer.Signer.Durable.{
  SignerOptions, send_durable_transaction, recover_signer_transactions,
}
use enclave_developer.Signer.Journal.Rows.{SameSigned}
use enclave_developer.Signer.Durable.Unique.{IsUnique, Extends, send-IsUnique, send-Extends}
use enclave_developer.Signer.Durable.Sent.{AllHeld, send-AllHeld, recover-Kept}

abbrev request : Prepared
request = record {
  gas = some 90_000;
  gas_price = none;
  max_fee = some 30_000_000_000;
  max_priority = some 1_000_000_000;
  value = none;
}

enforce-IsAllowed_example :
    (enforce_arc_relay_gas arc_chain_id request ≡ ok tt)
    ↔ ((gas fee : ℕ) × IsAllowed request gas fee)
enforce-IsAllowed_example = enforce-IsAllowed request

-- A chain at block 20 with two pending transactions of the account, none of them mined yet.
abbrev wallet : Wallet
wallet = record {
  address = codes "0xA";
  chain_id = λ t. some 31337;
  block_number = λ t. some 20;
  block_hash = λ t n. found (some (codes "0xb"));
  receipt = λ t hash. absent;
  latest_count = λ t. some 0;
  pending_count = λ t. some 1;
  send_raw = λ t raw. some raw;
  get_transaction = λ t hash. none;
  wait_for_receipt = λ t hash depth. none;
  prepare = λ t call nonce. some request;
  sign = λ call nonce fees. nonce ∷ call.encoded;
  transaction_hash = λ raw. raw;
  request_hash = λ call. call.encoded;
  scope_of = λ id hash. hash;
}

abbrev options : SignerOptions
options = record { chain_id = 31337; confirmations = none; commits = λ t. some tt }

abbrev anchor_call : ContractCall
anchor_call = record { address = codes "0xc"; value = 0; encoded = codes "anchor" }

abbrev first_row : JournalRow
first_row = record {
  id = 0;
  scope = codes "0xb";
  operation_key = codes "one";
  request_hash = codes "one";
  signer = codes "0xa";
  nonce = 0;
  raw_transaction = codes "first";
  tx_hash = codes "first";
  status = Status.broadcast;
  confirmed_block_number = none;
  confirmed_block_hash = none;
}

abbrev world : World
world = record { journal = first_row ∷ []; clock = 0; sent = codes "first" ∷ [] }

send-AllHeld_example :
    AllHeld (send_durable_transaction wallet options (codes "two") anchor_call world).1
send-AllHeld_example = send-AllHeld wallet options (codes "two") anchor_call world (inl refl, tt)

send-IsUnique_example :
    IsUnique (send_durable_transaction wallet options (codes "two") anchor_call world).1.journal
send-IsUnique_example = send-IsUnique wallet options (codes "two") anchor_call world (tt, tt)

send-Extends_example :
    Extends world.journal
      (send_durable_transaction wallet options (codes "two") anchor_call world).1.journal
send-Extends_example = send-Extends wallet options (codes "two") anchor_call world

recover-Kept_example :
    SameSigned (recover_signer_transactions wallet options world).1.journal world.journal
    × AllHeld (recover_signer_transactions wallet options world).1
recover-Kept_example = recover-Kept wallet options world (inl refl, tt)
