-- ===== src/Anchoring/Tests.antt =====
-- Runs of the receipt worker on a small chain, and the theorems at them.
use enclave_developer.Prelude.{[], ◌∷◌, none, some, ◌≡◌, List, arith, true, ok, refl}
use enclave_developer.Prelude.Text.{Text, codes, same, is_hex, same_hex, hex_number}
use enclave_developer.Prelude.Triples.{After}
use enclave_developer.Signer.World.{Wallet, Receipt, found}
use enclave_developer.Anchoring.{
  Anchorer, ReceiptRow, ReceiptStatus, World, anchor_receipt, has_verified_receipt,
}
use enclave_developer.Anchoring.Anchored.{CanAnchor, anchor-CanAnchor}
use enclave_developer.Signer.Durable.Confirmed.{IsConfirmed}
use enclave_developer.Anchoring.Proven.{AllProven}
use enclave_developer.Anchoring.Recovery.Kept.{work_all, Work, work_all-AllProven}
use enclave_developer.Anchoring.Jobs.{Queue, JobWorld, JobState, recover_receipt_jobs}
use enclave_developer.Anchoring.Jobs.Ended.{Threw, recover_receipt_jobs_ends}
use enclave_developer.Signer.Durable.{confirmation_depth}
use enclave_developer.Core.Address.{is_configured_address}

abbrev some_hash : Text
some_hash = codes "0x00112233445566778899aabbccddeeff00112233445566778899aabbccddeeff"

abbrev other_hash : Text
other_hash = codes "0xff112233445566778899aabbccddeeff00112233445566778899aabbccddeeff"

abbrev contract : Text
contract = codes "0x00112233445566778899aabbccddeeff00112233"

abbrev mined : Receipt
mined = record {
  transaction_hash = other_hash;
  success = true;
  block_number = 7;
  block_hash = codes "0xb";
  logs = record { address = contract; topics = []; content = some_hash } ∷ [];
}

-- The transaction was submitted before, and the chain holds it.
abbrev wallet : Wallet
wallet = record {
  address = codes "0xa";
  chain_id = λ t. some 31337;
  block_number = λ t. some 20;
  block_hash = λ t n. found (some (codes "0xb"));
  receipt = λ t hash. found mined;
  latest_count = λ t. some 0;
  pending_count = λ t. some 0;
  send_raw = λ t raw. some raw;
  get_transaction = λ t hash. none;
  wait_for_receipt = λ t hash depth. some hash;
  prepare = λ t call nonce. none;
  sign = λ call nonce fees. call.encoded;
  transaction_hash = λ raw. raw;
  request_hash = λ call. call.encoded;
  scope_of = λ id hash. hash;
}

abbrev anchorer : Anchorer
anchorer = record {
  wallet = wallet;
  options = record { chain_id = 31337; confirmations = none; commits = λ t. some tt };
  verifier = some contract;
  encode = λ version fields ts nonce sig. sig;
  decode_verified = λ event. some event.content;
}

abbrev row : ReceiptRow
row = record {
  id = 1;
  typed_hash = some_hash;
  status = ReceiptStatus.anchoring;
  anchored_tx = some other_hash;
  chain_id = some 31337;
  verifier_address = some contract;
  version = 1;
  fields = some_hash ∷ [];
  ts = some 5;
  nonce = none;
  sig =
      codes
        "0xababababababababababababababababababababababababababababababababababababababababababababababababababababababababababababababababab";
}

abbrev next_row : ReceiptRow
next_row = record row { id = 2; typed_hash = other_hash }

abbrev world : World
world = record { receipts = row ∷ []; signed = record { journal = []; clock = 0; sent = [] } }

abbrev works : List (Work anchorer)
works = Work.anchor_job (some some_hash) ∷ Work.recovery_tick none ∷ []

work_all-AllProven_example : AllProven anchorer (work_all anchorer works world)
work_all-AllProven_example = work_all-AllProven anchorer works world (tt, tt)

mined-IsConfirmed : IsConfirmed wallet anchorer.options other_hash mined
unfolding confirmation_depth same_hex
mined-IsConfirmed = record {
  needed_depth = 0;
  genesis = codes "0xb";
  has_depth = refl;
  same_chain = λ t. refl;
  has_genesis = λ t. refl;
  waited = λ t. refl;
  mined = λ t. refl;
  its_hash = refl;
  in_block = λ t. refl;
  deep = λ t. (20, refl, omega arith);
  succeeded = refl;
}

row-CanAnchor : CanAnchor anchorer row contract other_hash mined
unfolding is_configured_address is_hex same_hex has_verified_receipt hex_number
row-CanAnchor = record {
  configured = refl;
  has_address = refl;
  hash_form = refl;
  started = refl;
  submitted_as = refl;
  tx_form = refl;
  same_chain = refl;
  same_verifier = refl;
  supported = refl;
  in_order = refl;
  confirmed = mined-IsConfirmed;
  verified = refl;
}

anchor-CanAnchor_example :
    ((anchor_receipt anchorer (some some_hash) world).0 ≡ ok tt)
    × ((anchor_receipt anchorer (some some_hash) world).1.receipts
        ≡ record row { status = ReceiptStatus.anchored; anchored_tx = some other_hash } ∷ [])
unfolding same
anchor-CanAnchor_example =
    anchor-CanAnchor anchorer row contract other_hash mined row-CanAnchor world refl

abbrev queue : Queue
queue = record { add = λ t h. some JobState.completed_job; retry = λ t h. true }

abbrev jobs : JobWorld
jobs = record { added = []; retried = []; clock = 0 }

recover_receipt_jobs_ends_example :
    After
      (λ recovered v. (recovered ≡ some 2) × (v.added ≡ some_hash ∷ other_hash ∷ []))
      (λ v. Threw queue)
      (recover_receipt_jobs queue (row ∷ next_row ∷ []) jobs)
recover_receipt_jobs_ends_example =
    recover_receipt_jobs_ends queue (row ∷ next_row ∷ []) jobs ((omega arith, tt), (tt, tt))
