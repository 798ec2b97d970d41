-- ===== src/Anchoring.antt =====
-- _backend/apps/worker/src/anchorer.ts: a receipt is sent to the verifier's contract and marked by
-- what the chain then holds. Recovery is receipt-recovery.ts, Jobs the polled tasks of jobs.ts. The
-- encoding of a call and the decoding of an event (viem) are parameters.
pub mod Proven
pub mod Anchored
pub mod Recovery
pub mod Jobs
mod Tests
use enclave_developer.Prelude.{
  ℕ, Bool, Exec, List, Option, Result, pure, [], all, false, if◌then◌else◌, ok, some, throw, true,
  update_where, ◌>>=◌, ◌>>◌, err, ltb, none, suc, ◌&&◌, ◌++◌, ◌==◌, any, get, ◌^◌, ◌||◌, ◌∷◌, catch,
  find_first, zero,
}
use enclave_developer.Signer.World as Signed
use enclave_developer.Signer.Durable.{
  SignerOptions, send_durable_transaction, confirm_durable_transaction,
}
use enclave_developer.Core.Address.{is_configured_address}
use enclave_developer.Prelude.Text.{Text, codes, same, is_hex, same_hex}
use enclave_developer.Signer.World.{
  Log, Wallet, ContractCall, Receipt, SignerFault, transaction_reverted,
}

pub data ReceiptStatus : Type 0 where
  pending anchoring anchored anchored_sim anchor_failed : ReceiptStatus

-- A row of `receipts`. A uuid is the number that it spells; a negative `ts` is none.
pub record ReceiptRow : Type 0 where
  pub id : ℕ
  pub typed_hash : Text
  pub status : ReceiptStatus
  pub anchored_tx : Option Text
  pub chain_id : Option ℕ
  pub verifier_address : Option Text
  pub version : ℕ
  pub fields : List Text
  pub ts : Option ℕ
  pub nonce : Option Text
  pub sig : Text

-- `signed` is what the signer works on.
pub record World : Type 0 where
  pub receipts : List ReceiptRow
  pub signed : Signed.World

pub data AnchorFault : Type 0 where
  bad_job needs_review other_chain other_verifier unsupported bad_receipt : AnchorFault
  not_verified : Text → AnchorFault
  signer_failed : SignerFault → AnchorFault

abbrev pub Call : Type 0 → Type 0
Call A = Exec World AnchorFault A

pub record Anchorer : Type 0 where
  pub wallet : Wallet
  pub options : SignerOptions
  pub verifier : Option Text
  pub encode : ℕ → List Text → ℕ → Option Text → Text → Text
  pub decode_verified : Log → Option Text

abbrev decodes_to : Text → Option Text → Bool
decodes_to typed_hash none = false
decodes_to typed_hash (some h) = same_hex h typed_hash

unfoldable pub has_verified_receipt : (Log → Option Text) → Receipt → Text → Text → Bool
has_verified_receipt decode confirmation verifier typed_hash =
    confirmation.success
    && any
        (λ (event : Log). same_hex event.address verifier && decodes_to typed_hash (decode event))
        confirmation.logs

abbrev lift_result : {A : Type 0} → Result SignerFault A → Result AnchorFault A
lift_result (ok a) = ok a
lift_result (err e) = err (signer_failed e)

-- A call of the signer.
unfoldable pub signing : {A : Type 0} → Signed.Call A → Call A
signing m w = (lift_result (m w.signed).0, record w { signed = (m w.signed).1 })

unfoldable pub write : (List ReceiptRow → List ReceiptRow) → Call (Unit {0})
write f w = (ok tt, record w { receipts = f w.receipts })

unfoldable pub guard : Bool → AnchorFault → Call (Unit {0})
guard b e = if b then pure tt else throw e

abbrev pub has_hash : Text → ReceiptRow → Bool
has_hash h r = same r.typed_hash h

abbrev pub mark : ReceiptStatus → Text → ReceiptRow → ReceiptRow
mark status tx r = record r { status = status; anchored_tx = some tx }

abbrev pub is_chain : Option ℕ → ℕ → Bool
is_chain none id = true
is_chain (some n) id = n == id

abbrev pub is_verifier : Option Text → Text → Bool
is_verifier none v = true
is_verifier (some a) v = same_hex a v

abbrev is_set : Option Text → Bool
is_set none = false
is_set (some t) = is_hex 64 t

abbrev is_uint64 : Option ℕ → Bool
is_uint64 none = false
is_uint64 (some n) = ltb n (2 ^ 64)

-- The schemas of the fields, of the nonce of version 2, and of the signature.
abbrev pub is_well_formed : ReceiptRow → Bool
is_well_formed r =
    all (is_hex 64) r.fields
    && is_uint64 r.ts
    && (r.version == 1 || is_set r.nonce)
    && is_hex 130 r.sig

abbrev take : ℕ → Text → Text
take zero s = []
take (suc n) [] = []
take (suc n) (c ∷ s) = c ∷ take n s

abbrev given_ts : Option ℕ → ℕ
given_ts none = 0
given_ts (some n) = n

module _ (a : Anchorer) where
  set_state : Text → ReceiptStatus → Text → Call (Unit {0})
  set_state h status tx = write (update_where (has_hash h) (mark status tx))

  verify_call : Text → ReceiptRow → ContractCall
  verify_call verifier r = record {
    address = verifier;
    value = 0;
    encoded = a.encode r.version r.fields (given_ts r.ts) r.nonce r.sig;
  }

  send_receipt : Text → ReceiptRow → Call Text
  unfolding verify_call set_state
  send_receipt verifier r = do
    tx ← signing (
        send_durable_transaction a.wallet a.options (codes "receipt:" ++ r.typed_hash)
          (verify_call verifier r))
    set_state r.typed_hash anchoring tx
    pure tx

  -- A hash that was submitted before is kept.
  submitted : Text → ReceiptRow → ReceiptStatus → Option Text → Call Text
  unfolding send_receipt
  submitted verifier r ReceiptStatus.anchoring (some tx) =
      if is_hex 64 tx then pure tx else send_receipt verifier r
  submitted verifier r anchoring none = send_receipt verifier r
  submitted verifier r pending tx = send_receipt verifier r
  submitted verifier r anchored tx = send_receipt verifier r
  submitted verifier r anchored_sim tx = send_receipt verifier r
  submitted verifier r anchor_failed tx = send_receipt verifier r

  submit : Text → ReceiptRow → Call Receipt
  unfolding submitted
  submit verifier r = do
    tx ← submitted verifier r r.status r.anchored_tx
    signing (confirm_durable_transaction a.wallet a.options tx)

  -- A proven revert is left for review, whatever else is thrown on.
  note_revert : Text → AnchorFault → Call Receipt
  unfolding set_state
  note_revert h (signer_failed (transaction_reverted tx)) = do
    set_state h anchor_failed tx
    throw (signer_failed (transaction_reverted tx))
  note_revert h e = throw e

  conclude : Text → ReceiptRow → Receipt → Call (Unit {0})
  unfolding set_state
  conclude verifier r confirmation =
      if has_verified_receipt a.decode_verified confirmation verifier r.typed_hash
      then set_state r.typed_hash anchored confirmation.transaction_hash
      else (do
        set_state r.typed_hash anchor_failed confirmation.transaction_hash
        throw (not_verified confirmation.transaction_hash))

  anchor_on_chain : Text → ReceiptRow → Call (Unit {0})
  unfolding submit note_revert conclude
  anchor_on_chain verifier r = do
    guard (is_chain r.chain_id a.options.chain_id) other_chain
    guard (is_verifier r.verifier_address verifier) other_verifier
    guard (r.version == 1 || r.version == 2) unsupported
    guard (is_well_formed r) bad_receipt
    confirmation ← catch (submit verifier r) (note_revert r.typed_hash)
    conclude verifier r confirmation

  anchor_simulated : ReceiptRow → ReceiptStatus → Call (Unit {0})
  unfolding set_state
  anchor_simulated r anchored_sim = pure tt
  anchor_simulated r _ = set_state r.typed_hash anchored_sim (codes "sim:" ++ take 18 r.typed_hash)

  anchor_open : ReceiptRow → Option Text → Call (Unit {0})
  unfolding anchor_on_chain anchor_simulated
  anchor_open r none = anchor_simulated r r.status
  anchor_open r (some verifier) =
      if is_configured_address (some verifier)
      then anchor_on_chain verifier r
      else anchor_simulated r r.status

  anchor_row : ReceiptRow → ReceiptStatus → Call (Unit {0})
  unfolding anchor_open
  anchor_row r anchored = pure tt
  anchor_row r anchor_failed = throw needs_review
  anchor_row r pending = anchor_open r a.verifier
  anchor_row r anchoring = anchor_open r a.verifier
  anchor_row r anchored_sim = anchor_open r a.verifier

  anchor_found : Option ReceiptRow → Call (Unit {0})
  unfolding anchor_row
  anchor_found none = pure tt
  anchor_found (some r) = anchor_row r r.status

  unfoldable pub anchor_receipt : Option Text → Call (Unit {0})
  unfolding anchor_found
  anchor_receipt none = throw bad_job
  anchor_receipt (some h) = do
    guard (is_hex 64 h) bad_job
    w ← get
    anchor_found (find_first (has_hash h) w.receipts)
