-- ===== src/Anchoring/Recovery.antt =====
-- `reconcileAnchoredReceipts` of _backend/apps/worker/src/receipt-recovery.ts: the receipts that are
-- marked as anchored are compared with the chain again, a page for each call. The rows of the table
-- stand in the order of their ids. The client is that of the signer; a call of it that is broken
-- leaves a row as it is.
pub mod Kept
use enclave_developer.Signer.World as Signed
use enclave_developer.Prelude.{
  ℕ, List, Option, Bool, [], some, false, if◌then◌else◌, none, ok, pure, suc, true, ◌&&◌, ◌==◌,
  ◌>>=◌, get, ltb, not, ◌+◌, ◌||◌, ◌∷◌, zero, ◌>>◌, find_first, ◌++◌, keep_if, update_where, length,
}
use enclave_developer.Anchoring.{
  Anchorer, ReceiptStatus, Call, ReceiptRow, anchor_failed, anchored, anchoring, signing,
  has_verified_receipt, write,
}
use enclave_developer.Prelude.Text.{Text, same, same_hex, codes, is_hex}
use enclave_developer.Signer.World.{JournalRow, Lookup, Receipt, found, ask, broken, absent}
use enclave_developer.Core.Address.{is_configured_address}
use enclave_developer.Signer.Durable.{scope_for}

pub record Page : Type 0 where
  pub after_id : Option ℕ
  pub checked : ℕ
  pub changed : ℕ

-- What a check makes of a row: nothing, `anchoring` again, or `anchor_failed`.
pub data Verdict : Type 0 where
  unchanged reopened refuted : Verdict

abbrev pub first_of {ℓ} : {A : Type ℓ} → ℕ → List A → List A
first_of zero xs = []
first_of (suc n) [] = []
first_of (suc n) (x ∷ xs) = x ∷ first_of n xs

abbrev pub is_after : Option ℕ → ℕ → Bool
is_after none id = true
is_after (some a) id = ltb a id

abbrev pub is_anchored : ReceiptStatus → Bool
is_anchored anchored = true
is_anchored _ = false

abbrev pub last_id : List ReceiptRow → Option ℕ
last_id [] = none
last_id (r ∷ []) = some r.id
last_id (r ∷ q ∷ rows) = last_id (q ∷ rows)

abbrev equals_chain : Option ℕ → ℕ → Bool
equals_chain none id = false
equals_chain (some n) id = n == id

abbrev equals_verifier : Option Text → Text → Bool
equals_verifier none v = false
equals_verifier (some s) v = same_hex s v

abbrev same_tx : Option Text → Option Text → Bool
same_tx none none = true
same_tx (some s) (some t) = same s t
same_tx s t = false

abbrev is_block : Option Text → Text → Bool
is_block none h = false
is_block (some b) h = same b h

abbrev depth_or_default : Option ℕ → ℕ → ℕ
depth_or_default (some n) chain_id = n
depth_or_default none chain_id = if chain_id == 31337 || chain_id == 1337 then 0 else 12

module _ (a : Anchorer) where
  depth : ℕ
  depth = depth_or_default a.options.confirmations a.options.chain_id

  -- The proof with the block of its height.
  judge : Text → ReceiptRow → ℕ → Receipt → Lookup (Option Text) → Verdict
  unfolding depth
  judge verifier r head proof broken = unchanged
  judge verifier r head proof absent = reopened
  judge verifier r head proof (found block) =
      if not (is_block block proof.block_hash) || ltb head (proof.block_number + depth)
      then reopened
      else if has_verified_receipt a.decode_verified proof verifier r.typed_hash
      then unchanged
      else refuted

  read_chain : {A : Type 0} → (ℕ → A) → Call A
  read_chain f w = (
    ok (f w.signed.clock),
    record w { signed = record (w.signed) { clock = w.signed.clock + 1 } },
  )

  judge_proof : Text → ReceiptRow → ℕ → Text → Lookup Receipt → Call Verdict
  unfolding judge read_chain
  judge_proof verifier r head hash broken = pure unchanged
  judge_proof verifier r head hash absent = pure reopened
  judge_proof verifier r head hash (found proof) =
      if same_hex proof.transaction_hash hash
      then (do
        block ← read_chain (λ t. a.wallet.block_hash t proof.block_number)
        pure (judge verifier r head proof block))
      else pure unchanged

  -- The journal's row of the receipt names another transaction.
  abbrev is_foreign : Text → Option JournalRow → Bool
  is_foreign hash none = false
  is_foreign hash (some j) = not (same_hex j.tx_hash hash)

  abbrev is_operation : Text → Text → JournalRow → Bool
  is_operation scope h j = same j.scope scope && same j.operation_key (codes "receipt:" ++ h)

  recheck : Text → Text → ReceiptRow → ℕ → Option Text → Call Verdict
  unfolding judge_proof read_chain
  recheck verifier scope r head none = pure refuted
  recheck verifier scope r head (some hash) = do
    w ← get
    if not (is_hex 64 hash)
          || is_foreign hash (find_first (is_operation scope r.typed_hash) w.signed.journal)
        then pure refuted
        else (do
          proof ← read_chain (λ t. a.wallet.receipt t hash)
          judge_proof verifier r head hash proof)

  -- Another instance may have repaired the row meanwhile.
  abbrev pub is_still : ReceiptRow → ReceiptRow → Bool
  is_still r q = q.id == r.id && is_anchored q.status && same_tx q.anchored_tx r.anchored_tx

  restate : ReceiptRow → ReceiptStatus → Call ℕ
  restate r s = do
    w ← get
    write (update_where (is_still r) (λ q. record q { status = s }))
    pure (length (keep_if (is_still r) w.receipts))

  apply_verdict : ReceiptRow → Verdict → Call ℕ
  unfolding restate
  apply_verdict r unchanged = pure 0
  apply_verdict r reopened = restate r anchoring
  apply_verdict r refuted = restate r anchor_failed

  reconcile_row : Text → Text → ℕ → ReceiptRow → Call ℕ
  unfolding recheck apply_verdict
  reconcile_row verifier scope head r =
      if equals_chain r.chain_id a.options.chain_id && equals_verifier r.verifier_address verifier
      then (do verdict ← recheck verifier scope r head r.anchored_tx; apply_verdict r verdict)
      else pure 0

  reconcile_rows : Text → Text → ℕ → List ReceiptRow → Call ℕ
  unfolding reconcile_row
  reconcile_rows verifier scope head [] = pure 0
  reconcile_rows verifier scope head (r ∷ rows) = do
    n ← reconcile_row verifier scope head r
    m ← reconcile_rows verifier scope head rows
    pure (n + m)

  abbrev is_due : Option ℕ → ReceiptRow → Bool
  is_due after_id r = is_anchored r.status && is_after after_id r.id

  reconcile_page : Text → Option ℕ → Call Page
  unfolding reconcile_rows
  reconcile_page verifier after_id = do
    scope ← signing (scope_for a.wallet a.options.chain_id)
    head ← signing (ask a.wallet.block_number)
    w ← get
    let rows = first_of 100 (keep_if (is_due after_id) w.receipts)
    changed ← reconcile_rows verifier scope head rows
    pure (record {
      after_id = if length rows == 100 then last_id rows else none;
      checked = length rows;
      changed = changed;
    })

  reconcile_configured : Option Text → Option ℕ → Call Page
  unfolding reconcile_page
  reconcile_configured none after_id = pure (record { after_id = none; checked = 0; changed = 0 })
  reconcile_configured (some verifier) after_id =
      if is_configured_address (some verifier)
      then reconcile_page verifier after_id
      else pure (record { after_id = none; checked = 0; changed = 0 })

  unfoldable pub reconcile_anchored_receipts : Option ℕ → Call Page
  unfolding reconcile_configured
  reconcile_anchored_receipts after_id = reconcile_configured a.verifier after_id
