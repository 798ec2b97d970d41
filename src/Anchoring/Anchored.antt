-- ===== src/Anchoring/Anchored.antt =====
-- When `anchorReceipt` of _backend/apps/worker/src/anchorer.ts marks a submitted receipt as anchored.
use enclave_developer.Signer.World as Signed
use enclave_developer.Anchoring.{
  set_state, Anchorer, ReceiptRow, World, Call, anchor_receipt, conclude, guard, signing, submit,
  submitted, ReceiptStatus, has_hash, write, AnchorFault, anchored, mark, anchoring, is_chain,
  is_verifier, is_well_formed, has_verified_receipt, anchor_found, anchor_on_chain, anchor_open,
  anchor_row, lift_result,
}
use enclave_developer.Signer.Durable.Confirmed.{IsConfirmed, confirm-Yields}
use enclave_developer.Prelude.Text.{Text, is_hex}
use enclave_developer.Signer.World.{Receipt, SignerFault}
use enclave_developer.Prelude.{
  List, ◌>>◌, ◌≡◌, Result, some, update_where, Bool, Option, true, ap, false, sym, ◌==◌, ◌||◌, refl,
  find_first, ok, err, ◌∙◌,
}
use enclave_developer.Core.Address.{is_configured_address}
use enclave_developer.Prelude.Triples.{
  Triple, >>=-Triple, if-Triple, assume-Triple, before-Triple, pure-Triple, After, catch-Triple,
  get-Triple,
}
use enclave_developer.Signer.Durable.{confirm_durable_transaction}
use mathlib.Core.Path.{subst}

module _ (a : Anchorer) (r : ReceiptRow) (verifier tx : Text) (receipt : Receipt) where
  -- The row is in order and its transaction was submitted; the chain holds the transaction, with
  -- the event of the verifier.
  pub record CanAnchor : Type 0 where
    pub configured : a.verifier ≡ some verifier
    pub has_address : is_configured_address (some verifier) ≡ true
    pub hash_form : is_hex 64 r.typed_hash ≡ true
    pub started : r.status ≡ anchoring
    pub submitted_as : r.anchored_tx ≡ some tx
    pub tx_form : is_hex 64 tx ≡ true
    pub same_chain : is_chain r.chain_id a.options.chain_id ≡ true
    pub same_verifier : is_verifier r.verifier_address verifier ≡ true
    pub supported : (r.version == 1 || r.version == 2) ≡ true
    pub in_order : is_well_formed r ≡ true
    pub confirmed : IsConfirmed a.wallet a.options tx receipt
    pub verified : has_verified_receipt a.decode_verified receipt verifier r.typed_hash ≡ true

  abbrev Never : World → Type 0
  Never w = ⊥

  abbrev Rows : List ReceiptRow → World → Type 0
  Rows rows w = w.receipts ≡ rows

  passes :
      {P : World → Type 0} {A : Type 0} {Q : A → World → Type 0} (b : Bool) (e : AnchorFault)
      {k : Call A}
      → b ≡ true
      → Triple P k Q Never
      → Triple P (guard b e >> k) Q Never
  unfolding ◌>>◌ guard enclave_developer.Prelude.pure
  passes true e h t = record { run = λ w p. t.run w p }
  passes false e h t = absurd (cc h)

  Signed-After :
      (rows : List ReceiptRow) (w : World) (s : Result SignerFault Receipt × Signed.World)
      → s.0 ≡ ok receipt
      → w.receipts ≡ rows
      → After
          (λ c v. (c ≡ receipt) × Rows rows v)
          Never
          (lift_result s.0, record w { signed = s.1 })
  Signed-After rows w (ok c, v) e p = ((let q : c ≡ receipt = cc in q), p)
  Signed-After rows w (err x, v) e p = cc

  module _ (can : CanAnchor) (rows : List ReceiptRow) where
    confirm-Rows :
        Triple
          (Rows rows)
          (signing (confirm_durable_transaction a.wallet a.options tx))
          (λ c v. (c ≡ receipt) × Rows rows v)
          Never
    unfolding signing
    confirm-Rows = record {
      run = λ w p.
          Signed-After rows w (confirm_durable_transaction a.wallet a.options tx w.signed)
            (confirm-Yields a.wallet a.options tx receipt can.confirmed w.signed) p;
    }

    submitted-Rows :
        (s : ReceiptStatus) (o : Option Text)
        → s ≡ anchoring
        → o ≡ some tx
        → Triple (Rows rows) (submitted a verifier r s o) (λ t v. (t ≡ tx) × Rows rows v) Never
    unfolding submitted
    submitted-Rows s o e f = rw (e, f, can.tx_form) (pure-Triple tx (λ w p. (refl, p)))

    submit-Rows :
        Triple (Rows rows) (submit a verifier r) (λ c v. (c ≡ receipt) × Rows rows v) Never
    unfolding submit
    submit-Rows =
        >>=-Triple (submitted-Rows r.status r.anchored_tx can.started can.submitted_as) (λ t.
          assume-Triple (λ w p. p.0)
            (λ e.
              before-Triple (λ w p. p.1)
                (subst
                  (λ x.
                    Triple (Rows rows) (signing (confirm_durable_transaction a.wallet a.options x))
                      (λ c v. (c ≡ receipt) × Rows rows v) Never)
                  (sym e) confirm-Rows)))

    -- The rows as they are marked.
    abbrev Marked : World → Type 0
    Marked w =
        w.receipts
        ≡ update_where (has_hash r.typed_hash) (mark anchored receipt.transaction_hash) rows

    set_state-Rows :
        Triple
          (Rows rows)
          (set_state a r.typed_hash anchored receipt.transaction_hash)
          (λ u. Marked)
          Never
    unfolding set_state write
    set_state-Rows = record {
      run = λ w p.
          ap (update_where (has_hash r.typed_hash) (mark anchored receipt.transaction_hash)) p;
    }

    conclude-Rows : Triple (Rows rows) (conclude a verifier r receipt) (λ u. Marked) Never
    unfolding conclude
    conclude-Rows =
        if-Triple (has_verified_receipt a.decode_verified receipt verifier r.typed_hash)
          (λ good. set_state-Rows) (λ bad. absurd (cc (bad, can.verified)))

    on_chain-Rows : Triple (Rows rows) (anchor_on_chain a verifier r) (λ u. Marked) Never
    unfolding anchor_on_chain
    on_chain-Rows = passes _ _ can.same_chain (
        passes _ _ can.same_verifier (
          passes _ _ can.supported (
            passes _ _ can.in_order (
              >>=-Triple (catch-Triple submit-Rows (λ e. record { run = λ w never. absurd never }))
                (λ c.
                  assume-Triple (λ w p. p.0)
                    (λ e.
                      before-Triple (λ w p. p.1)
                        (subst
                          (λ x. Triple (Rows rows) (conclude a verifier r x) (λ u. Marked) Never)
                          (sym e) conclude-Rows)))))))

    open-Rows :
        (v : Option Text)
        → v ≡ some verifier
        → Triple (Rows rows) (anchor_open a r v) (λ u. Marked) Never
    unfolding anchor_open
    open-Rows v e = rw (e, can.has_address) on_chain-Rows

    row-Rows :
        (s : ReceiptStatus)
        → s ≡ anchoring
        → Triple (Rows rows) (anchor_row a r s) (λ u. Marked) Never
    unfolding anchor_row
    row-Rows s e = rw e (open-Rows a.verifier can.configured)

    found-Rows :
        (o : Option ReceiptRow)
        → o ≡ some r
        → Triple (Rows rows) (anchor_found a o) (λ u. Marked) Never
    unfolding anchor_found
    found-Rows o e =
        subst (λ x. Triple (Rows rows) (anchor_found a x) (λ u. Marked) Never) (sym e)
          (row-Rows r.status can.started)

    receipt-Rows :
        find_first (has_hash r.typed_hash) rows ≡ some r
        → Triple (Rows rows) (anchor_receipt a (some r.typed_hash)) (λ u. Marked) Never
    unfolding anchor_receipt
    receipt-Rows e = passes _ _ can.hash_form (
        >>=-Triple get-Triple (λ w.
          assume-Triple (λ v p. sym (ap (λ x. x.receipts) p.1) ∙ p.0)
            (λ same_rows.
              before-Triple (λ v p. p.0)
                (found-Rows _ (ap (find_first (has_hash r.typed_hash)) same_rows ∙ e)))))

  returned :
      (Q : World → Type 0) (s : Result AnchorFault (Unit {0}) × World)
      → After (λ u. Q) Never s
      → (s.0 ≡ ok tt) × Q s.1
  returned Q (ok tt, w) h = (refl, h)
  returned Q (err e, w) h = absurd h

  -- If a receipt in order has the state anchoring and a submitted transaction, its signature
  -- belongs to this chain and to the configured verifier, and the chain holds the transaction,
  -- successful, deep enough and with the event of the verifier for its hash, the client answering
  -- each call, then `anchorReceipt` returns and has marked the receipt as anchored by that
  -- transaction, the other rows as they were.
  pub anchor-CanAnchor :
      CanAnchor
      → (w : World) → find_first (has_hash r.typed_hash) w.receipts ≡ some r
      → ((anchor_receipt a (some r.typed_hash) w).0 ≡ ok tt)
        × ((anchor_receipt a (some r.typed_hash) w).1.receipts
            ≡ update_where
                (has_hash r.typed_hash)
                (mark anchored receipt.transaction_hash)
                w.receipts)
  anchor-CanAnchor can w e =
      returned (Marked can w.receipts) (anchor_receipt a (some r.typed_hash) w)
        ((receipt-Rows can w.receipts e).run w refl)
