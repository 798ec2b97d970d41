-- ===== src/Anchoring/Proven.antt =====
-- The receipts that _backend/apps/worker/src/anchorer.ts has marked as anchored, against what the
-- chain answered.
use enclave_developer.Signer.World as Signed
use enclave_developer.Prelude.{
  All, Bool, Keeps, Result, >>=-Keeps, Option, if-Keeps, throw, ◌≡◌, >>-Keeps, pure-Keeps, some,
  List, throw-Keeps, update_where, ◌∷◌, Bool-cases, inl, inr, true, [], none, ok, err, get-Keeps,
  refl, ◌++◌, sym,
}
use enclave_developer.Anchoring.{
  Anchorer, AnchorFault, Receipt, ReceiptRow, World, guard, note_revert, send_receipt, set_state,
  signing, submit, submitted, ReceiptStatus, SignerFault, write, confirm_durable_transaction,
  pending, signer_failed, anchoring, mark, not_verified, transaction_reverted, anchored, bad_job,
  anchor_failed, anchored_sim, needs_review, has_hash, has_verified_receipt, lift_result,
  other_chain, other_verifier, unsupported, bad_receipt, Call, anchor_found, anchor_on_chain,
  anchor_open, anchor_receipt, anchor_row, anchor_simulated, conclude, take,
}
use enclave_developer.Prelude.Text.{Text, is_hex, same, same_iff, codes}
use enclave_developer.Prelude.Triples.{
  Triple, >>=-Triple, After, Keeps-Triple, throw-Triple, >>-Triple, After-either, catch-Triple,
  if-Triple, assume-Triple, before-Triple,
}
use enclave_developer.Signer.World.{
  proof_invalid, nonce_conflict, rpc_failed, wrong_chain, no_genesis, bad_depth, key_reused,
  nonce_gap, nonce_unsafe, gas_limit,
}
use enclave_developer.Signer.Durable.Answered.{IsAnswer, confirm-IsAnswer}
use enclave_developer.Core.Address.{is_configured_address}
use mathlib.Core.Path.{subst}

module _ (a : Anchorer) where
  -- The chain answered with a successful receipt of the row's transaction, in which the verifier
  -- says that it has verified the row's hash.
  pub record IsProven (r : ReceiptRow) : Type 0 where
    pub asked : Text
    pub receipt : Receipt
    pub verifier : Text
    pub answer : IsAnswer a.wallet a.options asked receipt
    pub configured : a.verifier ≡ some verifier
    pub verified : has_verified_receipt a.decode_verified receipt verifier r.typed_hash ≡ true
    pub recorded : r.anchored_tx ≡ some receipt.transaction_hash

  abbrev pub ProvenAs : ReceiptRow → ReceiptStatus → Type 0
  ProvenAs r pending = Unit
  ProvenAs r anchoring = Unit
  ProvenAs r anchored = IsProven r
  ProvenAs r anchored_sim = Unit
  ProvenAs r anchor_failed = Unit

  abbrev pub AllProven : World → Type 0
  AllProven w = All (λ (r : ReceiptRow). ProvenAs r r.status) w.receipts

  mark_all :
      (h tx : Text) (s : ReceiptStatus)
      → ((r : ReceiptRow) → r.typed_hash ≡ h → ProvenAs (mark s tx r) s)
      → (rows : List ReceiptRow) → All (λ (r : ReceiptRow). ProvenAs r r.status) rows
      → All (λ (r : ReceiptRow). ProvenAs r r.status) (update_where (has_hash h) (mark s tx) rows)
  mark_all h tx s k [] p = tt
  mark_all h tx s k (r ∷ rows) (p, q) = elim (Bool-cases (same r.typed_hash h)) [
    | inl mine ↦ rw mine (k r ((same_iff r.typed_hash h).0 mine), mark_all h tx s k rows q)
    | inr other ↦ rw other (p, mark_all h tx s k rows q)
  ]

  set_state-Keeps :
      (h : Text) (s : ReceiptStatus) (tx : Text)
      → ((r : ReceiptRow) → r.typed_hash ≡ h → ProvenAs (mark s tx r) s)
      → Keeps AllProven (set_state a h s tx)
  unfolding set_state write
  set_state-Keeps h s tx k = record { keep = λ w p. mark_all h tx s k w.receipts p }

  guard-Keeps : (b : Bool) (e : AnchorFault) → Keeps AllProven (guard b e)
  unfolding guard
  guard-Keeps b e = if-Keeps b (pure-Keeps _) (throw-Keeps _)

  pub signing-Keeps : {A : Type 0} (m : Signed.Call A) → Keeps AllProven (signing m)
  unfolding signing
  signing-Keeps m = record { keep = λ w p. p }

  send_receipt-Keeps :
      (verifier : Text) (r : ReceiptRow) → Keeps AllProven (send_receipt a verifier r)
  unfolding send_receipt
  send_receipt-Keeps verifier r =
      >>=-Keeps (signing-Keeps _)
        (λ tx. >>-Keeps (set_state-Keeps r.typed_hash anchoring tx (λ q e. tt)) (pure-Keeps tx))

  submitted-Keeps :
      (verifier : Text) (r : ReceiptRow) (s : ReceiptStatus) (tx : Option Text)
      → Keeps AllProven (submitted a verifier r s tx)
  unfolding submitted
  submitted-Keeps verifier r ReceiptStatus.anchoring (some tx) =
      if-Keeps (is_hex 64 tx) (pure-Keeps tx) (send_receipt-Keeps verifier r)
  submitted-Keeps verifier r anchoring none = send_receipt-Keeps verifier r
  submitted-Keeps verifier r pending tx = send_receipt-Keeps verifier r
  submitted-Keeps verifier r anchored tx = send_receipt-Keeps verifier r
  submitted-Keeps verifier r anchored_sim tx = send_receipt-Keeps verifier r
  submitted-Keeps verifier r anchor_failed tx = send_receipt-Keeps verifier r

  abbrev Confirmed : Receipt → Type 0
  Confirmed c = (hash : Text) × IsAnswer a.wallet a.options hash c

  confirmed :
      (hash : Text) (w : World) (r : Result SignerFault Receipt × Signed.World)
      → AllProven w
      → After (λ c v. IsAnswer a.wallet a.options hash c × (c.success ≡ true)) (λ v. Unit {0}) r
      → After
          (λ c v. Confirmed c × AllProven v)
          AllProven
          (lift_result r.0, record w { signed = r.1 })
  confirmed hash w (ok c, v) p h = ((hash, h.0), p)
  confirmed hash w (err e, v) p h = p

  confirm-Triple :
      (hash : Text)
      → Triple AllProven
          (signing (confirm_durable_transaction a.wallet a.options hash))
          (λ c v. Confirmed c × AllProven v)
          AllProven
  unfolding signing
  confirm-Triple hash = record {
    run = λ w p.
        confirmed hash w (confirm_durable_transaction a.wallet a.options hash w.signed) p
          ((confirm-IsAnswer a.wallet a.options hash).run w.signed tt);
  }

  submit-Triple :
      (verifier : Text) (r : ReceiptRow)
      → Triple AllProven (submit a verifier r) (λ c v. Confirmed c × AllProven v) AllProven
  unfolding submit
  submit-Triple verifier r =
      >>=-Triple (Keeps-Triple (submitted-Keeps verifier r r.status r.anchored_tx) (λ w p. p))
        confirm-Triple

  thrown :
      (e : AnchorFault)
      → Triple AllProven (throw e) (λ (c : Receipt) v. Confirmed c × AllProven v) AllProven
  thrown e = throw-Triple e (λ w p. p)

  revert-Triple :
      (h : Text) (f : SignerFault)
      → Triple AllProven
          (note_revert a h (signer_failed f))
          (λ c v. Confirmed c × AllProven v)
          AllProven
  unfolding note_revert
  revert-Triple h (transaction_reverted tx) =
      >>-Triple (Keeps-Triple (set_state-Keeps h anchor_failed tx (λ q e. tt)) (λ w p. p))
        (thrown _)
  revert-Triple h rpc_failed = thrown _
  revert-Triple h wrong_chain = thrown _
  revert-Triple h no_genesis = thrown _
  revert-Triple h bad_depth = thrown _
  revert-Triple h (proof_invalid t) = thrown _
  revert-Triple h (nonce_conflict t n) = thrown _
  revert-Triple h key_reused = thrown _
  revert-Triple h nonce_gap = thrown _
  revert-Triple h nonce_unsafe = thrown _
  revert-Triple h gas_limit = thrown _

  note_revert-Triple :
      (h : Text) (e : AnchorFault)
      → Triple AllProven (note_revert a h e) (λ c v. Confirmed c × AllProven v) AllProven
  unfolding note_revert
  note_revert-Triple h (signer_failed f) = revert-Triple h f
  note_revert-Triple h bad_job = thrown _
  note_revert-Triple h needs_review = thrown _
  note_revert-Triple h other_chain = thrown _
  note_revert-Triple h other_verifier = thrown _
  note_revert-Triple h unsupported = thrown _
  note_revert-Triple h bad_receipt = thrown _
  note_revert-Triple h (not_verified t) = thrown _

  conclude-Triple :
      (verifier : Text) (r : ReceiptRow) (c : Receipt)
      → a.verifier ≡ some verifier
      → Confirmed c
      → Triple AllProven (conclude a verifier r c) (λ u. AllProven) AllProven
  unfolding conclude
  conclude-Triple verifier r c e (hash, answer) =
      if-Triple (has_verified_receipt a.decode_verified c verifier r.typed_hash)
        (λ good.
          Keeps-Triple
            (set_state-Keeps r.typed_hash anchored c.transaction_hash (λ q same_hash. record {
              asked = hash;
              receipt = c;
              verifier = verifier;
              answer = answer;
              configured = e;
              verified =
                  subst (λ x. has_verified_receipt a.decode_verified c verifier x ≡ true)
                    (sym same_hash) good;
              recorded = refl;
            }))
            (λ w p. p))
        (λ bad.
          >>-Triple
            (Keeps-Triple
              (set_state-Keeps r.typed_hash anchor_failed c.transaction_hash (λ q x. tt))
              (λ w p. p))
            (throw-Triple _ (λ w p. p)))

  guard-Triple :
      (b : Bool) (e : AnchorFault) → Triple AllProven (guard b e) (λ u. AllProven) AllProven
  guard-Triple b e = Keeps-Triple (guard-Keeps b e) (λ w p. p)

  on_chain-Triple :
      (verifier : Text) (r : ReceiptRow)
      → a.verifier ≡ some verifier
      → Triple AllProven (anchor_on_chain a verifier r) (λ u. AllProven) AllProven
  unfolding anchor_on_chain
  on_chain-Triple verifier r e = >>-Triple (guard-Triple _ _) (
      >>-Triple (guard-Triple _ _) (
        >>-Triple (guard-Triple _ _) (
          >>-Triple (guard-Triple _ _) (
            >>=-Triple (catch-Triple (submit-Triple verifier r) (note_revert-Triple r.typed_hash))
              (λ c.
                assume-Triple (λ w p. p.0)
                  (λ answer.
                    before-Triple {P' = AllProven} (λ w p. p.1)
                      (conclude-Triple verifier r c e answer)))))))

  to_simulated :
      (r : ReceiptRow)
      → Keeps AllProven
          (set_state a r.typed_hash anchored_sim (codes "sim:" ++ take 18 r.typed_hash))
  to_simulated r = set_state-Keeps r.typed_hash anchored_sim _ (λ q x. tt)

  simulated-Keeps : (r : ReceiptRow) (s : ReceiptStatus) → Keeps AllProven (anchor_simulated a r s)
  unfolding anchor_simulated
  simulated-Keeps r anchored_sim = pure-Keeps tt
  simulated-Keeps r pending = to_simulated r
  simulated-Keeps r anchoring = to_simulated r
  simulated-Keeps r anchored = to_simulated r
  simulated-Keeps r anchor_failed = to_simulated r

  Triple-Keeps :
      {m : Call (Unit {0})} → Triple AllProven m (λ u. AllProven) AllProven → Keeps AllProven m
  Triple-Keeps {m} h = record { keep = λ w p. After-either AllProven (m w) (h.run w p) }

  open-Keeps :
      (r : ReceiptRow) (v : Option Text) → a.verifier ≡ v → Keeps AllProven (anchor_open a r v)
  unfolding anchor_open
  open-Keeps r none e = simulated-Keeps r r.status
  open-Keeps r (some verifier) e =
      if-Keeps (is_configured_address (some verifier)) (Triple-Keeps (on_chain-Triple verifier r e))
        (simulated-Keeps r r.status)

  row-Keeps : (r : ReceiptRow) (s : ReceiptStatus) → Keeps AllProven (anchor_row a r s)
  unfolding anchor_row
  row-Keeps r anchored = pure-Keeps tt
  row-Keeps r anchor_failed = throw-Keeps _
  row-Keeps r pending = open-Keeps r a.verifier refl
  row-Keeps r anchoring = open-Keeps r a.verifier refl
  row-Keeps r anchored_sim = open-Keeps r a.verifier refl

  found-Keeps : (o : Option ReceiptRow) → Keeps AllProven (anchor_found a o)
  unfolding anchor_found
  found-Keeps none = pure-Keeps tt
  found-Keeps (some r) = row-Keeps r r.status

  receipt-Keeps : (h : Option Text) → Keeps AllProven (anchor_receipt a h)
  unfolding anchor_receipt
  receipt-Keeps none = throw-Keeps _
  receipt-Keeps (some h) = >>-Keeps (guard-Keeps _ _) (>>=-Keeps get-Keeps (λ w. found-Keeps _))

  pub anchor_receipt-AllProven :
      (h : Option Text) (w : World) → AllProven w → AllProven (anchor_receipt a h w).1
  anchor_receipt-AllProven h w p = (receipt-Keeps h).keep w p
