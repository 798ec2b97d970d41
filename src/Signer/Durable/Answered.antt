-- ===== src/Signer/Durable/Answered.antt =====
-- What `confirmDurableTransaction` of _backend/packages/db/src/signer.ts returns, against what the
-- chain's client has answered.
use enclave_developer.Prelude.{
  ℕ, Option, Bool, some, ◌≡◌, if◌then◌else◌, none, true, false, pure, throw, ltb, not, ◌+◌, List,
  refl, Result, ok, err,
}
use enclave_developer.Signer.World.{
  Wallet, Call, Lookup, World, look_up, transaction, Receipt, found, proof_invalid, answer_lookup,
  settle, absent, JournalRow, broken, SignerFault,
}
use enclave_developer.Signer.Durable.{
  SignerOptions, confirm_durable_transaction, prove, record_proof,
}
use enclave_developer.Prelude.Text.{Text, same_hex}
use enclave_developer.Signer.Journal.{canonical_receipt, check_receipt}
use enclave_developer.Prelude.Triples.{
  Triple, >>=-Triple, After, After-both, assume-Triple, if-Triple, before-Triple, throw-Triple,
  >>-Triple, pure-Triple,
}

module _ (wallet : Wallet) (opts : SignerOptions) where
  -- The client answered with this receipt when it was asked for the transaction.
  abbrev pub IsAnswer : Text → Receipt → Type 0
  IsAnswer hash receipt =
      (t : ℕ) × (wallet.receipt t hash ≡ found receipt)
      × (same_hex receipt.transaction_hash hash ≡ true)

  abbrev Any : World → Type 0
  Any w = Unit {0}

  abbrev IfSome : {A : Type 0} → (A → Type 0) → Option A → Type 0
  IfSome P none = Unit
  IfSome P (some a) = P a

  looked :
      {A : Type 0} (answer : Lookup A) (t : ℕ) (f : ℕ → Lookup A) (w : World)
      → f t ≡ answer
      → After (λ o v. IfSome (λ a. (u : ℕ) × (f u ≡ found a)) o) Any (answer_lookup answer, w)
  looked (found a) t f w e = (t, e)
  looked absent t f w e = tt
  looked broken t f w e = tt

  look_up-Triple :
      {A : Type 0} (f : ℕ → Lookup A)
      → Triple Any (look_up f) (λ o w. IfSome (λ a. (u : ℕ) × (f u ≡ found a)) o) Any
  unfolding look_up
  look_up-Triple f = record { run = λ w p. looked (f w.clock) w.clock f _ refl }

  call-Triple : {A : Type 0} (m : Call A) → Triple Any m (λ a. Any) Any
  call-Triple m = record { run = λ w p. After-both Any (m w) tt }

  kept_some :
      (hash : Text) (b : Bool) (receipt : Receipt)
      → IsAnswer hash receipt
      → IfSome (IsAnswer hash) (if b then some receipt else none)
  kept_some hash true receipt h = h
  kept_some hash false receipt h = tt

  check_receipt-Triple :
      (hash : Text) (receipt : Receipt) (t : ℕ)
      → wallet.receipt t hash ≡ found receipt
      → Triple Any (check_receipt wallet hash receipt) (λ o w. IfSome (IsAnswer hash) o) Any
  unfolding check_receipt
  check_receipt-Triple hash receipt t e =
      if-Triple (same_hex receipt.transaction_hash hash)
        (λ mine.
          >>=-Triple (call-Triple _)
            (λ canonical. pure-Triple _ (λ w p. kept_some hash _ receipt (t, e, mine))))
        (λ foreign. throw-Triple _ (λ w p. tt))

  check_some-Triple :
      (hash : Text) (o : Option Receipt)
      → IfSome (λ r. (u : ℕ) × (wallet.receipt u hash ≡ found r)) o
      → Triple {S = World} {E = SignerFault} {A = Option Receipt} Any
          (elim o as (λ k. Call (Option Receipt)) [
            | none ↦ pure none
            | some receipt ↦ check_receipt wallet hash receipt
          ])
          (λ o' w. IfSome (IsAnswer hash) o')
          Any
  check_some-Triple hash none h = pure-Triple none (λ w p. tt)
  check_some-Triple hash (some receipt) (u, e) = check_receipt-Triple hash receipt u e

  canonical_receipt-Triple :
      (hash : Text)
      → Triple Any (canonical_receipt wallet hash) (λ o w. IfSome (IsAnswer hash) o) Any
  unfolding canonical_receipt
  canonical_receipt-Triple hash =
      >>=-Triple (look_up-Triple (λ t. wallet.receipt t hash)) (λ answer.
        assume-Triple (λ w p. p) (λ h. before-Triple (λ w p. tt) (check_some-Triple hash answer h)))

  record_proof-Triple :
      (scope hash : Text) (depth : ℕ) (receipt : Receipt)
      → IsAnswer hash receipt
      → Triple Any (record_proof wallet opts scope hash depth receipt) (λ r w. IsAnswer hash r) Any
  unfolding record_proof
  record_proof-Triple scope hash depth receipt h = >>=-Triple (call-Triple _) (λ head.
      if-Triple (ltb head (receipt.block_number + depth)) (λ shallow. throw-Triple _ (λ w p. tt))
        (λ deep. >>-Triple (call-Triple _) (pure-Triple receipt (λ w p. h))))

  proved-Triple :
      (scope hash : Text) (depth : ℕ) (o : Option Receipt)
      → IfSome (IsAnswer hash) o
      → Triple {S = World} {E = SignerFault} {A = Receipt} Any
          (elim o as (λ k. Call Receipt) [
            | none ↦ throw (proof_invalid hash)
            | some receipt ↦ record_proof wallet opts scope hash depth receipt
          ])
          (λ r w. IsAnswer hash r)
          Any
  proved-Triple scope hash depth none h = throw-Triple _ (λ w p. tt)
  proved-Triple scope hash depth (some receipt) h = record_proof-Triple scope hash depth receipt h

  prove-Triple :
      (scope hash : Text) (depth : ℕ)
      → Triple Any (prove wallet opts scope hash depth) (λ r w. IsAnswer hash r) Any
  unfolding prove
  prove-Triple scope hash depth = >>=-Triple (canonical_receipt-Triple hash) (λ proof.
      assume-Triple (λ w p. p)
        (λ h. before-Triple (λ w p. tt) (proved-Triple scope hash depth proof h)))

  settled :
      {A : Type 0} (Q : A → Type 0) (before : List JournalRow) (r : Result SignerFault A × World)
      → After (λ a w. Q a) Any r
      → After (λ a w. Q a) Any (settle before r)
  unfolding settle
  settled Q before (ok a, w) h = h
  settled Q before (err e, w) h = tt

  transaction-Triple :
      {A : Type 0} (Q : A → Type 0) {m : Call A}
      → Triple Any m (λ a w. Q a) Any
      → Triple Any (transaction m) (λ a w. Q a) Any
  unfolding transaction
  transaction-Triple Q {m} h = record { run = λ w p. settled Q w.journal (m w) (h.run w tt) }

  pub confirm-IsAnswer :
      (hash : Text)
      → Triple Any
          (confirm_durable_transaction wallet opts hash)
          (λ r w. IsAnswer hash r × (r.success ≡ true))
          Any
  unfolding confirm_durable_transaction
  confirm-IsAnswer hash = >>=-Triple (call-Triple _) (λ checked.
      >>=-Triple (call-Triple _) (λ scope. >>=-Triple (call-Triple _) (λ waited.
        if-Triple (not (same_hex waited hash)) (λ foreign. throw-Triple _ (λ w p. tt))
          (λ own.
            >>=-Triple (transaction-Triple (IsAnswer hash) (prove-Triple scope hash checked))
              (λ receipt.
                if-Triple receipt.success (λ good. pure-Triple receipt (λ w p. (p, good)))
                  (λ bad. throw-Triple _ (λ w p. tt)))))))
