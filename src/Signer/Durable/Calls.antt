-- ===== src/Signer/Durable/Calls.antt =====
-- Conditions on the signed rows of the journal under each function of signer.ts.
use enclave_developer.Prelude.{
  ℕ, ◌≡◌, refl, inl, inr, List, [], ◌∷◌, ◌++◌, Option, none, some, All, Keeps, >>=-Keeps, >>-Keeps,
  if-Keeps, pure-Keeps, throw-Keeps, from_result-Keeps, ◌==◌, pure, throw, Result, ok, err,
  each-Keeps, catch-Keeps, not, ◌+◌, ltb,
}
use enclave_developer.Prelude.Text.{Text, same_hex, lower}
use enclave_developer.Prelude.Triples.{After}
use enclave_developer.Signer.World.{
  World, JournalRow, Status, prepared, broadcast, confirmed, reverted, ContractCall, Wallet, Call,
  SignerFault, transaction, transaction_reverted, Receipt, rpc_failed, wrong_chain, no_genesis,
  bad_depth, proof_invalid, nonce_conflict, key_reused, nonce_gap, nonce_unsafe, gas_limit,
}
use enclave_developer.Signer.World.Settled.{transaction-After, transaction-Keeps}
use enclave_developer.Signer.Journal.Steady.{
  Steady, ask-Keeps, look_up-Keeps, restate-Keeps, broadcast_row-Keeps, canonical_receipt-Keeps,
  reconcile_journal-Keeps, option-Keeps,
}
use enclave_developer.Signer.Journal.Rows.{SameSigned, update-SameSigned}
use enclave_developer.Signer.Durable.{
  SignerOptions, after_genesis, scope_for, publish, send_open, journal_call,
  send_durable_transaction, prove, confirm_durable_transaction, confirm_row, forgive,
  recover_signer_transactions, record_proof,
}
use enclave_developer.Signer.Durable.Reserve.{IsNext, Recorded, journal_call-Recorded}

module _ (wallet : Wallet) (opts : SignerOptions) (Good : JournalRow → Type 0) {P : World → Type 0}
    (st : Steady Good P) where
  after_genesis-Keeps :
      {A : Type 0} (answer : Option (Option Text)) (k : Text → Call A)
      → ((t : Text) → Keeps P (k t))
      → Keeps P (after_genesis answer k)
  after_genesis-Keeps (some (some hash)) k h = h hash
  after_genesis-Keeps (some none) k h = throw-Keeps _
  after_genesis-Keeps none k h = throw-Keeps _

  pub scope_for-Keeps : (id : ℕ) → Keeps P (scope_for wallet id)
  unfolding scope_for
  scope_for-Keeps id = >>=-Keeps (ask-Keeps wallet Good st _) λ chain.
      if-Keeps (chain == id)
        (>>=-Keeps (look_up-Keeps wallet Good st _)
          λ genesis. after_genesis-Keeps genesis _ λ hash. pure-Keeps _)
        (throw-Keeps _)

  send_open-Keeps : (row : JournalRow) → Good row → Keeps P (send_open wallet opts row)
  unfolding send_open
  send_open-Keeps row g =
      >>-Keeps (broadcast_row-Keeps wallet Good st row g)
        (>>-Keeps (restate-Keeps wallet Good st _ _ λ r. refl) (pure-Keeps _))

  publish_status :
      (row : JournalRow) (s : Status)
      → Good row
      → Keeps P (elim s [
        | reverted ↦ throw (transaction_reverted row.tx_hash)
        | confirmed ↦ pure row.tx_hash
        | prepared ↦ send_open wallet opts row
        | broadcast ↦ send_open wallet opts row
      ])
  publish_status row prepared g = send_open-Keeps row g
  publish_status row broadcast g = send_open-Keeps row g
  publish_status row confirmed g = pure-Keeps _
  publish_status row reverted g = throw-Keeps _

  pub publish-Keeps : (row : JournalRow) → Good row → Keeps P (publish wallet opts row)
  unfolding publish
  publish-Keeps row g = publish_status row row.status g

  record_proof-Keeps :
      (scope hash : Text) (depth : ℕ) (receipt : Receipt)
      → Keeps P (record_proof wallet opts scope hash depth receipt)
  unfolding record_proof
  record_proof-Keeps scope hash depth receipt = >>=-Keeps (ask-Keeps wallet Good st _) λ head.
      if-Keeps (ltb head (receipt.block_number + depth)) (throw-Keeps _)
        (>>-Keeps (restate-Keeps wallet Good st _ _ λ r. refl) (pure-Keeps _))

  prove-Keeps : (scope hash : Text) (depth : ℕ) → Keeps P (prove wallet opts scope hash depth)
  unfolding prove
  prove-Keeps scope hash depth = >>=-Keeps (canonical_receipt-Keeps wallet Good st hash) λ proof.
      option-Keeps wallet Good st (throw-Keeps _) (record_proof-Keeps scope hash depth) proof

  module _ (back : (v w : World) → P v → P w → P (record w { journal = v.journal })) where
    pub confirm-Keeps : (hash : Text) → Keeps P (confirm_durable_transaction wallet opts hash)
    unfolding confirm_durable_transaction
    confirm-Keeps hash = >>=-Keeps (from_result-Keeps _) λ checked.
        >>=-Keeps (scope_for-Keeps opts.chain_id) λ scope.
          >>=-Keeps (ask-Keeps wallet Good st _) λ waited.
            if-Keeps (not (same_hex waited hash)) (throw-Keeps _) (
              >>=-Keeps (transaction-Keeps P _ back (prove-Keeps scope hash checked))
                λ receipt. if-Keeps receipt.success (pure-Keeps _) (throw-Keeps _))

    forgive-Keeps : (e : SignerFault) → Keeps P (forgive wallet opts e)
    forgive-Keeps (transaction_reverted hash) = pure-Keeps _
    forgive-Keeps rpc_failed = throw-Keeps _
    forgive-Keeps wrong_chain = throw-Keeps _
    forgive-Keeps no_genesis = throw-Keeps _
    forgive-Keeps bad_depth = throw-Keeps _
    forgive-Keeps (proof_invalid hash) = throw-Keeps _
    forgive-Keeps (nonce_conflict hash n) = throw-Keeps _
    forgive-Keeps key_reused = throw-Keeps _
    forgive-Keeps nonce_gap = throw-Keeps _
    forgive-Keeps nonce_unsafe = throw-Keeps _
    forgive-Keeps gas_limit = throw-Keeps _

    pub recover-Keeps : Keeps P (recover_signer_transactions wallet opts)
    unfolding recover_signer_transactions confirm_row
    recover-Keeps = >>=-Keeps (from_result-Keeps _) λ checked.
        >>=-Keeps (scope_for-Keeps opts.chain_id) λ scope.
          >>=-Keeps
            (transaction-Keeps P _ back
              (reconcile_journal-Keeps wallet Good st scope (lower wallet.address) checked))
            λ outcome.
              >>-Keeps
                (each-Keeps
                  (λ row.
                    catch-Keeps (>>=-Keeps (confirm-Keeps row.tx_hash) λ receipt. pure-Keeps _)
                      forgive-Keeps)
                  outcome.1)
                (pure-Keeps _)

-- A condition on the signed rows that a new operation's row keeps.
pub record Invariant (wallet : Wallet) (opts : SignerOptions) (H : List JournalRow → Type 0)
    : Type 0 where
  pub same_rows : (rows rows' : List JournalRow) → SameSigned rows rows' → H rows' → H rows
  pub add_row :
      (scope key : Text) (rows : List JournalRow) (row : JournalRow)
      → IsNext wallet opts scope key rows row
      → H rows
      → H (rows ++ row ∷ [])

module _ (wallet : Wallet) (opts : SignerOptions) (H : List JournalRow → Type 0)
    (inv : Invariant wallet opts H) where
  abbrev Holds : World → Type 0
  Holds w = H w.journal

  abbrev Any : JournalRow → Type 0
  Any r = Unit {0}

  All-Any : (rows : List JournalRow) → All Any rows
  All-Any [] = tt
  All-Any (r ∷ rows) = (tt, All-Any rows)

  Holds-Steady : Steady Any Holds
  Holds-Steady = record {
    tick = λ w n h. h;
    restate = λ w p f k h. inv.same_rows _ _ (update-SameSigned p f k w.journal) h;
    sending = λ w row n g h. h;
    rows = λ w h. All-Any w.journal;
  }

  Nothing-Steady : Steady Any (λ w. Unit {0})
  Nothing-Steady = record {
    tick = λ w n h. tt;
    restate = λ w p f k h. tt;
    sending = λ w row n g h. tt;
    rows = λ w h. All-Any w.journal;
  }

  Recorded-Holds :
      (scope key : Text) (journal : List JournalRow) (row : JournalRow) (w : World)
      → H journal
      → Recorded wallet opts scope key journal row w
      → Holds w
  Recorded-Holds scope key journal row w h (inl (kept, there)) = inv.same_rows _ _ kept h
  Recorded-Holds scope key journal row w h (inr (added, next)) =
      inv.same_rows _ _ added (inv.add_row scope key journal row next h)

  journal-Keeps :
      (scope key : Text) (call : ContractCall)
      → Keeps Holds (transaction (journal_call wallet opts scope key call))
  journal-Keeps scope key call = record { keep = λ w h. ended w h }
    where
      kept :
          (w : World) (r : Result SignerFault JournalRow × World)
          → H w.journal
          → After
              (λ row v. Recorded wallet opts scope key w.journal row v × Unit {0})
              (λ v. v.journal ≡ w.journal)
              r
          → Holds r.1
      kept w (ok row, v) h (k, u) = Recorded-Holds scope key w.journal row v h k
      kept w (err e, v) h k = rw k h

      ended :
          (w : World)
          → H w.journal
          → Holds (transaction (journal_call wallet opts scope key call) w).1
      ended w h = kept w (transaction (journal_call wallet opts scope key call) w) h (
          transaction-After _ (λ v. Unit {0}) _ (journal_call wallet opts scope key call) w
            (λ v u. refl)
            ((journal_call-Recorded wallet opts scope key Any (λ v. Unit {0}) (λ v. Unit {0})
                Nothing-Steady (λ v rows u. tt) (λ v n u. tt) w.journal call).run
              w (refl, tt)))

  pub send-Keeps :
      (key : Text) (call : ContractCall)
      → Keeps Holds (send_durable_transaction wallet opts key call)
  unfolding send_durable_transaction
  send-Keeps key call = >>=-Keeps (from_result-Keeps _) λ checked.
      >>=-Keeps (scope_for-Keeps wallet opts Any Holds-Steady opts.chain_id) λ scope.
        >>=-Keeps (journal-Keeps scope key call)
          λ row. publish-Keeps wallet opts Any Holds-Steady row tt
