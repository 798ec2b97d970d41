-- ===== src/Signer/Durable/Sent.antt =====
-- What signer.ts hands to the network, against the rows of the journal.
use enclave_developer.Prelude.{
  ◌≡◌, refl, sym, ◌∙◌, ap, inl, inr, List, [], ◌∷◌, ◌++◌, All, Some, All-map, All-append, All-Some,
  Keeps, from_result-Keeps,
}
use enclave_developer.Prelude.Text.{Text}
use enclave_developer.Prelude.Triples.{
  Triple, After-map, After-both, After-either, >>=-Triple, Keeps-Triple,
}
use enclave_developer.Signer.World.{World, JournalRow, Wallet, Call, transaction, ContractCall}
use enclave_developer.Signer.Journal.Steady.{Steady, signed}
use enclave_developer.Signer.Journal.Rows.{SameSigned, Kept, Kept-Steady, update-SameSigned}
use enclave_developer.Signer.Durable.{
  SignerOptions, publish, send_durable_transaction, journal_call, scope_for,
  recover_signer_transactions,
}
use enclave_developer.Signer.Durable.Records.{All-SameSigned, Some-map}
use enclave_developer.Signer.Durable.Reserve.{Recorded, journal_call-Recorded}
use enclave_developer.Signer.Durable.Calls.{publish-Keeps, scope_for-Keeps, recover-Keeps}
use enclave_developer.Signer.World.Settled.{transaction-After}

-- A row of the list has this signed transaction.
abbrev pub Holds : List JournalRow → Text → Type 0
Holds rows raw = Some (λ r. r.raw_transaction ≡ raw) rows

-- Every transaction that was handed to the network is in the journal.
abbrev pub AllHeld : World → Type 0
AllHeld w = All (Holds w.journal) w.sent

Some-SameSigned :
    (raw : Text) (xs ys : List JournalRow) → SameSigned xs ys → Holds ys raw → Holds xs raw
Some-SameSigned raw xs [] e h = absurd h
Some-SameSigned raw [] (y ∷ ys) e h = cc
Some-SameSigned raw (x ∷ xs) (y ∷ ys) e (inl k) =
    inl (let f : signed x ≡ signed y = cc e in ap (λ r. r.raw_transaction) f ∙ k)
Some-SameSigned raw (x ∷ xs) (y ∷ ys) e (inr k) = inr (Some-SameSigned raw xs ys (cc e) k)

Some-left : (raw : Text) (xs ys : List JournalRow) → Holds xs raw → Holds (xs ++ ys) raw
Some-left raw [] ys h = absurd h
Some-left raw (x ∷ xs) ys (inl k) = inl k
Some-left raw (x ∷ xs) ys (inr k) = inr (Some-left raw xs ys k)

Some-last : (xs : List JournalRow) (x : JournalRow) → Holds (xs ++ x ∷ []) x.raw_transaction
Some-last [] x = inl refl
Some-last (y ∷ xs) x = inr (Some-last xs x)

Holds-self : (rows : List JournalRow) → All (λ r. Holds rows r.raw_transaction) rows
Holds-self rows =
    All-map (λ r h. h r.raw_transaction refl) rows
      (All-Some (λ raw r. r.raw_transaction ≡ raw) rows)

module _ (wallet : Wallet) (opts : SignerOptions) where
  module _ (journal : List JournalRow) where
    abbrev Good : JournalRow → Type 0
    Good r = Holds journal r.raw_transaction

    -- What was sent, and what may be sent, is in `journal`.
    abbrev Within : World → Type 0
    Within w = All (Holds journal) w.sent × All Good w.journal

    Good-signed : (r r' : JournalRow) → signed r ≡ signed r' → Good r' → Good r
    Good-signed r r' e h = Some-map (λ x k. k ∙ sym (ap (λ y. y.raw_transaction) e)) journal h

    Within-Steady : Steady Good Within
    Within-Steady = record {
      tick = λ w n h. h;
      restate = λ w p f k h.
          (h.0, All-SameSigned Good Good-signed _ _ (update-SameSigned p f k w.journal) h.1);
      sending = λ w row n g h.
          (All-append (Holds journal) w.sent (row.raw_transaction ∷ []) h.0 (g, tt), h.1);
      rows = λ w h. h.1;
    }

    abbrev KeptHere : World → Type 0
    KeptHere = Kept wallet Good Within Within-Steady journal

    KeptHere-AllHeld : (w : World) → KeptHere w → AllHeld w
    KeptHere-AllHeld w (e, h) = All-map (λ raw. Some-SameSigned raw w.journal journal e) w.sent h.0

  AllHeld-Kept : (w : World) → AllHeld w → KeptHere w.journal w
  AllHeld-Kept w h = (refl, (h, Holds-self w.journal))

  -- A call that keeps what is within the journal keeps that all that was sent is in it.
  lift-Keeps :
      {A : Type 0} (m : Call A)
      → ((journal : List JournalRow) → Keeps (KeptHere journal) m)
      → Keeps AllHeld m
  lift-Keeps m h = record {
    keep = λ w k. KeptHere-AllHeld w.journal (m w).1 ((h w.journal).keep w (AllHeld-Kept w k));
  }

  -- A row that may be published.
  abbrev Ready : JournalRow → World → Type 0
  Ready row w = AllHeld w × Holds w.journal row.raw_transaction

  publish-AllHeld :
      (row : JournalRow) → Triple (Ready row) (publish wallet opts row) (λ t. AllHeld) AllHeld
  publish-AllHeld row = record {
    run = λ w (k, g).
        let kept =
          (publish-Keeps wallet opts (Good w.journal)
              (Kept-Steady wallet (Good w.journal) (Within w.journal) (Within-Steady w.journal)
                w.journal)
              row g).keep
            w (AllHeld-Kept w k) in
        After-both AllHeld (publish wallet opts row w)
          (KeptHere-AllHeld w.journal (publish wallet opts row w).1 kept);
  }

  Recorded-Ready :
      (scope key : Text) (journal : List JournalRow) (row : JournalRow) (w : World)
      → Recorded wallet opts scope key journal row w
      → All (Holds journal) w.sent
      → Ready row w
  Recorded-Ready scope key journal row w (inl (kept, there)) h = (
    All-map (λ raw. Some-SameSigned raw w.journal journal kept) w.sent h,
    Some-SameSigned row.raw_transaction w.journal journal kept
        (Some-map (λ x e. ap (λ y. y.raw_transaction) e) journal there),
  )
  Recorded-Ready scope key journal row w (inr (added, next)) h = (
    All-map
        (λ raw k.
          Some-SameSigned raw w.journal (journal ++ row ∷ []) added
            (Some-left raw journal (row ∷ []) k))
        w.sent h,
    Some-SameSigned row.raw_transaction w.journal (journal ++ row ∷ []) added
        (Some-last journal row),
  )

  journal-Ready :
      (scope key : Text) (call : ContractCall)
      → Triple AllHeld (transaction (journal_call wallet opts scope key call)) Ready AllHeld
  journal-Ready scope key call = record {
    run = λ w k.
        let sent_before : World → Type 0 = λ v. All (Holds w.journal) v.sent in
        let recorded =
          (journal_call-Recorded wallet opts scope key (Good w.journal) (Within w.journal)
              sent_before (Within-Steady w.journal) (λ v rows h. h.0) (λ v n h. h) w.journal
              call).run
            w (refl, (k, Holds-self w.journal)) in
        After-map _ Ready AllHeld (transaction (journal_call wallet opts scope key call) w)
          (λ row v (r, h). Recorded-Ready scope key w.journal row v r h)
          (transaction-After _ sent_before AllHeld (journal_call wallet opts scope key call) w
            (λ v h. h) recorded);
  }

  send-Triple :
      (key : Text) (call : ContractCall)
      → Triple AllHeld (send_durable_transaction wallet opts key call) (λ t. AllHeld) AllHeld
  unfolding send_durable_transaction
  send-Triple key call = >>=-Triple (Keeps-Triple (from_result-Keeps _) λ s h. h) λ checked.
      >>=-Triple
        (Keeps-Triple
          (lift-Keeps (scope_for wallet opts.chain_id) λ journal.
            scope_for-Keeps wallet opts (Good journal)
              (Kept-Steady wallet (Good journal) (Within journal) (Within-Steady journal) journal)
              opts.chain_id)
          λ s h. h)
        λ scope. >>=-Triple (journal-Ready scope key call) publish-AllHeld

  -- If every transaction handed to the network so far is in the journal, this holds after
  -- `sendDurableTransaction` too, however it ends, also where the database refuses to commit the
  -- row that was written for the transaction.
  pub send-AllHeld :
      (key : Text) (call : ContractCall) (w : World)
      → AllHeld w
      → AllHeld (send_durable_transaction wallet opts key call w).1
  send-AllHeld key call w h =
      After-either AllHeld (send_durable_transaction wallet opts key call w)
        ((send-Triple key call).run w h)

  -- A throw inside a transaction restores the rows, and what was sent stays within them.
  KeptHere-back :
      (journal : List JournalRow) (v w : World)
      → KeptHere journal v
      → KeptHere journal w
      → KeptHere journal (record w { journal = v.journal })
  KeptHere-back journal v w h k = (h.0, (k.1.0, h.1.1))

  -- If every transaction handed to the network so far is in the journal, then after
  -- `recoverSignerTransactions`, however it ends, the rows are signed as before, none added, and
  -- what has been sent is still in the journal.
  pub recover-Kept :
      (w : World)
      → AllHeld w
      → SameSigned (recover_signer_transactions wallet opts w).1.journal w.journal
        × AllHeld (recover_signer_transactions wallet opts w).1
  recover-Kept w h =
      let after = recover_signer_transactions wallet opts w in
      let kept : KeptHere w.journal after.1 =
        (recover-Keeps wallet opts (Good w.journal)
            (Kept-Steady wallet (Good w.journal) (Within w.journal) (Within-Steady w.journal)
              w.journal)
            (KeptHere-back w.journal)).keep
          w (AllHeld-Kept w h) in
      (kept.0, KeptHere-AllHeld w.journal after.1 kept)
