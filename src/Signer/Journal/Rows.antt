-- ===== src/Signer/Journal/Rows.antt =====
-- The signed part of the rows under `reconcileJournal` of signer.ts, in the table and in what it
-- returns.
use mathlib.Core.Path.{subst}
use enclave_developer.Prelude.{
  ℕ, ◌≡◌, refl, ◌∙◌, ap, List, [], ◌∷◌, map, Option, none, some, Bool, All, update_where,
  Bool-cases, inl, inr, ◌>>=◌, ltb, leb, ◌+◌,
}
use enclave_developer.Prelude.Text.{Text}
use enclave_developer.Prelude.Triples.{
  Triple, After, >>=-Triple, >>-Triple, pure-Triple, if-Triple, throw-Triple, Keeps-Triple,
  assume-Triple, before-Triple,
}
use enclave_developer.Signer.World.{World, JournalRow, Status, Receipt, Wallet}
use enclave_developer.Signer.Journal.{
  rows_of, save_state, settle_receipt, replay_row, recover_row, reconcile_rows, reconcile_journal,
}
use enclave_developer.Signer.Journal.Steady.{
  Steady, signed, KeepsSigned, rows_of-All, ask-Keeps, restate-Keeps, canonical_receipt-Keeps,
  broadcast_row-Keeps, still_proved-Keeps,
}

-- Two tables with the same signed rows, in the same order.
abbrev pub SameSigned : List JournalRow → List JournalRow → Type 0
SameSigned rows rows' = map signed rows ≡ map signed rows'

pub update-SameSigned :
    (p : JournalRow → Bool) (f : JournalRow → JournalRow)
    → KeepsSigned f
    → (rows : List JournalRow) → SameSigned (update_where p f rows) rows
update-SameSigned p f k [] = refl
update-SameSigned p f k (r ∷ rows) = elim (Bool-cases (p r)) [
  | inl hit ↦ rw hit (cc (k r, update-SameSigned p f k rows))
  | inr miss ↦ rw miss (cc (update-SameSigned p f k rows))
]

module _ (wallet : Wallet) (Good : JournalRow → Type 0) (X : World → Type 0) (st : Steady Good X)
    (journal : List JournalRow) where
  -- The table has the signed rows of `journal`.
  abbrev pub Kept : World → Type 0
  Kept w = SameSigned w.journal journal × X w

  pub Kept-Steady : Steady Good Kept
  Kept-Steady = record {
    tick = λ w n h. (h.0, st.tick w n h.1);
    restate = λ w p f k h. (update-SameSigned p f k w.journal ∙ h.0, st.restate w p f k h.1);
    sending = λ w row n g h. (h.0, st.sending w row n g h.1);
    rows = λ w h. st.rows w h.1;
  }

  save_state_same :
      (row : JournalRow) (status : Status) (number : Option ℕ) (hash : Option Text)
      → Triple Kept
          (save_state wallet row status number hash)
          (λ r w. Kept w × (signed r ≡ signed row))
          X
  unfolding save_state
  save_state_same row status number hash =
      >>-Triple (Keeps-Triple (restate-Keeps wallet Good Kept-Steady _ _ λ r. refl) λ s h. h.1)
        (pure-Triple _ λ s h. (h, refl))

  settle_receipt_same :
      (head depth : ℕ) (row : JournalRow) (receipt : Receipt)
      → Triple Kept
          (settle_receipt wallet head depth row receipt)
          (λ r w. Kept w × (signed r ≡ signed row))
          X
  unfolding settle_receipt
  settle_receipt_same head depth row receipt =
      if-Triple (leb (receipt.block_number + depth) head) (λ e. save_state_same row _ _ _)
        (λ e. save_state_same row _ _ _)

  replay_row_same :
      (row : JournalRow)
      → Good row
      → Triple Kept (replay_row wallet row) (λ r w. Kept w × (signed r ≡ signed row)) X
  unfolding replay_row
  replay_row_same row g =
      >>=-Triple (Keeps-Triple (ask-Keeps wallet Good Kept-Steady _) λ s h. h.1) λ mined.
        if-Triple (ltb row.nonce mined) (λ e. throw-Triple _ λ s h. h.1)
          λ e.
            >>-Triple (Keeps-Triple (broadcast_row-Keeps wallet Good Kept-Steady row g) λ s h. h.1)
              (save_state_same row _ _ _)

  found_same :
      (head depth : ℕ) (row : JournalRow) (o : Option Receipt)
      → Good row
      → Triple Kept
          (elim o [
            | some r ↦ settle_receipt wallet head depth row r
            | none ↦ replay_row wallet row
          ])
          (λ r w. Kept w × (signed r ≡ signed row))
          X
  found_same head depth row none g = replay_row_same row g
  found_same head depth row (some r) g = settle_receipt_same head depth row r

  recover_row_same :
      (head depth : ℕ) (row : JournalRow)
      → Good row
      → Triple Kept (recover_row wallet head depth row) (λ r w. Kept w × (signed r ≡ signed row)) X
  unfolding recover_row
  recover_row_same head depth row g =
      >>=-Triple (Keeps-Triple (canonical_receipt-Keeps wallet Good Kept-Steady _) λ s h. h.1)
        λ found. found_same head depth row found g

  reconcile_rows_same :
      (head depth : ℕ) (rows : List JournalRow) (headers : List (ℕ × Option Text))
      → All Good rows
      → Triple Kept
          (reconcile_rows wallet head depth rows headers)
          (λ out w. Kept w × SameSigned out.0 rows)
          X
  unfolding reconcile_rows
  reconcile_rows_same head depth [] headers h = pure-Triple _ λ s k. (k, refl)
  reconcile_rows_same head depth (row ∷ rows) headers (g, h) =
      >>=-Triple
        (Keeps-Triple (still_proved-Keeps wallet Good Kept-Steady head depth _ headers) λ s k. k.1)
        λ checked.
          if-Triple checked.0
            (λ e.
              >>=-Triple (reconcile_rows_same head depth rows checked.1 h)
                λ rest. pure-Triple _ λ s (k, same_rest). (k, cc same_rest))
            λ e. >>=-Triple (recover_row_same head depth row g) λ updated.
              assume-Triple (λ s k. k.1)
                λ same_row.
                  before-Triple (λ s k. k.0)
                    (>>=-Triple (reconcile_rows_same head depth rows checked.1 h)
                      λ rest. pure-Triple _ λ s (k, same_rest). (k, cc (same_row, same_rest)))

  reconcile_from :
      (scope signer : Text) (depth : ℕ) (s : World)
      → Kept s
      → After
          (λ out w. Kept w × SameSigned out.0 (rows_of scope signer s.journal))
          X
          (reconcile_journal wallet scope signer depth s)
  unfolding reconcile_journal ◌>>=◌
  reconcile_from scope signer depth s h =
      (>>=-Triple {P = Kept}
          {T = λ out w. Kept w × SameSigned out.0 (rows_of scope signer s.journal)}
          (Keeps-Triple (ask-Keeps wallet Good Kept-Steady wallet.block_number) λ w k. k.1)
          λ head.
            reconcile_rows_same head depth (rows_of scope signer s.journal) []
              (rows_of-All Good scope signer s.journal (st.rows s h.1))).run
        s h

  -- The rows that `reconcileJournal` returns are signed as those of the table where it started.
  pub reconcile_journal_same :
      (scope signer : Text) (depth : ℕ)
      → Triple
          (λ w. (w.journal ≡ journal) × X w)
          (reconcile_journal wallet scope signer depth)
          (λ out w. Kept w × SameSigned out.0 (rows_of scope signer journal))
          X
  reconcile_journal_same scope signer depth = record {
    run = λ s (e, x).
        subst
          (λ j.
            After (λ out w. Kept w × SameSigned out.0 (rows_of scope signer j)) X
              (reconcile_journal wallet scope signer depth s))
          e (reconcile_from scope signer depth s (ap (map signed) e, x));
  }
