-- ===== src/Signer/Durable/Reserve.antt =====
-- The transaction of `sendDurableTransaction` of signer.ts, from the table before to the table
-- after.
use mathlib.Core.List.{map-append}
use enclave_developer.Prelude.{
  ℕ, ◌≡◌, refl, sym, ◌∙◌, ap, ◌⊎◌, inl, inr, List, [], ◌∷◌, ◌++◌, Option, none, some, ◌||◌, not,
  ltb, arith, All, find_first, last?, Option-cases, from_result-Keeps, pure, ◌>>◌, Result, ok, err,
}
use enclave_developer.Prelude.Text.{Text, same, lower}
use enclave_developer.Prelude.Triples.{
  Triple, >>=-Triple, >>-Triple, pure-Triple, if-Triple, throw-Triple, get-Triple, Keeps-Triple,
  fail-Triple, assume-Triple, before-Triple, After,
}
use enclave_developer.Signer.World.{
  World, JournalRow, ContractCall, Wallet, SignerFault, ask, write,
}
use enclave_developer.Signer.Journal.{rows_of, is_row, reconcile_journal}
use enclave_developer.Signer.Journal.Steady.{Steady, signed, rows_of-All, ask-Keeps}
use enclave_developer.Signer.Journal.Rows.{SameSigned, Kept, Kept-Steady, reconcile_journal_same}
use enclave_developer.Signer.Durable.{
  SignerOptions, max_safe_integer, ends_before, has_key, row_or, insert, insert_row, reserve,
  record_call, committed, journal_call,
}
use enclave_developer.Signer.Durable.Records.{
  All-SameSigned, In, In-self, In-signed, find-All, Lower, ends_before-Lower,
}

module _ (wallet : Wallet) (opts : SignerOptions) (scope key : Text) where
  abbrev signer : Text
  signer = lower wallet.address

  -- A row for a new operation, with the next nonce.
  pub record IsNext (journal : List JournalRow) (row : JournalRow) : Type 0 where
    pub of_scope : row.scope ≡ scope
    pub of_key : row.operation_key ≡ key
    pub of_signer : row.signer ≡ signer
    pub fresh : find_first (has_key scope key) journal ≡ none
    pub lower_nonces : All (Lower scope signer row.nonce) journal

  -- The row was there, or it has been added.
  abbrev pub Recorded : List JournalRow → JournalRow → World → Type 0
  Recorded journal row w =
      (SameSigned w.journal journal × In journal row)
      ⊎ (SameSigned w.journal (journal ++ row ∷ []) × IsNext journal row)

  module _ (Good : JournalRow → Type 0) (X Y : World → Type 0) (st : Steady Good X)
      (grow : (w : World) (rows : List JournalRow) → X w → Y (record w { journal = rows }))
      (tick : (w : World) (n : ℕ) → Y w → Y (record w { clock = n })) (journal : List JournalRow)
      (call : ContractCall) where
    abbrev K : World → Type 0
    K = Kept wallet Good X st journal

    weak : (w : World) → X w → Y w
    weak w x = grow w w.journal x

    insert-Recorded :
        (row : JournalRow)
        → IsNext journal row
        → Triple K (insert wallet opts row) (λ r w. Recorded journal r w × Y w) Y
    unfolding insert write ◌>>◌ pure
    insert-Recorded row next = record {
      run = λ s (k, x). (
        inr (
          map-append signed s.journal (row ∷ [])
              ∙ cc k
              ∙ sym (map-append signed journal (row ∷ [])),
          next,
        ),
        grow s (s.journal ++ row ∷ []) x,
      );
    }

    insert_row-Recorded :
        (nonce : ℕ)
        → find_first (has_key scope key) journal ≡ none
        → All (Lower scope signer nonce) journal
        → Triple K
            (insert_row wallet opts scope key call nonce)
            (λ r w. Recorded journal r w × Y w)
            Y
    unfolding insert_row
    insert_row-Recorded nonce fresh below =
        >>=-Triple
          (Keeps-Triple (ask-Keeps wallet Good (Kept-Steady wallet Good X st journal) _)
            λ s h. weak s h.1)
          λ request. >>-Triple (Keeps-Triple (from_result-Keeps _) λ s h. weak s h.1) (
            >>=-Triple get-Triple λ w.
              before-Triple (λ s h. h.0)
                (insert-Recorded _ (record {
                  of_scope = refl;
                  of_key = refl;
                  of_signer = refl;
                  fresh = fresh;
                  lower_nonces = below;
                })))

    reserve-Recorded :
        (rows : List JournalRow)
        → find_first (has_key scope key) journal ≡ none
        → SameSigned rows (rows_of scope signer journal)
        → Triple K (reserve wallet opts scope key call rows) (λ r w. Recorded journal r w × Y w) Y
    unfolding reserve
    reserve-Recorded rows fresh e =
        >>=-Triple
          (Keeps-Triple (ask-Keeps wallet Good (Kept-Steady wallet Good X st journal) _)
            λ s h. weak s h.1)
          λ nonce.
            if-Triple (not (ends_before (last? rows) nonce))
              (λ gap. throw-Triple _ λ s h. weak s h.1)
              λ in_order.
                if-Triple (ltb max_safe_integer nonce) (λ big. throw-Triple _ λ s h. weak s h.1)
                  λ small.
                    insert_row-Recorded nonce fresh
                      (ends_before-Lower scope signer journal rows nonce e (ground arith))

    found_row-In :
        (row : JournalRow) (rows : List JournalRow)
        → In journal row
        → SameSigned rows (rows_of scope signer journal)
        → In journal (row_or (find_first (is_row row.id) rows) row)
    found_row-In row rows h e =
        let all_in =
          All-SameSigned (In journal) (In-signed journal) rows (rows_of scope signer journal) e
            (rows_of-All (In journal) scope signer journal (In-self journal)) in
        elim (Option-cases (find_first (is_row row.id) rows)) [
          | inl gone ↦ rw gone h
          | inr (r, found) ↦ rw found (find-All (In journal) (is_row row.id) rows all_in found)
        ]

    reconcile-Recorded :
        (depth : ℕ)
        → Triple
            (λ w. (w.journal ≡ journal) × X w)
            (reconcile_journal wallet scope signer depth)
            (λ out w. K w × SameSigned out.0 (rows_of scope signer journal))
            Y
    reconcile-Recorded depth =
        fail-Triple weak (reconcile_journal_same wallet Good X st journal scope signer depth)

    record_call-Recorded :
        (existing : Option JournalRow)
        → find_first (has_key scope key) journal ≡ existing
        → Triple
            (λ w. (w.journal ≡ journal) × X w)
            (record_call wallet opts scope key call existing)
            (λ r w. Recorded journal r w × Y w)
            Y
    unfolding record_call
    record_call-Recorded none e =
        >>=-Triple (Keeps-Triple (from_result-Keeps _) λ s h. weak s h.1) λ depth.
          >>=-Triple (reconcile-Recorded depth) λ out.
            assume-Triple (λ s h. h.1)
              λ same_rows. before-Triple (λ s h. h.0) (reserve-Recorded out.0 e same_rows)
    record_call-Recorded (some row) e =
        if-Triple
          (not (same row.request_hash (wallet.request_hash call)) || not (same row.signer signer))
          (λ reused. throw-Triple _ λ s h. weak s h.1)
          λ agrees. >>=-Triple (Keeps-Triple (from_result-Keeps _) λ s h. weak s h.1) λ depth.
            >>=-Triple (reconcile-Recorded depth) λ out. pure-Triple _ λ s (k, same_rows). (
              inl (
                k.0,
                found_row-In row out.0 (find-All (In journal) _ journal (In-self journal) e)
                    same_rows,
              ),
              weak s k.1,
            )

    asked :
        {A : Type 0} (row : JournalRow) (w : World) (r : Result SignerFault A) (n : ℕ)
        → Recorded journal row w
        → Y w
        → After (λ a v. Recorded journal row v × Y v) Y (r, record w { clock = n })
    asked row w (ok a) n h y = (h, tick w n y)
    asked row w (err e) n h y = tick w n y

    committed-Recorded :
        (row : JournalRow)
        → Triple
            (λ w. Recorded journal row w × Y w)
            (committed wallet opts row)
            (λ r w. Recorded journal r w × Y w)
            Y
    unfolding committed ask
    committed-Recorded row =
        >>=-Triple {Q = λ done w. Recorded journal row w × Y w}
          (record { run = λ w p. asked row w _ _ p.0 p.1 }) (λ done. pure-Triple row (λ w p. p))

    pub journal_call-Recorded :
        Triple
          (λ w. (w.journal ≡ journal) × X w)
          (journal_call wallet opts scope key call)
          (λ r w. Recorded journal r w × Y w)
          Y
    unfolding journal_call
    journal_call-Recorded = >>=-Triple get-Triple λ w.
        assume-Triple (λ s (h, e). sym (ap (λ x. x.journal) e) ∙ h.0)
          λ e.
            before-Triple (λ s h. h.0)
              (>>=-Triple
                (record_call-Recorded (find_first (has_key scope key) w.journal)
                  (ap (find_first (has_key scope key)) (sym e)))
                committed-Recorded)
