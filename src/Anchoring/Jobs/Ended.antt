-- ===== src/Anchoring/Jobs/Ended.antt =====
-- `recoverReceiptJobs` of _backend/apps/worker/src/jobs.ts ends, and what it then has added.
use enclave_developer.Anchoring.Recovery.{first_of}
use enclave_developer.Prelude.{
  ℕ, List, Option, keep_if, ◌<◌, ◌∷◌, [], length, none, some, suc, ◌≡◌, arith, drop, refl, each,
  ltb, ◌++◌, ◌≤◌, ◌⊎◌, false, true, zero, ◌+◌, inl, Bool-cases, ◌∙◌, inr, sym, pure, ap, Bool,
}
use mathlib.Core.List.{append_assoc, append-nil}
use enclave_developer.Prelude.Text.{Text}
use enclave_developer.Anchoring.{ReceiptRow}
use enclave_developer.Anchoring.Jobs.{
  Queue, JobWorld, JobState, recover_pages, add_job, added_state, after_add, ask_add, retry_job,
  other_job, completed_job, QueueCall, is_due, QueueFault, recover_receipt_jobs,
}
use enclave_developer.Anchoring.Jobs.Pages.{Ascending, next_page, open_rows}
use enclave_developer.Prelude.Triples.{
  After, Triple, >>=-Triple, pure-Triple, >>-Triple, map-Triple, if-Triple,
}
use mathlib.Core.Path.{subst}

abbrev pub hashes : List ReceiptRow → List Text
hashes [] = []
hashes (r ∷ rows) = r.typed_hash ∷ hashes rows

hashes-++ : (rows more : List ReceiptRow) → hashes (rows ++ more) ≡ hashes rows ++ hashes more
hashes-++ [] more = refl
hashes-++ (r ∷ rows) more = rw (hashes-++ rows more) refl

-- A page that is not full is the last one.
short_page :
    (n : ℕ) (rows : List ReceiptRow)
    → ltb (length (first_of n rows)) n ≡ true
    → first_of n rows ≡ rows
short_page zero rows h = absurd (ground arith)
short_page (suc n) [] h = refl
short_page (suc n) (r ∷ rows) h = rw (short_page n rows (ground arith)) refl

full_page :
    (n : ℕ) (rows : List ReceiptRow) → ltb (length (first_of n rows)) n ≡ false → n ≤ length rows
full_page zero rows h = omega arith
full_page (suc n) [] h = ground arith
full_page (suc n) (r ∷ rows) h =
    let k : n ≤ length rows = full_page n rows (ground arith) in omega arith

page_rest : (n : ℕ) (rows : List ReceiptRow) → first_of n rows ++ drop n rows ≡ rows
page_rest zero rows = refl
page_rest (suc n) [] = refl
page_rest (suc n) (r ∷ rows) = rw (page_rest n rows) refl

page_length :
    (n : ℕ) (rows : List ReceiptRow)
    → n ≤ length rows
    → (length (first_of n rows) ≡ n) × (length rows ≡ n + length (drop n rows))
page_length zero rows h = (refl, omega arith)
page_length (suc n) [] h = absurd (omega arith)
page_length (suc n) (r ∷ rows) h =
    let (e, k) = page_length n rows (omega arith) in (ground arith, omega arith)

module _ (queue : Queue) where
  -- A call of the queue threw.
  abbrev pub Threw : Type 0
  Threw =
      ((t : ℕ) × (h : Text) × (queue.add t h ≡ none))
      ⊎ ((t : ℕ) × (h : Text) × (queue.retry t h ≡ false))

  abbrev Added : List Text → JobWorld → Type 0
  Added b w = w.added ≡ b

  Added-After :
      (h : Text) (b : List Text) (w : JobWorld) (o : Option JobState)
      → queue.add w.clock h ≡ o
      → Added b w
      → After (λ s. Added (b ++ h ∷ [])) (λ v. Threw) (added_state queue h w o)
  unfolding added_state
  Added-After h b w none e p = inl (w.clock, h, e)
  Added-After h b w (some s) e p = rw p refl

  ask_add-Triple :
      (h : Text) (b : List Text)
      → Triple (Added b) (ask_add queue h) (λ s. Added (b ++ h ∷ [])) (λ v. Threw)
  unfolding ask_add
  ask_add-Triple h b = record { run = λ w p. Added-After h b w (queue.add w.clock h) refl p }

  after_add-Triple :
      (h : Text) (b : List Text) (s : JobState)
      → Triple (Added b) (after_add queue h s) (λ x. Added b) (λ v. Threw)
  unfolding after_add retry_job
  after_add-Triple h b other_job = pure-Triple tt (λ w p. p)
  after_add-Triple h b completed_job = record {
    run = λ w p. elim (Bool-cases (queue.retry w.clock h)) [
      | inl e ↦ rw e p
      | inr e ↦ rw e (inr (w.clock, h, e))
    ];
  }

  add_job-Triple :
      (r : ReceiptRow) (b : List Text)
      → Triple (Added b) (add_job queue r) (λ x. Added (b ++ r.typed_hash ∷ [])) (λ v. Threw)
  unfolding add_job
  add_job-Triple r b = >>=-Triple (ask_add-Triple r.typed_hash b) (after_add-Triple r.typed_hash _)

  each-Triple :
      (rows : List ReceiptRow) (b : List Text)
      → Triple (Added b) (each (add_job queue) rows) (λ x. Added (b ++ hashes rows)) (λ v. Threw)
  unfolding each
  each-Triple [] b = pure-Triple tt (λ w p. p ∙ sym (append-nil b))
  each-Triple (r ∷ rows) b =
      >>-Triple (add_job-Triple r b)
        (map-Triple (λ x w p. p ∙ append_assoc b _ _) (each-Triple rows (b ++ r.typed_hash ∷ [])))

  -- The loop returns, and adds a job for each of the due rows.
  abbrev Returns : List ReceiptRow → List Text → ℕ → QueueCall (Option ℕ) → Type 0
  Returns due b recovered m =
      Triple (Added b) m (λ o w. (o ≡ some (recovered + length due)) × Added (b ++ hashes due) w)
        (λ v. Threw)

  last_page :
      (n recovered : ℕ) (b : List Text) (due : List ReceiptRow)
      → ltb (length (first_of n due)) n ≡ true
      → Triple {E = QueueFault}
          (Added (b ++ hashes (first_of n due)))
          (pure (some (recovered + length (first_of n due))))
          (λ o w. (o ≡ some (recovered + length due)) × Added (b ++ hashes due) w)
          (λ v. Threw)
  last_page n recovered b due h = rw (short_page n due h) (pure-Triple _ (λ w p. (refl, p)))

  page-Returns :
      (n recovered : ℕ) (b : List Text) (due : List ReceiptRow) (rest : QueueCall (Option ℕ))
      → n ≤ length due
      → Returns
          (drop n due)
          (b ++ hashes (first_of n due))
          (recovered + length (first_of n due))
          rest
      → Triple
          (Added (b ++ hashes (first_of n due)))
          rest
          (λ o w. (o ≡ some (recovered + length due)) × Added (b ++ hashes due) w)
          (λ v. Threw)
  page-Returns n recovered b due rest h k =
      let (e, l) = page_length n due h in
      map-Triple
        (λ o w (p, q). (
          p ∙ ap some (omega arith),
          q
              ∙ append_assoc b _ _
              ∙ ap (λ x. b ++ x)
                  (sym (hashes-++ (first_of n due) (drop n due)) ∙ ap hashes (page_rest n due)),
        ))
        k

  recover_pages-Returns :
      (n fuel : ℕ) (rows : List ReceiptRow) (after_id : Option ℕ) (recovered : ℕ) (b : List Text)
      → Ascending rows
      → length (keep_if (is_due after_id) rows) < fuel
      → Returns
          (keep_if (is_due after_id) rows)
          b
          recovered
          (recover_pages queue (suc n) fuel rows after_id recovered)
  unfolding recover_pages
  recover_pages-Returns n zero rows after_id recovered b a h = absurd (omega arith)
  recover_pages-Returns n (suc fuel) rows after_id recovered b a h =
      let due = keep_if (is_due after_id) rows in
      let c = b ++ hashes (first_of (suc n) due) in
      let done = recovered + length (first_of (suc n) due) in
      >>-Triple (each-Triple (first_of (suc n) due) b) (
        if-Triple _ (last_page (suc n) recovered b due) (λ full.
          let k : suc n ≤ length due = full_page (suc n) due full in
          let (z, e, left) = next_page after_id rows a n (omega arith) in
          let (p, l) = page_length (suc n) due k in
          page-Returns (suc n) recovered b due _ k (
            subst
              (λ id.
                Returns (drop (suc n) due) c done (recover_pages queue (suc n) fuel rows id done))
              (sym e)
              (subst (λ x. Returns x c done (recover_pages queue (suc n) fuel rows (some z) done))
                left
                (recover_pages-Returns n fuel rows (some z) done c a
                  (subst (λ x. length x < fuel) (sym left) (omega arith)))))))

  kept_length :
      (p : ReceiptRow → Bool) (rows : List ReceiptRow) → length (keep_if p rows) ≤ length rows
  kept_length p [] = omega arith
  kept_length p (r ∷ rows) = elim (Bool-cases (p r)) [
    | inl e ↦ rw e (let k = kept_length p rows in omega arith)
    | inr e ↦ rw e (let k = kept_length p rows in omega arith)
  ]

  -- If the rows stand in the order of their ids, each id once, the fuel of `recoverReceiptJobs`
  -- suffices: it returns the number of the open receipts and has added one job for each of them,
  -- in their order, or a call of the queue has thrown.
  pub recover_receipt_jobs_ends :
      (rows : List ReceiptRow) (w : JobWorld)
      → Ascending rows
      → After
          (λ recovered v.
            (recovered ≡ some (length (open_rows rows)))
            × (v.added ≡ w.added ++ hashes (open_rows rows)))
          (λ v. Threw)
          (recover_receipt_jobs queue rows w)
  unfolding recover_receipt_jobs
  recover_receipt_jobs_ends rows w a =
      let k = kept_length (is_due none) rows in
      (map-Triple
          {Q = λ o v.
            (o ≡ some (0 + length (open_rows rows))) × Added (w.added ++ hashes (open_rows rows)) v}
          (λ o v (p, q). (p ∙ ap some (omega arith), q))
          (recover_pages-Returns 499 (suc (length rows)) rows none 0 w.added a (omega arith))).run
        w refl
