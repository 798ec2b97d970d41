-- ===== src/Anchoring/Recovery/Kept.antt =====
-- Calls of _backend/apps/worker/src/anchorer.ts and receipt-recovery.ts in any order, against what
-- the chain answered.
use enclave_developer.Prelude.{
  ℕ, List, Option, Keeps, >>=-Keeps, All, [], pure-Keeps, get-Keeps, if-Keeps, some, update_where,
  ◌∷◌, >>-Keeps, none, Bool-cases, inl, inr,
}
use enclave_developer.Signer.World.{broken, absent, found, Lookup, Receipt}
use enclave_developer.Anchoring.{
  Anchorer, ReceiptRow, ReceiptStatus, World, anchor_receipt, write, anchoring, anchor_failed,
}
use enclave_developer.Anchoring.Recovery.{
  reconcile_anchored_receipts, apply_verdict, judge_proof, read_chain, recheck,
  reconcile_configured, reconcile_page, reconcile_rows, restate, Verdict, reconcile_row, is_still,
  unchanged, reopened, refuted,
}
use enclave_developer.Prelude.Text.{Text}
use enclave_developer.Anchoring.Proven.{
  AllProven, ProvenAs, anchor_receipt-AllProven, signing-Keeps,
}

module _ (a : Anchorer) where
  restated :
      (r : ReceiptRow) (s : ReceiptStatus)
      → ((q : ReceiptRow) → ProvenAs a (record q { status = s }) s)
      → (rows : List ReceiptRow) → All (λ (q : ReceiptRow). ProvenAs a q q.status) rows
      → All
          (λ (q : ReceiptRow). ProvenAs a q q.status)
          (update_where (is_still a r) (λ q. record q { status = s }) rows)
  restated r s k [] p = tt
  restated r s k (q ∷ rows) (p, h) = elim (Bool-cases (is_still a r q)) [
    | inl hit ↦ rw hit (k q, restated r s k rows h)
    | inr miss ↦ rw miss (p, restated r s k rows h)
  ]

  restate-Keeps :
      (r : ReceiptRow) (s : ReceiptStatus)
      → ((q : ReceiptRow) → ProvenAs a (record q { status = s }) s)
      → Keeps (AllProven a) (restate a r s)
  unfolding restate write
  restate-Keeps r s k =
      >>=-Keeps get-Keeps
        (λ w. >>-Keeps (record { keep = λ v p. restated r s k v.receipts p }) (pure-Keeps _))

  apply-Keeps : (r : ReceiptRow) (v : Verdict) → Keeps (AllProven a) (apply_verdict a r v)
  unfolding apply_verdict
  apply-Keeps r unchanged = pure-Keeps 0
  apply-Keeps r reopened = restate-Keeps r anchoring (λ q. tt)
  apply-Keeps r refuted = restate-Keeps r anchor_failed (λ q. tt)

  read_chain-Keeps : {A : Type 0} (f : ℕ → A) → Keeps (AllProven a) (read_chain a f)
  unfolding read_chain
  read_chain-Keeps f = record { keep = λ w p. p }

  judge_proof-Keeps :
      (verifier : Text) (r : ReceiptRow) (head : ℕ) (hash : Text) (proof : Lookup Receipt)
      → Keeps (AllProven a) (judge_proof a verifier r head hash proof)
  unfolding judge_proof
  judge_proof-Keeps verifier r head hash broken = pure-Keeps _
  judge_proof-Keeps verifier r head hash absent = pure-Keeps _
  judge_proof-Keeps verifier r head hash (found proof) =
      if-Keeps _ (>>=-Keeps (read_chain-Keeps _) (λ block. pure-Keeps _)) (pure-Keeps _)

  recheck-Keeps :
      (verifier scope : Text) (r : ReceiptRow) (head : ℕ) (tx : Option Text)
      → Keeps (AllProven a) (recheck a verifier scope r head tx)
  unfolding recheck
  recheck-Keeps verifier scope r head none = pure-Keeps _
  recheck-Keeps verifier scope r head (some hash) = >>=-Keeps get-Keeps (λ w.
      if-Keeps _ (pure-Keeps _)
        (>>=-Keeps (read_chain-Keeps _) (λ proof. judge_proof-Keeps verifier r head hash proof)))

  rows-Keeps :
      (verifier scope : Text) (head : ℕ) (rows : List ReceiptRow)
      → Keeps (AllProven a) (reconcile_rows a verifier scope head rows)
  unfolding reconcile_rows reconcile_row
  rows-Keeps verifier scope head [] = pure-Keeps 0
  rows-Keeps verifier scope head (r ∷ rows) =
      >>=-Keeps
        (if-Keeps _
          (>>=-Keeps (recheck-Keeps verifier scope r head r.anchored_tx) (λ v. apply-Keeps r v))
          (pure-Keeps 0))
        (λ n. >>=-Keeps (rows-Keeps verifier scope head rows) (λ m. pure-Keeps _))

  page-Keeps :
      (verifier : Text) (after_id : Option ℕ)
      → Keeps (AllProven a) (reconcile_page a verifier after_id)
  unfolding reconcile_page
  page-Keeps verifier after_id = >>=-Keeps (signing-Keeps a _) (λ scope.
      >>=-Keeps (signing-Keeps a _) (λ head.
        >>=-Keeps get-Keeps
          (λ w. >>=-Keeps (rows-Keeps verifier scope head _) (λ changed. pure-Keeps _))))

  configured-Keeps :
      (v : Option Text) (after_id : Option ℕ)
      → Keeps (AllProven a) (reconcile_configured a v after_id)
  unfolding reconcile_configured
  configured-Keeps none after_id = pure-Keeps _
  configured-Keeps (some verifier) after_id =
      if-Keeps _ (page-Keeps verifier after_id) (pure-Keeps _)

  -- A job of the queue, or a tick of the recovery.
  pub data Work : Type 0 where
    anchor_job : Option Text → Work
    recovery_tick : Option ℕ → Work

  unfoldable pub work_all : List Work → World → World
  work_all [] w = w
  work_all (anchor_job h ∷ rest) w = work_all rest (anchor_receipt a h w).1
  work_all (recovery_tick after_id ∷ rest) w =
      work_all rest (reconcile_anchored_receipts a after_id w).1

  reconcile-Keeps :
      (after_id : Option ℕ) → Keeps (AllProven a) (reconcile_anchored_receipts a after_id)
  unfolding reconcile_anchored_receipts
  reconcile-Keeps after_id = configured-Keeps a.verifier after_id

  -- If every receipt that is marked as anchored has a successful transaction receipt that the
  -- chain answered, of its transaction, with an event of the configured verifier that decodes to
  -- the hash of the receipt, then this holds after any sequence of anchoring jobs and recovery
  -- ticks, however each of them ends.
  pub work_all-AllProven :
      (works : List Work) (w : World) → AllProven a w → AllProven a (work_all works w)
  unfolding work_all
  work_all-AllProven [] w p = p
  work_all-AllProven (anchor_job h ∷ rest) w p =
      work_all-AllProven rest (anchor_receipt a h w).1 (anchor_receipt-AllProven a h w p)
  work_all-AllProven (recovery_tick after_id ∷ rest) w p =
      work_all-AllProven rest (reconcile_anchored_receipts a after_id w).1
        ((reconcile-Keeps after_id).keep w p)
