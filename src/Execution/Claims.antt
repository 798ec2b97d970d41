-- ===== src/Execution/Claims.antt =====
-- Claims and completions of inference-execution.ts on their table, one after the other.
use enclave_developer.Prelude.{
  ◌≡◌, refl, sym, ◌∙◌, ap, List, [], ◌∷◌, ◌++◌, Bool, true, false, All, any, keep_if, update_where,
  ◌||◌, Option, some, none, length, ◌==◌, Bool-cases, inl, inr, arith, ok, err, ◌>>=◌, ◌>>◌, pure,
  throw, ◌↔◌,
}
use enclave_developer.Prelude.Text.{Text, same, same_refl, same_iff}
use enclave_developer.Execution.{
  Execution, both_same, ExecutionBinding, ExecutionFault, uncertain_inference, conflicts,
  new_execution, claim_inference_execution, is_open, completion, complete_inference_execution,
}
use mathlib.Core.Path.{subst}

-- The row is of another payment, and of another owner or without the idempotency key.
abbrev pub IsApart : ExecutionBinding → Execution → Type 0
IsApart b r =
    ¬ (r.payment_id ≡ b.payment_id)
    × ((key : Text)
        → b.idempotency_key ≡ some key
        → r.key_hash ≡ b.key_hash
        → ¬ (r.idempotency_key ≡ some key))

both_same_iff :
    (s t : Option Text) → (both_same s t ≡ true) ↔ ((key : Text) × (t ≡ some key) × (s ≡ some key))
both_same_iff none none = (λ e. cc, λ (key, e, f). cc)
both_same_iff none (some t) = (λ e. cc, λ (key, e, f). cc)
both_same_iff (some s) none = (λ e. cc, λ (key, e, f). cc)
both_same_iff (some s) (some t) = (
  λ e. (t, refl, ap some ((same_iff s t).0 e)),
  λ (key, e, f). (same_iff s t).1 (let q : s ≡ t = cc in q),
)

conflicts-IsApart : (b : ExecutionBinding) (r : Execution) → (conflicts b r ≡ false) ↔ IsApart b r
conflicts-IsApart b r = (
  λ e. (
    λ p. absurd (let q = (same_iff r.payment_id b.payment_id).1 p in ground arith),
    λ key known owner taken. absurd (
        let q = (same_iff r.key_hash b.key_hash).1 owner in
        let k = (both_same_iff r.idempotency_key b.idempotency_key).1 (key, known, taken) in
        ground arith),
  ),
  λ (other, unused). elim (Bool-cases (conflicts b r)) [
    | inr miss ↦ miss
    | inl hit ↦ elim (Bool-cases (same r.payment_id b.payment_id)) [
      | inl paid ↦ absurd (other ((same_iff _ _).0 paid))
      | inr unpaid ↦
          let owner : same r.key_hash b.key_hash ≡ true = ground arith in
          let keys : both_same r.idempotency_key b.idempotency_key ≡ true = ground arith in
          let (key, known, taken) = (both_same_iff _ _).0 keys in
          absurd (unused key known ((same_iff _ _).0 owner) taken)
    ]
  ],
)

any-IsApart :
    (b : ExecutionBinding) (rows : List Execution)
    → (any (conflicts b) rows ≡ false) ↔ All (IsApart b) rows
any-IsApart b [] = (λ e. tt, λ h. refl)
any-IsApart b (r ∷ rows) = (
  λ e. ((conflicts-IsApart b r).0 (ground arith), (any-IsApart b rows).0 (ground arith)),
  λ (p, h). let x = (conflicts-IsApart b r).1 p in let y = (any-IsApart b rows).1 h in ground arith,
)

-- A claim returns and adds its own row, and nothing else, exactly if every row is of another
-- payment, and of another owner or without the idempotency key of the claim.
pub claim-IsApart :
    (b : ExecutionBinding) (claim : Text) (rows : List Execution)
    → (claim_inference_execution b claim rows ≡ (ok claim, rows ++ new_execution b claim ∷ []))
      ↔ All (IsApart b) rows
unfolding claim_inference_execution ◌>>=◌ ◌>>◌ pure throw
claim-IsApart b claim rows = (
  λ e. (any-IsApart b rows).0 (elim (Bool-cases (any (conflicts b) rows)) [
    | inl taken ↦ absurd (ground (arith, ap (λ x. x.0) e))
    | inr free ↦ free
  ]),
  λ h. rw ((any-IsApart b rows).1 h) refl,
)

any_last :
    (p : Execution → Bool) (rows : List Execution) (r : Execution)
    → any p rows || p r ≡ any p (rows ++ r ∷ [])
any_last p [] r = ground arith
any_last p (x ∷ rows) r = let h = any_last p rows r in ground arith

-- A row of the payment is there.
abbrev IsTaken : Text → List Execution → Type 0
IsTaken payment rows = any (λ r. same r.payment_id payment) rows ≡ true

update-IsTaken :
    (payment : Text) (p : Execution → Bool) (receipt : Text) (rows : List Execution)
    → IsTaken payment rows
    → IsTaken payment (update_where p (completion receipt) rows)
update-IsTaken payment p receipt [] h = h
update-IsTaken payment p receipt (r ∷ rows) h = elim (Bool-cases (p r)) [
  | inl hit ↦ rw hit (ground (arith, update-IsTaken payment p receipt rows))
  | inr miss ↦ rw miss (ground (arith, update-IsTaken payment p receipt rows))
]

IsTaken-conflicts :
    (b : ExecutionBinding) (rows : List Execution)
    → IsTaken b.payment_id rows
    → any (conflicts b) rows ≡ true
IsTaken-conflicts b [] h = h
IsTaken-conflicts b (r ∷ rows) h = ground (arith, IsTaken-conflicts b rows)

claim-eq-err :
    (b : ExecutionBinding) (claim : Text) (rows : List Execution)
    → any (conflicts b) rows ≡ true
    → (f : ExecutionFault) × (claim_inference_execution b claim rows ≡ (err f, rows))
unfolding claim_inference_execution ◌>>=◌ ◌>>◌ throw
claim-eq-err b claim rows e = rw e (_, refl)

complete_rows :
    (b : ExecutionBinding) (claim receipt : Text) (rows : List Execution)
    → (complete_inference_execution b claim receipt rows).1
      ≡ update_where (is_open b claim) (completion receipt) rows
unfolding complete_inference_execution ◌>>=◌ ◌>>◌ pure throw
complete_rows b claim receipt rows =
    elim (Bool-cases (length (keep_if (is_open b claim) rows) == 1)) [
      | inl one ↦ rw one refl
      | inr other ↦ rw other refl
    ]

pub data Step : Type 0 where
  claiming : ExecutionBinding → Text → Step
  completing : ExecutionBinding → Text → Text → Step

-- The rows after a call, however it ends.
abbrev step : Step → List Execution → List Execution
step (claiming b claim) rows = (claim_inference_execution b claim rows).1
step (completing b claim receipt) rows = (complete_inference_execution b claim receipt rows).1

abbrev pub run : List Step → List Execution → List Execution
run [] rows = rows
run (s ∷ steps) rows = run steps (step s rows)

claim-IsTaken :
    (payment : Text) (b : ExecutionBinding) (claim : Text) (rows : List Execution)
    → IsTaken payment rows
    → IsTaken payment (claim_inference_execution b claim rows).1
unfolding claim_inference_execution ◌>>=◌ ◌>>◌ pure throw
claim-IsTaken payment b claim rows h = elim (Bool-cases (any (conflicts b) rows)) [
  | inl taken ↦ rw taken h
  | inr free ↦ rw free (
      let e = any_last (λ r. same r.payment_id payment) rows (new_execution b claim) in
      ground arith)
]

run-IsTaken :
    (payment : Text) (steps : List Step) (rows : List Execution)
    → IsTaken payment rows
    → IsTaken payment (run steps rows)
run-IsTaken payment [] rows h = h
run-IsTaken payment (claiming b claim ∷ steps) rows h =
    run-IsTaken payment steps _ (claim-IsTaken payment b claim rows h)
run-IsTaken payment (completing b claim receipt ∷ steps) rows h = run-IsTaken payment steps _ (
    rw (complete_rows b claim receipt rows)
      (update-IsTaken payment (is_open b claim) receipt rows h))

made-IsTaken :
    (b : ExecutionBinding) (claim : Text) (rows : List Execution) {id : Text}
    → (claim_inference_execution b claim rows).0 ≡ ok id
    → IsTaken b.payment_id (claim_inference_execution b claim rows).1
unfolding claim_inference_execution ◌>>=◌ ◌>>◌ pure throw
made-IsTaken b claim rows e = elim (Bool-cases (any (conflicts b) rows)) [
  | inl taken ↦ absurd (ground arith)
  | inr free ↦ rw free (
      let l = any_last (λ r. same r.payment_id b.payment_id) rows (new_execution b claim) in
      let q = same_refl b.payment_id in ground arith)
]

-- Once a claim of a payment has been made, then after any sequence of further claims and
-- completions, also none, a claim of the same payment throws and changes nothing, whatever request
-- it names.
pub claim_once :
    (b : ExecutionBinding) (claim : Text) (rows : List Execution) (steps : List Step)
    (again : ExecutionBinding) (other : Text) {id : Text}
    → again.payment_id ≡ b.payment_id
    → (claim_inference_execution b claim rows).0 ≡ ok id
    → (f : ExecutionFault) × (claim_inference_execution again other
          (run steps (claim_inference_execution b claim rows).1)
        ≡ (err f, run steps (claim_inference_execution b claim rows).1))
claim_once b claim rows steps again other p e = claim-eq-err again other _ (
    IsTaken-conflicts again _ (
      subst (λ x. IsTaken x (run steps (claim_inference_execution b claim rows).1)) (sym p)
        (run-IsTaken b.payment_id steps _ (made-IsTaken b claim rows e))))

closed :
    (b : ExecutionBinding) (claim receipt : Text) (r : Execution)
    → is_open b claim (completion receipt r) ≡ false
closed b claim receipt r = ground arith

none_open :
    (b : ExecutionBinding) (claim receipt : Text) (rows : List Execution)
    → keep_if (is_open b claim) (update_where (is_open b claim) (completion receipt) rows) ≡ []
none_open b claim receipt [] = refl
none_open b claim receipt (r ∷ rows) = elim (Bool-cases (is_open b claim r)) [
  | inl hit ↦ rw (hit, closed b claim receipt r) (none_open b claim receipt rows)
  | inr miss ↦ rw (miss, miss) (none_open b claim receipt rows)
]

complete-eq-err :
    (b : ExecutionBinding) (claim receipt : Text) (rows : List Execution)
    → keep_if (is_open b claim) rows ≡ []
    → (complete_inference_execution b claim receipt rows).0 ≡ err (uncertain_inference b.payment_id)
unfolding complete_inference_execution ◌>>=◌ ◌>>◌ throw
complete-eq-err b claim receipt rows e = rw e refl

-- After `completeInferenceExecution`, completing the same claim again throws, whatever receipt it
-- names.
pub complete_once :
    (b : ExecutionBinding) (claim receipt receipt' : Text) (rows : List Execution)
    → (complete_inference_execution b claim receipt'
        (complete_inference_execution b claim receipt rows).1).0
      ≡ err (uncertain_inference b.payment_id)
complete_once b claim receipt receipt' rows = complete-eq-err b claim receipt' _ (
    ap (keep_if (is_open b claim)) (complete_rows b claim receipt rows)
    ∙ none_open b claim receipt rows)
