-- ===== src/Execution/Tests.antt =====
-- Runs of inference-execution.ts on a table of one claim, and the theorems at them.
use enclave_developer.Prelude.{
  ◌≡◌, refl, List, [], ◌∷◌, ◌++◌, none, ok, err, All, ◌>>=◌, ◌>>◌, pure, throw, ◌↔◌,
}
use enclave_developer.Prelude.Text.{Text, codes, same}
use enclave_developer.Execution.{
  Execution, ExecutionBinding, ExecutionFault, uncertain_inference, new_execution,
  claim_inference_execution, complete_inference_execution,
}
use enclave_developer.Execution.Claims.{
  IsApart, claim-IsApart, claim_once, complete_once, Step, claiming, completing, run,
}

abbrev binding : Text → ExecutionBinding
binding payment = record {
  payment_id = payment;
  key_hash = codes "owner";
  request_hash = codes "request";
  idempotency_key = none;
}

abbrev rows : List Execution
rows = new_execution (binding (codes "first")) (codes "c1") ∷ []

claim_run :
    (claim_inference_execution (binding (codes "second")) (codes "c2") rows).0 ≡ ok (codes "c2")
unfolding claim_inference_execution ◌>>=◌ ◌>>◌ pure throw same
claim_run = refl

claim-IsApart_example :
    (claim_inference_execution (binding (codes "second")) (codes "c2") rows
      ≡ (ok (codes "c2"), rows ++ new_execution (binding (codes "second")) (codes "c2") ∷ []))
    ↔ All (IsApart (binding (codes "second"))) rows
claim-IsApart_example = claim-IsApart (binding (codes "second")) (codes "c2") rows

abbrev later_steps : List Step
later_steps =
    claiming (binding (codes "second")) (codes "c4")
    ∷ completing (binding (codes "second")) (codes "c2") (codes "r")
    ∷ []

abbrev after_steps : List Execution
after_steps =
    run later_steps (claim_inference_execution (binding (codes "second")) (codes "c2") rows).1

claim_once_example :
    (f : ExecutionFault) × (claim_inference_execution
        (binding (codes "second"))
        (codes "c3")
        after_steps
      ≡ (err f, after_steps))
claim_once_example =
    claim_once (binding (codes "second")) (codes "c2") rows later_steps (binding (codes "second"))
      (codes "c3") refl claim_run

complete_once_example :
    (complete_inference_execution
      (binding (codes "first"))
      (codes "c1")
      (codes "s")
      (complete_inference_execution (binding (codes "first")) (codes "c1") (codes "r") rows).1).0
    ≡ err (uncertain_inference (codes "first"))
complete_once_example =
    complete_once (binding (codes "first")) (codes "c1") (codes "r") (codes "s") rows
