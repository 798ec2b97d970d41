-- ===== src/Cvm/Infer/Kept.antt =====
-- `infer` of _backend/packages/core/src/cvm.ts leaves the enclave as it was.
use enclave_developer.Cvm.{Cvm, Crypto, NearResult, CvmFault, guard}
use enclave_developer.Cvm.Infer.{
  infer, InferenceContext, answer, ask_adapter, ask_verified, backend_output, infer_with,
  ordinary_output, verify_inference, with_proof,
}
use enclave_developer.Prelude.{
  ℕ, ◌≡◌, ◌+◌, ap, refl, Bool, Option, some, none, >>=-Keeps, Keeps, get-Keeps, if-Keeps,
  pure-Keeps, throw-Keeps, >>-Keeps, keeps,
}
use enclave_developer.Prelude.Text.{Text}
use enclave_developer.Cvm.Near.{Bytes, Transcript}
use enclave_developer.Receipt.{SignedReceipt}
use enclave_developer.Receipt.Proof.{ProviderProof}

-- The enclave is as it was, but for its number of calls.
abbrev pub Unmoved : Cvm → Cvm → Type 0
Unmoved start c = (n : ℕ) × (c ≡ record start { calls = n })

module _ (crypto : Crypto) (start : Cvm) where
  guard-Keeps : (b : Bool) (e : CvmFault) → Keeps (Unmoved start) (guard b e)
  guard-Keeps b e = if-Keeps b (pure-Keeps tt) (throw-Keeps e)

  ask_adapter-Keeps :
      {A : Type 0} (adapter : ℕ → Bytes → Option A) (input : Bytes)
      → Keeps (Unmoved start) (ask_adapter crypto adapter input)
  unfolding ask_adapter
  ask_adapter-Keeps adapter input = record {
    keep =
        λ c (n, e). (c.calls + 1, ap {A = Cvm} {B = Cvm} (λ x. record x { calls = c.calls + 1 }) e);
  }

  ask_verified-Keeps :
      (c : Cvm) (input : Bytes) (completed : ℕ) (prompt : Option Text)
      (adapter : ℕ → Bytes → Option NearResult)
      → Keeps (Unmoved start) (ask_verified crypto c input completed prompt adapter)
  unfolding ask_verified
  ask_verified-Keeps c input completed none adapter = throw-Keeps _
  ask_verified-Keeps c input completed (some prompt) adapter =
      >>=-Keeps (ask_adapter-Keeps adapter input) (λ r. >>-Keeps (guard-Keeps _ _) (
        >>-Keeps (guard-Keeps _ _)
          (>>-Keeps (guard-Keeps _ _) (>>-Keeps (guard-Keeps _ _) (pure-Keeps r)))))

  verify_inference-Keeps :
      (c : Cvm) (input : Bytes) (completed : ℕ) (adapter : Option (ℕ → Bytes → Option NearResult))
      → Keeps (Unmoved start) (verify_inference crypto c input completed adapter)
  unfolding verify_inference
  verify_inference-Keeps c input completed none = pure-Keeps none
  verify_inference-Keeps c input completed (some adapter) = search (keeps, ask_verified-Keeps)

  ordinary-Keeps :
      (key input : Bytes) (adapter : Option (ℕ → Bytes → Option Bytes))
      → Keeps (Unmoved start) (ordinary_output crypto key input adapter)
  unfolding ordinary_output
  ordinary-Keeps key input none = pure-Keeps _
  ordinary-Keeps key input (some adapter) = ask_adapter-Keeps adapter input

  backend-Keeps :
      (c : Cvm) (key input : Bytes) (r : Option NearResult)
      → Keeps (Unmoved start) (backend_output crypto c key input r)
  unfolding backend_output
  backend-Keeps c key input none = ordinary-Keeps key input c.config.inference
  backend-Keeps c key input (some r) = pure-Keeps _

  with_proof-Keeps :
      (output : Bytes) (receipt : SignedReceipt) (t : Transcript) (proof : Option ProviderProof)
      → Keeps (Unmoved start) (with_proof crypto output receipt t proof)
  unfolding with_proof
  with_proof-Keeps output receipt t none = throw-Keeps _
  with_proof-Keeps output receipt t (some proof) = pure-Keeps _

  answer-Keeps :
      (c : Cvm) (output : Bytes) (receipt : SignedReceipt) (r : Option NearResult)
      → Keeps (Unmoved start) (answer crypto c output receipt r)
  unfolding answer
  answer-Keeps c output receipt none = pure-Keeps _
  answer-Keeps c output receipt (some r) = with_proof-Keeps output receipt r.transcript _

  infer_with-Keeps :
      (c : Cvm) (key : Option Bytes) (input : Bytes) (context : InferenceContext) (nonce : Text)
      (now elapsed : ℕ)
      → Keeps (Unmoved start) (infer_with crypto c key input context nonce now elapsed)
  unfolding infer_with
  infer_with-Keeps c none input context nonce now elapsed = throw-Keeps _
  infer_with-Keeps c (some key) input context nonce now elapsed = >>-Keeps (guard-Keeps _ _) (
      >>-Keeps (guard-Keeps _ _) (
        >>-Keeps (guard-Keeps _ _) (
          >>-Keeps (guard-Keeps _ _) (
            >>-Keeps (guard-Keeps _ _) (
              >>=-Keeps (verify_inference-Keeps c input _ _) (λ r. >>-Keeps (guard-Keeps _ _) (
                >>=-Keeps (backend-Keeps c key input r) (λ output. answer-Keeps c output _ r))))))))

  pub infer-Unmoved :
      (input : Bytes) (context : InferenceContext) (drawn : Text) (now elapsed : ℕ)
      → Unmoved start (infer crypto input context drawn now elapsed start).1
  unfolding infer
  infer-Unmoved input context drawn now elapsed =
      (>>=-Keeps get-Keeps (λ d. infer_with-Keeps d d.model_key input context _ now elapsed)).keep
        start (start.calls, refl)
