-- ===== src/Cvm/Infer.antt =====
-- `infer` of _backend/packages/core/src/cvm.ts.
pub mod Kept
pub mod Reached
pub mod Bound
pub mod Secrets
use enclave_developer.Cvm.{
  Cvm, Call, Crypto, NearResult, guard, bad_input, is_managed, key_not_released, evidence_mismatch,
  bad_result, evidence_not_fresh, input_mismatch, attestation_unknown, bad_nonce, bad_timestamp,
  needs_verified_adapter, no_evidence,
}
use enclave_developer.Receipt.Proof.{ProviderProof, sign_provider_proof}
use enclave_developer.Cvm.Near.{verify_near_transcript, Bytes, RequestBody, Transcript, sha256_hex}
use enclave_developer.Prelude.Text.{Text, same, is_hex, lower}
use enclave_developer.Prelude.{
  Bool, List, Option, ℕ, false, none, not, pure, some, throw, true, ◌>>=◌, get, leb, ok, ◌&&◌, ◌++◌,
  ◌∷◌, [], err, length, ◌+◌, ◌>>◌, ◌||◌, ltb, any, ◌/◌, ◌^◌,
}
use enclave_developer.Tcb.Policy.{max_safe_integer}
use enclave_developer.Receipt.{SignedReceipt, sign_receipt, ReceiptVersion}

pub record InferenceContext : Type 0 where
  pub att_ref : Text
  pub nonce : Option Text
  pub receipt_timestamp : Option ℕ

pub record Answer : Type 0 where
  pub output : Bytes
  pub receipt : SignedReceipt
  pub provider_proof : Option ProviderProof
  pub provider_transcript : Option Transcript

abbrev or_else {ℓ} : {A : Type ℓ} → Option A → A → A
or_else none b = b
or_else (some a) b = a

abbrev is_present {ℓ} : {A : Type ℓ} → Option A → Bool
is_present none = false
is_present (some a) = true

-- A managed gateway has an adapter with evidence and no other.
abbrev is_ready : Cvm → Bool
is_ready c =
    not (is_managed c.mode)
    || (is_present c.config.verified_inference && not (is_present c.config.inference))

abbrev pub is_fresh : Option ℕ → Option ℕ → ℕ → Bool
is_fresh (some issued) (some expires) completed =
    leb completed max_safe_integer
    && leb issued (completed + 30_000)
    && ltb completed expires
    && ltb issued expires
is_fresh issued expires completed = false

abbrev first_message : List (Text × Text) → Option Text
first_message [] = none
first_message (m ∷ rest) = some m.1

abbrev asks : Option RequestBody → Text → Bool
asks none prompt = false
asks (some r) prompt = elim (first_message r.messages) [
  | none ↦ false
  | some content ↦ same content prompt
]

module _ (crypto : Crypto) where
  abbrev has_small_proof : Option Text → Bool
  has_small_proof none = true
  has_small_proof (some proof) = leb (length (crypto.platform.utf8 proof)) 4_194_304

  -- The evidence is about this model and this output, and the provider signed the transcript.
  abbrev pub is_matching : Cvm → NearResult → Bool
  is_matching c r =
      same r.evidence.model c.config.model_id
      && same r.evidence.output_hash (sha256_hex crypto.platform r.output)
      && verify_near_transcript crypto.platform r.evidence r.transcript

  -- Both texts are dates, as the check of the transcript has found.
  abbrev pub is_fresh_at : ℕ → NearResult → Bool
  is_fresh_at completed r =
      is_fresh (crypto.platform.parse_date r.evidence.verified_at)
        (crypto.platform.parse_date r.evidence.expires_at) completed

  abbrev pub is_about : NearResult → Text → Bool
  is_about r prompt = asks (crypto.platform.parse_request r.transcript.request_body) prompt

  -- A call of an adapter.
  ask_adapter : {A : Type 0} → (ℕ → Bytes → Option A) → Bytes → Call A
  ask_adapter adapter input c = (
    elim (adapter c.calls input) [ some a ↦ ok a | none ↦ err bad_result ],
    record c { calls = c.calls + 1 },
  )

  ask_verified : Cvm → Bytes → ℕ → Option Text → (ℕ → Bytes → Option NearResult) → Call NearResult
  unfolding ask_adapter
  ask_verified c input completed none adapter = throw bad_input
  ask_verified c input completed (some prompt) adapter = do
    r ← ask_adapter adapter input
    guard (has_small_proof r.transcript.attestation_proof) bad_result
    guard (is_matching c r) evidence_mismatch
    guard (not (is_managed c.mode) || is_fresh_at completed r) evidence_not_fresh
    guard (is_about r prompt) input_mismatch
    pure r

  verify_inference :
      Cvm → Bytes → ℕ → Option (ℕ → Bytes → Option NearResult) → Call (Option NearResult)
  unfolding ask_verified
  verify_inference c input completed none = pure none
  verify_inference c input completed (some adapter) = do
    r ← ask_verified c input completed (crypto.platform.decode input) adapter
    pure (some r)

  ordinary_output : Bytes → Bytes → Option (ℕ → Bytes → Option Bytes) → Call Bytes
  unfolding ask_adapter
  ordinary_output key input none = pure (crypto.platform.sha256 (key ++ input))
  ordinary_output key input (some adapter) = ask_adapter adapter input

  backend_output : Cvm → Bytes → Bytes → Option NearResult → Call Bytes
  unfolding ordinary_output
  backend_output c key input none = ordinary_output key input c.config.inference
  backend_output c key input (some r) = pure r.output

  receipt_of : Cvm → Bytes → Text → Text → ℕ → Bytes → SignedReceipt
  receipt_of c input att_ref nonce ts output =
      sign_receipt crypto.typed
        (record {
          version = ReceiptVersion.second;
          model_hash = c.model_hash;
          code_hash = c.code_hash;
          in_hash = sha256_hex crypto.platform input;
          out_hash = sha256_hex crypto.platform output;
          att_ref = att_ref;
          nonce = nonce;
          ts = ts;
        })
        c.private_key c.config.chain_id c.config.verifying_contract

  with_proof : Bytes → SignedReceipt → Transcript → Option ProviderProof → Call Answer
  with_proof output receipt transcript none = throw evidence_mismatch
  with_proof output receipt transcript (some proof) = pure (record {
    output = output;
    receipt = receipt;
    provider_proof = some proof;
    provider_transcript = some transcript;
  })

  answer : Cvm → Bytes → SignedReceipt → Option NearResult → Call Answer
  unfolding with_proof
  answer c output receipt none = pure (record {
    output = output;
    receipt = receipt;
    provider_proof = none;
    provider_transcript = none;
  })
  answer c output receipt (some r) = with_proof output receipt r.transcript (
      sign_provider_proof crypto.platform crypto.json_string crypto.typed receipt r.evidence
        c.private_key c.config.chain_id c.config.verifying_contract)

  infer_with : Cvm → Option Bytes → Bytes → InferenceContext → Text → ℕ → ℕ → Call Answer
  unfolding verify_inference backend_output receipt_of answer
  infer_with c none input context nonce now elapsed = throw key_not_released
  infer_with c (some key) input context nonce now elapsed = do
    guard (is_hex 64 context.att_ref && any (same (lower context.att_ref)) c.verified_att_refs)
        attestation_unknown
    guard (is_hex 64 nonce) bad_nonce
    guard (leb now max_safe_integer) bad_timestamp
    guard (ltb (or_else context.receipt_timestamp (now / 1000)) (2 ^ 64)) bad_timestamp
    guard (is_ready c) needs_verified_adapter
    verified ← verify_inference c input (now + elapsed) c.config.verified_inference
    guard (not (is_managed c.mode) || is_present verified) no_evidence
    output ← backend_output c key input verified
    answer c output
        (receipt_of c input context.att_ref nonce (or_else context.receipt_timestamp (now / 1000))
          output)
        verified

  -- `drawn` is the random nonce, and `elapsed` what the adapter takes. A moment before 0 or within
  -- a millisecond, which throws, is no ℕ.
  unfoldable pub infer : Bytes → InferenceContext → Text → ℕ → ℕ → Call Answer
  unfolding infer_with
  infer input context drawn now elapsed = do
    c ← get
    infer_with c c.model_key input context (or_else context.nonce drawn) now elapsed
