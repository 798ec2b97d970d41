-- ===== src/Cvm/Infer/Bound.antt =====
-- What the answers of `infer` in _backend/packages/core/src/cvm.ts are bound to, over the life of an
-- enclave.
use enclave_developer.Cvm.Infer.Reached.{Reached, Reached-Held, WasReleased}
use enclave_developer.Cvm.{Cvm, Crypto, NearResult, Call, CvmFault, guard, is_managed}
use enclave_developer.Cvm.Infer.{
  infer, Answer, InferenceContext, is_matching, is_fresh_at, answer, ask_verified, backend_output,
  verify_inference, with_proof, infer_with, receipt_of, is_present,
}
use enclave_developer.Prelude.{
  All, Result, pure, ℕ, ◌>>◌, Bool, Option, throw, ◌>>=◌, ◌≡◌, ok, some, true, err, arith, false,
  refl, none, not, List, any, ◌∷◌, Bool-cases, inl, sym, inr, [], ◌+◌, and-elim, ◌||◌, ◌∙◌,
}
use enclave_developer.Prelude.Text.{Text, lower, same, same_iff}
use enclave_developer.Cvm.Near.{Bytes, sha256_hex}
use enclave_developer.Prelude.Triples.{
  Triple, pure-Triple, >>=-Triple, throw-Triple, assume-Triple, before-Triple, After, After-ok,
  map-Triple,
}
use enclave_developer.Receipt.{sign_receipt, SignedReceipt}
use mathlib.Core.Path.{subst}
use enclave_developer.Receipt.Proof.{ProviderProof}

-- A call whose result has a property, where it returns.
abbrev Gives : {A : Type 0} → Call A → (A → Type 0) → Type 0
Gives m Q = Triple (λ s. Unit) m (λ a s. Q a) (λ s. Unit)

module _ {A : Type 0} {Q : A → Type 0} where
  given : (a : A) → Q a → Gives (pure a) Q
  given a q = pure-Triple a (λ s u. q)

  thrown : (e : CvmFault) → Gives (throw e) Q
  thrown e = throw-Triple e (λ s u. tt)

  guarded :
      (b : Bool) (e : CvmFault) {k : Call A} → (b ≡ true → Gives k Q) → Gives (guard b e >> k) Q
  unfolding ◌>>◌ throw pure
  guarded true e h = record { run = λ s u. (h refl).run s tt }
  guarded false e h = record { run = λ s u. tt }

  after :
      {B : Type 0} {m : Call B} {f : B → Call A} (X : B → Type 0)
      → Gives m X
      → ((b : B) → X b → Gives (f b) Q)
      → Gives (m >>= f) Q
  after X h k =
      >>=-Triple h (λ b. assume-Triple (λ s x. x) (λ x. before-Triple (λ s y. tt) (k b x)))

module _ (crypto : Crypto) where
  -- The provider's evidence that an answer rests on.
  pub record IsEvidenced (c : Cvm) (completed : ℕ) (a : Answer) : Type 0 where
    pub result : NearResult
    pub same_output : a.output ≡ result.output
    pub same_transcript : a.provider_transcript ≡ some result.transcript
    pub matching : is_matching crypto c result ≡ true
    pub fresh : is_fresh_at crypto completed result ≡ true

  pub record IsBound (c : Cvm) (r : Reached crypto c) (input : Bytes) (context : InferenceContext)
      (completed : ℕ) (a : Answer) : Type 0 where
    pub attested : WasReleased crypto c c r (lower context.att_ref)
    pub about_input : a.receipt.receipt.in_hash ≡ sha256_hex crypto.platform input
    pub about_output : a.receipt.receipt.out_hash ≡ sha256_hex crypto.platform a.output
    pub about_session : a.receipt.receipt.att_ref ≡ context.att_ref
    pub signed :
        a.receipt
        ≡ sign_receipt crypto.typed a.receipt.receipt c.private_key c.config.chain_id
            c.config.verifying_contract
    pub evidenced : is_managed c.mode ≡ true → IsEvidenced c completed a

  member-All :
      (P : Text → Type 0) (ref : Text) (refs : List Text)
      → All P refs
      → any (same ref) refs ≡ true
      → P ref
  member-All P ref [] h e = absurd (ground arith)
  member-All P ref (r ∷ refs) (p, h) e = elim (Bool-cases (same ref r)) [
    | inl hit ↦ subst P (sym ((same_iff ref r).0 hit)) p
    | inr miss ↦ member-All P ref refs h (ground arith)
  ]

  -- What the evidence of a result is checked for.
  abbrev IsChecked : Cvm → ℕ → Option NearResult → Type 0
  IsChecked c completed none = Unit
  IsChecked c completed (some r) =
      (is_matching crypto c r ≡ true)
      × (is_managed c.mode ≡ true → is_fresh_at crypto completed r ≡ true)

  some-After : {A : Type 0} (r : Result CvmFault A × Cvm) → After (λ a s. Unit) (λ s. Unit) r
  some-After (ok a, s) = tt
  some-After (err e, s) = tt

  call-Gives : {A : Type 0} (m : Call A) → Gives m (λ a. Unit)
  call-Gives m = record { run = λ s u. some-After (m s) }

  ask_verified-Gives :
      (c : Cvm) (input : Bytes) (completed : ℕ) (prompt : Option Text)
      (adapter : ℕ → Bytes → Option NearResult)
      → Gives
          (ask_verified crypto c input completed prompt adapter)
          (λ r. IsChecked c completed (some r))
  unfolding ask_verified
  ask_verified-Gives c input completed none adapter = thrown _
  ask_verified-Gives c input completed (some prompt) adapter =
      after (λ r. Unit) (call-Gives _)
        (λ r u. guarded _ _ (λ small. guarded _ _ (λ matching. guarded _ _ (λ fresh.
          guarded _ _ (λ about. given r (matching, λ managed. ground (arith, managed, fresh)))))))

  verify_inference-Gives :
      (c : Cvm) (input : Bytes) (completed : ℕ) (adapter : Option (ℕ → Bytes → Option NearResult))
      → Gives (verify_inference crypto c input completed adapter) (IsChecked c completed)
  unfolding verify_inference
  verify_inference-Gives c input completed none = given none tt
  verify_inference-Gives c input completed (some adapter) =
      after (λ r. IsChecked c completed (some r)) (ask_verified-Gives c input completed _ adapter)
        (λ r h. given (some r) h)

  -- The output is that of the evidence, if there is any.
  abbrev IsOutput : Bytes → Option NearResult → Type 0
  IsOutput output none = Unit
  IsOutput output (some r) = output ≡ r.output

  backend-Gives :
      (c : Cvm) (key input : Bytes) (r : Option NearResult)
      → Gives (backend_output crypto c key input r) (λ output. IsOutput output r)
  unfolding backend_output
  backend-Gives c key input none = call-Gives _
  backend-Gives c key input (some r) = given r.output refl

  -- The parts of an answer.
  abbrev IsAnswer : Bytes → SignedReceipt → Option NearResult → Answer → Type 0
  IsAnswer output receipt none a = (a.output ≡ output) × (a.receipt ≡ receipt)
  IsAnswer output receipt (some r) a =
      (a.output ≡ output) × (a.receipt ≡ receipt) × (a.provider_transcript ≡ some r.transcript)

  with_proof-Gives :
      (output : Bytes) (receipt : SignedReceipt) (r : NearResult) (proof : Option ProviderProof)
      → Gives
          (with_proof crypto output receipt r.transcript proof)
          (IsAnswer output receipt (some r))
  unfolding with_proof
  with_proof-Gives output receipt r none = thrown _
  with_proof-Gives output receipt r (some proof) = given _ (refl, refl, refl)

  answer-Gives :
      (c : Cvm) (output : Bytes) (receipt : SignedReceipt) (r : Option NearResult)
      → Gives (answer crypto c output receipt r) (IsAnswer output receipt r)
  unfolding answer
  answer-Gives c output receipt none = given _ (refl, refl)
  answer-Gives c output receipt (some r) = with_proof-Gives output receipt r _

  answer-IsBound :
      (c : Cvm) (reached : Reached crypto c) (input : Bytes) (context : InferenceContext)
      (completed : ℕ) (nonce : Text) (ts : ℕ) (output : Bytes) (r : Option NearResult)
      → WasReleased crypto c c reached (lower context.att_ref)
      → IsChecked c completed r
      → (not (is_managed c.mode) || is_present r) ≡ true
      → IsOutput output r
      → Gives
          (answer crypto c output (receipt_of crypto c input context.att_ref nonce ts output) r)
          (IsBound c reached input context completed)
  unfolding receipt_of sha256_hex sign_receipt
  answer-IsBound c reached input context completed nonce ts output none attested checked present o =
      map-Triple
        (λ a s (same_output, same_receipt). record {
          attested = attested;
          about_input = rw same_receipt refl;
          about_output = rw (same_receipt, same_output) refl;
          about_session = rw same_receipt refl;
          signed = rw same_receipt refl;
          evidenced = λ managed. absurd (ground (arith, managed, present));
        })
        (answer-Gives c output _ none)
  answer-IsBound c reached input context completed nonce ts output (some r) attested
        (matching, fresh) present o =
      map-Triple
        (λ a s (same_output, same_receipt, same_transcript). record {
          attested = attested;
          about_input = rw same_receipt refl;
          about_output = rw (same_receipt, same_output) refl;
          about_session = rw same_receipt refl;
          signed = rw same_receipt refl;
          evidenced = λ managed. record {
            result = r;
            same_output = same_output ∙ o;
            same_transcript = same_transcript;
            matching = matching;
            fresh = fresh managed;
          };
        })
        (answer-Gives c output _ (some r))

  infer_with-Gives :
      (c : Cvm) (reached : Reached crypto c) (key : Option Bytes) (input : Bytes)
      (context : InferenceContext) (nonce : Text) (now elapsed : ℕ)
      → All (WasReleased crypto c c reached) c.verified_att_refs
      → Gives
          (infer_with crypto c key input context nonce now elapsed)
          (IsBound c reached input context (now + elapsed))
  unfolding infer_with
  infer_with-Gives c reached none input context nonce now elapsed h = thrown _
  infer_with-Gives c reached (some key) input context nonce now elapsed h = guarded _ _ (λ known.
      guarded _ _ (λ w. guarded _ _ (λ x. guarded _ _ (λ y. guarded _ _ (λ z.
        after (IsChecked c (now + elapsed)) (verify_inference-Gives c input _ _) (λ r checked.
          guarded _ _ (λ present.
            after (λ output. IsOutput output r) (backend-Gives c key input r)
              (λ output same_output.
                answer-IsBound c reached input context (now + elapsed) nonce _ output r
                  (member-All (WasReleased crypto c c reached) (lower context.att_ref)
                    c.verified_att_refs h (and-elim _ _ known).1)
                  checked present same_output))))))))

  -- For an enclave that `create` made, after any calls of `releaseKeys` and `infer` and copies by
  -- `withPolicy`, an answer of `infer` stands for a call of `releaseKeys` that has returned since
  -- this enclave was made or copied, for a quote that its mode, vendor and policy accept at the
  -- moment of that call and whose hash is the given reference; the receipt has the hashes of the
  -- input and of the output and is signed by the key of the enclave; and in the mode of a managed
  -- gateway the output is that of provider evidence which is for the model and the output, is
  -- verified against the transcript that is returned, and is fresh.
  pub infer-IsBound :
      (c : Cvm) (r : Reached crypto c) (input : Bytes) (context : InferenceContext) (drawn : Text)
      (now elapsed : ℕ) (a : Answer)
      → (infer crypto input context drawn now elapsed c).0 ≡ ok a
      → IsBound c r input context (now + elapsed) a
  unfolding infer ◌>>=◌
  infer-IsBound c r input context drawn now elapsed a e =
      After-ok (λ b s. IsBound c r input context (now + elapsed) b) (λ s. Unit)
        (infer crypto input context drawn now elapsed c) e
        ((infer_with-Gives c r c.model_key input context _ now elapsed
            (Reached-Held crypto c r).0).run
          c tt)
