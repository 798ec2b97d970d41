-- ===== src/Receipt/Signed.antt =====
-- What is signed for a receipt of _backend/packages/core/src/receipt.ts and provider-proof.ts is
-- accepted for the account of the key.
use enclave_developer.Receipt.{
  TypedData, sign_receipt, verify_receipt_signature, Domain, Message, InferenceReceipt,
  receipt_typed_hash, evidence_message,
}
use enclave_developer.Receipt.Proof.{
  sign_provider_proof, verify_provider_proof, ProviderProof, provider_evidence_hash, proof_domain,
}
use enclave_developer.Prelude.Text.{Text, same_hex_refl, same, same_iff, same_refl}
use enclave_developer.Prelude.{◌≡◌, some, ℕ, true, refl}
use enclave_developer.Cvm.Near.{Platform, NearEvidence}

module _ (typed : TypedData)
    (recovers : (key : Text) (d : Domain) (m : Message)
      → typed.recover d m (typed.sign key d m) ≡ some (typed.account key)) where
  signed_receipt :
      (r : InferenceReceipt) (key : Text) (chain_id : ℕ) (contract : Text)
      → verify_receipt_signature typed
          (sign_receipt typed r key chain_id contract)
          (typed.account key)
          chain_id
          contract
        ≡ true
  unfolding sign_receipt verify_receipt_signature
  signed_receipt r key chain_id contract = rw recovers (same_hex_refl (typed.account key))

  -- If the signer of a signature by a key is recovered as the account of the key, then for a
  -- signed receipt and evidence of the same output `signProviderProof` returns a proof, and
  -- `verifyProviderProof` accepts it with the receipt for that account.
  pub verify-sign :
      (p : Platform) (json_string : Text → Text) (r : InferenceReceipt) (e : NearEvidence)
      (key : Text) (chain_id : ℕ) (contract : Text)
      → e.output_hash ≡ r.out_hash
      → let s = sign_receipt typed r key chain_id contract in
        (proof : ProviderProof) × (sign_provider_proof p json_string typed s e key chain_id contract
          ≡ some proof)
        × (verify_provider_proof p json_string typed proof s (typed.account key) chain_id contract
            ≡ true)
  unfolding sign_provider_proof verify_provider_proof sign_receipt
  verify-sign p json_string r e key chain_id contract same_output =
      let same_out : same e.output_hash r.out_hash ≡ true = (same_iff _ _).1 same_output in
      let h = receipt_typed_hash typed r chain_id contract in
      let d = provider_evidence_hash p json_string e in
      (
        record {
          version = 1;
          receipt_hash = h;
          evidence_hash = d;
          evidence = e;
          sig = typed.sign key (proof_domain chain_id contract) (evidence_message h d);
        },
        rw same_out refl,
        rw
            (
              same_refl h,
              same_refl d,
              same_out,
              signed_receipt r key chain_id contract,
              recovers key (proof_domain chain_id contract) (evidence_message h d),
            )
            (same_hex_refl (typed.account key)),
      )
