-- ===== src/Receipt/Proof.antt =====
-- `signProviderProof` and `verifyProviderProof` of _backend/packages/core/src/provider-proof.ts,
-- with `canonicalEvidenceJson` on the evidence of near-inference.ts, the fields in the order of
-- their names. JSON.stringify of a string is a parameter.
use enclave_developer.Prelude.{Option, Bool, ◌++◌, ℕ, if◌then◌else◌, ◌==◌, not, ◌&&◌, none, some}
use enclave_developer.Cvm.Near.{NearEvidence, Platform, sha256_hex}
use enclave_developer.Receipt.{
  TypedData, Domain, SignedReceipt, receipt_typed_hash, verify_receipt_signature, is_signer,
  evidence_message,
}
use enclave_developer.Prelude.Text.{Text, codes, same}
use enclave_developer.Prelude.Decimal.{decimal}

pub record ProviderProof : Type 0 where
  pub version : ℕ
  pub receipt_hash : Text
  pub evidence_hash : Text
  pub evidence : NearEvidence
  pub sig : Text

abbrev pub proof_domain : ℕ → Text → Domain
proof_domain chain_id contract = record {
  name = codes "ENCLAVE_PROVIDER_EVIDENCE";
  version = codes "1";
  chain_id = chain_id;
  verifying_contract = contract;
}

module _ (p : Platform) (json_string : Text → Text) where
  abbrev value : Bool → Text
  value b = if b then codes "true" else codes "false"

  abbrev field : Text → Text → Text
  field key text = json_string key ++ codes ":" ++ json_string text

  unfoldable pub canonical_evidence : NearEvidence → Text
  canonical_evidence e =
      codes "{"
      ++ field (codes "attestationRef") e.attestation_ref
      ++ codes ","
      ++ field (codes "completionId") e.completion_id
      ++ codes ","
      ++ field (codes "endpoint") e.endpoint
      ++ codes ","
      ++ field (codes "expiresAt") e.expires_at
      ++ codes ","
      ++ field (codes "model") e.model
      ++ codes ","
      ++ field (codes "outputHash") e.output_hash
      ++ codes ","
      ++ field (codes "provider") e.provider
      ++ codes ","
      ++ field (codes "requestHash") e.request_hash
      ++ codes ","
      ++ field (codes "responseHash") e.response_hash
      ++ codes ","
      ++ json_string (codes "schemaVersion")
      ++ codes ":"
      ++ decimal e.schema_version
      ++ codes ","
      ++ field (codes "signature") e.signature
      ++ codes ","
      ++ field (codes "signatureKind") e.signature_kind
      ++ codes ","
      ++ field (codes "signatureText") e.signature_text
      ++ codes ","
      ++ field (codes "signingAddress") e.signing_address
      ++ codes ","
      ++ json_string (codes "tlsBound")
      ++ codes ":"
      ++ value e.tls_bound
      ++ codes ","
      ++ field (codes "verifiedAt") e.verified_at
      ++ codes "}"

  unfoldable pub provider_evidence_hash : NearEvidence → Text
  provider_evidence_hash e = sha256_hex p (p.utf8 (canonical_evidence e))

  module _ (typed : TypedData) where
    -- `none` is the throw for evidence of another output.
    unfoldable pub sign_provider_proof :
        SignedReceipt → NearEvidence → Text → ℕ → Text → Option ProviderProof
    sign_provider_proof s e key chain_id contract =
        let receipt_hash = receipt_typed_hash typed s.receipt chain_id contract in
        let evidence_hash = provider_evidence_hash e in
        if not (same e.output_hash s.receipt.out_hash)
        then none
        else some (record {
          version = 1;
          receipt_hash = receipt_hash;
          evidence_hash = evidence_hash;
          evidence = e;
          sig =
              typed.sign key (proof_domain chain_id contract)
                (evidence_message receipt_hash evidence_hash);
        })

    unfoldable pub verify_provider_proof : ProviderProof → SignedReceipt → Text → ℕ → Text → Bool
    verify_provider_proof proof s expected chain_id contract =
        proof.version == 1
        && same proof.receipt_hash (receipt_typed_hash typed s.receipt chain_id contract)
        && same proof.evidence_hash (provider_evidence_hash proof.evidence)
        && same proof.evidence.output_hash s.receipt.out_hash
        && verify_receipt_signature typed s expected chain_id contract
        && is_signer
            (typed.recover (proof_domain chain_id contract)
              (evidence_message proof.receipt_hash proof.evidence_hash) proof.sig)
            expected
