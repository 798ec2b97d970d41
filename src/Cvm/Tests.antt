-- ===== src/Cvm/Tests.antt =====
-- An enclave that answers after it has accepted a quote, and the theorem at it.
use enclave_developer.Cvm.{
  Cvm, CvmConfig, Crypto, Keys, create, release_keys, quote, GatewayMode, session_secret,
}
use enclave_developer.Cvm.Infer.{infer, Answer, InferenceContext}
use enclave_developer.Cvm.Infer.Bound.{IsBound, infer-IsBound}
use enclave_developer.Cvm.Infer.Reached.{Reached, WasReleased}
use enclave_developer.Cvm.Infer.Secrets.{GivesSecret, GivesSecret-WasReleased}
use enclave_developer.Cvm.Released.{CanRelease, IsReleased, release-quote}
use enclave_developer.Tcb.Policy.{TcbPolicy, Digests, measurement_of}
use enclave_developer.Tcb.Quote.{Vendor, AttestationQuote}
use enclave_developer.Cvm.Near.{Platform, NearEvidence}
use enclave_developer.Receipt.Signed.{verify-sign}
use enclave_developer.Receipt.Proof.{ProviderProof, sign_provider_proof, verify_provider_proof}
use enclave_developer.Receipt.{TypedData, ReceiptVersion, sign_receipt}
use enclave_developer.Prelude.Text.{Text, codes, is_hex, hex_number}
use enclave_developer.Prelude.{[], none, some, ◌∷◌, false, refl, true, ◌++◌, ◌≡◌, ok, arith}
use mathlib.Core.Path.{subst}

abbrev digits : Text
digits = codes "0000000000000000000000000000000000000000000000000000000000000000"

abbrev hash : Text
hash = codes "0x" ++ digits

abbrev platform : Platform
platform = record {
  sha256 = λ b. b;
  hex = λ b. digits;
  utf8 = λ s. s;
  decode = λ b. some b;
  parse_url = λ s. none;
  parse_date = λ s. none;
  parse_request = λ b. none;
  parse_completion = λ b. none;
  recover = λ message signature. none;
}

abbrev crypto : Crypto
crypto = record {
  platform = platform;
  digests = record { sha256 = λ s. hash; stringify = λ p. []; stringify_request = λ a b. [] };
  typed = record {
    hash = λ d m. hash;
    sign = λ key d m. key;
    recover = λ d m sig. some sig;
    account = λ key. key;
  };
  json_string = λ s. s;
  encrypt = λ iv key plain. record { iv = iv; tag = key; ciphertext = plain };
  decrypt = λ key blob. some blob.ciphertext;
}

abbrev signature : Text
signature =
    codes
      "0x111111111111111111111111111111111111111111111111111111111111111111111111111111111111111111111111111111111111111111111111111111111b"

abbrev vendor : Vendor
vendor = record {
  address = codes "0xa";
  recover = λ message signature. some (codes "0xa");
  sign = some (λ message. signature);
}

abbrev policy : TcbPolicy
policy = record {
  version = 1;
  serving_image_id = codes "image";
  require_cpu_tee = true;
  require_gpu_cc = true;
}

abbrev config : CvmConfig
config = record {
  policy = policy;
  model_id = codes "model";
  chain_id = 31337;
  verifying_contract = codes "0xc";
  inference = none;
  verified_inference = none;
  gateway_mode = none;
  binds_policy = false;
}

abbrev keys : Keys
keys = record { wrapping_key = 1 ∷ []; model_key = 2 ∷ []; private_key = codes "key" }

abbrev fresh : Cvm
fresh = record {
  config = config;
  mode = GatewayMode.development;
  vendor = vendor;
  wrapping_key = 1 ∷ [];
  encrypted_weights = record { iv = []; tag = 1 ∷ []; ciphertext = 2 ∷ [] };
  private_key = codes "key";
  enclave_address = codes "key";
  model_hash = hash;
  code_hash = hash;
  model_key = none;
  verified_att_refs = [];
  calls = 0;
}

abbrev session : AttestationQuote
session = record {
  cpu_quote = codes "tdx:image";
  gpu_quote = codes "nvidia-cc:image";
  measurement = hash;
  tcb_version = 1;
  timestamp = some 10;
  signature = codes "sig";
}

abbrev ready : Cvm
ready = record fresh { model_key = some (2 ∷ []); verified_att_refs = hash ∷ [] }

abbrev context : InferenceContext
context = record { att_ref = hash; nonce = none; receipt_timestamp = none }

abbrev given : Answer
given = record {
  output = 2 ∷ 7 ∷ [];
  receipt = record {
    receipt = record {
      version = ReceiptVersion.second;
      model_hash = hash;
      code_hash = hash;
      in_hash = hash;
      out_hash = hash;
      att_ref = hash;
      nonce = hash;
      ts = 5;
    };
    sig = codes "key";
  };
  provider_proof = none;
  provider_transcript = none;
}

fresh-Reached : Reached crypto fresh
unfolding create enclave_developer.Cvm.Near.sha256_hex enclave_developer.Tcb.Policy.measurement_of
fresh-Reached = Reached.created config vendor none keys [] refl

release_example : (release_keys crypto session (codes "0xA") (some 12) fresh).1 ≡ ready
unfolding release_keys enclave_developer.Prelude.◌>>=◌ enclave_developer.Prelude.◌>>◌
    enclave_developer.Prelude.pure enclave_developer.Prelude.Text.same_hex
    enclave_developer.Cvm.accepts_as enclave_developer.Tcb.Quote.verify_quote
    enclave_developer.Tcb.Policy.measurement_of enclave_developer.Cvm.attestation_ref
    enclave_developer.Cvm.Near.sha256_hex
release_example = refl

session_secret_example : session_secret crypto ready (codes "s") ≡ ok (2 ∷ codes "s")
unfolding session_secret
session_secret_example = refl

infer_example : (infer crypto (7 ∷ []) context hash 5000 3 ready).0 ≡ ok given
unfolding infer enclave_developer.Prelude.◌>>=◌ enclave_developer.Prelude.◌>>◌
    enclave_developer.Prelude.Text.is_hex enclave_developer.Prelude.Text.same
    enclave_developer.Prelude.Text.lower enclave_developer.Prelude.pure
    enclave_developer.Receipt.sign_receipt enclave_developer.Cvm.Near.sha256_hex
infer_example = refl

ready-Reached : Reached crypto ready
ready-Reached =
    subst (Reached crypto) release_example
      (Reached.released session (codes "0xA") (some 12) fresh-Reached)

GivesSecret-WasReleased_example : (ref : Text) × WasReleased crypto ready ready ready-Reached ref
GivesSecret-WasReleased_example =
    GivesSecret-WasReleased crypto ready ready-Reached
      (GivesSecret.of_session (codes "s") (2 ∷ codes "s") session_secret_example)

infer-IsBound_example : IsBound crypto ready ready-Reached (7 ∷ []) context 5003 given
infer-IsBound_example =
    infer-IsBound crypto ready ready-Reached (7 ∷ []) context hash 5000 3 given infer_example

abbrev evidence : NearEvidence
evidence = record {
  schema_version = 1;
  provider = codes "near";
  signature_kind = codes "provider_tee";
  endpoint = codes "https://cloud-api.near.ai";
  model = codes "model";
  completion_id = codes "id";
  request_hash = hash;
  response_hash = hash;
  output_hash = hash;
  signature_text = codes "text";
  signature = codes "sig";
  signing_address = codes "0xa";
  attestation_ref = hash;
  verified_at = codes "a";
  expires_at = codes "b";
  tls_bound = true;
}

-- The enclave of a managed gateway.
abbrev managed : Cvm
managed = record fresh { mode = GatewayMode.managed_near }

managed-CanRelease : CanRelease crypto managed (λ message. signature) 10 20
unfolding measurement_of is_hex hex_number
managed-CanRelease = record {
  keyed = refl;
  recovers = λ m. refl;
  canonical = λ m. refl;
  named = refl;
  needs_cpu = refl;
  needs_gpu = refl;
  measured = refl;
  in_range = omega arith;
  near = omega arith;
  key = 2 ∷ [];
  opens = refl;
}

release-quote_example :
    (q : AttestationQuote) × (quote crypto managed 10 ≡ some q)
    × IsReleased crypto q (release_keys crypto q (codes "0xa") (some 20) managed)
release-quote_example = release-quote crypto managed (λ message. signature) 10 20 managed-CanRelease

verify-sign_example :
    (proof : ProviderProof) × (sign_provider_proof platform
        (λ s. s)
        crypto.typed
        given.receipt
        evidence
        (codes "key")
        31337
        (codes "0xc")
      ≡ some proof)
    × (verify_provider_proof platform
          (λ s. s)
          crypto.typed
          proof
          given.receipt
          (codes "key")
          31337
          (codes "0xc")
        ≡ true)
unfolding sign_receipt
verify-sign_example =
    verify-sign crypto.typed (λ key d m. refl) platform (λ s. s) given.receipt.receipt evidence
      (codes "key") 31337 (codes "0xc") refl
