-- ===== src/Receipt.antt =====
-- _backend/packages/core/src/receipt.ts, with the signed association of a receipt and a provider's
-- evidence (provider-proof.ts) in Proof. Hashing and signing of typed data (viem) are parameters.
pub mod Proof
pub mod Signed
use enclave_developer.Prelude.{ℕ, Option, Bool, none, some, false}
use enclave_developer.Prelude.Text.{Text, codes, same_hex}

-- The version of the domain, which says which fields are signed.
pub data ReceiptVersion : Type 0 where
  legacy second : ReceiptVersion

-- The nonce of a legacy receipt is left out of what is signed.
pub record InferenceReceipt : Type 0 where
  pub version : ReceiptVersion
  pub model_hash : Text
  pub code_hash : Text
  pub in_hash : Text
  pub out_hash : Text
  pub att_ref : Text
  pub nonce : Text
  pub ts : ℕ

pub record Domain : Type 0 where
  pub name : Text
  pub version : Text
  pub chain_id : ℕ
  pub verifying_contract : Text

pub data Message : Type 0 where
  legacy_message : Text → Text → Text → Text → Text → ℕ → Message
  receipt_message : Text → Text → Text → Text → Text → Text → ℕ → Message
  evidence_message : Text → Text → Message

-- `none` is a throw.
pub record TypedData : Type 0 where
  pub hash : Domain → Message → Text
  pub sign : Text → Domain → Message → Text
  pub recover : Domain → Message → Text → Option Text
  pub account : Text → Text

unfoldable pub receipt_domain : ℕ → Text → ReceiptVersion → Domain
receipt_domain chain_id contract legacy = record {
  name = codes "ENCLAVE";
  version = codes "1";
  chain_id = chain_id;
  verifying_contract = contract;
}
receipt_domain chain_id contract second = record {
  name = codes "ENCLAVE";
  version = codes "2";
  chain_id = chain_id;
  verifying_contract = contract;
}

abbrev message_as : ReceiptVersion → InferenceReceipt → Message
message_as legacy r = legacy_message r.model_hash r.code_hash r.in_hash r.out_hash r.att_ref r.ts
message_as second r =
    receipt_message r.model_hash r.code_hash r.in_hash r.out_hash r.att_ref r.nonce r.ts

-- The fields of the types of its version.
abbrev pub message_of : InferenceReceipt → Message
message_of r = message_as r.version r

pub record SignedReceipt : Type 0 where
  pub receipt : InferenceReceipt
  pub sig : Text

abbrev pub is_signer : Option Text → Text → Bool
is_signer none expected = false
is_signer (some recovered) expected = same_hex recovered expected

module _ (typed : TypedData) where
  unfoldable pub sign_receipt : InferenceReceipt → Text → ℕ → Text → SignedReceipt
  sign_receipt r key chain_id contract = record {
    receipt = r;
    sig = typed.sign key (receipt_domain chain_id contract r.version) (message_of r);
  }

  -- A throw is `false` here.
  unfoldable pub verify_receipt_signature : SignedReceipt → Text → ℕ → Text → Bool
  verify_receipt_signature s expected chain_id contract =
      is_signer
        (typed.recover (receipt_domain chain_id contract s.receipt.version) (message_of s.receipt)
          s.sig)
        expected

  unfoldable pub receipt_typed_hash : InferenceReceipt → ℕ → Text → Text
  receipt_typed_hash r chain_id contract =
      typed.hash (receipt_domain chain_id contract r.version) (message_of r)
