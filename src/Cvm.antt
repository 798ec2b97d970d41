-- ===== src/Cvm.antt =====
-- _backend/packages/core/src/cvm.ts: the enclave for development, `DevCvm`, with the session of a
-- managed gateway in Session and `infer` in Infer. AES-GCM, the keys of accounts and the random
-- values are parameters. A moment is that of a clock, `none` if it is no safe integer from 0 on.
pub mod Near
pub mod Session
pub mod Infer
pub mod Attested
pub mod Released
mod Tests
use enclave_developer.Prelude.{
  ℕ, List, Option, Bool, Result, Exec, ok, err, none, some, true, false, [], ◌∷◌, ◌++◌, pure, throw,
  from_result, get, put, ◌>>=◌, ◌>>◌, not, if◌then◌else◌, ◌||◌,
}
use enclave_developer.Prelude.Text.{Text, codes, same_hex, lower}
use enclave_developer.Cvm.Near.{Bytes, Platform, NearEvidence, Transcript, sha256_hex}
use enclave_developer.Tcb.Policy.{
  TcbPolicy, Digests, measurement_of, canonical_tcb_policy, parse_tcb_policy, TcbFault,
}
use enclave_developer.Tcb.Quote.{Vendor, AttestationQuote, issue_quote, verify_quote, is_empty}
use enclave_developer.Cvm.Session.{verify_gateway_session, gateway_session_quote}
use enclave_developer.Receipt.{TypedData}

pub data GatewayMode : Type 0 where
  development managed_near other_mode : GatewayMode

pub record NearResult : Type 0 where
  pub output : Bytes
  pub evidence : NearEvidence
  pub transcript : Transcript

-- An adapter gets the number of calls before it; `none` is a throw or what is no result.
pub record CvmConfig : Type 0 where
  pub policy : TcbPolicy
  pub model_id : Text
  pub chain_id : ℕ
  pub verifying_contract : Text
  pub inference : Option (ℕ → Bytes → Option Bytes)
  pub verified_inference : Option (ℕ → Bytes → Option NearResult)
  pub gateway_mode : Option GatewayMode
  pub binds_policy : Bool

pub record Blob : Type 0 where
  pub iv : Bytes
  pub tag : Bytes
  pub ciphertext : Bytes

-- `encrypt` gets its initialization vector.
pub record Crypto : Type 0 where
  pub platform : Platform
  pub digests : Digests
  pub typed : TypedData
  pub json_string : Text → Text
  pub encrypt : Bytes → Bytes → Bytes → Blob
  pub decrypt : Bytes → Blob → Option Bytes

pub data CvmFault : Type 0 where
  two_adapters invalid_mode needs_verified_adapter invalid_policy : CvmFault
  missing_vendor other_vendor session_rejected quote_rejected decryption_failed : CvmFault
  key_not_released attestation_unknown bad_nonce bad_timestamp bad_input : CvmFault
  bad_result evidence_mismatch evidence_not_fresh input_mismatch no_evidence : CvmFault

pub record Cvm : Type 0 where
  pub config : CvmConfig
  pub mode : GatewayMode
  pub vendor : Vendor
  pub wrapping_key : Bytes
  pub encrypted_weights : Blob
  pub private_key : Text
  pub enclave_address : Text
  pub model_hash : Text
  pub code_hash : Text
  pub model_key : Option Bytes
  pub verified_att_refs : List Text
  pub calls : ℕ

-- The keys that are kept, or those that are drawn.
pub record Keys : Type 0 where
  pub wrapping_key : Bytes
  pub model_key : Bytes
  pub private_key : Text

abbrev pub Call : Type 0 → Type 0
Call A = Exec Cvm CvmFault A

abbrev pub guard : Bool → CvmFault → Call (Unit {0})
guard b e = if b then pure tt else throw e

abbrev or_drawn : Option Keys → Keys → Keys
or_drawn none drawn = drawn
or_drawn (some kept) drawn = kept

abbrev pub is_managed : GatewayMode → Bool
is_managed managed_near = true
is_managed _ = false

abbrev given_mode : Option GatewayMode → GatewayMode
given_mode none = development
given_mode (some m) = m

abbrev is_some {ℓ} : {A : Type ℓ} → Option A → Bool
is_some none = false
is_some (some a) = true

-- The first of the tests of the options that fails.
abbrev config_fault : Bool → Bool → GatewayMode → Option CvmFault
config_fault true true m = some two_adapters
config_fault ordinary verified other_mode = some invalid_mode
config_fault ordinary verified development = none
config_fault ordinary verified managed_near =
    if ordinary || not verified then some needs_verified_adapter else none

abbrev parsed_policy : Result TcbFault TcbPolicy → Result CvmFault TcbPolicy
parsed_policy (err e) = err invalid_policy
parsed_policy (ok p) = elim (parse_tcb_policy (some p)) [ ok q ↦ ok q | err e ↦ err invalid_policy ]

module _ (crypto : Crypto) where
  -- The policy of a managed gateway is checked, that of the others is taken as it is.
  settled_config : CvmConfig → GatewayMode → Result CvmFault CvmConfig
  settled_config config managed_near = elim (parsed_policy (canonical_tcb_policy config.policy)) [
    | ok p ↦ ok (record config { policy = p })
    | err e ↦ err e
  ]
  settled_config config _ = ok config

  with_config :
      Vendor
      → Bytes
      → Blob
      → Text
      → CvmConfig
      → GatewayMode
      → Result CvmFault CvmConfig
      → Result CvmFault Cvm
  with_config vendor wrapping_key weights private_key given mode (err e) = err e
  with_config vendor wrapping_key weights private_key given mode (ok config) = ok (record {
    config = config;
    mode = mode;
    vendor = vendor;
    wrapping_key = wrapping_key;
    encrypted_weights = weights;
    private_key = private_key;
    enclave_address = crypto.typed.account private_key;
    model_hash =
        sha256_hex crypto.platform (crypto.platform.utf8 (codes "model:" ++ given.model_id));
    code_hash = measurement_of crypto.digests given.policy;
    model_key = none;
    verified_att_refs = [];
    calls = 0;
  })

  -- The constructor.
  dev_cvm : Vendor → Bytes → Blob → Text → CvmConfig → Result CvmFault Cvm
  unfolding settled_config with_config
  dev_cvm vendor wrapping_key weights private_key config =
      with_config vendor wrapping_key weights private_key config (given_mode config.gateway_mode)
        (settled_config config (given_mode config.gateway_mode))

  create_with : Vendor → Keys → Bytes → CvmConfig → Option CvmFault → Result CvmFault Cvm
  unfolding dev_cvm
  create_with vendor keys iv config (some e) = err e
  create_with vendor keys iv config none =
      dev_cvm vendor keys.wrapping_key (crypto.encrypt iv keys.wrapping_key keys.model_key)
        keys.private_key config

  unfoldable pub create : CvmConfig → Vendor → Option Keys → Keys → Bytes → Result CvmFault Cvm
  unfolding create_with
  create config vendor persisted drawn iv =
      create_with vendor (or_drawn persisted drawn) iv config (
        config_fault (is_some config.inference) (is_some config.verified_inference)
          (given_mode config.gateway_mode))

  quote_as : GatewayMode → Cvm → ℕ → Option AttestationQuote
  quote_as managed_near c now = gateway_session_quote crypto.digests c.vendor c.config.policy now
  quote_as _ c now = issue_quote crypto.digests c.vendor c.config.policy now

  -- `none` is a throw.
  unfoldable pub quote : Cvm → ℕ → Option AttestationQuote
  unfolding quote_as
  quote c now = quote_as c.mode c now

  -- The check of a quote, by the mode; `false` is a throw.
  unfoldable pub accepts_as : GatewayMode → Vendor → TcbPolicy → AttestationQuote → Option ℕ → Bool
  accepts_as managed_near vendor policy q now =
      verify_gateway_session crypto.digests vendor q policy now
  accepts_as _ vendor policy q now = elim (verify_quote crypto.digests vendor q policy now) [
    | ok u ↦ true
    | err e ↦ false
  ]

  abbrev pub accepts : Cvm → AttestationQuote → Option ℕ → Bool
  accepts c q now = accepts_as c.mode c.vendor c.config.policy q now

  unfoldable pub attestation_ref : AttestationQuote → Text
  attestation_ref q = sha256_hex crypto.platform (crypto.platform.utf8 q.signature)

  keep_key : AttestationQuote → Option Bytes → Call (Unit {0})
  keep_key q none = throw decryption_failed
  keep_key q (some key) = do
    c ← get
    put (record c {
      model_key = some key;
      verified_att_refs = attestation_ref q ∷ c.verified_att_refs;
    })

  unfoldable pub release_keys : AttestationQuote → Text → Option ℕ → Call (Unit {0})
  unfolding keep_key
  release_keys q vendor_address now = do
    c ← get
    guard (not (is_empty c.vendor.address)) missing_vendor
    guard (same_hex vendor_address c.vendor.address) other_vendor
    guard (accepts c q now) quote_rejected
    keep_key q (crypto.decrypt c.wrapping_key c.encrypted_weights)

  renew_with : Cvm → Result CvmFault TcbPolicy → Result CvmFault Cvm
  unfolding dev_cvm
  renew_with c (err e) = err e
  renew_with c (ok next) =
      dev_cvm c.vendor c.wrapping_key c.encrypted_weights c.private_key
        (record (c.config) { policy = next; binds_policy = true })

  -- Another enclave, with no key yet.
  unfoldable pub with_policy : Cvm → TcbPolicy → Result CvmFault Cvm
  unfolding renew_with
  with_policy c policy = renew_with c (parsed_policy (canonical_tcb_policy policy))

  secret_for : Cvm → Option Bytes → Text → Result CvmFault Bytes
  secret_for c none session_id = err key_not_released
  secret_for c (some key) session_id = ok (
      crypto.platform.sha256 (
        key
        ++ crypto.platform.utf8 session_id
        ++ (if c.config.binds_policy then crypto.platform.utf8 c.code_hash else [])))

  unfoldable pub session_secret : Cvm → Text → Result CvmFault Bytes
  unfolding secret_for
  session_secret c session_id = secret_for c c.model_key session_id

  memory_seal_key : Cvm → Bytes
  memory_seal_key c =
      crypto.platform.sha256
        (c.wrapping_key ++ crypto.platform.utf8 (codes "enclave-agent-memory-v1"))

  unfoldable pub seal_memory : Cvm → Bytes → Bytes → Blob
  unfolding memory_seal_key
  seal_memory c iv plain = crypto.encrypt iv (memory_seal_key c) plain

  opened : Cvm → Option Bytes → Blob → Result CvmFault Bytes
  unfolding memory_seal_key
  opened c none blob = err key_not_released
  opened c (some key) blob = elim (crypto.decrypt (memory_seal_key c) blob) [
    | some plain ↦ ok plain
    | none ↦ err decryption_failed
  ]

  unfoldable pub open_memory : Cvm → Blob → Result CvmFault Bytes
  unfolding opened
  open_memory c blob = opened c c.model_key blob
