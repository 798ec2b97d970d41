-- ===== src/Cvm/Near.antt =====
-- The check of a provider's transcript in _backend/packages/core/src/near-inference.ts. Bytes are
-- lists of numbers, and what the platform does (URL, TextDecoder, JSON.parse, Date.parse, SHA-256,
-- viem) is a parameter. The adapter that asks the provider is left out.
use enclave_developer.Prelude.{
  ℕ, Bool, List, Option, none, some, true, false, if◌then◌else◌, not, leb, all, length, drop, [],
  ◌∷◌, ◌++◌, ◌&&◌, ◌||◌, ◌==◌,
}
use enclave_developer.Authorization.{max_canonical_s, s_of, v_of}
use enclave_developer.Prelude.Text.{Text, codes, is_digit, is_hex, same, same_hex}

abbrev pub Bytes : Type 0
Bytes = List ℕ

pub record Url : Type 0 where
  pub protocol : Text
  pub username : Text
  pub password : Text
  pub search : Text
  pub hash : Text
  pub port : Text
  pub hostname : Text
  pub pathname : Text

pub record NearEvidence : Type 0 where
  pub schema_version : ℕ
  pub provider : Text
  pub signature_kind : Text
  pub endpoint : Text
  pub model : Text
  pub completion_id : Text
  pub request_hash : Text
  pub response_hash : Text
  pub output_hash : Text
  pub signature_text : Text
  pub signature : Text
  pub signing_address : Text
  pub attestation_ref : Text
  pub verified_at : Text
  pub expires_at : Text
  pub tls_bound : Bool

pub record Transcript : Type 0 where
  pub request_body : Bytes
  pub response_body : Bytes
  pub attestation_proof : Option Text

-- A JSON document with fields of the types that the schemas want.
pub record RequestBody : Type 0 where
  pub model : Text
  pub messages : List (Text × Text)
  pub stream : Bool

pub record Completion : Type 0 where
  pub id : Text
  pub model : Text
  pub contents : List Text

-- A moment before 1970 is 0, and `none` is a text that is no date, no URL or no such document.
pub record Platform : Type 0 where
  pub sha256 : Bytes → Bytes
  pub hex : Bytes → Text
  pub utf8 : Text → Bytes
  pub decode : Bytes → Option Text
  pub parse_url : Text → Option Url
  pub parse_date : Text → Option ℕ
  pub parse_request : Bytes → Option RequestBody
  pub parse_completion : Bytes → Option Completion
  pub recover : Text → Text → Option Text

-- Half the order of the curve.
abbrev pub half_curve_order : ℕ
half_curve_order = max_canonical_s

abbrev is_label : ℕ → Bool
is_label c = is_digit c || (leb b'a' c && leb c b'z') || c == b'-'

abbrev skip_label : Text → Text
skip_label [] = []
skip_label (c ∷ s) = let rest = skip_label s in if is_label c then rest else c ∷ s

-- `/^[a-z0-9-]+\.completions\.near\.ai$/`
abbrev is_completions_host : Text → Bool
is_completions_host h =
    not (length (skip_label h) == length h) && same (skip_label h) (codes ".completions.near.ai")

abbrev is_blank : Text → Bool
is_blank [] = true
is_blank (c ∷ s) = false

abbrev is_root : Text → Bool
is_root s = is_blank s || same s (codes "/") || same s (codes "/v1") || same s (codes "/v1/")

abbrev is_approved : Url → Bool
is_approved u =
    same u.protocol (codes "https:")
    && is_blank u.username
    && is_blank u.password
    && is_blank u.search
    && is_blank u.hash
    && is_blank u.port
    && (same u.hostname (codes "cloud-api.near.ai") || is_completions_host u.hostname)
    && is_root u.pathname

abbrev approved : Option Url → Option Url
approved none = none
approved (some u) = if is_approved u then some (record u { pathname = codes "/v1/" }) else none

-- `none` is a throw.
unfoldable pub endpoint : Platform → Text → Option Url
endpoint p value = approved (p.parse_url value)

abbrev pub has_low_s : Text → Bool
has_low_s signature = not (s_of signature == 0) && leb (s_of signature) half_curve_order

abbrev is_parity : ℕ → Bool
is_parity v = v == 0 || v == 1 || v == 27 || v == 28

unfoldable pub recover_canonical_signature : Platform → Text → Text → Option Text
recover_canonical_signature p text signature =
    if is_hex 130 signature && has_low_s signature && is_parity (v_of signature)
    then p.recover text signature
    else none

unfoldable pub sha256_hex : Platform → Bytes → Text
sha256_hex p bytes = codes "0x" ++ p.hex (p.sha256 bytes)

abbrev is_some {ℓ} : {A : Type ℓ} → Option A → Bool
is_some none = false
is_some (some a) = true

abbrev is_recovered : Option Text → Text → Bool
is_recovered none address = false
is_recovered (some signer) address = same_hex signer address

-- `/^[a-zA-Z0-9_-]{1,256}$/`
abbrev is_id : Text → Bool
is_id s =
    not (is_blank s)
    && leb (length s) 256
    && all (λ c. is_label c || (leb b'A' c && leb c b'Z') || c == b'_') s

-- The content of the one message of a user.
abbrev only_message : List (Text × Text) → Option Text
only_message [] = none
only_message ((role, content) ∷ []) = if same role (codes "user") then some content else none
only_message (m ∷ n ∷ rest) = none

abbrev pub asked_content : Option RequestBody → Text → Option Text
asked_content none model = none
asked_content (some r) model =
    if not r.stream && same r.model model then only_message r.messages else none

abbrev first_content : List Text → Option Text
first_content [] = none
first_content (c ∷ rest) = if all (λ t. not (is_blank t)) (c ∷ rest) then some c else none

abbrev answered_content : Option Completion → NearEvidence → Option Text
answered_content none e = none
answered_content (some r) e =
    if is_id r.id && same r.model e.model && same r.id e.completion_id
    then first_content r.contents
    else none

abbrev is_hash_of : Platform → Option Text → Text → Bool
is_hash_of p none h = false
is_hash_of p (some content) h = same (sha256_hex p (p.utf8 content)) h

-- What is signed.
abbrev signed_text : NearEvidence → Text
signed_text e = e.model ++ codes ":" ++ drop 2 e.request_hash ++ codes ":" ++ drop 2 e.response_hash

abbrev is_evidence : Platform → NearEvidence → Bool
is_evidence p e =
    e.schema_version == 1
    && same e.provider (codes "near")
    && same e.signature_kind (codes "provider_tee")
    && e.tls_bound
    && is_hex 40 e.signing_address
    && is_hex 64 e.attestation_ref
    && is_some (p.parse_date e.verified_at)
    && is_some (p.parse_date e.expires_at)

abbrev is_small : Transcript → Bool
is_small t = leb (length t.request_body) 16_777_216 && leb (length t.response_body) 33_554_432

-- All that is thrown is caught.
unfoldable pub verify_near_transcript : Platform → NearEvidence → Transcript → Bool
verify_near_transcript p e t =
    is_evidence p e
    && is_small t
    && is_some (endpoint p e.endpoint)
    && same (sha256_hex p t.request_body) e.request_hash
    && same (sha256_hex p t.response_body) e.response_hash
    && is_some (asked_content (p.parse_request t.request_body) e.model)
    && is_hash_of p (answered_content (p.parse_completion t.response_body) e) e.output_hash
    && same e.signature_text (signed_text e)
    && is_recovered (recover_canonical_signature p (signed_text e) e.signature) e.signing_address
