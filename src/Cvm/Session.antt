-- ===== src/Cvm/Session.antt =====
-- The session descriptors of a managed gateway in _backend/packages/core/src/cvm.ts.
use enclave_developer.Prelude.{
  ℕ, Option, Bool, none, some, false, ◌++◌, ◌&&◌, ◌||◌, ◌==◌, leb, [], if◌then◌else◌,
}
use enclave_developer.Prelude.Text.{Text, codes, same, same_hex, is_hex}
use enclave_developer.Cvm.Near.{has_low_s}
use enclave_developer.Authorization.{v_of}
use enclave_developer.Tcb.Policy.{TcbPolicy, Digests, measurement_of, max_safe_integer}
use enclave_developer.Tcb.Quote.{Vendor, AttestationQuote, quote_payload, distance, five_minutes}

abbrev gateway_provider_marker : Text
gateway_provider_marker = codes "near-provider:verify-before-inference"

-- The descriptor, with the signature that it gets.
unfoldable pub gateway_session : Digests → TcbPolicy → ℕ → Text → AttestationQuote
gateway_session d policy now signature = record {
  cpu_quote = codes "gateway-session:" ++ policy.serving_image_id;
  gpu_quote = gateway_provider_marker;
  measurement = measurement_of d policy;
  tcb_version = policy.version;
  timestamp = some now;
  signature = signature;
}

abbrev pub payload_at : AttestationQuote → ℕ → Text
payload_at q timestamp = quote_payload q.cpu_quote q.gpu_quote q.measurement q.tcb_version timestamp

abbrev signed_session : Digests → Option (Text → Text) → TcbPolicy → ℕ → Option AttestationQuote
signed_session d none policy now = none
signed_session d (some sign) policy now =
    if leb now max_safe_integer
    then some
        (gateway_session d policy now (sign (payload_at (gateway_session d policy now []) now)))
    else none

-- `none` is the throw without a key, or at a moment that is not a safe integer.
unfoldable pub gateway_session_quote : Digests → Vendor → TcbPolicy → ℕ → Option AttestationQuote
gateway_session_quote d v policy now = signed_session d v.sign policy now

abbrev is_expected : AttestationQuote → AttestationQuote → Bool
is_expected q expected =
    same q.cpu_quote expected.cpu_quote
    && same q.gpu_quote expected.gpu_quote
    && is_hex 64 q.measurement
    && same q.measurement expected.measurement
    && q.tcb_version == expected.tcb_version

abbrev pub is_canonical : Text → Bool
is_canonical signature =
    is_hex 130 signature && has_low_s signature && (v_of signature == 27 || v_of signature == 28)

abbrev is_issuer : Option Text → Text → Bool
is_issuer none issuer = false
is_issuer (some recovered) issuer = same_hex recovered issuer

abbrev is_signed : Vendor → AttestationQuote → Option ℕ → Option ℕ → Bool
is_signed v q (some now) (some timestamp) =
    leb (distance now timestamp) five_minutes
    && is_canonical q.signature
    && is_issuer (v.recover (payload_at q timestamp) q.signature) v.address
is_signed v q now timestamp = false

-- `false` is a throw.
unfoldable pub verify_gateway_session :
    Digests → Vendor → AttestationQuote → TcbPolicy → Option ℕ → Bool
verify_gateway_session d v q policy now =
    is_expected q (gateway_session d policy 0 []) && is_signed v q now q.timestamp
