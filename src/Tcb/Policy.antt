-- ===== src/Tcb/Policy.antt =====
-- _backend/packages/core/src/tcb.ts, with `measurementOf` of attestation.ts. A text is a list of
-- UTF-16 code units. The JSON text of a policy stands as the policy that it is read as, and `none`
-- is any other text; sha256 and JSON.stringify are parameters.
use enclave_developer.Prelude.{
  ℕ, suc, ◌^◌, ◌-◌, ◌++◌, Option, none, some, Bool, true, ◌&&◌, ◌||◌, not, leb, ltb, ◌==◌,
  if◌then◌else◌, all, any, length, Result, ok, err,
}
use enclave_developer.Prelude.Text.{Text, codes}
use enclave_developer.Prelude.Decimal.{decimal}

pub data TcbFault : Type 0 where
  invalid_policy invalid_version invalid_key inconsistent_policy invalid_state not_initialized :
      TcbFault
  immutable_version recovery_required key_has_other_proposal key_has_other_activation : TcbFault
  proposed_under_other_key policy_changed must_advance not_proposed active_changed not_newer_pending
        approval_failed :
      TcbFault

pub record TcbPolicy : Type 0 where
  pub version : ℕ
  pub serving_image_id : Text
  pub require_cpu_tee : Bool
  pub require_gpu_cc : Bool

pub record Digests : Type 0 where
  pub sha256 : Text → Text
  pub stringify : TcbPolicy → Text
  pub stringify_request : ℕ → ℕ → Text

abbrev pub max_safe_integer : ℕ
max_safe_integer = 2 ^ 53 - 1

-- The characters that `trim` takes away.
abbrev is_space : ℕ → Bool
is_space c =
    (leb 9 c && leb c 13)
    || c == 32
    || c == 160
    || c == 5760
    || (leb 8192 c && leb c 8202)
    || c == 8232
    || c == 8233
    || c == 8239
    || c == 8287
    || c == 12288
    || c == 65279

abbrev is_control : ℕ → Bool
is_control c = leb c 31 || c == 127

-- The test of `canonicalTcbPolicy`; the caller's type makes the version a number.
unfoldable pub is_valid_policy : TcbPolicy → Bool
is_valid_policy p =
    leb 1 p.version
    && leb p.version max_safe_integer
    && not (all is_space p.serving_image_id)
    && leb (length p.serving_image_id) 80
    && not (any is_control p.serving_image_id)
    && p.require_cpu_tee
    && p.require_gpu_cc

unfoldable pub canonical_tcb_policy : TcbPolicy → Result TcbFault TcbPolicy
canonical_tcb_policy p =
    if is_valid_policy p
    then ok (record {
      version = p.version;
      serving_image_id = p.serving_image_id;
      require_cpu_tee = true;
      require_gpu_cc = true;
    })
    else err invalid_policy

abbrev pub Json : Type 0
Json = Option TcbPolicy

unfoldable pub parse_tcb_policy : Json → Result TcbFault TcbPolicy
parse_tcb_policy none = err invalid_policy
parse_tcb_policy (some p) = canonical_tcb_policy p

unfoldable pub measurement_of : Digests → TcbPolicy → Text
measurement_of d p =
    d.sha256 (p.serving_image_id ++ (codes "|" ++ (decimal p.version ++ codes "|cpu+gpu")))

unfoldable pub tcb_policy_hash : Digests → TcbPolicy → Result TcbFault Text
tcb_policy_hash d p = elim (canonical_tcb_policy p) [
  | ok c ↦ ok (d.sha256 (d.stringify c))
  | err e ↦ err e
]

pub record PolicyRecord : Type 0 where
  pub version : ℕ
  pub serving_image_id : Text
  pub measurement : Text
  pub policy_hash : Text

unfoldable pub tcb_policy_record : Digests → TcbPolicy → Result TcbFault PolicyRecord
tcb_policy_record d p = elim (tcb_policy_hash d p) [
  | err e ↦ err e
  | ok hash ↦ ok (record {
    version = p.version;
    serving_image_id = p.serving_image_id;
    measurement = measurement_of d p;
    policy_hash = hash;
  })
]

unfoldable pub next_tcb_version : ℕ → Option ℕ
next_tcb_version current =
    if ltb current 1 || leb max_safe_integer current then none else some (suc current)
