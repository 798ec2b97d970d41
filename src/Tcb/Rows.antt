-- ===== src/Tcb/Rows.antt =====
-- The table `tcb_policy` in _backend/apps/api/src/tcb-lifecycle.ts: its rows, the checks of a
-- stored policy, and the row that is active. Dates are left out, but for whether an activation has
-- one.
use enclave_developer.Prelude.{
  ℕ, List, [], ◌∷◌, Option, none, some, Bool, true, false, ◌&&◌, ◌||◌, leb, ◌==◌, if◌then◌else◌,
  all, length, keep_if, Result, ok, err,
}
use enclave_developer.Prelude.Text.{Text, same}
use enclave_developer.Tcb.Policy.{
  TcbFault, inconsistent_policy, invalid_state, not_initialized, TcbPolicy, Json, Digests,
  PolicyRecord, parse_tcb_policy, tcb_policy_record,
}

-- The status and the mode columns are texts; `unknown` is any other text.
pub data Status : Type 0 where
  pending active retired unknown : Status

pub data Mode : Type 0 where
  legacy onchain local_fixture unknown_mode : Mode

pub record TcbRow : Type 0 where
  pub version : ℕ
  pub serving_image_id : Text
  pub measurement : Text
  pub policy_hash : Option Text
  pub policy_json : Option Json
  pub status : Status
  pub proposal_key : Option Text
  pub activation_key : Option Text
  pub activation_request_hash : Option Text
  pub activation_mode : Option Mode
  pub activation_scope : Option Text
  pub is_dated : Bool

pub record TcbState : Type 0 where
  pub policy : TcbPolicy
  pub details : PolicyRecord
  pub status : Status

abbrev pub maximum_version : ℕ
maximum_version = 2_147_483_647

-- `versionValid`, as a test.
abbrev pub version_valid : ℕ → Bool
version_valid version = leb 1 version && leb version maximum_version

abbrev is_key_character : ℕ → Bool
is_key_character c =
    (leb b'A' c && leb c b'Z')
    || (leb b'a' c && leb c b'z')
    || (leb b'0' c && leb c b'9')
    || c == b'.'
    || c == b'_'
    || c == b':'
    || c == b'-'

-- `mutationKey`, as a test.
unfoldable pub is_mutation_key : Text → Bool
is_mutation_key value = leb 1 (length value) && leb (length value) 128 && all is_key_character value

abbrev pub is_active : Status → Bool
is_active active = true
is_active _ = false

abbrev pub is_pending : Status → Bool
is_pending pending = true
is_pending _ = false

abbrev pub serving_mode : Option Mode → Bool
serving_mode (some legacy) = true
serving_mode (some onchain) = true
serving_mode (some local_fixture) = true
serving_mode _ = false

abbrev or_same : Option Text → Text → Bool
or_same none t = true
or_same (some s) t = same s t

-- `row.policyJson ? … : JSON.stringify({ … })`; the column is `none` where it is null or empty.
abbrev stored_policy : TcbRow → Option Json → Json
stored_policy row (some json) = json
stored_policy row none = some (record {
  version = row.version;
  serving_image_id = row.serving_image_id;
  require_cpu_tee = true;
  require_gpu_cc = true;
})

abbrev agrees : TcbRow → PolicyRecord → Bool
agrees row r =
    row.version == r.version
    && same row.serving_image_id r.serving_image_id
    && same row.measurement r.measurement
    && or_same row.policy_hash r.policy_hash

-- `policyOf`, with the record that it is checked against.
unfoldable pub policy_of : Digests → TcbRow → Result TcbFault (TcbPolicy × PolicyRecord)
policy_of d row = elim (parse_tcb_policy (stored_policy row row.policy_json)) [
  | err e ↦ err e
  | ok policy ↦ elim (tcb_policy_record d policy) [
    | err e ↦ err e
    | ok r ↦ if agrees row r then ok (policy, r) else err inconsistent_policy
  ]
]

abbrev is_unknown : Status → Bool
is_unknown unknown = true
is_unknown _ = false

unfoldable pub policy_state : Digests → TcbRow → Result TcbFault TcbState
policy_state d row = if is_unknown row.status then err invalid_state else elim (policy_of d row) [
  | err e ↦ err e
  | ok (policy, r) ↦ ok (record { policy = policy; details = r; status = row.status })
]

-- The only row of the list, if it serves.
abbrev pub only_serving : List TcbRow → Result TcbFault TcbRow
only_serving (row ∷ []) = if serving_mode row.activation_mode then ok row else err not_initialized
only_serving rows = err not_initialized

unfoldable pub active_row : List TcbRow → Result TcbFault TcbRow
active_row rows = only_serving (keep_if (λ r. is_active r.status) rows)
