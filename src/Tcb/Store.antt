-- ===== src/Tcb/Store.antt =====
-- The table and the process of _backend/apps/api/src/tcb-lifecycle.ts, with the statements that it
-- makes: `createTcbStore`, and the rows and patches that `TcbLifecycle` writes. The advisory lock
-- makes the transactions follow each other. The approval by the chain is a parameter: it gets the
-- number of calls before it, and `none` is a throw.
use enclave_developer.Prelude.{
  ℕ, List, [], ◌∷◌, ◌++◌, Option, none, some, Bool, true, false, ◌&&◌, not, ltb, ◌==◌,
  if◌then◌else◌, Result, ok, err, Exec, pure, throw,
}
use enclave_developer.Prelude.Text.{Text, same}
use enclave_developer.Tcb.Policy.{TcbFault, TcbPolicy, PolicyRecord, Digests}
use enclave_developer.Tcb.Rows.{
  pending, active, retired, Mode, legacy, TcbRow, TcbState, is_pending,
}

pub record World : Type 0 where
  pub rows : List TcbRow
  pub is_initialized : Bool
  pub clock : ℕ

pub record Binding : Type 0 where
  pub mode : Mode
  pub scope : Option Text

-- What `verifyTcbApproval` is asked about.
pub record ApprovalRequest : Type 0 where
  pub model_hash : Text
  pub code_hash : Text
  pub policy_hash : Text
  pub version : ℕ

pub record Lifecycle : Type 0 where
  pub digests : Digests
  pub bootstrap : TcbPolicy
  pub model_hash : Text
  pub allow_local_bootstrap : Bool
  pub arc_chain_id : ℕ
  pub approve : ℕ → ApprovalRequest → Option Binding

abbrev pub Call : Type 0 → Type 0
Call A = Exec World TcbFault A

unfoldable pub settle :
    {A : Type 0} → List TcbRow → Result TcbFault A × World → Result TcbFault A × World
settle rows (ok a, w) = (ok a, w)
settle rows (err e, w) = (err e, record w { rows = rows })

-- `store.exclusive`: a throw restores the table.
unfoldable pub exclusive : {A : Type 0} → Call A → Call A
unfolding settle
exclusive m w = settle w.rows (m w)

unfoldable pub write : (List TcbRow → List TcbRow) → Call (Unit {0})
write f w = (ok tt, record w { rows = f w.rows })

unfoldable pub guard : Bool → TcbFault → Call (Unit {0})
guard b e = if b then pure tt else throw e

abbrev pub has_version : ℕ → TcbRow → Bool
has_version version r = r.version == version

abbrev pub same_key : Text → Option Text → Bool
same_key key none = false
same_key key (some k) = same k key

abbrev pub is_set : {A : Type 0} → Option A → Bool
is_set none = false
is_set (some a) = true

abbrev pub or_else : {A : Type 0} → Option A → A → A
or_else none a = a
or_else (some b) a = b

-- `canonicalTcbPolicy(a) === canonicalTcbPolicy(b)` of valid policies.
abbrev pub same_policy : TcbPolicy → TcbPolicy → Bool
same_policy a b = a.version == b.version && same a.serving_image_id b.serving_image_id

-- A row that no activation has touched.
abbrev pub untouched : TcbRow → Bool
untouched r =
    is_pending r.status
    && not (is_set r.activation_mode)
    && not r.is_dated
    && not (is_set r.activation_key)

abbrev pub new_row : PolicyRecord → TcbPolicy → TcbRow
new_row r policy = record {
  version = r.version;
  serving_image_id = r.serving_image_id;
  measurement = r.measurement;
  policy_hash = some r.policy_hash;
  policy_json = some (some policy);
  status = pending;
  proposal_key = none;
  activation_key = none;
  activation_request_hash = none;
  activation_mode = none;
  activation_scope = none;
  is_dated = false;
}

-- The patch of the first start.
abbrev pub admit : PolicyRecord → TcbPolicy → TcbRow → TcbRow
admit r policy row = record row {
  policy_hash = some r.policy_hash;
  policy_json = some (some policy);
  status = active;
  activation_mode = some legacy;
  activation_scope = none;
  is_dated = true;
}

-- The patch of an activation.
abbrev pub activated : TcbState → Text → Text → Binding → TcbRow → TcbRow
activated state key request binding row = record row {
  status = active;
  policy_hash = some state.details.policy_hash;
  policy_json = some (some state.policy);
  activation_key = some key;
  activation_request_hash = some request;
  activation_mode = some binding.mode;
  activation_scope = binding.scope;
  is_dated = true;
}

abbrev pub retire : TcbRow → TcbRow
retire row = record row { status = retired }

abbrev pub insert_row : TcbRow → List TcbRow → List TcbRow
insert_row row rows = rows ++ row ∷ []

-- `Math.max(...versions)`, of a list that is not empty.
abbrev pub max_version : List TcbRow → ℕ
max_version [] = 0
max_version (r ∷ rows) =
    let rest = max_version rows in if ltb rest r.version then r.version else rest
