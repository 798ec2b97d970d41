-- ===== src/Tcb/Lifecycle.antt =====
-- The class `TcbLifecycle` of _backend/apps/api/src/tcb-lifecycle.ts, but for `activate`.
pub mod Activate
pub mod Starts
pub mod Proposals
use enclave_developer.Prelude.{
  ℕ, List, [], ◌∷◌, ◌++◌, Option, none, some, Bool, true, false, ◌&&◌, not, ltb, ◌==◌,
  if◌then◌else◌, Result, ok, err, Exec, pure, throw, any, find_first, from_result, get, ◌+◌,
  update_where, ◌>>=◌, ◌>>◌, reverse,
}
use enclave_developer.Prelude.Text.{Text, same, codes}
use enclave_developer.Tcb.Policy.{
  TcbFault, TcbPolicy, PolicyRecord, Digests, invalid_version, invalid_key, immutable_version,
  recovery_required, key_has_other_proposal, proposed_under_other_key, must_advance, not_proposed,
  tcb_policy_record, tcb_policy_hash, key_has_other_activation, active_changed, not_newer_pending,
  approval_failed, policy_changed,
}
use enclave_developer.Tcb.Rows.{
  pending, active, retired, Mode, legacy, TcbRow, TcbState, is_pending, version_valid,
  is_mutation_key, policy_of, policy_state, active_row, is_active, local_fixture,
}
use enclave_developer.Prelude.Decimal.{decimal}
use enclave_developer.Tcb.Store.{
  World, Binding, ApprovalRequest, Lifecycle, Call, exclusive, write, guard, has_version, same_key,
  is_set, or_else, same_policy, untouched, new_row, admit, activated, retire, insert_row,
  max_version,
}
use enclave_developer.Prelude.Sort.{sort_by}

pub record Proposal : Type 0 where
  pub previous : TcbState
  pub recorded : TcbState

pub record Activation : Type 0 where
  pub previous : TcbState
  pub current : TcbState
  pub already_active : Bool

module _ (service : Lifecycle) where
  -- The stored policy of the configured version is the configured one.
  unfoldable pub check_existing : Option TcbRow → Call (Unit {0})
  check_existing none = pure tt
  check_existing (some row) = do
    stored ← from_result (policy_of service.digests row)
    guard (same_policy stored.0 service.bootstrap) immutable_version

  -- The first policy, written over its row if it has one.
  start : PolicyRecord → Option TcbRow → Call (Unit {0})
  start r none = write (insert_row (admit r service.bootstrap (new_row r service.bootstrap)))
  start r (some row) = write (update_where (has_version r.version) (admit r service.bootstrap))

  admit_first : PolicyRecord → Option TcbRow → List TcbRow → Call (Unit {0})
  unfolding start
  admit_first r existing rows =
      if any (λ x. is_active x.status) rows
      then (do row ← from_result (active_row rows); pure tt)
      else (do guard (not (any (λ x. not (untouched x)) rows)) recovery_required; start r existing)

  -- The transaction of `initialize`.
  bootstrap_call : Call (Unit {0})
  unfolding check_existing admit_first
  bootstrap_call = do
    guard (version_valid service.bootstrap.version) invalid_version
    r ← from_result (tcb_policy_record service.digests service.bootstrap)
    w ← get
    check_existing (find_first (has_version r.version) w.rows)
    admit_first r (find_first (has_version r.version) w.rows) w.rows

  set_initialized : Call (Unit {0})
  set_initialized w = (ok tt, record w { is_initialized = true })

  -- `initialize`: once for the process, and again after a failure.
  unfoldable pub initialize : Call (Unit {0})
  unfolding bootstrap_call set_initialized
  initialize = do
    w ← get
    if w.is_initialized then pure tt else (do exclusive bootstrap_call; set_initialized)

  unfoldable pub current : Call TcbState
  current = do
    initialize
    w ← get
    row ← from_result (active_row w.rows)
    from_result (policy_state service.digests row)

  policy_states : List TcbRow → Result TcbFault (List TcbState)
  policy_states [] = ok []
  policy_states (row ∷ rows) =
      let rest = policy_states rows in
      elim (policy_state service.digests row) [
        | err e ↦ err e
        | ok state ↦ elim rest [ err e ↦ err e | ok states ↦ ok (state ∷ states) ]
      ]

  -- `list`: the active policy, and all of them from the newest on; the sort is stable.
  unfoldable pub list_policies : Call (TcbState × List TcbState)
  unfolding policy_states
  list_policies = do
    initialize
    w ← get
    row ← from_result (active_row w.rows)
    serving ← from_result (policy_state service.digests row)
    history ← from_result (policy_states (reverse (sort_by (λ r. r.version) (reverse w.rows))))
    pure (serving, history)

  -- `assertCurrentTcb`
  unfoldable pub assert_current_tcb : Text → Call (Unit {0})
  assert_current_tcb expected_hash = do
    w ← get
    row ← from_result (active_row w.rows)
    state ← from_result (policy_state service.digests row)
    guard (same state.details.policy_hash expected_hash) policy_changed

  -- The key of a proposal that names none.
  proposal_key : TcbRow → Text → Option ℕ → Option Text → Call Text
  proposal_key row image version (some key) = pure key
  proposal_key row image version none = do
    stored ← from_result (policy_of service.digests row)
    hash ← from_result (
        tcb_policy_hash service.digests
          (record stored.0 { serving_image_id = image; version = or_else version row.version }))
    pure (codes "proposal:" ++ (decimal row.version ++ (codes ":" ++ hash)))

  -- A proposal whose key the table has.
  repeat_proposal : TcbRow → TcbRow → Text → Option ℕ → Call Proposal
  repeat_proposal row repeated image version = do
    guard
        (same repeated.serving_image_id image
          && repeated.version == or_else version repeated.version)
        key_has_other_proposal
    previous ← from_result (policy_state service.digests row)
    recorded ← from_result (policy_state service.digests repeated)
    pure (record { previous = previous; recorded = recorded })

  check_collision : Option TcbRow → TcbPolicy → Call (Unit {0})
  check_collision none policy = pure tt
  check_collision (some row) policy = do
    stored ← from_result (policy_of service.digests row)
    guard (same_policy stored.0 policy) immutable_version
    throw proposed_under_other_key

  -- `rows.find(…)!` of a row that has just been written.
  unfoldable pub saved_state : ℕ → Call TcbState
  saved_state version = do
    w ← get
    row ←
        from_result (elim (find_first (has_version version) w.rows) [
          | none ↦ err not_proposed
          | some r ↦ ok r
        ])
    from_result (policy_state service.digests row)

  -- A new proposal.
  record_proposal : TcbRow → Text → Text → ℕ → List TcbRow → Call Proposal
  unfolding check_collision saved_state
  record_proposal row key image version rows =
      let policy : TcbPolicy = record {
        version = version;
        serving_image_id = image;
        require_cpu_tee = true;
        require_gpu_cc = true;
      } in
      do
        guard (version_valid version) invalid_version
        r ← from_result (tcb_policy_record service.digests policy)
        check_collision (find_first (has_version version) rows) policy
        guard (ltb row.version version) must_advance
        write (insert_row (record (new_row r policy) { proposal_key = some key }))
        previous ← from_result (policy_state service.digests row)
        recorded ← saved_state version
        pure (record { previous = previous; recorded = recorded })

  propose_call : Text → Option ℕ → Option Text → Call Proposal
  unfolding proposal_key repeat_proposal record_proposal
  propose_call image version given_key = do
    w ← get
    row ← from_result (active_row w.rows)
    key ← proposal_key row image version given_key
    guard (is_mutation_key key) invalid_key
    elim (find_first (λ r. same_key key r.proposal_key) w.rows) [
      | some repeated ↦ repeat_proposal row repeated image version
      | none ↦ record_proposal row key image (or_else version (max_version w.rows + 1)) w.rows
    ]

  unfoldable pub propose : Text → Option ℕ → Option Text → Call Proposal
  unfolding propose_call
  propose image version given_key = do initialize; exclusive (propose_call image version given_key)
