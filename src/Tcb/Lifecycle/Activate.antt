-- ===== src/Tcb/Lifecycle/Activate.antt =====
-- `activate` of _backend/apps/api/src/tcb-lifecycle.ts.
pub mod Switch
pub mod Forward
use enclave_developer.Prelude.{
  ℕ, ◌++◌, Option, none, some, Bool, true, false, ◌&&◌, ltb, ◌==◌, if◌then◌else◌, ok, err, pure,
  throw, find_first, from_result, get, ◌+◌, update_where, ◌>>=◌, ◌>>◌,
}
use enclave_developer.Prelude.Text.{Text, codes}
use enclave_developer.Tcb.Policy.{
  invalid_version, invalid_key, not_proposed, key_has_other_activation, active_changed,
  not_newer_pending, approval_failed,
}
use enclave_developer.Tcb.Rows.{
  TcbRow, TcbState, is_pending, version_valid, is_mutation_key, policy_state, active_row, is_active,
  local_fixture,
}
use enclave_developer.Prelude.Decimal.{decimal}
use enclave_developer.Tcb.Store.{
  Binding, ApprovalRequest, Lifecycle, Call, exclusive, write, guard, has_version, same_key,
  or_else, activated, retire,
}
use enclave_developer.Tcb.Lifecycle.{Activation, initialize, saved_state}

module _ (service : Lifecycle) where
  ask_approval : ApprovalRequest → Call Binding
  ask_approval request w = (
    elim (service.approve w.clock request) [ none ↦ err approval_failed | some b ↦ ok b ],
    record w { clock = w.clock + 1 },
  )

  -- The binding of an activation, without the chain on a local one.
  bind : TcbState → ℕ → Call Binding
  unfolding ask_approval
  bind state version =
      if service.allow_local_bootstrap && service.arc_chain_id == 31337
      then pure (record { mode = local_fixture; scope = some (codes "local-fixture:31337") })
      else ask_approval (record {
        model_hash = service.model_hash;
        code_hash = state.details.measurement;
        policy_hash = state.details.policy_hash;
        version = version;
      })

  -- A row that has the key already belongs to this very request.
  check_repeated : ℕ → Text → Option TcbRow → Bool
  check_repeated version request none = true
  check_repeated version request (some r) =
      r.version == version && same_key request r.activation_request_hash

  -- The two updates, and what they make of the row.
  switch : TcbRow → TcbState → Text → Text → ℕ → Call Activation
  unfolding bind
  switch row state key request version = do
    binding ← bind state version
    write (update_where (has_version row.version) retire)
    write (update_where (has_version version) (activated state key request binding))
    previous ← from_result (policy_state service.digests row)
    now ← saved_state service version
    pure (record { previous = previous; current = now; already_active = false })

  activate_target : TcbRow → TcbRow → Text → Text → ℕ → ℕ → Call Activation
  unfolding switch
  activate_target row target key request version expected =
      if is_active target.status && same_key key target.activation_key
      then (do
        previous ← from_result (policy_state service.digests row)
        now ← from_result (policy_state service.digests target)
        pure (record { previous = previous; current = now; already_active = true }))
      else (do
        guard (row.version == expected) active_changed
        guard (is_pending target.status && ltb row.version version) not_newer_pending
        state ← from_result (policy_state service.digests target)
        switch row state key request version)

  if_target : TcbRow → Option TcbRow → Text → Text → ℕ → ℕ → Call Activation
  unfolding activate_target
  if_target row none key request version expected = throw not_proposed
  if_target row (some target) key request version expected =
      activate_target row target key request version expected

  activate_call : Text → Text → ℕ → ℕ → Call Activation
  unfolding check_repeated if_target
  activate_call key request version expected = do
    w ← get
    row ← from_result (active_row w.rows)
    guard (check_repeated version request (find_first (λ r. same_key key r.activation_key) w.rows))
        key_has_other_activation
    if_target row (find_first (has_version version) w.rows) key request version expected

  -- `idempotencyKey ?? …`
  abbrev activation_key_of : Option Text → ℕ → ℕ → Text
  activation_key_of given version expected =
      or_else given (codes "activation:" ++ (decimal expected ++ (codes ":" ++ decimal version)))

  unfoldable pub activate : ℕ → ℕ → Option Text → Call Activation
  unfolding activate_call
  activate version expected given =
      let key = activation_key_of given version expected in
      let request = service.digests.sha256 (service.digests.stringify_request version expected) in
      do
        guard (version_valid version) invalid_version
        guard (version_valid expected) invalid_version
        guard (is_mutation_key key) invalid_key
        initialize service
        exclusive (activate_call key request version expected)
