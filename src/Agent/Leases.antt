-- ===== src/Agent/Leases.antt =====
-- The methods of `PostgresAgentRunStore` in _backend/apps/api/src/agent-runtime-store.ts beside
-- `change`: the creation of a run, its lease, and the reads. `for update skip locked` has nothing to
-- skip, since the transactions follow each other.
pub mod Ledger
pub mod Chains
pub mod Calls
pub mod Marked
use enclave_developer.Prelude.{
  ℕ, List, Option, Bool, [], false, ltb, none, ok, pure, some, suc, throw, ◌>>=◌, any,
  if◌then◌else◌, leb, ◌&&◌, ◌+◌, ◌||◌, ◌∷◌, find_first, keep_if, true, zero, ◌==◌, from_result,
  ◌>>◌, update_where, not, ◌++◌,
}
use enclave_developer.Prelude.Text.{Text, same}
use enclave_developer.Agent.Store.{
  Process, Call, is_running, is_version, transaction, conflict, runs, is_leased, is_queued,
  read_clock, has_id, assert_run_fence, guard, duplicate, is_allowed, check_failed, insert_action,
}
use enclave_developer.Agent.Run.{Run, Action, running, given}
use enclave_developer.Prelude.Sort.{sort_by}

abbrev pub ends_by : Option ℕ → ℕ → Bool
ends_by none now = false
ends_by (some until) now = leb until now

-- `order by id` on texts.
abbrev text_ltb : Text → Text → Bool
text_ltb s [] = false
text_ltb [] (d ∷ t) = true
text_ltb (c ∷ s) (d ∷ t) = ltb c d || (c == d && text_ltb s t)

abbrev first_of {ℓ} : {A : Type ℓ} → ℕ → List A → List A
first_of zero xs = []
first_of (suc n) [] = []
first_of (suc n) (x ∷ xs) = x ∷ first_of n xs

module _ (process : Process) where
  unfoldable pub has_owner : Text → Call Bool
  has_owner owner w = (ok (any (same owner) w.owners), w)

  abbrev pub is_prior : Run → Run → Bool
  is_prior r q = same q.owner r.owner && same q.idempotency_key r.idempotency_key

  prior_run : Option Run → Call Run
  prior_run none = throw conflict
  prior_run (some q) = pure q

  -- `onConflictDoNothing` is for the owner with the idempotency key alone.
  insert_call : Run → Action → Call Run
  unfolding prior_run
  insert_call r a = do
    rows ← runs
    if any (is_prior r) rows then prior_run (find_first (is_prior r) rows) else (do
      guard (not (any (has_id r.id) rows)) duplicate
      guard (is_allowed r) check_failed
      (λ w. (ok tt, record w { runs = w.runs ++ r ∷ [] }))
      insert_action a
      pure r)

  unfoldable pub insert : Run → Action → Call Run
  unfolding insert_call
  insert r a = transaction (insert_call r a)

  abbrev is_owned : Text → Text → Run → Bool
  is_owned owner id r = same r.id id && same r.owner owner

  unfoldable pub get_run : Text → Text → Call Run
  get_run owner id = do
    rows ← runs
    now ← read_clock process.time
    from_result (
        assert_run_fence (find_first (is_owned owner id) rows)
          (record { owner = some owner; token = none; version = none; fixed_now = some now }) now)

  -- `actions`, in the order of their sequence.
  unfoldable pub actions_of : Text → Call (List Action)
  actions_of id w =
      (ok (sort_by (λ (a : Action). a.sequence) (keep_if (λ a. same a.run_id id) w.actions)), w)

  -- The queued run that was created first, the first by id among such.
  abbrev pub is_before : Run → Run → Bool
  is_before r q =
      ltb r.created_at q.created_at || (r.created_at == q.created_at && text_ltb r.id q.id)

  earlier : Run → Option Run → Run
  earlier r none = r
  earlier r (some q) = if is_before q r then q else r

  first_queued : List Run → Option Run
  unfolding earlier
  first_queued [] = none
  first_queued (r ∷ rows) =
      let rest = first_queued rows in if is_queued r.status then some (earlier r rest) else rest

  abbrev pub claimed : Text → ℕ → ℕ → Run → Run
  claimed token now lease r = record r {
    status = running;
    lease_token = some token;
    lease_until = some (now + lease);
    version = r.version + 1;
    updated_at = now;
  }

  abbrev is_claimable : Run → Run → Bool
  is_claimable r q = is_version r q && is_queued q.status

  claim_found : ℕ → ℕ → Option Run → Call (Option Run)
  claim_found now lease none = pure none
  claim_found now lease (some r) = do
    rows ← runs
    token ← read_clock process.uuid
    (λ w.
        (ok tt, record w { runs = update_where (is_claimable r) (claimed token now lease) w.runs }))
    pure (if any (is_claimable r) rows then some (claimed token now lease r) else none)

  claim_call : ℕ → ℕ → Call (Option Run)
  unfolding claim_found first_queued
  claim_call now lease = do rows ← runs; claim_found now lease (first_queued rows)

  unfoldable pub claim : ℕ → ℕ → Call (Option Run)
  unfolding claim_call
  claim now lease = transaction (claim_call now lease)

  abbrev is_expired : ℕ → Run → Bool
  is_expired now r = is_running r.status && ends_by r.lease_until now

  unfoldable pub expired : ℕ → Call (List Run)
  expired now w = (
    ok (first_of 100 (sort_by (λ r. given r.lease_until 0) (keep_if (is_expired now) w.runs))),
    w,
  )

  heartbeat_found : Text → ℕ → ℕ → Option Run → Call Bool
  heartbeat_found token now lease none = pure false
  heartbeat_found token now lease (some r) =
      if is_leased token now r
      then (do
        (λ w. (
          ok tt,
          record w {
            runs =
                update_where (has_id r.id) (λ q. record q { lease_until = some (now + lease) })
                  w.runs;
          },
        ))
        pure true)
      else pure false

  heartbeat_call : Text → Text → ℕ → Call Bool
  unfolding heartbeat_found
  heartbeat_call id token lease = do
    rows ← runs
    now ← read_clock process.time
    heartbeat_found token now lease (find_first (has_id id) rows)

  unfoldable pub heartbeat : Text → Text → ℕ → Call Bool
  unfolding heartbeat_call
  heartbeat id token lease = transaction (heartbeat_call id token lease)
