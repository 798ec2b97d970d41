-- ===== src/Agent/Leases/Calls.antt =====
-- Every call of the store in _backend/apps/api/src/agent-runtime-store.ts against the ledgers.
use enclave_developer.Prelude.{
  ℕ, ◌>>◌, Result, pure, refl, Option, throw, ◌>>=◌, Keeps, any, ok, some, ◌+◌, Bool-cases, err,
  none, ◌≡◌, false, inl, ◌++◌, inr, ◌∷◌, [],
}
use enclave_developer.Prelude.Text.{Text}
use enclave_developer.Agent.Store.{
  Process, Fence, insert_action, settle, World, transaction, Call, runs, AgentFault, Change, guard,
  read_clock, has_id, change, is_leased, is_allowed, same_place,
}
use enclave_developer.Agent.Leases.{
  claim, heartbeat, insert, claim_call, claim_found, claimed, heartbeat_call, heartbeat_found,
  insert_call, prior_run, is_claimable, is_prior,
}
use enclave_developer.Agent.Leases.Chains.{
  KeepsLedger, IsFirst, Ledgered, update-IsLedgered, add-IsLedgered,
}
use enclave_developer.Agent.Run.{Run, Action}
use enclave_developer.Agent.Store.Fenced.{Reads, IsAdvanced, Untouched, change-IsAdvanced}
use enclave_developer.Prelude.Triples.{After}
use enclave_developer.Agent.Leases.Ledger.{IsNext, advance-IsLedgered}

module _ (zero_hash : Text) (process : Process) where
  settled :
      (before : World) (r : Result AgentFault Run × World)
      → Ledgered zero_hash before
      → After (λ a. Ledgered zero_hash) (λ w. Unit {0}) r
      → Ledgered zero_hash (settle before r).1
  unfolding settle
  settled before (ok a, w) h k = k
  settled before (err e, w) h k = h

  changed :
      (id : Text) (fence : Fence) (before : World) (r : Result AgentFault Run × World)
      → Ledgered zero_hash before
      → After (IsAdvanced IsNext process before id fence) (Untouched before) r
      → Ledgered zero_hash r.1
  changed id fence before (ok a, w) h k =
      advance-IsLedgered zero_hash id fence before a w h process k
  changed id fence before (err e, w) h k = rw (k.0, k.1) h

  pub change-Ledgered :
      (id : Text) (fence : Fence) (mutate : Run → Call Change)
      → ((r : Run) → Reads (IsNext r) (mutate r))
      → Keeps (Ledgered zero_hash) (change process id fence mutate)
  change-Ledgered id fence mutate reads = record {
    keep = λ w h.
        changed id fence w (change process id fence mutate w) h
          (change-IsAdvanced IsNext process id fence mutate w reads);
  }

  insert_new :
      (r : Run) (a : Action) (w : World)
      → IsFirst zero_hash r a
      → any (has_id r.id) w.runs ≡ false
      → Ledgered zero_hash w
      → After
          (λ q. Ledgered zero_hash)
          (λ v. Unit {0})
          ((insert_action a >> pure r) (record w { runs = w.runs ++ r ∷ [] }))
  unfolding insert_action ◌>>◌ pure
  insert_new r a w f e h = elim (Bool-cases (any (same_place a) w.actions)) [
    | inl taken ↦ rw taken tt
    | inr free ↦ rw free (add-IsLedgered zero_hash w.runs w.actions r a f e h)
  ]

  prior_run-Ledgered :
      (o : Option Run) (w : World)
      → Ledgered zero_hash w
      → After (λ q. Ledgered zero_hash) (λ v. Unit {0}) (prior_run process o w)
  unfolding prior_run pure throw
  prior_run-Ledgered none w h = tt
  prior_run-Ledgered (some q) w h = h

  insert_run :
      (r : Run) (a : Action) (w : World)
      → IsFirst zero_hash r a
      → Ledgered zero_hash w
      → After (λ q. Ledgered zero_hash) (λ v. Unit {0}) (insert_call process r a w)
  unfolding insert_call runs guard ◌>>=◌ ◌>>◌ pure throw
  insert_run r a w f h = elim (Bool-cases (any (is_prior process r) w.runs)) [
    | inl prior ↦ rw prior (prior_run-Ledgered _ w h)
    | inr new ↦ elim (Bool-cases (any (has_id r.id) w.runs)) [
      | inl taken ↦ rw (new, taken) tt
      | inr free ↦ elim (Bool-cases (is_allowed r)) [
        | inl allowed ↦ rw (new, free, allowed) (insert_new r a w f free h)
        | inr refused ↦ rw (new, free, refused) tt
      ]
    ]
  ]

  pub insert-Ledgered :
      (r : Run) (a : Action)
      → IsFirst zero_hash r a
      → Keeps (Ledgered zero_hash) (insert process r a)
  unfolding insert transaction
  insert-Ledgered r a f = record {
    keep = λ w h. settled w (insert_call process r a w) h (insert_run r a w f h);
  }

  claimed-KeepsLedger :
      (token : Text) (now lease : ℕ) → KeepsLedger (claimed process token now lease)
  claimed-KeepsLedger token now lease = record {
    same_id = λ r. refl;
    same_head = λ r. refl;
    same_sequence = λ r. refl;
  }

  settle-keep :
      {A : Type 0} (before : World) (r : Result AgentFault A × World)
      → Ledgered zero_hash before
      → Ledgered zero_hash r.1
      → Ledgered zero_hash (settle before r).1
  unfolding settle
  settle-keep before (ok a, w) h k = k
  settle-keep before (err e, w) h k = h

  claim_found-keep :
      (now lease : ℕ) (o : Option Run) (w : World)
      → Ledgered zero_hash w
      → Ledgered zero_hash (claim_found process now lease o w).1
  unfolding claim_found runs read_clock ◌>>=◌ ◌>>◌ pure
  claim_found-keep now lease none w h = h
  claim_found-keep now lease (some r) w h =
      update-IsLedgered zero_hash (is_claimable process r) _ w.runs w.actions
        (claimed-KeepsLedger (process.uuid w.clock) now lease) h

  pub claim-Ledgered : (now lease : ℕ) → Keeps (Ledgered zero_hash) (claim process now lease)
  unfolding claim claim_call transaction runs ◌>>=◌
  claim-Ledgered now lease = record {
    keep = λ w h. settle-keep w _ h (claim_found-keep now lease _ w h);
  }

  heartbeat_found-keep :
      (token : Text) (now lease : ℕ) (o : Option Run) (w : World)
      → Ledgered zero_hash w
      → Ledgered zero_hash (heartbeat_found process token now lease o w).1
  unfolding heartbeat_found ◌>>◌ pure
  heartbeat_found-keep token now lease none w h = h
  heartbeat_found-keep token now lease (some r) w h = elim (Bool-cases (is_leased token now r)) [
    | inl held ↦ rw held (
        update-IsLedgered zero_hash (has_id r.id) _ w.runs w.actions
          (record { same_id = λ q. refl; same_head = λ q. refl; same_sequence = λ q. refl }) h)
    | inr lost ↦ rw lost h
  ]

  pub heartbeat-Ledgered :
      (id token : Text) (lease : ℕ) → Keeps (Ledgered zero_hash) (heartbeat process id token lease)
  unfolding heartbeat heartbeat_call transaction runs read_clock ◌>>=◌
  heartbeat-Ledgered id token lease = record {
    keep = λ w h. settle-keep w _ h (
        heartbeat_found-keep token (process.time w.clock) lease _ (record w { clock = w.clock + 1 })
          h);
  }
