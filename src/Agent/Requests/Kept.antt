-- ===== src/Agent/Requests/Kept.antt =====
-- The methods in _backend/apps/api/src/agent-runtime.ts that an owner calls against the ledgers.
use enclave_developer.Prelude.{
  ℕ, ◌∙◌, ◌+◌, ◌≡◌, arith, refl, Option, throw-Keeps, some, none, Bool, pure-Keeps, suc, >>=-Keeps,
  false, true, if-Keeps, zero,
}
use enclave_developer.Agent.Gateway.{Host, CreateBody}
use enclave_developer.Agent.Requests.{
  first_row, create_row, headed, cancel, create, create_body, create_valid, encrypted, get_details,
  key_or_fail, output_for, snapshot, Snapshot,
}
use enclave_developer.Prelude.Text.{Text, codes}
use enclave_developer.Agent.Run.{Action, State}
use enclave_developer.Agent.Host.Makes.{
  Kept, Follows, Triple-Kept, kept, Reads-Triple, action-Reads, guard-Kept, get_run-Kept,
  actions_of-Kept,
}
use enclave_developer.Agent.Leases.Chains.{IsFirst}
use enclave_developer.Prelude.Triples.{
  >>=-Triple, assume-Triple, before-Triple, Keeps-Triple, >>-Triple, pure-Triple,
}
use enclave_developer.Agent.Leases.Marked.{Journaled, insert-Journaled}

module _ (host : Host) where
  made-IsFirst :
      (owner id : Text) (body : CreateBody) (sealed : Text) (now : ℕ) (a : Action)
      → Follows host (first_row host owner id body sealed now) (codes "created") a
      → IsFirst host.zero_hash (headed host (first_row host owner id body sealed now) a) a
  unfolding first_row
  made-IsFirst owner id body sealed now a (p, q, r) = record {
    of_run = p;
    first = q ∙ (let e : 0 + 1 ≡ 1 = omega arith in e);
    from_zero = r;
    head = refl;
    counted = refl;
  }

  create_row-Kept :
      (owner id : Text) (body : CreateBody) (sealed : Text) (now : ℕ)
      → Kept host (create_row host owner body (first_row host owner id body sealed now))
  unfolding create_row
  create_row-Kept owner id body sealed now = Triple-Kept host (
      >>=-Triple (Reads-Triple host (action-Reads host _ _ _)) (λ a.
        assume-Triple (λ w p. p.0)
          (λ f.
            before-Triple {P' = Journaled host.zero_hash} (λ w p. p.1)
              (>>=-Triple
                (Keeps-Triple
                  (insert-Journaled host.zero_hash host.process _ a
                    (made-IsFirst owner id body sealed now a f))
                  (λ w p. p))
                (λ saved.
                  >>-Triple (Keeps-Triple (guard-Kept host _ _) (λ w p. p))
                    (pure-Triple saved (λ w p. p)))))))

  create_valid-Kept :
      (api_key owner : Text) (body : CreateBody) → Kept host (create_valid host api_key owner body)
  unfolding create_valid
  create_valid-Kept api_key owner body = search (kept, create_row-Kept) depth 20

  create_body-Kept :
      (api_key owner : Text) (body : Option CreateBody)
      → Kept host (create_body host api_key owner body)
  unfolding create_body
  create_body-Kept api_key owner none = throw-Keeps _
  create_body-Kept api_key owner (some body) = create_valid-Kept api_key owner body

  pub create-Kept :
      (api_key : Text) (body : Option CreateBody) → Kept host (create host api_key body)
  unfolding create
  create-Kept api_key body = search (kept, create_body-Kept) depth 9

  pub cancel-Kept : (api_key id : Text) → Kept host (cancel host api_key id)
  unfolding cancel
  cancel-Kept api_key id = search (kept) depth 12

  snapshot-Kept : (n : ℕ) (owner id : Text) → Kept host (snapshot host n owner id)
  unfolding snapshot
  snapshot-Kept zero owner id = throw-Keeps _
  snapshot-Kept (suc n) owner id = >>=-Keeps (get_run-Kept host _ _) (λ r.
      >>=-Keeps (actions_of-Kept host _) (λ actions.
        >>=-Keeps (get_run-Kept host _ _)
          (λ again. if-Keeps _ (pure-Keeps _) (snapshot-Kept n owner id))))

  encrypted-Kept :
      (key : Text) (done : Bool) (final : Option Text) → Kept host (encrypted host key done final)
  unfolding encrypted
  encrypted-Kept key false final = pure-Keeps _
  encrypted-Kept key true none = pure-Keeps _
  encrypted-Kept key true (some text) = search (kept) depth 6

  key_or_fail-Kept : (key : Option Text) → Kept host (key_or_fail host key)
  unfolding key_or_fail
  key_or_fail-Kept none = throw-Keeps _
  key_or_fail-Kept (some key) = pure-Keeps key

  output_for-Kept :
      (api_key owner : Text) (s : Snapshot) (state : State) (session : Option Text)
      → Kept host (output_for host api_key owner s state session)
  unfolding output_for
  output_for-Kept api_key owner s state none = pure-Keeps _
  output_for-Kept api_key owner s state (some session) =
      search (kept, key_or_fail-Kept, encrypted-Kept) depth 12

  pub get_details-Kept :
      (api_key id : Text) (session : Option Text) → Kept host (get_details host api_key id session)
  unfolding get_details
  get_details-Kept api_key id session = search (kept, snapshot-Kept, output_for-Kept) depth 12
