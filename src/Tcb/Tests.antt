-- ===== src/Tcb/Tests.antt =====
-- Runs of tcb-lifecycle.ts on a table of two policies, and the theorems at them.
use enclave_developer.Prelude.{
  ℕ, ◌≡◌, refl, [], ◌∷◌, none, some, true, false, arith, Bool, Result, ok, err, pure, throw,
  from_result, ◌>>=◌, ◌>>◌, ◌↔◌, ◌≤◌, inl,
}
use enclave_developer.Prelude.Triples.{After}
use enclave_developer.Prelude.Text.{Text, codes, same}
use enclave_developer.Tcb.Policy.{
  TcbPolicy, Digests, TcbFault, measurement_of, parse_tcb_policy, canonical_tcb_policy,
  is_valid_policy, tcb_policy_record, tcb_policy_hash,
}
use enclave_developer.Tcb.Rows.{
  TcbRow, Status, active, pending, legacy, is_mutation_key, active_row, policy_state, policy_of,
}
use enclave_developer.Tcb.Store.{World, Lifecycle, exclusive, guard, settle, write}
use enclave_developer.Tcb.Lifecycle.{saved_state, propose, initialize}
use enclave_developer.Tcb.Lifecycle.Starts.{IsSingle}
use enclave_developer.Tcb.Lifecycle.Proposals.{propose-IsSingle}
use enclave_developer.Tcb.Lifecycle.Activate.{activate}
use enclave_developer.Tcb.Lifecycle.Activate.Forward.{activate-Forward}
use enclave_developer.Tcb.Lifecycle.Activate.Switch.{OnlyActive, activate-OnlyActive}
use enclave_developer.Prelude.Decimal.{decimal}
use enclave_developer.Tcb.Quote.{
  Vendor, AttestationQuote, IsAccepted, issue_quote, verify_quote, issue-verify, verify-IsAccepted,
}

abbrev digests : Digests
digests = record {
  sha256 = λ t. t;
  stringify = λ p. codes "policy";
  stringify_request = λ a b. codes "request";
}

abbrev policy : ℕ → TcbPolicy
policy version = record {
  version = version;
  serving_image_id = codes "image";
  require_cpu_tee = true;
  require_gpu_cc = true;
}

abbrev service : Lifecycle
service = record {
  digests = digests;
  bootstrap = policy 1;
  model_hash = codes "model";
  allow_local_bootstrap = true;
  arc_chain_id = 31337;
  approve = λ t request. none;
}

abbrev row : ℕ → Status → TcbRow
row version status = record {
  version = version;
  serving_image_id = codes "image";
  measurement = measurement_of digests (policy version);
  policy_hash = some (codes "policy");
  policy_json = some (some (policy version));
  status = status;
  proposal_key = none;
  activation_key = none;
  activation_request_hash = none;
  activation_mode = some legacy;
  activation_scope = none;
  is_dated = true;
}

abbrev world : World
world = record { rows = row 1 active ∷ row 2 pending ∷ []; is_initialized = true; clock = 0 }

world-IsSingle : IsSingle world
world-IsSingle = (
  ((λ e. absurd (ground arith), tt), (tt, tt)),
  (1, (λ on. refl, (λ on. absurd (ground arith), tt))),
)

-- The activation of version 2 returns.
abbrev is_ok : {A : Type 0} → Result TcbFault A → Bool
is_ok (ok a) = true
is_ok (err e) = false

activate_run : is_ok (activate service 2 1 none world).0 ≡ true
unfolding activate saved_state initialize exclusive guard settle write ◌>>◌ ◌>>=◌ pure throw
    from_result is_mutation_key decimal active_row policy_state policy_of parse_tcb_policy
    canonical_tcb_policy is_valid_policy tcb_policy_record tcb_policy_hash measurement_of same
activate_run = refl

activate-OnlyActive_example :
    After (λ a v. OnlyActive 2 v.rows) IsSingle (activate service 2 1 none world)
activate-OnlyActive_example = activate-OnlyActive service 2 1 none world world-IsSingle

activate-Forward_example :
    After
      (λ a v. OnlyActive 2 v.rows × (1 ≤ 2))
      (λ v. v.rows ≡ world.rows)
      (activate service 2 1 none world)
activate-Forward_example =
    activate-Forward service 1 world.rows (inl (refl, refl)) 2 1 none world refl world-IsSingle

propose-IsSingle_example : IsSingle (propose service (codes "next") none none world).1
propose-IsSingle_example = propose-IsSingle service (codes "next") none none world world-IsSingle

-- A vendor whose signatures are the messages themselves.
abbrev vendor : Vendor
vendor = record {
  address = codes "0xabc";
  recover = λ message s. some (codes "0xabc");
  sign = some (λ message. message);
}

issue-verify_example :
    (q : AttestationQuote) × (issue_quote digests vendor (policy 1) 1000 ≡ some q)
    × (verify_quote digests vendor q (policy 1) (some 2000) ≡ ok tt)
issue-verify_example =
    issue-verify digests vendor (λ message. message) (policy 1) 1000 2000 (λ message. refl) refl
      refl refl (ground arith)

abbrev stale : AttestationQuote
stale = record {
  cpu_quote = codes "tdx:image";
  gpu_quote = codes "nvidia-cc:image";
  measurement = measurement_of digests (policy 1);
  tcb_version = 1;
  timestamp = some 1000;
  signature = codes "s";
}

verify-IsAccepted_example :
    (verify_quote digests vendor stale (policy 1) (some 900_000) ≡ ok tt) ↔ (
      (timestamp : ℕ) × (signer : Text) × IsAccepted digests vendor stale
        (policy 1)
        900_000
        timestamp
        signer)
verify-IsAccepted_example = verify-IsAccepted digests vendor stale (policy 1) 900_000
