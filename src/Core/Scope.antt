-- ===== src/Core/Scope.antt =====
-- _backend/packages/core/src/indexer-scope.ts. The commitment (viem's keccak256 of the identity's
-- JSON) is a parameter.
use enclave_developer.Prelude.{ℕ, ◌++◌, Option, none, some, Bool, true, false}
use enclave_developer.Prelude.Text.{Text, lower, codes}
use enclave_developer.Prelude.Decimal.{decimal}
use enclave_developer.Core.Address.{is_configured_address}

pub record ScopeInput : Type 0 where
  pub chain_id : ℕ
  pub genesis_hash : Text
  pub deployment_id : Option Text
  pub verifier : Option Text
  pub meter : Option Text
  pub fee_vault : Option Text
  pub registry : Option Text

pub record Identity : Type 0 where
  pub genesis : Text
  pub deployment : Text
  pub verifier : Option Text
  pub meter : Option Text
  pub fee_vault : Option Text
  pub registry : Option Text

-- `isConfiguredAddress(value) ? value.toLowerCase() : null`
abbrev if_configured : Bool → Option Text → Option Text
if_configured true (some value) = some (lower value)
if_configured true none = none
if_configured false value = none

unfoldable pub normalize : Option Text → Option Text
normalize value = if_configured (is_configured_address value) value

abbrev or_empty : Option Text → Text
or_empty none = codes ""
or_empty (some t) = t

unfoldable pub identity_of : ScopeInput → Identity
identity_of input = record {
  genesis = lower input.genesis_hash;
  deployment = or_empty input.deployment_id;
  verifier = normalize input.verifier;
  meter = normalize input.meter;
  fee_vault = normalize input.fee_vault;
  registry = normalize input.registry;
}

unfoldable pub indexer_scope : (Identity → Text) → ScopeInput → Text
unfolding identity_of
indexer_scope commit input =
    codes "enclave-v2:" ++ (decimal input.chain_id ++ (codes ":" ++ commit (identity_of input)))
