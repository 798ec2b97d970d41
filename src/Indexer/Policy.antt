-- ===== src/Indexer/Policy.antt =====
-- _backend/apps/worker/src/policy-sync.ts: the registry's events applied to the model catalogue. A
-- table is the list of its rows; `models` has the unique index (modelHash, codeHash) of
-- _backend/packages/db/src/schema.ts, whose other columns no function here reads.
pub mod Catalogue
pub mod Approval
pub mod Isolation
mod Tests
use enclave_developer.Prelude.{
  ℕ, ◌≡◌, List, [], ◌∷◌, Option, none, some, Bool, true, false, ◌&&◌, ◌||◌, ltb, ◌==◌,
  if◌then◌else◌, any, update_where, Result, ok, err,
}
use enclave_developer.Prelude.Text.{Text, same, codes}
use enclave_developer.Indexer.Fault.{Fault, bad_listing_id, invalid_payload}

pub record Listing : Type 0 where
  pub listing_id : ℕ
  pub model_hash : Text
  pub code_hash : Text
  pub provider : Text

pub data RegistryEvent : Type 0 where
  listed : Listing → RegistryEvent
  approved : ℕ → RegistryEvent
  revoked : ℕ → RegistryEvent

abbrev pub listing_of : RegistryEvent → ℕ
listing_of (listed l) = l.listing_id
listing_of (approved id) = id
listing_of (revoked id) = id

pub record Model : Type 0 where
  pub model_hash : Text
  pub code_hash : Text
  pub version : Text
  pub provider : Text
  pub approved : Bool
  pub revoked : Bool
  pub listing_id : Option ℕ
  pub chain_scope : Option Text

abbrev pub max_listing_id : ℕ
max_listing_id = 2_147_483_647

-- An SQL `=` on a nullable column, which no null satisfies.
abbrev pub is_scope : Text → Option Text → Bool
is_scope scope none = false
is_scope scope (some s) = same s scope

abbrev pub is_id : ℕ → Option ℕ → Bool
is_id id none = false
is_id id (some n) = n == id

abbrev pub in_scope : Text → Model → Bool
in_scope scope m = is_scope scope m.chain_scope

abbrev pub has_listing : Text → ℕ → Model → Bool
has_listing scope id m = in_scope scope m && is_id id m.listing_id

abbrev pub has_hashes : Listing → Model → Bool
has_hashes l m = same m.model_hash l.model_hash && same m.code_hash l.code_hash

abbrev pub new_model : Text → Listing → Model
new_model scope l = record {
  model_hash = l.model_hash;
  code_hash = l.code_hash;
  version = codes "chain";
  provider = l.provider;
  approved = false;
  revoked = false;
  listing_id = some l.listing_id;
  chain_scope = some scope;
}

abbrev pub relist : Text → Listing → Model → Model
relist scope l m = record m {
  listing_id = some l.listing_id;
  chain_scope = some scope;
  approved = false;
  revoked = false;
}

-- `insert … onConflictDoUpdate` on the unique pair of hashes.
upsert : Text → Listing → List Model → List Model
upsert scope l models =
    if any (has_hashes l) models
    then update_where (has_hashes l) (relist scope l) models
    else new_model scope l ∷ models

abbrev pub set_flags : Bool → Bool → Model → Model
set_flags is_approved is_revoked m = record m { approved = is_approved; revoked = is_revoked }

write_event : Text → RegistryEvent → List Model → List Model
unfolding upsert
write_event scope (listed l) models = upsert scope l models
write_event scope (approved id) models =
    update_where (has_listing scope id) (set_flags true false) models
write_event scope (revoked id) models =
    update_where (has_listing scope id) (set_flags false true) models

abbrev pub out_of_range : ℕ → Bool
out_of_range id = ltb id 1 || ltb max_listing_id id

unfoldable pub apply_registry_sync : RegistryEvent → Text → List Model → Result Fault (List Model)
unfolding write_event
apply_registry_sync event scope models =
    if out_of_range (listing_of event)
    then err bad_listing_id
    else ok (write_event scope event models)

unfoldable pub quarantine_registry_scope : Text → List Model → List Model
quarantine_registry_scope scope models = update_where (in_scope scope) (set_flags false true) models

-- The first statement of `rebuildRegistryPolicy`.
unfoldable pub disable_scope : Text → List Model → List Model
disable_scope scope models =
    update_where (in_scope scope)
      (λ m. record m { approved = false; revoked = true; listing_id = none }) models

-- A journal payload is the JSON of the event that it holds, if it holds one of the schema's form.
abbrev pub Payload : Type 0
Payload = Option RegistryEvent

unfoldable pub registry_event_from_payload : Payload → Result Fault RegistryEvent
registry_event_from_payload none = err invalid_payload
registry_event_from_payload (some event) =
    if out_of_range (listing_of event) then err invalid_payload else ok event

-- The loop of `rebuildRegistryPolicy` over the payloads in block and log order.
replay : Text → List Payload → List Model → Result Fault (List Model)
unfolding registry_event_from_payload apply_registry_sync
replay scope [] models = ok models
replay scope (payload ∷ payloads) models = elim (registry_event_from_payload payload) [
  | err e ↦ err e
  | ok event ↦ elim (apply_registry_sync event scope models) [
    | err e ↦ err e
    | ok next ↦ replay scope payloads next
  ]
]

unfoldable pub rebuild_registry_policy :
    Text → List Payload → List Model → Result Fault (List Model)
unfolding disable_scope replay
rebuild_registry_policy scope payloads models = replay scope payloads (disable_scope scope models)
