-- ===== src/Indexer/Policy/Approval.antt =====
-- Which models policy-sync.ts approves, against the events that approve listings.
use enclave_developer.Prelude.{
  ℕ, ◌≡◌, inl, inr, refl, ap, ◌∙◌, List, [], ◌∷◌, Option, none, some, Bool, true, false, arith,
  and-elim, Bool-cases, Result-cases, any, update_where, All, Some, All-Some, ok,
}
use mathlib.Core.Path.{subst}
use enclave_developer.Prelude.Text.{Text}
use enclave_developer.Indexer.Policy.{
  Model, RegistryEvent, listed, approved, revoked, Payload, has_hashes, in_scope, has_listing,
  is_id, upsert, write_event, apply_registry_sync, disable_scope, replay, rebuild_registry_policy,
  relist, set_flags, registry_event_from_payload,
}

module _ (scope : Text) (P : ℕ → Type 0) where
  -- A model that the scope approves carries a listing of which `P` holds.
  abbrev pub Backed : Model → Type 0
  Backed m =
      in_scope scope m ≡ true → m.approved ≡ true → (id : ℕ) × (m.listing_id ≡ some id) × P id

  update-Backed :
      (p : Model → Bool) (f : Model → Model)
      → ((m : Model) → p m ≡ true → Backed (f m))
      → (ms : List Model) → All Backed ms
      → All Backed (update_where p f ms)
  update-Backed p f hit [] h = tt
  update-Backed p f hit (m ∷ ms) (h, hs) = (
    elim (Bool-cases (p m)) [ inl yes_hit ↦ rw yes_hit (hit m yes_hit) | inr miss ↦ rw miss h ],
    update-Backed p f hit ms hs,
  )

  listed_id : (id : ℕ) (o : Option ℕ) → is_id id o ≡ true → o ≡ some id
  listed_id id none h = cc
  listed_id id (some n) h = ground arith

  write_event-Backed :
      (event : RegistryEvent) (ms : List Model)
      → ((id : ℕ) → event ≡ approved id → P id)
      → All Backed ms
      → All Backed (write_event scope event ms)
  unfolding write_event upsert
  write_event-Backed (listed l) ms back h = elim (Bool-cases (any (has_hashes l) ms)) [
    | inl old ↦ rw old (update-Backed (has_hashes l) (relist scope l) (λ m hit inside on. cc) ms h)
    | inr new ↦ rw new (λ inside on. cc, h)
  ]
  write_event-Backed (approved id) ms back h =
      update-Backed (has_listing scope id) (set_flags true false)
        (λ m hit inside on. (
          id,
          listed_id id m.listing_id (and-elim (in_scope scope m) (is_id id m.listing_id) hit).1,
          back id refl,
        ))
        ms h
  write_event-Backed (revoked id) ms back h =
      update-Backed (has_listing scope id) (set_flags false true) (λ m hit inside on. cc) ms h

  abbrev pub Backs : Payload → Type 0
  Backs payload = (id : ℕ) → payload ≡ some (approved id) → P id

  event-eq :
      (payload : Payload) {event : RegistryEvent}
      → registry_event_from_payload payload ≡ ok event
      → payload ≡ some event
  unfolding registry_event_from_payload
  event-eq none h = cc
  event-eq (some e) h = ground arith

  pub apply-Backed :
      (event : RegistryEvent) (ms : List Model) {next : List Model}
      → ((id : ℕ) → event ≡ approved id → P id)
      → All Backed ms
      → apply_registry_sync event scope ms ≡ ok next
      → All Backed next
  unfolding apply_registry_sync
  apply-Backed event ms {next} back h e =
      subst (All Backed) (let x : write_event scope event ms ≡ next = ground arith in x)
        (write_event-Backed event ms back h)

  replay-Backed :
      (payloads : List Payload) (ms : List Model) {next : List Model}
      → All Backs payloads
      → All Backed ms
      → replay scope payloads ms ≡ ok next
      → All Backed next
  unfolding replay
  replay-Backed [] ms back h e = subst (All Backed) (let x : ms ≡ _ = ground arith in x) h
  replay-Backed (payload ∷ payloads) ms (back, backs) h e =
      elim (Result-cases (registry_event_from_payload payload)) [
        | inr (f, bad) ↦ absurd (ground arith)
        | inl (event, good) ↦ elim (Result-cases (apply_registry_sync event scope ms)) [
          | inr (f, bad) ↦ absurd (ground arith)
          | inl (after, done) ↦
              replay-Backed payloads after backs
                (apply-Backed event ms (λ id q. back id (event-eq payload good ∙ ap some q)) h done)
                (ground arith)
        ]
      ]

  pub disabled-Backed : (ms : List Model) → All Backed (disable_scope scope ms)
  unfolding disable_scope
  disabled-Backed [] = tt
  disabled-Backed (m ∷ ms) = (ground arith, disabled-Backed ms)

abbrev pub IsApproval : ℕ → Payload → Type 0
IsApproval id payload = payload ≡ some (approved id)

-- After `rebuildRegistryPolicy`, a model of the scope is approved only if its listing is one that
-- an event among those replayed approved, whatever the flags were before.
pub rebuild-approved :
    (scope : Text) (payloads : List Payload) (ms : List Model) {next : List Model}
    → rebuild_registry_policy scope payloads ms ≡ ok next
    → All (Backed scope (λ id. Some (IsApproval id) payloads)) next
unfolding rebuild_registry_policy
rebuild-approved scope payloads ms e =
    replay-Backed scope (λ id. Some (IsApproval id) payloads) payloads (disable_scope scope ms)
      (All-Some IsApproval payloads) (disabled-Backed scope _ ms) e
