-- ===== src/Indexer/Policy/Isolation.antt =====
-- Scopes in policy-sync.ts: the approvals of one scope under what is done for it and for others.
use enclave_developer.Prelude.{
  ◌≡◌, ◌≢◌, refl, sym, ◌∙◌, inl, inr, List, [], ◌∷◌, Option, none, some, Bool, true, false, arith,
  Bool-cases, Result-cases, and-elim, any, update_where, All, ok,
}
use mathlib.Core.Path.{subst}
use enclave_developer.Prelude.Text.{Text, same_iff}
use enclave_developer.Indexer.Policy.{
  Model, RegistryEvent, listed, approved, revoked, Payload, in_scope, has_listing, is_scope, is_id,
  has_hashes, set_flags, relist, upsert, write_event, apply_registry_sync,
  quarantine_registry_scope, disable_scope, replay, rebuild_registry_policy,
  registry_event_from_payload,
}

abbrev pub Unapproved : Text → Model → Type 0
Unapproved s m = in_scope s m ≡ true → m.approved ≡ false

module _ (s : Text) where
  update-Unapproved :
      (p : Model → Bool) (f : Model → Model)
      → ((m : Model) → p m ≡ true → Unapproved s m → Unapproved s (f m))
      → (ms : List Model) → All (Unapproved s) ms
      → All (Unapproved s) (update_where p f ms)
  update-Unapproved p f hit [] h = tt
  update-Unapproved p f hit (m ∷ ms) (h, hs) = (
    elim (Bool-cases (p m)) [
      | inl touched ↦ rw touched (hit m touched h)
      | inr untouched ↦ rw untouched h
    ],
    update-Unapproved p f hit ms hs,
  )

  -- After `quarantineRegistryScope` no model of the scope is approved.
  pub quarantine-Unapproved :
      (ms : List Model) → All (Unapproved s) (quarantine_registry_scope s ms)
  unfolding quarantine_registry_scope
  quarantine-Unapproved [] = tt
  quarantine-Unapproved (m ∷ ms) = (ground arith, quarantine-Unapproved ms)

  pub quarantine_other :
      (scope : Text) (ms : List Model)
      → All (Unapproved s) ms
      → All (Unapproved s) (quarantine_registry_scope scope ms)
  unfolding quarantine_registry_scope
  quarantine_other scope ms h =
      update-Unapproved (in_scope scope) (set_flags false true) (λ m hit g inside. refl) ms h

  disable_other :
      (scope : Text) (ms : List Model)
      → All (Unapproved s) ms
      → All (Unapproved s) (disable_scope scope ms)
  unfolding disable_scope
  disable_other scope ms h =
      update-Unapproved (in_scope scope)
        (λ m. record m { approved = false; revoked = true; listing_id = none })
        (λ m hit g inside. refl) ms h

  -- No row is in two scopes.
  in_scope_once :
      (scope : Text) (o : Option Text) → is_scope scope o ≡ true → is_scope s o ≡ true → scope ≡ s
  in_scope_once scope none p q = cc
  in_scope_once scope (some t) p q = sym ((same_iff t scope).0 p) ∙ (same_iff t s).0 q

  write_event-Unapproved :
      (scope : Text) (event : RegistryEvent) (ms : List Model)
      → scope ≢ s
      → All (Unapproved s) ms
      → All (Unapproved s) (write_event scope event ms)
  unfolding write_event upsert
  write_event-Unapproved scope (listed l) ms ne h = elim (Bool-cases (any (has_hashes l) ms)) [
    | inl old ↦
        rw old (update-Unapproved (has_hashes l) (relist scope l) (λ m hit g inside. refl) ms h)
    | inr new ↦ rw new (λ inside. refl, h)
  ]
  write_event-Unapproved scope (approved id) ms ne h =
      update-Unapproved (has_listing scope id) (set_flags true false)
        (λ m hit g inside. absurd (
          ne (
            in_scope_once scope m.chain_scope
              (and-elim (in_scope scope m) (is_id id m.listing_id) hit).0 inside)))
        ms h
  write_event-Unapproved scope (revoked id) ms ne h =
      update-Unapproved (has_listing scope id) (set_flags false true) (λ m hit g inside. refl) ms h

  pub apply-Unapproved :
      (scope : Text) (event : RegistryEvent) (ms : List Model) {next : List Model}
      → scope ≢ s
      → All (Unapproved s) ms
      → apply_registry_sync event scope ms ≡ ok next
      → All (Unapproved s) next
  unfolding apply_registry_sync
  apply-Unapproved scope event ms {next} ne h e =
      subst (All (Unapproved s)) (let x : write_event scope event ms ≡ next = ground arith in x)
        (write_event-Unapproved scope event ms ne h)

  replay-Unapproved :
      (scope : Text) (payloads : List Payload) (ms : List Model) {next : List Model}
      → scope ≢ s
      → All (Unapproved s) ms
      → replay scope payloads ms ≡ ok next
      → All (Unapproved s) next
  unfolding replay
  replay-Unapproved scope [] ms ne h e =
      subst (All (Unapproved s)) (let x : ms ≡ _ = ground arith in x) h
  replay-Unapproved scope (payload ∷ payloads) ms ne h e =
      elim (Result-cases (registry_event_from_payload payload)) [
        | inr (f, bad) ↦ absurd (ground arith)
        | inl (event, good) ↦ elim (Result-cases (apply_registry_sync event scope ms)) [
          | inr (f, bad) ↦ absurd (ground arith)
          | inl (after, done) ↦
              replay-Unapproved scope payloads after ne (apply-Unapproved scope event ms ne h done)
                (ground arith)
        ]
      ]

  -- Rebuilding one scope approves no model of another: if no model of a scope is approved, none is
  -- after `rebuildRegistryPolicy` of a different scope succeeded.
  pub rebuild-Unapproved :
      (scope : Text) (payloads : List Payload) (ms : List Model) {next : List Model}
      → scope ≢ s
      → All (Unapproved s) ms
      → rebuild_registry_policy scope payloads ms ≡ ok next
      → All (Unapproved s) next
  unfolding rebuild_registry_policy
  rebuild-Unapproved scope payloads ms ne h e =
      replay-Unapproved scope payloads (disable_scope scope ms) ne (disable_other scope ms h) e
