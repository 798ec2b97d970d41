-- ===== src/Indexer/Policy/Catalogue.antt =====
-- The catalogue of policy-sync.ts as a table with a unique index on the pair of hashes.
use enclave_developer.Prelude.{
  ◌≡◌, sym, ◌∙◌, or-false-left, and-false, inl, inr, refl, List, [], ◌∷◌, Bool, false, arith,
  Bool-cases, Result-cases, if◌then◌else◌, any, update_where, All, ok,
}
use enclave_developer.Prelude.Text.{Text, same, same_iff}
use enclave_developer.Indexer.Policy.{
  Model, Listing, RegistryEvent, listed, approved, revoked, Payload, has_hashes, upsert,
  write_event, apply_registry_sync, quarantine_registry_scope, disable_scope, replay,
  rebuild_registry_policy, relist, new_model, registry_event_from_payload,
}

abbrev pub SameHashes : Model → Model → Type 0
SameHashes a b = (a.model_hash ≡ b.model_hash) × (a.code_hash ≡ b.code_hash)

-- The unique index of the table.
abbrev pub IsUnique : List Model → Type 0
IsUnique [] = Unit {0}
IsUnique (m ∷ ms) = All (λ n. ¬ SameHashes m n) ms × IsUnique ms

abbrev KeepsHashes : (Model → Model) → Type 0
KeepsHashes f = (m : Model) → SameHashes (f m) m

module _ (p : Model → Bool) (f : Model → Model) (keeps : KeepsHashes f) where
  touched : (m : Model) → SameHashes (if p m then f m else m) m
  touched m = ground (arith, keeps m)

  All-update :
      (m m' : Model) (ms : List Model)
      → SameHashes m' m
      → All (λ n. ¬ SameHashes m n) ms
      → All (λ n. ¬ SameHashes m' n) (update_where p f ms)
  All-update m m' [] e h = tt
  All-update m m' (n ∷ ms) e (h, hs) = (
    λ d. h (sym e.0 ∙ d.0 ∙ (touched n).0, sym e.1 ∙ d.1 ∙ (touched n).1),
    All-update m m' ms e hs,
  )

  update-IsUnique : (ms : List Model) → IsUnique ms → IsUnique (update_where p f ms)
  update-IsUnique [] h = tt
  update-IsUnique (m ∷ ms) (h, hs) =
      (All-update m (if p m then f m else m) ms (touched m) h, update-IsUnique ms hs)

any-false :
    (l : Listing) (m : Model) (ms : List Model)
    → m.model_hash ≡ l.model_hash
    → m.code_hash ≡ l.code_hash
    → any (has_hashes l) ms ≡ false
    → All (λ n. ¬ SameHashes m n) ms
any-false l m [] p q h = tt
any-false l m (n ∷ ms) p q h = (
  λ d. elim (Bool-cases (has_hashes l n)) [
    | inl hit ↦ cc (or-false-left (has_hashes l n) (any (has_hashes l) ms) h)
    | inr miss ↦
        and-false (same n.model_hash l.model_hash) (same n.code_hash l.code_hash) miss
          ((same_iff _ _).1 (sym d.0 ∙ p)) ((same_iff _ _).1 (sym d.1 ∙ q))
  ],
  any-false l m ms p q (ground arith),
)

upsert-IsUnique :
    (scope : Text) (l : Listing) (ms : List Model) → IsUnique ms → IsUnique (upsert scope l ms)
unfolding upsert
upsert-IsUnique scope l ms h = elim (Bool-cases (any (has_hashes l) ms)) [
  | inl listed_before ↦
      rw (listed_before, upsert)
        (update-IsUnique (has_hashes l) (relist scope l) (λ m. (refl, refl)) ms h)
  | inr first_listing ↦
      rw (first_listing, upsert) (any-false l (new_model scope l) ms refl refl first_listing, h)
]

write_event-IsUnique :
    (scope : Text) (event : RegistryEvent) (ms : List Model)
    → IsUnique ms
    → IsUnique (write_event scope event ms)
unfolding write_event
write_event-IsUnique scope (listed l) ms h = upsert-IsUnique scope l ms h
write_event-IsUnique scope (approved id) ms h = update-IsUnique _ _ (λ m. (refl, refl)) ms h
write_event-IsUnique scope (revoked id) ms h = update-IsUnique _ _ (λ m. (refl, refl)) ms h

pub apply-IsUnique :
    (scope : Text) (event : RegistryEvent) (ms : List Model) {next : List Model}
    → IsUnique ms
    → apply_registry_sync event scope ms ≡ ok next
    → IsUnique next
unfolding apply_registry_sync
apply-IsUnique scope event ms h e = ground (arith, write_event-IsUnique scope event ms h)

pub quarantine-IsUnique :
    (scope : Text) (ms : List Model) → IsUnique ms → IsUnique (quarantine_registry_scope scope ms)
unfolding quarantine_registry_scope
quarantine-IsUnique scope ms h = update-IsUnique _ _ (λ m. (refl, refl)) ms h

replay-IsUnique :
    (scope : Text) (payloads : List Payload) (ms : List Model) {next : List Model}
    → IsUnique ms
    → replay scope payloads ms ≡ ok next
    → IsUnique next
unfolding replay
replay-IsUnique scope [] ms h e = ground arith
replay-IsUnique scope (payload ∷ payloads) ms h e =
    elim (Result-cases (registry_event_from_payload payload)) [
      | inr (f, bad) ↦ ground arith
      | inl (event, good) ↦ elim (Result-cases (apply_registry_sync event scope ms)) [
        | inr (f, bad) ↦ ground arith
        | inl (after, done) ↦
            replay-IsUnique scope payloads after (apply-IsUnique scope event ms h done)
              (ground arith)
      ]
    ]

-- A catalogue that `rebuildRegistryPolicy` returns has no two rows for one pair of hashes, if it
-- had none before.
pub rebuild-IsUnique :
    (scope : Text) (payloads : List Payload) (ms : List Model) {next : List Model}
    → IsUnique ms
    → rebuild_registry_policy scope payloads ms ≡ ok next
    → IsUnique next
unfolding rebuild_registry_policy disable_scope
rebuild-IsUnique scope payloads ms h e =
    replay-IsUnique scope payloads (disable_scope scope ms)
      (update-IsUnique _ _ (λ m. (refl, refl)) ms h) e
