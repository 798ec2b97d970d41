-- ===== src/Indexer/Once/Others.antt =====
-- The registry events of one scope in _backend/apps/worker/src/indexer.ts, under the guard of another.
use enclave_developer.Prelude.{
  ◌≡◌, ◌≢◌, refl, inl, inr, List, Option, none, some, Result, ok, err, Keeps, each-Keeps,
  pure-Keeps,
}
use enclave_developer.Prelude.Text.{Text}
use enclave_developer.Indexer.Fault.{Fault}
use enclave_developer.Indexer.Policy.{
  Model, RegistryEvent, listed, rebuild_registry_policy, apply_registry_sync,
}
use enclave_developer.Indexer.Policy.Isolation.{apply-Unapproved, rebuild-Unapproved}
use enclave_developer.Indexer.World.{World}
use enclave_developer.Indexer.World.Keeps.{Holds}
use enclave_developer.Indexer.Batch.{Entry}
use enclave_developer.Indexer.Once.Tables.{
  with_models, if_event, sync, rebuild, journal, apply_events, apply_listings, if_listed,
}
use enclave_developer.Indexer.Once.Guard.{Guarded, NoneApproved}

module _ (s : Text) where
  abbrev pub P : World → Type 0
  P = Holds (Guarded s)

  module _ (scope : Text) (ne : scope ≢ s) where
    with_models_keep :
        (r : Result Fault (List Model)) (w : World)
        → ((ms : List Model)
            → r ≡ ok ms
            → NoneApproved s w.db
            → NoneApproved s (record w.db { models = ms }))
        → Guarded s w.db
        → Guarded s (with_models r w).1.db
    with_models_keep (ok ms) w h (inl on) = inl on
    with_models_keep (ok ms) w h (inr clear) = inr (h ms refl clear)
    with_models_keep (err e) w h g = g

    sync-Keeps : (event : RegistryEvent) → Keeps P (sync scope event)
    unfolding sync
    sync-Keeps event = record {
      keep = λ w g.
          with_models_keep (apply_registry_sync event scope w.db.models) w
            (λ ms e clear. apply-Unapproved s scope event w.db.models ne clear e) g;
    }

    pub rebuild-Keeps : Keeps P (rebuild scope)
    unfolding rebuild
    rebuild-Keeps = record {
      keep = λ w g.
          with_models_keep (rebuild_registry_policy scope (journal scope w.db) w.db.models) w
            (λ ms e clear. rebuild-Unapproved s scope (journal scope w.db) w.db.models ne clear e)
            g;
    }

    if_event-Keeps : (e : Option RegistryEvent) → Keeps P (if_event scope e)
    if_event-Keeps none = pure-Keeps tt
    if_event-Keeps (some event) = sync-Keeps event

    if_listed-Keeps : (e : Option RegistryEvent) → Keeps P (if_listed scope e)
    if_listed-Keeps (some (listed l)) = sync-Keeps (listed l)
    if_listed-Keeps _ = pure-Keeps tt

    pub apply_events-Keeps : (es : List Entry) → Keeps P (apply_events scope es)
    unfolding apply_events
    apply_events-Keeps es = each-Keeps (λ e. if_event-Keeps e.event) es

    pub apply_listings-Keeps : (es : List Entry) → Keeps P (apply_listings scope es)
    unfolding apply_listings
    apply_listings-Keeps es = each-Keeps (λ e. if_listed-Keeps e.event) es
