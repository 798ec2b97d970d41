-- ===== src/Indexer/Policy/Tests.antt =====
-- Runs of policy-sync.ts on a catalogue of two models, and the theorems at them.
use enclave_developer.Prelude.{
  arith, ◌≡◌, ◌≢◌, refl, List, [], ◌∷◌, none, some, true, false, All, Some, ok,
}
use enclave_developer.Prelude.Text.{Text, codes, same, same_iff}
use enclave_developer.Indexer.Policy.{
  Model, RegistryEvent, listed, approved, Payload, rebuild_registry_policy,
}
use enclave_developer.Indexer.Policy.Catalogue.{IsUnique, rebuild-IsUnique}
use enclave_developer.Indexer.Policy.Approval.{Backed, IsApproval, rebuild-approved}
use enclave_developer.Indexer.Policy.Isolation.{Unapproved, rebuild-Unapproved}

abbrev model : Text → Text → Text → Model
model hash provider scope = record {
  model_hash = hash;
  code_hash = codes "code";
  version = codes "1";
  provider = provider;
  approved = true;
  revoked = false;
  listing_id = some 4;
  chain_scope = some scope;
}

abbrev here : Text
here = codes "here"

abbrev there : Text
there = codes "there"

here_ne_there : here ≢ there
unfolding same
here_ne_there e = let x = (same_iff here there).1 e in ground arith

abbrev catalogue : List Model
catalogue = model (codes "m") (codes "p") here ∷ model (codes "n") (codes "q") here ∷ []

abbrev relisted : RegistryEvent
relisted = listed (record {
  listing_id = 5;
  model_hash = codes "n";
  code_hash = codes "code";
  provider = codes "p";
})

abbrev payloads : List Payload
payloads = some relisted ∷ some (approved 5) ∷ []

abbrev disabled : Model → Model
disabled m = record m { approved = false; revoked = true; listing_id = none }

-- Only the model that the events list and approve is approved.
abbrev rebuilt : List Model
rebuilt =
    disabled (model (codes "m") (codes "p") here)
    ∷ record (model (codes "n") (codes "q") here) { listing_id = some 5 }
    ∷ []

rebuild_run : rebuild_registry_policy here payloads catalogue ≡ ok rebuilt
unfolding rebuild_registry_policy same
rebuild_run = refl

catalogue-IsUnique : IsUnique catalogue
unfolding same
catalogue-IsUnique =
    ((λ h. let x = (same_iff (codes "m") (codes "n")).1 h.0 in ground arith, tt), (tt, tt))

rebuild-IsUnique_example : IsUnique rebuilt
rebuild-IsUnique_example = rebuild-IsUnique here payloads catalogue catalogue-IsUnique rebuild_run

rebuild-approved_example : All (Backed here (λ id. Some (IsApproval id) payloads)) rebuilt
rebuild-approved_example = rebuild-approved here payloads catalogue rebuild_run

rebuild-Unapproved_example : All (Unapproved there) rebuilt
unfolding same
rebuild-Unapproved_example =
    rebuild-Unapproved there here payloads catalogue here_ne_there
      (ground arith, (ground arith, tt)) rebuild_run
