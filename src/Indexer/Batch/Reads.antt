-- ===== src/Indexer/Batch/Reads.antt =====
-- `readBatch` of indexer.ts among conditions on the tables.
use enclave_developer.Prelude.{
  ℕ, zero, suc, ◌+◌, ◌==◌, List, [], ◌∷◌, Option, find_first, Option-cases, inl, inr, Keeps, keeps,
  pure-Keeps,
}
use enclave_developer.Prelude.Text.{Text}
use enclave_developer.Indexer.Reorg.{Checkpoint, ChainHeader}
use enclave_developer.Indexer.World.{Db, Client, Source}
use enclave_developer.Indexer.World.Keeps.{Holds, ask-Keeps, read_header-Keeps}
use enclave_developer.Indexer.Batch.{
  Deployment, Entry, get_logs, read_plain, read_registry, read_entries, cached_header, read_headers,
  check_entries, read_batch,
}

module _ (Q : Db → Type 0) (client : Client) where
  get_logs-Keeps : (s : Source) (from to : ℕ) → Keeps (Holds Q) (get_logs client s from to)
  unfolding get_logs
  get_logs-Keeps s from to = ask-Keeps Q (λ t. client.logs t s from to)

  read_plain-Keeps :
      (a : Option Text) (s : Source) (from to : ℕ) → Keeps (Holds Q) (read_plain client a s from to)
  unfolding read_plain
  read_plain-Keeps a s from to = search (keeps, get_logs-Keeps)

  read_registry-Keeps :
      (a : Option Text) (from to : ℕ) → Keeps (Holds Q) (read_registry client a from to)
  unfolding read_registry
  read_registry-Keeps a from to = search (keeps, get_logs-Keeps) depth 9

  read_entries-Keeps :
      (a : Deployment) (from to : ℕ) → Keeps (Holds Q) (read_entries client a from to)
  unfolding read_entries
  read_entries-Keeps a from to = search (keeps, read_plain-Keeps, read_registry-Keeps) depth 7

  cached_header-Keeps :
      (number : ℕ) (cache : List ChainHeader) → Keeps (Holds Q) (cached_header client number cache)
  unfolding cached_header
  cached_header-Keeps number cache =
      elim (Option-cases (find_first (λ h. h.number == number) cache)) [
        | inl missing ↦ rw (missing, cached_header) (search (keeps, read_header-Keeps))
        | inr (found, hit) ↦ rw (hit, cached_header) (pure-Keeps (found, cache))
      ]

  read_headers-Keeps :
      (count number : ℕ) (cache : List ChainHeader)
      → Keeps (Holds Q) (read_headers client count number cache)
  unfolding read_headers
  read_headers-Keeps zero number cache = pure-Keeps ([], cache)
  read_headers-Keeps (suc count) number cache =
      let rest = read_headers-Keeps count (number + 1) in search (keeps, cached_header-Keeps, rest)

  check_entries-Keeps :
      (from to : ℕ) (es : List Entry) (cache : List ChainHeader)
      → Keeps (Holds Q) (check_entries client from to es cache)
  unfolding check_entries
  check_entries-Keeps from to [] cache = pure-Keeps tt
  check_entries-Keeps from to (e ∷ es) cache =
      let rest = check_entries-Keeps from to es in search (keeps, cached_header-Keeps, rest)

  pub read_batch-Keeps :
      (a : Deployment) (window from to : ℕ) (previous : List Checkpoint)
      → Keeps (Holds Q) (read_batch client a window from to previous)
  unfolding read_batch
  read_batch-Keeps a window from to previous =
      search (keeps, read_header-Keeps, read_entries-Keeps, read_headers-Keeps, check_entries-Keeps)
        depth 9
