-- ===== src/Indexer/Once/Safety.antt =====
-- The guard on the catalogue under `indexChainOnce` of _backend/apps/worker/src/indexer.ts.
use enclave_developer.Prelude.{
  ℕ, ◌+◌, ◌&&◌, ◌==◌, ltb, leb, ◌≡◌, ◌≢◌, inl, inr, List, Option, none, some, Bool, Bool-cases,
  Result, ok, err, Keeps, keeps, pure, get-Keeps, throw-Keeps, ◌>>◌, pure-Keeps, >>=-Keeps,
  >>-Keeps, if-Keeps, catch-Keeps,
}
use enclave_developer.Prelude.Text.{Text, same, same_iff}
use enclave_developer.Indexer.Fault.{Fault}
use enclave_developer.Indexer.Reorg.{Checkpoint}
use enclave_developer.Indexer.Reorg.Ancestor.{find_common_ancestor-Keeps}
use enclave_developer.Indexer.World.{
  World, Client, CursorStatus, CursorRow, Call, write, transaction, read_header,
}
use enclave_developer.Indexer.World.Keeps.{
  Ends, >>-Ends, write-Ends, >>-write-Ends, Holds, ask-Keeps, read_header-Keeps, write-Keeps,
  transaction-Keeps,
}
use enclave_developer.Indexer.Batch.{Deployment, Entry}
use enclave_developer.Indexer.Batch.Reads.{read_batch-Keeps}
use enclave_developer.Indexer.Once.Tables.{
  find_cursor, rebuild, store, save_cursor, quarantine, sort_entries,
}
use enclave_developer.Indexer.Once.Setup.{Context, Options, context, any_address}
use enclave_developer.Indexer.Once.Guard.{
  Guarded, NoneApproved, quarantine-NoneApproved, quarantine-Guarded, saved-IsActive, save-other,
  save_models, suspended-Guarded, rewound-Guarded,
}
use enclave_developer.Indexer.Once.{
  Start, halt, resume, Deferred, result, error, outcome, is_status, suspend, rewind, after_search,
  after_result, check_saved, check_history, look_back, give_up, finish, apply_batch, advance,
  after_start, from_saved, confirmed_limit, index_transaction, index_chain_once,
}
use enclave_developer.Indexer.Once.Others.{rebuild-Keeps, apply_events-Keeps, apply_listings-Keeps}

module _ (s : Text) where
  abbrev P : World → Type 0
  P = Holds (Guarded s)

  module _ (client : Client) (ctx : Context) where
    suspend-Keeps : (status : CursorStatus) → Keeps P (suspend client ctx status)
    unfolding suspend ◌>>◌ write
    suspend-Keeps status = record { keep = λ w g. suspended-Guarded s ctx.scope status w.db g }

    rewind-Keeps : (a : Checkpoint) (cs : List Checkpoint) → Keeps P (rewind client ctx a cs)
    unfolding rewind ◌>>◌ write pure
    rewind-Keeps a cs = record {
      keep = λ w g.
          rewound-Guarded s ctx.scope a.number (a.number + 1) _ CursorStatus.catching_up w.db g;
    }

    after_search-Keeps :
        (next : ℕ) (b : Bool) (cs : List Checkpoint) (a : Option Checkpoint)
        → Keeps P (after_search client ctx next b cs a)
    unfolding after_search
    after_search-Keeps next b cs none = >>-Keeps (suspend-Keeps _) (pure-Keeps _)
    after_search-Keeps next b cs (some a) =
        if-Keeps (a.number + 1 == next) (pure-Keeps _) (rewind-Keeps a cs)

    -- A batch of the scope itself, whose savepoint commits, leaves the guard in place: either
    -- the scope is quarantined, or its cursor is active.
    apply_batch_own :
        (limit to : ℕ) (b : Bool) (es : List Entry) (cs : List Checkpoint)
        → ctx.scope ≡ s
        → Ends (Guarded s) (apply_batch client ctx limit to b es cs)
    unfolding apply_batch
    apply_batch_own limit to b es cs own = elim (Bool-cases (ltb (to + 1) limit)) [
      | inl behind ↦ rw behind (
          >>-Ends (Guarded s) _ _ (
            >>-write-Ends (NoneApproved s) (Guarded s) _ _
              (>>-Ends (NoneApproved s) _ _ (
                write-Ends (NoneApproved s) (quarantine ctx.scope)
                  (λ db. rw own (quarantine-NoneApproved s db))))
              (λ db h. inr (save_models s ctx.scope (to + 1) cs _ db h))))
      | inr caught_up ↦ rw caught_up (
          >>-Ends (Guarded s) _ _ (
            >>-Ends (Guarded s) _ _
              (write-Ends (Guarded s) _ (λ db. rw own (inl (saved-IsActive s (to + 1) cs db))))))
    ]

    apply_batch_other :
        (limit to : ℕ) (b : Bool) (es : List Entry) (cs : List Checkpoint)
        → ctx.scope ≢ s
        → Keeps P (apply_batch client ctx limit to b es cs)
    unfolding apply_batch
    apply_batch_other limit to b es cs ne =
        let events = sort_entries es in
        >>-Keeps (write-Keeps (Guarded s) (store ctx.scope es) (λ db g. unfold store in g)) (
          >>-Keeps
            (if-Keeps (ltb (to + 1) limit)
              (>>-Keeps (apply_listings-Keeps s ctx.scope ne events)
                (write-Keeps (Guarded s) _ (quarantine-Guarded s ctx.scope)))
              (if-Keeps b (rebuild-Keeps s ctx.scope ne)
                (apply_events-Keeps s ctx.scope ne events)))
            (write-Keeps (Guarded s) _ (λ db g. save-other s ctx.scope (to + 1) cs _ db ne g)))

    batch-Keeps :
        (limit to : ℕ) (b : Bool) (es : List Entry) (cs : List Checkpoint)
        → Keeps P (transaction (apply_batch client ctx limit to b es cs))
    batch-Keeps limit to b es cs = elim (Bool-cases (same ctx.scope s)) [
      | inl own ↦
          transaction-Keeps (Guarded s) _
            λ w g a e. apply_batch_own limit to b es cs ((same_iff ctx.scope s).0 own) w a e
      | inr other ↦ transaction-Keeps (Guarded s) _ λ w g a e.
          (apply_batch_other limit to b es cs (λ q. cc (other, (same_iff ctx.scope s).1 q))).keep w
            g
    ]

    -- The savepoint of a finished rebuild.
    abbrev rebuilt : ℕ → List Checkpoint → Call (Unit {0})
    rebuilt next cs = do
      rebuild ctx.scope
      write (save_cursor ctx.scope next cs CursorStatus.active)

    rebuilt-Keeps : (next : ℕ) (cs : List Checkpoint) → Keeps P (transaction (rebuilt next cs))
    rebuilt-Keeps next cs = elim (Bool-cases (same ctx.scope s)) [
      | inl own ↦ transaction-Keeps (Guarded s) _ λ w g a e.
          >>-Ends (Guarded s) (rebuild ctx.scope) _
            (write-Ends (Guarded s) _
              (λ db. rw ((same_iff ctx.scope s).0 own) (inl (saved-IsActive s next cs db))))
            w a e
      | inr other ↦
          let ne : ctx.scope ≢ s = λ q. cc (other, (same_iff ctx.scope s).1 q) in
          transaction-Keeps (Guarded s) _ λ w g a e.
            (>>-Keeps (rebuild-Keeps s ctx.scope ne)
                (write-Keeps (Guarded s) _ (λ db h. save-other s ctx.scope next cs _ db ne h))).keep
              w g
    ]

    finish-Keeps :
        (limit next : ℕ) (cs : List Checkpoint) (b : Bool)
        → Keeps P (finish client ctx limit next cs b)
    unfolding finish
    finish-Keeps limit next cs b =
        if-Keeps (b && next == limit)
          (catch-Keeps (>>-Keeps (rebuilt-Keeps next cs) (pure-Keeps _)) (λ e. pure-Keeps _))
          (pure-Keeps _)

    advance-Keeps :
        (a : Deployment) (limit next : ℕ) (cs : List Checkpoint) (b : Bool)
        → Keeps P (advance client ctx a limit next cs b)
    unfolding advance
    advance-Keeps a limit next cs b =
        catch-Keeps
          (>>=-Keeps (read_batch-Keeps (Guarded s) client a ctx.window next _ cs)
            (λ batch. >>-Keeps (batch-Keeps limit _ b batch.0 batch.1) (pure-Keeps _)))
          (λ e. pure-Keeps _)

    after_start-Keeps :
        (a : Deployment) (limit : ℕ) (start : Start)
        → Keeps P (after_start client ctx a limit start)
    unfolding after_start
    after_start-Keeps a limit (halt e) = pure-Keeps _
    after_start-Keeps a limit (resume next cs b) =
        if-Keeps (leb limit next) (finish-Keeps limit next cs b) (advance-Keeps a limit next cs b)

    look_back-Keeps : (limit : ℕ) (cs : List Checkpoint) → Keeps P (look_back client ctx limit cs)
    unfolding look_back
    look_back-Keeps limit cs =
        >>=-Keeps
          (find_common_ancestor-Keeps P (read_header client) cs limit
            (λ n. read_header-Keeps (Guarded s) client n))
          (λ a. pure-Keeps _)

    give_up-Keeps : (e : Fault) → Keeps P (give_up client ctx e)
    unfolding give_up
    give_up-Keeps e = >>-Keeps (suspend-Keeps _) (pure-Keeps _)

    searched-Keeps :
        (next : ℕ) (b : Bool) (cs : List Checkpoint) (r : Result Fault (Option Checkpoint))
        → Keeps P (after_result client ctx next b cs r)
    unfolding after_result
    searched-Keeps next b cs (ok a) = after_search-Keeps next b cs a
    searched-Keeps next b cs (err e) = pure-Keeps _

    check_saved-Keeps :
        (limit : ℕ) (row : CursorRow) (b : Bool) (r : Result Fault (List Checkpoint))
        → Keeps P (check_saved client ctx limit row b r)
    unfolding check_saved
    check_saved-Keeps limit row b (ok cs) =
        >>=-Keeps (catch-Keeps (look_back-Keeps limit cs) give_up-Keeps)
          (searched-Keeps row.next b cs)
    check_saved-Keeps limit row b (err e) = >>-Keeps (suspend-Keeps _) (pure-Keeps _)

    from_saved-Keeps :
        (limit : ℕ) (row : Option CursorRow) → Keeps P (from_saved client ctx limit row)
    unfolding from_saved check_history
    from_saved-Keeps limit none = pure-Keeps _
    from_saved-Keeps limit (some row) =
        if-Keeps (is_status CursorStatus.rebuild_required row.status) (pure-Keeps _)
          (if-Keeps (row.next == 0) (pure-Keeps _) (check_saved-Keeps limit row _ _))

    index_transaction-Keeps : (a : Deployment) → Keeps P (index_transaction client ctx a)
    unfolding index_transaction
    index_transaction-Keeps a = >>=-Keeps get-Keeps λ w.
        >>=-Keeps (ask-Keeps (Guarded s) client.block_number) λ latest.
          >>=-Keeps (from_saved-Keeps (confirmed_limit ctx latest) (find_cursor ctx.scope w.db))
            λ start. after_start-Keeps a (confirmed_limit ctx latest) start

  outcome-Keeps : (d : Deferred) → Keeps P (outcome d)
  outcome-Keeps (result r) = pure-Keeps _
  outcome-Keeps (error e) = throw-Keeps _

  context-Keeps : (client : Client) (opts : Options) → Keeps P (context client opts)
  unfolding context
  context-Keeps client opts = search (keeps, ask-Keeps, read_header-Keeps) depth 12

  -- Whatever scope it indexes and however it ends, `indexChainOnce` keeps this of every scope: its
  -- cursor is active, or no model of the scope is approved.
  pub index_chain_once-Guarded :
      (client : Client) (opts : Options) (w : World)
      → Guarded s w.db
      → Guarded s (index_chain_once client opts w).1.db
  unfolding index_chain_once
  index_chain_once-Guarded client opts w g =
      (if-Keeps (any_address opts.addresses)
          (>>=-Keeps (context-Keeps client opts) λ ctx.
            >>=-Keeps
              (transaction-Keeps (Guarded s) _
                λ v h a e. (index_transaction-Keeps client ctx opts.addresses).keep v h)
              outcome-Keeps)
          (pure-Keeps _)).keep
        w g
