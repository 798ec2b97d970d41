-- ===== src/Indexer/Once/Guard.antt =====
-- A guard on the catalogue in _backend/apps/worker/src/indexer.ts: a scope's cursor is active, or
-- no model of the scope is approved. Here: what each statement does to the guard.
use enclave_developer.Prelude.{
  ℕ, ◌≡◌, ◌≢◌, refl, ◌∙◌, ◌⊎◌, inl, inr, List, [], ◌∷◌, some, arith, Bool-cases, find_first,
  update_where, All,
}
use enclave_developer.Prelude.Text.{Text, same, same_iff}
use enclave_developer.Indexer.Reorg.{Checkpoint}
use enclave_developer.Indexer.Policy.Isolation.{Unapproved, quarantine-Unapproved, quarantine_other}
use enclave_developer.Indexer.World.{CursorRow, CursorStatus, Db}
use enclave_developer.Indexer.Once.Tables.{
  find_cursor, cursor_row, put_cursor, save_cursor, set_status, quarantine, delete_above,
}

abbrev pub NoneApproved : Text → Db → Type 0
NoneApproved s db = All (Unapproved s) db.models

abbrev pub IsActive : Text → Db → Type 0
IsActive s db =
    (row : CursorRow) × (find_cursor s db ≡ some row) × (row.status ≡ CursorStatus.active)

abbrev pub Guarded : Text → Db → Type 0
Guarded s db = IsActive s db ⊎ NoneApproved s db

module _ (s : Text) where
  pub quarantine-NoneApproved : (db : Db) → NoneApproved s (quarantine s db)
  unfolding quarantine
  quarantine-NoneApproved db = quarantine-Unapproved s db.models

  pub quarantine_keeps :
      (scope : Text) (db : Db) → NoneApproved s db → NoneApproved s (quarantine scope db)
  unfolding quarantine
  quarantine_keeps scope db h = quarantine_other s scope db.models h

  -- Another scope's cursor is not touched.
  find-put :
      (row : CursorRow) (cs : List CursorRow)
      → row.name ≢ s
      → find_first (λ c. same c.name s) (put_cursor row cs) ≡ find_first (λ c. same c.name s) cs
  unfolding put_cursor
  find-put row [] ne = ground (arith, same_iff row.name s)
  find-put row (c ∷ cs) ne =
      ground (
        arith,
        same_iff row.name s,
        same_iff c.name s,
        same_iff c.name row.name,
        find-put row cs ne,
      )

  find-put_self :
      (row : CursorRow) (cs : List CursorRow)
      → row.name ≡ s
      → find_first (λ c. same c.name s) (put_cursor row cs) ≡ some row
  unfolding put_cursor
  find-put_self row [] e = ground (arith, same_iff row.name s)
  find-put_self row (c ∷ cs) e = ground (
    arith,
    same_iff row.name s,
    same_iff c.name s,
    same_iff c.name row.name,
    find-put_self row cs e,
  )

  find-status :
      (scope : Text) (status : CursorStatus) (cs : List CursorRow)
      → scope ≢ s
      → find_first
          (λ c. same c.name s)
          (update_where (λ c. same c.name scope) (λ c. record c { status = status }) cs)
        ≡ find_first (λ c. same c.name s) cs
  find-status scope status [] ne = refl
  find-status scope status (c ∷ cs) ne =
      ground (arith, same_iff c.name s, same_iff c.name scope, find-status scope status cs ne)

  -- A cursor saved as active for the scope itself.
  pub saved-IsActive :
      (n : ℕ) (cs : List Checkpoint) (db : Db)
      → IsActive s (save_cursor s n cs CursorStatus.active db)
  unfolding save_cursor
  saved-IsActive n cs db = (
    cursor_row s n cs CursorStatus.active,
    find-put_self (cursor_row s n cs CursorStatus.active) db.cursors refl,
    refl,
  )

  pub save-other :
      (scope : Text) (n : ℕ) (cs : List Checkpoint) (status : CursorStatus) (db : Db)
      → scope ≢ s
      → Guarded s db
      → Guarded s (save_cursor scope n cs status db)
  unfolding save_cursor
  save-other scope n cs status db ne (inl (row, found, on)) =
      inl (row, find-put (cursor_row scope n cs status) db.cursors ne ∙ found, on)
  save-other scope n cs status db ne (inr h) = inr h

  pub set_status-other :
      (scope : Text) (status : CursorStatus) (db : Db)
      → scope ≢ s
      → Guarded s db
      → Guarded s (set_status scope status db)
  unfolding set_status
  set_status-other scope status db ne (inl (row, found, on)) =
      inl (row, find-status scope status db.cursors ne ∙ found, on)
  set_status-other scope status db ne (inr h) = inr h

  pub quarantine-Guarded : (scope : Text) (db : Db) → Guarded s db → Guarded s (quarantine scope db)
  quarantine-Guarded scope db (inl on) = inl (unfold quarantine in on)
  quarantine-Guarded scope db (inr h) = inr (quarantine_keeps scope db h)

  pub save_models :
      (scope : Text) (n : ℕ) (cs : List Checkpoint) (status : CursorStatus) (db : Db)
      → NoneApproved s db
      → NoneApproved s (save_cursor scope n cs status db)
  unfolding save_cursor
  save_models scope n cs status db h = h

  -- The two statements by which a scope is taken out of service.
  pub suspended-Guarded :
      (scope : Text) (status : CursorStatus) (db : Db)
      → Guarded s db
      → Guarded s (set_status scope status (quarantine scope db))
  suspended-Guarded scope status db h = elim (Bool-cases (same scope s)) [
    | inl own ↦
        rw ((same_iff scope s).0 own) (inr (unfold set_status in (quarantine-NoneApproved db)))
    | inr other ↦
        set_status-other scope status (quarantine scope db)
          (λ e. cc (other, (same_iff scope s).1 e)) (quarantine-Guarded scope db h)
  ]

  -- The three statements of a rewind.
  pub rewound-Guarded :
      (scope : Text) (number n : ℕ) (cs : List Checkpoint) (status : CursorStatus) (db : Db)
      → Guarded s db
      → Guarded s (save_cursor scope n cs status (delete_above scope number (quarantine scope db)))
  rewound-Guarded scope number n cs status db h = elim (Bool-cases (same scope s)) [
    | inl own ↦
        rw ((same_iff scope s).0 own)
          (inr (save_models s n cs status _ (unfold delete_above in (quarantine-NoneApproved db))))
    | inr other ↦
        save-other scope n cs status _ (λ e. cc (other, (same_iff scope s).1 e))
          (unfold delete_above in (quarantine-Guarded scope db h))
  ]
