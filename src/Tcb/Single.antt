-- ===== src/Tcb/Single.antt =====
-- Tables of policies in which no two rows have one version and at most one version is active: what
-- the statements of _backend/apps/api/src/tcb-lifecycle.ts make of them.
use enclave_developer.Prelude.{
  ℕ, ◌≡◌, ◌≢◌, refl, ◌∙◌, List, [], ◌∷◌, ◌++◌, none, true, false, Bool, All, All-map, update_where,
  find_first, keep_if, any, Bool-cases, inl, inr, arith, ok, ◌==◌, ap, Some, some,
}
use enclave_developer.Tcb.Rows.{TcbRow, is_active, active_row, only_serving}
use enclave_developer.Tcb.Store.{has_version, retire, insert_row}

abbrev pub IsUnique : List TcbRow → Type 0
IsUnique [] = Unit {0}
IsUnique (r ∷ rows) = All (λ x. r.version ≢ x.version) rows × IsUnique rows

-- A row that is active has this version.
abbrev pub IsOnly : ℕ → TcbRow → Type 0
IsOnly v r = is_active r.status ≡ true → r.version ≡ v

abbrev pub IsIdle : TcbRow → Type 0
IsIdle r = is_active r.status ≡ false

abbrev pub Single : List TcbRow → Type 0
Single rows = IsUnique rows × ((v : ℕ) × All (IsOnly v) rows)

module _ (p : TcbRow → Bool) (f : TcbRow → TcbRow)
    (same_version : (r : TcbRow) → (f r).version ≡ r.version) where
  update-apart :
      (v : ℕ) (rows : List TcbRow)
      → All (λ x. v ≢ x.version) rows
      → All (λ x. v ≢ x.version) (update_where p f rows)
  update-apart v [] h = tt
  update-apart v (r ∷ rows) (n, h) = (
    elim (Bool-cases (p r)) [
      | inl hit ↦ rw hit (λ e. n (e ∙ same_version r))
      | inr miss ↦ rw miss n
    ],
    update-apart v rows h,
  )

  pub update-IsUnique : (rows : List TcbRow) → IsUnique rows → IsUnique (update_where p f rows)
  update-IsUnique [] h = tt
  update-IsUnique (r ∷ rows) (n, h) = (
    elim (Bool-cases (p r)) [
      | inl hit ↦ rw (hit, same_version r) (update-apart r.version rows n)
      | inr miss ↦ rw miss (update-apart r.version rows n)
    ],
    update-IsUnique rows h,
  )

pub insert-IsUnique :
    (row : TcbRow) (rows : List TcbRow)
    → IsUnique rows
    → find_first (has_version row.version) rows ≡ none
    → IsUnique (insert_row row rows)
insert-IsUnique row [] h e = (tt, tt)
insert-IsUnique row (r ∷ rows) (n, h) e = elim (Bool-cases (r.version == row.version)) [
  | inl taken ↦ absurd (ground arith)
  | inr other ↦
      (append_apart r row rows n (ground arith), insert-IsUnique row rows h (ground arith))
]
  where
    append_apart :
        (r row : TcbRow) (rows : List TcbRow)
        → All (λ x. r.version ≢ x.version) rows
        → r.version ≢ row.version
        → All (λ x. r.version ≢ x.version) (rows ++ row ∷ [])
    append_apart r row [] h k = (k, tt)
    append_apart r row (x ∷ rows) (p, h) k = (p, append_apart r row rows h k)

pub any-IsIdle : (rows : List TcbRow) → any (λ x. is_active x.status) rows ≡ false → All IsIdle rows
any-IsIdle [] e = tt
any-IsIdle (r ∷ rows) e = elim (Bool-cases (is_active r.status)) [
  | inl on ↦ absurd (ground arith)
  | inr off ↦ (off, any-IsIdle rows (ground arith))
]

keep_if-IsIdle :
    (rows : List TcbRow) → keep_if (λ r. is_active r.status) rows ≡ [] → All IsIdle rows
keep_if-IsIdle [] e = tt
keep_if-IsIdle (r ∷ rows) e = elim (Bool-cases (is_active r.status)) [
  | inl on ↦ absurd (ground arith)
  | inr off ↦ (off, keep_if-IsIdle rows (ground arith))
]

only_serving-eq-ok :
    (r : TcbRow) (rows : List TcbRow) {row : TcbRow}
    → only_serving (r ∷ rows) ≡ ok row
    → (rows ≡ []) × (r ≡ row)
only_serving-eq-ok r [] e = (refl, ground arith)
only_serving-eq-ok r (x ∷ rows) e = absurd (ground arith)

-- Each active row is the one that `activeRow` finds.
pub active-IsOnly :
    (rows : List TcbRow) {row : TcbRow} → active_row rows ≡ ok row → All (IsOnly row.version) rows
unfolding active_row
active-IsOnly [] e = tt
active-IsOnly (r ∷ rows) {row} e = elim (Bool-cases (is_active r.status)) [
  | inl on ↦
      let (rest, same_row) =
        only_serving-eq-ok r (keep_if (λ x. is_active x.status) rows) (rw on at e) in
      (
        λ k. ap (λ x. x.version) same_row,
        All-map (λ x off k. cc (k, off)) rows (keep_if-IsIdle rows rest),
      )
  | inr off ↦ (λ k. cc (k, off), active-IsOnly rows (rw off at e))
]

pub retire-IsIdle :
    (v : ℕ) (rows : List TcbRow)
    → All (IsOnly v) rows
    → All IsIdle (update_where (has_version v) retire rows)
retire-IsIdle v [] h = tt
retire-IsIdle v (r ∷ rows) (o, h) = (
  elim (Bool-cases (r.version == v)) [
    | inl hit ↦ rw hit refl
    | inr miss ↦ rw miss (elim (Bool-cases (is_active r.status)) [
      | inl on ↦ absurd (let k = o on in ground arith)
      | inr off ↦ off
    ])
  ],
  retire-IsIdle v rows h,
)

-- An update of one version makes no other version active.
pub update-IsOnly :
    (v : ℕ) (f : TcbRow → TcbRow) (rows : List TcbRow)
    → ((r : TcbRow) → (f r).version ≡ r.version)
    → All IsIdle rows
    → All (IsOnly v) (update_where (has_version v) f rows)
update-IsOnly v f [] k h = tt
update-IsOnly v f (r ∷ rows) k (o, h) = (
  elim (Bool-cases (r.version == v)) [
    | inl hit ↦ rw hit (λ on. k r ∙ (let e : r.version ≡ v = ground arith in e))
    | inr miss ↦ rw miss (λ on. cc (on, o))
  ],
  update-IsOnly v f rows k h,
)

pub insert-All :
    (Q : TcbRow → Type 0) (row : TcbRow) (rows : List TcbRow)
    → All Q rows
    → Q row
    → All Q (insert_row row rows)
insert-All Q row [] h q = (q, tt)
insert-All Q row (r ∷ rows) (p, h) q = (p, insert-All Q row rows h q)

abbrev pub IsVersion : ℕ → TcbRow → Type 0
IsVersion v r = r.version ≡ v

-- Some row of this version is active.
abbrev pub IsActiveAt : ℕ → TcbRow → Type 0
IsActiveAt v r = (r.version ≡ v) × (is_active r.status ≡ true)

pub find-IsVersion :
    (v : ℕ) (rows : List TcbRow) {r : TcbRow}
    → find_first (has_version v) rows ≡ some r
    → Some (λ x. IsVersion v x × (x ≡ r)) rows
find-IsVersion v [] e = cc
find-IsVersion v (x ∷ rows) {r} e = elim (Bool-cases (x.version == v)) [
  | inl hit ↦ inl ((let k : x.version ≡ v = ground arith in k), (let q : x ≡ r = ground arith in q))
  | inr miss ↦ inr (find-IsVersion v rows (ground arith))
]

pub update-Some :
    (P Q : TcbRow → Type 0) (p : TcbRow → Bool) (f : TcbRow → TcbRow)
    → ((r : TcbRow) → P r → p r ≡ true → Q (f r))
    → ((r : TcbRow) → P r → p r ≡ false → Q r)
    → (rows : List TcbRow) → Some P rows
    → Some Q (update_where p f rows)
update-Some P Q p f hit miss [] h = absurd h
update-Some P Q p f hit miss (r ∷ rows) (inl k) = elim (Bool-cases (p r)) [
  | inl on ↦ inl (rw on (hit r k on))
  | inr off ↦ inl (rw off (miss r k off))
]
update-Some P Q p f hit miss (r ∷ rows) (inr h) = inr (update-Some P Q p f hit miss rows h)
