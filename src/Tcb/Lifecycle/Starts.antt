-- ===== src/Tcb/Lifecycle/Starts.antt =====
-- `initialize` of tcb-lifecycle.ts among tables with one active version.
use enclave_developer.Prelude.{
  ℕ, ◌≡◌, refl, sym, ap, List, Option, none, some, All, All-map, any, find_first, Keeps, >>=-Keeps,
  pure-Keeps, from_result-Keeps, get-Keeps,
}
use mathlib.Core.Path.{subst}
use enclave_developer.Prelude.Triples.{
  Triple, >>=-Triple, >>-Triple, pure-Triple, if-Triple, get-Triple, Keeps-Triple, assume-Triple,
  before-Triple, map-Triple,
}
use enclave_developer.Tcb.Policy.{PolicyRecord}
use enclave_developer.Tcb.Rows.{TcbRow, is_active}
use enclave_developer.Tcb.Store.{World, Lifecycle, has_version, admit, insert_row}
use enclave_developer.Tcb.Single.{
  Single, IsUnique, IsOnly, IsIdle, update-IsUnique, insert-IsUnique, update-IsOnly, insert-All,
  any-IsIdle,
}
use enclave_developer.Tcb.Rules.{At, Any, exclusive-Triple, write-Triple, guard-Keeps}
use enclave_developer.Tcb.Lifecycle.{
  check_existing, start, admit_first, bootstrap_call, set_initialized, initialize, saved_state,
}

abbrev pub IsSingle : World → Type 0
IsSingle w = Single w.rows

module _ (service : Lifecycle) where
  pub check_existing-Keeps :
      {P : World → Type 0} (o : Option TcbRow) → Keeps P (check_existing service o)
  unfolding check_existing
  check_existing-Keeps none = pure-Keeps _
  check_existing-Keeps (some row) = >>=-Keeps (from_result-Keeps _) λ stored. guard-Keeps _ _

  first_row_Single :
      (x : TcbRow) (rows : List TcbRow)
      → find_first (has_version x.version) rows ≡ none
      → IsUnique rows
      → All IsIdle rows
      → Single (insert_row x rows)
  first_row_Single x rows e u idle = (
    insert-IsUnique x rows u e,
    (
      x.version,
      insert-All (IsOnly x.version) x rows (All-map (λ r off on. cc (on, off)) rows idle)
          λ on. refl,
    ),
  )

  start-IsSingle :
      (r : PolicyRecord) (rows : List TcbRow) (o : Option TcbRow)
      → find_first (has_version r.version) rows ≡ o
      → IsUnique rows
      → All IsIdle rows
      → Triple (At rows) (start service r o) (λ u. IsSingle) Any
  unfolding start
  start-IsSingle r rows none e u idle =
      map-Triple (λ _ s h. subst Single (sym h) (first_row_Single _ rows e u idle))
        (write-Triple rows _)
  start-IsSingle r rows (some row) e u idle =
      map-Triple
        (λ _ s h. subst Single (sym h) (
          update-IsUnique (has_version r.version) (admit r service.bootstrap) (λ x. refl) rows u,
          (r.version, update-IsOnly r.version (admit r service.bootstrap) rows (λ x. refl) idle),
        ))
        (write-Triple rows _)

  admit_first-IsSingle :
      (r : PolicyRecord) (rows : List TcbRow) (o : Option TcbRow)
      → find_first (has_version r.version) rows ≡ o
      → Single rows
      → Triple (At rows) (admit_first service r o rows) (λ u. IsSingle) Any
  unfolding admit_first
  admit_first-IsSingle r rows o e h =
      if-Triple (any (λ x. is_active x.status) rows)
        (λ on.
          >>=-Triple (Keeps-Triple (from_result-Keeps _) λ s k. tt)
            λ row. pure-Triple _ λ s k. subst Single (sym k) h)
        λ off.
          >>-Triple (Keeps-Triple (guard-Keeps _ _) λ s k. tt)
            (start-IsSingle r rows o e h.0 (any-IsIdle rows off))

  bootstrap-IsSingle : Triple IsSingle (bootstrap_call service) (λ u. IsSingle) Any
  unfolding bootstrap_call
  bootstrap-IsSingle = >>-Triple (Keeps-Triple (guard-Keeps _ _) λ s k. tt) (
      >>=-Triple (Keeps-Triple (from_result-Keeps _) λ s k. tt) λ r. >>=-Triple get-Triple λ w.
        assume-Triple (λ s h. subst IsSingle h.1 h.0)
          λ single.
            before-Triple (λ s h. ap (λ x. x.rows) h.1)
              (>>-Triple (Keeps-Triple (check_existing-Keeps _) λ s k. tt)
                (admit_first-IsSingle r w.rows _ refl single)))

  set_initialized-Triple : Triple IsSingle (set_initialized service) (λ u. IsSingle) IsSingle
  unfolding set_initialized
  set_initialized-Triple = record { run = λ w h. h }

  pub initialize-Triple : Triple IsSingle (initialize service) (λ u. IsSingle) IsSingle
  unfolding initialize
  initialize-Triple = >>=-Triple get-Triple λ w.
      before-Triple (λ s h. h.0)
        (if-Triple w.is_initialized (λ on. pure-Triple _ λ s h. h)
          λ off. >>-Triple (exclusive-Triple Single bootstrap-IsSingle) set_initialized-Triple)

  pub saved_state-Keeps : {P : World → Type 0} (version : ℕ) → Keeps P (saved_state service version)
  unfolding saved_state
  saved_state-Keeps version =
      >>=-Keeps get-Keeps λ w. >>=-Keeps (from_result-Keeps _) λ row. from_result-Keeps _
