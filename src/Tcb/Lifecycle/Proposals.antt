-- ===== src/Tcb/Lifecycle/Proposals.antt =====
-- `propose` of tcb-lifecycle.ts among tables with one active version.
use mathlib.Core.Path.{subst}
use enclave_developer.Prelude.{
  ℕ, ◌+◌, ◌≡◌, refl, sym, ◌∙◌, ap, List, Option, none, some, false, find_first, Keeps, >>=-Keeps,
  >>-Keeps, pure-Keeps, from_result-Keeps, arith, ok, Result-cases, inl, inr,
}
use enclave_developer.Prelude.Text.{Text}
use enclave_developer.Prelude.Triples.{
  Triple, >>=-Triple, >>-Triple, pure-Triple, throw-Triple, get-Triple, Keeps-Triple, assume-Triple,
  before-Triple, map-Triple, from_result-Triple, After-either,
}
use enclave_developer.Tcb.Policy.{
  TcbPolicy, Digests, PolicyRecord, tcb_policy_record, tcb_policy_hash,
}
use enclave_developer.Tcb.Rows.{TcbRow, is_active}
use enclave_developer.Tcb.Store.{World, Lifecycle, has_version, insert_row, or_else, max_version}
use enclave_developer.Tcb.Single.{Single, IsOnly, insert-IsUnique, insert-All}
use enclave_developer.Tcb.Rules.{At, Any, exclusive-Triple, guard-Keeps, write-Triple}
use enclave_developer.Tcb.Lifecycle.{
  check_collision, record_proposal, proposal_key, repeat_proposal, propose_call, propose,
}
use enclave_developer.Tcb.Lifecycle.Starts.{IsSingle, initialize-Triple, saved_state-Keeps}

record-version :
    (d : Digests) (p : TcbPolicy) {r : PolicyRecord}
    → tcb_policy_record d p ≡ ok r
    → r.version ≡ p.version
unfolding tcb_policy_record
record-version d p e = elim (Result-cases (tcb_policy_hash d p)) [
  | inl (hash, good) ↦ ground arith
  | inr (f, bad) ↦ absurd (ground arith)
]

module _ (service : Lifecycle) where
  proposal_key-Keeps :
      {P : World → Type 0} (row : TcbRow) (image : Text) (version : Option ℕ) (given : Option Text)
      → Keeps P (proposal_key service row image version given)
  unfolding proposal_key
  proposal_key-Keeps row image version (some key) = pure-Keeps _
  proposal_key-Keeps row image version none =
      >>=-Keeps (from_result-Keeps _) λ stored. >>=-Keeps (from_result-Keeps _) λ hash. pure-Keeps _

  repeat_proposal-Keeps :
      {P : World → Type 0} (row repeated : TcbRow) (image : Text) (version : Option ℕ)
      → Keeps P (repeat_proposal service row repeated image version)
  unfolding repeat_proposal
  repeat_proposal-Keeps row repeated image version = >>-Keeps (guard-Keeps _ _) (
      >>=-Keeps (from_result-Keeps _)
        λ previous. >>=-Keeps (from_result-Keeps _) λ recorded. pure-Keeps _)

  check_collision-none :
      (rows : List TcbRow) (o : Option TcbRow) (policy : TcbPolicy)
      → Triple (At rows) (check_collision service o policy) (λ u w. At rows w × (o ≡ none)) Any
  unfolding check_collision
  check_collision-none rows none policy = pure-Triple _ λ s h. (h, refl)
  check_collision-none rows (some row) policy =
      >>=-Triple (Keeps-Triple (from_result-Keeps _) λ s h. tt)
        λ stored. >>-Triple (Keeps-Triple (guard-Keeps _ _) λ s h. tt) (throw-Triple _ λ s h. tt)

  insert-IsSingle :
      (x : TcbRow) (rows : List TcbRow)
      → is_active x.status ≡ false
      → find_first (has_version x.version) rows ≡ none
      → Single rows
      → Single (insert_row x rows)
  insert-IsSingle x rows off e (u, (v, only)) =
      (insert-IsUnique x rows u e, (v, insert-All (IsOnly v) x rows only λ on. cc (on, off)))

  record_proposal-IsSingle :
      (row : TcbRow) (key image : Text) (version : ℕ) (rows : List TcbRow)
      → Single rows
      → Triple (At rows) (record_proposal service row key image version rows) (λ p. IsSingle) Any
  unfolding record_proposal
  record_proposal-IsSingle row key image version rows single =
      >>-Triple (Keeps-Triple (guard-Keeps _ _) λ s h. tt) (
        >>=-Triple (from_result-Triple _ λ s h. tt) λ r.
          assume-Triple (λ s h. record-version service.digests _ h.1)
            λ named.
              before-Triple (λ s h. h.0)
                (>>-Triple (check_collision-none rows _ _) (
                  assume-Triple (λ s h. h.1)
                    λ fresh.
                      before-Triple (λ s h. h.0)
                        (>>-Triple (Keeps-Triple (guard-Keeps _ _) λ s h. tt) (
                          >>-Triple
                            (map-Triple
                              (λ _ s h. subst Single (sym h) (
                                insert-IsSingle _ rows refl
                                  (ap (λ v. find_first (has_version v) rows) named ∙ fresh) single))
                              (write-Triple rows _))
                            (>>=-Triple (Keeps-Triple (from_result-Keeps _) λ s h. tt) λ previous.
                              >>=-Triple
                                (Keeps-Triple (saved_state-Keeps service version) λ s h. tt)
                                λ recorded. pure-Triple _ λ s h. h))))))

  with_key :
      (row : TcbRow) (key image : Text) (version : Option ℕ) (rows : List TcbRow)
      (o : Option TcbRow)
      → Single rows
      → Triple
          (At rows)
          (elim o [
            | some repeated ↦ repeat_proposal service row repeated image version
            | none ↦
                record_proposal service row key image (or_else version (max_version rows + 1)) rows
          ])
          (λ p. IsSingle)
          Any
  with_key row key image version rows none single =
      record_proposal-IsSingle row key image _ rows single
  with_key row key image version rows (some repeated) single =
      map-Triple (λ p s h. subst Single (sym h) single)
        (Keeps-Triple (repeat_proposal-Keeps row repeated image version) λ s h. tt)

  propose_call-IsSingle :
      (image : Text) (version : Option ℕ) (given : Option Text)
      → Triple IsSingle (propose_call service image version given) (λ p. IsSingle) Any
  unfolding propose_call
  propose_call-IsSingle image version given = >>=-Triple get-Triple λ w.
      assume-Triple (λ s h. subst IsSingle h.1 h.0)
        λ single.
          before-Triple (λ s h. ap (λ x. x.rows) h.1)
            (>>=-Triple (Keeps-Triple (from_result-Keeps _) λ s h. tt) λ row.
              >>=-Triple (Keeps-Triple (proposal_key-Keeps row image version given) λ s h. tt)
                λ key.
                  >>-Triple (Keeps-Triple (guard-Keeps _ _) λ s h. tt)
                    (with_key row key image version w.rows _ single))

  propose-Triple :
      (image : Text) (version : Option ℕ) (given : Option Text)
      → Triple IsSingle (propose service image version given) (λ p. IsSingle) IsSingle
  unfolding propose
  propose-Triple image version given =
      >>-Triple (initialize-Triple service)
        (exclusive-Triple Single (propose_call-IsSingle image version given))

  -- If no two rows have one version and at most one version is active, this holds after `propose`,
  -- however it ends.
  pub propose-IsSingle :
      (image : Text) (version : Option ℕ) (given : Option Text) (w : World)
      → IsSingle w
      → IsSingle (propose service image version given w).1
  propose-IsSingle image version given w h =
      After-either IsSingle (propose service image version given w)
        ((propose-Triple image version given).run w h)
