-- ===== src/Tcb/Lifecycle/Activate/Switch.antt =====
-- `activate` of tcb-lifecycle.ts among tables with one active version.
use mathlib.Core.Path.{subst}
use enclave_developer.Prelude.{
  ℕ, ◌≡◌, refl, sym, List, ◌&&◌, All, update_where, Keeps, pure-Keeps, from_result-Keeps, if-Keeps,
  ok, ◌==◌, Bool-cases, inl, inr, ap, arith, and-elim, ◌∙◌, find_first, some, none, Option, Some,
  true, [], ◌∷◌,
}
use enclave_developer.Prelude.Text.{Text}
use enclave_developer.Prelude.Triples.{
  Triple, >>=-Triple, >>-Triple, pure-Triple, Keeps-Triple, map-Triple, from_result-Triple,
  get-Triple, After, assume-Triple, before-Triple, if-Triple, throw-Triple,
}
use enclave_developer.Tcb.Rows.{TcbRow, TcbState, active_row, is_active}
use enclave_developer.Tcb.Store.{Lifecycle, has_version, retire, activated, same_key, World}
use enclave_developer.Tcb.Single.{
  IsUnique, IsOnly, update-IsUnique, update-IsOnly, retire-IsIdle, active-IsOnly, Single, IsVersion,
  IsActiveAt, find-IsVersion, update-Some,
}
use enclave_developer.Tcb.Rules.{At, Any, write-Triple, exclusive-Triple, guard-Keeps}
use enclave_developer.Tcb.Lifecycle.Starts.{saved_state-Keeps, IsSingle, initialize-Triple}
use enclave_developer.Tcb.Lifecycle.Activate.{
  ask_approval, bind, switch, activate_target, if_target, activate_call, activate,
}

-- No two rows have one version, and this version is active and no other.
abbrev pub OnlyActive : ℕ → List TcbRow → Type 0
OnlyActive version rows = IsUnique rows × All (IsOnly version) rows × Some (IsActiveAt version) rows

Some-map :
    {P Q : TcbRow → Type 0}
    → ((r : TcbRow) → P r → Q r)
    → (rows : List TcbRow) → Some P rows
    → Some Q rows
Some-map f [] h = absurd h
Some-map f (r ∷ rows) (inl p) = inl (f r p)
Some-map f (r ∷ rows) (inr h) = inr (Some-map f rows h)

module _ (service : Lifecycle) where
  bind-At :
      (rows : List TcbRow) (state : TcbState) (version : ℕ)
      → Keeps (At rows) (bind service state version)
  unfolding bind ask_approval
  bind-At rows state version =
      if-Keeps (service.allow_local_bootstrap && service.arc_chain_id == 31337) (pure-Keeps _)
        (record { keep = λ w h. h })

  switched :
      (rows : List TcbRow) (row target : TcbRow) (version : ℕ) (f : TcbRow → TcbRow)
      → ((r : TcbRow) → (f r).version ≡ r.version)
      → ((r : TcbRow) → is_active (f r).status ≡ true)
      → find_first (has_version version) rows ≡ some target
      → active_row rows ≡ ok row
      → IsUnique rows
      → OnlyActive version (
          update_where (has_version version) f (update_where (has_version row.version) retire rows))
  switched rows row target version f k a found e u =
      let renamed : Some (IsVersion version) (update_where (has_version row.version) retire rows) =
        update-Some (λ x. IsVersion version x × (x ≡ target)) (IsVersion version)
          (has_version row.version) retire (λ r q on. q.0) (λ r q off. q.0) rows
          (find-IsVersion version rows found) in
      (
        update-IsUnique (has_version version) f k _
            (update-IsUnique (has_version row.version) retire (λ r. refl) rows u),
        update-IsOnly version f _ k (retire-IsIdle row.version rows (active-IsOnly rows e)),
        update-Some (IsVersion version) (IsActiveAt version) (has_version version) f
            (λ r q on. (k r ∙ q, a r)) (λ r q off. absurd (ground arith)) _ renamed,
      )

  switch-OnlyActive :
      (rows : List TcbRow) (row target : TcbRow) (state : TcbState) (key request : Text)
      (version : ℕ)
      → find_first (has_version version) rows ≡ some target
      → active_row rows ≡ ok row
      → IsUnique rows
      → Triple
          (At rows)
          (switch service row state key request version)
          (λ a w. OnlyActive version w.rows)
          Any
  unfolding switch
  switch-OnlyActive rows row target state key request version found e u =
      >>=-Triple (Keeps-Triple (bind-At rows state version) λ s h. tt) λ binding.
        >>-Triple (write-Triple rows _) (
          >>-Triple
            (map-Triple
              (λ _ s h. subst (OnlyActive version) (sym h) (
                switched rows row target version (activated state key request binding) (λ r. refl)
                  (λ r. refl) found e u))
              (write-Triple (update_where (has_version row.version) retire rows) _))
            (>>=-Triple (Keeps-Triple (from_result-Keeps _) λ s h. tt) λ previous.
              >>=-Triple (Keeps-Triple (saved_state-Keeps service version) λ s h. tt)
                λ now. pure-Triple _ λ s h. h))

  -- Every active row is of the version that was found active.
  pub idempotent :
      (rows : List TcbRow) (target : TcbRow) (version : ℕ)
      → find_first (has_version version) rows ≡ some target
      → is_active target.status ≡ true
      → Single rows
      → OnlyActive version rows
  idempotent rows target version found on (u, (v, only)) =
      let (at, same_only) = found_version rows target version v found only in
      (
        u,
        subst (λ n. All (IsOnly n) rows) (sym (same_only on) ∙ at) only,
        Some-map (λ x q. (q.0, ap (λ r. is_active r.status) q.1 ∙ on)) rows
            (find-IsVersion version rows found),
      )
    where
      found_version :
          (rows : List TcbRow) (target : TcbRow) (version v : ℕ)
          → find_first (has_version version) rows ≡ some target
          → All (IsOnly v) rows
          → (target.version ≡ version) × IsOnly v target
      found_version [] target version v e h = cc
      found_version (r ∷ rows) target version v e (o, h) =
          elim (Bool-cases (r.version == version)) [
            | inl hit ↦
                let same_row : r ≡ target = ground arith in
                (
                  ap (λ x. x.version) (sym same_row)
                      ∙ (let k : r.version ≡ version = ground arith in k),
                  subst (IsOnly v) same_row o,
                )
            | inr miss ↦ found_version rows target version v (ground arith) h
          ]

  activate_target-OnlyActive :
      (rows : List TcbRow) (row target : TcbRow) (key request : Text) (version expected : ℕ)
      → active_row rows ≡ ok row
      → find_first (has_version version) rows ≡ some target
      → Single rows
      → Triple
          (At rows)
          (activate_target service row target key request version expected)
          (λ a w. OnlyActive version w.rows)
          Any
  unfolding activate_target
  activate_target-OnlyActive rows row target key request version expected e found single =
      if-Triple (is_active target.status && same_key key target.activation_key)
        (λ again. >>=-Triple (Keeps-Triple (from_result-Keeps _) λ s h. tt) λ previous.
          >>=-Triple (Keeps-Triple (from_result-Keeps _) λ s h. tt) λ now. pure-Triple _ λ s h.
            subst (OnlyActive version) (sym h)
              (idempotent rows target version found (and-elim _ _ again).0 single))
        λ fresh. >>-Triple (Keeps-Triple (guard-Keeps _ _) λ s h. tt) (
          >>-Triple (Keeps-Triple (guard-Keeps _ _) λ s h. tt) (
            >>=-Triple (Keeps-Triple (from_result-Keeps _) λ s h. tt) λ state.
              switch-OnlyActive rows row target state key request version found e single.0))

  if_target-OnlyActive :
      (rows : List TcbRow) (row : TcbRow) (o : Option TcbRow) (key request : Text)
      (version expected : ℕ)
      → active_row rows ≡ ok row
      → find_first (has_version version) rows ≡ o
      → Single rows
      → Triple
          (At rows)
          (if_target service row o key request version expected)
          (λ a w. OnlyActive version w.rows)
          Any
  unfolding if_target
  if_target-OnlyActive rows row none key request version expected e found single =
      throw-Triple _ λ s h. tt
  if_target-OnlyActive rows row (some target) key request version expected e found single =
      activate_target-OnlyActive rows row target key request version expected e found single

  activate_call-OnlyActive :
      (key request : Text) (version expected : ℕ)
      → Triple IsSingle
          (activate_call service key request version expected)
          (λ a w. OnlyActive version w.rows)
          Any
  unfolding activate_call
  activate_call-OnlyActive key request version expected = >>=-Triple get-Triple λ w.
      assume-Triple (λ s h. subst IsSingle h.1 h.0)
        λ single.
          before-Triple (λ s h. ap (λ x. x.rows) h.1)
            (>>=-Triple (from_result-Triple _ λ s h. tt) λ row.
              assume-Triple (λ s h. h.1)
                λ e.
                  before-Triple (λ s h. h.0)
                    (>>-Triple (Keeps-Triple (guard-Keeps _ _) λ s h. tt) (
                      if_target-OnlyActive w.rows row _ key request version expected e refl
                        single)))

  activate-Triple :
      (version expected : ℕ) (given : Option Text)
      → Triple IsSingle
          (activate service version expected given)
          (λ a w. OnlyActive version w.rows)
          IsSingle
  unfolding activate
  activate-Triple version expected given = >>-Triple (Keeps-Triple (guard-Keeps _ _) λ s h. h) (
      >>-Triple (Keeps-Triple (guard-Keeps _ _) λ s h. h) (
        >>-Triple (Keeps-Triple (guard-Keeps _ _) λ s h. h) (
          >>-Triple (initialize-Triple service)
            (exclusive-Triple Single (activate_call-OnlyActive _ _ version expected)))))

  -- If no two rows have one version and at most one version is active, then where `activate`
  -- returns, versions are unique and the version asked for is active and no other is; where it
  -- throws, at most one version is still active.
  pub activate-OnlyActive :
      (version expected : ℕ) (given : Option Text) (w : World)
      → IsSingle w
      → After
          (λ a v. OnlyActive version v.rows)
          IsSingle
          (activate service version expected given w)
  activate-OnlyActive version expected given w h = (activate-Triple version expected given).run w h
