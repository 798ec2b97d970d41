-- ===== src/Tcb/Lifecycle/Activate/Forward.antt =====
-- `activate` of tcb-lifecycle.ts never goes back to a version below the active one.
use mathlib.Core.Path.{subst}
use enclave_developer.Tcb.Rows.{TcbRow, active_row, is_active, is_pending}
use enclave_developer.Tcb.Single.{IsOnly, IsActiveAt, Single, active-IsOnly}
use enclave_developer.Tcb.Rules.{At, Any, exclusive-Triple, guard-Keeps, guard-Triple}
use enclave_developer.Tcb.Lifecycle.{initialize, bootstrap_call, admit_first, set_initialized}
use enclave_developer.Tcb.Lifecycle.Starts.{IsSingle, check_existing-Keeps}
use enclave_developer.Tcb.Lifecycle.Activate.{
  activate, activate_call, if_target, activate_target, check_repeated,
}
use enclave_developer.Tcb.Lifecycle.Activate.Switch.{OnlyActive, idempotent, activate-OnlyActive}
use enclave_developer.Prelude.{
  Result, ℕ, List, All, Some, ok, any, err, ◌≡◌, Option, true, ◌∷◌, Keeps, inl, >>=-Keeps, inr, sym,
  arith, from_result-Keeps, ◌∙◌, [], pure-Keeps, refl, Bool, find_first, ◌≤◌, ap, some, ◌>>◌, none,
  ◌&&◌, and-elim, ltb, from_result, ◌>>=◌,
}
use enclave_developer.Tcb.Store.{Lifecycle, World, Call, guard, has_version, same_key}
use enclave_developer.Prelude.Triples.{
  After, Triple, >>-Triple, >>=-Triple, Keeps-Triple, get-Triple, assume-Triple, before-Triple,
  if-Triple, throw-Triple, pure-Triple, map-Triple, from_result-Triple,
}
use enclave_developer.Tcb.Policy.{PolicyRecord, TcbFault, key_has_other_activation}
use enclave_developer.Prelude.Text.{Text}

only_one : (u v : ℕ) (rows : List TcbRow) → All (IsOnly u) rows → Some (IsActiveAt v) rows → v ≡ u
only_one u v [] h k = absurd k
only_one u v (r ∷ rows) (o, h) (inl (at, on)) = sym at ∙ o on
only_one u v (r ∷ rows) (o, h) (inr k) = only_one u v rows h k

any_active :
    (v : ℕ) (rows : List TcbRow)
    → Some (IsActiveAt v) rows
    → any (λ x. is_active x.status) rows ≡ true
any_active v [] k = absurd k
any_active v (r ∷ rows) (inl (at, on)) = rw on refl
any_active v (r ∷ rows) (inr k) = let e = any_active v rows k in ground arith

both-After :
    {S E A : Type 0} (Q Q' : A → S → Type 0) (R R' : S → Type 0) (r : Result E A × S)
    → After Q R r
    → After Q' R' r
    → After (λ a s. Q a s × Q' a s) R' r
both-After Q Q' R R' (ok a, s) h k = (h, k)
both-After Q Q' R R' (err e, s) h k = k

some_After : {A : Type 0} (r : Result TcbFault A × World) → After (λ a s. Unit {0}) Any r
some_After (ok a, s) = tt
some_After (err e, s) = tt

-- Nothing is said of the call.
call_Triple : {P : World → Type 0} {A : Type 0} (m : Call A) → Triple P m (λ a s. Unit {0}) Any
call_Triple m = record { run = λ s p. some_After (m s) }

assume-guard :
    {P : World → Type 0} {A : Type 0} {Q : A → World → Type 0} (b : Bool) (e : TcbFault)
    {k : Call A}
    → (b ≡ true → Triple P k Q Any)
    → Triple P (guard b e >> k) Q Any
assume-guard b e h =
    >>-Triple (guard-Triple b e λ s p. tt)
      (assume-Triple (λ s p. p.1) λ on. before-Triple (λ s p. p.0) (h on))

module _ (service : Lifecycle) (v : ℕ) (rows : List TcbRow)
    (serving : Some (IsActiveAt v) rows) where
  -- With an active row, `initialize` writes nothing.
  admit_first-At :
      (r : PolicyRecord) (o : Option TcbRow) → Keeps (At rows) (admit_first service r o rows)
  unfolding admit_first
  admit_first-At r o =
      rw (any_active v rows serving) (>>=-Keeps (from_result-Keeps _) (λ row. pure-Keeps tt))

  bootstrap-At : Triple (At rows) (bootstrap_call service) (λ u. At rows) Any
  unfolding bootstrap_call
  bootstrap-At = >>-Triple (Keeps-Triple (guard-Keeps _ _) λ s k. tt) (
      >>=-Triple (Keeps-Triple (from_result-Keeps _) λ s k. tt) λ r. >>=-Triple get-Triple λ w.
        assume-Triple (λ s h. sym (ap (λ x. x.rows) h.1) ∙ h.0)
          λ same_rows.
            before-Triple (λ s h. h.0)
              (>>-Triple (Keeps-Triple (check_existing-Keeps service _) λ s k. tt) (
                subst
                  (λ x.
                    Triple (At rows)
                      (admit_first service r (find_first (has_version r.version) w.rows) x)
                      (λ u. At rows) Any)
                  (sym same_rows) (Keeps-Triple (admit_first-At r _) λ s k. tt))))

  initialize-At : Triple (At rows) (initialize service) (λ u. At rows) (At rows)
  unfolding initialize set_initialized
  initialize-At = >>=-Triple get-Triple λ w.
      before-Triple (λ s h. h.0)
        (if-Triple w.is_initialized (λ on. pure-Triple _ λ s h. h)
          λ off.
            >>-Triple (exclusive-Triple (λ x. x ≡ rows) bootstrap-At) (record { run = λ s h. h }))

  target-Forward :
      (row target : TcbRow) (key request : Text) (version expected : ℕ)
      → active_row rows ≡ ok row
      → find_first (has_version version) rows ≡ some target
      → Single rows
      → Triple
          (At rows)
          (activate_target service row target key request version expected)
          (λ a w. v ≤ version)
          Any
  unfolding activate_target
  target-Forward row target key request version expected e found single =
      if-Triple (is_active target.status && same_key key target.activation_key)
        (λ again.
          let same_version : v ≡ version =
            only_one version v rows
              (idempotent service rows target version found (and-elim _ _ again).0 single).1
              serving in
          >>=-Triple (call_Triple _)
            λ previous. >>=-Triple (call_Triple _) λ now. pure-Triple _ λ s h. omega arith)
        λ fresh. >>-Triple (call_Triple _) (
          assume-guard (is_pending target.status && ltb row.version version) _ λ newer.
            let same_row : v ≡ row.version =
              only_one row.version v rows (active-IsOnly rows e) serving in
            let (p, n) = and-elim (is_pending target.status) (ltb row.version version) newer in
            let forward : v ≤ version = ground arith in
            map-Triple (λ a s h. forward) (call_Triple _))

  if_target-Forward :
      (row : TcbRow) (o : Option TcbRow) (key request : Text) (version expected : ℕ)
      → active_row rows ≡ ok row
      → find_first (has_version version) rows ≡ o
      → Single rows
      → Triple
          (At rows)
          (if_target service row o key request version expected)
          (λ a w. v ≤ version)
          Any
  unfolding if_target
  if_target-Forward row none key request version expected e found single = throw-Triple _ λ s h. tt
  if_target-Forward row (some target) key request version expected e found single =
      target-Forward row target key request version expected e found single

  call-Forward :
      (key request : Text) (version expected : ℕ)
      → Single rows
      → Triple
          (At rows)
          (activate_call service key request version expected)
          (λ a w. v ≤ version)
          Any
  unfolding activate_call
  call-Forward key request version expected single = >>=-Triple get-Triple λ w.
      assume-Triple (λ s h. sym (ap (λ x. x.rows) h.1) ∙ h.0)
        λ same_rows.
          before-Triple (λ s h. h.0)
            (subst
              (λ x.
                Triple (At rows)
                  (from_result (active_row x) >>= (λ row.
                    guard
                      (check_repeated service version request
                        (find_first (λ r. same_key key r.activation_key) x))
                      key_has_other_activation
                    >> if_target service row (find_first (has_version version) x) key request
                        version expected))
                  (λ a s. v ≤ version) Any)
              (sym same_rows)
              (>>=-Triple (from_result-Triple _ λ s h. tt) λ row.
                assume-Triple (λ s h. h.1)
                  λ e.
                    before-Triple (λ s h. h.0)
                      (>>-Triple (Keeps-Triple (guard-Keeps _ _) λ s h. tt)
                        (if_target-Forward row _ key request version expected e refl single))))

  forward :
      (version expected : ℕ) (given : Option Text)
      → Single rows
      → Triple (At rows) (activate service version expected given) (λ a s. v ≤ version) (At rows)
  unfolding activate
  forward version expected given single = >>-Triple (Keeps-Triple (guard-Keeps _ _) λ s h. h) (
      >>-Triple (Keeps-Triple (guard-Keeps _ _) λ s h. h) (
        >>-Triple (Keeps-Triple (guard-Keeps _ _) λ s h. h) (
          >>-Triple initialize-At
            (exclusive-Triple (λ x. x ≡ rows) (call-Forward _ _ version expected single)))))

  -- If versions are unique, at most one version is active and a row of version v is active, then
  -- where `activate` returns, the version asked for is not below v and is active and no other is;
  -- where it throws, the rows are as they were.
  pub activate-Forward :
      (version expected : ℕ) (given : Option Text) (w : World)
      → w.rows ≡ rows
      → Single rows
      → After
          (λ a s. OnlyActive version s.rows × (v ≤ version))
          (λ s. s.rows ≡ rows)
          (activate service version expected given w)
  activate-Forward version expected given w e single =
      both-After (λ a s. OnlyActive version s.rows) (λ a s. v ≤ version) IsSingle (At rows)
        (activate service version expected given w)
        (activate-OnlyActive service version expected given w (subst Single (sym e) single))
        ((forward version expected given single).run w e)
