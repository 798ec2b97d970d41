-- ===== src/Login/Routes/Closed.antt =====
-- Requests to the routes of _backend/apps/api/src/wallet-auth.ts while the shared limiter is out of
-- reach.
use mathlib.Core.Path.{subst}
use enclave_developer.Prelude.{
  ℕ, Bool, Result, List, true, false, ◌≡◌, err, none, from_result, ◌>>=◌, ◌>>◌, Bool-cases, ◌+◌, ok,
  inl, inr, refl, if◌then◌else◌, pure, sym,
}
use enclave_developer.Login.Service.{Login, LoginAction}
use enclave_developer.Login.Store.{
  Tables, LoginFault, World, guard, limit_unavailable, wrong_origin,
}
use enclave_developer.Login.Client.{Network, client}
use enclave_developer.Prelude.Text.{Text, same, codes}
use enclave_developer.Login.Limiter.{Quota}
use enclave_developer.Login.Routes.{
  respond, limited, post, Request, action_of, handle_action, is_origin, config, not_found,
}
use enclave_developer.Login.Service.Outage.{is_logout, limit-none}

-- The call throws and leaves the tables as they are.
abbrev pub IsRefused : {A : Type 0} → Tables → Result LoginFault A × World → Type 0
IsRefused before r = ((fault : LoginFault) × (r.0 ≡ err fault)) × (r.1.tables ≡ before)

module _ (login : Login) (network : Network) (trusted : List Text)
    (unavailable : (n : ℕ) (q : Quota) → login.take_shared n q ≡ none) where
  limited-unavailable :
      (caller : Text) (action : LoginAction) (w : World)
      → is_logout action ≡ false
      → limited login network trusted caller action none w
        ≡ (err limit_unavailable, record w { clock = w.clock + 1 })
  unfolding limited ◌>>=◌
  limited-unavailable caller action w h =
      rw (limit-none login caller action none w (unavailable w.clock _) h) refl

  from_result-IsRefused :
      (c : Result LoginFault Text) (r : Request) (w : World)
      → is_logout (action_of r.name) ≡ false
      → IsRefused w.tables (
          (from_result c >>= λ caller.
          limited login network trusted caller (action_of r.name) none
          >> handle_action login network trusted (action_of r.name) caller r)
            w)
  unfolding from_result ◌>>=◌ ◌>>◌
  from_result-IsRefused (ok caller) r w h =
      rw (limited-unavailable caller (action_of r.name) w h) ((limit_unavailable, refl), refl)
  from_result-IsRefused (err e) r w h = ((e, refl), refl)

  post-IsRefused :
      (r : Request) (w : World)
      → is_logout (action_of r.name) ≡ false
      → IsRefused w.tables (post login network trusted r w)
  unfolding post guard ◌>>◌ enclave_developer.Prelude.pure ◌>>=◌ enclave_developer.Prelude.throw
  post-IsRefused r w h = elim (Bool-cases (is_origin login.origin r.origin)) [
    | inl same_origin ↦
        rw same_origin (from_result-IsRefused (client network trusted r.remote r.real_ip) r w h)
    | inr other ↦ rw other ((wrong_origin, refl), refl)
  ]

  -- While the shared limiter is out of reach, every request to the wallet routes that is neither a
  -- GET nor a logout is refused and leaves the tables as they are.
  pub respond-IsRefused :
      (r : Request) (w : World)
      → r.is_get ≡ false
      → is_logout (action_of r.name) ≡ false
      → IsRefused w.tables (respond login network trusted r w)
  unfolding respond
  respond-IsRefused r w g h =
      subst
        (λ b. IsRefused w.tables (
          (if b
              then pure (if same r.name (codes "config") then config else not_found)
              else post login network trusted r)
            w))
        (sym g) (post-IsRefused r w h)
