-- ===== src/Login/Service/Outage.antt =====
-- `limit` of _backend/apps/api/src/wallet-auth.ts while the shared limiter is out of reach.
use enclave_developer.Prelude.{Bool, throw, true, false, ◌>>=◌, Option, ◌≡◌, none, err, ◌+◌, refl}
use enclave_developer.Login.Service.{
  Login, LoginAction, after_shared, limit, logout_action, quota_of, challenge_action, verify_action,
  resume_action, other_action,
}
use enclave_developer.Login.Store.{read_clock, World, limit_unavailable}
use enclave_developer.Login.Limiter.{Quota}
use enclave_developer.Prelude.Text.{Text}

abbrev pub is_logout : LoginAction → Bool
is_logout logout_action = true
is_logout _ = false

module _ (login : Login) where
  after_shared-none :
      (action : LoginAction) (quota : Quota) (w : World)
      → is_logout action ≡ false
      → after_shared login action quota none w ≡ (err limit_unavailable, w)
  unfolding after_shared throw
  after_shared-none challenge_action quota w h = refl
  after_shared-none verify_action quota w h = refl
  after_shared-none resume_action quota w h = refl
  after_shared-none logout_action quota w h = cc
  after_shared-none other_action quota w h = refl

  pub limit-none :
      (caller : Text) (action : LoginAction) (resource : Option Text) (w : World)
      → login.take_shared w.clock (quota_of login caller action resource) ≡ none
      → is_logout action ≡ false
      → limit login caller action resource w
        ≡ (err limit_unavailable, record w { clock = w.clock + 1 })
  unfolding limit read_clock ◌>>=◌
  limit-none caller action resource w u h =
      rw
        (
          u,
          after_shared-none action (quota_of login caller action resource)
              (record w { clock = w.clock + 1 }) h,
        )
        refl
