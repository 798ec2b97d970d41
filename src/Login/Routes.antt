-- ===== src/Login/Routes.antt =====
-- `walletLoginRoutes` of _backend/apps/api/src/wallet-auth.ts: the checks before every request and
-- the handlers. Of a request there is what they read: a body is given by the fields that its strict
-- schema looks for, `none` where the body has no such field or others beside it. The limit on the
-- size of a body (hono) and the headers that are the same on every answer are left out.
pub mod Closed
use enclave_developer.Prelude.{
  ℕ, Bool, Option, if◌then◌else◌, [], false, length, ◌+◌, List, some, ◌/◌, ◌==◌, all, none, true,
  ◌&&◌, ◌∷◌, pure, throw, ◌>>=◌, ◌>>◌, suc, from_result, zero,
}
use enclave_developer.Login.Service.{
  Issued, Login, LoginAction, Session, is_token, challenge_action, is_small_hex, verify_action,
  limit, logout_action, resume_action, logout, other_action, resume, verify, challenge,
}
use enclave_developer.Prelude.Text.{Text, same, codes, is_hex, lower}
use enclave_developer.Login.Client.{Network, client}
use enclave_developer.Login.Store.{Call, guard, invalid_body, too_many_requests, wrong_origin}

pub record Request : Type 0 where
  pub is_get : Bool
  pub origin : Option Text
  pub name : Text
  pub remote : Option Text
  pub real_ip : Option Text
  pub address : Option Text
  pub id_and_signature : Option (Text × Text)
  pub cookie : Option Text
  pub api_key : Option Text

-- `forgets` is the deletion of the cookie; a session that was verified becomes the cookie.
pub data Response : Type 0 where
  config : Response
  issued : Issued → Response
  verified : Session → Response
  resumed : Session → Response
  logged_out : Bool → Response
  not_found : Response

abbrev pub action_of : Text → LoginAction
action_of name =
    if same name (codes "challenge")
    then challenge_action
    else if same name (codes "verify")
    then verify_action
    else if same name (codes "resume")
    then resume_action
    else if same name (codes "logout")
    then logout_action
    else other_action

abbrev or_empty : Option Text → Text
or_empty none = []
or_empty (some s) = s

abbrev is_origin : Text → Option Text → Bool
is_origin origin none = false
is_origin origin (some s) = same s origin

-- `/^[a-f0-9]{48}$/`
abbrev is_challenge_id : Text → Bool
is_challenge_id s = length s == 48 && all is_small_hex s

abbrev retry_seconds : ℕ → ℕ
retry_seconds wait = if (wait + 999) / 1000 == 0 then 1 else (wait + 999) / 1000

module _ (login : Login) (network : Network) (trusted : List Text) where
  abbrev key_of : Text → Text
  key_of token = if is_token token then login.host.sha256 token else codes "none"

  allow : ℕ → Call (Unit {0})
  allow zero = pure tt
  allow (suc n) = throw (too_many_requests (retry_seconds (suc n)))

  limited : Text → LoginAction → Option Text → Call (Unit {0})
  unfolding allow
  limited client action resource = do wait ← limit login client action resource; allow wait

  -- POST /challenge
  on_challenge : Text → Option Text → Call Response
  unfolding limited
  on_challenge client none = throw invalid_body
  on_challenge client (some address) = do
    guard (is_hex 40 address) invalid_body
    limited client challenge_action (some (lower address))
    answer ← challenge login address (some client)
    pure (issued answer)

  -- POST /verify
  on_verify : Text → Option (Text × Text) → Call Response
  unfolding limited
  on_verify client none = throw invalid_body
  on_verify client (some (id, signature)) = do
    guard (is_challenge_id id && is_hex 130 signature) invalid_body
    limited client verify_action (some id)
    session ← verify login id signature
    pure (verified session)

  -- POST /resume
  on_resume : Text → Option Text → Option Text → Call Response
  unfolding limited
  on_resume client none cookie = throw invalid_body
  on_resume client (some address) cookie = do
    guard (is_hex 40 address) invalid_body
    limited client resume_action (some (key_of (or_empty cookie)))
    session ← resume login (or_empty cookie) address
    pure (resumed session)

  token_of : Option Text → Option Text → Text
  token_of (some key) cookie = key
  token_of none cookie = or_empty cookie

  -- An empty cookie counts as none.
  forgets : Option Text → Text → Bool
  forgets none token = true
  forgets (some []) token = true
  forgets (some (c ∷ s)) token = same (c ∷ s) token

  -- POST /logout
  on_logout : Text → Option Text → Option Text → Call Response
  unfolding limited token_of forgets
  on_logout client api_key cookie = do
    limited client logout_action (some (key_of (token_of api_key cookie)))
    logout login (token_of api_key cookie)
    pure (logged_out (forgets cookie (token_of api_key cookie)))

  handle_action : LoginAction → Text → Request → Call Response
  unfolding on_challenge on_verify on_resume on_logout
  handle_action challenge_action client r = on_challenge client r.address
  handle_action verify_action client r = on_verify client r.id_and_signature
  handle_action resume_action client r = on_resume client r.address r.cookie
  handle_action logout_action client r = on_logout client r.api_key r.cookie
  handle_action other_action client r = pure not_found

  post : Request → Call Response
  unfolding limited handle_action
  post r = do
    guard (is_origin login.origin r.origin) wrong_origin
    caller ← from_result (client network trusted r.remote r.real_ip)
    limited caller (action_of r.name) none
    handle_action (action_of r.name) caller r

  unfoldable pub respond : Request → Call Response
  unfolding post
  respond r =
      if r.is_get then pure (if same r.name (codes "config") then config else not_found) else post r
