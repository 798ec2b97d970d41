-- ===== src/Login/Service.antt =====
-- The class `WalletLogin` of _backend/apps/api/src/wallet-auth.ts. A limiter that is shared between
-- processes (Redis) is a parameter that answers or is unavailable, as are the parts of viem: the
-- checksum of an address, the text of a sign-in message with its parser, and the recovery of a
-- signer. Session tokens and their times are as in the source; the cookie is left to the routes.
pub mod Verified
pub mod Outage
use enclave_developer.Prelude.{
  ℕ, Bool, Option, false, some, ◌&&◌, ◌++◌, if◌then◌else◌, none, pure, throw, ◌+◌, ◌==◌, ◌||◌, leb,
  ok, ◌>>=◌, ◌>>◌, ◌∷◌, [], length, ltb, all,
}
use enclave_developer.Prelude.Text.{Text, codes, is_digit, same, lower, same_hex}
use enclave_developer.Login.Store.{
  ChallengeRow, Host, Call, SessionRow, expired_or_used, invalid_address, invalid_signature,
  limit_unavailable, revoke, session_changed, guard, live_challenge, read_clock, consume,
  no_session, wrong_signature, live_session, scope_changed, put,
}
use enclave_developer.Login.Limiter.{Quota, take}

pub data LoginAction : Type 0 where
  challenge_action verify_action resume_action logout_action other_action : LoginAction

abbrev client_limit : LoginAction → ℕ
client_limit challenge_action = 30
client_limit verify_action = 60
client_limit resume_action = 120
client_limit logout_action = 60
client_limit other_action = 30

abbrev resource_limit : LoginAction → ℕ
resource_limit challenge_action = 5
resource_limit verify_action = 10
resource_limit resume_action = 60
resource_limit logout_action = 30
resource_limit other_action = 30

abbrev action_name : LoginAction → Text
action_name challenge_action = codes "challenge"
action_name verify_action = codes "verify"
action_name resume_action = codes "resume"
action_name logout_action = codes "logout"
action_name other_action = codes "other"

-- A message as `createSiweMessage` takes it and as `parseSiweMessage` reads it.
pub record SiweMessage : Type 0 where
  pub domain : Option Text
  pub address : Option Text
  pub uri : Option Text
  pub chain_id : Option ℕ
  pub nonce : Option Text
  pub expiration_time : Option ℕ

pub record Login : Type 0 where
  pub host : Host
  pub origin : Text
  pub origin_host : Text
  pub take_shared : ℕ → Quota → Option ℕ
  pub checksum : Text → Option Text
  pub siwe_text : SiweMessage → ℕ → Text
  pub parse_siwe : Text → SiweMessage
  pub recover : Text → Text → Option Text

pub record Issued : Type 0 where
  pub id : Text
  pub message : Text
  pub expires_at : ℕ

pub record Session : Type 0 where
  pub token : Text
  pub address : Text
  pub expires_at : ℕ

abbrev same_option : Option Text → Text → Bool
same_option none t = false
same_option (some s) t = same s t

abbrev equals : Option ℕ → ℕ → Bool
equals none n = false
equals (some m) n = m == n

abbrev same_lower : Option Text → Text → Bool
same_lower none t = false
same_lower (some s) t = same (lower s) t

-- `/^enws_[a-f0-9]{64}$/`
abbrev pub is_small_hex : ℕ → Bool
is_small_hex c = is_digit c || (leb b'a' c && leb c b'f')

unfoldable pub is_token : Text → Bool
is_token (a ∷ b ∷ c ∷ d ∷ e ∷ s) =
    same (a ∷ b ∷ c ∷ d ∷ e ∷ []) (codes "enws_") && length s == 64 && all is_small_hex s
is_token _ = false

module _ (login : Login) where
  abbrev dashboard : Text
  dashboard = login.origin ++ codes "/dashboard"

  -- `scope` with the client, and the resource where there is one.
  quota_key : Text → LoginAction → Option Text → Text
  quota_key client action none =
      login.host.sha256
        (login.origin ++ (codes ":" ++ (action_name action ++ (codes ":client:" ++ client))))
  quota_key client action (some r) = login.host.sha256 (
      login.origin
      ++ (codes ":"
          ++ (action_name action ++ (codes ":resource:" ++ (client ++ (codes ":" ++ r))))))

  quota_limit : LoginAction → Option Text → ℕ
  quota_limit action none = client_limit action
  quota_limit action (some r) = resource_limit action

  unfoldable pub quota_of : Text → LoginAction → Option Text → Quota
  unfolding quota_key quota_limit
  quota_of client action resource = record {
    key = quota_key client action resource;
    limit = quota_limit action resource;
  }

  -- `this.logoutFallback.take(quota)`
  take_fallback : Quota → Call ℕ
  take_fallback quota w =
      let (wait, entries) = take 10000 (login.host.time w.clock) quota w.fallback in
      (ok wait, record w { fallback = entries; clock = w.clock + 1 })

  -- Only a logout goes on when the shared limiter is out of reach.
  after_shared : LoginAction → Quota → Option ℕ → Call ℕ
  unfolding take_fallback
  after_shared action quota (some wait) = pure wait
  after_shared logout_action quota none = take_fallback quota
  after_shared challenge_action quota none = throw limit_unavailable
  after_shared verify_action quota none = throw limit_unavailable
  after_shared resume_action quota none = throw limit_unavailable
  after_shared other_action quota none = throw limit_unavailable

  unfoldable pub limit : Text → LoginAction → Option Text → Call ℕ
  unfolding after_shared
  limit client action resource = do
    answer ← read_clock (λ n. login.take_shared n (quota_of client action resource))
    after_shared action (quota_of client action resource) answer

  client_hash_of : Option Text → Option Text
  client_hash_of none = none
  client_hash_of (some client) =
      some (login.host.sha256 (codes "wallet-login:" ++ (login.origin ++ (codes ":" ++ client))))

  sign_in_message : Text → Text → ℕ → SiweMessage
  sign_in_message id checksum expires = record {
    domain = some login.origin_host;
    address = some checksum;
    uri = some (dashboard);
    chain_id = some 5042;
    nonce = some id;
    expiration_time = some expires;
  }

  issue : Text → Text → ℕ → Option Text → Call Issued
  unfolding client_hash_of sign_in_message
  issue checksum id issued client = do
    let message = login.siwe_text (sign_in_message id checksum (issued + 300000)) issued
    put login.host (record {
      id = id;
      address = lower checksum;
      message = message;
      expires_at = issued + 300000;
      client_hash = client_hash_of client;
    })
    pure (record { id = id; message = message; expires_at = issued + 300000 })

  -- `getAddress` throws on what is no address.
  issue_checked : Option Text → Text → ℕ → Option Text → Call Issued
  unfolding issue
  issue_checked none id issued client = throw invalid_address
  issue_checked (some checksum) id issued client = issue checksum id issued client

  unfoldable pub challenge : Text → Option Text → Call Issued
  unfolding issue_checked
  challenge address client = do
    issued ← read_clock login.host.time
    id ← read_clock (login.host.random 24)
    issue_checked (login.checksum address) id issued client

  in_scope : ChallengeRow → SiweMessage → Bool
  in_scope c message =
      same_option message.domain login.origin_host
      && same_option message.uri dashboard
      && equals message.chain_id 5042
      && same_option message.nonce c.id
      && same_lower message.address c.address
      && equals message.expiration_time c.expires_at

  grant : Text → Text → Call Session
  grant id signer = do
    secret ← read_clock (login.host.random 32)
    now ← read_clock login.host.time
    consumed ← consume login.host id (login.host.sha256 (codes "enws_" ++ secret)) (now + 1800000)
    guard consumed expired_or_used
    pure (record { token = codes "enws_" ++ secret; address = signer; expires_at = now + 1800000 })

  verify_signer : Text → ChallengeRow → Option Text → Call Session
  unfolding grant
  verify_signer id c none = throw invalid_signature
  verify_signer id c (some signer) = do
    guard (same (lower signer) c.address) wrong_signature
    grant id signer

  verify_found : Text → Text → Option ChallengeRow → Call Session
  unfolding in_scope verify_signer
  verify_found id signature none = throw expired_or_used
  verify_found id signature (some c) = do
    now ← read_clock login.host.time
    guard (ltb now c.expires_at) expired_or_used
    guard (in_scope c (login.parse_siwe c.message)) scope_changed
    verify_signer id c (login.recover c.message signature)

  unfoldable pub verify : Text → Text → Call Session
  unfolding verify_found
  verify id signature = do c ← live_challenge login.host id; verify_found id signature c

  unfoldable pub logout : Text → Call (Unit {0})
  logout token = if is_token token then revoke login.host (login.host.sha256 token) else pure tt

  resume_found : Text → Text → Option SessionRow → Call Session
  resume_found token address none = throw session_changed
  resume_found token address (some s) = do
    now ← read_clock login.host.time
    guard (ltb now s.expires_at && same_hex s.address address) session_changed
    pure (record { token = token; address = s.address; expires_at = s.expires_at })

  unfoldable pub resume : Text → Text → Call Session
  unfolding resume_found
  resume token address = do
    guard (is_token token) no_session
    s ← live_session login.host (login.host.sha256 token)
    resume_found token address s
