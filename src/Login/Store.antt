-- ===== src/Login/Store.antt =====
-- The tables of packages/db/src/wallet-auth-schema.ts and the statements that
-- `PostgresWalletLoginStore` of _backend/apps/api/src/wallet-auth.ts makes on them. A transaction
-- reads the database's time once and restores the tables when it throws; the advisory locks make
-- the transactions follow each other. Every read of a clock or of random bytes gets the number of
-- such reads before it. Of `api_keys` only the new keys are kept.
pub mod Steps
pub mod Single
pub mod Sessions
pub mod Opened
use enclave_developer.Prelude.{
  ℕ, ◌+◌, List, [], ◌∷◌, ◌++◌, Option, none, some, Bool, true, false, ◌&&◌, not, ltb, leb,
  if◌then◌else◌, find_first, keep_if, length, any, Result, ok, err, Exec, pure, throw, ◌>>=◌, ◌>>◌,
}
use enclave_developer.Prelude.Text.{Text, same, codes}
use enclave_developer.Login.Limiter.{Entry}

pub record Challenge : Type 0 where
  pub id : Text
  pub address : Text
  pub message : Text
  pub expires_at : ℕ
  pub client_hash : Option Text

-- Rows of `wallet_login_challenges`, `wallet_login_sessions` and `wallet_accounts`.
pub record ChallengeRow : Type 0 where
  pub id : Text
  pub address : Text
  pub message : Text
  pub expires_at : ℕ
  pub client_hash : Text

pub record SessionRow : Type 0 where
  pub token_hash : Text
  pub owner_hash : Text
  pub address : Text
  pub expires_at : ℕ

pub record AccountRow : Type 0 where
  pub address : Text
  pub owner_hash : Text

pub record Tables : Type 0 where
  pub challenges : List ChallengeRow
  pub sessions : List SessionRow
  pub accounts : List AccountRow
  pub api_keys : List Text

-- `fallback` is the limiter that `WalletLogin` keeps for a logout.
pub record World : Type 0 where
  pub tables : Tables
  pub fallback : List Entry
  pub clock : ℕ

-- `duplicate` is the database's refusal of a second row with a key.
pub data LoginFault : Type 0 where
  rate_limited session_limit duplicate : LoginFault
  limit_unavailable : LoginFault
  expired_or_used scope_changed invalid_signature wrong_signature : LoginFault
  no_session session_changed invalid_address : LoginFault
  wrong_origin client_unavailable proxy_unavailable invalid_body : LoginFault
  too_many_requests : ℕ → LoginFault

-- The clocks of the process and of the database, `randomBytes` in hexadecimal, and SHA-256 of a text
-- and of bytes in hexadecimal.
pub record Host : Type 0 where
  pub time : ℕ → ℕ
  pub database_time : ℕ → ℕ
  pub random : ℕ → ℕ → Text
  pub sha256 : Text → Text
  pub sha256_bytes : Text → Text

abbrev pub Call : Type 0 → Type 0
Call A = Exec World LoginFault A

unfoldable pub read_clock : {A : Type 0} → (ℕ → A) → Call A
read_clock f w = (ok (f w.clock), record w { clock = w.clock + 1 })

unfoldable pub tables : Call Tables
tables w = (ok w.tables, w)

unfoldable pub write : (Tables → Tables) → Call (Unit {0})
write f w = (ok tt, record w { tables = f w.tables })

unfoldable pub settle :
    {A : Type 0} → Tables → Result LoginFault A × World → Result LoginFault A × World
settle before (ok a, w) = (ok a, w)
settle before (err e, w) = (err e, record w { tables = before })

-- `sql.begin(…)`
unfoldable pub transaction : {A : Type 0} → Call A → Call A
unfolding settle
transaction m w = settle w.tables (m w)

unfoldable pub guard : Bool → LoginFault → Call (Unit {0})
guard b e = if b then pure tt else throw e

abbrev or_legacy : Option Text → Text
or_legacy none = codes "legacy"
or_legacy (some h) = h

-- `delete … where expires_at <= now()` on both tables.
abbrev pub sweep : ℕ → Tables → Tables
sweep now t = record t {
  challenges = keep_if (λ (c : ChallengeRow). ltb now c.expires_at) t.challenges;
  sessions = keep_if (λ (s : SessionRow). ltb now s.expires_at) t.sessions;
}

abbrev pub challenge_row : Challenge → ChallengeRow
challenge_row c = record {
  id = c.id;
  address = c.address;
  message = c.message;
  expires_at = c.expires_at;
  client_hash = or_legacy c.client_hash;
}

abbrev pub is_of_caller : Challenge → ChallengeRow → Bool
is_of_caller c row = same row.address c.address && same row.client_hash (or_legacy c.client_hash)

abbrev pub has_id : Text → ChallengeRow → Bool
has_id id row = same row.id id

abbrev pub is_live : ℕ → Text → ChallengeRow → Bool
is_live now id row = same row.id id && ltb now row.expires_at

abbrev pub has_token : Text → SessionRow → Bool
has_token hash s = same s.token_hash hash

abbrev pub is_session_of : ℕ → Text → SessionRow → Bool
is_session_of now address s = same s.address address && ltb now s.expires_at

abbrev pub has_address : Text → AccountRow → Bool
has_address address a = same a.address address

module _ (host : Host) where
  put_call : Challenge → Call (Unit {0})
  put_call c = do
    now ← read_clock host.database_time
    write (sweep now)
    t ← tables
    guard (ltb (length (keep_if (is_of_caller c) t.challenges)) 5) rate_limited
    guard (not (any (has_id c.id) t.challenges)) duplicate
    write (λ u. record u { challenges = u.challenges ++ challenge_row c ∷ [] })

  unfoldable pub put : Challenge → Call (Unit {0})
  unfolding put_call
  put c = transaction (put_call c)

  -- `get`
  unfoldable pub live_challenge : Text → Call (Option ChallengeRow)
  live_challenge id = do
    now ← read_clock host.database_time
    t ← tables
    pure (find_first (is_live now id) t.challenges)

  abbrev wallet_account : Text → Text → Tables → Tables
  wallet_account address owner t = record t {
    api_keys = t.api_keys ++ owner ∷ [];
    accounts = t.accounts ++ record { address = address; owner_hash = owner } ∷ [];
  }

  -- The owner of an address, made on its first sign-in.
  owner_of : Text → Option AccountRow → Call Text
  owner_of address (some a) = pure a.owner_hash
  owner_of address none = do
    secret ← read_clock (host.random 32)
    t ← tables
    guard (not (any (same (host.sha256_bytes secret)) t.api_keys)) duplicate
    write (wallet_account address (host.sha256_bytes secret))
    pure (host.sha256_bytes secret)

  -- What follows the deletion of the challenge, which returned its address.
  open_session : ℕ → Text → Text → ℕ → Call Bool
  unfolding owner_of
  open_session now address token_hash expires_at = do
    t ← tables
    owner ← owner_of address (find_first (has_address address) t.accounts)
    u ← tables
    guard (ltb (length (keep_if (is_session_of now address) u.sessions)) 10) session_limit
    guard (not (any (has_token token_hash) u.sessions)) duplicate
    write (λ v. record v {
      sessions =
          v.sessions
          ++ record {
            token_hash = token_hash;
            owner_hash = owner;
            address = address;
            expires_at = expires_at;
          }
            ∷ [];
    })
    pure true

  consume_found : ℕ → Option ChallengeRow → Text → Text → ℕ → Call Bool
  unfolding open_session
  consume_found now none id token_hash expires_at = pure false
  consume_found now (some c) id token_hash expires_at = do
    write (λ t. record t { challenges = keep_if (λ r. not (is_live now id r)) t.challenges })
    open_session now c.address token_hash expires_at

  consume_call : Text → Text → ℕ → Call Bool
  unfolding consume_found
  consume_call id token_hash expires_at = do
    now ← read_clock host.database_time
    t ← tables
    consume_found now (find_first (is_live now id) t.challenges) id token_hash expires_at

  unfoldable pub consume : Text → Text → ℕ → Call Bool
  unfolding consume_call
  consume id token_hash expires_at = transaction (consume_call id token_hash expires_at)

  unfoldable pub revoke : Text → Call (Unit {0})
  revoke hash =
      write (λ t. record t { sessions = keep_if (λ s. not (has_token hash s)) t.sessions })

  -- `session`
  unfoldable pub live_session : Text → Call (Option SessionRow)
  live_session hash = do
    now ← read_clock host.database_time
    t ← tables
    pure (find_first (λ s. has_token hash s && ltb now s.expires_at) t.sessions)
