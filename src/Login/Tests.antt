-- ===== src/Login/Tests.antt =====
-- A sign-in with made-up hashes, and the theorems of Login at it.
use enclave_developer.Prelude.{
  ◌≡◌, List, Result, length, ℕ, [], arith, keep_if, some, true, ◌+◌, ◌∷◌, ◌≤◌, find_first, refl,
  suc, ◌++◌, ok, zero, inl, none, false,
}
use enclave_developer.Prelude.Text.{Text, same, codes, lower, hex_number}
use enclave_developer.Login.Store.{
  ChallengeRow, Host, SessionRow, World, consume, live_challenge, has_id,
}
use enclave_developer.Login.Service.{Login, Session, SiweMessage, is_token, verify, resume}
use enclave_developer.Login.Limiter.{Quota, take, Entry, window_at}
use enclave_developer.Login.Store.Single.{
  consumed, Operation, perform, consuming, held, consumed-le-held,
}
use enclave_developer.Login.Store.Sessions.{IsSound, consume-IsSound}
use enclave_developer.Login.Service.Verified.{IsProven, verify-IsProven, resume-verify}
use enclave_developer.Login.Limiter.Fixed.{fixed_window, Counters, Agrees, take-fixed_window}
use enclave_developer.Login.Limiter.Bounded.{take_bounded}
use enclave_developer.Login.Client.{Network, normalize_wallet_client_ip}
use enclave_developer.Login.Routes.{Request, action_of, respond}
use enclave_developer.Login.Service.Outage.{is_logout}
use enclave_developer.Login.Routes.Closed.{IsRefused, respond-IsRefused}
use enclave_developer.Prelude.Decimal.{decimal}

abbrev wallet : Text
wallet = codes "0xab"

abbrev letters : ℕ → Text
letters zero = []
letters (suc n) = b'a' ∷ letters n

abbrev sample_host : Host
sample_host = record {
  time = λ n. 1000 + n;
  database_time = λ n. 1000 + n;
  random = λ size n. letters (size + size);
  sha256 = λ s. s;
  sha256_bytes = λ s. s;
}

abbrev sample_message : SiweMessage
sample_message = record {
  domain = some (codes "app");
  address = some (codes "0xAB");
  uri = some (codes "https://app/dashboard");
  chain_id = some 5042;
  nonce = some (codes "n1");
  expiration_time = some 5000;
}

abbrev sample_login : Login
sample_login = record {
  host = sample_host;
  origin = codes "https://app";
  origin_host = codes "app";
  take_shared = λ n q. some 0;
  checksum = λ a. some a;
  siwe_text = λ m t. codes "sign in";
  parse_siwe = λ t. sample_message;
  recover = λ m s. some (codes "0xAB");
}

abbrev sample_row : ChallengeRow
sample_row = record {
  id = codes "n1";
  address = wallet;
  message = codes "sign in";
  expires_at = 5000;
  client_hash = codes "legacy";
}

abbrev old_session : SessionRow
old_session = record {
  token_hash = codes "t0";
  owner_hash = codes "o0";
  address = wallet;
  expires_at = 9000;
}

abbrev sample_world : World
sample_world = record {
  tables = record {
    challenges = sample_row ∷ [];
    sessions = old_session ∷ [];
    accounts = record { address = wallet; owner_hash = codes "o0" } ∷ [];
    api_keys = codes "o0" ∷ [];
  };
  fallback = [];
  clock = 0;
}

abbrev new_session : Session
new_session = record {
  token = codes "enws_" ++ letters 64;
  address = codes "0xAB";
  expires_at = 1801003;
}

abbrev sample_entries : List Entry
sample_entries = record { key = codes "k"; window = record { count = 4; reset = 5000 } } ∷ []

abbrev sample_quota : Quota
sample_quota = record { key = codes "k"; limit = 5 }

bounded_once : length (take 1 100 sample_quota sample_entries).1 ≤ 1
bounded_once = take_bounded 1 100 sample_quota sample_entries (omega arith) (omega arith)

abbrev sample_counters : Counters
sample_counters j = window_at j sample_entries

take-fixed_window_example :
    ((take 1 100 sample_quota sample_entries).0 ≡ (fixed_window 100 sample_quota sample_counters).0)
    × Agrees 100
        (fixed_window 100 sample_quota sample_counters).1
        (take 1 100 sample_quota sample_entries).1
unfolding same
take-fixed_window_example =
    take-fixed_window 1 100 sample_quota sample_counters sample_entries (omega arith) (inl refl)
      (λ later l j. refl)

take_twice : (take 1 100 sample_quota (take 1 100 sample_quota sample_entries).1).0 ≡ 4900
unfolding take same
take_twice = refl

abbrev two_consumes : List Operation
two_consumes =
    consuming (codes "n1") (codes "t1") 9000 ∷ consuming (codes "n1") (codes "t2") 9000 ∷ []

consumed_once : consumed sample_host (codes "n1") two_consumes sample_world ≡ 1
unfolding consumed perform consume same enclave_developer.Login.Store.transaction
    enclave_developer.Prelude.◌>>=◌ enclave_developer.Login.Store.read_clock
    enclave_developer.Login.Store.tables enclave_developer.Prelude.◌>>◌
    enclave_developer.Login.Store.write enclave_developer.Prelude.pure
    enclave_developer.Login.Store.guard
consumed_once = refl

consumed-le-held_example :
    consumed sample_host (codes "n1") two_consumes sample_world
    ≤ held (codes "n1") sample_world.tables
unfolding same
consumed-le-held_example =
    consumed-le-held sample_host (codes "n1") two_consumes sample_world (refl, (refl, tt))

sample-IsSound : IsSound 1000 sample_world.tables
unfolding same
sample-IsSound = record { capped = λ a. ground arith; owned = (refl, tt) }

consume-IsSound_example :
    IsSound 1000 (consume sample_host (codes "n1") (codes "t1") 9000 sample_world).1.tables
consume-IsSound_example =
    consume-IsSound sample_host (codes "n1") (codes "t1") 9000 sample_world sample-IsSound

verified : (verify sample_login (codes "n1") (codes "sig") sample_world).0 ≡ ok new_session
unfolding verify live_challenge consume same lower enclave_developer.Prelude.◌>>=◌
    enclave_developer.Login.Store.read_clock enclave_developer.Login.Store.tables
    enclave_developer.Prelude.pure enclave_developer.Prelude.◌>>◌
    enclave_developer.Login.Store.guard enclave_developer.Login.Store.transaction
    enclave_developer.Login.Store.write
verified = refl

single : length (keep_if (has_id (codes "n1")) sample_world.tables.challenges) ≤ 1
unfolding same
single = omega arith

verify-IsProven_example :
    IsProven sample_login
      (codes "n1")
      (codes "sig")
      sample_world.tables.challenges
      (sample_host.database_time sample_world.clock)
      new_session
      (verify sample_login (codes "n1") (codes "sig") sample_world).1
verify-IsProven_example =
    verify-IsProven sample_login (codes "n1") (codes "sig") sample_world new_session single verified

sample_token : is_token new_session.token ≡ true
unfolding is_token same
sample_token = refl

clock_after : (verify sample_login (codes "n1") (codes "sig") sample_world).1.clock ≡ 5
unfolding verify live_challenge consume same lower enclave_developer.Prelude.◌>>=◌
    enclave_developer.Login.Store.read_clock enclave_developer.Login.Store.tables
    enclave_developer.Prelude.pure enclave_developer.Prelude.◌>>◌
    enclave_developer.Login.Store.guard enclave_developer.Login.Store.transaction
    enclave_developer.Login.Store.write
clock_after = refl

resumed_after :
    (resume sample_login new_session.token
      (lower new_session.address)
      (verify sample_login (codes "n1") (codes "sig") sample_world).1).0
    ≡ ok (record {
      token = new_session.token;
      address = lower new_session.address;
      expires_at = new_session.expires_at;
    })
resumed_after =
    resume-verify sample_login (codes "n1") (codes "sig") sample_world new_session single verified
      sample_token (rw clock_after (omega arith)) (rw clock_after (omega arith))

abbrev closed_login : Login
closed_login = record sample_login { take_shared = λ n q. none }

abbrev sample_network : Network
sample_network = record { ip_version = λ s. 4; url_host = λ s. s }

abbrev sample_request : Request
sample_request = record {
  is_get = false;
  origin = some (codes "https://app");
  name = codes "verify";
  remote = some (codes "10.0.0.1");
  real_ip = none;
  address = none;
  id_and_signature = some (codes "n1", codes "sig");
  cookie = none;
  api_key = none;
}

no_logout : is_logout (action_of sample_request.name) ≡ false
unfolding same
no_logout = refl

respond-IsRefused_example :
    IsRefused sample_world.tables
      (respond closed_login sample_network [] sample_request sample_world)
respond-IsRefused_example =
    respond-IsRefused closed_login sample_network [] (λ n q. refl) sample_request sample_world refl
      no_logout

mapped_ip :
    normalize_wallet_client_ip
      (record { ip_version = λ s. 6; url_host = λ s. codes "::ffff:a01:203" })
      (codes "::ffff:10.1.2.3")
    ≡ some (codes "10.1.2.3")
unfolding normalize_wallet_client_ip same hex_number decimal
mapped_ip = refl
