-- ===== src/Login/Store/Sessions.antt =====
-- How many sessions an address has, and whose they are, after a `consume` of
-- _backend/apps/api/src/wallet-auth.ts.
use enclave_developer.Prelude.{
  ◌≡◌, Option, ℕ, List, find_first, length, some, keep_if, none, ◌++◌, ◌∷◌, All-map, [], ◌<◌, ◌≤◌,
  All, arith, ◌+◌, All-append, ap, if◌then◌else◌, ltb→lt, refl, true, Result, ◌>>=◌, false, Bool,
  ok, err,
}
use enclave_developer.Prelude.Text.{Text, same_iff, same_refl, same}
use enclave_developer.Login.Store.{
  Host, AccountRow, SessionRow, Tables, World, open_session, owner_of, has_address, is_session_of,
  wallet_account, consume, consume_found, settle, tables, ChallengeRow, consume_call, LoginFault,
  is_live, transaction, read_clock,
}
use enclave_developer.Prelude.Triples.{
  Triple, >>=-Triple, >>-Triple, before-Triple, pure-Triple, After,
}
use enclave_developer.Login.Store.Steps.{
  Any, read_clock-Triple, tables-Triple, guard-Triple, write-Triple,
}

abbrev owner_hash_of : Option AccountRow → Option Text
owner_hash_of none = none
owner_hash_of (some a) = some a.owner_hash

abbrev pub owner_at : Text → List AccountRow → Option Text
owner_at address accounts = owner_hash_of (find_first (has_address address) accounts)

-- No address has more than ten sessions that are live at `now`, and each session belongs to the
-- account of its address.
pub record IsSound (now : ℕ) (t : Tables) : Type 0 where
  pub capped : (a : Text) → length (keep_if (is_session_of now a) t.sessions) ≤ 10
  pub owned : All (λ (s : SessionRow). owner_at s.address t.accounts ≡ some s.owner_hash) t.sessions

count_last :
    (now : ℕ) (a : Text) (s : SessionRow) (ss : List SessionRow)
    → length (keep_if (is_session_of now a) (ss ++ s ∷ []))
      ≤ length (keep_if (is_session_of now a) ss) + (if same s.address a then 1 else 0)
count_last now a s [] = ground arith
count_last now a s (x ∷ ss) = ground (arith, count_last now a s ss)

owner_at-append :
    (a b o : Text) (accounts : List AccountRow) {owner : Text}
    → owner_at b accounts ≡ some owner
    → owner_at b (accounts ++ record { address = a; owner_hash = o } ∷ []) ≡ some owner
owner_at-append a b o [] h = cc
owner_at-append a b o (x ∷ accounts) {owner} h =
    ground (arith, owner_at-append a b o accounts {owner = owner})

owner_at-new :
    (a o : Text) (accounts : List AccountRow)
    → find_first (has_address a) accounts ≡ none
    → owner_at a (accounts ++ record { address = a; owner_hash = o } ∷ []) ≡ some o
owner_at-new a o [] h = ground (arith, same_refl a)
owner_at-new a o (x ∷ accounts) h = ground (arith, owner_at-new a o accounts)

add-IsSound :
    (now : ℕ) (t : Tables) (s : SessionRow)
    → IsSound now t
    → length (keep_if (is_session_of now s.address) t.sessions) < 10
    → owner_at s.address t.accounts ≡ some s.owner_hash
    → IsSound now (record t { sessions = t.sessions ++ s ∷ [] })
add-IsSound now t s h room own = record {
  capped = λ a. ground (arith, count_last now a s t.sessions, h.capped a, same_iff s.address a);
  owned = All-append _ t.sessions (s ∷ []) h.owned (own, tt);
}

module _ (host : Host) (now : ℕ) where
  -- What holds once the owner of the address is known.
  abbrev Known : Text → Text → World → Type 0
  Known address owner w = IsSound now w.tables × (owner_at address w.tables.accounts ≡ some owner)

  enroll-Known :
      (address owner : Text) (w : World)
      → IsSound now w.tables
      → find_first (has_address address) w.tables.accounts ≡ none
      → Known address owner (record w { tables = wallet_account host address owner w.tables })
  enroll-Known address owner w h new = (
    record {
      capped = h.capped;
      owned =
          All-map (λ s e. owner_at-append address s.address owner w.tables.accounts e)
            w.tables.sessions h.owned;
    },
    owner_at-new address owner w.tables.accounts new,
  )

  owner_of-Triple :
      (address : Text) (accounts : List AccountRow) (o : Option AccountRow)
      → find_first (has_address address) accounts ≡ o
      → Triple
          (λ w. IsSound now w.tables × (w.tables.accounts ≡ accounts))
          (owner_of host address o)
          (Known address)
          Any
  unfolding owner_of
  owner_of-Triple address accounts none e =
      >>=-Triple (read_clock-Triple (λ t. IsSound now t × (t.accounts ≡ accounts)) _) (λ secret.
        >>=-Triple tables-Triple (λ t. >>-Triple (guard-Triple _ _ (λ w p. tt)) (
          >>-Triple
            (write-Triple {Q = Known address (host.sha256_bytes secret)} _
              (λ w p. enroll-Known address (host.sha256_bytes secret) w p.0.0.0 (rw p.0.0.1 e)))
            (pure-Triple (host.sha256_bytes secret) (λ w p. p)))))
  owner_of-Triple address accounts (some a) e =
      pure-Triple a.owner_hash (λ w p. (p.0, rw (p.1, e) refl))

  open_session-Triple :
      (address token : Text) (expires : ℕ)
      → Triple
          (λ w. IsSound now w.tables)
          (open_session host now address token expires)
          (λ b w. IsSound now w.tables)
          Any
  unfolding open_session
  open_session-Triple address token expires = >>=-Triple tables-Triple (λ t.
      >>=-Triple
        (before-Triple (λ w p. (p.0, ap (λ u. u.accounts) p.1))
          (owner_of-Triple address t.accounts _ refl))
        (λ owner. >>=-Triple tables-Triple (λ u. >>-Triple (guard-Triple _ _ (λ w p. tt)) (
          >>-Triple (guard-Triple _ _ (λ w p. tt)) (
            >>-Triple
              (write-Triple {Q = λ w. IsSound now w.tables} _ (λ w p.
                add-IsSound now w.tables _ p.0.0.0.0 (rw p.0.0.1 (ltb→lt _ _ p.0.1)) p.0.0.0.1))
              (pure-Triple true (λ w p. p)))))))

  consume_found-Triple :
      (id token : Text) (expires : ℕ) (o : Option ChallengeRow)
      → Triple
          (λ w. IsSound now w.tables)
          (consume_found host now o id token expires)
          (λ b w. IsSound now w.tables)
          Any
  unfolding consume_found
  consume_found-Triple id token expires none = pure-Triple false (λ w p. p)
  consume_found-Triple id token expires (some c) =
      >>-Triple
        (write-Triple {Q = λ w. IsSound now w.tables} _
          (λ w p. record { capped = p.capped; owned = p.owned }))
        (open_session-Triple c.address token expires)

consume_rest-Triple :
    (host : Host) (id token : Text) (expires now : ℕ)
    → Triple
        (λ w. IsSound now w.tables)
        (tables >>= λ t.
          consume_found host now (find_first (is_live now id) t.challenges) id token expires)
        (λ b w. IsSound now w.tables)
        Any
consume_rest-Triple host id token expires now =
    >>=-Triple tables-Triple
      (λ t. before-Triple (λ w p. p.0) (consume_found-Triple host now id token expires _))

settled :
    (now : ℕ) (t : Tables) (r : Result LoginFault Bool × World)
    → IsSound now t
    → After (λ b w. IsSound now w.tables) Any r
    → IsSound now (settle t r).1.tables
unfolding settle
settled now t (ok b, w) p h = h
settled now t (err e, w) p h = p

-- If at the time of the call no address has more than ten live sessions, and each session belongs
-- to the account of its address, then this holds after `consume` too, however it ends.
pub consume-IsSound :
    (host : Host) (id token : Text) (expires : ℕ) (w : World)
    → IsSound (host.database_time w.clock) w.tables
    → IsSound (host.database_time w.clock) (consume host id token expires w).1.tables
unfolding consume consume_call transaction read_clock enclave_developer.Prelude.◌>>=◌
consume-IsSound host id token expires w p = settled (host.database_time w.clock) w.tables _ p (
    (consume_rest-Triple host id token expires (host.database_time w.clock)).run
      (record w { clock = w.clock + 1 }) p)
