-- ===== src/Login/Store/Single.antt =====
-- Calls of the store of _backend/apps/api/src/wallet-auth.ts in any order, and how often one
-- challenge is consumed in them.
use enclave_developer.Prelude.{
  ℕ, ◌+◌, ◌≤◌, ◌≡◌, List, [], ◌∷◌, ◌++◌, some, Bool, true, false, ◌&&◌, not, find_first, keep_if,
  length, arith, Result, ok, err, Keeps, >>=-Keeps, Option, pure-Keeps, Bool-cases, >>-Keeps, inl,
  none, inr, All, ap, refl,
}
use enclave_developer.Prelude.Text.{Text, same, same_iff}
use enclave_developer.Login.Store.{
  World, Tables, Host, LoginFault, Call, Challenge, ChallengeRow, has_id, is_live, put,
  live_challenge, consume, revoke, live_session, consume_found, open_session, owner_of, put_call,
  write, AccountRow, sweep, challenge_row, consume_call,
}
use enclave_developer.Prelude.Triples.{
  Triple, pure-Triple, >>-Triple, map-Triple, Keeps-Triple, After, >>=-Triple, before-Triple,
}
use enclave_developer.Login.Store.Steps.{
  Any, read_clock-Keeps, tables-Keeps, transaction-Keeps, write-Keeps, guard-Keeps, write-Triple,
  transaction-Triple, tables-Triple,
}

pub data Operation : Type 0 where
  putting : Challenge → Operation
  getting : Text → Operation
  consuming : Text → Text → ℕ → Operation
  revoking : Text → Operation
  looking : Text → Operation

-- `true` is the answer of a `consume` alone.
abbrev answer_no : {A : Type 0} → Result LoginFault A × World → Result LoginFault Bool × World
answer_no (ok a, w) = (ok false, w)
answer_no (err e, w) = (err e, w)

unfoldable pub perform : Host → Operation → Call Bool
perform host (putting c) w = answer_no (put host c w)
perform host (getting id) w = answer_no (live_challenge host id w)
perform host (consuming id token expires) w = consume host id token expires w
perform host (revoking hash) w = answer_no (revoke host hash w)
perform host (looking hash) w = answer_no (live_session host hash w)

abbrev pub consumes : Text → Operation → Bool
consumes id (consuming other token expires) = same other id
consumes id _ = false

abbrev pub puts : Text → Operation → Bool
puts id (putting c) = same c.id id
puts id _ = false

abbrev one_if : Bool → ℕ
one_if true = 1
one_if false = 0

abbrev succeeded : Result LoginFault Bool → Bool
succeeded (ok b) = b
succeeded (err e) = false

-- How often `id` is consumed by the calls, one after the other.
unfoldable pub consumed : Host → Text → List Operation → World → ℕ
consumed host id [] w = 0
consumed host id (op ∷ ops) w =
    one_if (consumes id op && succeeded (perform host op w).0)
    + consumed host id ops (perform host op w).1

abbrev pub held : Text → Tables → ℕ
held id t = length (keep_if (has_id id) t.challenges)

held_keep :
    (id : Text) (p : ChallengeRow → Bool) (cs : List ChallengeRow)
    → length (keep_if (has_id id) (keep_if p cs)) ≤ length (keep_if (has_id id) cs)
held_keep id p [] = omega arith
held_keep id p (c ∷ cs) = ground (arith, held_keep id p cs)

held_delete :
    (id : Text) (now : ℕ) (cs : List ChallengeRow) (c : ChallengeRow)
    → find_first (is_live now id) cs ≡ some c
    → 1 + length (keep_if (has_id id) (keep_if (λ r. not (is_live now id r)) cs))
      ≤ length (keep_if (has_id id) cs)
held_delete id now [] c h = cc
held_delete id now (x ∷ cs) c h =
    ground (arith, held_delete id now cs c, held_keep id (λ r. not (is_live now id r)) cs)

held_other :
    (id : Text) (c : ChallengeRow) (cs : List ChallengeRow)
    → has_id id c ≡ false
    → length (keep_if (has_id id) (cs ++ c ∷ [])) ≡ length (keep_if (has_id id) cs)
held_other id c [] h = ground arith
held_other id c (x ∷ cs) h = ground (arith, held_other id c cs h)

module _ (host : Host) (id : Text) (k n : ℕ) where
  abbrev AtMost : Tables → Type 0
  AtMost t = k + held id t ≤ n

  -- A statement that leaves the challenges as they are, or with fewer of them.
  delete-Keeps :
      (f : Tables → Tables)
      → ((t : Tables) → held id (f t) ≤ held id t)
      → Keeps (λ w. AtMost w.tables) (write f)
  delete-Keeps f h = write-Keeps AtMost f (λ t p. omega (arith, h t))

  owner-Keeps :
      (address : Text) (o : Option AccountRow)
      → Keeps (λ w. AtMost w.tables) (owner_of host address o)
  unfolding owner_of
  owner-Keeps address (some a) = pure-Keeps _
  owner-Keeps address none = >>=-Keeps (read_clock-Keeps AtMost _) (λ secret.
      >>=-Keeps (tables-Keeps AtMost) (λ t.
        >>-Keeps (guard-Keeps _ _) (>>-Keeps (delete-Keeps _ (λ u. omega arith)) (pure-Keeps _))))

  open_session-Keeps :
      (now : ℕ) (address token : Text) (expires : ℕ)
      → Keeps (λ w. AtMost w.tables) (open_session host now address token expires)
  unfolding open_session
  open_session-Keeps now address token expires = >>=-Keeps (tables-Keeps AtMost) (λ t.
      >>=-Keeps (owner-Keeps address _) (λ owner. >>=-Keeps (tables-Keeps AtMost) (λ u.
        >>-Keeps (guard-Keeps _ _) (
          >>-Keeps (guard-Keeps _ _)
            (>>-Keeps (delete-Keeps _ (λ v. omega arith)) (pure-Keeps _))))))

  revoke-Keeps : (hash : Text) → Keeps (λ w. AtMost w.tables) (revoke host hash)
  unfolding revoke
  revoke-Keeps hash = delete-Keeps _ (λ t. omega arith)

  put-Keeps : (c : Challenge) → same c.id id ≡ false → Keeps (λ w. AtMost w.tables) (put host c)
  unfolding put put_call
  put-Keeps c other = transaction-Keeps AtMost _ (
      >>=-Keeps (read_clock-Keeps AtMost _) (λ now.
        >>-Keeps (delete-Keeps (sweep now) (λ t. held_keep id _ t.challenges)) (
          >>=-Keeps (tables-Keeps AtMost) (λ t. >>-Keeps (guard-Keeps _ _) (
            >>-Keeps (guard-Keeps _ _) (
              delete-Keeps _
                (λ u. omega (arith, held_other id (challenge_row c) u.challenges other))))))))

  live_challenge-Keeps : (other : Text) → Keeps (λ w. AtMost w.tables) (live_challenge host other)
  unfolding live_challenge
  live_challenge-Keeps other =
      >>=-Keeps (read_clock-Keeps AtMost _)
        (λ now. >>=-Keeps (tables-Keeps AtMost) (λ t. pure-Keeps _))

  live_session-Keeps : (hash : Text) → Keeps (λ w. AtMost w.tables) (live_session host hash)
  unfolding live_session
  live_session-Keeps hash =
      >>=-Keeps (read_clock-Keeps AtMost _)
        (λ now. >>=-Keeps (tables-Keeps AtMost) (λ t. pure-Keeps _))

module _ (host : Host) (id : Text) (n : ℕ) where
  -- What is left with the answer of a `consume` of `other`.
  abbrev Left : Text → Bool → World → Type 0
  Left other b w = one_if (same other id && b) + held id w.tables ≤ n

  delete-Left :
      (other : Text) (now : ℕ) (cs : List ChallengeRow) (c : ChallengeRow)
      → find_first (is_live now other) cs ≡ some c
      → length (keep_if (has_id id) cs) ≤ n
      → one_if (same other id)
          + length (keep_if (has_id id) (keep_if (λ r. not (is_live now other r)) cs))
        ≤ n
  delete-Left other now cs c e h = elim (Bool-cases (same other id)) [
    | inl mine ↦
        rw (mine, (same_iff other id).0 mine)
          (omega (arith, held_delete id now cs c (rw (← (same_iff other id).0 mine) e)))
    | inr not_mine ↦ rw not_mine (omega (arith, held_keep id (λ r. not (is_live now other r)) cs))
  ]

  consume_found-Triple :
      (now : ℕ) (other token : Text) (expires : ℕ) (cs : List ChallengeRow)
      (o : Option ChallengeRow)
      → find_first (is_live now other) cs ≡ o
      → Triple
          (λ w. (held id w.tables ≤ n) × (w.tables.challenges ≡ cs))
          (consume_found host now o other token expires)
          (Left other)
          Any
  unfolding consume_found
  consume_found-Triple now other token expires cs none e = pure-Triple false (λ w p. ground arith)
  consume_found-Triple now other token expires cs (some c) e =
      >>-Triple
        (write-Triple {Q = λ w. one_if (same other id) + held id w.tables ≤ n} _
          (λ w p. delete-Left other now w.tables.challenges c (rw p.1 e) p.0))
        (map-Triple (λ b w p. ground arith)
          (Keeps-Triple (open_session-Keeps host id (one_if (same other id)) n _ _ _ _)
            (λ w p. tt)))

  consume-Triple :
      (other token : Text) (expires : ℕ)
      → Triple
          (λ w. held id w.tables ≤ n)
          (consume host other token expires)
          (Left other)
          (λ w. held id w.tables ≤ n)
  unfolding consume consume_call
  consume-Triple other token expires =
      transaction-Triple (λ t. held id t ≤ n)
        (>>=-Triple (Keeps-Triple (read_clock-Keeps (λ t. held id t ≤ n) _) (λ w p. tt)) (λ now.
          >>=-Triple tables-Triple (λ t.
            before-Triple (λ w p. (p.0, ap (λ u. u.challenges) p.1))
              (consume_found-Triple now other token expires t.challenges _ refl))))

  answer-Left :
      {A : Type 0} (op : Operation) (r : Result LoginFault A × World)
      → held id r.1.tables ≤ n
      → one_if (consumes id op && succeeded (answer_no r).0) + held id (answer_no r).1.tables ≤ n
  answer-Left op (ok a, w) h = ground arith
  answer-Left op (err e, w) h = ground arith

  consume-Left :
      (other token : Text) (expires : ℕ) (r : Result LoginFault Bool × World)
      → After (Left other) (λ w. held id w.tables ≤ n) r
      → one_if (consumes id (consuming other token expires) && succeeded r.0) + held id r.1.tables
        ≤ n
  consume-Left other token expires (ok b, w) h = h
  consume-Left other token expires (err e, w) h = ground arith

  keep-Left :
      {A : Type 0} (op : Operation) {m : Call A} (w : World)
      → Keeps (λ v. 0 + held id v.tables ≤ n) m
      → held id w.tables ≤ n
      → one_if (consumes id op && succeeded (answer_no (m w)).0)
          + held id (answer_no (m w)).1.tables
        ≤ n
  keep-Left op {m} w h p = answer-Left op (m w) (let q = h.keep w (omega arith) in omega arith)

  perform-Left :
      (op : Operation) (w : World)
      → puts id op ≡ false
      → held id w.tables ≤ n
      → one_if (consumes id op && succeeded (perform host op w).0)
          + held id (perform host op w).1.tables
        ≤ n
  unfolding perform
  perform-Left (putting c) w e p = keep-Left (putting c) w (put-Keeps host id 0 n c e) p
  perform-Left (getting other) w e p =
      keep-Left (getting other) w (live_challenge-Keeps host id 0 n other) p
  perform-Left (consuming other token expires) w e p =
      consume-Left other token expires (consume host other token expires w)
        ((consume-Triple other token expires).run w p)
  perform-Left (revoking hash) w e p = keep-Left (revoking hash) w (revoke-Keeps host id 0 n hash) p
  perform-Left (looking hash) w e p =
      keep-Left (looking hash) w (live_session-Keeps host id 0 n hash) p

-- In any sequence of calls of the store that puts no challenge of an id, `consume` succeeds for
-- the id at most as often as there are challenges of the id at the start.
pub consumed-le-held :
    (host : Host) (id : Text) (ops : List Operation) (w : World)
    → All (λ op. puts id op ≡ false) ops
    → consumed host id ops w ≤ held id w.tables
unfolding consumed
consumed-le-held host id [] w h = omega arith
consumed-le-held host id (op ∷ ops) w (e, h) = omega (
  arith,
  perform-Left host id (held id w.tables) op w e (omega arith),
  consumed-le-held host id ops (perform host op w).1 h,
)
