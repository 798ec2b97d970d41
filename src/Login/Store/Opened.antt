-- ===== src/Login/Store/Opened.antt =====
-- The session that a `consume` of _backend/apps/api/src/wallet-auth.ts opens, and the challenge
-- that it opens it for.
use enclave_developer.Prelude.{
  ◌≡◌, Bool, List, ℕ, Option, any, false, find_first, true, some, ◌++◌, ◌∷◌, [], ap, arith, none,
  sym, refl, ◌∙◌,
}
use enclave_developer.Prelude.Text.{Text, same_refl}
use enclave_developer.Login.Store.{
  Host, consume, consume_found, open_session, owner_of, ChallengeRow, World, consume_call,
  AccountRow, SessionRow, has_token, is_live,
}
use enclave_developer.Prelude.Triples.{
  Triple, >>=-Triple, After-both, fail-Triple, pure-Triple, >>-Triple, before-Triple, assume-Triple,
  map-Triple,
}
use enclave_developer.Login.Store.Steps.{
  Any, tables-Triple, transaction-Triple, read_clock-Triple, guard-Triple, write-Triple,
}

-- The session that `token` leads to.
abbrev pub Opens : Text → Text → ℕ → World → Type 0
Opens token address expires w =
    (s : SessionRow) × (find_first (has_token token) w.tables.sessions ≡ some s)
    × (s.address ≡ address)
    × (s.expires_at ≡ expires)

find_first-last {ℓ} :
    {A : Type ℓ} (p : A → Bool) (x : A) (xs : List A)
    → any p xs ≡ false
    → p x ≡ true
    → find_first p (xs ++ x ∷ []) ≡ some x
find_first-last p x [] h e = ground arith
find_first-last p x (y ∷ xs) h e = ground (arith, find_first-last p x xs)

module _ (host : Host) where
  owner_of-Triple :
      (address : Text) (o : Option AccountRow) → Triple Any (owner_of host address o) (λ a. Any) Any
  unfolding owner_of
  owner_of-Triple address o = record { run = λ w p. After-both Any _ tt }

  open_session-Triple :
      (now : ℕ) (address token : Text) (expires : ℕ)
      → Triple Any
          (open_session host now address token expires)
          (λ b. Opens token address expires)
          Any
  unfolding open_session
  open_session-Triple now address token expires = >>=-Triple (tables-Triple {P = Any}) (λ t.
      >>=-Triple (before-Triple (λ w p. tt) (owner_of-Triple address _)) (λ owner.
        >>=-Triple tables-Triple (λ u. >>-Triple (guard-Triple _ _ (λ w p. tt)) (
          >>-Triple (guard-Triple _ _ (λ w p. tt)) (
            >>-Triple
              (write-Triple {Q = Opens token address expires} _ (λ w p. (
                _,
                find_first-last (has_token token) _ w.tables.sessions (ground (arith, p.1, p.0.0.1))
                    (same_refl token),
                refl,
                refl,
              )))
              (pure-Triple true (λ w p. p)))))))

  -- A challenge in `cs` was live when it was consumed, and the session is of its address.
  abbrev pub OpensFor : List ChallengeRow → Text → Text → ℕ → Bool → World → Type 0
  OpensFor cs id token expires false w = Unit
  OpensFor cs id token expires true w =
      (now : ℕ) × (c : ChallengeRow) × (find_first (is_live now id) cs ≡ some c)
      × Opens token c.address expires w

  opened :
      (cs : List ChallengeRow) (now : ℕ) (id token : Text) (expires : ℕ) (c : ChallengeRow)
      (b : Bool) (w : World)
      → find_first (is_live now id) cs ≡ some c
      → Opens token c.address expires w
      → OpensFor cs id token expires b w
  opened cs now id token expires c false w e h = tt
  opened cs now id token expires c true w e h = (now, c, e, h)

  consume_found-Triple :
      (cs : List ChallengeRow) (now : ℕ) (id token : Text) (expires : ℕ) (o : Option ChallengeRow)
      → find_first (is_live now id) cs ≡ o
      → Triple Any (consume_found host now o id token expires) (OpensFor cs id token expires) Any
  unfolding consume_found
  consume_found-Triple cs now id token expires none e = pure-Triple false (λ w p. tt)
  consume_found-Triple cs now id token expires (some c) e =
      >>-Triple (write-Triple {Q = Any} _ (λ w p. tt)) (
        map-Triple (λ b w h. opened cs now id token expires c b w e h)
          (open_session-Triple now c.address token expires))

  pub consume-OpensFor :
      (cs : List ChallengeRow) (id token : Text) (expires : ℕ)
      → Triple
          (λ w. w.tables.challenges ≡ cs)
          (consume host id token expires)
          (OpensFor cs id token expires)
          Any
  unfolding consume consume_call
  consume-OpensFor cs id token expires =
      fail-Triple (λ w p. tt)
        (transaction-Triple (λ t. t.challenges ≡ cs)
          (>>=-Triple (read_clock-Triple (λ t. t.challenges ≡ cs) _) (λ now.
            >>=-Triple tables-Triple (λ t.
              assume-Triple
                (λ w p. let e : t.challenges ≡ cs = ap (λ u. u.challenges) (sym p.1) ∙ p.0 in e)
                (λ e.
                  before-Triple (λ w p. tt)
                    (consume_found-Triple cs now id token expires _
                      (ap (find_first (is_live now id)) (sym e))))))))
