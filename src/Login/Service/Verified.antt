-- ===== src/Login/Service/Verified.antt =====
-- What a sign-in that `verify` of _backend/apps/api/src/wallet-auth.ts grants has shown.
use enclave_developer.Prelude.{
  ◌≡◌, List, ℕ, length, keep_if, some, ◌≤◌, find_first, Bool, none, ◌∷◌, arith, [], any, refl, ◌++◌,
  ◌+◌, true, ◌∙◌, ap, sym, false, Option, ◌<◌, ok, ltb, ◌&&◌, lt→ltb,
}
use enclave_developer.Prelude.Text.{Text, lower, codes, same_iff, same_hex_refl}
use enclave_developer.Login.Service.{
  Login, Session, grant, verify, verify_found, verify_signer, resume, resume_found, is_token,
}
use enclave_developer.Login.Store.{
  World, has_id, is_live, ChallengeRow, expired_or_used, invalid_signature, live_challenge, guard,
  live_session, read_clock, tables,
}
use enclave_developer.Login.Store.Opened.{Opens, OpensFor, consume-OpensFor}
use enclave_developer.Prelude.Triples.{
  Triple, >>=-Triple, >>-Triple, pure-Triple, assume-Triple, before-Triple, throw-Triple, After-ok,
}
use enclave_developer.Login.Store.Steps.{Any, read_clock-Triple, guard-Triple, tables-Triple}

none_live :
    (id : Text) (now : ℕ) (cs : List ChallengeRow)
    → length (keep_if (has_id id) cs) ≤ 0
    → find_first (is_live now id) cs ≡ none
none_live id now [] h = refl
none_live id now (x ∷ cs) h = ground (arith, none_live id now cs)

same_row :
    (id : Text) (now later : ℕ) (cs : List ChallengeRow) (c d : ChallengeRow)
    → length (keep_if (has_id id) cs) ≤ 1
    → find_first (is_live now id) cs ≡ some c
    → find_first (is_live later id) cs ≡ some d
    → c ≡ d
same_row id now later [] c d h p q = cc
same_row id now later (x ∷ cs) c d h p q =
    ground (arith, none_live id now cs, none_live id later cs, same_row id now later cs c d)

clock-Triple :
    {cs : List ChallengeRow} (f : ℕ → ℕ) (moment : ℕ)
    → Triple
        (λ w. (w.tables.challenges ≡ cs) × (f w.clock ≡ moment))
        (read_clock f)
        (λ now w. (w.tables.challenges ≡ cs) × (now ≡ moment))
        Any
unfolding read_clock
clock-Triple f moment = record { run = λ w p. p }

module _ (login : Login) (id signature : Text) (cs : List ChallengeRow) (at_call : ℕ) where
  -- The session is of the wallet that signed the message of the challenge `id`, which was stored
  -- and live at the call, and the session is stored.
  pub record IsProven (s : Session) (w : World) : Type 0 where
    pub challenge_row : ChallengeRow
    pub stored : find_first (is_live at_call id) cs ≡ some challenge_row
    pub signed : login.recover challenge_row.message signature ≡ some s.address
    pub of_address : lower s.address ≡ challenge_row.address
    pub opens : Opens (login.host.sha256 s.token) challenge_row.address s.expires_at w

  proven :
      (c : ChallengeRow) (signer secret : Text) (issued : ℕ)
      → length (keep_if (has_id id) cs) ≤ 1
      → find_first (is_live at_call id) cs ≡ some c
      → login.recover c.message signature ≡ some signer
      → lower signer ≡ c.address
      → (consumed : Bool) (w : World)
      → OpensFor login.host cs id
          (login.host.sha256 (codes "enws_" ++ secret))
          (issued + 1800000)
          consumed
          w
      → consumed ≡ true
      → IsProven
          (record {
            token = codes "enws_" ++ secret;
            address = signer;
            expires_at = issued + 1800000;
          })
          w
  proven c signer secret issued u e r a false w h t = cc
  proven c signer secret issued u e r a true w (later, d, f, (s, found, own, ends)) t = record {
    challenge_row = c;
    stored = e;
    signed = r;
    of_address = a;
    opens =
        (s, found, own ∙ ap (λ x. x.address) (sym (same_row id at_call later cs c d u e f)), ends);
  }

  grant-Triple :
      (c : ChallengeRow) (signer : Text)
      → length (keep_if (has_id id) cs) ≤ 1
      → find_first (is_live at_call id) cs ≡ some c
      → login.recover c.message signature ≡ some signer
      → lower signer ≡ c.address
      → Triple (λ w. w.tables.challenges ≡ cs) (grant login id signer) IsProven Any
  unfolding grant
  grant-Triple c signer u e r a =
      >>=-Triple (read_clock-Triple (λ t. t.challenges ≡ cs) _) (λ secret.
        >>=-Triple (read_clock-Triple (λ t. t.challenges ≡ cs) _) (λ issued.
          >>=-Triple
            (consume-OpensFor login.host cs id (login.host.sha256 (codes "enws_" ++ secret))
              (issued + 1800000))
            (λ consumed.
              >>-Triple (guard-Triple _ _ (λ w p. tt))
                (pure-Triple _ (λ w p. proven c signer secret issued u e r a consumed w p.0 p.1)))))

  signer-Triple :
      (c : ChallengeRow)
      → length (keep_if (has_id id) cs) ≤ 1
      → find_first (is_live at_call id) cs ≡ some c
      → (o : Option Text) → login.recover c.message signature ≡ o
      → Triple (λ w. w.tables.challenges ≡ cs) (verify_signer login id c o) IsProven Any
  unfolding verify_signer
  signer-Triple c u e none r = throw-Triple invalid_signature (λ w p. tt)
  signer-Triple c u e (some signer) r = >>-Triple (guard-Triple _ _ (λ w p. tt)) (
      assume-Triple (λ w p. (same_iff (lower signer) c.address).0 p.1)
        (λ a. before-Triple (λ w p. p.0) (grant-Triple c signer u e r a)))

  verify_found-Triple :
      (o : Option ChallengeRow)
      → length (keep_if (has_id id) cs) ≤ 1
      → find_first (is_live at_call id) cs ≡ o
      → Triple (λ w. w.tables.challenges ≡ cs) (verify_found login id signature o) IsProven Any
  unfolding verify_found verify_signer
  verify_found-Triple none u e = throw-Triple expired_or_used (λ w p. tt)
  verify_found-Triple (some c) u e =
      >>=-Triple (read_clock-Triple (λ t. t.challenges ≡ cs) _) (λ seen.
        >>-Triple (guard-Triple _ _ (λ w p. tt)) (
          >>-Triple (guard-Triple _ _ (λ w p. tt))
            (before-Triple (λ w p. p.0.0) (signer-Triple c u e _ refl))))

  -- The tables and the clock at the call.
  abbrev AtCall : World → Type 0
  AtCall w = (w.tables.challenges ≡ cs) × (login.host.database_time w.clock ≡ at_call)

  live_challenge-Triple :
      Triple AtCall
        (live_challenge login.host id)
        (λ o w. (w.tables.challenges ≡ cs) × (find_first (is_live at_call id) cs ≡ o))
        Any
  unfolding live_challenge
  live_challenge-Triple = >>=-Triple (clock-Triple login.host.database_time at_call) (λ now.
      >>=-Triple tables-Triple (λ t. pure-Triple _ (λ w p. (
        p.0.0,
        ap (λ n. find_first (is_live n id) cs) (sym p.0.1)
            ∙ ap (find_first (is_live now id)) (sym p.0.0 ∙ ap (λ u. u.challenges) p.1),
      ))))

  verify-Triple :
      length (keep_if (has_id id) cs) ≤ 1 → Triple AtCall (verify login id signature) IsProven Any
  unfolding verify
  verify-Triple u = >>=-Triple live_challenge-Triple (λ o.
      assume-Triple (λ w p. p.1)
        (λ live. before-Triple (λ w p. p.0) (verify_found-Triple o u live)))

find_first_also {ℓ} :
    {A : Type ℓ} (p q : A → Bool) (xs : List A) (x : A)
    → find_first p xs ≡ some x
    → q x ≡ true
    → find_first (λ y. p y && q y) xs ≡ some x
find_first_also p q [] x h e = cc
find_first_also p q (y ∷ xs) x h e = ground (arith, find_first_also p q xs x)

module _ (login : Login) where
  -- `resume` with the token of a session that is stored, live at both clocks.
  pub resume_opened :
      (s : Session) (address : Text) (w : World)
      → is_token s.token ≡ true
      → Opens (login.host.sha256 s.token) address s.expires_at w
      → login.host.database_time w.clock < s.expires_at
      → login.host.time (w.clock + 1) < s.expires_at
      → (resume login s.token address w).0
        ≡ ok (record { token = s.token; address = address; expires_at = s.expires_at })
  unfolding resume resume_found guard live_session read_clock tables enclave_developer.Prelude.◌>>=◌
      enclave_developer.Prelude.◌>>◌ enclave_developer.Prelude.pure
  resume_opened s address w t (row, found, own, ends) h k =
      rw
        (
          t,
          find_first_also _ (λ r. ltb (login.host.database_time w.clock) r.expires_at)
              w.tables.sessions row found (rw ends (lt→ltb _ _ h)),
          ends,
          lt→ltb _ _ k,
          own,
          same_hex_refl address,
        )
        refl

  module _ (id signature : Text) (w : World) (s : Session)
      (single : length (keep_if (has_id id) w.tables.challenges) ≤ 1)
      (verified : (verify login id signature w).0 ≡ ok s) where
    -- Where at most one challenge has the id that `verify` is given and `verify` returns a
    -- session, a challenge of the id was stored at the call and live at its clock, it is of the
    -- address of the session and carries a message whose signature, as given, recovers to the
    -- address that is returned, and the hash of the token leads to a stored session of that
    -- address with the time that is returned.
    pub verify-IsProven :
        IsProven login id signature w.tables.challenges
          (login.host.database_time w.clock)
          s
          (verify login id signature w).1
    verify-IsProven =
        After-ok
          (IsProven login id signature w.tables.challenges (login.host.database_time w.clock)) Any _
          verified
          ((verify-Triple login id signature w.tables.challenges (login.host.database_time w.clock)
              single).run
            w (refl, refl))

    pub resume-verify :
        is_token s.token ≡ true
        → login.host.database_time (verify login id signature w).1.clock < s.expires_at
        → login.host.time ((verify login id signature w).1.clock + 1) < s.expires_at
        → (resume login s.token (lower s.address) (verify login id signature w).1).0
          ≡ ok (record { token = s.token; address = lower s.address; expires_at = s.expires_at })
    resume-verify t h k =
        resume_opened s (lower s.address) (verify login id signature w).1 t
          (rw verify-IsProven.of_address verify-IsProven.opens) h k
