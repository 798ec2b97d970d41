-- ===== src/Agent/Host/Makes.antt =====
-- The actions that `AgentRuntime` of _backend/apps/api/src/agent-runtime.ts makes for a ledger, and
-- the calls that leave the ledgers and the
-- settlements alone.
use enclave_developer.Prelude.{
  ℕ, Bool, Result, pure, ◌>>=◌, ◌>>◌, keeps, throw, Keeps, if-Keeps, if◌then◌else◌, refl, true,
  >>-Keeps, >>=-Keeps, false, pure-Keeps, ◌≡◌, ◌≤◌, arith, Option, from_result-Keeps, throw-Keeps,
  ◌+◌, continue, ok, ◌∙◌, err,
}
use enclave_developer.Agent.Store.{guard, read_clock, AgentFault, Call, World, runs}
use enclave_developer.Agent.Gateway.{Host}
use enclave_developer.Agent.Store.Fenced.{Reads}
use enclave_developer.Agent.Run.{Run, Patch, Action, State}
use enclave_developer.Agent.Host.{
  action, make_change, mutation, owner_of, write, dispatch_change, ordinary_change, is_dispatch,
}
use enclave_developer.Agent.Leases.{actions_of, get_run, has_owner}
use enclave_developer.Prelude.Text.{Text}
use enclave_developer.Agent.Leases.Ledger.{IsNext}
use enclave_developer.Prelude.Triples.{After, Triple, After-either}
use enclave_developer.Agent.Leases.Marked.{Journaled, change-Journaled}

continue_runs :
    {A B : Type 0} (P : A → Type 0) (Q : B → Type 0) (r : Result AgentFault A × World)
    (f : A → Call B) (w : World)
    → r.1.runs ≡ w.runs
    → r.1.actions ≡ w.actions
    → After (λ a v. P a) (λ v. Unit {0}) r
    → ((a : A) → P a → Reads Q (f a))
    → ((continue r f).1.runs ≡ w.runs)
      × ((continue r f).1.actions ≡ w.actions)
      × After (λ b v. Q b) (λ v. Unit {0}) (continue r f)
continue_runs P Q (ok a, v) f w p q h k =
    ((k a h).same_runs v ∙ p, (k a h).same_actions v ∙ q, (k a h).gives v)
continue_runs P Q (err e, v) f w p q h k = (p, q, tt)

continue_settlements :
    {A B : Type 0} {P : A → Type 0} {Q : B → Type 0} (r : Result AgentFault A × World)
    (f : A → Call B)
    → After (λ a v. P a) (λ v. Unit {0}) r
    → ((a : A) → P a → Reads Q (f a))
    → (continue r f).1.settlements ≡ r.1.settlements
continue_settlements (ok a, v) f h k = (k a h).same_settlements v
continue_settlements (err e, v) f h k = refl

continue_onwards :
    {A B : Type 0} {P : A → Type 0} {Q : B → Type 0} (r : Result AgentFault A × World)
    (f : A → Call B) (n : ℕ)
    → After (λ a v. P a) (λ v. Unit {0}) r
    → ((a : A) → P a → Reads Q (f a))
    → n ≤ r.1.clock
    → n ≤ (continue r f).1.clock
continue_onwards (ok a, v) f n h k l = let further = (k a h).onwards v in omega arith
continue_onwards (err e, v) f n h k l = l

pub >>=-Reads :
    {A B : Type 0} (P : A → Type 0) {Q : B → Type 0} {m : Call A} {f : A → Call B}
    → Reads P m
    → ((a : A) → P a → Reads Q (f a))
    → Reads Q (m >>= f)
unfolding ◌>>=◌
>>=-Reads P {Q} {m} {f} h k = record {
  same_runs = λ w. (continue_runs P Q (m w) f w (h.same_runs w) (h.same_actions w) (h.gives w) k).0;
  same_actions =
      λ w. (continue_runs P Q (m w) f w (h.same_runs w) (h.same_actions w) (h.gives w) k).1;
  same_settlements =
      λ w. continue_settlements {P = P} {Q = Q} (m w) f (h.gives w) k ∙ h.same_settlements w;
  onwards = λ w. continue_onwards {P = P} {Q = Q} (m w) f w.clock (h.gives w) k (h.onwards w);
  gives = λ w. (continue_runs P Q (m w) f w (h.same_runs w) (h.same_actions w) (h.gives w) k).2;
}

pub >>-Reads :
    {B : Type 0} (P : Unit {0} → Type 0) {Q : B → Type 0} {m : Call (Unit {0})} {k : Call B}
    → Reads P m
    → Reads Q k
    → Reads Q (m >> k)
unfolding ◌>>◌ ◌>>=◌
>>-Reads P {m} {k} h g = >>=-Reads P {m = m} {f = λ _. k} h (λ a p. g)

pub pure-Reads : {A : Type 0} {Q : A → Type 0} (a : A) → Q a → Reads Q (pure a)
unfolding pure
pure-Reads a q = record {
  same_runs = λ w. refl;
  same_actions = λ w. refl;
  same_settlements = λ w. refl;
  onwards = λ w. omega arith;
  gives = λ w. q;
}

abbrev pub Anything : {A : Type 0} → A → Type 0
Anything a = Unit {0}

pub read_clock-Reads : {A : Type 0} (f : ℕ → A) → Reads Anything (read_clock f)
unfolding read_clock
read_clock-Reads f = record {
  same_runs = λ w. refl;
  same_actions = λ w. refl;
  same_settlements = λ w. refl;
  onwards = λ w. omega arith;
  gives = λ w. tt;
}

pub guard-Reads : (b : Bool) (e : AgentFault) → Reads Anything (guard b e)
unfolding guard pure throw
guard-Reads true e = record {
  same_runs = λ w. refl;
  same_actions = λ w. refl;
  same_settlements = λ w. refl;
  onwards = λ w. omega arith;
  gives = λ w. tt;
}
guard-Reads false e = record {
  same_runs = λ w. refl;
  same_actions = λ w. refl;
  same_settlements = λ w. refl;
  onwards = λ w. omega arith;
  gives = λ w. tt;
}

pub if-Reads :
    {A : Type 0} {Q : A → Type 0} (b : Bool) {m k : Call A}
    → Reads Q m
    → Reads Q k
    → Reads Q (if b then m else k)
if-Reads true h g = h
if-Reads false h g = g

module _ (host : Host) where
  abbrev pub Follows : Run → Text → Action → Type 0
  Follows r kind a =
      (a.run_id ≡ r.id) × (a.sequence ≡ r.ledger_sequence + 1) × (a.previous_hash ≡ r.ledger_head)

  pub action-Reads :
      (r : Run) (kind event : Text) → Reads (Follows r kind) (action host r kind event)
  unfolding action
  action-Reads r kind event = >>=-Reads Anything (read_clock-Reads _) (λ created u.
      >>=-Reads Anything (read_clock-Reads _) (λ payload u'.
        >>=-Reads Anything (read_clock-Reads _) (λ id u''. pure-Reads _ (refl, refl, refl))))

  pub make_change-Reads :
      (r : Run) (patch : Patch) (kind event : Text)
      → Reads (IsNext r) (make_change host r patch kind event)
  unfolding make_change
  make_change-Reads r patch kind event =
      >>=-Reads (Follows r kind) (action-Reads r kind event) (λ a f. pure-Reads _ f)

  ordinary-Reads :
      (r : Run) (kind event : Text) (state : State) (patch : Patch)
      → Reads (IsNext r) (ordinary_change host r kind event state patch)
  unfolding ordinary_change
  ordinary-Reads r kind event state patch =
      >>=-Reads Anything (read_clock-Reads _) (λ s u. make_change-Reads r _ kind event)

  pub mutation-Reads :
      (kind event : Text) (state : State) (patch : Patch) (r : Run)
      → Reads (IsNext r) (mutation host kind event state patch r)
  unfolding mutation dispatch_change
  mutation-Reads kind event state patch r =
      if-Reads (is_dispatch kind)
        (>>=-Reads Anything (read_clock-Reads _) (λ now u. >>-Reads Anything (guard-Reads _ _) (
          >>=-Reads Anything (read_clock-Reads _) (λ later u'.
            if-Reads _ (make_change-Reads r _ _ _) (ordinary-Reads r kind event state patch)))))
        (ordinary-Reads r kind event state patch)

  abbrev pub Kept : {A : Type 0} → Call A → Type 0
  Kept m = Keeps (Journaled host.zero_hash) m

  pub write-Kept :
      (r : Run) (kind event : Text) (state : State) (patch : Patch) (token : Option Text)
      → Kept (write host r kind event state patch token)
  unfolding write
  write-Kept r kind event state patch token =
      change-Journaled host.zero_hash host.process r.id _ _ (mutation-Reads kind event state patch)

  pub read_clock-Kept : {A : Type 0} (f : ℕ → A) → Kept (read_clock f)
  unfolding read_clock
  read_clock-Kept f = record { keep = λ w p. p }

  pub guard-Kept : (b : Bool) (e : AgentFault) → Kept (guard b e)
  unfolding guard
  guard-Kept b e = if-Keeps b (pure-Keeps _) (throw-Keeps _)

  has_owner-Kept : (owner : Text) → Kept (has_owner host.process owner)
  unfolding has_owner
  has_owner-Kept owner = record { keep = λ w p. p }

  pub owner_of-Kept : (api_key : Text) → Kept (owner_of host api_key)
  unfolding owner_of
  owner_of-Kept api_key =
      >>-Keeps (guard-Kept _ _)
        (>>=-Keeps (has_owner-Kept _) (λ known. >>-Keeps (guard-Kept _ _) (pure-Keeps _)))

  pub get_run-Kept : (owner id : Text) → Kept (get_run host.process owner id)
  unfolding get_run runs
  get_run-Kept owner id =
      >>=-Keeps (record { keep = λ w p. p })
        (λ rows. >>=-Keeps (read_clock-Kept _) (λ now. from_result-Keeps _))

  pub actions_of-Kept : (id : Text) → Kept (actions_of host.process id)
  unfolding actions_of
  actions_of-Kept id = record { keep = λ w p. p }

  pub ruleset kept =
      (keeps, write-Kept, read_clock-Kept, guard-Kept, owner_of-Kept, get_run-Kept, actions_of-Kept)

  gives-After :
      {A : Type 0} (Q : A → Type 0) (r : Result AgentFault A × World)
      → Journaled host.zero_hash r.1
      → After (λ a v. Q a) (λ v. Unit {0}) r
      → After (λ a v. Q a × Journaled host.zero_hash v) (Journaled host.zero_hash) r
  gives-After Q (ok a, w) h g = (g, h)
  gives-After Q (err e, w) h g = h

  pub Reads-Triple :
      {A : Type 0} {Q : A → Type 0} {m : Call A}
      → Reads Q m
      → Triple
          (Journaled host.zero_hash)
          m
          (λ a w. Q a × Journaled host.zero_hash w)
          (Journaled host.zero_hash)
  Reads-Triple {Q} {m} h = record {
    run = λ w p.
        gives-After Q (m w) (rw (h.same_runs w, h.same_actions w, h.same_settlements w) p)
          (h.gives w);
  }

  pub Triple-Kept :
      {A : Type 0} {m : Call A}
      → Triple
          (Journaled host.zero_hash)
          m
          (λ a. Journaled host.zero_hash)
          (Journaled host.zero_hash)
      → Kept m
  Triple-Kept {m} h = record {
    keep = λ w p. After-either (Journaled host.zero_hash) (m w) (h.run w p);
  }
