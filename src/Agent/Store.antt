-- ===== src/Agent/Store.antt =====
-- `assertRunFence` and the class `PostgresAgentRunStore` of
-- _backend/apps/api/src/agent-runtime-store.ts, on the tables agent_runs and agent_actions with
-- their unique indexes and the checks of agent-runtime-schema.ts. A transaction restores the tables
-- when it throws; the row locks make the transactions on one run follow each other. Every read of a
-- clock, and every random id, gets the number of such reads before it. The tables that the gateway
-- writes (payments, idempotency_keys, sessions) are left to Host. `settlements` is the trace of the
-- runs and payments for which the gateway was asked to settle.
pub mod Fenced
pub mod Marked
use enclave_developer.Prelude.{
  ℕ, Bool, Exec, List, Option, Result, ok, err, false, if◌then◌else◌, leb, true, ◌&&◌, ◌+◌, ◌>>=◌,
  any, from_result, ltb, pure, some, ◌==◌, ◌>>◌, ◌||◌, find_first, none, not, throw, update_where,
  ◌++◌, ◌∷◌, [], suc, keep_if, zero,
}
use enclave_developer.Prelude.Text.{Text, same}
use enclave_developer.Agent.Run.{Patch, Run, RunStatus, Action, apply_patch, queued, running, given}
use enclave_developer.Prelude.Sort.{sort_by}

pub record World : Type 0 where
  pub runs : List Run
  pub actions : List Action
  pub owners : List Text
  pub clock : ℕ
  pub settlements : List (Text × Text)

pub data AgentFault : Type 0 where
  not_found conflict duplicate check_failed : AgentFault
  unauthorized invalid_input : AgentFault
  failure : Text → AgentFault
  call_failed : AgentFault
  payment_required : Option (Text × ℕ) → AgentFault

abbrev pub Call : Type 0 → Type 0
Call A = Exec World AgentFault A

-- `currentTime` of the process, or a moment that was read before.
pub record Fence : Type 0 where
  pub owner : Option Text
  pub token : Option Text
  pub version : Option ℕ
  pub fixed_now : Option ℕ

-- `new Date()` and `randomUUID()`
pub record Process : Type 0 where
  pub time : ℕ → ℕ
  pub uuid : ℕ → Text

unfoldable pub read_clock : {A : Type 0} → (ℕ → A) → Call A
read_clock f w = (ok (f w.clock), record w { clock = w.clock + 1 })

unfoldable pub runs : Call (List Run)
runs w = (ok w.runs, w)

unfoldable pub settle :
    {A : Type 0} → World → Result AgentFault A × World → Result AgentFault A × World
settle before (ok a, w) = (ok a, w)
settle before (err e, w) = (err e, record w { runs = before.runs; actions = before.actions })

unfoldable pub transaction : {A : Type 0} → Call A → Call A
unfolding settle
transaction m w = settle w (m w)

unfoldable pub guard : Bool → AgentFault → Call (Unit {0})
guard b e = if b then pure tt else throw e

abbrev pub has_id : Text → Run → Bool
has_id id r = same r.id id

-- An empty text is as good as none.
abbrev pub fits : Option Text → Text → Bool
fits none t = true
fits (some []) t = true
fits (some (c ∷ s)) t = same t (c ∷ s)

abbrev pub fits_version : Option ℕ → ℕ → Bool
fits_version none v = true
fits_version (some n) v = n == v

abbrev pub is_running : RunStatus → Bool
is_running running = true
is_running _ = false

abbrev pub is_queued : RunStatus → Bool
is_queued queued = true
is_queued _ = false

abbrev pub equals_token : Option Text → Text → Bool
equals_token none t = false
equals_token (some s) t = same s t

abbrev pub ends_after : Option ℕ → ℕ → Bool
ends_after none now = false
ends_after (some until) now = ltb now until

-- The run is leased under the token at that moment.
abbrev pub is_leased : Text → ℕ → Run → Bool
is_leased token now r =
    is_running r.status && equals_token r.lease_token token && ends_after r.lease_until now

abbrev pub fits_lease : Option Text → ℕ → Run → Bool
fits_lease none now r = true
fits_lease (some []) now r = true
fits_lease (some (c ∷ s)) now r = is_leased (c ∷ s) now r

unfoldable pub assert_run_fence : Option Run → Fence → ℕ → Result AgentFault Run
assert_run_fence none fence now = err not_found
assert_run_fence (some r) fence now =
    if not (fits fence.owner r.owner)
    then err not_found
    else if fits_version fence.version r.version && fits_lease fence.token now r
    then ok r
    else err conflict

pub record Change : Type 0 where
  pub patch : Patch
  pub action : Action

abbrev pub is_version : Run → Run → Bool
is_version r q = same q.id r.id && q.version == r.version

-- The checks of the table.
abbrev pub is_allowed : Run → Bool
is_allowed r =
    leb 1 r.max_steps && leb r.max_steps 100 && ltb 0 r.max_budget && leb r.spent r.max_budget

abbrev pub same_place : Action → Action → Bool
same_place a b = same b.id a.id || (same b.run_id a.run_id && b.sequence == a.sequence)

unfoldable pub insert_action : Action → Call (Unit {0})
insert_action a w =
    if any (same_place a) w.actions
    then (err duplicate, w)
    else (ok tt, record w { actions = w.actions ++ a ∷ [] })

-- The columns that `change` sets.
abbrev pub advanced : Change → ℕ → Run → Run
advanced c now r = record (apply_patch c.patch r) {
  version = r.version + 1;
  updated_at = now;
  ledger_sequence = c.action.sequence;
  ledger_head = c.action.action_hash;
}

module _ (process : Process) where
  time_of : Option ℕ → Call ℕ
  time_of none = read_clock process.time
  time_of (some now) = pure now

  fence_time : Fence → Call ℕ
  unfolding time_of
  fence_time fence = time_of fence.fixed_now

  -- The update `where id = … and version = …`, and the row that it returns.
  update_run : Run → (Run → Run) → Call Run
  update_run r f = do
    rows ← runs
    guard (any (is_version r) rows) conflict
    guard (is_allowed (f r)) check_failed
    (λ w. (ok tt, record w { runs = update_where (is_version r) f w.runs }))
    pure (f r)

  change_row : (Run → Call Change) → Fence → Run → Call Run
  unfolding update_run fence_time
  change_row mutate fence r = do
    c ← mutate r
    now ← fence_time fence
    updated ← update_run r (advanced c now)
    insert_action c.action
    pure updated

  change_call : Text → Fence → (Run → Call Change) → Call Run
  unfolding change_row fence_time
  change_call id fence mutate = do
    rows ← runs
    now ← fence_time fence
    r ← from_result (assert_run_fence (find_first (has_id id) rows) fence now)
    change_row mutate fence r

  unfoldable pub change : Text → Fence → (Run → Call Change) → Call Run
  unfolding change_call
  change id fence mutate = transaction (change_call id fence mutate)
