-- ===== src/Agent/Store/Marked.antt =====
-- The settlements that the runner of _backend/apps/api/src/agent-runtime.ts has asked for, and their
-- markers in the table agent_actions, after the calls of agent-runtime-store.ts.
use enclave_developer.Prelude.{
  ℕ, List, Bool, Option, Result, ok, err, ◌≡◌, refl, ◌++◌, ◌∷◌, [], inl, inr, sym, Keeps, keeps,
  any, Bool-cases, none, some, ◌∙◌, ◌>>=◌, ◌>>◌, >>=-Keeps, >>-Keeps, from_result-Keeps, pure-Keeps,
  arith, if◌then◌else◌, true, ◌&&◌, ◌≤◌, suc,
}
use mathlib.Core.Path.{subst}
use enclave_developer.Prelude.Text.{Text, codes, same}
use enclave_developer.Agent.Run.{Run, Action}
use enclave_developer.Agent.Store.{
  World, Call, Process, Fence, Change, AgentFault, change, change_call, change_row, update_run,
  insert_action, read_clock, runs, settle, transaction, guard, time_of, fence_time, same_place,
}
use enclave_developer.Agent.Store.Fenced.{Reads}

abbrev pub marker : Text
marker = codes "settlement_dispatched"

abbrev is_marker : Text → Action → Bool
is_marker id a = same a.run_id id && same a.kind marker

-- How many actions of the run record that a settlement is dispatched.
abbrev pub markers : Text → List Action → ℕ
markers id [] = 0
markers id (a ∷ actions) = if is_marker id a then suc (markers id actions) else markers id actions

-- How often the gateway was asked to settle for the run.
abbrev pub asked_for : Text → List (Text × Text) → ℕ
asked_for id [] = 0
asked_for id (s ∷ asked) = if same s.0 id then suc (asked_for id asked) else asked_for id asked

-- Every settlement that the gateway was asked for has its own marker.
abbrev pub AllMarked : World → Type 0
AllMarked w = (id : Text) → asked_for id w.settlements ≤ markers id w.actions

markers-append : (id : Text) (xs ys : List Action) → markers id xs ≤ markers id (xs ++ ys)
markers-append id [] ys = omega arith
markers-append id (x ∷ xs) ys = let h = markers-append id xs ys in ground arith

pub markers-last :
    (id : Text) (xs : List Action) (a : Action)
    → is_marker id a ≡ true
    → markers id (xs ++ a ∷ []) ≡ suc (markers id xs)
markers-last id [] a e = ground arith
markers-last id (x ∷ xs) a e = let h = markers-last id xs a e in ground arith

pub asked_for-last :
    (id : Text) (asked : List (Text × Text)) (s : Text × Text)
    → asked_for id (asked ++ s ∷ [])
      ≡ (if same s.0 id then suc (asked_for id asked) else asked_for id asked)
asked_for-last id [] s = ground arith
asked_for-last id (q ∷ asked) s = let h = asked_for-last id asked s in ground arith

-- The settlements are these, and each has its marker.
abbrev pub Marked : List (Text × Text) → World → Type 0
Marked asked w = (w.settlements ≡ asked) × ((id : Text) → asked_for id asked ≤ markers id w.actions)

module _ (asked : List (Text × Text)) where
  pub read_clock-Marked : {A : Type 0} (f : ℕ → A) → Keeps (Marked asked) (read_clock f)
  unfolding read_clock
  read_clock-Marked f = record { keep = λ w p. p }

  pub runs-Marked : Keeps (Marked asked) runs
  unfolding runs
  runs-Marked = record { keep = λ w p. p }

  pub guard-Marked : (b : Bool) (e : AgentFault) → Keeps (Marked asked) (guard b e)
  unfolding guard
  guard-Marked b e = search (keeps) depth 4

  pub insert_action-Marked : (a : Action) → Keeps (Marked asked) (insert_action a)
  unfolding insert_action
  insert_action-Marked a = record {
    keep = λ w p. elim (Bool-cases (any (same_place a) w.actions)) [
      | inl taken ↦ rw taken p
      | inr free ↦ rw free (
        p.0,
        λ id. let few = p.1 id in let more = markers-append id w.actions (a ∷ []) in omega arith,
      )
    ];
  }

  settle-Marked :
      {A : Type 0} (before : World) (r : Result AgentFault A × World)
      → Marked asked before
      → Marked asked r.1
      → Marked asked (settle before r).1
  unfolding settle
  settle-Marked before (ok a, w) h k = k
  settle-Marked before (err e, w) h k = (k.0, h.1)

  pub transaction-Marked :
      {A : Type 0} {m : Call A} → Keeps (Marked asked) m → Keeps (Marked asked) (transaction m)
  unfolding transaction
  transaction-Marked {m} h = record { keep = λ w p. settle-Marked w (m w) p (h.keep w p) }

  pub ruleset marked = (
    keeps, read_clock-Marked, runs-Marked, guard-Marked, insert_action-Marked, transaction-Marked,
  )

  module _ (process : Process) where
    time_of-Marked : (o : Option ℕ) → Keeps (Marked asked) (time_of process o)
    unfolding time_of
    time_of-Marked none = read_clock-Marked process.time
    time_of-Marked (some now) = search (keeps)

    fence_time-Marked : (fence : Fence) → Keeps (Marked asked) (fence_time process fence)
    unfolding fence_time
    fence_time-Marked fence = time_of-Marked fence.fixed_now

    update_run-Marked : (r : Run) (f : Run → Run) → Keeps (Marked asked) (update_run process r f)
    unfolding update_run
    update_run-Marked r f =
        let set_rows : (g : World → List Run)
            → Keeps {E = AgentFault} (Marked asked) (λ w. (ok tt, record w { runs = g w })) =
          λ g. record { keep = λ w p. p } in
        search (marked, set_rows) depth 9

    mutate-Marked : {A : Type 0} {Q : A → Type 0} {m : Call A} → Reads Q m → Keeps (Marked asked) m
    mutate-Marked h = record {
      keep = λ w p. (h.same_settlements w ∙ p.0, rw (h.same_actions w) p.1);
    }

    change_row-Marked :
        (mutate : Run → Call Change) (fence : Fence) (r : Run)
        → Keeps (Marked asked) (mutate r)
        → Keeps (Marked asked) (change_row process mutate fence r)
    unfolding change_row
    change_row-Marked mutate fence r h = >>=-Keeps h (λ c.
        >>=-Keeps (fence_time-Marked fence) (λ now.
          >>=-Keeps (update_run-Marked r _)
            (λ updated. >>-Keeps (insert_action-Marked _) (pure-Keeps _))))

    pub change-Marked :
        (id : Text) (fence : Fence) (mutate : Run → Call Change) (Q : Run → Change → Type 0)
        → ((r : Run) → Reads (Q r) (mutate r))
        → Keeps (Marked asked) (change process id fence mutate)
    unfolding change change_call
    change-Marked id fence mutate Q reads = transaction-Marked (
        >>=-Keeps runs-Marked (λ rows. >>=-Keeps (fence_time-Marked fence) (λ now.
          >>=-Keeps (from_result-Keeps _)
            (λ r. change_row-Marked mutate fence r (mutate-Marked (reads r))))))

keep-AllMarked :
    {A : Type 0} {m : Call A} (w : World)
    → AllMarked w
    → Keeps (Marked w.settlements) m
    → AllMarked (m w).1
keep-AllMarked {m} w h k =
    let (same_list, all_marked) = k.keep w (refl, h) in
    subst (λ asked. (id : Text) → asked_for id asked ≤ markers id (m w).1.actions) (sym same_list)
      all_marked

-- A call that asks for no settlement and takes no action away.
pub Marked-AllMarked :
    {A : Type 0} {m : Call A}
    → ((asked : List (Text × Text)) → Keeps (Marked asked) m)
    → Keeps AllMarked m
Marked-AllMarked k = record { keep = λ w h. keep-AllMarked w h (k w.settlements) }
