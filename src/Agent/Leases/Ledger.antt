-- ===== src/Agent/Leases/Ledger.antt =====
-- The ledgers of the runs of _backend/apps/api/src/agent-runtime-store.ts: the actions of a run, one
-- linked to the next, up to the head that the run keeps.
use mathlib.Core.Path.{subst}
use enclave_developer.Prelude.{
  ℕ, List, Bool, find_first, ◌∷◌, ◌≡◌, All, any, keep_if, update_where, ◌++◌, ◌+◌, Bool-cases, [],
  false, some, true, arith, if◌then◌else◌, inl, inr, refl, ap, sym, ◌∙◌, and-elim, All-map,
  All-append,
}
use enclave_developer.Prelude.Text.{Text, same, same_iff, same_refl}
use enclave_developer.Agent.Run.{Run, Action}
use enclave_developer.Agent.Store.{has_id, Change, is_version, advanced, Fence, World, Process}
use enclave_developer.Agent.Store.Fenced.{IsAdvanced}

-- The actions follow each other from a hash and a number on, and end with those.
abbrev pub Links : Text → ℕ → List Action → Text → ℕ → Type 0
Links hash n [] head k = (hash ≡ head) × (n ≡ k)
Links hash n (a ∷ rest) head k =
    (a.sequence ≡ n + 1) × (a.previous_hash ≡ hash) × Links a.action_hash (n + 1) rest head k

abbrev pub own : Text → List Action → List Action
own id actions = keep_if (λ a. same a.run_id id) actions

abbrev pub Distinct : List Run → Type 0
Distinct [] = Unit
Distinct (r ∷ rows) = (any (has_id r.id) rows ≡ false) × Distinct rows

-- Ids are unique, every action belongs to a run, and the actions of a run are its ledger.
pub record IsLedgered (zero_hash : Text) (rows : List Run) (actions : List Action) : Type 0 where
  pub distinct : Distinct rows
  pub linked : All (λ (a : Action). any (has_id a.run_id) rows ≡ true) actions
  pub chained :
      All (λ (r : Run). Links zero_hash 0 (own r.id actions) r.ledger_head r.ledger_sequence) rows

Links-append :
    (hash : Text) (n : ℕ) (rest : List Action) (head : Text) (k : ℕ) (a : Action)
    → Links hash n rest head k
    → a.sequence ≡ k + 1
    → a.previous_hash ≡ head
    → Links hash n (rest ++ a ∷ []) a.action_hash (k + 1)
Links-append hash n [] head k a (p, q) e h = (ground arith, cc, (refl, ground arith))
Links-append hash n (b ∷ rest) head k a (p, q, l) e h =
    (p, q, Links-append b.action_hash (n + 1) rest head k a l e h)

pub own-append :
    (id : Text) (actions : List Action) (a : Action)
    → own id (actions ++ a ∷ [])
      ≡ (if same a.run_id id then own id actions ++ a ∷ [] else own id actions)
own-append id [] a = ground arith
own-append id (b ∷ actions) a = ground (arith, own-append id actions a)

-- What an update changes of the rows that it selects.
abbrev pub KeepsId : (Run → Run) → Type 0
KeepsId f = (r : Run) → (f r).id ≡ r.id

pub any-update_where :
    (p : Run → Bool) (f : Run → Run) (id : Text) (rows : List Run)
    → KeepsId f
    → any (has_id id) (update_where p f rows) ≡ any (has_id id) rows
any-update_where p f id [] k = refl
any-update_where p f id (r ∷ rows) k = elim (Bool-cases (p r)) [
  | inl hit ↦ rw (hit, k r, any-update_where p f id rows k) refl
  | inr miss ↦ rw (miss, any-update_where p f id rows k) refl
]

pub update_where-Distinct :
    (p : Run → Bool) (f : Run → Run) (rows : List Run)
    → KeepsId f
    → Distinct rows
    → Distinct (update_where p f rows)
update_where-Distinct p f [] k d = tt
update_where-Distinct p f (r ∷ rows) k (u, d) = elim (Bool-cases (p r)) [
  | inl hit ↦
      rw hit (rw (k r, any-update_where p f r.id rows k) u, update_where-Distinct p f rows k d)
  | inr miss ↦ rw miss (rw (any-update_where p f r.id rows k) u, update_where-Distinct p f rows k d)
]

pub All-update_where :
    (P : Run → Type 0) (p : Run → Bool) (f : Run → Run) (rows : List Run)
    → All (λ r. (p r ≡ true → P (f r)) × (p r ≡ false → P r)) rows
    → All P (update_where p f rows)
All-update_where P p f [] h = tt
All-update_where P p f (r ∷ rows) ((y, n), h) = elim (Bool-cases (p r)) [
  | inl hit ↦ rw hit (y hit, All-update_where P p f rows h)
  | inr miss ↦ rw miss (n miss, All-update_where P p f rows h)
]

none_with :
    (id : Text) (rows : List Run) (r : Run)
    → any (has_id id) rows ≡ false
    → All (λ (q : Run). same q.id id ≡ true → q ≡ r) rows
none_with id [] r e = tt
none_with id (q ∷ rows) r e = (λ h. absurd (ground arith), none_with id rows r (ground arith))

-- Only one row has the id that was found.
only_row :
    (id : Text) (rows : List Run) (r : Run)
    → Distinct rows
    → find_first (has_id id) rows ≡ some r
    → All (λ (q : Run). same q.id id ≡ true → q ≡ r) rows
only_row id [] r d e = tt
only_row id (q ∷ rows) r (u, d) e = elim (Bool-cases (same q.id id)) [
  | inl here ↦ (λ h. ground arith, none_with id rows r (rw (← (same_iff q.id id).0 here) u))
  | inr later ↦ (λ h. absurd (ground arith), only_row id rows r d (ground arith))
]

found_id :
    (id : Text) (rows : List Run) (r : Run) → find_first (has_id id) rows ≡ some r → r.id ≡ id
found_id id [] r e = cc
found_id id (q ∷ rows) r e = elim (Bool-cases (same q.id id)) [
  | inl here ↦
      let same_row : q ≡ r = ground arith in
      ap (λ x. x.id) (sym same_row) ∙ (same_iff q.id id).0 here
  | inr later ↦ found_id id rows r (ground arith)
]

found_any :
    (id : Text) (rows : List Run) (r : Run)
    → find_first (has_id id) rows ≡ some r
    → any (has_id id) rows ≡ true
found_any id [] r e = cc
found_any id (q ∷ rows) r e = ground (arith, found_any id rows r)

All-both :
    {A : Type 0} (P Q : A → Type 0) (xs : List A) → All P xs → All Q xs → All (λ x. P x × Q x) xs
All-both P Q [] h k = tt
All-both P Q (x ∷ xs) (p, h) (q, k) = ((p, q), All-both P Q xs h k)

-- The action is the next one of the run.
abbrev pub IsNext : Run → Change → Type 0
IsNext r c =
    (c.action.run_id ≡ r.id)
    × (c.action.sequence ≡ r.ledger_sequence + 1)
    × (c.action.previous_hash ≡ r.ledger_head)

module _ (zero_hash : Text) (row : Run) (c : Change) (now : ℕ) (actions : List Action)
    (next : IsNext row c) where
  abbrev Chained : List Action → Run → Type 0
  Chained log q = Links zero_hash 0 (own q.id log) q.ledger_head q.ledger_sequence

  row-Chained : Chained actions row → Chained (actions ++ c.action ∷ []) (advanced c now row)
  row-Chained h =
      rw (own-append row.id actions c.action, (same_iff c.action.run_id row.id).1 next.0)
        (subst (λ k. Links zero_hash 0 (own row.id actions ++ c.action ∷ []) c.action.action_hash k)
          (sym next.1)
          (Links-append zero_hash 0 (own row.id actions) row.ledger_head row.ledger_sequence
            c.action h next.1 next.2))

  is_version_self : is_version row row ≡ true
  is_version_self = ground (arith, same_refl row.id)

  next-Chained :
      (q : Run)
      → Chained actions q × (same q.id row.id ≡ true → q ≡ row)
      → (is_version row q ≡ true → Chained (actions ++ c.action ∷ []) (advanced c now q))
        × (is_version row q ≡ false → Chained (actions ++ c.action ∷ []) q)
  next-Chained q (h, only) = (
    λ hit.
        subst (λ x. Chained actions x → Chained (actions ++ c.action ∷ []) (advanced c now x))
          (sym (only (and-elim _ _ hit).0)) row-Chained h,
    λ miss. elim (Bool-cases (same c.action.run_id q.id)) [
      | inl mine ↦ absurd (
          let e : q ≡ row =
            only
              ((same_iff q.id row.id).1 (sym ((same_iff c.action.run_id q.id).0 mine) ∙ next.0)) in
          let v : is_version row q ≡ true =
            subst (λ x. is_version row x ≡ true) (sym e) is_version_self in
          ground arith)
      | inr other ↦ rw (own-append q.id actions c.action, other) h
    ],
  )

advanced-KeepsId : (c : Change) (now : ℕ) → KeepsId (advanced c now)
advanced-KeepsId c now r = refl

-- The ledgers after `change`.
module _ (zero_hash id : Text) (fence : Fence) (before : World) (r' : Run) (w : World)
    (h : IsLedgered zero_hash before.runs before.actions) (process : Process)
    (a : IsAdvanced IsNext process before id fence r' w) where
  stays :
      (x : Text)
      → any (has_id x) before.runs ≡ true
      → any (has_id x) (update_where (is_version a.row) (advanced a.made a.now) before.runs) ≡ true
  stays x e =
      any-update_where (is_version a.row) (advanced a.made a.now) x before.runs
        (advanced-KeepsId a.made a.now)
      ∙ e

  row_id : a.row.id ≡ id
  row_id = found_id id before.runs a.row a.found

  pub advance-IsLedgered : IsLedgered zero_hash w.runs w.actions
  advance-IsLedgered =
      rw (a.left, a.logged)
        (record {
          distinct =
              update_where-Distinct (is_version a.row) (advanced a.made a.now) before.runs
                (advanced-KeepsId a.made a.now) h.distinct;
          linked =
              All-append _ before.actions (a.made.action ∷ [])
                (All-map (λ (b : Action) e. stays b.run_id e) before.actions h.linked)
                (
                  stays a.made.action.run_id (
                      subst (λ x. any (has_id x) before.runs ≡ true) (sym (a.suits.0 ∙ row_id))
                        (found_any id before.runs a.row a.found)),
                  tt,
                );
          chained = All-update_where _ (is_version a.row) (advanced a.made a.now) before.runs (
              All-map (next-Chained zero_hash a.row a.made a.now before.actions a.suits) before.runs
                (All-both _ _ before.runs h.chained (
                  only_row a.row.id before.runs a.row h.distinct (
                    subst (λ x. find_first (has_id x) before.runs ≡ some a.row) (sym row_id)
                      a.found))));
        })
