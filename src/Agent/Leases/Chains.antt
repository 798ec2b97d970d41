-- ===== src/Agent/Leases/Chains.antt =====
-- The calls of the store in _backend/apps/api/src/agent-runtime-store.ts, and the ledgers after
-- them.
use enclave_developer.Prelude.{
  List, Bool, any, ◌≡◌, false, update_where, ◌++◌, All, ◌∷◌, All-map, [], true, All-append, arith,
  ◌||◌, Bool-cases, ◌∙◌, inl, refl, sym, inr,
}
use enclave_developer.Prelude.Text.{Text, same, same_iff}
use enclave_developer.Agent.Run.{Run, Action}
use enclave_developer.Agent.Store.{World, has_id}
use enclave_developer.Agent.Leases.Ledger.{
  IsLedgered, Distinct, update_where-Distinct, Links, any-update_where, own, own-append,
  All-update_where,
}
use mathlib.Core.Path.{subst}

abbrev pub Ledgered : Text → World → Type 0
Ledgered zero_hash w = IsLedgered zero_hash w.runs w.actions

-- An update that leaves the ledger of a row alone.
pub record KeepsLedger (f : Run → Run) : Type 0 where
  pub same_id : (r : Run) → (f r).id ≡ r.id
  pub same_head : (r : Run) → (f r).ledger_head ≡ r.ledger_head
  pub same_sequence : (r : Run) → (f r).ledger_sequence ≡ r.ledger_sequence

pub update-IsLedgered :
    (zero_hash : Text) (p : Run → Bool) (f : Run → Run) (rows : List Run) (actions : List Action)
    → KeepsLedger f
    → IsLedgered zero_hash rows actions
    → IsLedgered zero_hash (update_where p f rows) actions
update-IsLedgered zero_hash p f rows actions k h = record {
  distinct = update_where-Distinct p f rows k.same_id h.distinct;
  linked =
      All-map (λ (a : Action) e. any-update_where p f a.run_id rows k.same_id ∙ e) actions h.linked;
  chained = All-update_where _ p f rows (
      All-map
        (λ (r : Run) l. (λ hit. rw (k.same_id r, k.same_head r, k.same_sequence r) l, λ miss. l))
        rows h.chained);
}

any-append :
    (id : Text) (rows : List Run) (r : Run)
    → any (has_id id) (rows ++ r ∷ []) ≡ any (has_id id) rows || same r.id id
any-append id [] r = ground arith
any-append id (q ∷ rows) r = ground (arith, any-append id rows r)

append-Distinct :
    (rows : List Run) (r : Run)
    → any (has_id r.id) rows ≡ false
    → Distinct rows
    → Distinct (rows ++ r ∷ [])
append-Distinct [] r e d = (refl, tt)
append-Distinct (q ∷ rows) r e (u, d) = (
  rw (any-append q.id rows r) (ground (arith, same_iff q.id r.id, same_iff r.id q.id)),
  append-Distinct rows r (ground arith) d,
)

-- A run that no row stands for has no actions.
own_none :
    (id : Text) (rows : List Run) (actions : List Action)
    → any (has_id id) rows ≡ false
    → All (λ (a : Action). any (has_id a.run_id) rows ≡ true) actions
    → own id actions ≡ []
own_none id rows [] e l = refl
own_none id rows (a ∷ actions) e (p, l) = elim (Bool-cases (same a.run_id id)) [
  | inl mine ↦ absurd (
      let q : any (has_id id) rows ≡ true =
        subst (λ x. any (has_id x) rows ≡ true) ((same_iff a.run_id id).0 mine) p in
      ground arith)
  | inr other ↦ rw other (own_none id rows actions e l)
]

others_apart :
    (zero_hash id : Text) (rows : List Run) (actions : List Action) (a : Action)
    → any (has_id id) rows ≡ false
    → a.run_id ≡ id
    → All (λ (r : Run). Links zero_hash 0 (own r.id actions) r.ledger_head r.ledger_sequence) rows
    → All
        (λ (r : Run).
          Links zero_hash 0 (own r.id (actions ++ a ∷ [])) r.ledger_head r.ledger_sequence)
        rows
others_apart zero_hash id [] actions a e i h = tt
others_apart zero_hash id (r ∷ rows) actions a e i (p, h) = (
  rw (own-append r.id actions a, i)
      (rw
        (let apart : same id r.id ≡ false = ground (arith, same_iff r.id id, same_iff id r.id) in
          apart)
        p),
  others_apart zero_hash id rows actions a (ground arith) i h,
)

-- The first action of a run.
pub record IsFirst (zero_hash : Text) (r : Run) (a : Action) : Type 0 where
  pub of_run : a.run_id ≡ r.id
  pub first : a.sequence ≡ 1
  pub from_zero : a.previous_hash ≡ zero_hash
  pub head : r.ledger_head ≡ a.action_hash
  pub counted : r.ledger_sequence ≡ 1

pub add-IsLedgered :
    (zero_hash : Text) (rows : List Run) (actions : List Action) (r : Run) (a : Action)
    → IsFirst zero_hash r a
    → any (has_id r.id) rows ≡ false
    → IsLedgered zero_hash rows actions
    → IsLedgered zero_hash (rows ++ r ∷ []) (actions ++ a ∷ [])
add-IsLedgered zero_hash rows actions r a f e h = record {
  distinct = append-Distinct rows r e h.distinct;
  linked =
      All-append _ actions (a ∷ [])
        (All-map (λ (b : Action) p. rw (any-append b.run_id rows r) (ground arith)) actions
          h.linked)
        (rw (any-append a.run_id rows r) (ground (arith, same_iff r.id a.run_id, f.of_run)), tt);
  chained =
      All-append _ rows (r ∷ []) (others_apart zero_hash r.id rows actions a e f.of_run h.chained) (
        rw
            (
              own-append r.id actions a,
              (same_iff a.run_id r.id).1 f.of_run,
              own_none r.id rows actions e h.linked,
            )
            (f.first, f.from_zero, (sym f.head, sym f.counted)),
        tt,
      );
}
