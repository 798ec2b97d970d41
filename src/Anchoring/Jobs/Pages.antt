-- ===== src/Anchoring/Jobs/Pages.antt =====
-- The pages of `recoverReceiptJobs` in _backend/apps/worker/src/jobs.ts: the loop ends, and passes
-- over every open receipt once.
use enclave_developer.Anchoring.Recovery.{first_of, last_id, is_after}
use enclave_developer.Prelude.{
  ℕ, List, Option, All, keep_if, ◌<◌, ◌∷◌, [], length, none, some, suc, ◌≡◌, arith, drop, refl,
  Bool, Bool-cases, ◌≤◌, inl, true, inr, zero, ◌∙◌, sym, and-elim, if◌then◌else◌, false,
}
use enclave_developer.Anchoring.{ReceiptRow}
use enclave_developer.Anchoring.Jobs.{is_due}
use mathlib.Core.Path.{subst}

-- The rows stand in the order of their ids, each id once.
abbrev pub Ascending : List ReceiptRow → Type 0
Ascending [] = Unit
Ascending (r ∷ rows) = All (λ (q : ReceiptRow). r.id < q.id) rows × Ascending rows

abbrev pub open_rows : List ReceiptRow → List ReceiptRow
open_rows rows = keep_if (is_due none) rows

-- Every row behind one that is due is due as well, if it is open.
all_due :
    (after_id : Option ℕ) (z : ℕ) (rows : List ReceiptRow)
    → is_after after_id z ≡ true
    → All (λ (q : ReceiptRow). z < q.id) rows
    → keep_if (is_due after_id) rows ≡ open_rows rows
all_due after_id z [] e h = refl
all_due none z (r ∷ rows) e (p, h) = refl
all_due (some a) z (r ∷ rows) e (p, h) = ground (arith, all_due (some a) z rows e h)

keep-All :
    (p : ReceiptRow → Bool) (P : ReceiptRow → Type 0) (rows : List ReceiptRow)
    → All P rows
    → All P (keep_if p rows)
keep-All p P [] h = tt
keep-All p P (r ∷ rows) (x, h) = elim (Bool-cases (p r)) [
  | inl hit ↦ rw hit (x, keep-All p P rows h)
  | inr miss ↦ rw miss (keep-All p P rows h)
]

-- A page that is not empty has a last row, behind whatever all rows are behind.
last_of_page :
    (n b : ℕ) (rows : List ReceiptRow)
    → n < length rows
    → All (λ (q : ReceiptRow). b < q.id) rows
    → (z : ℕ) × (last_id (first_of (suc n) rows) ≡ some z) × (b < z)
last_of_page n b [] h a = absurd (omega arith)
last_of_page zero b (r ∷ rows) h (p, a) = (r.id, refl, p)
last_of_page (suc n) b (r ∷ []) h (p, a) = absurd (omega arith)
last_of_page (suc n) b (r ∷ q ∷ rows) h (p, a) = last_of_page n b (q ∷ rows) (omega arith) a

-- A row at or before the id is not due behind it.
passed :
    (z : ℕ) (r : ReceiptRow) (rows : List ReceiptRow)
    → r.id ≤ z
    → keep_if (is_due (some z)) (r ∷ rows) ≡ keep_if (is_due (some z)) rows
passed z r rows h = ground arith

behind :
    (z : ℕ) (rows : List ReceiptRow)
    → All (λ (q : ReceiptRow). z < q.id) rows
    → keep_if (is_due (some z)) rows ≡ open_rows rows
behind z [] h = refl
behind z (r ∷ rows) (p, h) = ground (arith, behind z rows h)

last_id-cons :
    (r : ReceiptRow) (rows : List ReceiptRow) (z : ℕ)
    → last_id rows ≡ some z
    → last_id (r ∷ rows) ≡ some z
last_id-cons r [] z e = cc
last_id-cons r (q ∷ rows) z e = e

-- What is due behind the last row of a page is what is left of the due rows.
abbrev Next : ℕ → Option ℕ → List ReceiptRow → List ReceiptRow → Type 0
Next n after_id rows due =
    (z : ℕ) × (last_id (first_of (suc n) due) ≡ some z)
    × (keep_if (is_due (some z)) rows ≡ drop (suc n) due)

module _ (after_id : Option ℕ) (r : ReceiptRow) (rows : List ReceiptRow)
    (p : All (λ (q : ReceiptRow). r.id < q.id) rows)
    (later : (n : ℕ)
      → n < length (keep_if (is_due after_id) rows)
      → Next n after_id rows (keep_if (is_due after_id) rows)) where
  next_early :
      (n : ℕ)
      → n < length (keep_if (is_due after_id) rows)
      → Next n after_id (r ∷ rows) (keep_if (is_due after_id) rows)
  next_early n h =
      let (z, e, b) =
        last_of_page n r.id (keep_if (is_due after_id) rows) h
          (keep-All (is_due after_id) _ rows p) in
      let (z', e', k) = later n h in
      let same_z : z' ≡ z = cc in
      (
        z,
        e,
        passed z r rows (omega arith)
            ∙ subst
                (λ x.
                  keep_if (is_due (some x)) rows ≡ drop (suc n) (keep_if (is_due after_id) rows))
                same_z k,
      )

  next_due :
      is_due after_id r ≡ true
      → (n : ℕ) → n < length (r ∷ keep_if (is_due after_id) rows)
      → Next n after_id (r ∷ rows) (r ∷ keep_if (is_due after_id) rows)
  next_due due zero h = (
    r.id,
    refl,
    passed r.id r rows (omega arith)
        ∙ behind r.id rows p
        ∙ sym (all_due after_id r.id rows (and-elim _ _ due).1 p),
  )
  next_due due (suc n) h =
      let (z, e, k) = next_early n (omega arith) in
      (z, last_id-cons r (first_of (suc n) (keep_if (is_due after_id) rows)) z e, k)

-- Whether the first of the rows is due.
next_row :
    (after_id : Option ℕ) (r : ReceiptRow) (rows : List ReceiptRow)
    → All (λ (q : ReceiptRow). r.id < q.id) rows
    → ((n : ℕ)
        → n < length (keep_if (is_due after_id) rows)
        → Next n after_id rows (keep_if (is_due after_id) rows))
    → (n : ℕ) (due : Bool) → is_due after_id r ≡ due
    → n
      < length (if due then r ∷ keep_if (is_due after_id) rows else keep_if (is_due after_id) rows)
    → Next n after_id
        (r ∷ rows)
        (if due then r ∷ keep_if (is_due after_id) rows else keep_if (is_due after_id) rows)
next_row after_id r rows p later n true e h = next_due after_id r rows p later e n h
next_row after_id r rows p later n false e h = next_early after_id r rows p later n h

pub next_page :
    (after_id : Option ℕ) (rows : List ReceiptRow)
    → Ascending rows
    → (n : ℕ) → n < length (keep_if (is_due after_id) rows)
    → Next n after_id rows (keep_if (is_due after_id) rows)
next_page after_id [] a n h = absurd (omega arith)
next_page after_id (r ∷ rows) (p, a) n h =
    next_row after_id r rows p (next_page after_id rows a) n (is_due after_id r) refl h
