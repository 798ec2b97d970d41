-- ===== src/Signer/Durable/Records.antt =====
-- Rows of the journal by their signed part: membership, and the nonces of one signer in signer.ts.
use mathlib.Core.Path.{subst}
use enclave_developer.Prelude.{
  ℕ, ◌<◌, ◌≡◌, refl, sym, ◌∙◌, ap, inl, inr, List, [], ◌∷◌, some, Bool, true, ◌&&◌, arith, All,
  Some, All-map, All-Some, keep_if, find_first, last?, Bool-cases, Option-cases,
}
use enclave_developer.Prelude.Text.{Text, same}
use enclave_developer.Prelude.Sort.{last-sort, last-sort-none}
use enclave_developer.Signer.World.{JournalRow}
use enclave_developer.Signer.Journal.{rows_of}
use enclave_developer.Signer.Journal.Steady.{signed}
use enclave_developer.Signer.Journal.Rows.{SameSigned}
use enclave_developer.Signer.Durable.{ends_before}

pub All-SameSigned :
    (Q : JournalRow → Type 0)
    → ((r r' : JournalRow) → signed r ≡ signed r' → Q r' → Q r)
    → (xs ys : List JournalRow) → SameSigned xs ys
    → All Q ys
    → All Q xs
All-SameSigned Q inv [] ys e h = tt
All-SameSigned Q inv (x ∷ xs) [] e h = cc
All-SameSigned Q inv (x ∷ xs) (y ∷ ys) e (q, h) =
    (inv x y (cc e) q, All-SameSigned Q inv xs ys (cc e) h)

-- The list has a row that is signed as this one.
abbrev pub In : List JournalRow → JournalRow → Type 0
In rows r = Some (λ x. signed x ≡ signed r) rows

pub In-self : (rows : List JournalRow) → All (In rows) rows
In-self rows = All-map (λ r h. h r refl) rows (All-Some (λ i r. signed r ≡ signed i) rows)

pub Some-map :
    {P Q : JournalRow → Type 0}
    → ((r : JournalRow) → P r → Q r)
    → (rows : List JournalRow) → Some P rows
    → Some Q rows
Some-map f [] h = absurd h
Some-map f (r ∷ rows) (inl p) = inl (f r p)
Some-map f (r ∷ rows) (inr h) = inr (Some-map f rows h)

pub In-signed :
    (rows : List JournalRow) (r r' : JournalRow) → signed r ≡ signed r' → In rows r' → In rows r
In-signed rows r r' e h = Some-map (λ x k. k ∙ sym e) rows h

pub find-All :
    (Q : JournalRow → Type 0) (p : JournalRow → Bool) (rows : List JournalRow) {r : JournalRow}
    → All Q rows
    → find_first p rows ≡ some r
    → Q r
find-All Q p [] h e = cc
find-All Q p (x ∷ rows) (q, h) e = elim (Bool-cases (p x)) [
  | inl hit ↦ subst Q (let k : x ≡ _ = ground arith in k) q
  | inr miss ↦ find-All Q p rows h (ground arith)
]

last-SameSigned :
    (xs ys : List JournalRow) {m : JournalRow}
    → SameSigned xs ys
    → last? ys ≡ some m
    → (n : JournalRow) × (last? xs ≡ some n) × (signed n ≡ signed m)
last-SameSigned [] [] e h = cc
last-SameSigned [] (y ∷ ys) e h = cc
last-SameSigned (x ∷ xs) [] e h = cc
last-SameSigned (x ∷ []) (y ∷ []) e h = (x, refl, cc)
last-SameSigned (x ∷ []) (y ∷ z ∷ ys) e h = cc
last-SameSigned (x ∷ z ∷ xs) (y ∷ []) e h = cc
last-SameSigned (x ∷ w ∷ xs) (y ∷ z ∷ ys) e h = last-SameSigned (w ∷ xs) (z ∷ ys) (cc e) h

unkeep-All :
    (Q : JournalRow → Type 0) (p : JournalRow → Bool) (rows : List JournalRow)
    → All Q (keep_if p rows)
    → All (λ r. p r ≡ true → Q r) rows
unkeep-All Q p [] h = tt
unkeep-All Q p (x ∷ rows) h = elim (Bool-cases (p x)) [
  | inl hit ↦ let (q, k) = rw hit at h in (λ e. q, unkeep-All Q p rows k)
  | inr miss ↦ (λ e. cc, unkeep-All Q p rows (rw miss at h))
]

-- A row of this signer in this scope has a lower nonce.
abbrev pub Lower : Text → Text → ℕ → JournalRow → Type 0
Lower scope signer n r = (same r.scope scope && same r.signer signer) ≡ true → r.nonce < n

pub ends_before-Lower :
    (scope signer : Text) (journal rows : List JournalRow) (n : ℕ)
    → SameSigned rows (rows_of scope signer journal)
    → ends_before (last? rows) n ≡ true
    → All (Lower scope signer n) journal
unfolding rows_of
ends_before-Lower scope signer journal rows n e h =
    let own : JournalRow → Bool = λ r. same r.scope scope && same r.signer signer in
    unkeep-All (λ r. r.nonce < n) own journal
      (elim (Option-cases (last? (rows_of scope signer journal))) [
        | inl empty ↦ rw (last-sort-none (λ r. r.nonce) (keep_if own journal) empty) tt
        | inr (m, top) ↦
            let (k, last, same_row) = last-SameSigned rows (rows_of scope signer journal) e top in
            All-map (λ r le. ground (arith, ap (λ x. x.nonce) same_row)) (keep_if own journal)
              (last-sort (λ r. r.nonce) (keep_if own journal) top)
      ])
