-- ===== src/Prelude/Sort.antt =====
-- A stable sort by a number, as `orderBy(asc(…))` makes it.
use Prim.Native.Nat.{ℕ, ◌≤◌}
use mathlib.Core.Path.{◌≡◌, refl}
use mathlib.Core.Logic.{◌≢◌, inl, inr}
use mathlib.Core.Option.{none, some}
use mathlib.Core.List.{List, [], ◌∷◌}
use native.Mathlib.Omega.{arith}
use enclave_developer.Prelude.Tests.{leb, if◌then◌else◌, Bool-cases}
use enclave_developer.Prelude.Lists.{last?, All}

module _ {A : Type 0} (key : A → ℕ) where
  insert_by : A → List A → List A
  insert_by a [] = a ∷ []
  insert_by a (b ∷ bs) = if leb (key a) (key b) then a ∷ b ∷ bs else b ∷ insert_by a bs

  unfoldable pub sort_by : List A → List A
  unfolding insert_by
  sort_by [] = []
  sort_by (a ∷ rest) = insert_by a (sort_by rest)

  abbrev IsSorted : List A → Type 0
  IsSorted [] = Unit {0}
  IsSorted (a ∷ as_rest) = All (λ b. key a ≤ key b) as_rest × IsSorted as_rest

  insert-All {κ} : (P : A → Type κ) (a : A) (bs : List A) → P a → All P bs → All P (insert_by a bs)
  unfolding insert_by
  insert-All P a [] p h = (p, tt)
  insert-All P a (b ∷ bs) p (q, h) = elim (Bool-cases (leb (key a) (key b))) [
    | inl first ↦ rw first (p, (q, h))
    | inr later ↦ rw later (q, insert-All P a bs p h)
  ]

  pub sort-All {κ} : (P : A → Type κ) (xs : List A) → All P xs → All P (sort_by xs)
  unfolding sort_by
  sort-All P [] h = tt
  sort-All P (x ∷ xs) (p, h) = insert-All P x (sort_by xs) p (sort-All P xs h)

  raise :
      (a b : A) (bs : List A)
      → key a ≤ key b
      → All (λ c. key b ≤ key c) bs
      → All (λ c. key a ≤ key c) bs
  raise a b [] h k = tt
  raise a b (c ∷ bs) h (q, k) = (omega arith, raise a b bs h k)

  insert-IsSorted : (a : A) (bs : List A) → IsSorted bs → IsSorted (insert_by a bs)
  unfolding insert_by
  insert-IsSorted a [] h = (tt, tt)
  insert-IsSorted a (b ∷ bs) (h, hs) = elim (Bool-cases (leb (key a) (key b))) [
    | inl first ↦
        let le : key a ≤ key b = ground arith in rw first ((le, raise a b bs le h), (h, hs))
    | inr later ↦
        rw later (insert-All (λ c. key b ≤ key c) a bs (ground arith) h, insert-IsSorted a bs hs)
  ]

  sort-IsSorted : (xs : List A) → IsSorted (sort_by xs)
  unfolding sort_by
  sort-IsSorted [] = tt
  sort-IsSorted (x ∷ xs) = insert-IsSorted x (sort_by xs) (sort-IsSorted xs)

  last-IsSorted :
      (xs : List A) {m : A} → IsSorted xs → last? xs ≡ some m → All (λ x. key x ≤ key m) xs
  last-IsSorted [] h e = tt
  last-IsSorted (x ∷ []) h e = (ground arith, tt)
  last-IsSorted (x ∷ y ∷ xs) {m} (h, hs) e =
      let later = last-IsSorted (y ∷ xs) hs e in (omega (arith, h.0, later.0), later)

  unsort-insert {κ} :
      (P : A → Type κ) (a : A) (bs : List A) → All P (insert_by a bs) → P a × All P bs
  unfolding insert_by
  unsort-insert P a [] h = h
  unsort-insert P a (b ∷ bs) h = elim (Bool-cases (leb (key a) (key b))) [
    | inl first ↦ let (p, k) = rw (first, insert_by) at h in (p, k)
    | inr later ↦
        let (q, k) = rw (later, insert_by) at h in
        let (p, k') = unsort-insert P a bs k in (p, (q, k'))
  ]

  unsort-All {κ} : (P : A → Type κ) (xs : List A) → All P (sort_by xs) → All P xs
  unfolding sort_by
  unsort-All P [] h = tt
  unsort-All P (x ∷ xs) h = let (p, k) = unsort-insert P x (sort_by xs) h in (p, unsort-All P xs k)

  -- The last of the sorted list is a greatest one of the list.
  pub last-sort : (xs : List A) {m : A} → last? (sort_by xs) ≡ some m → All (λ x. key x ≤ key m) xs
  last-sort xs {m} e =
      unsort-All (λ x. key x ≤ key m) xs (last-IsSorted (sort_by xs) (sort-IsSorted xs) e)

  insert-ne-nil : (a : A) (bs : List A) → insert_by a bs ≢ []
  unfolding insert_by
  insert-ne-nil a [] e = cc
  insert-ne-nil a (b ∷ bs) e = ground arith

  last-eq-none : (xs : List A) → last? xs ≡ none → xs ≡ []
  last-eq-none [] e = refl
  last-eq-none (x ∷ []) e = cc
  last-eq-none (x ∷ y ∷ xs) e = cc (last-eq-none (y ∷ xs) e)

  -- Only the empty list has no last entry once sorted.
  pub last-sort-none : (xs : List A) → last? (sort_by xs) ≡ none → xs ≡ []
  unfolding sort_by
  last-sort-none [] e = refl
  last-sort-none (x ∷ xs) e =
      absurd (insert-ne-nil x (sort_by xs) (last-eq-none (insert_by x (sort_by xs)) e))
