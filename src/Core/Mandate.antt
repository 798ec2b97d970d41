-- ===== src/Core/Mandate.antt =====
-- _backend/packages/core/src/mandate.ts. An amount is `none` if it is negative.
use enclave_developer.Prelude.{
  ℕ, ◌+◌, ◌≤◌, ◌≡◌, List, [], ◌∷◌, Option, none, some, ltb, if◌then◌else◌, Bool-cases, false, inl,
  inr, arith, sym,
}
use enclave_developer.Prelude.Text.{Text, same, same_refl, same_iff}
use mathlib.Core.Path.{subst}

pub record MandateSnapshot : Type 0 where
  pub daily_limit : Option ℕ
  pub spent_today : Option ℕ
  pub day_key : Text

-- From the amounts that are not negative on; `none` is the breach that is thrown.
abbrev reserve_units : Text → Text → ℕ → ℕ → ℕ → Option MandateSnapshot
reserve_units day_key day limit spent_today amount =
    let spent = if same day_key day then spent_today else 0 in
    if ltb limit (spent + amount)
    then none
    else some
        (record { daily_limit = some limit; spent_today = some (spent + amount); day_key = day })

abbrev reserve_options : Text → Text → Option ℕ → Option ℕ → Option ℕ → Option MandateSnapshot
reserve_options day_key day (some limit) (some spent) (some amount) =
    reserve_units day_key day limit spent amount
reserve_options day_key day limit spent amount = none

unfoldable pub reserve_mandate : MandateSnapshot → Text → Option ℕ → Option MandateSnapshot
reserve_mandate row day amount =
    reserve_options row.day_key day row.daily_limit row.spent_today amount

-- A day's requests, one after the other: the mandate that is left, and the sum of what was granted.
unfoldable pub reserve_each : MandateSnapshot → Text → List ℕ → MandateSnapshot × ℕ
reserve_each row day [] = (row, 0)
reserve_each row day (amount ∷ amounts) = elim (reserve_mandate row day (some amount)) [
  | none ↦ reserve_each row day amounts
  | some next ↦ (let rest = reserve_each next day amounts in (rest.0, amount + rest.1))
]

abbrev pub mandate : ℕ → ℕ → Text → MandateSnapshot
mandate limit spent day = record {
  daily_limit = some limit;
  spent_today = some spent;
  day_key = day;
}

each_bound :
    (limit spent : ℕ) (day : Text) (amounts : List ℕ)
    → spent ≤ limit
    → spent + (reserve_each (mandate limit spent day) day amounts).1 ≤ limit
unfolding reserve_each reserve_mandate
each_bound limit spent day [] h = ground arith
each_bound limit spent day (amount ∷ amounts) h = elim (Bool-cases (ltb limit (spent + amount))) [
  | inl over ↦ ground (arith, same_refl day, over, each_bound limit spent day amounts h)
  | inr under ↦
      ground
        (arith, same_refl day, under, each_bound limit (spent + amount) day amounts (ground arith))
]

first_bound :
    (key : Text) (limit spent : ℕ) (day : Text) (amounts : List ℕ)
    → same key day ≡ false
    → (reserve_each (mandate limit spent key) day amounts).1 ≤ limit
unfolding reserve_each reserve_mandate
first_bound key limit spent day [] e = omega arith
first_bound key limit spent day (amount ∷ amounts) e = elim (Bool-cases (ltb limit (0 + amount))) [
  | inl over ↦ ground (arith, e, over, first_bound key limit spent day amounts e)
  | inr under ↦ ground (arith, e, under, each_bound limit (0 + amount) day amounts (ground arith))
]

-- What `reserveMandate` grants on one day, request after request, sums to at most the daily limit,
-- if what had been spent before was within it.
pub reserve_each_bound :
    (limit spent : ℕ) (key day : Text) (amounts : List ℕ)
    → spent ≤ limit
    → (reserve_each (mandate limit spent key) day amounts).1 ≤ limit
reserve_each_bound limit spent key day amounts h = elim (Bool-cases (same key day)) [
  | inl today ↦
      subst (λ k. (reserve_each (mandate limit spent k) day amounts).1 ≤ limit)
        (sym ((same_iff key day).0 today)) (omega (arith, each_bound limit spent day amounts h))
  | inr other ↦ first_bound key limit spent day amounts other
]
