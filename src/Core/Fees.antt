-- ===== src/Core/Fees.antt =====
-- _backend/packages/core/src/fees.ts. An amount is `none` if it is negative.
use enclave_developer.Prelude.{ℕ, ◌+◌, ◌-◌, ◌*◌, ◌/◌, ◌≤◌, ◌≡◌, Option, none, some, arith}

abbrev pub treasury_percent : ℕ
treasury_percent = 80

abbrev pub stakers_percent : ℕ
stakers_percent = 10

abbrev pub providers_percent : ℕ
providers_percent = 5

abbrev pub ecosystem_percent : ℕ
ecosystem_percent = 5

pub record FeeSplit : Type 0 where
  pub treasury : ℕ
  pub stakers : ℕ
  pub providers : ℕ
  pub ecosystem : ℕ

-- The shares of an amount that is not negative; a bigint division rounds down.
abbrev pub shares : ℕ → FeeSplit
shares amount = record {
  treasury = amount * treasury_percent / 100;
  stakers = amount * stakers_percent / 100;
  providers = amount * providers_percent / 100;
  ecosystem =
      amount
      - amount * treasury_percent / 100
      - amount * stakers_percent / 100
      - amount * providers_percent / 100;
}

unfoldable pub split_fee : Option ℕ → Option FeeSplit
split_fee none = none
split_fee (some amount) = some (shares amount)

-- The four shares of `splitFee` sum to the amount, if that is not negative, and the ecosystem gets
-- its percentage with less than three units on top.
pub split_fee_sums :
    (amount : ℕ)
    → (s : FeeSplit) × (split_fee (some amount) ≡ some s)
      × (s.treasury + s.stakers + s.providers + s.ecosystem ≡ amount)
      × (amount * ecosystem_percent ≤ s.ecosystem * 100)
      × (s.ecosystem * 100 ≤ amount * ecosystem_percent + 297)
unfolding split_fee
split_fee_sums amount =
    (shares amount, (λ i. some (shares amount)), omega arith, omega arith, omega arith)
