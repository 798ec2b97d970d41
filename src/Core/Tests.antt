-- ===== src/Core/Tests.antt =====
-- Runs of fees.ts and mandate.ts, and the theorems at them.
use enclave_developer.Prelude.{◌+◌, ◌*◌, ◌≤◌, ◌≡◌, refl, [], ◌∷◌, some, arith}
use enclave_developer.Prelude.Text.{codes, same}
use enclave_developer.Core.Fees.{FeeSplit, split_fee, ecosystem_percent, split_fee_sums}
use enclave_developer.Core.Mandate.{mandate, reserve_each, reserve_mandate, reserve_each_bound}

split_fee_sums_example :
    (s : FeeSplit) × (split_fee (some 103) ≡ some s)
    × (s.treasury + s.stakers + s.providers + s.ecosystem ≡ 103)
    × (103 * ecosystem_percent ≤ s.ecosystem * 100)
    × (s.ecosystem * 100 ≤ 103 * ecosystem_percent + 297)
split_fee_sums_example = split_fee_sums 103

reserve_run : (reserve_each (mandate 100 90 (codes "mon")) (codes "tue") (60 ∷ 50 ∷ 30 ∷ [])).1 ≡ 90
unfolding reserve_each reserve_mandate same
reserve_run = refl

reserve_each_bound_example :
    (reserve_each (mandate 100 90 (codes "mon")) (codes "tue") (60 ∷ 50 ∷ 30 ∷ [])).1 ≤ 100
reserve_each_bound_example =
    reserve_each_bound 100 90 (codes "mon") (codes "tue") (60 ∷ 50 ∷ 30 ∷ []) (omega arith)
