-- ===== src/Signer/Gas.antt =====
-- _backend/packages/db/src/arc-gas-policy.ts
use enclave_developer.Prelude.{
  ℕ, ◌*◌, ◌≤◌, ◌<◌, ◌≡◌, ◌↔◌, Option, none, some, Bool, true, ◌||◌, not, ltb, ◌==◌, arith, refl,
  if◌then◌else◌, Result, ok, err,
}

pub data GasFault : Type 0 where
  arc_relay_gas_limit : GasFault

abbrev pub arc_chain_id : ℕ
arc_chain_id = 5042

abbrev pub min_fee_per_gas : ℕ
min_fee_per_gas = 20_000_000_000

abbrev pub max_fee_per_gas : ℕ
max_fee_per_gas = 100_000_000_000

abbrev pub max_gas : ℕ
max_gas = 1_000_000

abbrev pub max_transaction_cost : ℕ
max_transaction_cost = 100_000_000_000_000_000

-- The fee fields of a prepared transaction; the client prepares no negative amount.
pub record Prepared : Type 0 where
  pub gas : Option ℕ
  pub gas_price : Option ℕ
  pub max_fee : Option ℕ
  pub max_priority : Option ℕ
  pub value : Option ℕ

abbrev pub or_else : Option ℕ → Option ℕ → Option ℕ
or_else (some a) b = some a
or_else none b = b

abbrev pub or_zero : Option ℕ → ℕ
or_zero none = 0
or_zero (some a) = a

-- The test of the `if`, on the gas and the fee.
abbrev exceeds : Option ℕ → Option ℕ → ℕ → ℕ → Bool
exceeds (some gas) (some fee) priority value =
    gas == 0
    || ltb max_gas gas
    || ltb fee min_fee_per_gas
    || ltb max_fee_per_gas fee
    || ltb fee priority
    || ltb max_transaction_cost (gas * fee)
    || not (value == 0)
exceeds gas fee priority value = true

unfoldable pub enforce_arc_relay_gas : ℕ → Prepared → Result GasFault (Unit {0})
enforce_arc_relay_gas chain_id p =
    if not (chain_id == arc_chain_id)
    then ok tt
    else if exceeds p.gas (or_else p.max_fee p.gas_price) (or_zero p.max_priority) (or_zero p.value)
    then err arc_relay_gas_limit
    else ok tt

-- What the reviewed relay policy allows.
pub record IsAllowed (p : Prepared) (gas fee : ℕ) : Type 0 where
  pub has_gas : p.gas ≡ some gas
  pub has_fee : or_else p.max_fee p.gas_price ≡ some fee
  pub some_gas : 0 < gas
  pub gas_bound : gas ≤ max_gas
  pub fee_least : min_fee_per_gas ≤ fee
  pub fee_most : fee ≤ max_fee_per_gas
  pub tip : or_zero p.max_priority ≤ fee
  pub cost : gas * fee ≤ max_transaction_cost
  pub no_value : or_zero p.value ≡ 0

enforce_sound :
    (p : Prepared) (g f : Option ℕ)
    → p.gas ≡ g
    → or_else p.max_fee p.gas_price ≡ f
    → enforce_arc_relay_gas arc_chain_id p ≡ ok tt
    → (gas fee : ℕ) × IsAllowed p gas fee
unfolding enforce_arc_relay_gas
enforce_sound p none f hg hf e = absurd (ground arith)
enforce_sound p (some gas) none hg hf e = absurd (ground arith)
enforce_sound p (some gas) (some fee) hg hf e = (
  gas,
  fee,
  record {
    has_gas = hg;
    has_fee = hf;
    some_gas = ground arith;
    gas_bound = ground arith;
    fee_least = ground arith;
    fee_most = ground arith;
    tip = ground arith;
    cost = ground arith;
    no_value = ground arith;
  },
)

-- On the Arc chain a prepared transaction passes `enforceArcRelayGas` exactly if it has a gas
-- limit and a fee within the bounds of the policy, the two with a product within its cost, a tip
-- that is not above the fee, and no value.
pub enforce-IsAllowed :
    (p : Prepared)
    → (enforce_arc_relay_gas arc_chain_id p ≡ ok tt) ↔ ((gas fee : ℕ) × IsAllowed p gas fee)
unfolding enforce_arc_relay_gas
enforce-IsAllowed p = (
  enforce_sound p p.gas (or_else p.max_fee p.gas_price) refl refl,
  λ (gas, fee, a). ground (
    arith, a.has_gas, a.has_fee, a.some_gas, a.gas_bound, a.fee_least, a.fee_most, a.tip, a.cost,
    a.no_value,
  ),
)
