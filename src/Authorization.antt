-- ===== src/Authorization.antt =====
-- _backend/apps/api/src/authorization.ts: the signed authorization of a transfer. The client's test
-- of an address, the hash of a payment and the check of a signature (viem) are parameters; a check
-- that throws has failed.
pub mod Accepted
mod Tests
use enclave_developer.Prelude.{
  ℕ, Bool, List, Result, ok, err, true, false, if◌then◌else◌, not, ltb, leb, all, length, drop, [],
  ◌∷◌, ◌++◌, ◌==◌, ◌||◌, ◌&&◌, suc, zero,
}
use enclave_developer.Prelude.Text.{Text, codes, is_digit, is_hex, hex_number, same, lower}
use enclave_developer.Prelude.Decimal.{number}

pub data AuthorizationFault : Type 0 where
  authorization_error : AuthorizationFault

abbrev pub max_uint256 : ℕ
max_uint256 =
    115_792_089_237_316_195_423_570_985_008_687_907_853_269_984_665_640_564_039_457_584_007_913_129_639_935

abbrev pub max_canonical_s : ℕ
max_canonical_s =
    57_896_044_618_658_097_711_785_492_504_343_953_926_418_782_139_537_452_191_302_581_570_759_080_747_168

pub record Config : Type 0 where
  pub usdc_name : Text
  pub usdc_version : Text
  pub chain_id : ℕ
  pub usdc_address : Text
  pub usage_meter : Text

pub record PaymentAuthorization : Type 0 where
  pub from : Text
  pub valid_after : Text
  pub valid_before : Text
  pub signature : Text

pub record Message : Type 0 where
  pub from : Text
  pub to : Text
  pub value : ℕ
  pub valid_after : ℕ
  pub valid_before : ℕ
  pub nonce : Text

pub record Client : Type 0 where
  pub is_address : Text → Bool
  pub nonce_of : Text → Text
  pub verify_typed_data : Config → Message → Text → Text → Bool

abbrev pub zero_address : Text
zero_address = codes "0x0000000000000000000000000000000000000000"

-- `/^\d{1,78}$/`
abbrev pub is_short_decimal : Text → Bool
is_short_decimal s = not (length s == 0) && leb (length s) 78 && all is_digit s

unfoldable pub uint256 : Text → Result AuthorizationFault ℕ
uint256 value =
    if not (is_short_decimal value)
    then err authorization_error
    else if ltb max_uint256 (number value)
    then err authorization_error
    else ok (number value)

abbrev pub is_empty : Text → Bool
is_empty [] = true
is_empty (c ∷ s) = false

abbrev take : ℕ → Text → Text
take zero s = []
take (suc n) [] = []
take (suc n) (c ∷ s) = c ∷ take n s

-- The characters from `first` on, at most `n` of them.
abbrev pub slice : ℕ → ℕ → Text → Text
slice first n s = take n (drop first s)

abbrev pub s_of : Text → ℕ
s_of signature = hex_number (codes "0x" ++ slice 66 64 signature)

abbrev pub v_of : Text → ℕ
v_of signature = hex_number (codes "0x" ++ drop 130 signature)

module _ (client : Client) (config : Config) where
  abbrev pub message_of : Text → ℕ → Text → ℕ → ℕ → Message
  message_of payment_id amount from after before = record {
    from = from;
    to = config.usage_meter;
    value = amount;
    valid_after = after;
    valid_before = before;
    nonce = client.nonce_of payment_id;
  }

  with_period :
      Text
      → ℕ
      → Text
      → Result AuthorizationFault ℕ
      → Result AuthorizationFault ℕ
      → Result AuthorizationFault Message
  with_period payment_id amount from (err e) before = err e
  with_period payment_id amount from (ok after) (err e) = err e
  with_period payment_id amount from (ok after) (ok before) =
      if is_empty payment_id
        || amount == 0
        || ltb max_uint256 amount
        || not (client.is_address from)
        || same (lower from) zero_address
        || leb before after
      then err authorization_error
      else ok (message_of payment_id amount from after before)

  -- An amount that is not positive is 0 here; both are refused.
  unfoldable pub authorization_data :
      Text → ℕ → Text → Text → Text → Result AuthorizationFault Message
  unfolding with_period
  authorization_data payment_id amount from valid_after valid_before =
      with_period payment_id amount from (uint256 valid_after) (uint256 valid_before)

  check_message :
      ℕ
      → PaymentAuthorization
      → Result AuthorizationFault Message
      → Result AuthorizationFault (Unit {0})
  check_message now auth (err e) = err e
  check_message now auth (ok m) =
      if leb now m.valid_after || leb m.valid_before now
      then err authorization_error
      else if not (is_hex 130 auth.signature)
      then err authorization_error
      else if ltb max_canonical_s (s_of auth.signature)
          || not (v_of auth.signature == 27 || v_of auth.signature == 28)
      then err authorization_error
      else if not (client.verify_typed_data config m auth.from auth.signature)
      then err authorization_error
      else ok tt

  -- `now` is in seconds.
  unfoldable pub validate_authorization :
      ℕ → Text → ℕ → PaymentAuthorization → Result AuthorizationFault (Unit {0})
  unfolding check_message
  validate_authorization now payment_id amount auth =
      check_message now auth
        (authorization_data payment_id amount auth.from auth.valid_after auth.valid_before)
