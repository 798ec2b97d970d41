-- ===== src/Authorization/Accepted.antt =====
-- The authorizations that _backend/apps/api/src/authorization.ts accepts.
use mathlib.Core.Path.{subst}
use enclave_developer.Authorization.{
  Client, Config, PaymentAuthorization, uint256, is_empty, max_uint256, zero_address, s_of,
  max_canonical_s, v_of, message_of, check_message, validate_authorization, authorization_data,
  with_period, AuthorizationFault, Message, authorization_error,
}
use enclave_developer.Prelude.Text.{Text, is_digit, same, lower, is_hex}
use enclave_developer.Prelude.{
  ℕ, all, ◌≡◌, false, true, ◌<◌, length, ◌≤◌, ◌⊎◌, ok, arith, Result, ◌↔◌, err, refl, Bool, leb,
  ltb, if◌then◌else◌, not, ◌||◌, ◌==◌,
}
use enclave_developer.Prelude.Decimal.{number}

pub record IsUint256 (s : Text) : Type 0 where
  pub digits : all is_digit s ≡ true
  pub some_digit : 0 < length s
  pub few_digits : length s ≤ 78
  pub bound : number s ≤ max_uint256

uint256-ok : (s : Text) (n : ℕ) → uint256 s ≡ ok n → IsUint256 s × (number s ≡ n)
unfolding uint256
uint256-ok s n e = (
  record {
    digits = ground arith;
    some_digit = ground arith;
    few_digits = ground arith;
    bound = ground arith;
  },
  ground arith,
)

uint256-IsUint256 : (s : Text) → IsUint256 s → uint256 s ≡ ok (number s)
unfolding uint256
uint256-IsUint256 s h = ground (arith, h.digits, h.some_digit, h.few_digits, h.bound)

-- The guards that throw, one after the other.
refused :
    {A : Type 0} {v : A} (b : Bool) (x : Result AuthorizationFault A)
    → (if b then err authorization_error else x) ≡ ok v
    → (b ≡ false) × (x ≡ ok v)
refused true x e = absurd (ground arith)
refused false x e = (refl, e)

within_iff : (now a b : ℕ) → ((leb now a || leb b now) ≡ false) ↔ ((a < now) × (now < b))
within_iff now a b = ground arith

canonical_iff :
    (most s v : ℕ)
    → ((ltb most s || not (v == 27 || v == 28)) ≡ false) ↔ ((s ≤ most) × ((v ≡ 27) ⊎ (v ≡ 28)))
canonical_iff most s v = ground arith

not_iff : (b : Bool) → (not b ≡ false) ↔ (b ≡ true)
not_iff b = ground arith

module _ (client : Client) (config : Config) (now : ℕ) (payment_id : Text) (amount : ℕ) where
  -- Open at the moment, for this payment, and signed by its payer in the canonical form.
  pub record IsAuthorized (auth : PaymentAuthorization) : Type 0 where
    pub after : IsUint256 auth.valid_after
    pub before : IsUint256 auth.valid_before
    pub named : is_empty payment_id ≡ false
    pub some_amount : 0 < amount
    pub amount_bound : amount ≤ max_uint256
    pub payer : client.is_address auth.from ≡ true
    pub payer_set : same (lower auth.from) zero_address ≡ false
    pub opened : number auth.valid_after < now
    pub still_open : now < number auth.valid_before
    pub form : is_hex 130 auth.signature ≡ true
    pub canonical : s_of auth.signature ≤ max_canonical_s
    pub parity : (v_of auth.signature ≡ 27) ⊎ (v_of auth.signature ≡ 28)
    pub signed :
        client.verify_typed_data config
          (message_of client config payment_id amount auth.from
            (number auth.valid_after)
            (number auth.valid_before))
          auth.from
          auth.signature
        ≡ true

  -- What is checked of the message and its signature.
  record IsSigned (auth : PaymentAuthorization) (m : Message) : Type 0 where
    after_opened : m.valid_after < now
    before_closed : now < m.valid_before
    well_formed : is_hex 130 auth.signature ≡ true
    low_s : s_of auth.signature ≤ max_canonical_s
    sign_of_y : (v_of auth.signature ≡ 27) ⊎ (v_of auth.signature ≡ 28)
    recovered : client.verify_typed_data config m auth.from auth.signature ≡ true

  check-IsSigned :
      (auth : PaymentAuthorization) (m : Message)
      → check_message client config now auth (ok m) ≡ ok tt
      → IsSigned auth m
  unfolding check_message
  check-IsSigned auth m e =
      let (t, e1) = refused (leb now m.valid_after || leb m.valid_before now) _ e in
      let (f, e2) = refused (not (is_hex 130 auth.signature)) _ e1 in
      let (c, e3) =
        refused
          (ltb max_canonical_s (s_of auth.signature)
            || not (v_of auth.signature == 27 || v_of auth.signature == 28))
          _ e2 in
      let (r, e4) =
        refused (not (client.verify_typed_data config m auth.from auth.signature)) _ e3 in
      let (a, b) = (within_iff now m.valid_after m.valid_before).0 t in
      let (l, y) =
        (canonical_iff max_canonical_s (s_of auth.signature) (v_of auth.signature)).0 c in
      record {
        after_opened = a;
        before_closed = b;
        well_formed = (not_iff _).0 f;
        low_s = l;
        sign_of_y = y;
        recovered = (not_iff _).0 r;
      }

  signed_check :
      (auth : PaymentAuthorization) (m : Message)
      → IsSigned auth m
      → check_message client config now auth (ok m) ≡ ok tt
  unfolding check_message
  signed_check auth m h =
      rw
        (
          (within_iff now m.valid_after m.valid_before).1 (h.after_opened, h.before_closed),
          (not_iff (is_hex 130 auth.signature)).1 h.well_formed,
          (canonical_iff max_canonical_s (s_of auth.signature) (v_of auth.signature)).1
              (h.low_s, h.sign_of_y),
          (not_iff (client.verify_typed_data config m auth.from auth.signature)).1 h.recovered,
        )
        refl

  -- What is checked of the period, the payment and the payer.
  record IsRequested (from : Text) (after before : ℕ) : Type 0 where
    has_name : is_empty payment_id ≡ false
    positive : 0 < amount
    bounded : amount ≤ max_uint256
    is_payer : client.is_address from ≡ true
    not_zero : same (lower from) zero_address ≡ false
    ordered : after < before

  period-IsRequested :
      (from : Text) (n m : ℕ) (msg : Message)
      → with_period client config payment_id amount from (ok n) (ok m) ≡ ok msg
      → IsRequested from n m × (msg ≡ message_of client config payment_id amount from n m)
  unfolding with_period
  period-IsRequested from n m msg e = (
    record {
      has_name = ground arith;
      positive = ground arith;
      bounded = ground arith;
      is_payer = ground arith;
      not_zero = ground arith;
      ordered = ground arith;
    },
    ground arith,
  )

  requested_period :
      (from : Text) (n m : ℕ)
      → IsRequested from n m
      → with_period client config payment_id amount from (ok n) (ok m)
        ≡ ok (message_of client config payment_id amount from n m)
  unfolding with_period
  requested_period from n m h =
      ground (arith, h.has_name, h.positive, h.bounded, h.is_payer, h.not_zero, h.ordered)

  period-ok :
      (from : Text) (a b : Result AuthorizationFault ℕ) (msg : Message)
      → with_period client config payment_id amount from a b ≡ ok msg
      → (n m : ℕ) × (a ≡ ok n) × (b ≡ ok m)
  unfolding with_period
  period-ok from (err x) b msg e = absurd (ground arith)
  period-ok from (ok n) (err x) msg e = absurd (ground arith)
  period-ok from (ok n) (ok m) msg e = (n, m, refl, refl)

  checked_ok :
      (auth : PaymentAuthorization) (r : Result AuthorizationFault Message)
      → check_message client config now auth r ≡ ok tt
      → (m : Message) × (r ≡ ok m)
  unfolding check_message
  checked_ok auth (err x) e = absurd (ground arith)
  checked_ok auth (ok m) e = (m, refl)

  authorized :
      (auth : PaymentAuthorization) (n m : ℕ)
      → IsUint256 auth.valid_after × (number auth.valid_after ≡ n)
      → IsUint256 auth.valid_before × (number auth.valid_before ≡ m)
      → IsRequested auth.from n m
      → IsSigned auth (message_of client config payment_id amount auth.from n m)
      → IsAuthorized auth
  authorized auth n m (ha, na) (hb, nb) q g = record {
    after = ha;
    before = hb;
    named = q.has_name;
    some_amount = q.positive;
    amount_bound = q.bounded;
    payer = q.is_payer;
    payer_set = q.not_zero;
    opened = rw na g.after_opened;
    still_open = rw nb g.before_closed;
    form = g.well_formed;
    canonical = g.low_s;
    parity = g.sign_of_y;
    signed = rw (na, nb) g.recovered;
  }

  sound :
      (auth : PaymentAuthorization)
      → validate_authorization client config now payment_id amount auth ≡ ok tt
      → IsAuthorized auth
  unfolding validate_authorization authorization_data
  sound auth e =
      let (msg, d) = checked_ok auth _ e in
      let (n, m, ea, eb) = period-ok auth.from _ _ msg d in
      let (q, em) = period-IsRequested auth.from n m msg (
        subst (λ x. with_period client config payment_id amount auth.from x (ok m) ≡ ok msg) ea
          (subst
            (λ y.
              with_period client config payment_id amount auth.from (uint256 auth.valid_after) y
              ≡ ok msg)
            eb d)) in
      let g =
        check-IsSigned auth msg (subst (λ x. check_message client config now auth x ≡ ok tt) d e) in
      authorized auth n m (uint256-ok _ n ea) (uint256-ok _ m eb) q (subst (IsSigned auth) em g)

  complete :
      (auth : PaymentAuthorization)
      → IsAuthorized auth
      → validate_authorization client config now payment_id amount auth ≡ ok tt
  unfolding validate_authorization authorization_data
  complete auth h =
      rw
        (
          uint256-IsUint256 auth.valid_after h.after,
          uint256-IsUint256 auth.valid_before h.before,
          requested_period auth.from (number auth.valid_after) (number auth.valid_before) (record {
            has_name = h.named;
            positive = h.some_amount;
            bounded = h.amount_bound;
            is_payer = h.payer;
            not_zero = h.payer_set;
            ordered = (let p = h.opened in let q = h.still_open in omega arith);
          }),
        )
        (signed_check auth _ (record {
          after_opened = h.opened;
          before_closed = h.still_open;
          well_formed = h.form;
          low_s = h.canonical;
          sign_of_y = h.parity;
          recovered = h.signed;
        }))

  -- `validateAuthorization` accepts an authorization exactly if both its times are decimal texts
  -- of at most 78 digits within 256 bits with the moment strictly between them, the payment has a
  -- name and an amount from 1 to 256 bits, the payer is an address other than zero, and the
  -- signature is 65 bytes with a low s and a v of 27 or 28 and is verified for the message of this
  -- payment.
  pub validate-IsAuthorized :
      (auth : PaymentAuthorization)
      → (validate_authorization client config now payment_id amount auth ≡ ok tt)
        ↔ IsAuthorized auth
  validate-IsAuthorized auth = (sound auth, complete auth)
