-- ===== src/Cvm/Attested.antt =====
-- What `create`, `withPolicy` and `releaseKeys` of _backend/packages/core/src/cvm.ts leave of the
-- quotes that were accepted.
use enclave_developer.Cvm.{
  Cvm, CvmConfig, Crypto, Keys, Blob, accepts, attestation_ref, create, release_keys, with_policy,
  Call, CvmFault, dev_cvm, with_config, GatewayMode, guard, create_with, keep_key, renew_with,
  is_empty,
}
use enclave_developer.Prelude.{
  Result, pure, ℕ, ◌>>◌, Bool, Option, throw, ◌>>=◌, ◌≡◌, ok, some, true, err, arith, false, refl,
  none, not, [], ◌∷◌,
}
use enclave_developer.Prelude.Text.{Text, same_hex}
use enclave_developer.Cvm.Near.{Bytes}
use enclave_developer.Tcb.Quote.{Vendor, AttestationQuote}
use enclave_developer.Prelude.Triples.{After}
use enclave_developer.Tcb.Policy.{TcbPolicy}
use mathlib.Core.Path.{subst}

ok_injective : {E A : Type 0} {a b : A} → ◌≡◌ {A = Result E A} (ok a) (ok b) → a ≡ b
ok_injective e = cc

module _ (crypto : Crypto) where
  -- No quote has been accepted.
  abbrev pub IsFresh : Cvm → Type 0
  IsFresh c = (c.verified_att_refs ≡ []) × (c.model_key ≡ none)

  -- A new enclave has verified nothing.
  config-IsFresh :
      (vendor : Vendor) (wrapping_key : Bytes) (weights : Blob) (private_key : Text)
      (config : CvmConfig) (mode : GatewayMode) (r : Result CvmFault CvmConfig) (c : Cvm)
      → with_config crypto vendor wrapping_key weights private_key config mode r ≡ ok c
      → IsFresh c
  unfolding with_config
  config-IsFresh vendor wrapping_key weights private_key config mode (err e) c h =
      absurd (ground arith)
  config-IsFresh vendor wrapping_key weights private_key config mode (ok settled) c h =
      subst IsFresh (ok_injective h) (refl, refl)

  dev_cvm-IsFresh :
      (vendor : Vendor) (wrapping_key : Bytes) (weights : Blob) (private_key : Text)
      (config : CvmConfig) (c : Cvm)
      → dev_cvm crypto vendor wrapping_key weights private_key config ≡ ok c
      → IsFresh c
  unfolding dev_cvm
  dev_cvm-IsFresh vendor wrapping_key weights private_key config c h =
      config-IsFresh vendor wrapping_key weights private_key config _ _ c h

  create_with-IsFresh :
      (vendor : Vendor) (keys : Keys) (iv : Bytes) (config : CvmConfig) (fault : Option CvmFault)
      (c : Cvm)
      → create_with crypto vendor keys iv config fault ≡ ok c
      → IsFresh c
  unfolding create_with
  create_with-IsFresh vendor keys iv config (some e) c h = absurd (ground arith)
  create_with-IsFresh vendor keys iv config none c h = dev_cvm-IsFresh vendor _ _ _ config c h

  renew_with-IsFresh :
      (c d : Cvm) (r : Result CvmFault TcbPolicy) → renew_with crypto c r ≡ ok d → IsFresh d
  unfolding renew_with
  renew_with-IsFresh c d (err e) h = absurd (ground arith)
  renew_with-IsFresh c d (ok policy) h =
      dev_cvm-IsFresh c.vendor c.wrapping_key c.encrypted_weights c.private_key
        (record (c.config) { policy = policy; binds_policy = true }) d h

  pub create-IsFresh :
      (config : CvmConfig) (vendor : Vendor) (persisted : Option Keys) (drawn : Keys) (iv : Bytes)
      (c : Cvm)
      → create crypto config vendor persisted drawn iv ≡ ok c
      → IsFresh c
  unfolding create
  create-IsFresh config vendor persisted drawn iv c h = create_with-IsFresh vendor _ iv config _ c h

  pub with_policy-IsFresh :
      (c d : Cvm) (policy : TcbPolicy) → with_policy crypto c policy ≡ ok d → IsFresh d
  unfolding with_policy
  with_policy-IsFresh c d policy h = renew_with-IsFresh c d _ h

  -- A call of `releaseKeys` accepted the quote at its moment, and noted its reference and the key.
  pub record Accepts (c : Cvm) (q : AttestationQuote) (now : Option ℕ) (d : Cvm) : Type 0 where
    pub accepted : accepts crypto c q now ≡ true
    pub key : Bytes
    pub after : d ≡ record c {
      model_key = some key;
      verified_att_refs = attestation_ref crypto q ∷ c.verified_att_refs;
    }

  -- How `releaseKeys` has ended.
  abbrev pub Ended : Cvm → AttestationQuote → Option ℕ → Result CvmFault (Unit {0}) × Cvm → Type 0
  Ended c q now r = After (λ u d. Accepts c q now d) (λ d. d ≡ c) r

  keep_key-Ended :
      (c : Cvm) (q : AttestationQuote) (now : Option ℕ) (key : Option Bytes)
      → accepts crypto c q now ≡ true
      → Ended c q now (keep_key crypto q key c)
  unfolding keep_key throw ◌>>=◌
  keep_key-Ended c q now none a = refl
  keep_key-Ended c q now (some key) a = record { accepted = a; key = key; after = refl }

  guards-Ended :
      (b : Bool) (e : CvmFault) (m : Call (Unit {0})) (c : Cvm) (q : AttestationQuote)
      (now : Option ℕ)
      → (b ≡ true → Ended c q now (m c))
      → Ended c q now ((guard b e >> m) c)
  unfolding ◌>>◌ throw pure
  guards-Ended true e m c q now k = k refl
  guards-Ended false e m c q now k = refl

  pub release_keys-Ended :
      (q : AttestationQuote) (a : Text) (now : Option ℕ) (c : Cvm)
      → Ended c q now (release_keys crypto q a now c)
  unfolding release_keys ◌>>◌ ◌>>=◌
  release_keys-Ended q a now c = guards-Ended (not (is_empty c.vendor.address)) _ _ c q now (λ x.
      guards-Ended (same_hex a c.vendor.address) _ _ c q now
        (λ y. guards-Ended (accepts crypto c q now) _ _ c q now (λ z. keep_key-Ended c q now _ z)))
