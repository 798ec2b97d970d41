-- ===== src/Cvm/Infer/Reached.antt =====
-- The enclaves of _backend/packages/core/src/cvm.ts in their life, and the calls of `releaseKeys` in
-- it.
use enclave_developer.Cvm.{
  Cvm, CvmConfig, Crypto, CvmFault, Keys, create, release_keys, with_policy, accepts,
  attestation_ref,
}
use enclave_developer.Cvm.Infer.{infer, InferenceContext}
use enclave_developer.Prelude.{
  ℕ, Option, Result, ◌≡◌, ◌⊎◌, inl, inr, ok, err, none, some, true, All, All-map, ap, ◌∙◌, refl,
  sym, [], List,
}
use enclave_developer.Prelude.Text.{Text}
use enclave_developer.Cvm.Near.{Bytes}
use enclave_developer.Tcb.Quote.{Vendor, AttestationQuote}
use enclave_developer.Tcb.Policy.{TcbPolicy}
use enclave_developer.Cvm.Attested.{
  IsFresh, Ended, create-IsFresh, release_keys-Ended, with_policy-IsFresh,
}
use enclave_developer.Cvm.Infer.Kept.{Unmoved, infer-Unmoved}
use mathlib.Core.Path.{subst}

module _ (crypto : Crypto) where
  -- An enclave in its life: after calls, and in the copies with another policy.
  pub data Reached : Cvm → Type 0 where
    created :
        {c : Cvm} (config : CvmConfig) (vendor : Vendor) (persisted : Option Keys) (drawn : Keys)
        (iv : Bytes)
        → create crypto config vendor persisted drawn iv ≡ ok c
        → Reached c
    released :
        {c : Cvm} (q : AttestationQuote) (vendor_address : Text) (now : Option ℕ)
        → Reached c
        → Reached (release_keys crypto q vendor_address now c).1
    inferred :
        {c : Cvm} (input : Bytes) (context : InferenceContext) (drawn : Text) (now elapsed : ℕ)
        → Reached c
        → Reached (infer crypto input context drawn now elapsed c).1
    renewed :
        {c d : Cvm} (policy : TcbPolicy)
        → Reached c
        → with_policy crypto c policy ≡ ok d
        → Reached d

  -- In this life, since the enclave was made or copied, a call of `releaseKeys` has returned for a
  -- quote of the reference, which the mode, the vendor and the policy of `end` accept at the moment
  -- of that call.
  pub WasReleased : Cvm → (c : Cvm) → Reached c → Text → Type 0
  WasReleased end _ (created config vendor persisted drawn iv h) ref = ⊥
  WasReleased end _ (renewed policy r h) ref = ⊥
  WasReleased end _ (inferred {c} input context drawn now elapsed r) ref = WasReleased end c r ref
  WasReleased end _ (released {c} q a now r) ref =
      (((release_keys crypto q a now c).0 ≡ ok tt)
        × (attestation_ref crypto q ≡ ref)
        × (accepts crypto end q now ≡ true))
      ⊎ WasReleased end c r ref

  -- There is a key only with such a reference.
  abbrev pub KeyHeld : (Text → Type 0) → Option Bytes → Type 0
  KeyHeld P none = Unit
  KeyHeld P (some key) = (ref : Text) × P ref

  abbrev pub Held : (Text → Type 0) → Cvm → Type 0
  Held P c = All P c.verified_att_refs × KeyHeld P c.model_key

  KeyHeld-map :
      {P Q : Text → Type 0} (key : Option Bytes)
      → ((ref : Text) → P ref → Q ref)
      → KeyHeld P key
      → KeyHeld Q key
  KeyHeld-map none f h = tt
  KeyHeld-map (some key) f (ref, h) = (ref, f ref h)

  Held-map : {P Q : Text → Type 0} (c : Cvm) → ((ref : Text) → P ref → Q ref) → Held P c → Held Q c
  Held-map c f (h, k) = (All-map f c.verified_att_refs h, KeyHeld-map c.model_key f k)

  fresh-Held : (P : Text → Type 0) (c : Cvm) → IsFresh crypto c → Held P c
  fresh-Held P c (no_refs, no_key) =
      (subst (All P) (sym no_refs) tt, subst (KeyHeld P) (sym no_key) tt)

  abbrev SameSetup : Cvm → Cvm → Type 0
  SameSetup end c = (c.mode ≡ end.mode) × (c.vendor ≡ end.vendor) × (c.config ≡ end.config)

  accepts-SameSetup :
      (end c : Cvm) (q : AttestationQuote) (now : Option ℕ)
      → SameSetup end c
      → accepts crypto c q now ≡ true
      → accepts crypto end q now ≡ true
  accepts-SameSetup end c q now (m, v, k) a = rw (sym m, sym v, sym k) a

  module _ (end c : Cvm) (r : Reached c) (q : AttestationQuote) (a : Text) (now : Option ℕ)
      (before : SameSetup end c → Held (WasReleased end c r) c) where
    abbrev Now : Text → Type 0
    Now = WasReleased end (release_keys crypto q a now c).1 (released q a now r)

    earlier : SameSetup end c → Held Now c
    unfolding WasReleased
    earlier same = Held-map c (λ ref h. inr h) (before same)

    ended-Held :
        (o : Result CvmFault (Unit {0}) × Cvm)
        → (release_keys crypto q a now c).0 ≡ o.0
        → Ended crypto c q now o
        → SameSetup end o.1
        → Held Now o.1
    unfolding WasReleased
    ended-Held (err e, d) f same_cvm setup =
        let setup_before : SameSetup end c = subst (SameSetup end) same_cvm setup in
        subst (Held Now) (sym same_cvm) (earlier setup_before)
    ended-Held (ok u, d) f accepted setup =
        let setup_before : SameSetup end c = subst (SameSetup end) accepted.after setup in
        let old = earlier setup_before in
        let new : Now (attestation_ref crypto q) =
          inl (f, refl, accepts-SameSetup end c q now setup_before accepted.accepted) in
        subst (Held Now) (sym accepted.after) ((new, old.0), (attestation_ref crypto q, new))

  unmoved-Held :
      (end c d : Cvm) (P : Text → Type 0)
      → Unmoved c d
      → (SameSetup end c → Held P c)
      → SameSetup end d
      → Held P d
  unmoved-Held end c d P (n, e) before setup =
      let setup_before : SameSetup end c = subst (SameSetup end) e setup in
      subst (Held P) (sym e) (before setup_before)

  held : (end c : Cvm) (r : Reached c) → SameSetup end c → Held (WasReleased end c r) c
  unfolding infer enclave_developer.Prelude.◌>>=◌ WasReleased
  held end c (created config vendor persisted drawn iv h) same =
      fresh-Held _ c (create-IsFresh crypto config vendor persisted drawn iv c h)
  held end d (renewed {c} policy r h) same =
      fresh-Held _ d (with_policy-IsFresh crypto c d policy h)
  held end _ (released {c} q a now r) same =
      ended-Held end c r q a now (held end c r) (release_keys crypto q a now c) refl
        (release_keys-Ended crypto q a now c) same
  held end _ (inferred {c} input context drawn now elapsed r) same =
      unmoved-Held end c _ (WasReleased end c r)
        (infer-Unmoved crypto c input context drawn now elapsed) (held end c r) same

  -- The references and the key that an enclave has come from such calls in its own life.
  pub Reached-Held : (c : Cvm) (r : Reached c) → Held (WasReleased c c r) c
  Reached-Held c r = held c c r (refl, refl, refl)
