-- ===== src/Cvm/Released.antt =====
-- The quotes of an enclave of _backend/packages/core/src/cvm.ts and its own `releaseKeys`.
use enclave_developer.Cvm.{
  Cvm, Crypto, quote, release_keys, accepts_as, accepts, attestation_ref, keep_key, GatewayMode,
  quote_as, is_managed, managed_near, is_empty, development, other_mode, CvmFault, Call, guard,
}
use enclave_developer.Cvm.Session.{
  is_canonical, gateway_session_quote, verify_gateway_session, gateway_session, payload_at,
}
use enclave_developer.Tcb.Quote.{AttestationQuote, distance, five_minutes, issue-verify}
use enclave_developer.Prelude.Text.{Text, is_hex, same_refl, codes, same_hex_refl, same_hex, same}
use enclave_developer.Prelude.{
  ℕ, ◌≡◌, some, false, true, ◌≤◌, refl, [], leb, le→leb, ◌==◌, ==_iff, ◌++◌, Bool, Option, Result,
  not, arith, none, ok, any, ◌>>◌,
}
use enclave_developer.Tcb.Policy.{measurement_of, max_safe_integer}
use enclave_developer.Cvm.Near.{Bytes}

-- The call returned, the key is released and the reference of the quote is known.
abbrev pub IsReleased : Crypto → AttestationQuote → Result CvmFault (Unit {0}) × Cvm → Type 0
IsReleased crypto q r =
    (r.0 ≡ ok tt)
    × ((key : Bytes) × (r.1.model_key ≡ some key))
    × (any (same (attestation_ref crypto q)) r.1.verified_att_refs ≡ true)

module _ (crypto : Crypto) (c : Cvm) (sign : Text → Text) (now later : ℕ) where
  -- The vendor signs in the canonical form and is recovered from what it signs, the policy asks for
  -- both TEEs, its measurement has the form of a hash, the moments are near each other, the
  -- first is a safe integer, and the sealed key opens.
  pub record CanRelease : Type 0 where
    pub keyed : c.vendor.sign ≡ some sign
    pub recovers : (m : Text) → c.vendor.recover m (sign m) ≡ some c.vendor.address
    pub canonical : (m : Text) → is_canonical (sign m) ≡ true
    pub named : is_empty c.vendor.address ≡ false
    pub needs_cpu : c.config.policy.require_cpu_tee ≡ true
    pub needs_gpu : c.config.policy.require_gpu_cc ≡ true
    pub measured : is_hex 64 (measurement_of crypto.digests c.config.policy) ≡ true
    pub in_range : now ≤ max_safe_integer
    pub near : distance later now ≤ five_minutes
    pub key : Bytes
    pub opens : crypto.decrypt c.wrapping_key c.encrypted_weights ≡ some key

  -- An accepted quote.
  abbrev Accepted : GatewayMode → AttestationQuote → Type 0
  Accepted mode q =
      (quote_as crypto mode c now ≡ some q)
      × (accepts_as crypto mode c.vendor c.config.policy q (some later) ≡ true)

  module _ (can : CanRelease) where
    issued :
        (mode : GatewayMode) → is_managed mode ≡ false → (q : AttestationQuote) × Accepted mode q
    unfolding quote_as accepts_as
    issued managed_near e = cc
    issued development e =
        let (q, quoted, verified) =
          issue-verify crypto.digests c.vendor sign c.config.policy now later can.recovers can.keyed
            can.needs_cpu can.needs_gpu can.near in
        (q, (quoted, rw (accepts_as, verified) refl))
    issued other_mode e =
        let (q, quoted, verified) =
          issue-verify crypto.digests c.vendor sign c.config.policy now later can.recovers can.keyed
            can.needs_cpu can.needs_gpu can.near in
        (q, (quoted, rw (accepts_as, verified) refl))

    session : (q : AttestationQuote) × Accepted managed_near q
    unfolding quote_as accepts_as gateway_session_quote verify_gateway_session gateway_session
        enclave_developer.Prelude.Text.same enclave_developer.Prelude.Text.same_hex
    session =
        let policy = c.config.policy in
        let payload = payload_at (gateway_session crypto.digests policy now []) now in
        let in_time : leb (distance later now) five_minutes ≡ true = le→leb _ _ can.near in
        let safe : leb now max_safe_integer ≡ true = le→leb _ _ can.in_range in
        let same_version : (policy.version == policy.version) ≡ true = (==_iff _ _).1 refl in
        (
          gateway_session crypto.digests policy now (sign payload),
          (
            rw (can.keyed, safe) refl,
            rw
                (
                  same_refl (codes "gateway-session:" ++ policy.serving_image_id),
                  can.measured,
                  same_refl (measurement_of crypto.digests policy),
                  same_version,
                  in_time,
                  can.canonical payload,
                  can.recovers payload,
                )
                (same_hex_refl c.vendor.address),
          ),
        )

    accepted : (mode : GatewayMode) → (q : AttestationQuote) × Accepted mode q
    accepted managed_near = session
    accepted development = issued development refl
    accepted other_mode = issued other_mode refl

  passes :
      (q : AttestationQuote) (b : Bool) (e : CvmFault) (m : Call (Unit {0}))
      → b ≡ true
      → IsReleased crypto q (m c)
      → IsReleased crypto q ((guard b e >> m) c)
  unfolding ◌>>◌ enclave_developer.Prelude.pure
  passes q true e m h k = k
  passes q false e m h k = cc

  kept :
      (q : AttestationQuote) (o : Option Bytes) (key : Bytes)
      → o ≡ some key
      → IsReleased crypto q (keep_key crypto q o c)
  unfolding keep_key enclave_developer.Prelude.◌>>=◌
  kept q none key e = cc
  kept q (some k) key e =
      (refl, (k, refl), (let s = same_refl (attestation_ref crypto q) in ground arith))

  -- If the key of the vendor signs in the canonical form and its address is recovered from what it
  -- signs, the policy of the enclave asks for both TEEs and its measurement has the form of a
  -- hash, and the sealed key opens, then `quote` at a moment that is a safe integer returns a
  -- quote, in either mode, and `releaseKeys` of the same enclave within five minutes returns, with
  -- the key released and the reference of the quote among those that `infer` takes.
  pub release-quote :
      CanRelease
      → (q : AttestationQuote) × (quote crypto c now ≡ some q)
        × IsReleased crypto q (release_keys crypto q c.vendor.address (some later) c)
  unfolding quote release_keys ◌>>◌ enclave_developer.Prelude.◌>>=◌
  release-quote can =
      let (q, (given, good)) = accepted can c.mode in
      (
        q,
        given,
        passes q (not (is_empty c.vendor.address)) _ _ (rw can.named refl) (
            passes q (same_hex c.vendor.address c.vendor.address) _ _
              (same_hex_refl c.vendor.address)
              (passes q (accepts crypto c q (some later)) _ _ good
                (kept q (crypto.decrypt c.wrapping_key c.encrypted_weights) can.key can.opens))),
      )
