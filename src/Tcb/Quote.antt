-- ===== src/Tcb/Quote.antt =====
-- The attestation quotes of _backend/packages/core/src/attestation.ts. Texts are lists of UTF-16 code
-- units; the signatures (viem) are parameters, `none` being a throw. A moment is `none` if it is no
-- safe integer from 0 on.
use enclave_developer.Prelude.{
  ℕ, ◌-◌, ◌≤◌, ◌≡◌, ◌↔◌, refl, [], ◌∷◌, ◌++◌, Option, none, some, Bool, true, false, ◌||◌, not, ltb,
  ◌==◌, if◌then◌else◌, Result, ok, err, arith, Option-cases, inl, inr,
}
use enclave_developer.Prelude.Text.{Text, codes, same_hex, same_hex_refl}
use enclave_developer.Prelude.Decimal.{decimal}
use enclave_developer.Tcb.Policy.{TcbPolicy, Digests, measurement_of}

pub data QuoteFault : Type 0 where
  not_composite_policy not_composite_quote tampered_image version_mismatch bad_clock quote_expired :
      QuoteFault
  bad_signature wrong_signer : QuoteFault

pub record AttestationQuote : Type 0 where
  pub cpu_quote : Text
  pub gpu_quote : Text
  pub measurement : Text
  pub tcb_version : ℕ
  pub timestamp : Option ℕ
  pub signature : Text

-- The account of the vendor's key, and the recovery of a signer from a signed message.
pub record Vendor : Type 0 where
  pub address : Text
  pub recover : Text → Text → Option Text
  pub sign : Option (Text → Text)

abbrev bar : Text
bar = codes "|"

-- `quotePayload`, with the text of the moment.
unfoldable pub quote_payload : Text → Text → Text → ℕ → ℕ → Text
quote_payload cpu gpu measurement version timestamp =
    codes "enclave-attestation-v1:"
    ++ (bar
        ++ (cpu
            ++ (bar
                ++ (gpu
                    ++ (bar
                        ++ (measurement
                            ++ (bar ++ (decimal version ++ (bar ++ decimal timestamp)))))))))

abbrev pub is_empty : Text → Bool
is_empty [] = true
is_empty (c ∷ cs) = false

-- `Math.abs(a - b)`
abbrev pub distance : ℕ → ℕ → ℕ
distance a b = if ltb a b then b - a else a - b

abbrev pub five_minutes : ℕ
five_minutes = 300_000

abbrev check_signer : Option Text → Text → Result QuoteFault (Unit {0})
check_signer none address = err bad_signature
check_signer (some recovered) address =
    if same_hex recovered address then ok tt else err wrong_signer

-- From the test of the clocks on.
abbrev check_time : Vendor → AttestationQuote → Option ℕ → Option ℕ → Result QuoteFault (Unit {0})
check_time v q (some now) (some timestamp) =
    if ltb five_minutes (distance now timestamp)
    then err quote_expired
    else check_signer
        (v.recover (quote_payload q.cpu_quote q.gpu_quote q.measurement q.tcb_version timestamp)
          q.signature)
        v.address
check_time v q now timestamp = err bad_clock

unfoldable pub verify_quote :
    Digests → Vendor → AttestationQuote → TcbPolicy → Option ℕ → Result QuoteFault (Unit {0})
verify_quote d v q p now =
    if not p.require_cpu_tee || not p.require_gpu_cc
    then err not_composite_policy
    else if is_empty q.cpu_quote || is_empty q.gpu_quote
    then err not_composite_quote
    else if not (same_hex q.measurement (measurement_of d p))
    then err tampered_image
    else if not (q.tcb_version == p.version)
    then err version_mismatch
    else check_time v q now q.timestamp

abbrev signed_quote : Digests → (Text → Text) → TcbPolicy → ℕ → AttestationQuote
signed_quote d sign p now =
    let cpu = codes "tdx:" ++ p.serving_image_id in
    let gpu = codes "nvidia-cc:" ++ p.serving_image_id in
    record {
      cpu_quote = cpu;
      gpu_quote = gpu;
      measurement = measurement_of d p;
      tcb_version = p.version;
      timestamp = some now;
      signature = sign (quote_payload cpu gpu (measurement_of d p) p.version now);
    }

abbrev issue_with : Digests → Option (Text → Text) → TcbPolicy → ℕ → Option AttestationQuote
issue_with d none p now = none
issue_with d (some sign) p now = some (signed_quote d sign p now)

-- `issueQuote`, at a moment that the clock can give; `none` is a throw.
unfoldable pub issue_quote : Digests → Vendor → TcbPolicy → ℕ → Option AttestationQuote
issue_quote d v p now = issue_with d v.sign p now

-- What makes a quote acceptable for a policy at a moment.
pub record IsAccepted (d : Digests) (v : Vendor) (q : AttestationQuote) (p : TcbPolicy)
    (now timestamp : ℕ) (signer : Text) : Type 0 where
  pub needs_cpu : p.require_cpu_tee ≡ true
  pub needs_gpu : p.require_gpu_cc ≡ true
  pub has_cpu : is_empty q.cpu_quote ≡ false
  pub has_gpu : is_empty q.gpu_quote ≡ false
  pub measured : same_hex q.measurement (measurement_of d p) ≡ true
  pub versioned : q.tcb_version ≡ p.version
  pub dated : q.timestamp ≡ some timestamp
  pub fresh : distance now timestamp ≤ five_minutes
  pub recovered :
      v.recover
        (quote_payload q.cpu_quote q.gpu_quote q.measurement q.tcb_version timestamp)
        q.signature
      ≡ some signer
  pub by_vendor : same_hex signer v.address ≡ true

verify_sound :
    (d : Digests) (v : Vendor) (q : AttestationQuote) (p : TcbPolicy) (now : ℕ) (t : Option ℕ)
    → q.timestamp ≡ t
    → verify_quote d v q p (some now) ≡ ok tt
    → (timestamp : ℕ) × (signer : Text) × IsAccepted d v q p now timestamp signer
unfolding verify_quote
verify_sound d v q p now none e h = absurd (ground arith)
verify_sound d v q p now (some timestamp) e h =
    elim (Option-cases (
      v.recover (quote_payload q.cpu_quote q.gpu_quote q.measurement q.tcb_version timestamp)
        q.signature)) [
          | inl failed ↦ absurd (ground arith)
          | inr (signer, recovered) ↦ (
            timestamp,
            signer,
            record {
              needs_cpu = ground arith;
              needs_gpu = ground arith;
              has_cpu = ground arith;
              has_gpu = ground arith;
              measured = ground arith;
              versioned = ground arith;
              dated = e;
              fresh = ground arith;
              recovered = recovered;
              by_vendor = ground arith;
            },
          )
        ]

-- At a clock that is a safe integer from 0 on, `verifyQuote` accepts a quote exactly if the policy
-- asks for both TEEs, the quote has both parts, the measurement and the version of the policy and
-- a moment at most five minutes away, and its payload was signed by the vendor.
pub verify-IsAccepted :
    (d : Digests) (v : Vendor) (q : AttestationQuote) (p : TcbPolicy) (now : ℕ)
    → (verify_quote d v q p (some now) ≡ ok tt)
      ↔ ((timestamp : ℕ) × (signer : Text) × IsAccepted d v q p now timestamp signer)
unfolding verify_quote
verify-IsAccepted d v q p now = (
  verify_sound d v q p now q.timestamp refl,
  λ (timestamp, signer, a). ground (
    arith, a.needs_cpu, a.needs_gpu, a.has_cpu, a.has_gpu, a.measured, a.versioned, a.dated,
    a.fresh, a.recovered, a.by_vendor,
  ),
)

signed-IsAccepted :
    (d : Digests) (v : Vendor) (sign : Text → Text) (p : TcbPolicy) (now later : ℕ)
    → ((message : Text) → v.recover message (sign message) ≡ some v.address)
    → p.require_cpu_tee ≡ true
    → p.require_gpu_cc ≡ true
    → distance later now ≤ five_minutes
    → IsAccepted d v (signed_quote d sign p now) p later now v.address
signed-IsAccepted d v sign p now later recovers cpu gpu near = record {
  needs_cpu = cpu;
  needs_gpu = gpu;
  has_cpu = refl;
  has_gpu = refl;
  measured = same_hex_refl (measurement_of d p);
  versioned = refl;
  dated = refl;
  fresh = near;
  recovered = recovers _;
  by_vendor = same_hex_refl v.address;
}

-- If recovering the signer of a message signed with the vendor key gives the vendor address, and
-- the policy asks for both TEEs, then `issueQuote` with that key returns a quote, and
-- `verifyQuote` accepts it within five minutes.
pub issue-verify :
    (d : Digests) (v : Vendor) (sign : Text → Text) (p : TcbPolicy) (now later : ℕ)
    → ((message : Text) → v.recover message (sign message) ≡ some v.address)
    → v.sign ≡ some sign
    → p.require_cpu_tee ≡ true
    → p.require_gpu_cc ≡ true
    → distance later now ≤ five_minutes
    → (q : AttestationQuote) × (issue_quote d v p now ≡ some q)
      × (verify_quote d v q p (some later) ≡ ok tt)
unfolding issue_quote
issue-verify d v sign p now later recovers keyed cpu gpu near = (
  signed_quote d sign p now,
  rw keyed refl,
  (verify-IsAccepted d v (signed_quote d sign p now) p later).1
      (now, v.address, signed-IsAccepted d v sign p now later recovers cpu gpu near),
)
