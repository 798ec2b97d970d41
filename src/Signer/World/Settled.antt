-- ===== src/Signer/World/Settled.antt =====
-- How `transaction` ends: as its calls, with the table restored after a throw.
use enclave_developer.Prelude.{Result, ok, err, Keeps}
use enclave_developer.Prelude.Triples.{After}
use enclave_developer.Signer.World.{World, SignerFault, Call, settle, transaction}

pub transaction-After :
    {A : Type 0} (Q : A → World → Type 0) (R R' : World → Type 0) (m : Call A) (w : World)
    → ((v : World) → R v → R' (record v { journal = w.journal }))
    → After Q R (m w)
    → After Q R' (transaction m w)
unfolding transaction settle
transaction-After {A} Q R R' m w back h = settled (m w) h
  where
    settled : (r : Result SignerFault A × World) → After Q R r → After Q R' (settle w.journal r)
    settled (ok a, v) k = k
    settled (err e, v) k = back v k

pub transaction-Keeps :
    {A : Type 0} (P : World → Type 0) (m : Call A)
    → ((v w : World) → P v → P w → P (record w { journal = v.journal }))
    → Keeps P m
    → Keeps P (transaction m)
unfolding transaction settle
transaction-Keeps {A} P m back h = record { keep = λ w p. settled w p (m w) (h.keep w p) }
  where
    settled :
        (v : World) → P v → (r : Result SignerFault A × World) → P r.1 → P (settle v.journal r).1
    settled v p (ok a, w) q = q
    settled v p (err e, w) q = back v w p q
