-- ===== src/Prelude/Triples.antt =====
-- What holds after a call that started where a condition held, by how the call ended.
use mathlib.Core.Path.{◌≡◌, refl}
use mathlib.Core.Bool.{Bool, true, false}
use enclave_developer.Prelude.Tests.{if◌then◌else◌}
use enclave_developer.Prelude.Effects.{
  Result, ok, err, Exec, pure, throw, from_result, get, continue, ◌>>=◌, ◌>>◌, Keeps,
}
use enclave_developer.Prelude.{catch, handle}

abbrev pub After : {S E A : Type 0} → (A → S → Type 0) → (S → Type 0) → Result E A × S → Type 0
After Q R (ok a, s) = Q a s
After Q R (err e, s) = R s

pub record Triple {S E A : Type 0} (P : S → Type 0) (m : Exec S E A) (Q : A → S → Type 0)
    (R : S → Type 0) : Type 0 where
  pub run : (s : S) → P s → After Q R (m s)

module _ {S E : Type 0} {R : S → Type 0} where
  continue-After :
      {A B : Type 0} (Q : A → S → Type 0) (T : B → S → Type 0) (r : Result E A × S)
      (f : A → Exec S E B)
      → After Q R r
      → ((a : A) → Triple (Q a) (f a) T R)
      → After T R (continue r f)
  continue-After Q T (ok a, s) f h k = (k a).run s h
  continue-After Q T (err e, s) f h k = h

  keep-After :
      {A : Type 0} (P : S → Type 0) (r : Result E A × S)
      → P r.1
      → ((s : S) → P s → R s)
      → After (λ _. P) R r
  keep-After P (ok a, s) h k = h
  keep-After P (err e, s) h k = k s h

  module _ {P : S → Type 0} where
    pub >>=-Triple :
        {A B : Type 0} {m : Exec S E A} {f : A → Exec S E B} {Q : A → S → Type 0}
        {T : B → S → Type 0}
        → Triple P m Q R
        → ((a : A) → Triple (Q a) (f a) T R)
        → Triple P (m >>= f) T R
    unfolding ◌>>=◌
    >>=-Triple {m} {f} {Q} {T} h k = record {
      run = λ s p. continue-After Q T (m s) f (h.run s p) k;
    }

    pub >>-Triple :
        {B : Type 0} {m : Exec S E (Unit {0})} {k : Exec S E B} {Q : S → Type 0}
        {T : B → S → Type 0}
        → Triple P m (λ _. Q) R
        → Triple Q k T R
        → Triple P (m >> k) T R
    unfolding ◌>>◌
    >>-Triple {m} {k} {Q} {T} h g = record {
      run = λ s p. continue-After (λ _. Q) T (m s) (λ _. k) (h.run s p) (λ _. g);
    }

    pub pure-Triple :
        {A : Type 0} {Q : A → S → Type 0} (a : A)
        → ((s : S) → P s → Q a s)
        → Triple {E = E} P (pure a) Q R
    unfolding pure
    pure-Triple a h = record { run = λ s p. h s p }

    pub throw-Triple :
        {A : Type 0} {Q : A → S → Type 0} (e : E) → ((s : S) → P s → R s) → Triple P (throw e) Q R
    unfolding throw
    throw-Triple e h = record { run = λ s p. h s p }

    pub get-Triple : Triple {E = E} P get (λ a s. P s × (s ≡ a)) R
    get-Triple = record { run = λ s p. (p, refl) }

    pub if-Triple :
        {A : Type 0} {Q : A → S → Type 0} (b : Bool) {m k : Exec S E A}
        → (b ≡ true → Triple P m Q R)
        → (b ≡ false → Triple P k Q R)
        → Triple P (if b then m else k) Q R
    if-Triple true h g = h refl
    if-Triple false h g = g refl

    -- A call that keeps a condition, where the condition suffices for a throw.
    pub Keeps-Triple :
        {A : Type 0} {m : Exec S E A} → Keeps P m → ((s : S) → P s → R s) → Triple P m (λ _. P) R
    Keeps-Triple {m} h k = record { run = λ s p. keep-After P (m s) (h.keep s p) k }

    pub assume-Triple :
        {A : Type 0} {m : Exec S E A} {Q : A → S → Type 0} {X : Type 0}
        → ((s : S) → P s → X)
        → (X → Triple P m Q R)
        → Triple P m Q R
    assume-Triple h k = record { run = λ s p. (k (h s p)).run s p }

    pub before-Triple :
        {A : Type 0} {m : Exec S E A} {Q : A → S → Type 0} {P' : S → Type 0}
        → ((s : S) → P s → P' s)
        → Triple P' m Q R
        → Triple P m Q R
    before-Triple h k = record { run = λ s p. k.run s (h s p) }

fail-After :
    {S E A : Type 0} (Q : A → S → Type 0) (R R' : S → Type 0) (r : Result E A × S)
    → ((s : S) → R s → R' s)
    → After Q R r
    → After Q R' r
fail-After Q R R' (ok a, s) k h = h
fail-After Q R R' (err e, s) k h = k s h

pub fail-Triple :
    {S E A : Type 0} {P : S → Type 0} {m : Exec S E A} {Q : A → S → Type 0} {R R' : S → Type 0}
    → ((s : S) → R s → R' s)
    → Triple P m Q R
    → Triple P m Q R'
fail-Triple {m} {Q} {R} {R'} k h = record { run = λ s p. fail-After Q R R' (m s) k (h.run s p) }

pub After-map :
    {S E A : Type 0} (Q Q' : A → S → Type 0) (R : S → Type 0) (r : Result E A × S)
    → ((a : A) (s : S) → Q a s → Q' a s)
    → After Q R r
    → After Q' R r
After-map Q Q' R (ok a, s) k h = k a s h
After-map Q Q' R (err e, s) k h = h

pub After-both : {S E A : Type 0} (P : S → Type 0) (r : Result E A × S) → P r.1 → After (λ a. P) P r
After-both P (ok a, s) h = h
After-both P (err e, s) h = h

pub After-either :
    {S E A : Type 0} (P : S → Type 0) (r : Result E A × S) → After (λ a. P) P r → P r.1
After-either P (ok a, s) h = h
After-either P (err e, s) h = h

pub from_result-Triple :
    {S E A : Type 0} {P R : S → Type 0} (r : Result E A)
    → ((s : S) → P s → R s)
    → Triple P (from_result r) (λ a s. P s × (r ≡ ok a)) R
unfolding from_result
from_result-Triple (ok a) h = record { run = λ s p. (p, refl) }
from_result-Triple (err e) h = record { run = λ s p. h s p }

pub map-Triple :
    {S E A : Type 0} {P : S → Type 0} {m : Exec S E A} {Q Q' : A → S → Type 0} {R : S → Type 0}
    → ((a : A) (s : S) → Q a s → Q' a s)
    → Triple P m Q R
    → Triple P m Q' R
map-Triple {m} {Q} {Q'} {R} k h = record { run = λ s p. After-map Q Q' R (m s) k (h.run s p) }

-- What holds after a call that returned.
pub After-ok :
    {S E A : Type 0} (Q : A → S → Type 0) (R : S → Type 0) (r : Result E A × S) {a : A}
    → r.0 ≡ ok a
    → After Q R r
    → Q a r.1
After-ok Q R (ok b, s) {a} e h = rw (let q : a ≡ b = cc in q) h
After-ok Q R (err x, s) e h = cc

handle-After :
    {S E A : Type 0} (Q : A → S → Type 0) (P R : S → Type 0) (r : Result E A × S)
    (f : E → Exec S E A)
    → After Q P r
    → ((e : E) → Triple P (f e) Q R)
    → After Q R (handle r f)
handle-After Q P R (ok a, s) f h k = h
handle-After Q P R (err e, s) f h k = (k e).run s h

-- A call with a handler, which starts where the call threw.
pub catch-Triple :
    {S E A : Type 0} {P P' R : S → Type 0} {m : Exec S E A} {f : E → Exec S E A}
    {Q : A → S → Type 0}
    → Triple P m Q P'
    → ((e : E) → Triple P' (f e) Q R)
    → Triple P (catch m f) Q R
unfolding catch
catch-Triple {P'} {R} {m} {f} {Q} h k = record {
  run = λ s p. handle-After Q P' R (m s) f (h.run s p) k;
}
