-- ===== src/Prelude/Effects.antt =====
-- Calls that change a state and may throw: what was written before a throw stays written, unless a
-- transaction restores it.
use mathlib.Core.Path.{◌≡◌, refl}
use mathlib.Core.Logic.{◌⊎◌, inl, inr}
use mathlib.Core.Bool.{Bool, true, false}
use enclave_developer.Prelude.Tests.{if◌then◌else◌}
use mathlib.Core.List.{List, [], ◌∷◌}

pub data Result (E : Type 0) (A : Type 0) : Type 0 where
  ok : A → Result E A
  err : E → Result E A

pub Result-cases :
    {E A : Type 0} (r : Result E A) → ((a : A) × (r ≡ ok a)) ⊎ ((e : E) × (r ≡ err e))
Result-cases (ok a) = inl (a, refl)
Result-cases (err e) = inr (e, refl)

abbrev pub Exec : Type 0 → Type 0 → Type 0 → Type 0
Exec S E A = S → Result E A × S

unfoldable pub pure : {S E A : Type 0} → A → Exec S E A
pure a s = (ok a, s)

unfoldable pub throw : {S E A : Type 0} → E → Exec S E A
throw e s = (err e, s)

unfoldable pub from_result : {S E A : Type 0} → Result E A → Exec S E A
from_result r s = (r, s)

abbrev pub get : {S E : Type 0} → Exec S E S
get s = (ok s, s)

abbrev pub put : {S E : Type 0} → S → Exec S E (Unit {0})
put s' s = (ok tt, s')

-- What follows a call, by how the call ended.
abbrev pub continue : {S E A B : Type 0} → Result E A × S → (A → Exec S E B) → Result E B × S
continue (ok a, s) f = f a s
continue (err e, s) f = (err e, s)

infixl 5 ◌>>=◌ ◌>>◌
unfoldable pub ◌>>=◌ : {S E A B : Type 0} → Exec S E A → (A → Exec S E B) → Exec S E B
◌>>=◌ m f s = continue (m s) f

unfoldable pub ◌>>◌ : {S E B : Type 0} → Exec S E (Unit {0}) → Exec S E B → Exec S E B
◌>>◌ m k s = continue (m s) (λ _. k)

abbrev pub handle : {S E A : Type 0} → Result E A × S → (E → Exec S E A) → Result E A × S
handle (ok a, s) f = (ok a, s)
handle (err e, s) f = f e s

-- `try { … } catch (error) { … }`
unfoldable pub catch : {S E A : Type 0} → Exec S E A → (E → Exec S E A) → Exec S E A
catch m f s = handle (m s) f

-- A loop over a collection.
unfoldable pub each : {S E A : Type 0} → (A → Exec S E (Unit {0})) → List A → Exec S E (Unit {0})
each f [] = pure tt
each f (x ∷ xs) = f x >> each f xs

-- `P` survives the call, however the call ends.
pub record Keeps {S E A : Type 0} (P : S → Type 0) (m : Exec S E A) : Type 0 where
  pub keep : (s : S) → P s → P (m s).1

continue_keep :
    {S E A B : Type 0} (P : S → Type 0) (r : Result E A × S) (f : A → Exec S E B)
    → P r.1
    → ((a : A) → Keeps P (f a))
    → P (continue r f).1
continue_keep P (ok a, s) f h k = (k a).keep s h
continue_keep P (err e, s) f h k = h

handle_keep :
    {S E A : Type 0} (P : S → Type 0) (r : Result E A × S) (f : E → Exec S E A)
    → P r.1
    → ((e : E) → Keeps P (f e))
    → P (handle r f).1
handle_keep P (ok a, s) f h k = h
handle_keep P (err e, s) f h k = (k e).keep s h

module _ {S E : Type 0} {P : S → Type 0} where
  pub >>=-Keeps :
      {A B : Type 0} {m : Exec S E A} {f : A → Exec S E B}
      → Keeps P m
      → ((a : A) → Keeps P (f a))
      → Keeps P (m >>= f)
  unfolding ◌>>=◌
  >>=-Keeps {m} {f} h k = record { keep = λ s p. continue_keep P (m s) f (h.keep s p) k }

  pub >>-Keeps :
      {B : Type 0} {m : Exec S E (Unit {0})} {k : Exec S E B}
      → Keeps P m
      → Keeps P k
      → Keeps P (m >> k)
  unfolding ◌>>◌
  >>-Keeps {m} {k} h g = record {
    keep = λ s p. continue_keep P (m s) (λ _. k) (h.keep s p) (λ _. g);
  }

  pub catch-Keeps :
      {A : Type 0} {m : Exec S E A} {f : E → Exec S E A}
      → Keeps P m
      → ((e : E) → Keeps P (f e))
      → Keeps P (catch m f)
  unfolding catch
  catch-Keeps {m} {f} h k = record { keep = λ s p. handle_keep P (m s) f (h.keep s p) k }

  pub pure-Keeps : {A : Type 0} (a : A) → Keeps {E = E} P (pure a)
  unfolding pure
  pure-Keeps a = record { keep = λ s p. p }

  pub get-Keeps : Keeps {E = E} P get
  get-Keeps = record { keep = λ s p. p }

  pub throw-Keeps : {A : Type 0} (e : E) → Keeps {A = A} P (throw e)
  unfolding throw
  throw-Keeps e = record { keep = λ s p. p }

  pub from_result-Keeps : {A : Type 0} (r : Result E A) → Keeps P (from_result r)
  unfolding from_result
  from_result-Keeps r = record { keep = λ s p. p }

  pub if-Keeps :
      {A : Type 0} (b : Bool) {m k : Exec S E A}
      → Keeps P m
      → Keeps P k
      → Keeps P (if b then m else k)
  if-Keeps true h g = h
  if-Keeps false h g = g

  pub each-Keeps :
      {A : Type 0} {f : A → Exec S E (Unit {0})}
      → ((x : A) → Keeps P (f x))
      → (xs : List A) → Keeps P (each f xs)
  unfolding each
  each-Keeps h [] = pure-Keeps tt
  each-Keeps h (x ∷ xs) = >>-Keeps (h x) (each-Keeps h xs)

pub ruleset keeps = (>>=-Keeps, >>-Keeps, pure-Keeps, throw-Keeps, from_result-Keeps, if-Keeps)

continue-eq-ok :
    {S E B : Type 0} (r : Result E (Unit {0}) × S) (k : Exec S E B) {b : B}
    → (continue r (λ _. k)).0 ≡ ok b
    → (continue r (λ _. k) ≡ k r.1) × (r.0 ≡ ok tt)
continue-eq-ok (ok u, s) k h = (refl, refl)
continue-eq-ok (err x, s) k h = cc

-- A sequence of calls that did not throw: its first call did not, and the rest ran where it ended.
pub >>-eq-ok :
    {S E B : Type 0} (m : Exec S E (Unit {0})) (k : Exec S E B) (s : S) {b : B}
    → ((m >> k) s).0 ≡ ok b
    → ((m >> k) s ≡ k (m s).1) × ((m s).0 ≡ ok tt)
unfolding ◌>>◌
>>-eq-ok m k s e = continue-eq-ok (m s) k e
