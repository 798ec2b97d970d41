-- ===== src/Tcb/Rules.antt =====
-- The statements of tcb-lifecycle.ts as triples over the rows of the table.
use enclave_developer.Prelude.{
  ℕ, ◌≡◌, refl, ap, ◌∙◌, List, Bool, true, false, Result, ok, err, Keeps, if-Keeps, pure-Keeps,
  throw-Keeps,
}
use enclave_developer.Prelude.Triples.{Triple, After}
use enclave_developer.Tcb.Policy.{TcbFault}
use enclave_developer.Tcb.Rows.{TcbRow}
use enclave_developer.Tcb.Store.{World, Call, settle, exclusive, write, guard}

abbrev pub At : List TcbRow → World → Type 0
At rows w = w.rows ≡ rows

abbrev pub Any : World → Type 0
Any w = Unit {0}

module _ (P : List TcbRow → Type 0) where
  settle-After :
      {A : Type 0} (Q : A → World → Type 0) (w : World) (r : Result TcbFault A × World)
      → P w.rows
      → After Q Any r
      → After Q (λ v. P v.rows) (settle w.rows r)
  unfolding settle
  settle-After Q w (ok a, v) p h = h
  settle-After Q w (err e, v) p h = p

  pub exclusive-Triple :
      {A : Type 0} {m : Call A} {Q : A → World → Type 0}
      → Triple (λ w. P w.rows) m Q Any
      → Triple (λ w. P w.rows) (exclusive m) Q (λ w. P w.rows)
  unfolding exclusive
  exclusive-Triple {m} {Q} h = record { run = λ w p. settle-After Q w (m w) p (h.run w p) }

module _ {R : World → Type 0} where
  pub guard-Triple :
      {P : World → Type 0} (b : Bool) (e : TcbFault)
      → ((w : World) → P w → R w)
      → Triple P (guard b e) (λ u w. P w × (b ≡ true)) R
  unfolding guard enclave_developer.Prelude.pure enclave_developer.Prelude.throw
  guard-Triple true e h = record { run = λ w p. (p, refl) }
  guard-Triple false e h = record { run = λ w p. h w p }

  pub write-Triple :
      (rows : List TcbRow) (f : List TcbRow → List TcbRow)
      → Triple (At rows) (write f) (λ u. At (f rows)) R
  unfolding write
  write-Triple rows f = record { run = λ w e. ap f e }

pub guard-Keeps : {P : World → Type 0} (b : Bool) (e : TcbFault) → Keeps P (guard b e)
unfolding guard
guard-Keeps b e = if-Keeps b (pure-Keeps _) (throw-Keeps _)
