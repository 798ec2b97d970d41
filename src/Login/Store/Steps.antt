-- ===== src/Login/Store/Steps.antt =====
-- The statements of `PostgresWalletLoginStore` in _backend/apps/api/src/wallet-auth.ts as triples
-- over the tables.
use enclave_developer.Prelude.{
  ℕ, ◌≡◌, refl, Bool, true, Result, ok, err, Keeps, if-Keeps, pure-Keeps, throw-Keeps,
}
use enclave_developer.Prelude.Triples.{Triple, After, if-Triple, pure-Triple, throw-Triple}
use enclave_developer.Login.Store.{
  World, Tables, LoginFault, Call, read_clock, tables, write, settle, transaction, guard,
}

abbrev pub Any : World → Type 0
Any w = Unit {0}

module _ (P : Tables → Type 0) where
  pub read_clock-Keeps : {A : Type 0} (f : ℕ → A) → Keeps (λ w. P w.tables) (read_clock f)
  unfolding read_clock
  read_clock-Keeps f = record { keep = λ w p. p }

  pub tables-Keeps : Keeps (λ w. P w.tables) tables
  unfolding tables
  tables-Keeps = record { keep = λ w p. p }

  pub write-Keeps :
      (f : Tables → Tables) → ((t : Tables) → P t → P (f t)) → Keeps (λ w. P w.tables) (write f)
  unfolding write
  write-Keeps f h = record { keep = λ w p. h w.tables p }

  settle-keep :
      {A : Type 0} (w : World) (r : Result LoginFault A × World)
      → P w.tables
      → P r.1.tables
      → P (settle w.tables r).1.tables
  unfolding settle
  settle-keep w (ok a, v) p q = q
  settle-keep w (err e, v) p q = p

  pub transaction-Keeps :
      {A : Type 0} (m : Call A)
      → Keeps (λ w. P w.tables) m
      → Keeps (λ w. P w.tables) (transaction m)
  unfolding transaction
  transaction-Keeps m h = record { keep = λ w p. settle-keep w (m w) p (h.keep w p) }

  settle-After :
      {A : Type 0} (Q : A → World → Type 0) (w : World) (r : Result LoginFault A × World)
      → P w.tables
      → After Q Any r
      → After Q (λ v. P v.tables) (settle w.tables r)
  unfolding settle
  settle-After Q w (ok a, v) p h = h
  settle-After Q w (err e, v) p h = p

  pub transaction-Triple :
      {A : Type 0} {m : Call A} {Q : A → World → Type 0}
      → Triple (λ w. P w.tables) m Q Any
      → Triple (λ w. P w.tables) (transaction m) Q (λ w. P w.tables)
  unfolding transaction
  transaction-Triple {m} {Q} h = record { run = λ w p. settle-After Q w (m w) p (h.run w p) }

pub guard-Keeps : {P : World → Type 0} (b : Bool) (e : LoginFault) → Keeps P (guard b e)
unfolding guard
guard-Keeps b e = if-Keeps b (pure-Keeps _) (throw-Keeps _)

module _ {R : World → Type 0} where
  pub tables-Triple : {P : World → Type 0} → Triple P tables (λ t w. P w × (w.tables ≡ t)) R
  unfolding tables
  tables-Triple = record { run = λ w p. (p, refl) }

  pub write-Triple :
      {P Q : World → Type 0} (f : Tables → Tables)
      → ((w : World) → P w → Q (record w { tables = f w.tables }))
      → Triple P (write f) (λ u. Q) R
  unfolding write
  write-Triple f h = record { run = λ w p. h w p }

  pub guard-Triple :
      {P : World → Type 0} (b : Bool) (e : LoginFault)
      → ((w : World) → P w → R w)
      → Triple P (guard b e) (λ u w. P w × (b ≡ true)) R
  unfolding guard
  guard-Triple b e h = if-Triple b (λ x. pure-Triple tt (λ w p. (p, x))) (λ x. throw-Triple e h)

  pub read_clock-Triple :
      {A : Type 0} (P : Tables → Type 0) (f : ℕ → A)
      → Triple (λ w. P w.tables) (read_clock f) (λ a w. P w.tables) R
  unfolding read_clock
  read_clock-Triple P f = record { run = λ w p. p }
