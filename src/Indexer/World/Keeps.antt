-- ===== src/Indexer/World/Keeps.antt =====
-- Rules for what survives a call on the indexer's world: a read leaves the tables alone, and a
-- transaction either keeps all that its calls wrote or restores the tables.
use mathlib.Core.Path.{subst}
use enclave_developer.Prelude.{
  ◌>>◌, >>-eq-ok, ap, sym, ◌∙◌, keeps, ℕ, ◌≡◌, refl, Option, Result, ok, err, Keeps,
}
use enclave_developer.Indexer.Fault.{Fault}
use enclave_developer.Indexer.World.{
  Db, World, Client, Call, ask, settle, transaction, write, read_header,
}

module _ (Q : Db → Type 0) where
  abbrev pub Holds : World → Type 0
  Holds w = Q w.db

  pub ask-Keeps : {A : Type 0} (f : ℕ → Option A) → Keeps Holds (ask f)
  unfolding ask
  ask-Keeps f = record { keep = λ w h. h }

  pub read_header-Keeps : (client : Client) (number : ℕ) → Keeps Holds (read_header client number)
  unfolding read_header
  read_header-Keeps client number = search (keeps, ask-Keeps)

  pub write-Keeps : (f : Db → Db) → ((db : Db) → Q db → Q (f db)) → Keeps Holds (write f)
  unfolding write
  write-Keeps f h = record { keep = λ w q. h w.db q }

  settle_keep :
      {A : Type 0} (w : World) (r : Result Fault A × World)
      → Q w.db
      → ((a : A) → r.0 ≡ ok a → Q r.1.db)
      → Q (settle w.db r).1.db
  unfolding settle
  settle_keep w (ok a, w') q h = h a refl
  settle_keep w (err e, w') q h = q

  -- What holds before a transaction holds after it, if a run that does not throw establishes it.
  pub transaction-Keeps :
      {A : Type 0} (m : Call A)
      → ((w : World) → Q w.db → (a : A) → (m w).0 ≡ ok a → Q (m w).1.db)
      → Keeps Holds (transaction m)
  unfolding transaction
  transaction-Keeps m h = record { keep = λ w q. settle_keep w (m w) q (h w q) }

-- What a call that does not throw has established.
abbrev pub Ends : {A : Type 0} → (Db → Type 0) → Call A → Type 0
Ends {A} Q m = (w : World) (a : A) → (m w).0 ≡ ok a → Q (m w).1.db

pub >>-Ends :
    {B : Type 0} (Q : Db → Type 0) (m : Call (Unit {0})) (k : Call B) → Ends Q k → Ends Q (m >> k)
>>-Ends Q m k h w b e =
    let (same_run, first) = >>-eq-ok m k w e in
    subst (λ r. Q r.1.db) (sym same_run) (h (m w).1 b (sym (ap (λ r. r.0) same_run) ∙ e))

pub write-Ends : (Q : Db → Type 0) (f : Db → Db) → ((db : Db) → Q (f db)) → Ends Q (write f)
unfolding write
write-Ends Q f h w a e = h w.db

-- A last write, after a call that established what the write needs.
pub >>-write-Ends :
    (R Q : Db → Type 0) (m : Call (Unit {0})) (f : Db → Db)
    → Ends R m
    → ((db : Db) → R db → Q (f db))
    → Ends Q (m >> write f)
unfolding write
>>-write-Ends R Q m f h g w b e =
    let (same_run, first) = >>-eq-ok m (write f) w e in
    subst (λ r. Q r.1.db) (sym same_run) (g (m w).1.db (h w tt first))
