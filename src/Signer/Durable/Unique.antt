-- ===== src/Signer/Durable/Unique.antt =====
-- The unique indexes of `chain_transactions` and its history under the functions of signer.ts.
use mathlib.Core.List.{map-append, append_assoc, append-nil}
use enclave_developer.Prelude.{
  ◌≡◌, refl, sym, ◌∙◌, ap, List, [], ◌∷◌, ◌++◌, map, none, All, All-map, find_first, Bool-cases,
  inl, inr, arith,
}
use enclave_developer.Prelude.Text.{Text, same_iff, lower}
use enclave_developer.Signer.World.{World, JournalRow, ContractCall, Wallet}
use enclave_developer.Signer.Journal.Steady.{signed}
use enclave_developer.Signer.Journal.Rows.{SameSigned}
use enclave_developer.Signer.Durable.{SignerOptions, has_key, send_durable_transaction}
use enclave_developer.Signer.Durable.Records.{All-SameSigned, Lower}
use enclave_developer.Signer.Durable.Calls.{Invariant, send-Keeps}

-- Neither the operation nor the nonce of the one is that of the other.
abbrev pub Apart : JournalRow → JournalRow → Type 0
Apart a b =
    ¬ ((a.scope ≡ b.scope) × (a.operation_key ≡ b.operation_key))
    × ¬ ((a.scope ≡ b.scope) × (a.signer ≡ b.signer) × (a.nonce ≡ b.nonce))

-- The two unique indexes of the table.
abbrev pub IsUnique : List JournalRow → Type 0
IsUnique [] = Unit {0}
IsUnique (r ∷ rows) = All (Apart r) rows × IsUnique rows

Apart-signed :
    (a a' b b' : JournalRow) → signed a ≡ signed a' → signed b ≡ signed b' → Apart a' b' → Apart a b
Apart-signed a a' b b' e f (h, k) = (
  λ (s, o). h (cc (e, f, s), cc (e, f, o)),
  λ (s, g, n). k (cc (e, f, s), cc (e, f, g), cc (e, f, n)),
)

IsUnique-signed : (xs ys : List JournalRow) → SameSigned xs ys → IsUnique ys → IsUnique xs
IsUnique-signed [] ys e h = tt
IsUnique-signed (x ∷ xs) [] e h = cc
IsUnique-signed (x ∷ xs) (y ∷ ys) e (h, hs) = (
  All-SameSigned (Apart x) (λ r r' f k. Apart-signed x x r r' refl f k) xs ys (cc e)
      (All-map (λ r k. Apart-signed x y r r (cc e) refl k) ys h),
  IsUnique-signed xs ys (cc e) hs,
)

All-snoc :
    (Q : JournalRow → Type 0) (xs : List JournalRow) (x : JournalRow)
    → All Q xs
    → Q x
    → All Q (xs ++ x ∷ [])
All-snoc Q [] x h q = (q, tt)
All-snoc Q (y ∷ xs) x (p, h) q = (p, All-snoc Q xs x h q)

IsUnique-snoc :
    (xs : List JournalRow) (x : JournalRow)
    → IsUnique xs
    → All (λ r. Apart r x) xs
    → IsUnique (xs ++ x ∷ [])
IsUnique-snoc [] x h k = (tt, tt)
IsUnique-snoc (y ∷ xs) x (h, hs) (k, ks) = (All-snoc (Apart y) xs x h k, IsUnique-snoc xs x hs ks)

next-Apart :
    (scope key signer : Text) (row : JournalRow) (rows : List JournalRow)
    → row.scope ≡ scope
    → row.operation_key ≡ key
    → row.signer ≡ signer
    → find_first (has_key scope key) rows ≡ none
    → All (Lower scope signer row.nonce) rows
    → All (λ r. Apart r row) rows
next-Apart scope key signer row [] s o g fresh h = tt
next-Apart scope key signer row (r ∷ rows) s o g fresh (low, h) =
    elim (Bool-cases (has_key scope key r)) [
      | inl taken ↦ absurd (ground arith)
      | inr other ↦ (
        (
          λ (e, f).
              let p = (same_iff r.scope scope).1 (e ∙ s) in
              let q = (same_iff r.operation_key key).1 (f ∙ o) in absurd (ground arith),
          λ (e, f, n).
              let p = (same_iff r.scope scope).1 (e ∙ s) in
              let q = (same_iff r.signer signer).1 (f ∙ g) in absurd (ground arith),
        ),
        next-Apart scope key signer row rows s o g (ground arith) h,
      )
    ]

-- The signed rows of a journal are these, and later ones.
abbrev pub Extends : List JournalRow → List JournalRow → Type 0
Extends rows now = (later : List JournalRow) × SameSigned now (rows ++ later)

module _ (wallet : Wallet) (opts : SignerOptions) where
  IsUnique-Invariant : Invariant wallet opts IsUnique
  IsUnique-Invariant = record {
    same_rows = IsUnique-signed;
    add_row = λ scope key rows row next h. IsUnique-snoc rows row h (
        next-Apart scope key (lower wallet.address) row rows next.of_scope next.of_key
          next.of_signer next.fresh next.lower_nonces);
  }

  -- If no two rows of the journal share scope and operation, or scope, signer and nonce, none do
  -- after `sendDurableTransaction`, however it ends.
  pub send-IsUnique :
      (key : Text) (call : ContractCall) (w : World)
      → IsUnique w.journal
      → IsUnique (send_durable_transaction wallet opts key call w).1.journal
  send-IsUnique key call w h =
      (send-Keeps wallet opts IsUnique IsUnique-Invariant key call).keep w h

  Extends-Invariant : (rows : List JournalRow) → Invariant wallet opts (Extends rows)
  Extends-Invariant rows = record {
    same_rows = λ now before e (later, h). (later, e ∙ h);
    add_row = λ scope key now row next (later, h). (
      later ++ row ∷ [],
      map-append signed now (row ∷ [])
          ∙ ap (λ x. x ++ signed row ∷ []) h
          ∙ sym (map-append signed (rows ++ later) (row ∷ []))
          ∙ ap (map signed) (append_assoc rows later (row ∷ [])),
    );
  }

  -- However it ends, `sendDurableTransaction` leaves the signed part of every row of the journal
  -- as it was and in its place; it only changes states and adds rows at the end.
  pub send-Extends :
      (key : Text) (call : ContractCall) (w : World)
      → Extends w.journal (send_durable_transaction wallet opts key call w).1.journal
  send-Extends key call w =
      (send-Keeps wallet opts (Extends w.journal) (Extends-Invariant w.journal) key call).keep w
        ([], ap (map signed) (sym (append-nil w.journal)))
