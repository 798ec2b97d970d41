-- ===== src/Signer/Durable/Confirmed.antt =====
-- When `confirmDurableTransaction` of _backend/packages/db/src/signer.ts returns.
use mathlib.Core.Path.{subst}
use enclave_developer.Signer.World.{
  Wallet, Call, Receipt, World, found, ask, look_up, transaction, settle, Lookup, JournalRow,
  SignerFault, write,
}
use enclave_developer.Signer.Durable.{
  SignerOptions, confirmation_depth, confirm_durable_transaction, prove, record_proof, scope_for,
}
use enclave_developer.Signer.Journal.{canonical_receipt, check_receipt, block_hash}
use enclave_developer.Prelude.{
  Exec, Result, ◌>>=◌, ◌>>◌, some, ℕ, ◌==◌, ◌≡◌, Option, ok, true, arith, continue, refl, ◌+◌, err,
  ◌≤◌, List, ltb, pure, false, from_result, Bool, if◌then◌else◌,
}
use enclave_developer.Prelude.Text.{Text, same_hex, same_hex_refl}

-- The call returns this value, from whatever state.
abbrev pub Yields : {S E A : Type 0} → Exec S E A → A → Type 0
Yields {S} m a = (s : S) → (m s).0 ≡ ok a

module _ {S E A B : Type 0} where
  continue-Yields :
      (r : Result E A × S) (f : A → Exec S E B) (a : A) (b : B)
      → r.0 ≡ ok a
      → ((s : S) → (f a s).0 ≡ ok b)
      → (continue r f).0 ≡ ok b
  continue-Yields (ok x, s) f a b e k =
      subst (λ y. (f y s).0 ≡ ok b) (let q : a ≡ x = cc in q) (k s)
  continue-Yields (err x, s) f a b e k = cc

  -- The first call may return one of several values.
  pub Yields-some :
      (m : Exec S E A) (f : A → Exec S E B) (b : B)
      → ((s : S) → (a : A) × ((m s).0 ≡ ok a) × Yields (f a) b)
      → Yields (m >>= f) b
  unfolding ◌>>=◌
  Yields-some m f b h s = let (a, e, k) = h s in continue-Yields (m s) f a b e k

  pub Yields->>= :
      (m : Exec S E A) (f : A → Exec S E B) (a : A) (b : B)
      → Yields m a
      → Yields (f a) b
      → Yields (m >>= f) b
  Yields->>= m f a b h k = Yields-some m f b (λ s. (a, h s, k))

pub Yields->> :
    {S E B : Type 0} (m : Exec S E (Unit {0})) (k : Exec S E B) (b : B)
    → Yields m tt
    → Yields k b
    → Yields (m >> k) b
unfolding ◌>>◌
Yields->> m k b h g s = continue-Yields (m s) (λ u. k) tt b (h s) g

pub Yields-pure : {S E A : Type 0} (a : A) → Yields {S = S} {E = E} (pure a) a
unfolding pure
Yields-pure a s = refl

pub if-Yields :
    {S E A : Type 0} {a : A} (m k : Exec S E A) (b : Bool)
    → b ≡ true
    → Yields m a
    → Yields (if b then m else k) a
if-Yields m k true e h = h
if-Yields m k false e h = cc

pub Yields-result :
    {S E A : Type 0} (r : Result E A) (a : A) → r ≡ ok a → Yields {S = S} (from_result r) a
unfolding from_result
Yields-result r a e s = e

module _ (wallet : Wallet) (opts : SignerOptions) (hash : Text) (receipt : Receipt) where
  -- The chain holds the transaction, which succeeded, deep enough, and the client answers.
  pub record IsConfirmed : Type 0 where
    pub needed_depth : ℕ
    pub genesis : Text
    pub has_depth : confirmation_depth opts ≡ ok needed_depth
    pub same_chain : (t : ℕ) → wallet.chain_id t ≡ some opts.chain_id
    pub has_genesis : (t : ℕ) → wallet.block_hash t 0 ≡ found (some genesis)
    pub waited : (t : ℕ) → wallet.wait_for_receipt t hash (needed_depth + 1) ≡ some hash
    pub mined : (t : ℕ) → wallet.receipt t hash ≡ found receipt
    pub its_hash : same_hex receipt.transaction_hash hash ≡ true
    pub in_block :
        (t : ℕ) → wallet.block_hash t receipt.block_number ≡ found (some receipt.block_hash)
    pub deep :
        (t : ℕ)
        → (n : ℕ) × (wallet.block_number t ≡ some n) × (receipt.block_number + needed_depth ≤ n)
    pub succeeded : receipt.success ≡ true

  ask-Yields : {A : Type 0} (f : ℕ → Option A) (a : A) → ((t : ℕ) → f t ≡ some a) → Yields (ask f) a
  unfolding ask
  ask-Yields f a h w = rw (h w.clock) refl

  look_up-Yields :
      {A : Type 0} (f : ℕ → Lookup A) (a : A)
      → ((t : ℕ) → f t ≡ found a)
      → Yields (look_up f) (some a)
  unfolding look_up
  look_up-Yields f a h w = rw (h w.clock) refl

  write-Yields : (f : List JournalRow → List JournalRow) → Yields (write f) tt
  unfolding write
  write-Yields f w = refl

  module _ (c : IsConfirmed) where
    scope-Yields : Yields (scope_for wallet opts.chain_id) (wallet.scope_of opts.chain_id c.genesis)
    unfolding scope_for
    scope-Yields =
        Yields->>= _ _ opts.chain_id _ (ask-Yields wallet.chain_id opts.chain_id c.same_chain) (
          rw (let e : (opts.chain_id == opts.chain_id) ≡ true = ground arith in e) (
            Yields->>= _ _ (some (some c.genesis)) _ (look_up-Yields _ _ c.has_genesis)
              (Yields-pure _)))

    block-Yields : Yields (block_hash wallet receipt.block_number) (some receipt.block_hash)
    unfolding block_hash
    block-Yields =
        Yields->>= _ _ (some (some receipt.block_hash)) _ (look_up-Yields _ _ c.in_block)
          (Yields-pure _)

    check-Yields : Yields (check_receipt wallet hash receipt) (some receipt)
    unfolding check_receipt
    check-Yields = rw c.its_hash (
        Yields->>= _ _ (some receipt.block_hash) _ block-Yields
          (rw (same_hex_refl receipt.block_hash) (Yields-pure _)))

    canonical-Yields : Yields (canonical_receipt wallet hash) (some receipt)
    unfolding canonical_receipt
    canonical-Yields = Yields->>= _ _ (some receipt) _ (look_up-Yields _ _ c.mined) check-Yields

    proof-Yields :
        (scope : Text) → Yields (record_proof wallet opts scope hash c.needed_depth receipt) receipt
    unfolding record_proof ask
    proof-Yields scope = Yields-some _ _ receipt (λ w.
        let (n, e, deep) = c.deep w.clock in
        let shallow : ltb n (receipt.block_number + c.needed_depth) ≡ false = ground arith in
        (n, rw e refl, rw shallow (Yields->> _ _ receipt (write-Yields _) (Yields-pure receipt))))

    prove-Yields : (scope : Text) → Yields (prove wallet opts scope hash c.needed_depth) receipt
    unfolding prove
    prove-Yields scope = Yields->>= _ _ (some receipt) _ canonical-Yields (proof-Yields scope)

    settled-Yields :
        (before : List JournalRow) (r : Result SignerFault Receipt × World)
        → r.0 ≡ ok receipt
        → (settle before r).0 ≡ ok receipt
    unfolding settle
    settled-Yields before (ok x, w) e = e
    settled-Yields before (err x, w) e = cc

    transaction-Yields : (m : Call Receipt) → Yields m receipt → Yields (transaction m) receipt
    unfolding transaction
    transaction-Yields m h w = settled-Yields w.journal (m w) (h w)

    pub confirm-Yields : Yields (confirm_durable_transaction wallet opts hash) receipt
    unfolding confirm_durable_transaction
    confirm-Yields =
        let scope = wallet.scope_of opts.chain_id c.genesis in
        Yields->>= _ _ c.needed_depth _ (Yields-result _ _ c.has_depth) (
          Yields->>= _ _ scope _ scope-Yields (
            Yields->>= _ _ hash _ (ask-Yields _ hash c.waited) (
              rw (same_hex_refl hash) (
                Yields->>= (transaction (prove wallet opts scope hash c.needed_depth)) _ receipt
                  receipt
                  (transaction-Yields (prove wallet opts scope hash c.needed_depth)
                    (prove-Yields scope))
                  (if-Yields _ _ receipt.success c.succeeded (Yields-pure receipt))))))
