-- ===== src/Signer/Journal/Steady.antt =====
-- Conditions on the signer's tables that `reconcileJournal` and the calls of the chain keep: a
-- change of the state columns keeps them, and so does sending a row of which `Good` holds.
use enclave_developer.Prelude.{
  ℕ, ◌≡◌, refl, List, [], ◌∷◌, ◌++◌, Option, none, some, Bool, All, update_where, keep_if,
  Bool-cases, inl, inr, Keeps, keeps, >>=-Keeps, >>-Keeps, if-Keeps, pure-Keeps, throw-Keeps,
  catch-Keeps, ◌>>=◌, ◌==◌, ltb, find_first,
}
use enclave_developer.Prelude.Text.{Text}
use enclave_developer.Prelude.Sort.{sort-All}
use enclave_developer.Signer.World.{
  World, JournalRow, Status, Receipt, Wallet, Lookup, SignerFault, Call, ask, look_up, write, send,
}
use enclave_developer.Signer.Journal.{
  rows_of, set_state, block_hash, check_receipt, canonical_receipt, observe, broadcast_row,
  cached_hash, still_proved, save_state, settle_receipt, replay_row, recover_row, reconcile_rows,
  reconcile_journal,
}

-- What a row is signed with, its state left out.
abbrev pub signed : JournalRow → JournalRow
signed r = set_state Status.prepared none none r

abbrev pub KeepsSigned : (JournalRow → JournalRow) → Type 0
KeepsSigned f = (r : JournalRow) → signed (f r) ≡ signed r

pub record Steady (Good : JournalRow → Type 0) (P : World → Type 0) : Type 0 where
  pub tick : (w : World) (n : ℕ) → P w → P (record w { clock = n })
  pub restate :
      (w : World) (p : JournalRow → Bool) (f : JournalRow → JournalRow)
      → KeepsSigned f
      → P w
      → P (record w { journal = update_where p f w.journal })
  pub sending :
      (w : World) (row : JournalRow) (n : ℕ)
      → Good row
      → P w
      → P (record w { clock = n; sent = w.sent ++ row.raw_transaction ∷ [] })
  pub rows : (w : World) → P w → All Good w.journal

All-keep_if {κ} :
    {A : Type 0} (Q : A → Type κ) (p : A → Bool) (xs : List A) → All Q xs → All Q (keep_if p xs)
All-keep_if Q p [] h = tt
All-keep_if Q p (x ∷ xs) (q, h) = elim (Bool-cases (p x)) [
  | inl kept ↦ rw kept (q, All-keep_if Q p xs h)
  | inr left ↦ rw left (All-keep_if Q p xs h)
]

pub rows_of-All :
    (Q : JournalRow → Type 0) (scope signer : Text) (journal : List JournalRow)
    → All Q journal
    → All Q (rows_of scope signer journal)
unfolding rows_of
rows_of-All Q scope signer journal h = sort-All (λ r. r.nonce) Q _ (All-keep_if Q _ journal h)

module _ (wallet : Wallet) (Good : JournalRow → Type 0) {P : World → Type 0}
    (st : Steady Good P) where
  pub option-Keeps :
      {A B : Type 0} {m : Call B} {f : A → Call B}
      → Keeps P m
      → ((a : A) → Keeps P (f a))
      → (o : Option A) → Keeps P (elim o [ none ↦ m | some a ↦ f a ])
  option-Keeps h k none = h
  option-Keeps h k (some a) = k a

  pub ask-Keeps : {A : Type 0} (f : ℕ → Option A) → Keeps P (ask f)
  unfolding ask
  ask-Keeps f = record { keep = λ w p. st.tick w _ p }

  pub look_up-Keeps : {A : Type 0} (f : ℕ → Lookup A) → Keeps P (look_up f)
  unfolding look_up
  look_up-Keeps f = record { keep = λ w p. st.tick w _ p }

  pub restate-Keeps :
      (p : JournalRow → Bool) (f : JournalRow → JournalRow)
      → KeepsSigned f
      → Keeps P (write (update_where p f))
  unfolding write
  restate-Keeps p f k = record { keep = λ w q. st.restate w p f k q }

  send-Keeps : (row : JournalRow) → Good row → Keeps P (send wallet row.raw_transaction)
  unfolding send
  send-Keeps row g = record { keep = λ w p. st.sending w row _ g p }

  block_hash-Keeps : (number : ℕ) → Keeps P (block_hash wallet number)
  unfolding block_hash
  block_hash-Keeps number = >>=-Keeps (look_up-Keeps _) λ answer. pure-Keeps _

  check_receipt-Keeps :
      (hash : Text) (receipt : Receipt) → Keeps P (check_receipt wallet hash receipt)
  unfolding check_receipt
  check_receipt-Keeps hash receipt = search (keeps, block_hash-Keeps) depth 9

  pub canonical_receipt-Keeps : (hash : Text) → Keeps P (canonical_receipt wallet hash)
  unfolding canonical_receipt
  canonical_receipt-Keeps hash =
      >>=-Keeps (look_up-Keeps _)
        λ answer. option-Keeps (pure-Keeps _) (check_receipt-Keeps hash) answer

  observe-Keeps : (row : JournalRow) (e : SignerFault) → Keeps P (observe wallet row e)
  unfolding observe
  observe-Keeps row e =
      catch-Keeps (>>=-Keeps (ask-Keeps _) λ seen. if-Keeps _ (pure-Keeps _) (throw-Keeps _))
        λ f. throw-Keeps _

  pub broadcast_row-Keeps : (row : JournalRow) → Good row → Keeps P (broadcast_row wallet row)
  unfolding broadcast_row
  broadcast_row-Keeps row g =
      catch-Keeps (>>=-Keeps (send-Keeps row g) λ hash. if-Keeps _ (pure-Keeps _) (throw-Keeps _))
        (observe-Keeps row)

  cached_hash-Keeps :
      (number : ℕ) (headers : List (ℕ × Option Text)) → Keeps P (cached_hash wallet number headers)
  unfolding cached_hash
  cached_hash-Keeps number headers =
      option-Keeps (>>=-Keeps (block_hash-Keeps number) λ hash. pure-Keeps _)
        (λ found. pure-Keeps _) (find_first (λ h. h.0 == number) headers)

  pub still_proved-Keeps :
      (head depth : ℕ) (proof : Option (ℕ × Text)) (headers : List (ℕ × Option Text))
      → Keeps P (still_proved wallet head depth proof headers)
  unfolding still_proved
  still_proved-Keeps head depth none headers = pure-Keeps _
  still_proved-Keeps head depth (some (number, hash)) headers =
      >>=-Keeps (cached_hash-Keeps number headers) λ cached. pure-Keeps _

  save_state-Keeps :
      (row : JournalRow) (status : Status) (number : Option ℕ) (hash : Option Text)
      → Keeps P (save_state wallet row status number hash)
  unfolding save_state
  save_state-Keeps row status number hash = >>-Keeps (restate-Keeps _ _ λ r. refl) (pure-Keeps _)

  recover_row-Keeps :
      (head depth : ℕ) (row : JournalRow) → Good row → Keeps P (recover_row wallet head depth row)
  unfolding recover_row settle_receipt replay_row
  recover_row-Keeps head depth row g = >>=-Keeps (canonical_receipt-Keeps _) λ found.
      option-Keeps
        (>>=-Keeps (ask-Keeps _) λ mined.
          if-Keeps (ltb row.nonce mined) (throw-Keeps _)
            (>>-Keeps (broadcast_row-Keeps row g) (save_state-Keeps row _ _ _)))
        (λ r. if-Keeps _ (save_state-Keeps row _ _ _) (save_state-Keeps row _ _ _)) found

  reconcile_rows-Keeps :
      (head depth : ℕ) (rows : List JournalRow) (headers : List (ℕ × Option Text))
      → All Good rows
      → Keeps P (reconcile_rows wallet head depth rows headers)
  unfolding reconcile_rows
  reconcile_rows-Keeps head depth [] headers h = pure-Keeps _
  reconcile_rows-Keeps head depth (row ∷ rows) headers (g, h) =
      >>=-Keeps (still_proved-Keeps head depth _ headers) λ checked.
        if-Keeps checked.0
          (>>=-Keeps (reconcile_rows-Keeps head depth rows checked.1 h) λ rest. pure-Keeps _)
          (>>=-Keeps (recover_row-Keeps head depth row g) λ updated.
            >>=-Keeps (reconcile_rows-Keeps head depth rows checked.1 h) λ rest. pure-Keeps _)

  pub reconcile_journal-Keeps :
      (scope signer : Text) (depth : ℕ) → Keeps P (reconcile_journal wallet scope signer depth)
  unfolding reconcile_journal ◌>>=◌
  reconcile_journal-Keeps scope signer depth = record {
    keep = λ w p.
        (>>=-Keeps (ask-Keeps wallet.block_number) λ head.
            reconcile_rows-Keeps head depth (rows_of scope signer w.journal) []
              (rows_of-All Good scope signer w.journal (st.rows w p))).keep
          w p;
  }
