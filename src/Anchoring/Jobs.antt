-- ===== src/Anchoring/Jobs.antt =====
-- `expireSessions`, `reopenStuckSettling` and `recoverReceiptJobs` of
-- _backend/apps/worker/src/jobs.ts. The queue (BullMQ) is a parameter that answers each call as it
-- likes, and the trace of the jobs that were added and retried is kept. The rows of a table stand in
-- the order of their ids. The timers that poll are left out.
pub mod Pages
pub mod Ended
use enclave_developer.Prelude.{
  ℕ, Bool, Exec, List, Option, Result, false, if◌then◌else◌, length, pure, suc, true, ◌&&◌, ◌>>=◌,
  err, keep_if, none, ok, some, leb, ltb, ◌++◌, ◌+◌, ◌-◌, ◌>>◌, each, not, update_where, ◌∷◌, [],
  zero,
}
use enclave_developer.Prelude.Text.{Text}
use enclave_developer.Anchoring.{ReceiptRow, ReceiptStatus, pending, anchoring}
use enclave_developer.Anchoring.Recovery.{is_after, last_id, first_of}

-- The rows that were deleted, and those that stay, by the moment at which they expire.
unfoldable pub expire_sessions : ℕ → List ℕ → ℕ × List ℕ
expire_sessions now sessions =
    (length (keep_if (λ e. leb e now) sessions), keep_if (λ e. not (leb e now)) sessions)

pub data PaymentStatus : Type 0 where
  settling settlement_unknown other_status : PaymentStatus

pub record PaymentRow : Type 0 where
  pub status : PaymentStatus
  pub settling_started_at : Option ℕ

abbrev is_settling : PaymentStatus → Bool
is_settling settling = true
is_settling _ = false

abbrev is_before : Option ℕ → ℕ → Bool
is_before none cutoff = false
is_before (some t) cutoff = ltb t cutoff

abbrev is_stuck : ℕ → PaymentRow → Bool
is_stuck cutoff p = is_settling p.status && is_before p.settling_started_at cutoff

-- An uncertain transfer is never opened again.
unfoldable pub reopen_stuck_settling : ℕ → ℕ → List PaymentRow → ℕ × List PaymentRow
reopen_stuck_settling older_than now rows = (
  length (keep_if (is_stuck (now - older_than)) rows),
  update_where (is_stuck (now - older_than)) (λ p. record p { status = settlement_unknown }) rows,
)

pub data JobState : Type 0 where
  completed_job other_job : JobState

-- `none` and `false` are calls that throw.
pub record Queue : Type 0 where
  pub add : ℕ → Text → Option JobState
  pub retry : ℕ → Text → Bool

pub record JobWorld : Type 0 where
  pub added : List Text
  pub retried : List Text
  pub clock : ℕ

pub data QueueFault : Type 0 where
  queue_failed : QueueFault

abbrev pub QueueCall : Type 0 → Type 0
QueueCall A = Exec JobWorld QueueFault A

abbrev pub page_size : ℕ
page_size = 500

abbrev pub is_open : ReceiptStatus → Bool
is_open pending = true
is_open anchoring = true
is_open _ = false

abbrev pub is_due : Option ℕ → ReceiptRow → Bool
is_due after_id r = is_open r.status && is_after after_id r.id

module _ (queue : Queue) where
  added_state : Text → JobWorld → Option JobState → Result QueueFault JobState × JobWorld
  added_state h w none = (err queue_failed, record w { clock = w.clock + 1 })
  added_state h w (some s) = (ok s, record w { added = w.added ++ h ∷ []; clock = w.clock + 1 })

  ask_add : Text → QueueCall JobState
  unfolding added_state
  ask_add h w = added_state h w (queue.add w.clock h)

  retry_job : Text → QueueCall (Unit {0})
  retry_job h w = (
    if queue.retry w.clock h then ok tt else err queue_failed,
    record w { retried = w.retried ++ h ∷ []; clock = w.clock + 1 },
  )

  -- A completion that a fork has undone is retried; a failed job keeps its retries.
  after_add : Text → JobState → QueueCall (Unit {0})
  unfolding retry_job
  after_add h completed_job = retry_job h
  after_add h other_job = pure tt

  add_job : ReceiptRow → QueueCall (Unit {0})
  unfolding ask_add after_add
  add_job r = do state ← ask_add r.typed_hash; after_add r.typed_hash state

  -- The loop over the pages; `none` means that the fuel ran out.
  recover_pages : ℕ → ℕ → List ReceiptRow → Option ℕ → ℕ → QueueCall (Option ℕ)
  unfolding add_job
  recover_pages size zero rows after_id recovered = pure none
  recover_pages size (suc fuel) rows after_id recovered = do
    let page = first_of size (keep_if (is_due after_id) rows)
    each add_job page
    if ltb (length page) size
        then pure (some (recovered + length page))
        else recover_pages size fuel rows (last_id page) (recovered + length page)

  -- The fuel is more than the number of the rows.
  unfoldable pub recover_receipt_jobs : List ReceiptRow → QueueCall (Option ℕ)
  unfolding recover_pages
  recover_receipt_jobs rows = recover_pages page_size (suc (length rows)) rows none 0
