-- ===== src/Indexer/Reorg.antt =====
-- _backend/apps/worker/src/reorg.ts: checkpoints of block headers, and what a reorganisation leaves
-- of them. A stored document is the JSON array of the database column; `none` is any other text,
-- which `JSON.parse` or the schema refuses.
pub mod Window
pub mod Chain
pub mod Ancestor
pub mod Storage
mod Tests
use enclave_developer.Prelude.{
  ℕ, ◌+◌, ◌-◌, List, [], ◌∷◌, ◌++◌, map, reverse, Option, none, some, Bool, true, false, ◌&&◌, not,
  leb, ltb, ◌==◌, if◌then◌else◌, length, drop, last?, Result, ok, err, Exec, pure, ◌>>=◌,
}
use enclave_developer.Prelude.Text.{Text, same_hex, is_hex}
use enclave_developer.Prelude.Decimal.{decimal, number, is_decimal}
use enclave_developer.Indexer.Fault.{
  Fault, invalid_history, not_contiguous, moves_backwards, reorganized_headers,
}

pub record Checkpoint : Type 0 where
  pub number : ℕ
  pub hash : Text

pub record ChainHeader : Type 0 where
  pub number : ℕ
  pub hash : Text
  pub parent_hash : Text

abbrev pub checkpoint_of : ChainHeader → Checkpoint
checkpoint_of h = record { number = h.number; hash = h.hash }

-- A row of the stored array, its number in decimal.
pub record StoredCheckpoint : Type 0 where
  pub number : Text
  pub hash : Text

abbrev pub Document : Type 0
Document = Option (List StoredCheckpoint)

-- One object of the `storedCheckpoints` schema, converted.
parse_row : StoredCheckpoint → Option Checkpoint
parse_row row =
    if is_decimal row.number && is_hex 64 row.hash
    then some (record { number = number row.number; hash = b'0' ∷ b'x' ∷ drop 2 row.hash })
    else none

parse_rows : List StoredCheckpoint → Option (List Checkpoint)
parse_rows [] = some []
parse_rows (row ∷ rows) = elim (parse_row row) [
  | none ↦ none
  | some c ↦ elim (parse_rows rows) [ none ↦ none | some cs ↦ some (c ∷ cs) ]
]

-- The loop that compares each number with the one before it.
contiguous : List Checkpoint → Bool
contiguous [] = true
contiguous (c ∷ []) = true
contiguous (c ∷ d ∷ cs) = d.number == c.number + 1 && contiguous (d ∷ cs)

unfoldable pub parse_checkpoints : Document → Result Fault (List Checkpoint)
unfolding parse_row parse_rows contiguous
parse_checkpoints none = err invalid_history
parse_checkpoints (some rows) = elim (parse_rows rows) [
  | none ↦ err invalid_history
  | some cs ↦ if contiguous cs then ok cs else err not_contiguous
]

store_row : Checkpoint → StoredCheckpoint
store_row c = record { number = decimal c.number; hash = c.hash }

unfoldable pub serialize_checkpoints : List Checkpoint → Document
unfolding store_row
serialize_checkpoints cs = some (map store_row cs)

-- The loop of `findCommonAncestor`, over the checkpoints newest first. A height that the source may
-- set to -1 is a bound from above here: `limit` is the confirmed height plus one.
module _ {S : Type 0} (read : ℕ → Exec S Fault ChainHeader) (limit : ℕ) where
  search_back : List Checkpoint → Exec S Fault (Option Checkpoint)
  search_back [] = pure none
  search_back (c ∷ cs) =
      let older = search_back cs in
      if leb limit c.number then older else (do
        canonical ← read c.number
        if same_hex canonical.hash c.hash then pure (some c) else older)

unfoldable pub find_common_ancestor :
    {S : Type 0}
    → List Checkpoint
    → ℕ
    → (ℕ → Exec S Fault ChainHeader)
    → Exec S Fault (Option Checkpoint)
unfolding search_back
find_common_ancestor checkpoints limit read = search_back read limit (reverse checkpoints)

-- One round of the loop of `checkpointTail`.
extend_tail : List Checkpoint → ChainHeader → Result Fault (List Checkpoint)
extend_tail tail header = elim (last? tail) [
  | none ↦ ok (tail ++ checkpoint_of header ∷ [])
  | some prior ↦
      if leb header.number prior.number
      then err moves_backwards
      else if header.number == prior.number + 1 && not (same_hex header.parent_hash prior.hash)
      then err reorganized_headers
      else if ltb (prior.number + 1) header.number
      then ok (checkpoint_of header ∷ [])
      else ok (tail ++ checkpoint_of header ∷ [])
]

extend_all : List Checkpoint → List ChainHeader → Result Fault (List Checkpoint)
extend_all tail [] = ok tail
extend_all tail (header ∷ headers) = elim (extend_tail tail header) [
  | ok longer ↦ extend_all longer headers
  | err e ↦ err e
]

-- `tail.slice(-size)`, which is the whole list for size 0.
slice_last : ℕ → List Checkpoint → List Checkpoint
slice_last size cs = if size == 0 then cs else drop (length cs - size) cs

unfoldable pub checkpoint_tail :
    List Checkpoint → List ChainHeader → ℕ → Result Fault (List Checkpoint)
unfolding extend_tail extend_all slice_last
checkpoint_tail previous headers size = elim (extend_all previous headers) [
  | ok tail ↦ ok (slice_last size tail)
  | err e ↦ err e
]
