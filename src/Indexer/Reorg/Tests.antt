-- ===== src/Indexer/Reorg/Tests.antt =====
-- Runs of reorg.ts on two short chains, and the theorems at them.
use enclave_developer.Prelude.{
  ℕ, ◌≡◌, refl, ◌↔◌, ◌<◌, ◌≤◌, ◌++◌, List, [], ◌∷◌, none, some, true, ◌==◌, if◌then◌else◌, pure,
  ◌>>=◌, arith, length, last?, All, ok, err, Exec,
}
use enclave_developer.Prelude.Text.{Text, codes, same_hex, is_hex}
use enclave_developer.Indexer.Fault.{Fault, missing_header}
use enclave_developer.Indexer.Reorg.{
  Checkpoint, ChainHeader, checkpoint_of, parse_checkpoints, serialize_checkpoints,
  find_common_ancestor, checkpoint_tail,
}
use enclave_developer.Indexer.Reorg.Window.{IsContiguous, checkpoint_tail_window}
use enclave_developer.Indexer.Reorg.Chain.{Chain, IsOk, checkpoint_tail-Chain}
use enclave_developer.Indexer.Reorg.Ancestor.{
  Passed, Answered, find_common_ancestor_latest, find_common_ancestor-none,
}
use enclave_developer.Indexer.Reorg.Storage.{HasHash, parse-serialize, parse_checkpoints_sound}

abbrev long_hash : Text
long_hash = codes "0x0000000000000000000000000000000000000000000000000000000000000abc"

abbrev point : ℕ → Text → Checkpoint
point n h = record { number = n; hash = h }

abbrev header : ℕ → Text → Text → ChainHeader
header n h p = record { number = n; hash = h; parent_hash = p }

-- The chain has the block 7 of the history and another block 8.
abbrev answer : ℕ → Exec ℕ Fault ChainHeader
answer n s =
    if n == 7
    then (ok (header n (codes "A") (codes "0")), s)
    else if n == 8
    then (ok (header n (codes "b") (codes "a")), s)
    else (err missing_header, s)

abbrev history : List Checkpoint
history = point 7 (codes "a") ∷ point 8 (codes "c") ∷ point 9 (codes "d") ∷ []

find_run : (find_common_ancestor history 9 answer 0).0 ≡ ok (some (point 7 (codes "a")))
unfolding find_common_ancestor ◌>>=◌ pure same_hex
find_run = refl

find_common_ancestor_latest_example :
    (older newer : List Checkpoint) × (history ≡ older ++ point 7 (codes "a") ∷ newer)
    × All (Passed answer 9) newer
    × (7 < 9)
    × Answered answer true (point 7 (codes "a"))
find_common_ancestor_latest_example = find_common_ancestor_latest answer history 9 0 find_run

find_none_run : (find_common_ancestor (point 8 (codes "c") ∷ []) 9 answer 0).0 ≡ ok none
unfolding find_common_ancestor ◌>>=◌ pure same_hex
find_none_run = refl

find_common_ancestor-none_example : All (Passed answer 9) (point 8 (codes "c") ∷ [])
find_common_ancestor-none_example =
    find_common_ancestor-none answer (point 8 (codes "c") ∷ []) 9 0 find_none_run

-- Two headers after a history of two; the window keeps two checkpoints.
abbrev previous : List Checkpoint
previous = point 4 (codes "d") ∷ point 5 (codes "e") ∷ []

abbrev next_header : ChainHeader
next_header = header 6 (codes "f") (codes "E")

abbrev last_header : ChainHeader
last_header = header 7 (codes "a") (codes "F")

abbrev window : List Checkpoint
window = point 6 (codes "f") ∷ point 7 (codes "a") ∷ []

tail_run : checkpoint_tail previous (next_header ∷ last_header ∷ []) 2 ≡ ok window
unfolding checkpoint_tail same_hex
tail_run = refl

checkpoint_tail_window_example :
    IsContiguous window × (length window ≤ 2) × (last? window ≡ some (checkpoint_of last_header))
checkpoint_tail_window_example =
    checkpoint_tail_window previous (next_header ∷ []) last_header 2 (refl, tt) (omega arith)
      tail_run

checkpoint_tail-Chain_example :
    IsOk (checkpoint_tail previous (next_header ∷ last_header ∷ []) 2)
    ↔ Chain (last? previous) (next_header ∷ last_header ∷ [])
checkpoint_tail-Chain_example = checkpoint_tail-Chain previous (next_header ∷ last_header ∷ []) 2

abbrev saved : List Checkpoint
saved = point 99 long_hash ∷ point 100 long_hash ∷ []

parse-serialize_example : parse_checkpoints (serialize_checkpoints saved) ≡ ok saved
unfolding is_hex
parse-serialize_example = parse-serialize saved (refl, tt) (refl, (refl, tt))

parse_checkpoints_sound_example : IsContiguous saved × All HasHash saved
parse_checkpoints_sound_example =
    parse_checkpoints_sound (serialize_checkpoints saved) parse-serialize_example
