-- ===== src/Indexer/Reorg/Storage.antt =====
-- The stored form of the checkpoints in reorg.ts, and reading it back.
use enclave_developer.Prelude.{
  ℕ, ◌≡◌, ◌↔◌, refl, inl, inr, List, [], ◌∷◌, map, none, some, true, arith, Option-cases, drop, All,
  ok,
}
use enclave_developer.Prelude.Text.{Text, is_hex}
use enclave_developer.Prelude.Decimal.{number-decimal, is_decimal-decimal}
use enclave_developer.Indexer.Reorg.{
  Checkpoint, StoredCheckpoint, Document, parse_row, parse_rows, contiguous, parse_checkpoints,
  store_row, serialize_checkpoints,
}
use enclave_developer.Indexer.Reorg.Window.{IsContiguous}

contiguous-IsContiguous : (cs : List Checkpoint) → (contiguous cs ≡ true) ↔ IsContiguous cs
unfolding contiguous
contiguous-IsContiguous [] = (λ h. tt, λ h. refl)
contiguous-IsContiguous (c ∷ []) = (λ h. tt, λ h. refl)
contiguous-IsContiguous (c ∷ d ∷ cs) =
    let (to, from) = contiguous-IsContiguous (d ∷ cs) in
    (λ h. (ground arith, to (ground arith)), λ h. ground (arith, from h.1))

-- The hash has the form that the schema asks for.
abbrev pub HasHash : Checkpoint → Type 0
HasHash c = is_hex 64 c.hash ≡ true

-- A hexadecimal text is its prefix and its digits.
hex_prefix : (n : ℕ) (s : Text) → is_hex n s ≡ true → b'0' ∷ b'x' ∷ drop 2 s ≡ s
unfolding is_hex
hex_prefix n [] h = cc
hex_prefix n (a ∷ []) h = cc
hex_prefix n (a ∷ b ∷ s) h = ground arith

parse_row-store_row : (c : Checkpoint) → HasHash c → parse_row (store_row c) ≡ some c
unfolding parse_row store_row
parse_row-store_row c h =
    ground (arith, hex_prefix 64 c.hash h, number-decimal c.number, is_decimal-decimal c.number)

parse_rows-map : (cs : List Checkpoint) → All HasHash cs → parse_rows (map store_row cs) ≡ some cs
unfolding parse_rows
parse_rows-map [] h = refl
parse_rows-map (c ∷ cs) h = ground (arith, parse_row-store_row c h.0, parse_rows-map cs h.1)

-- A contiguous history whose hashes have the form of the schema is read back from its stored form
-- as it was.
pub parse-serialize :
    (cs : List Checkpoint)
    → IsContiguous cs
    → All HasHash cs
    → parse_checkpoints (serialize_checkpoints cs) ≡ ok cs
unfolding parse_checkpoints serialize_checkpoints
parse-serialize cs h k = ground (arith, parse_rows-map cs k, (contiguous-IsContiguous cs).1 h)

-- What is read from any stored document is contiguous, and its hashes are well formed.
parse_row-HasHash : (row : StoredCheckpoint) {c : Checkpoint} → parse_row row ≡ some c → HasHash c
unfolding parse_row
parse_row-HasHash row {c} e = ground (arith, hex_prefix 64 row.hash)

parse_rows-HasHash :
    (rows : List StoredCheckpoint) {cs : List Checkpoint}
    → parse_rows rows ≡ some cs
    → All HasHash cs
unfolding parse_rows
parse_rows-HasHash [] e = ground arith
parse_rows-HasHash (row ∷ rows) e = elim (Option-cases (parse_row row)) [
  | inl bad ↦ ground arith
  | inr (c, one) ↦ elim (Option-cases (parse_rows rows)) [
    | inl bad ↦ ground arith
    | inr (cs, more) ↦
        let first = parse_row-HasHash row one in
        let rest = parse_rows-HasHash rows more in ground arith
  ]
]

-- What `parseCheckpoints` reads from any stored document is contiguous, and each hash has the form
-- of the schema.
pub parse_checkpoints_sound :
    (document : Document) {cs : List Checkpoint}
    → parse_checkpoints document ≡ ok cs
    → IsContiguous cs × All HasHash cs
unfolding parse_checkpoints
parse_checkpoints_sound none e = ground arith
parse_checkpoints_sound (some rows) {cs} e = elim (Option-cases (parse_rows rows)) [
  | inl bad ↦ ground arith
  | inr (ds, read) ↦
      let hashes = parse_rows-HasHash rows read in
      let chained = contiguous-IsContiguous ds in ground arith
]
