-- ===== src/Indexer/Reorg/Chain.antt =====
-- Which headers `checkpointTail` of reorg.ts accepts after a history.
use enclave_developer.Prelude.{
  ℕ, ◌+◌, ◌<◌, ◌≡◌, refl, ◌↔◌, inl, inr, List, [], ◌∷◌, ◌++◌, Option, none, some, true, arith,
  Bool-cases, Option-cases, last?, ltb, last?-append, Result, ok, err, Result-cases,
}
use enclave_developer.Prelude.Text.{same_hex}
use enclave_developer.Indexer.Reorg.{
  Checkpoint, ChainHeader, checkpoint_of, extend_tail, extend_all, checkpoint_tail,
}

-- A header may come after a checkpoint: it is higher, and directly above it names it as its parent.
abbrev pub Follows : Option Checkpoint → ChainHeader → Type 0
Follows none h = Unit {0}
Follows (some p) h =
    (p.number < h.number) × (h.number ≡ p.number + 1 → same_hex h.parent_hash p.hash ≡ true)

abbrev pub Chain : Option Checkpoint → List ChainHeader → Type 0
Chain prior [] = Unit {0}
Chain prior (h ∷ hs) = Follows prior h × Chain (some (checkpoint_of h)) hs

abbrev pub IsOk : {E A : Type 0} → Result E A → Type 0
IsOk (ok a) = Unit {0}
IsOk (err e) = ⊥

extend_tail-last :
    (tail : List Checkpoint) (header : ChainHeader) {longer : List Checkpoint}
    → extend_tail tail header ≡ ok longer
    → (last? longer ≡ some (checkpoint_of header)) × Follows (last? tail) header
unfolding extend_tail
extend_tail-last tail header e = elim (Option-cases (last? tail)) [
  | inl empty ↦ ground (arith, last?-append tail (checkpoint_of header))
  | inr (prior, found) ↦ rw found (ground (arith, last?-append tail (checkpoint_of header)))
]

extend_tail_of_Follows :
    (tail : List Checkpoint) (header : ChainHeader)
    → Follows (last? tail) header
    → (longer : List Checkpoint) × (extend_tail tail header ≡ ok longer)
unfolding extend_tail
extend_tail_of_Follows tail header h = elim (Option-cases (last? tail)) [
  | inl empty ↦ rw (empty, extend_tail) (tail ++ checkpoint_of header ∷ [], refl)
  | inr (prior, found) ↦
      let fits = rw found at h in
      elim (Bool-cases (ltb (prior.number + 1) header.number)) [
        | inl gap ↦ (checkpoint_of header ∷ [], ground arith)
        | inr next ↦ (tail ++ checkpoint_of header ∷ [], ground arith)
      ]
]

extend_all-Chain :
    (tail : List Checkpoint) (headers : List ChainHeader)
    → IsOk (extend_all tail headers) ↔ Chain (last? tail) headers
unfolding extend_all
extend_all-Chain tail [] = (λ h. tt, λ h. tt)
extend_all-Chain tail (header ∷ headers) = elim (Result-cases (extend_tail tail header)) [
  | inl (t, one) ↦
      let (newest, fits) = extend_tail-last tail header one in
      let rest = extend_all-Chain t headers in
      rw (one, extend_all) (λ h. (fits, rw newest at (rest.0 h)), λ h. rest.1 (rw newest h.1))
  | inr (f, failed) ↦
      rw (failed, extend_all)
        (λ h. absurd h, λ h. ground (arith, (extend_tail_of_Follows tail header h.0).1))
]

-- `checkpointTail` returns a window exactly if the headers form a chain after the last checkpoint:
-- each is higher than the one before, and directly above it names it as its parent.
pub checkpoint_tail-Chain :
    (previous : List Checkpoint) (headers : List ChainHeader) (size : ℕ)
    → IsOk (checkpoint_tail previous headers size) ↔ Chain (last? previous) headers
unfolding checkpoint_tail
checkpoint_tail-Chain previous headers size =
    let accepted = extend_all-Chain previous headers in
    elim (Result-cases (extend_all previous headers)) [
      | inl (t, all) ↦ rw (all, checkpoint_tail) (λ h. accepted.0 (rw all tt), λ h. tt)
      | inr (f, failed) ↦
          rw (failed, checkpoint_tail) (λ h. absurd h, λ h. rw failed at (accepted.1 h))
    ]
