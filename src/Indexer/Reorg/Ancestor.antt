-- ===== src/Indexer/Reorg/Ancestor.antt =====
-- `findCommonAncestor` of reorg.ts against what the chain answered.
use mathlib.Core.List.{reverse-append, reverse-reverse, reverse-cons, append_assoc}
use mathlib.Core.Path.{subst}
use enclave_developer.Prelude.{
  ℕ, ◌≤◌, ◌<◌, ◌≡◌, refl, sym, ap, ◌∙◌, ◌⊎◌, inl, inr, List, [], ◌∷◌, ◌++◌, reverse, none, some,
  true, false, Bool, arith, Keeps, if-Keeps, >>=-Keeps, pure-Keeps, ◌>>=◌, pure, Bool-cases, leb,
  All, All-reverse, ok, Result-cases, Exec,
}
use enclave_developer.Prelude.Text.{same_hex}
use enclave_developer.Indexer.Fault.{Fault}
use enclave_developer.Indexer.Reorg.{Checkpoint, ChainHeader, search_back, find_common_ancestor}

module _ {S : Type 0} (read : ℕ → Exec S Fault ChainHeader) where
  -- Some read of the checkpoint's height answered with a header whose hash is, or is not, its own.
  abbrev pub Answered : Bool → Checkpoint → Type 0
  Answered b c =
      (s : S) × (h : ChainHeader) × ((read c.number s).0 ≡ ok h) × (same_hex h.hash c.hash ≡ b)

  -- A checkpoint above the limit, or one that the chain has replaced.
  abbrev pub Passed : ℕ → Checkpoint → Type 0
  Passed limit c = (limit ≤ c.number) ⊎ Answered false c

  abbrev pub Split : ℕ → Checkpoint → List Checkpoint → Type 0
  Split limit c cs =
      (newer older : List Checkpoint) × (cs ≡ newer ++ c ∷ older)
      × All (Passed limit) newer
      × (c.number < limit)
      × Answered true c

  Split-cons :
      (limit : ℕ) (c d : Checkpoint) (cs : List Checkpoint)
      → Passed limit d
      → Split limit c cs
      → Split limit c (d ∷ cs)
  Split-cons limit c d cs p (newer, older, e, ps, below, hit) =
      (d ∷ newer, older, ap (◌∷◌ d) e, (p, ps), below, hit)

  search_back-Split :
      (limit : ℕ) (cs : List Checkpoint) (s : S) {c : Checkpoint}
      → (search_back read limit cs s).0 ≡ ok (some c)
      → Split limit c cs
  unfolding search_back ◌>>=◌ pure
  search_back-Split limit [] s e = cc
  search_back-Split limit (d ∷ cs) s {c} e = elim (Bool-cases (leb limit d.number)) [
    | inl above ↦
        Split-cons limit c d cs (inl (ground arith)) (search_back-Split limit cs s (ground arith))
    | inr below ↦ elim (Result-cases (read d.number s).0) [
      | inl (h, answer) ↦ elim (Bool-cases (same_hex h.hash d.hash)) [
        | inl hit ↦
            let found : d ≡ c = ground arith in
            subst (λ x. Split limit x (d ∷ cs)) found
              ([], cs, refl, tt, ground arith, (s, h, answer, hit))
        | inr miss ↦
            Split-cons limit c d cs (inr (s, h, answer, miss))
              (search_back-Split limit cs (read d.number s).1 (ground arith))
      ]
      | inr (f, failed) ↦ ground arith
    ]
  ]

  search_back-Passed :
      (limit : ℕ) (cs : List Checkpoint) (s : S)
      → (search_back read limit cs s).0 ≡ ok none
      → All (Passed limit) cs
  unfolding search_back ◌>>=◌ pure
  search_back-Passed limit [] s e = tt
  search_back-Passed limit (d ∷ cs) s e = elim (Bool-cases (leb limit d.number)) [
    | inl above ↦ (inl (ground arith), search_back-Passed limit cs s (ground arith))
    | inr below ↦ elim (Result-cases (read d.number s).0) [
      | inl (h, answer) ↦ elim (Bool-cases (same_hex h.hash d.hash)) [
        | inl hit ↦ ground arith
        | inr miss ↦ (
          inr (s, h, answer, miss),
          search_back-Passed limit cs (read d.number s).1 (ground arith),
        )
      ]
      | inr (f, failed) ↦ ground arith
    ]
  ]

  -- The checkpoint that `findCommonAncestor` returns is one of those given, lies below the limit
  -- and was answered with its own hash; every checkpoint behind it lies above the limit or was
  -- answered with another hash.
  pub find_common_ancestor_latest :
      (checkpoints : List Checkpoint) (limit : ℕ) (s : S) {c : Checkpoint}
      → (find_common_ancestor checkpoints limit read s).0 ≡ ok (some c)
      → (older newer : List Checkpoint) × (checkpoints ≡ older ++ c ∷ newer)
        × All (Passed limit) newer
        × (c.number < limit)
        × Answered true c
  unfolding find_common_ancestor
  find_common_ancestor_latest checkpoints limit s {c} e =
      let (newer, older, split, passed, below, hit) =
        search_back-Split limit (reverse checkpoints) s e in
      (
        reverse older,
        reverse newer,
        sym (reverse-reverse checkpoints)
            ∙ ap reverse split
            ∙ reverse-append newer (c ∷ older)
            ∙ rw (reverse-cons c older, append_assoc) refl,
        All-reverse (Passed limit) newer passed,
        below,
        hit,
      )

  -- If `findCommonAncestor` finds no checkpoint, every one of those given lies above the limit or
  -- was answered with another hash.
  pub find_common_ancestor-none :
      (checkpoints : List Checkpoint) (limit : ℕ) (s : S)
      → (find_common_ancestor checkpoints limit read s).0 ≡ ok none
      → All (Passed limit) checkpoints
  unfolding find_common_ancestor
  find_common_ancestor-none checkpoints limit s e =
      subst (All (Passed limit)) (reverse-reverse checkpoints) (
        All-reverse (Passed limit) (reverse checkpoints)
          (search_back-Passed limit (reverse checkpoints) s e))

module _ {S : Type 0} (P : S → Type 0) (read : ℕ → Exec S Fault ChainHeader) where
  search_back-Keeps :
      (limit : ℕ) (cs : List Checkpoint)
      → ((n : ℕ) → Keeps P (read n))
      → Keeps P (search_back read limit cs)
  unfolding search_back
  search_back-Keeps limit [] h = pure-Keeps none
  search_back-Keeps limit (c ∷ cs) h =
      let older = search_back-Keeps limit cs h in
      if-Keeps (leb limit c.number) older (
        >>=-Keeps (h c.number)
          λ canonical. if-Keeps (same_hex canonical.hash c.hash) (pure-Keeps (some c)) older)

  -- The search does to the state what the reads do.
  pub find_common_ancestor-Keeps :
      (cs : List Checkpoint) (limit : ℕ)
      → ((n : ℕ) → Keeps P (read n))
      → Keeps P (find_common_ancestor cs limit read)
  unfolding find_common_ancestor
  find_common_ancestor-Keeps cs limit h = search_back-Keeps limit (reverse cs) h
