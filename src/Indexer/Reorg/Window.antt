-- ===== src/Indexer/Reorg/Window.antt =====
-- The bounded window of checkpoints that `checkpointTail` of reorg.ts keeps.
use enclave_developer.Prelude.{
  ℕ, zero, suc, ◌+◌, ◌-◌, ◌≤◌, ◌<◌, ◌≡◌, ◌≢◌, refl, Result-cases, inl, inr, List, [], ◌∷◌, ◌++◌,
  none, some, arith, Option-cases, length, drop, last?, length-drop, length-append, last?-append,
  ok,
}
use enclave_developer.Indexer.Reorg.{
  Checkpoint, ChainHeader, checkpoint_of, extend_tail, extend_all, slice_last, checkpoint_tail,
}

-- Each number is one more than the number before it.
abbrev pub IsContiguous : List Checkpoint → Type 0
IsContiguous [] = Unit {0}
IsContiguous (c ∷ []) = Unit {0}
IsContiguous (c ∷ d ∷ cs) = (d.number ≡ c.number + 1) × IsContiguous (d ∷ cs)

IsContiguous-snoc :
    (cs : List Checkpoint) (p c : Checkpoint)
    → last? cs ≡ some p
    → c.number ≡ p.number + 1
    → IsContiguous cs
    → IsContiguous (cs ++ c ∷ [])
IsContiguous-snoc [] p c e n h = tt
IsContiguous-snoc (a ∷ []) p c e n h = ground arith
IsContiguous-snoc (a ∷ b ∷ cs) p c e n h = (h.0, IsContiguous-snoc (b ∷ cs) p c e n h.1)

IsContiguous-tail :
    (c : Checkpoint) (cs : List Checkpoint) → IsContiguous (c ∷ cs) → IsContiguous cs
IsContiguous-tail c [] h = tt
IsContiguous-tail c (d ∷ cs) h = h.1

IsContiguous-drop : (n : ℕ) (cs : List Checkpoint) → IsContiguous cs → IsContiguous (drop n cs)
IsContiguous-drop zero cs h = h
IsContiguous-drop (suc n) [] h = h
IsContiguous-drop (suc n) (c ∷ cs) h = IsContiguous-drop n cs (IsContiguous-tail c cs h)

last?-cons : {A : Type 0} (x : A) (xs : List A) → last? (x ∷ xs) ≢ none
last?-cons x [] e = cc
last?-cons x (y ∷ xs) e = last?-cons y xs e

last?-drop : {A : Type 0} (n : ℕ) (xs : List A) → n < length xs → last? (drop n xs) ≡ last? xs
last?-drop zero xs h = refl
last?-drop (suc n) [] h = refl
last?-drop (suc n) (x ∷ []) h = absurd (omega arith)
last?-drop (suc n) (x ∷ y ∷ xs) h = last?-drop n (y ∷ xs) (omega arith)

-- What one header does to the window: it becomes the newest entry, and the window stays contiguous.
extend_tail-IsContiguous :
    (tail : List Checkpoint) (header : ChainHeader) {longer : List Checkpoint}
    → IsContiguous tail
    → extend_tail tail header ≡ ok longer
    → IsContiguous longer × (last? longer ≡ some (checkpoint_of header)) × (0 < length longer)
unfolding extend_tail
extend_tail-IsContiguous [] header h e = ground arith
extend_tail-IsContiguous (c ∷ cs) header h e = elim (Option-cases (last? (c ∷ cs))) [
  | inl missing ↦ absurd (last?-cons c cs missing)
  | inr (prior, found) ↦ ground (
    arith,
    IsContiguous-snoc (c ∷ cs) prior (checkpoint_of header) found,
    last?-append (c ∷ cs) (checkpoint_of header),
    length-append (c ∷ cs) (checkpoint_of header ∷ []),
  )
]

extend_all-IsContiguous :
    (tail : List Checkpoint) (headers : List ChainHeader) {longer : List Checkpoint}
    → IsContiguous tail
    → extend_all tail headers ≡ ok longer
    → IsContiguous longer
unfolding extend_all
extend_all-IsContiguous tail [] h e = ground arith
extend_all-IsContiguous tail (header ∷ headers) h e =
    elim (Result-cases (extend_tail tail header)) [
      | inl (t, one) ↦
          extend_all-IsContiguous t headers (extend_tail-IsContiguous tail header h one).0
            (rw (one, extend_all) at e)
      | inr (f, failed) ↦ ground arith
    ]

extend_all_newest :
    (tail : List Checkpoint) (headers : List ChainHeader) (header : ChainHeader)
    {longer : List Checkpoint}
    → IsContiguous tail
    → extend_all tail (headers ++ header ∷ []) ≡ ok longer
    → (last? longer ≡ some (checkpoint_of header)) × (0 < length longer)
unfolding extend_all
extend_all_newest tail [] header h e = elim (Result-cases (extend_tail tail header)) [
  | inl (t, one) ↦ let done = extend_tail-IsContiguous tail header h one in ground arith
  | inr (f, failed) ↦ ground arith
]
extend_all_newest tail (first ∷ headers) header h e = elim (Result-cases (extend_tail tail first)) [
  | inl (t, one) ↦
      extend_all_newest t headers header (extend_tail-IsContiguous tail first h one).0
        (rw (one, extend_all) at e)
  | inr (f, failed) ↦ ground arith
]

slice_last-IsContiguous :
    (size : ℕ) (cs : List Checkpoint) → IsContiguous cs → IsContiguous (slice_last size cs)
unfolding slice_last
slice_last-IsContiguous size cs h = ground (arith, IsContiguous-drop (length cs - size) cs h)

slice_last_bounds :
    (size : ℕ) (cs : List Checkpoint)
    → 0 < size
    → (length (slice_last size cs) ≤ size) × (0 < length cs → last? (slice_last size cs) ≡ last? cs)
unfolding slice_last
slice_last_bounds size cs p = (
  ground (arith, length-drop (length cs - size) cs),
  λ q. ground (arith, last?-drop (length cs - size) cs),
)

module _ (previous : List Checkpoint) (headers : List ChainHeader) (header : ChainHeader) (size : ℕ)
    {window : List Checkpoint} where
  -- The window that `checkpointTail` returns for a contiguous history and at least one header is
  -- contiguous, holds at most `size` checkpoints, and ends with the last header that was read, if
  -- `size` is not 0.
  pub checkpoint_tail_window :
      IsContiguous previous
      → 0 < size
      → checkpoint_tail previous (headers ++ header ∷ []) size ≡ ok window
      → IsContiguous window × (length window ≤ size) × (last? window ≡ some (checkpoint_of header))
  unfolding checkpoint_tail
  checkpoint_tail_window h p e =
      elim (Result-cases (extend_all previous (headers ++ header ∷ []))) [
        | inl (t, all) ↦
            let kept = extend_all-IsContiguous previous (headers ++ header ∷ []) h all in
            let newest = extend_all_newest previous headers header h all in
            let sliced = slice_last-IsContiguous size t kept in
            let bounds = slice_last_bounds size t p in
            let same_end = bounds.1 newest.1 in ground arith
        | inr (f, failed) ↦ ground arith
      ]
