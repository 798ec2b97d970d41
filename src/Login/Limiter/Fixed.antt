-- ===== src/Login/Limiter/Fixed.antt =====
-- `take` of _backend/apps/api/src/wallet-auth.ts against a limiter of fixed windows, which keeps
-- the last window of every key and no entries.
use enclave_developer.Prelude.{
  ℕ, ◌+◌, ◌-◌, ◌<◌, ◌≤◌, ◌∙◌, ap, ◌≡◌, refl, sym, List, [], ◌∷◌, ◌++◌, Option, none, some, true,
  false, ◌&&◌, leb, if◌then◌else◌, update_where, length, any, arith, Bool-cases, Option-cases, inl,
  inr, ◌⊎◌,
}
use enclave_developer.Prelude.Text.{Text, same, same_refl, same_iff}
use enclave_developer.Login.Limiter.{
  Quota, Window, Entry, has_key, remove, assign, touch, make_room, take, window_at, current_window,
}
use enclave_developer.Login.Limiter.Bounded.{any_of_window_at}
use mathlib.Core.Path.{subst}

-- What every key has used of the last window that began for it.
abbrev pub Counters : Type 0
Counters = Text → Option Window

-- The window that still runs at a moment; it ends at its reset.
abbrev pub running : ℕ → Option Window → Option Window
running now none = none
running now (some v) = if leb v.reset now then none else some v

-- A request without a running window begins one of a minute.
abbrev pub begun : ℕ → Option Window → Window
begun now none = record { count = 0; reset = now + 60_000 }
begun now (some v) = v

abbrev pub set_window : Text → Window → Counters → Counters
set_window k v f j = if same k j then some v else f j

-- A request counts in the running window of its key, and is granted as long as the window has
-- counted fewer than the limit.
unfoldable pub fixed_window : ℕ → Quota → Counters → ℕ × Counters
fixed_window now quota f =
    let v = begun now (running now (f quota.key)) in
    if leb quota.limit v.count
    then (v.reset - now, f)
    else (0, set_window quota.key (record v { count = v.count + 1 }) f)

-- Both have the same running windows from the moment on.
abbrev pub Agrees : ℕ → Counters → List Entry → Type 0
Agrees now f entries =
    (later : ℕ)
    → now ≤ later
    → (j : Text) → running later (window_at j entries) ≡ running later (f j)

current_window-begun :
    (now : ℕ) (o : Option Window) → current_window now o ≡ begun now (running now o)
current_window-begun now none = refl
current_window-begun now (some v) = ground arith

window_at-update_where :
    (k j : Text) (v : Window) (es : List Entry)
    → window_at j (update_where (has_key k) (λ e. record e { window = v }) es)
      ≡ (if same k j && any (has_key k) es then some v else window_at j es)
window_at-update_where k j v [] = ground arith
window_at-update_where k j v (e ∷ es) =
    ground
      (arith, window_at-update_where k j v es, same_iff e.key k, same_iff e.key j, same_iff k j)

window_at-append :
    (k j : Text) (v : Window) (es : List Entry)
    → any (has_key k) es ≡ false
    → window_at j (es ++ record { key = k; window = v } ∷ [])
      ≡ (if same k j then some v else window_at j es)
window_at-append k j v [] h = ground arith
window_at-append k j v (e ∷ es) h =
    ground (arith, window_at-append k j v es, same_iff e.key k, same_iff e.key j, same_iff k j)

-- `get` after `set`.
window_at-assign :
    (k j : Text) (v : Window) (es : List Entry)
    → window_at j (assign k v es) ≡ (if same k j then some v else window_at j es)
window_at-assign k j v es = elim (Bool-cases (any (has_key k) es)) [
  | inl known ↦ rw known (ground (arith, window_at-update_where k j v es))
  | inr new ↦ rw new (window_at-append k j v es new)
]

-- `get` after `delete`.
window_at-remove :
    (k j : Text) (es : List Entry)
    → window_at j (remove k es) ≡ (if same k j then none else window_at j es)
window_at-remove k j [] = ground arith
window_at-remove k j (e ∷ es) =
    ground (arith, window_at-remove k j es, same_iff e.key k, same_iff e.key j, same_iff k j)

-- Only a running window has counted anything.
touched_running :
    (now later : ℕ) (o : Option Window)
    → now ≤ later
    → 0 < (current_window now o).count
    → running later (some (current_window now o)) ≡ running later o
touched_running now later none l h = absurd (omega arith)
touched_running now later (some v) l h = ground arith

running-touch :
    (now later : ℕ) (k j : Text) (es : List Entry)
    → now ≤ later
    → 0 < (current_window now (window_at k es)).count
    → running later
        (window_at j (touch k (current_window now (window_at k es)) (window_at k es) es))
      ≡ running later (window_at j es)
running-touch now later k j es l h = elim (Option-cases (window_at k es)) [
  | inl new ↦ rw new refl
  | inr (u, known) ↦ rw known (elim (Bool-cases (same k j)) [
    | inl here ↦
        rw
          (
            window_at-assign k j (current_window now (some u)) (remove k es),
            here,
            sym ((same_iff k j).0 here),
            known,
          )
          (touched_running now later (some u) l
            (subst (λ o. 0 < (current_window now o).count) known h))
    | inr other ↦
        rw
          (
            window_at-assign k j (current_window now (some u)) (remove k es),
            other,
            window_at-remove k j es,
            other,
          )
          refl
  ])
]

-- The entry of a key leaves the windows of the others.
window_at-touch :
    (k j : Text) (v : Window) (o : Option Window) (es : List Entry)
    → same k j ≡ false
    → window_at j (touch k v o es) ≡ window_at j es
window_at-touch k j v none es other = refl
window_at-touch k j v (some u) es other =
    rw (window_at-assign k j v (remove k es), other, window_at-remove k j es, other) refl

-- The key is known, or there is a place for it.
abbrev pub HasRoom : ℕ → Text → List Entry → Type 0
HasRoom capacity k es = (any (has_key k) es ≡ true) ⊎ (length es < capacity)

make_room_id :
    (capacity : ℕ) (k : Text) (es : List Entry)
    → HasRoom capacity k es
    → make_room capacity k es ≡ es
make_room_id capacity k es h = ground arith

touch-HasRoom :
    (capacity : ℕ) (k : Text) (v : Window) (es : List Entry)
    → HasRoom capacity k es
    → HasRoom capacity k (touch k v (window_at k es) es)
touch-HasRoom capacity k v es h = elim (Option-cases (window_at k es)) [
  | inl new ↦ rw new h
  | inr (u, known) ↦ rw known (
      inl (
        any_of_window_at k (assign k v (remove k es)) v
          (rw (window_at-assign k k v (remove k es), same_refl k) refl)))
]

window_at-grant :
    (capacity : ℕ) (k j : Text) (v u : Window) (es : List Entry)
    → HasRoom capacity k es
    → window_at j (assign k u (make_room capacity k (touch k v (window_at k es) es)))
      ≡ (if same k j then some u else window_at j es)
window_at-grant capacity k j v u es h =
    rw (make_room_id capacity k _ (touch-HasRoom capacity k v es h)) (
      rw (window_at-assign k j u (touch k v (window_at k es) es)) (elim (Bool-cases (same k j)) [
        | inl here ↦ rw here refl
        | inr other ↦ rw other (window_at-touch k j v (window_at k es) es other)
      ]))

same_window :
    (now : ℕ) (k : Text) (f : Counters) (entries : List Entry)
    → Agrees now f entries
    → current_window now (window_at k entries) ≡ begun now (running now (f k))
same_window now k f entries a =
    current_window-begun now (window_at k entries) ∙ ap (begun now) (a now (omega arith) k)

module _ (capacity now : ℕ) (quota : Quota) (f : Counters) (entries : List Entry)
    (positive : 0 < quota.limit) (room : HasRoom capacity quota.key entries)
    (agrees : Agrees now f entries) where
  abbrev counted : Window
  counted = begun now (running now (f quota.key))

  denied_touch :
      leb quota.limit counted.count ≡ true
      → Agrees now f (touch quota.key counted (window_at quota.key entries) entries)
  denied_touch denied later l j =
      let same_count = same_window now quota.key f entries agrees in
      subst
        (λ v.
          running later (window_at j (touch quota.key v (window_at quota.key entries) entries))
          ≡ running later (window_at j entries))
        same_count (running-touch now later quota.key j entries l (rw same_count (ground arith)))
      ∙ agrees later l j

  granted_assign :
      (u : Window)
      → Agrees now (set_window quota.key u f) (
          assign quota.key u (
            make_room capacity quota.key
              (touch quota.key counted (window_at quota.key entries) entries)))
  granted_assign u later l j =
      rw (window_at-grant capacity quota.key j counted u entries room)
        (elim (Bool-cases (same quota.key j)) [
          | inl here ↦ rw here refl
          | inr other ↦ rw other (agrees later l j)
        ])

  -- If a limiter of fixed windows of one minute, which keeps the last window of every key, has the
  -- same running windows from now on as `take`, the limit is not 0, and the key is known to `take`
  -- or there is a place for it, then `take` answers as that limiter does, and both have the same
  -- running windows at every later time too.
  pub take-fixed_window :
      ((take capacity now quota entries).0 ≡ (fixed_window now quota f).0)
      × Agrees now (fixed_window now quota f).1 (take capacity now quota entries).1
  unfolding take fixed_window
  take-fixed_window =
      rw (same_window now quota.key f entries agrees)
        (elim (Bool-cases (leb quota.limit counted.count)) [
          | inl denied ↦ rw denied (refl, denied_touch denied)
          | inr granted ↦ rw granted (refl, granted_assign _)
        ])
