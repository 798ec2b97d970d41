-- ===== src/Login/Limiter/Bounded.antt =====
-- The number of the entries that `take` of _backend/apps/api/src/wallet-auth.ts leaves behind, and
-- how `delete` and `set` change it.
use enclave_developer.Prelude.{
  ℕ, ◌+◌, ◌≤◌, ◌<◌, ◌≡◌, refl, List, [], ◌∷◌, some, Bool, true, leb, update_where, length, any,
  arith, Bool-cases, Option-cases, inl, inr, length-append, leb→le,
}
use enclave_developer.Prelude.Text.{Text, same_refl}
use enclave_developer.Login.Limiter.{
  Quota, Window, Entry, has_key, remove, assign, touch, drop_oldest, make_room, take, window_at,
  current_window,
}

length-remove : (k : Text) (es : List Entry) → length (remove k es) ≤ length es
length-remove k [] = omega arith
length-remove k (e ∷ es) = ground (arith, length-remove k es)

length-remove_known :
    (k : Text) (es : List Entry) → any (has_key k) es ≡ true → length (remove k es) < length es
length-remove_known k [] h = cc
length-remove_known k (e ∷ es) h = ground (arith, length-remove k es, length-remove_known k es)

length-update_where {ℓ} :
    {A : Type ℓ} (p : A → Bool) (f : A → A) (xs : List A) → length (update_where p f xs) ≡ length xs
length-update_where p f [] = refl
length-update_where p f (x ∷ xs) = omega (arith, length-update_where p f xs)

length-assign : (k : Text) (v : Window) (es : List Entry) → length (assign k v es) ≤ length es + 1
length-assign k v es = ground (
  arith,
  length-update_where (has_key k) (λ e. record e { window = v }) es,
  length-append es (record { key = k; window = v } ∷ []),
)

length-assign_known :
    (k : Text) (v : Window) (es : List Entry)
    → any (has_key k) es ≡ true
    → length (assign k v es) ≡ length es
length-assign_known k v es h = rw h (length-update_where (has_key k) _ es)

pub any_of_window_at :
    (k : Text) (es : List Entry) (v : Window) → window_at k es ≡ some v → any (has_key k) es ≡ true
any_of_window_at k [] v h = cc
any_of_window_at k (e ∷ es) v h = ground (arith, any_of_window_at k es v)

length-touch :
    (k : Text) (v : Window) (es : List Entry) → length (touch k v (window_at k es) es) ≤ length es
length-touch k v es = elim (Option-cases (window_at k es)) [
  | inl new ↦ rw new (omega arith)
  | inr (u, known) ↦ rw known (
      omega (
        arith,
        length-assign k v (remove k es),
        length-remove_known k es (any_of_window_at k es u known),
      ))
]

length-drop_oldest : (es : List Entry) → 1 ≤ length es → length (drop_oldest es) < length es
length-drop_oldest [] h = absurd (omega arith)
length-drop_oldest (e ∷ es) h = length-remove_known e.key (e ∷ es) (ground (arith, same_refl e.key))

length-admit :
    (capacity : ℕ) (k : Text) (v : Window) (es : List Entry)
    → 1 ≤ capacity
    → length es ≤ capacity
    → length (assign k v (make_room capacity k es)) ≤ capacity
length-admit capacity k v es c h = elim (Bool-cases (any (has_key k) es)) [
  | inl known ↦ rw known (omega (arith, length-assign_known k v es known))
  | inr new ↦ elim (Bool-cases (leb capacity (length es))) [
    | inl full ↦
        rw (new, full)
          (omega (
            arith,
            leb→le capacity (length es) full,
            length-assign k v (drop_oldest es),
            length-drop_oldest es (omega (arith, leb→le capacity (length es) full)),
          ))
    | inr room ↦ rw (new, room) (ground (arith, length-assign k v es))
  ]
]

pub take_bounded :
    (capacity now : ℕ) (quota : Quota) (entries : List Entry)
    → 1 ≤ capacity
    → length entries ≤ capacity
    → length (take capacity now quota entries).1 ≤ capacity
unfolding take
take_bounded capacity now quota entries c h =
    let v = current_window now (window_at quota.key entries) in
    elim (Bool-cases (leb quota.limit v.count)) [
      | inl denied ↦ rw denied (omega (arith, length-touch quota.key v entries))
      | inr granted ↦ rw granted (
          length-admit capacity quota.key (record v { count = v.count + 1 })
            (touch quota.key v (window_at quota.key entries) entries) c
            (omega (arith, length-touch quota.key v entries)))
    ]
