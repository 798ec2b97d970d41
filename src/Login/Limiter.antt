-- ===== src/Login/Limiter.antt =====
-- `MemoryWalletLoginLimiter` of _backend/apps/api/src/wallet-auth.ts. A `Map` is the list of its
-- entries in the order of their insertion; the time is an argument.
pub mod Bounded
pub mod Fixed
use enclave_developer.Prelude.{
  ℕ, ◌+◌, ◌-◌, List, [], ◌∷◌, ◌++◌, Option, none, some, Bool, true, false, ◌&&◌, not, ltb, leb,
  if◌then◌else◌, find_first, keep_if, update_where, length, any,
}
use enclave_developer.Prelude.Text.{Text, same}

pub record Quota : Type 0 where
  pub key : Text
  pub limit : ℕ

-- The value of an entry.
pub record Window : Type 0 where
  pub count : ℕ
  pub reset : ℕ

pub record Entry : Type 0 where
  pub key : Text
  pub window : Window

abbrev pub limit_window_ms : ℕ
limit_window_ms = 60000

abbrev pub has_key : Text → Entry → Bool
has_key k e = same e.key k

abbrev pub window_of : Option Entry → Option Window
window_of none = none
window_of (some e) = some e.window

-- `entries.get(key)`
abbrev pub window_at : Text → List Entry → Option Window
window_at k entries = window_of (find_first (has_key k) entries)

-- `entries.delete(key)`
abbrev pub remove : Text → List Entry → List Entry
remove k entries = keep_if (λ e. not (has_key k e)) entries

-- `entries.set(key, value)`: a key that is there keeps its place.
abbrev pub assign : Text → Window → List Entry → List Entry
assign k v entries =
    if any (has_key k) entries
    then update_where (has_key k) (λ e. record e { window = v }) entries
    else entries ++ record { key = k; window = v } ∷ []

-- The window that counts now.
abbrev pub current_window : ℕ → Option Window → Window
current_window now none = record { count = 0; reset = now + limit_window_ms }
current_window now (some v) =
    if ltb now v.reset then v else record { count = 0; reset = now + limit_window_ms }

-- A caller that is known moves to the end, also when it is denied.
abbrev pub touch : Text → Window → Option Window → List Entry → List Entry
touch k v none entries = entries
touch k v (some _) entries = assign k v (remove k entries)

-- The oldest entry goes when a new key finds the map full.
abbrev pub drop_oldest : List Entry → List Entry
drop_oldest [] = []
drop_oldest (e ∷ entries) = remove e.key (e ∷ entries)

abbrev pub make_room : ℕ → Text → List Entry → List Entry
make_room capacity k entries =
    if not (any (has_key k) entries) && leb capacity (length entries)
    then drop_oldest entries
    else entries

-- The time to wait, 0 if the request is granted, and the entries left behind.
unfoldable pub take : ℕ → ℕ → Quota → List Entry → ℕ × List Entry
take capacity now quota entries =
    let previous = window_at quota.key entries in
    let v = current_window now previous in
    let touched = touch quota.key v previous entries in
    if leb quota.limit v.count then (v.reset - now, touched) else (
      0,
      assign quota.key (record v { count = v.count + 1 }) (make_room capacity quota.key touched),
    )
