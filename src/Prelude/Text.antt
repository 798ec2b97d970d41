-- ===== src/Prelude/Text.antt =====
-- Texts as lists of code points: hashes, addresses, keys and decimal numbers, with the tests and
-- the conversions that the program makes on them. Texts that are compared without regard to case
-- are hexadecimal, so `lower` lowers the ASCII letters only.
use enclave_developer.Prelude.Tests.{leb, ◌==◌, if◌then◌else◌, ==_iff, and-elim}
use enclave_developer.Prelude.Lists.{length, drop, all}
use Prim.Native.Nat.{ℕ, ◌+◌, ◌-◌, ◌*◌}
use Prim.Native.Char.{code}
use Prim.Native.String.{String}
use mathlib.Core.Path.{◌≡◌, refl}
use mathlib.Core.Logic.{◌↔◌}
use mathlib.Core.Bool.{Bool, true, false, ◌&&◌, ◌||◌}
use mathlib.Core.List.{List, [], ◌∷◌, map}
use native.Mathlib.Omega.{arith}

abbrev pub Text : Type 0
Text = List ℕ

abbrev pub codes : String → Text
codes String.[] = []
codes (String.◌∷◌ c s) = code c ∷ codes s

-- `a === b`
unfoldable pub same : Text → Text → Bool
same [] [] = true
same [] (_ ∷ _) = false
same (_ ∷ _) [] = false
same (a ∷ s) (b ∷ t) = a == b && same s t

same_sound : (s t : Text) → same s t ≡ true → s ≡ t
unfolding same
same_sound [] [] h = refl
same_sound [] (_ ∷ _) h = cc
same_sound (_ ∷ _) [] h = cc
same_sound (a ∷ s) (b ∷ t) h =
    let (p, q) = and-elim (a == b) (same s t) h in cc ((==_iff a b).0 p, same_sound s t q)

pub same_refl : (s : Text) → same s s ≡ true
unfolding same
same_refl [] = refl
same_refl (a ∷ s) = ground (arith, same_refl s)

pub same_iff : (s t : Text) → (same s t ≡ true) ↔ (s ≡ t)
same_iff s t = (same_sound s t, λ e. rw e (same_refl t))

lower_code : ℕ → ℕ
lower_code c = if leb b'A' c && leb c b'Z' then c + 32 else c

-- `s.toLowerCase()`
unfoldable pub lower : Text → Text
unfolding lower_code
lower s = map lower_code s

-- `a.toLowerCase() === b.toLowerCase()`
unfoldable pub same_hex : Text → Text → Bool
unfolding same lower
same_hex s t = same (lower s) (lower t)

pub same_hex_iff : (s t : Text) → (same_hex s t ≡ true) ↔ (lower s ≡ lower t)
unfolding same_hex
same_hex_iff s t = same_iff (lower s) (lower t)

pub same_hex_refl : (s : Text) → same_hex s s ≡ true
same_hex_refl s = (same_hex_iff s s).1 refl

abbrev pub is_digit : ℕ → Bool
is_digit c = leb b'0' c && leb c b'9'

abbrev pub is_hex_digit : ℕ → Bool
is_hex_digit c = is_digit c || (leb b'a' c && leb c b'f') || (leb b'A' c && leb c b'F')

-- `/^0x[0-9a-fA-F]{n}$/`
unfoldable pub is_hex : ℕ → Text → Bool
is_hex n (a ∷ b ∷ s) = a == b'0' && b == b'x' && length s == n && all is_hex_digit s
is_hex n _ = false

hex_value : ℕ → ℕ
hex_value c = if is_digit c then c - b'0' else if leb b'a' c then c - 87 else c - 55

hex_read : ℕ → Text → ℕ
unfolding hex_value
hex_read acc [] = acc
hex_read acc (c ∷ s) = hex_read (acc * 16 + hex_value c) s

-- `BigInt("0x…")`
unfoldable pub hex_number : Text → ℕ
unfolding hex_read
hex_number s = hex_read 0 (drop 2 s)
