-- ===== src/Core/Address.antt =====
-- _backend/packages/core/src/addresses.ts
use enclave_developer.Prelude.{ℕ, Option, none, some, Bool, false, ◌&&◌, ltb}
use enclave_developer.Prelude.Text.{Text, is_hex, hex_number}

abbrev pub placeholder_max : ℕ
placeholder_max = 16

-- `none` is a value that is no string.
unfoldable pub is_configured_address : Option Text → Bool
is_configured_address none = false
is_configured_address (some value) = is_hex 40 value && ltb placeholder_max (hex_number value)
