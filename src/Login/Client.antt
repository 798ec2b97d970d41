-- ===== src/Login/Client.antt =====
-- `normalizeWalletClientIp` and `client` of _backend/apps/api/src/wallet-auth.ts. Node's test of an
-- address and its canonical spelling in a URL are parameters.
use enclave_developer.Prelude.{
  ℕ, List, Option, Bool, Result, [], if◌then◌else◌, none, some, leb, ltb, suc, ◌&&◌, ◌/◌, ◌∷◌, drop,
  err, length, zero, ◌++◌, ◌==◌, all, ◌%◌, ◌||◌, any, ok,
}
use enclave_developer.Prelude.Text.{Text, hex_number, codes, same}
use enclave_developer.Prelude.Decimal.{decimal}
use enclave_developer.Login.Store.{LoginFault, client_unavailable, proxy_unavailable}
use enclave_developer.Login.Service.{is_small_hex}

-- `isIP`, and the host of `http://[…]/` without its brackets.
pub record Network : Type 0 where
  pub ip_version : Text → ℕ
  pub url_host : Text → Text

-- `[a-f0-9]{1,4}`
abbrev is_group : Text → Bool
is_group s = leb 1 (length s) && leb (length s) 4 && all is_small_hex s

abbrev with_first : ℕ → Option (Text × Text) → Option (Text × Text)
with_first c none = none
with_first c (some (a, b)) = some (c ∷ a, b)

abbrev take : ℕ → Text → Text
take zero s = []
take (suc n) [] = []
take (suc n) (c ∷ s) = c ∷ take n s

-- The text before the first colon, and the text behind it.
abbrev split_colon : Text → Option (Text × Text)
split_colon [] = none
split_colon (c ∷ s) = if c == b':' then some ([], s) else with_first c (split_colon s)

-- The two groups of `/^::ffff:([a-f0-9]{1,4}):([a-f0-9]{1,4})$/`.
abbrev groups_of : Option (Text × Text) → Option (Text × Text)
groups_of none = none
groups_of (some (a, b)) = if is_group a && is_group b then some (a, b) else none

abbrev mapped : Text → Option (Text × Text)
mapped s = if same (take 7 s) (codes "::ffff:") then groups_of (split_colon (drop 7 s)) else none

abbrev hex_group : Text → ℕ
hex_group s = hex_number (codes "0x" ++ s)

-- The four bytes of two groups, with dots.
abbrev dotted : ℕ → ℕ → Text
dotted high low =
    decimal (high / 256)
    ++ (codes "."
        ++ (decimal (high % 256)
            ++ (codes "." ++ (decimal (low / 256) ++ (codes "." ++ decimal (low % 256))))))

abbrev unmapped : Text → Option (Text × Text) → Text
unmapped normalized none = normalized
unmapped normalized (some (a, b)) = dotted (hex_group a) (hex_group b)

module _ (network : Network) where
  unfoldable pub normalize_wallet_client_ip : Text → Option Text
  normalize_wallet_client_ip value =
      if ltb 64 (length value) || any (λ c. c == b'%') value || network.ip_version value == 0
      then none
      else if network.ip_version value == 4
      then some value
      else some (unmapped (network.url_host value) (mapped (network.url_host value)))

  normalized_or_none : Option Text → Option Text
  normalized_or_none none = normalize_wallet_client_ip []
  normalized_or_none (some s) = normalize_wallet_client_ip s

  forwarded_client : Option Text → Result LoginFault Text
  forwarded_client none = err proxy_unavailable
  forwarded_client (some ip) = ok ip

  peer_client : List Text → Option Text → Option Text → Result LoginFault Text
  unfolding normalized_or_none forwarded_client
  peer_client trusted none header = err client_unavailable
  peer_client trusted (some peer) header =
      if any (same peer) trusted then forwarded_client (normalized_or_none header) else ok peer

  -- `client`, with the address of the connection and the header x-real-ip, where there are any.
  unfoldable pub client : List Text → Option Text → Option Text → Result LoginFault Text
  unfolding peer_client normalized_or_none
  client trusted remote header = peer_client trusted (normalized_or_none remote) header
