-- ===== src/Cvm/Infer/Secrets.antt =====
-- When an enclave of _backend/packages/core/src/cvm.ts gives its secrets.
use enclave_developer.Cvm.Infer.Reached.{Reached, Reached-Held, WasReleased, KeyHeld}
use enclave_developer.Cvm.{Cvm, Crypto, opened, secret_for, session_secret, Blob, open_memory}
use enclave_developer.Prelude.{Option, ◌≡◌, ok, some, arith, none}
use enclave_developer.Prelude.Text.{Text}
use enclave_developer.Cvm.Near.{Bytes}

module _ (crypto : Crypto) where
  -- The enclave gives a secret, or opens what it has sealed.
  pub data GivesSecret (c : Cvm) : Type 0 where
    of_session :
        (id : Text) (secret : Bytes) → session_secret crypto c id ≡ ok secret → GivesSecret c
    of_memory : (blob : Blob) (plain : Bytes) → open_memory crypto c blob ≡ ok plain → GivesSecret c

  secret-KeyHeld :
      (P : Text → Type 0) (c : Cvm) (id : Text) (secret : Bytes) (key : Option Bytes)
      → KeyHeld crypto P key
      → secret_for crypto c key id ≡ ok secret
      → (ref : Text) × P ref
  unfolding secret_for
  secret-KeyHeld P c id secret none h e = absurd (ground arith)
  secret-KeyHeld P c id secret (some key) h e = h

  opened-KeyHeld :
      (P : Text → Type 0) (c : Cvm) (blob : Blob) (plain : Bytes) (key : Option Bytes)
      → KeyHeld crypto P key
      → opened crypto c key blob ≡ ok plain
      → (ref : Text) × P ref
  unfolding opened
  opened-KeyHeld P c blob plain none h e = absurd (ground arith)
  opened-KeyHeld P c blob plain (some key) h e = h

  -- An enclave that `create` made, after any calls of `releaseKeys` and `infer` and copies by
  -- `withPolicy`, gives the secret of a session or opens sealed memory only if, since it was made
  -- or copied, a call of its `releaseKeys` has returned for a quote that its mode, vendor and
  -- policy accept at the moment of that call.
  pub GivesSecret-WasReleased :
      (c : Cvm) (r : Reached crypto c) → GivesSecret c → (ref : Text) × WasReleased crypto c c r ref
  unfolding session_secret open_memory
  GivesSecret-WasReleased c r (of_session id secret e) =
      secret-KeyHeld (WasReleased crypto c c r) c id secret c.model_key (Reached-Held crypto c r).1
        e
  GivesSecret-WasReleased c r (of_memory blob plain e) =
      opened-KeyHeld (WasReleased crypto c c r) c blob plain c.model_key (Reached-Held crypto c r).1
        e
