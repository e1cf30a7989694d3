-- ===== src/Commands/Keygen.antt =====
-- cmd/keygen/main.go: a key file is made, or its public key is shown.
pub mod Roundtrip
use logs_tracker.Prelude.{String, [], str_eq, if◌then◌else◌}
use logs_tracker.Errors.{GoError, Result, ok, err}
use logs_tracker.Merkle.{Bytes}
use logs_tracker.Signing.{LocalKeyManager, Crypto, Randomness, public_key}
use logs_tracker.Commands.{Files, load_key, new_key}

pub record Flags : Type 0 where
  pub keyfile : String
  pub passphrase : String
  pub version : String
  pub action : String

-- How the program ends: with the public key in base64, or with an error and exit status 1.
pub data Ending : Type 0 where
  passphrase_required : Ending
  generate_failed load_failed key_failed : GoError → Ending
  unknown_action : String → Ending
  generated shown : String → String → Ending

-- A key that is not found is nil.
unfoldable pub key_or_nil : Result Bytes → Bytes
key_or_nil (ok key) = key
key_or_nil (err e) = []

module _ (c : Crypto) where
  unfoldable pub after_generate : Flags → Files → Result (Files × LocalKeyManager) → Files × Ending
  after_generate f files (err e) = (files, generate_failed e)
  after_generate f files (ok (files', m)) =
      (files', generated f.version (c.base64_encode (key_or_nil (public_key c m f.version))))

  unfoldable pub after_key : Flags → Result Bytes → Ending
  after_key f (err e) = key_failed e
  after_key f (ok key) = shown f.version (c.base64_encode key)

  unfoldable pub after_load : Flags → Result LocalKeyManager → Ending
  after_load f (err e) = load_failed e
  after_load f (ok m) = after_key f (public_key c m f.version)

  unfoldable pub keygen : Randomness → Flags → Files → Files × Ending
  keygen r f files =
      if str_eq f.passphrase ""
      then (files, passphrase_required)
      else (if str_eq f.action "generate"
          then after_generate f files (new_key c r files f.keyfile f.passphrase f.version)
          else (if str_eq f.action "pubkey"
              then (files, after_load f (load_key c files f.keyfile f.passphrase))
              else (files, unknown_action f.action)))
