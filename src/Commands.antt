-- ===== src/Commands.antt =====
-- cmd: what the programs share. The files that hold keys are a map from paths; reading a key that is
-- not there fails, and writing one succeeds.
pub mod ApiServer
pub mod Daemon
pub mod Keys
pub mod Keygen
pub mod Tiering
pub mod Verify
use logs_tracker.Prelude.{String, Option, none, some, str_eq, if◌then◌else◌}
use logs_tracker.Prelude.Dict.{Dict, get, put}
use logs_tracker.Errors.{failure, Result, ok, err, ◌>>=◌}
use logs_tracker.Merkle.{Bytes}
use logs_tracker.Signing.{
  LocalKeyManager, Crypto, Randomness, load_keyfile, generate_and_save_keyfile,
}

abbrev pub Files : Type 0
Files = Dict Bytes

-- A flag that is not given takes its default.
unfoldable pub or_default : String → String → String
or_default default s = if str_eq s "" then default else s

module _ (c : Crypto) where
  unfoldable pub unlock : Option Bytes → String → Result LocalKeyManager
  unlock none passphrase = err (failure "failed to read keyfile")
  unlock (some file) passphrase = load_keyfile c file passphrase

  -- `LoadKeyfile` at a path.
  unfoldable pub load_key : Files → String → String → Result LocalKeyManager
  load_key files path passphrase = unlock (get path files) passphrase

  unfoldable pub saved :
      String → Files → Result (Bytes × LocalKeyManager) → Result (Files × LocalKeyManager)
  saved path files (err e) = err e
  saved path files (ok (file, m)) = ok (put path file files, m)

  -- `GenerateAndSaveKeyfile` at a path.
  unfoldable pub new_key :
      Randomness → Files → String → String → String → Result (Files × LocalKeyManager)
  new_key r files path passphrase v = saved path files (generate_and_save_keyfile c r passphrase v)
