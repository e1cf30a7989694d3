-- ===== src/Commands/Keys.antt =====
-- The key files of cmd: unlocking a new one.
use logs_tracker.Prelude.{String, ◌≡◌, ap, sym, ◌∙◌, some, eq_iff, arith}
use logs_tracker.Prelude.Dict.{get, put, get-put}
use logs_tracker.Errors.{ok, ok-injective, Result, err}
use logs_tracker.Merkle.{Bytes}
use logs_tracker.Signing.{LocalKeyManager, Crypto, Randomness, generate_and_save_keyfile}
use logs_tracker.Signing.Keyfile.{IsLossless, load_keyfile-generate}
use logs_tracker.Commands.{Files, unlock, load_key, new_key, saved}

module _ (c : Crypto) where
  pub saved-ok :
      (o : Result (Bytes × LocalKeyManager)) (path : String) (files files' : Files)
      (m : LocalKeyManager)
      → saved c path files o ≡ ok (files', m)
      → (file : Bytes) × (o ≡ ok (file, m)) × (put path file files ≡ files')
  unfolding saved
  saved-ok (err e) path files files' m h = cc
  saved-ok (ok (file, n)) path files files' m h =
      let same = ok-injective h in
      (file, ap (λ x. ok (file, x)) (ap (λ x. x.1) same), ap (λ x. x.0) same)

  get-put_same : (k : String) (v : Bytes) (files : Files) → get k (put k v files) ≡ some v
  get-put_same k v files = rw (get-put k k v files) (ground (arith, eq_iff k k))

  -- A new key is the one that its passphrase unlocks at its path.
  pub load_key-new_key :
      (r : Randomness) (files files' : Files) (path passphrase v : String) (m : LocalKeyManager)
      → IsLossless c r passphrase v
      → new_key c r files path passphrase v ≡ ok (files', m)
      → load_key c files' path passphrase ≡ ok m
  unfolding load_key unlock new_key
  load_key-new_key r files files' path passphrase v m lossless h =
      let (file, made, written) =
        saved-ok (generate_and_save_keyfile c r passphrase v) path files files' m h in
      let there : get path files' ≡ some file =
        ap (get path) (sym written) ∙ get-put_same path file files in
      ap (λ o. unlock c o passphrase) there
      ∙ load_keyfile-generate c r passphrase v lossless file m made
