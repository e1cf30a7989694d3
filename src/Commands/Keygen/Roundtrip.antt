-- ===== src/Commands/Keygen/Roundtrip.antt =====
-- cmd/keygen/main.go: `pubkey` after `generate`.
use logs_tracker.Prelude.{String, ◌≡◌, refl, ap, sym, Bool-cases, inl, inr, str_eq, eq_iff}
use logs_tracker.Errors.{Result, ok, err, ok-injective}
use logs_tracker.Merkle.{Bytes}
use logs_tracker.Signing.{
  LocalKeyManager, Crypto, Randomness, public_key, version_or_v1, generate_and_save_keyfile,
}
use logs_tracker.Signing.Keyfile.{IsLossless}
use logs_tracker.Commands.{Files, load_key, new_key}
use logs_tracker.Commands.Keys.{saved-ok, load_key-new_key}
use logs_tracker.Commands.Keygen.{
  Flags, generated, shown, key_or_nil, after_generate, after_key, after_load, keygen,
}

abbrev pub flags : String → String → String → String → Flags
flags action path passphrase v = record {
  keyfile = path;
  passphrase = passphrase;
  version = v;
  action = action;
}

module _ (c : Crypto) where
  generate-version :
      (r : Randomness) (passphrase v : String) (file : Bytes) (m : LocalKeyManager)
      → generate_and_save_keyfile c r passphrase v ≡ ok (file, m)
      → m.version ≡ version_or_v1 c v
  unfolding generate_and_save_keyfile
  generate-version r passphrase v file m h =
      elim (Bool-cases (c.is_aes_key (c.derive_key passphrase r.salt))) [
        | inl t ↦ sym (ap (λ x. x.1.version) (ok-injective (rw t at h)))
        | inr f ↦ cc (rw f at h)
      ]

  public_key-own :
      (v : String) (m : LocalKeyManager)
      → m.version ≡ version_or_v1 c v
      → public_key c m v ≡ ok m.public_key
  unfolding public_key
  public_key-own v m h = elim (Bool-cases (str_eq v "")) [
    | inl t ↦ rw t refl
    | inr f ↦ let same : m.version ≡ v = rw f at h in rw (f, (eq_iff v m.version).1 (sym same)) refl
  ]

  after_generate-shown :
      (r : Randomness) (files : Files) (path passphrase v key : String)
      (o : Result (Files × LocalKeyManager))
      → IsLossless c r passphrase v
      → new_key c r files path passphrase v ≡ o
      → (after_generate c (flags "generate" path passphrase v) files o).1 ≡ generated v key
      → after_load c (flags "pubkey" path passphrase v) (
          load_key c
            (after_generate c (flags "generate" path passphrase v) files o).0
            path
            passphrase)
        ≡ shown v key
  unfolding after_generate after_load after_key key_or_nil new_key
  after_generate-shown r files path passphrase v key (err e) lossless made h = cc
  after_generate-shown r files path passphrase v key (ok (files', m)) lossless made h =
      let (file, kept, written) =
        saved-ok c (generate_and_save_keyfile c r passphrase v) path files files' m made in
      let own = public_key-own v m (generate-version r passphrase v file m kept) in
      rw (load_key-new_key c r files files' path passphrase v m lossless made, own)
        (let same = rw own at h in cc)

  -- After a key file has been made, `pubkey` with its path, passphrase and version shows the public
  -- key that was shown when it was made, if base64, JSON and AES-GCM give back what they were given.
  pub keygen-pubkey :
      (r other : Randomness) (files : Files) (path passphrase v key : String)
      → IsLossless c r passphrase v
      → (keygen c r (flags "generate" path passphrase v) files).1 ≡ generated v key
      → (keygen c other
          (flags "pubkey" path passphrase v)
          (keygen c r (flags "generate" path passphrase v) files).0).1
        ≡ shown v key
  unfolding keygen
  keygen-pubkey r other files path passphrase v key lossless h =
      elim (Bool-cases (str_eq passphrase "")) [
        | inl t ↦ cc (rw t at h)
        | inr f ↦
            rw f (after_generate-shown r files path passphrase v key _ lossless refl (rw f at h))
      ]
