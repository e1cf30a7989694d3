-- ===== src/Signing/Keyfile.antt =====
-- The key file of internal/signing/signing.go: what was saved loads again with its passphrase.
use logs_tracker.Prelude.{String, ◌≡◌, subst, some, inl, inr, Bool-cases}
use logs_tracker.Errors.{ok, ok-injective}
use logs_tracker.Merkle.{Bytes}
use logs_tracker.Signing.{
  LocalKeyManager, Crypto, Randomness, saved_payload, saved_envelope, generate_and_save_keyfile,
  load_keyfile,
}

-- What the libraries document, for one key file: base64 decodes what it encoded, JSON reads back
-- the payload and the envelope, and AES-GCM opens what it sealed.
pub record IsLossless (c : Crypto) (r : Randomness) (passphrase v : String) : Type 0 where
  pub base64 : (b : Bytes) → c.base64_decode (c.base64_encode b) ≡ some b
  pub payload :
      c.unmarshal_payload (c.marshal_payload (saved_payload c r v)) ≡ some (saved_payload c r v)
  pub envelope :
      c.unmarshal_envelope (c.marshal_envelope (saved_envelope c r passphrase v))
      ≡ some (saved_envelope c r passphrase v)
  pub sealed : (key n p : Bytes) → c.open_sealed key n (c.seal key n p) ≡ some p

module _ (c : Crypto) (r : Randomness) (passphrase v : String)
    (lossless : IsLossless c r passphrase v) where
  -- Loading a saved key file with its passphrase gives the manager that was generated, if base64,
  -- JSON and AES-GCM give back what they were given.
  pub load_keyfile-generate :
      (file : Bytes) (m : LocalKeyManager)
      → generate_and_save_keyfile c r passphrase v ≡ ok (file, m)
      → load_keyfile c file passphrase ≡ ok m
  unfolding generate_and_save_keyfile load_keyfile
  load_keyfile-generate file m h =
      elim (Bool-cases (c.is_aes_key (c.derive_key passphrase r.salt))) [
        | inl good ↦
            subst (λ (u : Bytes × LocalKeyManager). load_keyfile c u.0 passphrase ≡ ok u.1)
              (ok-injective (rw good at h))
              (simp (lossless.envelope, lossless.base64, lossless.sealed, lossless.payload, good))
        | inr bad ↦ cc (rw bad at h)
      ]
