-- ===== src/Signing/Keys.antt =====
-- Signatures and encryption of internal/signing/signing.go, under what the libraries document:
-- Ed25519 accepts what it signed, and AES-GCM opens what it sealed.
use logs_tracker.Prelude.{
  String, ◌≡◌, ◌≢◌, ap, true, some, ◌++◌, length, length-append, take, drop, take-length-append,
  drop-length-append, arith, eq_iff, str_eq, Bool-cases, inl, inr,
}
use logs_tracker.Prelude.Dict.{get}
use logs_tracker.Errors.{ok}
use logs_tracker.Merkle.{Bytes}
use logs_tracker.Signing.{LocalKeyManager, Crypto, sign, verify, encrypt, decrypt}

module _ (c : Crypto) where
  -- Ed25519: the public key accepts every signature of the private key.
  abbrev pub IsKeyPair : Bytes → Bytes → Type 0
  IsKeyPair private public =
      (digest : Bytes) → c.ed25519_verify public digest (c.ed25519_sign private digest) ≡ true

  sign-inversion :
      (m : LocalKeyManager) (digest signature : Bytes) (v : String)
      → sign c m digest ≡ ok (signature, v)
      → (c.ed25519_sign m.private_key digest ≡ signature) × (m.version ≡ v)
  unfolding sign
  sign-inversion m digest signature v h = ground arith

  pub verify-own :
      (m : LocalKeyManager) (digest signature : Bytes) (v : String)
      → IsKeyPair m.private_key m.public_key
      → sign c m digest ≡ ok (signature, v)
      → verify c m digest signature v ≡ ok true
  unfolding verify
  verify-own m digest signature v pair s =
      let (e, k) = sign-inversion m digest signature v s in
      let accepted : c.ed25519_verify m.public_key digest signature ≡ true =
        rw (← e) (pair digest) in
      ground (arith, eq_iff v m.version)

  -- A signature is accepted by its own manager, and by every later one that lists the signer's
  -- public key as historical under the version of the signature and has another version itself.
  pub verify-sign :
      (m later : LocalKeyManager) (digest signature : Bytes) (v : String)
      → IsKeyPair m.private_key m.public_key
      → sign c m digest ≡ ok (signature, v)
      → get v later.historical_public_keys ≡ some m.public_key
      → v ≢ later.version
      → (verify c m digest signature v ≡ ok true) × (verify c later digest signature v ≡ ok true)
  unfolding verify
  verify-sign m later digest signature v pair s h n =
      let (e, k) = sign-inversion m digest signature v s in
      let accepted : c.ed25519_verify m.public_key digest signature ≡ true =
        rw (← e) (pair digest) in
      (verify-own m digest signature v pair s, ground (arith, eq_iff v later.version))

  encrypt-inversion :
      (m : LocalKeyManager) (nonce plaintext ciphertext : Bytes) (v : String)
      → encrypt c m nonce plaintext ≡ ok (ciphertext, v)
      → (c.is_aes_key m.aes_key ≡ true)
        × (nonce ++ c.seal m.aes_key nonce plaintext ≡ ciphertext)
        × (m.version ≡ v)
  unfolding encrypt
  encrypt-inversion m nonce plaintext ciphertext v h = ground arith

  -- `Decrypt` gives back what `Encrypt` was given, for a nonce of the size of the cipher's.
  pub decrypt-encrypt :
      (m : LocalKeyManager) (nonce plaintext ciphertext : Bytes) (v : String)
      → ((key n p : Bytes) → c.open_sealed key n (c.seal key n p) ≡ some p)
      → length nonce ≡ c.nonce_size
      → encrypt c m nonce plaintext ≡ ok (ciphertext, v)
      → decrypt c m ciphertext v ≡ ok plaintext
  unfolding decrypt
  decrypt-encrypt m nonce plaintext ciphertext v opens size s =
      let (k, e, ver) = encrypt-inversion m nonce plaintext ciphertext v s in
      let sealed = c.seal m.aes_key nonce plaintext in
      let t : take c.nonce_size ciphertext ≡ nonce =
        rw (← size, ← e) (take-length-append nonce sealed) in
      let d : drop c.nonce_size ciphertext ≡ sealed =
        rw (← size, ← e) (drop-length-append nonce sealed) in
      ground (
        arith,
        eq_iff v m.version,
        opens m.aes_key nonce plaintext,
        length-append nonce sealed,
        ap length e,
      )

  -- Only the manager's version is decrypted.
  pub decrypt-version :
      (m : LocalKeyManager) (ciphertext : Bytes) (v : String) (plaintext : Bytes)
      → decrypt c m ciphertext v ≡ ok plaintext
      → v ≡ m.version
  unfolding decrypt
  decrypt-version m ciphertext v plaintext h = elim (Bool-cases (str_eq v m.version)) [
    | inl t ↦ (eq_iff v m.version).0 t
    | inr f ↦ cc (rw (decrypt, f) at h)
  ]
