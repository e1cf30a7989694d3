-- ===== src/Signing.antt =====
-- internal/signing/signing.go: the local key manager. Ed25519, AES-256-GCM, base64, Argon2id, the
-- JSON of the key file and the random bytes are parameters. Ed25519 panics on a private or public key
-- of another length than its own, which LoadKeyfile does not check; the panic is not modelled, so the
-- managers here are those whose keys have the right lengths.
pub mod Keys
pub mod Keyfile
use logs_tracker.Prelude.{
  ℕ, ◌+◌, ◌<◌, String, append, Bool, true, false, ◌||◌, Option, none, some, List, [], ◌∷◌, ◌++◌,
  length, take, drop, ltb, str_eq, if◌then◌else◌,
}
use logs_tracker.Prelude.Dict.{Dict, get, put}
use logs_tracker.Errors.{
  GoError, key_not_found, decryption_failed, invalid_passphrase, failure, wrapped, Result, ok, err,
  ◌>>=◌,
}
use logs_tracker.Merkle.{Bytes}

pub record LocalKeyManager : Type 0 where
  pub version : String
  pub private_key : Bytes
  pub public_key : Bytes
  pub aes_key : Bytes
  pub historical_public_keys : Dict Bytes

pub record KeyfileEnvelope : Type 0 where
  pub salt : String
  pub nonce : String
  pub ciphertext : String

pub record KeyfilePayload : Type 0 where
  pub version : String
  pub ed25519_private_key : String
  pub ed25519_public_key : String
  pub aes256_key : String
  pub historical_public_keys : Dict String

-- `seal` and `open` of AES-256-GCM take the key and the nonce; a key of the wrong length fails.
pub record Crypto : Type 0 where
  pub ed25519_sign : Bytes → Bytes → Bytes
  pub ed25519_verify : Bytes → Bytes → Bytes → Bool
  pub is_aes_key : Bytes → Bool
  pub nonce_size : ℕ
  pub seal : Bytes → Bytes → Bytes → Bytes
  pub open_sealed : Bytes → Bytes → Bytes → Option Bytes
  pub derive_key : String → Bytes → Bytes
  pub base64_encode : Bytes → String
  pub base64_decode : String → Option Bytes
  pub marshal_payload : KeyfilePayload → Bytes
  pub unmarshal_payload : Bytes → Option KeyfilePayload
  pub marshal_envelope : KeyfileEnvelope → Bytes
  pub unmarshal_envelope : Bytes → Option KeyfileEnvelope

abbrev pub or_error {ℓ} : {A : Type ℓ} → Option A → GoError → Result A
or_error none e = err e
or_error (some a) e = ok a

is_nil : Bytes → Bool
is_nil [] = true
is_nil (x ∷ xs) = false

-- What `GenerateAndSaveKeyfile` draws at random.
pub record Randomness : Type 0 where
  pub private_key : Bytes
  pub public_key : Bytes
  pub aes_key : Bytes
  pub salt : Bytes
  pub nonce : Bytes

module _ (c : Crypto) where
  unfoldable pub sign : LocalKeyManager → Bytes → Result (Bytes × String)
  unfolding is_nil
  sign m digest =
      if is_nil m.private_key
      then err (failure "private key not available")
      else ok (c.ed25519_sign m.private_key digest, m.version)

  -- The current version, then the historical ones.
  verification_key : LocalKeyManager → String → Result Bytes
  verification_key m v =
      if str_eq v m.version
      then ok m.public_key
      else or_error (get v m.historical_public_keys) (wrapped v key_not_found)

  unfoldable pub verify : LocalKeyManager → Bytes → Bytes → String → Result Bool
  unfolding verification_key
  verify m digest signature v = do
    key ← verification_key m v
    ok (c.ed25519_verify key digest signature)

  -- An empty version asks for the current key.
  unfoldable pub public_key : LocalKeyManager → String → Result Bytes
  public_key m v =
      if str_eq v "" || str_eq v m.version
      then ok m.public_key
      else or_error (get v m.historical_public_keys) (wrapped v key_not_found)

  abbrev pub current_version : LocalKeyManager → String
  current_version m = m.version

  -- The nonce is random; it stands in front of the sealed text.
  unfoldable pub encrypt : LocalKeyManager → Bytes → Bytes → Result (Bytes × String)
  encrypt m nonce plaintext =
      if c.is_aes_key m.aes_key
      then ok (nonce ++ c.seal m.aes_key nonce plaintext, m.version)
      else err (failure "crypto/aes: invalid key size")

  unfoldable pub decrypt : LocalKeyManager → Bytes → String → Result Bytes
  decrypt m ciphertext v =
      if str_eq v m.version
      then (if c.is_aes_key m.aes_key
          then (if ltb (length ciphertext) c.nonce_size
              then err decryption_failed
              else or_error
                  (c.open_sealed m.aes_key (take c.nonce_size ciphertext)
                    (drop c.nonce_size ciphertext))
                  decryption_failed)
          else err (failure "crypto/aes: invalid key size"))
      else err (wrapped v key_not_found)

  abbrev pub version_or_v1 : String → String
  version_or_v1 v = if str_eq v "" then "v1" else v

  abbrev pub saved_payload : Randomness → String → KeyfilePayload
  saved_payload r v = record {
    version = version_or_v1 v;
    ed25519_private_key = c.base64_encode r.private_key;
    ed25519_public_key = c.base64_encode r.public_key;
    aes256_key = c.base64_encode r.aes_key;
    historical_public_keys = [];
  }

  abbrev pub saved_envelope : Randomness → String → String → KeyfileEnvelope
  saved_envelope r passphrase v = record {
    salt = c.base64_encode r.salt;
    nonce = c.base64_encode r.nonce;
    ciphertext =
        c.base64_encode
          (c.seal (c.derive_key passphrase r.salt) r.nonce (c.marshal_payload (saved_payload r v)));
  }

  -- The file's bytes and the manager. Reading randomness and writing the file succeed.
  unfoldable pub generate_and_save_keyfile :
      Randomness → String → String → Result (Bytes × LocalKeyManager)
  generate_and_save_keyfile r passphrase v =
      if c.is_aes_key (c.derive_key passphrase r.salt)
      then ok (
        c.marshal_envelope (saved_envelope r passphrase v),
        record {
          version = version_or_v1 v;
          private_key = r.private_key;
          public_key = r.public_key;
          aes_key = r.aes_key;
          historical_public_keys = [];
        },
      )
      else err (failure "failed to create cipher")

  -- A historical key that does not decode is left out.
  decode_keys : Dict String → Dict Bytes → Dict Bytes
  decode_keys [] m = m
  decode_keys ((v, text) ∷ rest) m = elim (c.base64_decode text) [
    | some key ↦ decode_keys rest (put v key m)
    | none ↦ decode_keys rest m
  ]

  read_payload : KeyfilePayload → Result LocalKeyManager
  unfolding decode_keys
  read_payload p = do
    private_key ←
        or_error (c.base64_decode p.ed25519_private_key) (failure "invalid private key in keyfile")
    public_key ←
        or_error (c.base64_decode p.ed25519_public_key) (failure "invalid public key in keyfile")
    aes_key ← or_error (c.base64_decode p.aes256_key) (failure "invalid AES key in keyfile")
    ok (record {
      version = p.version;
      private_key = private_key;
      public_key = public_key;
      aes_key = aes_key;
      historical_public_keys = decode_keys p.historical_public_keys [];
    })

  unfoldable pub load_keyfile : Bytes → String → Result LocalKeyManager
  unfolding read_payload
  load_keyfile file passphrase = do
    envelope ← or_error (c.unmarshal_envelope file) (failure "invalid keyfile format")
    salt ← or_error (c.base64_decode envelope.salt) (failure "invalid salt in keyfile")
    nonce ← or_error (c.base64_decode envelope.nonce) (failure "invalid nonce in keyfile")
    ciphertext ←
        or_error (c.base64_decode envelope.ciphertext) (failure "invalid ciphertext in keyfile")
    let kdf_key = c.derive_key passphrase salt
    plaintext ←
        (if c.is_aes_key kdf_key
          then or_error (c.open_sealed kdf_key nonce ciphertext) invalid_passphrase
          else err (failure "failed to create cipher"))
    payload ← or_error (c.unmarshal_payload plaintext) (failure "corrupted keyfile payload")
    read_payload payload
