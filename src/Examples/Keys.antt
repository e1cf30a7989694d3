-- ===== src/Examples/Keys.antt =====
-- The theorems on internal/signing at a toy cryptography.
use logs_tracker.Prelude.{
  ℕ, zero, suc, ◌+◌, ◌==◌, String, ◌≡◌, refl, ap, ◌∙◌, true, some, [], ◌∷◌, arith, eq_iff,
  if◌then◌else◌, length,
}
use Prim.Native.Char.{code}
use logs_tracker.Prelude.Dict.{get}
use logs_tracker.Errors.{ok}
use logs_tracker.Merkle.{Bytes}
use logs_tracker.Signing.{
  LocalKeyManager, KeyfilePayload, KeyfileEnvelope, Crypto, Randomness, sign, verify, encrypt,
  generate_and_save_keyfile,
}
use logs_tracker.Signing.Keys.{verify-sign}
use logs_tracker.Signing.Keyfile.{IsLossless}

-- Bytes as text in base one: an `a` for each unit and a `b` at the end of each byte.
abbrev pub unary : ℕ → String → String
unary zero rest = String.◌∷◌ "b" rest
unary (suc n) rest = String.◌∷◌ "a" (unary n rest)

abbrev pub unary_encode : Bytes → String
unary_encode [] = String.[]
unary_encode (b ∷ bs) = unary b (unary_encode bs)

abbrev pub unary_decode : ℕ → String → Bytes
unary_decode n String.[] = []
unary_decode n (String.◌∷◌ c s) =
    if code c == 98 then n ∷ unary_decode 0 s else unary_decode (suc n) s

unary_decode-unary :
    (n m b : ℕ) (s : String) → n + b ≡ m → unary_decode n (unary b s) ≡ m ∷ unary_decode 0 s
unary_decode-unary n m zero s e = let q : n ≡ m = omega arith in ap (λ k. k ∷ unary_decode 0 s) q
unary_decode-unary n m (suc b) s e = unary_decode-unary (suc n) m b s (omega arith)

pub unary_decode-encode : (bs : Bytes) → unary_decode 0 (unary_encode bs) ≡ bs
unary_decode-encode [] = refl
unary_decode-encode (b ∷ bs) =
    unary_decode-unary 0 b b (unary_encode bs) (omega arith) ∙ ap (◌∷◌ b) (unary_decode-encode bs)

abbrev pub random : Randomness
random = record {
  private_key = 1 ∷ [];
  public_key = 2 ∷ [];
  aes_key = 3 ∷ [];
  salt = 4 ∷ [];
  nonce = 5 ∷ [];
}

-- The key file of these random bytes; JSON knows that one file.
abbrev pub toy_payload : KeyfilePayload
toy_payload = record {
  version = "v1";
  ed25519_private_key = unary_encode (1 ∷ []);
  ed25519_public_key = unary_encode (2 ∷ []);
  aes256_key = unary_encode (3 ∷ []);
  historical_public_keys = [];
}

abbrev pub toy_envelope : KeyfileEnvelope
toy_envelope = record {
  salt = unary_encode (4 ∷ []);
  nonce = unary_encode (5 ∷ []);
  ciphertext = unary_encode (9 ∷ []);
}

abbrev pub toy : Crypto
toy = record {
  ed25519_sign = λ private digest. 0 ∷ digest;
  ed25519_verify = λ public digest signature. length signature == suc (length digest);
  is_aes_key = λ key. length key == 1;
  nonce_size = 1;
  seal = λ key nonce plaintext. plaintext;
  open_sealed = λ key nonce ciphertext. some ciphertext;
  derive_key = λ passphrase salt. salt;
  base64_encode = unary_encode;
  base64_decode = λ s. some (unary_decode 0 s);
  marshal_payload = λ p. 9 ∷ [];
  unmarshal_payload = λ b. some toy_payload;
  marshal_envelope = λ e. 8 ∷ [];
  unmarshal_envelope = λ b. some toy_envelope;
}

abbrev pub manager : LocalKeyManager
manager = record {
  version = "v1";
  private_key = 1 ∷ [];
  public_key = 2 ∷ [];
  aes_key = 3 ∷ [];
  historical_public_keys = [];
}

pub lossless : IsLossless toy random "secret" ""
lossless = record {
  base64 = λ b. ap some (unary_decode-encode b);
  payload = refl;
  envelope = refl;
  sealed = λ key n p. refl;
}

generated : generate_and_save_keyfile toy random "secret" "" ≡ ok (8 ∷ [], manager)
unfolding generate_and_save_keyfile
generated = refl

-- The next manager lists the key as historical.
abbrev next_manager : LocalKeyManager
next_manager = record {
  version = "v2";
  private_key = 6 ∷ [];
  public_key = 7 ∷ [];
  aes_key = 3 ∷ [];
  historical_public_keys = ("v1", 2 ∷ []) ∷ [];
}

signed : sign toy manager (1 ∷ 2 ∷ []) ≡ ok (0 ∷ 1 ∷ 2 ∷ [], "v1")
unfolding sign
signed = refl

listed : get "v1" next_manager.historical_public_keys ≡ some manager.public_key
unfolding get
listed = refl

accepts-signed :
    (digest : Bytes)
    → toy.ed25519_verify manager.public_key digest (toy.ed25519_sign manager.private_key digest)
      ≡ true
accepts-signed digest = ground arith

verify-sign_example :
    (verify toy manager (1 ∷ 2 ∷ []) (0 ∷ 1 ∷ 2 ∷ []) "v1" ≡ ok true)
    × (verify toy next_manager (1 ∷ 2 ∷ []) (0 ∷ 1 ∷ 2 ∷ []) "v1" ≡ ok true)
verify-sign_example =
    verify-sign toy manager next_manager (1 ∷ 2 ∷ []) (0 ∷ 1 ∷ 2 ∷ []) "v1" accepts-signed signed
      listed (λ e. ground (arith, eq_iff "v1" "v2"))

encrypted : encrypt toy manager (5 ∷ []) (1 ∷ 2 ∷ []) ≡ ok (5 ∷ 1 ∷ 2 ∷ [], "v1")
unfolding encrypt
encrypted = refl
