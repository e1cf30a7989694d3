-- ===== src/Commands/Verify/Offline.antt =====
-- The proof document of cmd/verify/main.go and the request of PublicVerifyProofHandler in
-- internal/api/handlers.go, side by side.
use logs_tracker.Prelude.{
  String, ◌≡◌, ◌≢◌, ◌↔◌, refl, Bool, true, false, not, ◌||◌, ◌==◌, ==_iff, Bool-cases, inl, inr,
  Option, none, some, length, str_eq, eq_iff, if◌then◌else◌, arith,
}
use logs_tracker.Errors.{GoError, Result, ok, err}
use logs_tracker.Merkle.{Bytes, verify_proof}
use logs_tracker.Merkle.Payload.{compute_record_leaf_hash}
use logs_tracker.Merkle.Verifier.{is_signed}
use logs_tracker.Api.{
  VerifyRequest, Answer, invalid, valid, panics, Decoders, proof_answer, signature_answer,
  request_key, key_answer, decoded_answer, public_verify_proof,
}
use logs_tracker.Commands.{or_default}
use logs_tracker.Commands.Verify.{
  ProofDoc, Ending, signature_invalid, path_mismatch, authentic, exit_code, World, verify_with_key,
  check_path, check_decoded, check_doc, check_file, verify_offline_proof,
}

-- The request that asks for a document's proof, with a key in base64 or the signer's.
abbrev pub request_of : ProofDoc → String → VerifyRequest
request_of doc key = record {
  record_canonical = doc.record_canonical;
  proof = doc.proof;
  merkle_root_hex = doc.merkle_root_hex;
  signature_hex = doc.signature_hex;
  key_version = doc.key_version;
  public_key_base64 = key;
}

-- The program ends well just when the handler answers `valid`.
abbrev pub Agree : Ending → Answer → Type 0
Agree e a = (exit_code e ≡ 0) ↔ (a ≡ valid)

Agree-path :
    (doc : ProofDoc) (key reason : String) (b : Bool)
    → Agree (if b then authentic doc key else path_mismatch) (if b then valid else invalid reason)
unfolding exit_code
Agree-path doc key reason true = (λ h. refl, λ h. refl)
Agree-path doc key reason false = (λ h. absurd (omega arith), λ h. cc)

Agree-signature :
    (key reason : String) (x : GoError) (e : Ending) (a : Answer) (fits_key fits accepted : Bool)
    → (accepted ≡ true → fits ≡ true)
    → Agree e a
    → Agree
        (if is_signed (if not fits_key || not fits then err x else ok accepted)
          then e
          else signature_invalid key)
        (if fits_key then (if accepted then a else invalid reason) else panics)
unfolding exit_code is_signed
Agree-signature key reason x e a true true true size h = h
Agree-signature key reason x e a true true false size h = (λ k. absurd (omega arith), λ k. cc)
Agree-signature key reason x e a true false true size h = let wrong = size refl in cc
Agree-signature key reason x e a true false false size h = (λ k. absurd (omega arith), λ k. cc)
Agree-signature key reason x e a false fits accepted size h = (λ k. absurd (omega arith), λ k. cc)

-- The handler's decoders are the program's.
abbrev pub decoders : World → Decoders
decoders w = record {
  hex_decode = w.hex_decode;
  base64_decode = w.crypto.base64_decode;
  ed25519_verify = w.crypto.ed25519_verify;
}

module _ (w : World) (public_key : String → Result Bytes)
    (size : (k m s : Bytes) → w.crypto.ed25519_verify k m s ≡ true → length s ≡ 64) where
  path-Agree :
      (doc : ProofDoc) (key key64 : String) (root : Bytes) (o : Result Bytes)
      → Agree
          (check_path w doc key root o)
          (proof_answer w.runtime (decoders w) public_key (request_of doc key64) root o)
  unfolding check_path proof_answer exit_code
  path-Agree doc key key64 root (err e) = (λ h. absurd (omega arith), λ h. cc)
  path-Agree doc key key64 root (ok leaf) =
      Agree-path doc key _ (verify_proof w.runtime.sha256 leaf doc.proof root)

  decoded-Agree :
      (doc : ProofDoc) (key key64 : String) (k : Bytes) (root signature : Option Bytes)
      → request_key w.runtime (decoders w) public_key (request_of doc key64) ≡ ok k
      → Agree
          (check_decoded w doc key (some k) root signature)
          (decoded_answer w.runtime (decoders w) public_key (request_of doc key64) root signature)
  unfolding check_decoded decoded_answer key_answer signature_answer verify_with_key exit_code
  decoded-Agree doc key key64 k none signature e = (λ h. absurd (omega arith), λ h. cc)
  decoded-Agree doc key key64 k (some root) none e = (λ h. absurd (omega arith), λ h. cc)
  decoded-Agree doc key key64 k (some root) (some signature) e = rw e (
      Agree-signature key _ _ _ _ (length k == 32) (length signature == 64)
        (w.crypto.ed25519_verify k root signature)
        (λ accepted. (==_iff (length signature) 64).1 (size k root signature accepted))
        (path-Agree doc key key64 root (compute_record_leaf_hash w.runtime doc.record_canonical)))

  -- If Ed25519 accepts only signatures of 64 bytes, the proof file parses, and the key that the
  -- program takes and the key of the request for the same proof are the same bytes, then the program
  -- ends with status 0 just when the handler answers `valid`.
  pub verify_offline_proof-agrees :
      (path hex key64 : String) (content : Bytes) (doc : ProofDoc) (k : Bytes)
      → w.read_file path ≡ some content
      → w.unmarshal_doc content ≡ some doc
      → or_default doc.public_key_hex hex ≢ ""
      → w.hex_decode (or_default doc.public_key_hex hex) ≡ some k
      → request_key w.runtime (decoders w) public_key (request_of doc key64) ≡ ok k
      → Agree
          (verify_offline_proof w path hex)
          (public_verify_proof w.runtime (decoders w) public_key (some (request_of doc key64)))
  unfolding verify_offline_proof check_file check_doc public_verify_proof
  verify_offline_proof-agrees path hex key64 content doc k read parsed given decoded key =
      let key_hex = or_default doc.public_key_hex hex in
      elim (Bool-cases (str_eq key_hex "")) [
        | inl t ↦ absurd (given ((eq_iff key_hex "").0 t))
        | inr f ↦
            rw (read, parsed, f, decoded)
              (decoded-Agree doc key_hex key64 k (w.hex_decode doc.merkle_root_hex)
                (w.hex_decode doc.signature_hex) key)
      ]
