-- ===== src/Api/Proofs.antt =====
-- What a `valid` of PublicVerifyProofHandler in internal/api/handlers.go shows.
use logs_tracker.Prelude.{
  String, ◌≡◌, ◌⊎◌, inl, inr, refl, subst, true, Bool-cases, ◌==◌, Option, none, some, List, map,
  length, Occurs,
}
use logs_tracker.Errors.{Result, ok, err, Result-cases}
use logs_tracker.Merkle.{Bytes, Tree, hash_leaf, build_tree, verify_proof}
use logs_tracker.Merkle.Payload.{Runtime, normalize, compute_record_leaf_hash}
use logs_tracker.Merkle.Collisions.{Collision}
use logs_tracker.Merkle.Soundness.{verify_proof_sound}
use logs_tracker.Merkle.Records.{compute_record_leaf_hash-ok}
use logs_tracker.Api.{
  VerifyRequest, valid, Decoders, proof_answer, signature_answer, request_key, key_answer,
  decoded_answer, public_verify_proof,
}

module _ (rt : Runtime) (dec : Decoders) (public_key : String → Result Bytes) where
  proof_answer-valid :
      (q : VerifyRequest) (root : Bytes) (o : Result Bytes)
      → proof_answer rt dec public_key q root o ≡ valid
      → (leaf : Bytes) × (o ≡ ok leaf) × (verify_proof rt.sha256 leaf q.proof root ≡ true)
  unfolding proof_answer
  proof_answer-valid q root (err e) v = cc
  proof_answer-valid q root (ok leaf) v =
      elim (Bool-cases (verify_proof rt.sha256 leaf q.proof root)) [
        | inl t ↦ (leaf, refl, t)
        | inr f ↦ cc (rw (proof_answer, f) at v)
      ]

  signature_answer-valid :
      (q : VerifyRequest) (root signature key : Bytes)
      → signature_answer rt dec public_key q root signature key ≡ valid
      → (dec.ed25519_verify key root signature ≡ true)
        × (leaf : Bytes) × (compute_record_leaf_hash rt q.record_canonical ≡ ok leaf)
        × (verify_proof rt.sha256 leaf q.proof root ≡ true)
  unfolding signature_answer
  signature_answer-valid q root signature key v = elim (Bool-cases (length key == 32)) [
    | inr f ↦ cc (rw (signature_answer, f) at v)
    | inl t ↦ elim (Bool-cases (dec.ed25519_verify key root signature)) [
      | inr f ↦ cc (rw (signature_answer, t, f) at v)
      | inl s ↦
          let (leaf, hashed, w) =
            proof_answer-valid q root (compute_record_leaf_hash rt q.record_canonical)
              (rw (signature_answer, t, s) at v) in
          (s, leaf, hashed, w)
    ]
  ]

  -- The decoded root, signature and key of an answer that is `valid`.
  record Accepted (q : VerifyRequest) (root : Bytes) : Type 0 where
    signature : Bytes
    key : Bytes
    leaf : Bytes
    named : dec.hex_decode q.signature_hex ≡ some signature
    signed_by : request_key rt dec public_key q ≡ ok key
    accepts : dec.ed25519_verify key root signature ≡ true
    hashed : compute_record_leaf_hash rt q.record_canonical ≡ ok leaf
    verifies : verify_proof rt.sha256 leaf q.proof root ≡ true

  decoded_answer-valid :
      (q : VerifyRequest) (r : Option Bytes) (s : Option Bytes) (root : Bytes)
      → r ≡ some root
      → dec.hex_decode q.signature_hex ≡ s
      → decoded_answer rt dec public_key q r s ≡ valid
      → Accepted q root
  unfolding decoded_answer key_answer
  decoded_answer-valid q none s root e h v = cc
  decoded_answer-valid q (some r) none root e h v = cc
  decoded_answer-valid q (some r) (some signature) root e h v =
      let same : r ≡ root = cc in
      elim (Result-cases (request_key rt dec public_key q)) [
        | inr (x, k) ↦ cc (rw (decoded_answer, k, key_answer) at v)
        | inl (key, k) ↦
            let (accepts, leaf, hashed, w) =
              signature_answer-valid q r signature key (rw (decoded_answer, k, key_answer) at v) in
            subst (Accepted q) same (record {
              signature = signature;
              named = h;
              key = key;
              leaf = leaf;
              signed_by = k;
              accepts = accepts;
              hashed = hashed;
              verifies = w;
            })
      ]

  -- If SHA-256 gives hashes of 32 bytes and the root that a request names is that of the tree over
  -- the leaf hashes of the encoded payloads `ds`, then the handler answers `valid` only if the key
  -- that the request or the signer gives accepts the request's signature of the root, and its
  -- record, normalized, encodes to one of `ds`, or SHA-256 has a collision.
  pub public_verify_proof_sound :
      (size : (m : Bytes) → length (rt.sha256 m) ≡ 32) (q : VerifyRequest) (ds : List Bytes)
      (t : Tree)
      → build_tree rt.sha256 (map (hash_leaf rt.sha256) ds) ≡ some t
      → dec.hex_decode q.merkle_root_hex ≡ some t.root
      → public_verify_proof rt dec public_key (some q) ≡ valid
      → ((key : Bytes) × (signature : Bytes) × (dec.hex_decode q.signature_hex ≡ some signature)
          × (request_key rt dec public_key q ≡ ok key)
          × (dec.ed25519_verify key t.root signature ≡ true))
        × ((d : Bytes) × (rt.marshal_payload (normalize rt q.record_canonical) ≡ some d)
            × (Occurs d ds ⊎ Collision rt.sha256))
  unfolding public_verify_proof
  public_verify_proof_sound size q ds t built root v =
      let a = decoded_answer-valid q _ _ t.root root refl v in
      let (d, encoded, same) = compute_record_leaf_hash-ok rt q.record_canonical a.leaf a.hashed in
      (
        (a.key, a.signature, a.named, a.signed_by, a.accepts),
        (
          d,
          encoded,
          verify_proof_sound rt.sha256 size ds t built d q.proof
              (subst (λ u. verify_proof rt.sha256 u q.proof t.root ≡ true) same a.verifies),
        ),
      )
