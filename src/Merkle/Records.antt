-- ===== src/Merkle/Records.antt =====
-- What a `valid` of `VerifyRecord` in internal/merkle/verifier.go shows, and that the records of a
-- batch get it.
use logs_tracker.Prelude.{
  ℕ, String, ◌≡◌, ◌⊎◌, refl, ap, ◌∙◌, sym, subst, Bool, true, false, some, List, [], ◌∷◌, map,
  get_elem?, Occurs, Bool-cases, Option-cases, arith, length, inl, inr,
}
use logs_tracker.Prelude.Int.{pos}
use logs_tracker.Errors.{Result, ok, err, ok-injective}
use logs_tracker.Merkle.{
  Bytes, Tree, ProofNode, hash_leaf, build_tree, generate_proof, verify_proof,
}
use logs_tracker.Merkle.Payload.{
  RecordCanonicalPayload, Runtime, normalize, compute_record_leaf_hash,
}
use logs_tracker.Merkle.Inclusion.{verify_proof-generate_proof}
use logs_tracker.Merkle.Collisions.{Collision}
use logs_tracker.Merkle.Soundness.{verify_proof_sound}
use logs_tracker.Merkle.Verifier.{
  BatchVerificationData, VerificationResult, unverified, with_batch, ProofChoice, chosen, refused,
  rebuild, choose_proof, check_proof, check_leaf, is_signed, is_empty, verify_record,
}

is_empty-get_elem? :
    (xs : List Bytes) (i : ℕ) {x : Bytes} → get_elem? xs i ≡ some x → is_empty xs ≡ false
unfolding is_empty
is_empty-get_elem? [] i e = cc
is_empty-get_elem? (y ∷ xs) i e = refl

module _ (rt : Runtime) where
  pub compute_record_leaf_hash-ok :
      (payload : RecordCanonicalPayload) (leaf : Bytes)
      → compute_record_leaf_hash rt payload ≡ ok leaf
      → (d : Bytes) × (rt.marshal_payload (normalize rt payload) ≡ some d)
        × (leaf ≡ hash_leaf rt.sha256 d)
  unfolding compute_record_leaf_hash
  compute_record_leaf_hash-ok payload leaf e =
      elim (Option-cases (rt.marshal_payload (normalize rt payload))) [
        | inl m ↦ cc (rw (compute_record_leaf_hash, m) at e)
        | inr (d, m) ↦ (d, m, sym (ok-injective (rw (compute_record_leaf_hash, m) at e)))
      ]

  check_proof-valid :
      (r : VerificationResult) (leaf root : Bytes) (c : ProofChoice)
      → r.valid ≡ false
      → (check_proof rt r leaf root c).valid ≡ true
      → (p : List ProofNode) × (c ≡ chosen p) × (verify_proof rt.sha256 leaf p root ≡ true)
  unfolding check_proof
  check_proof-valid r leaf root (refused reason) n v = cc
  check_proof-valid r leaf root (chosen p) n v = (p, refl, ground arith)

  check_leaf-valid :
      (r : VerificationResult) (i : ℕ) (b : BatchVerificationData) (h : Result Bytes)
      → r.valid ≡ false
      → (check_leaf rt r i b h).valid ≡ true
      → (leaf : Bytes) × (p : List ProofNode) × (h ≡ ok leaf)
        × (verify_proof rt.sha256 leaf p b.merkle_root ≡ true)
  unfolding check_leaf
  check_leaf-valid r i b (err e) n v = cc
  check_leaf-valid r i b (ok leaf) n v =
      let (p, _, w) = check_proof-valid r leaf b.merkle_root (choose_proof rt i b) n v in
      (leaf, p, refl, w)

  is_signed-true : (r : Result Bool) → is_signed r ≡ true → r ≡ ok true
  unfolding is_signed
  is_signed-true (ok b) e = ap ok e
  is_signed-true (err x) e = cc

  -- A record is reported as valid only if its batch's root has a signature that the signer
  -- accepts, its payload has a leaf hash, and some proof leads from there to the root.
  verify_record-valid :
      (verify : Bytes → Bytes → String → Result Bool) (now : ℕ) (id : String)
      (payload : RecordCanonicalPayload) (b : BatchVerificationData)
      → (verify_record rt verify now id (ok (payload, b))).0.valid ≡ true
      → (verify b.merkle_root b.signature b.key_version ≡ ok true)
        × (leaf : Bytes) × (p : List ProofNode) × (compute_record_leaf_hash rt payload ≡ ok leaf)
        × (verify_proof rt.sha256 leaf p b.merkle_root ≡ true)
  unfolding verify_record
  verify_record-valid verify now id payload b v =
      elim (Bool-cases (is_signed (verify b.merkle_root b.signature b.key_version))) [
        | inr f ↦ absurd (ground arith)
        | inl t ↦
            let (leaf, p, hashed, w) =
              check_leaf-valid (with_batch (unverified now id) b) payload.merkle_leaf_index b
                (compute_record_leaf_hash rt payload) refl (rw (t, verify_record) at v) in
            (is_signed-true (verify b.merkle_root b.signature b.key_version) t, leaf, p, hashed, w)
      ]

  -- If SHA-256 gives hashes of 32 bytes and a batch's root is that of the tree over the leaf
  -- hashes of the encoded payloads `ds`, then a record is reported as valid against the batch only
  -- if the signer accepts the root's signature and the record's normalized payload encodes to one
  -- of `ds`, or SHA-256 has a collision.
  pub verify_record_sound :
      (size : (m : Bytes) → length (rt.sha256 m) ≡ 32)
      (verify : Bytes → Bytes → String → Result Bool) (now : ℕ) (id : String)
      (payload : RecordCanonicalPayload) (b : BatchVerificationData) (ds : List Bytes) (t : Tree)
      → build_tree rt.sha256 (map (hash_leaf rt.sha256) ds) ≡ some t
      → b.merkle_root ≡ t.root
      → (verify_record rt verify now id (ok (payload, b))).0.valid ≡ true
      → (verify b.merkle_root b.signature b.key_version ≡ ok true)
        × (d : Bytes) × (rt.marshal_payload (normalize rt payload) ≡ some d)
        × (Occurs d ds ⊎ Collision rt.sha256)
  verify_record_sound size verify now id payload b ds t built root v =
      let (accepted, leaf, p, hashed, w) = verify_record-valid verify now id payload b v in
      let (d, encoded, same) = compute_record_leaf_hash-ok payload leaf hashed in
      let w' : verify_proof rt.sha256 (hash_leaf rt.sha256 d) p t.root ≡ true =
        subst (λ u. verify_proof rt.sha256 u p t.root ≡ true) same
          (subst (λ u. verify_proof rt.sha256 leaf p u ≡ true) root w) in
      (accepted, d, encoded, verify_proof_sound rt.sha256 size ds t built d p w')

  choose_proof-rebuilt :
      (i : ℕ) (b : BatchVerificationData) (leaf : Bytes) (t : Tree) (p : List ProofNode)
      → b.proof ≡ []
      → get_elem? b.all_leaf_hashes i ≡ some leaf
      → build_tree rt.sha256 b.all_leaf_hashes ≡ some t
      → generate_proof t (pos i) ≡ some p
      → choose_proof rt i b ≡ chosen p
  unfolding choose_proof
  choose_proof-rebuilt i b leaf t p e at built generated =
      rw (choose_proof, e, is_empty-get_elem? b.all_leaf_hashes i at, built, rebuild, generated)
        refl

  -- A record whose leaf hash stands at its index among the leaf hashes of its batch is reported as
  -- valid, if the signer accepts the signature of the batch's root, the root is that of the tree
  -- over the leaf hashes, and no proof was fetched.
  pub verify_record_complete :
      (verify : Bytes → Bytes → String → Result Bool) (now : ℕ) (id : String)
      (payload : RecordCanonicalPayload) (b : BatchVerificationData) (leaf : Bytes) (t : Tree)
      → verify b.merkle_root b.signature b.key_version ≡ ok true
      → compute_record_leaf_hash rt payload ≡ ok leaf
      → get_elem? b.all_leaf_hashes payload.merkle_leaf_index ≡ some leaf
      → build_tree rt.sha256 b.all_leaf_hashes ≡ some t
      → b.merkle_root ≡ t.root
      → b.proof ≡ []
      → (verify_record rt verify now id (ok (payload, b))).0.valid ≡ true
  unfolding verify_record check_leaf check_proof is_signed
  verify_record_complete verify now id payload b leaf t accepted hashed at built root none_fetched =
      let (t', p, built', generated, w) =
        verify_proof-generate_proof rt.sha256 b.all_leaf_hashes payload.merkle_leaf_index leaf at in
      let same : t' ≡ t = (let q : some t' ≡ some t = sym built' ∙ built in cc) in
      let chosen_p =
        choose_proof-rebuilt payload.merkle_leaf_index b leaf t p none_fetched at built
          (subst (λ u. generate_proof u (pos payload.merkle_leaf_index) ≡ some p) same generated) in
      let root' : t'.root ≡ b.merkle_root = ap (λ (u : Tree). u.root) same ∙ sym root in
      let w' : verify_proof rt.sha256 leaf p b.merkle_root ≡ true =
        subst (λ r. verify_proof rt.sha256 leaf p r ≡ true) root' w in
      rw (accepted, hashed, chosen_p, w') refl
