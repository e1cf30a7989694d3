-- ===== src/Merkle/Verifier.antt =====
-- internal/merkle/verifier.go: the verification of one record against its signed batch.
use logs_tracker.Prelude.{
  ℕ, String, Bool, true, false, ◌&&◌, not, Option, none, some, List, [], ◌∷◌, if◌then◌else◌,
}
use logs_tracker.Prelude.Int.{pos}
use logs_tracker.Prelude.Hex.{hex_encode}
use logs_tracker.Errors.{GoError, Result, ok, err}
use logs_tracker.Merkle.{Bytes, ProofNode, Tree, build_tree, generate_proof, verify_proof}
use logs_tracker.Merkle.Payload.{RecordCanonicalPayload, Runtime, compute_record_leaf_hash}

pub record BatchVerificationData : Type 0 where
  pub batch_id : String
  pub merkle_root : Bytes
  pub signature : Bytes
  pub key_version : String
  pub all_leaf_hashes : List Bytes
  pub proof : List ProofNode

-- Why a record is refused; the text of the reason names the step that failed.
pub data FailureReason : Type 0 where
  no_failure : FailureReason
  fetch_failed leaf_hash_failed : GoError → FailureReason
  invalid_batch_signature tree_failed proof_failed proof_mismatch : FailureReason

pub record VerificationResult : Type 0 where
  pub valid : Bool
  pub record_id : String
  pub batch_id : String
  pub merkle_root : Bytes
  pub merkle_root_hex : String
  pub signature : Bytes
  pub signature_hex : String
  pub key_version : String
  pub verified_at : ℕ
  pub failure_reason : FailureReason

abbrev pub unverified : ℕ → String → VerificationResult
unverified now record_id = record {
  valid = false;
  record_id = record_id;
  batch_id = "";
  merkle_root = [];
  merkle_root_hex = "";
  signature = [];
  signature_hex = "";
  key_version = "";
  verified_at = now;
  failure_reason = no_failure;
}

abbrev pub with_batch : VerificationResult → BatchVerificationData → VerificationResult
with_batch r b = record r {
  batch_id = b.batch_id;
  merkle_root = b.merkle_root;
  merkle_root_hex = hex_encode b.merkle_root;
  signature = b.signature;
  signature_hex = hex_encode b.signature;
  key_version = b.key_version;
}

abbrev pub fail_with : VerificationResult → FailureReason → VerificationResult
fail_with r reason = record r { failure_reason = reason }

unfoldable pub is_empty : {A : Type 0} → List A → Bool
is_empty [] = true
is_empty (x ∷ xs) = false

unfoldable pub is_signed : Result Bool → Bool
is_signed (ok b) = b
is_signed (err e) = false

-- The proof that is checked: the one fetched, or one rebuilt from all leaf hashes.
pub data ProofChoice : Type 0 where
  chosen : List ProofNode → ProofChoice
  refused : FailureReason → ProofChoice

module _ (rt : Runtime) where
  unfoldable pub rebuild : ℕ → Option Tree → ProofChoice
  rebuild index none = refused tree_failed
  rebuild index (some t) = elim (generate_proof t (pos index)) [
    | none ↦ refused proof_failed
    | some p ↦ chosen p
  ]

  unfoldable pub choose_proof : ℕ → BatchVerificationData → ProofChoice
  unfolding is_empty rebuild
  choose_proof index b =
      if is_empty b.proof && not (is_empty b.all_leaf_hashes)
      then rebuild index (build_tree rt.sha256 b.all_leaf_hashes)
      else chosen b.proof

  unfoldable pub check_proof : VerificationResult → Bytes → Bytes → ProofChoice → VerificationResult
  check_proof r leaf root (refused reason) = fail_with r reason
  check_proof r leaf root (chosen p) =
      if verify_proof rt.sha256 leaf p root
      then record r { valid = true }
      else fail_with r proof_mismatch

  unfoldable pub check_leaf :
      VerificationResult → ℕ → BatchVerificationData → Result Bytes → VerificationResult
  unfolding check_proof choose_proof
  check_leaf r index b (err e) = fail_with r (leaf_hash_failed e)
  check_leaf r index b (ok leaf) = check_proof r leaf b.merkle_root (choose_proof index b)

  -- `VerifyRecord`, on what the fetcher returns and the signer's `Verify`.
  unfoldable pub verify_record :
      (Bytes → Bytes → String → Result Bool)
      → ℕ
      → String
      → Result (RecordCanonicalPayload × BatchVerificationData)
      → VerificationResult × Option GoError
  unfolding is_signed check_leaf
  verify_record verify now record_id (err e) =
      (fail_with (unverified now record_id) (fetch_failed e), some e)
  verify_record verify now record_id (ok (payload, b)) =
      let r = with_batch (unverified now record_id) b in
      if is_signed (verify b.merkle_root b.signature b.key_version)
      then (check_leaf r payload.merkle_leaf_index b (compute_record_leaf_hash rt payload), none)
      else (fail_with r invalid_batch_signature, none)
